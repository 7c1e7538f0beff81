-- ===== src/Words/Reading.antt =====
-- A reader of amounts in words.
use biz_saathi.Prelude.{
  ℕ, suc, ◌+◌, ◌*◌, Bool, true, false, ◌&&◌, Option, none, some, List, [], ◌∷◌, ◌++◌, ◌==◌,
  if◌then◌else◌,
}
use biz_saathi.Text.{codes}

-- The words of a text, without the spaces between them.
abbrev pub flush : List ℕ → List (List ℕ) → List (List ℕ)
flush [] ws = ws
flush (c ∷ w) ws = (c ∷ w) ∷ ws

-- `begun` is the word that has begun before the text.
abbrev pub split : (begun : List ℕ) → List ℕ → List (List ℕ)
split begun [] = flush begun []
split begun (c ∷ s) =
    let next = split [] s in
    let longer = split (begun ++ c ∷ []) s in if c == b' ' then flush begun next else longer

abbrev pub same_word : List ℕ → List ℕ → Bool
same_word [] [] = true
same_word (c ∷ s) (d ∷ t) = c == d && same_word s t
same_word _ _ = false

abbrev pub position : List (List ℕ) → List ℕ → Option ℕ
position [] w = none
position (v ∷ vs) w =
    let later = position vs w in
    if same_word v w then some 0 else elim later [ none ↦ none | some i ↦ some (suc i) ]

abbrev number_names : List (List ℕ)
number_names =
    codes "Zero"
    ∷ codes "One"
    ∷ codes "Two"
    ∷ codes "Three"
    ∷ codes "Four"
    ∷ codes "Five"
    ∷ codes "Six"
    ∷ codes "Seven"
    ∷ codes "Eight"
    ∷ codes "Nine"
    ∷ codes "Ten"
    ∷ codes "Eleven"
    ∷ codes "Twelve"
    ∷ codes "Thirteen"
    ∷ codes "Fourteen"
    ∷ codes "Fifteen"
    ∷ codes "Sixteen"
    ∷ codes "Seventeen"
    ∷ codes "Eighteen"
    ∷ codes "Nineteen"
    ∷ []

abbrev ten_names : List (List ℕ)
ten_names =
    codes "Twenty"
    ∷ codes "Thirty"
    ∷ codes "Forty"
    ∷ codes "Fifty"
    ∷ codes "Sixty"
    ∷ codes "Seventy"
    ∷ codes "Eighty"
    ∷ codes "Ninety"
    ∷ []

-- The paise that are read, the number so far, and the part of it below the next scale.
pub record Reader : Type 0 where
  pub paise : ℕ
  pub number : ℕ
  pub block : ℕ

abbrev pub plus : ℕ → Reader → Reader
plus n r = record r { block = r.block + n }

abbrev pub scale_by : ℕ → Reader → Reader
scale_by n r = record r { number = r.number + r.block * n; block = 0 }

-- A number of a currency ends.
abbrev pub count_as : ℕ → Reader → Reader
count_as n r = record r { paise = r.paise + (r.number + r.block) * n; number = 0; block = 0 }

abbrev read_scale : List ℕ → Reader → Reader
read_scale w r =
    if same_word w (codes "Hundred")
    then record r { block = r.block * 100 }
    else if same_word w (codes "Thousand")
    then scale_by 1000 r
    else if same_word w (codes "Lakh")
    then scale_by 100_000 r
    else if same_word w (codes "Crore")
    then scale_by 10_000_000 r
    else if same_word w (codes "Rupees")
    then count_as 100 r
    else if same_word w (codes "Paise")
    then count_as 1 r
    else r

abbrev pub read_word : List ℕ → Reader → Reader
read_word w r = elim (position number_names w) [
  | some i ↦ plus i r
  | none ↦ elim (position ten_names w) [ some i ↦ plus ((i + 2) * 10) r | none ↦ read_scale w r ]
]

abbrev pub read_words : List (List ℕ) → Reader → Reader
read_words [] r = r
read_words (w ∷ ws) r = read_words ws (read_word w r)

abbrev pub blank : Reader
blank = record { paise = 0; number = 0; block = 0 }

-- The amount that a text names, in paise.
unfoldable pub read_amount : List ℕ → ℕ
read_amount s = (read_words (split [] s) blank).paise
