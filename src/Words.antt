-- ===== src/Words.antt =====
-- backend/src/common/utils/amount-to-words.util.ts, of which
-- backend/worker-service/src/utils/amount-to-words.ts is a copy. An amount is a whole number of
-- paise, from 0, and a text is the list of its characters' codes.
pub mod Reading
pub mod Spelled
pub mod RoundTrip
use biz_saathi.Prelude.{
  ℕ, zero, suc, ◌+◌, ◌/◌, ◌%◌, Bool, true, false, ◌&&◌, List, [], ◌∷◌, ◌++◌, ltb, ◌==◌,
  if◌then◌else◌,
}
use biz_saathi.Text.{codes}

-- `list[i]` in a text.
abbrev pub entry : List (List ℕ) → ℕ → List ℕ
entry [] i = codes "undefined"
entry (w ∷ ws) zero = w
entry (w ∷ ws) (suc i) = entry ws i

-- The array `a`.
abbrev pub small_numbers : List (List ℕ)
small_numbers =
    []
    ∷ codes "One "
    ∷ codes "Two "
    ∷ codes "Three "
    ∷ codes "Four "
    ∷ codes "Five "
    ∷ codes "Six "
    ∷ codes "Seven "
    ∷ codes "Eight "
    ∷ codes "Nine "
    ∷ codes "Ten "
    ∷ codes "Eleven "
    ∷ codes "Twelve "
    ∷ codes "Thirteen "
    ∷ codes "Fourteen "
    ∷ codes "Fifteen "
    ∷ codes "Sixteen "
    ∷ codes "Seventeen "
    ∷ codes "Eighteen "
    ∷ codes "Nineteen "
    ∷ []

-- The array `b`.
abbrev pub tens : List (List ℕ)
tens =
    []
    ∷ []
    ∷ codes "Twenty"
    ∷ codes "Thirty"
    ∷ codes "Forty"
    ∷ codes "Fifty"
    ∷ codes "Sixty"
    ∷ codes "Seventy"
    ∷ codes "Eighty"
    ∷ codes "Ninety"
    ∷ []

-- `convertBlock`, whose `n` shrinks as its parts are written.
unfoldable pub below_twenty : ℕ → List ℕ
below_twenty n = if ltb 0 n then entry small_numbers n else []

unfoldable pub below_hundred : ℕ → List ℕ
below_hundred n =
    if ltb 19 n then (entry tens (n / 10) ++ codes " ") ++ below_twenty (n % 10) else below_twenty n

unfoldable pub convert_block : ℕ → List ℕ
convert_block n =
    if ltb 99 n
    then (entry small_numbers (n / 100) ++ codes "Hundred ") ++ below_hundred (n % 100)
    else below_hundred n

-- `str.trim()`, where a text has no other white space than spaces.
abbrev pub trim_start : List ℕ → List ℕ
trim_start [] = []
trim_start (c ∷ s) = let rest = trim_start s in if c == b' ' then rest else c ∷ s

abbrev pub is_empty : List ℕ → Bool
is_empty [] = true
is_empty _ = false

abbrev pub trim_end : List ℕ → List ℕ
trim_end [] = []
trim_end (c ∷ s) = let rest = trim_end s in if is_empty rest && c == b' ' then [] else c ∷ rest

unfoldable pub trim : List ℕ → List ℕ
trim s = trim_start (trim_end s)

-- A block with the word of its scale, if it is above 0.
abbrev pub scaled : ℕ → List ℕ → List ℕ
scaled n scale = if ltb 0 n then convert_block n ++ scale else []

-- `convertAmount` before its `trim`.
unfoldable pub amount_blocks : ℕ → List ℕ
amount_blocks num =
    scaled (num / 10_000_000) (codes "Crore ")
    ++ (scaled (num % 10_000_000 / 100_000) (codes "Lakh ")
        ++ (scaled (num % 10_000_000 % 100_000 / 1000) (codes "Thousand ")
            ++ scaled (num % 10_000_000 % 100_000 % 1000) []))

-- `convertAmount`.
unfoldable pub convert_amount : ℕ → List ℕ
convert_amount num = trim (amount_blocks num)

-- `amountToWords`, at an amount in paise.
unfoldable pub amount_to_words : ℕ → List ℕ
amount_to_words amount =
    let rupees = convert_amount (amount / 100) ++ codes " Rupees" in
    let paise = amount % 100 in
    let result =
      if ltb 0 paise
      then rupees ++ (codes " and " ++ (convert_amount paise ++ codes " Paise"))
      else rupees in
    if amount == 0 then codes "Zero Rupees Only" else result ++ codes " Only"
