-- ===== src/Words/Spelled.antt =====
-- What reading the blocks of an amount does.
use biz_saathi.Prelude.{
  ℕ, zero, suc, ◌+◌, ◌*◌, ◌/◌, ◌%◌, ◌<◌, ◌≤◌, ◌≡◌, refl, ap, ◌∙◌, true, List, [], ◌∷◌, ◌++◌, arith,
  ltb, length, Bool-cases, inl, inr,
}
use biz_saathi.Text.{codes}
use biz_saathi.Words.{entry, small_numbers, tens, below_twenty, below_hundred, convert_block}
use biz_saathi.Words.Reading.{Reader, plus, read_words, split}

-- A text of whole words, and what reading it does.
abbrev Reads : List ℕ → (Reader → Reader) → Type 0
Reads s f =
    (r : Reader) (rest : List ℕ)
    → read_words (split [] (s ++ rest)) r ≡ read_words (split [] rest) (f r)

-- Each text of a list, closed, reads as its number.
abbrev Tabled : (value : ℕ → ℕ) → (close : List ℕ → List ℕ) → ℕ → List (List ℕ) → Type 0
Tabled value close i [] = Unit
Tabled value close i (w ∷ ws) = Reads (close w) (plus (value i)) × Tabled value close (suc i) ws

entry-Reads :
    (value : ℕ → ℕ) (close : List ℕ → List ℕ) (i j : ℕ) (ws : List (List ℕ))
    → Tabled value close i ws
    → j < length ws
    → Reads (close (entry ws j)) (plus (value (i + j)))
entry-Reads value close i j [] t lt = absurd (ground arith)
entry-Reads value close i zero (w ∷ ws) t lt = let same : i + 0 ≡ i = omega arith in rw same t.0
entry-Reads value close i (suc j) (w ∷ ws) t lt =
    let same : i + suc j ≡ suc i + j = omega arith in
    rw same (entry-Reads value close (suc i) j ws t.1 (omega arith))

-- The entries from the second, and from the third.
abbrev later_entries : List (List ℕ) → List (List ℕ)
later_entries [] = []
later_entries (w ∷ ws) = ws

small-Tabled : Tabled (λ i. i) (λ w. w) 1 (later_entries small_numbers)
small-Tabled = (
  λ r rest. refl,
  (
    λ r rest. refl,
    (
      λ r rest. refl,
      (
        λ r rest. refl,
        (
          λ r rest. refl,
          (
            λ r rest. refl,
            (
              λ r rest. refl,
              (
                λ r rest. refl,
                (
                  λ r rest. refl,
                  (
                    λ r rest. refl,
                    (
                      λ r rest. refl,
                      (
                        λ r rest. refl,
                        (
                          λ r rest. refl,
                          (
                            λ r rest. refl,
                            (
                              λ r rest. refl,
                              (
                                λ r rest. refl,
                                (λ r rest. refl, (λ r rest. refl, (λ r rest. refl, tt))),
                              ),
                            ),
                          ),
                        ),
                      ),
                    ),
                  ),
                ),
              ),
            ),
          ),
        ),
      ),
    ),
  ),
)

tens-Tabled : Tabled (λ i. i * 10) (λ w. w ++ codes " ") 2 (later_entries (later_entries tens))
tens-Tabled = (
  λ r rest. refl,
  (
    λ r rest. refl,
    (
      λ r rest. refl,
      (λ r rest. refl, (λ r rest. refl, (λ r rest. refl, (λ r rest. refl, (λ r rest. refl, tt))))),
    ),
  ),
)

pub append_assoc : (xs ys zs : List ℕ) → (xs ++ ys) ++ zs ≡ xs ++ (ys ++ zs)
append_assoc [] ys zs = refl
append_assoc (x ∷ xs) ys zs = rw (append_assoc xs ys zs) refl

-- One text after another.
Reads-append :
    {f g : Reader → Reader} (s t : List ℕ) → Reads s f → Reads t g → Reads (s ++ t) (λ r. g (f r))
Reads-append {f} {g} s t hs ht r rest =
    rw (append_assoc s t rest) (hs r (t ++ rest) ∙ ht (f r) rest)

plus-plus : (m n : ℕ) (r : Reader) → plus n (plus m r) ≡ plus (m + n) r
plus-plus m n r = ap (λ b. record r { block = b }) (omega arith)

plus_zero : (r : Reader) → r ≡ plus 0 r
plus_zero r = ap (λ b. record r { block = b }) (omega arith)

below_twenty-Reads : (n : ℕ) → n < 20 → Reads (below_twenty n) (plus n)
unfolding below_twenty
below_twenty-Reads zero lt r rest = ap (read_words (split [] rest)) (plus_zero r)
below_twenty-Reads (suc n) lt r rest =
    let above : ltb 0 (suc n) ≡ true = ground arith in
    rw above (
      entry-Reads (λ i. i) (λ w. w) 1 n (later_entries small_numbers) small-Tabled (omega arith) r
        rest
      ∙ ap (λ k. read_words (split [] rest) (plus k r)) (omega arith))

-- The word of a ten.
ten-Reads : (t : ℕ) → 2 ≤ t → t < 10 → Reads (entry tens t ++ codes " ") (plus (t * 10))
ten-Reads zero two lt r rest = absurd (ground arith)
ten-Reads (suc zero) two lt r rest = absurd (ground arith)
ten-Reads (suc (suc t)) two lt r rest =
    entry-Reads (λ i. i * 10) (λ w. w ++ codes " ") 2 t (later_entries (later_entries tens))
      tens-Tabled (omega arith) r rest
    ∙ ap (λ k. read_words (split [] rest) (plus (k * 10) r)) (omega arith)

Reads-plus :
    (s : List ℕ) (m n k : ℕ) (t : List ℕ)
    → m + n ≡ k
    → Reads s (plus m)
    → Reads t (plus n)
    → Reads (s ++ t) (plus k)
Reads-plus s m n k t e hs ht r rest =
    Reads-append s t hs ht r rest
    ∙ ap (read_words (split [] rest)) (plus-plus m n r ∙ ap (λ x. plus x r) e)

below_hundred-Reads : (n : ℕ) → n < 100 → Reads (below_hundred n) (plus n)
unfolding below_hundred
below_hundred-Reads n lt = elim (Bool-cases (ltb 19 n)) [
  | inl e ↦ rw e (
      Reads-plus (entry tens (n / 10) ++ codes " ") (n / 10 * 10) (n % 10) n (below_twenty (n % 10))
        (omega arith) (ten-Reads (n / 10) (ground arith) (ground arith))
        (below_twenty-Reads (n % 10) (omega arith)))
  | inr e ↦ rw e (below_twenty-Reads n (ground arith))
]

-- A block that is read where no block has begun, of at most nineteen hundreds.
hundred-Reads :
    (h : ℕ)
    → 0 < h
    → h < 20
    → (r : Reader) → r.block ≡ 0
    → (rest : List ℕ)
    → read_words (split [] ((entry small_numbers h ++ codes "Hundred ") ++ rest)) r
      ≡ read_words (split [] rest) (plus (h * 100) r)
hundred-Reads zero some_h lt r none_yet rest = absurd (ground arith)
hundred-Reads (suc h) some_h lt r none_yet rest =
    let word =
      entry-Reads (λ i. i) (λ w. w) 1 h (later_entries small_numbers) small-Tabled (omega arith) r
        (codes "Hundred " ++ rest) in
    rw (append_assoc (entry small_numbers (suc h)) (codes "Hundred ") rest) (
      word
      ∙ ap (λ b. read_words (split [] rest) (record r { block = b })) (rw none_yet (omega arith)))

pub convert_block-reads :
    (n : ℕ)
    → n < 2000
    → (r : Reader) → r.block ≡ 0
    → (rest : List ℕ)
    → read_words (split [] (convert_block n ++ rest)) r ≡ read_words (split [] rest) (plus n r)
unfolding convert_block
convert_block-reads n lt r none_yet rest = elim (Bool-cases (ltb 99 n)) [
  | inl e ↦ rw e (
      rw
        (append_assoc (entry small_numbers (n / 100) ++ codes "Hundred ") (below_hundred (n % 100))
          rest)
        (hundred-Reads (n / 100) (ground arith) (ground arith) r none_yet
            (below_hundred (n % 100) ++ rest)
          ∙ below_hundred-Reads (n % 100) (omega arith) (plus (n / 100 * 100) r) rest
          ∙ ap (read_words (split [] rest))
              (plus-plus (n / 100 * 100) (n % 100) r ∙ ap (λ x. plus x r) (omega arith))))
  | inr e ↦ rw e (below_hundred-Reads n (ground arith) r rest)
]
