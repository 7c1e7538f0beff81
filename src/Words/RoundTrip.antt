-- ===== src/Words/RoundTrip.antt =====
-- The round trip of an amount through its words.
use biz_saathi.Prelude.{
  ℕ, zero, suc, ◌+◌, ◌*◌, ◌/◌, ◌%◌, ◌<◌, ◌≡◌, refl, ap, ◌∙◌, true, false, ◌&&◌, List, [], ◌∷◌, ◌++◌,
  arith, ltb, ◌==◌, Bool-cases, inl, inr,
}
use biz_saathi.Text.{codes}
use biz_saathi.Words.{
  convert_block, trim_start, trim_end, is_empty, trim, scaled, amount_blocks, convert_amount,
  amount_to_words,
}
use biz_saathi.Words.Reading.{Reader, flush, split, plus, scale_by, read_words, blank, read_amount}
use biz_saathi.Words.Spelled.{append_assoc, convert_block-reads}

-- The number so far has grown, and no block has begun.
abbrev advance : ℕ → Reader → Reader
advance n r = record r { number = r.number + n; block = 0 }

advance_zero : (r : Reader) → r.block ≡ 0 → r ≡ advance 0 r
advance_zero r none_yet =
    ap (λ b. record r { block = b }) none_yet
    ∙ ap (λ k. record r { number = k; block = 0 }) (omega arith)

advance-advance : (m n : ℕ) (r : Reader) → advance n (advance m r) ≡ advance (m + n) r
advance-advance m n r = ap (λ k. record r { number = k; block = 0 }) (omega arith)

-- A block with its scale, where no block has begun.
module _ (word : List ℕ) (k : ℕ)
    (scales : (r : Reader) (rest : List ℕ)
      → read_words (split [] (word ++ rest)) r ≡ read_words (split [] rest) (scale_by k r)) where
  scaled-reads :
      (n : ℕ)
      → n < 2000
      → (r : Reader) → r.block ≡ 0
      → (rest : List ℕ)
      → read_words (split [] (scaled n word ++ rest)) r
        ≡ read_words (split [] rest) (advance (n * k) r)
  scaled-reads zero lt r none_yet rest =
      ap (read_words (split [] rest))
        (advance_zero r none_yet ∙ ap (λ m. advance m r) (omega arith))
  scaled-reads (suc n) lt r none_yet rest =
      let above : ltb 0 (suc n) ≡ true = ground arith in
      let same : (r.block + suc n) * k ≡ suc n * k = rw none_yet (omega arith) in
      rw above (
        rw (append_assoc (convert_block (suc n)) word rest) (
          convert_block-reads (suc n) lt r none_yet (word ++ rest)
          ∙ scales (plus (suc n) r) rest
          ∙ ap (λ m. read_words (split [] rest) (advance m r)) same))

-- The last block, which has no scale.
unscaled-reads :
    (n : ℕ)
    → n < 2000
    → (r : Reader) → r.block ≡ 0
    → (rest : List ℕ)
    → read_words (split [] (scaled n [] ++ rest)) r ≡ read_words (split [] rest) (plus n r)
unscaled-reads zero lt r none_yet rest =
    ap (read_words (split [] rest)) (ap (λ b. record r { block = b }) (omega arith))
unscaled-reads (suc n) lt r none_yet rest =
    let above : ltb 0 (suc n) ≡ true = ground arith in
    rw above (
      rw (append_assoc (convert_block (suc n)) [] rest)
        (convert_block-reads (suc n) lt r none_yet rest))

-- Reading the blocks of a number gives the number.
amount_blocks-reads :
    (num : ℕ)
    → num < 20_000_000_000
    → (r : Reader) → r.block ≡ 0
    → (rest : List ℕ)
    → read_words (split [] (amount_blocks num ++ rest)) r
      ≡ read_words (split [] rest) (plus (num % 1000) (advance (num / 1000 * 1000) r))
unfolding amount_blocks
amount_blocks-reads num lt r none_yet rest =
    let c = num / 10_000_000 in
    let l = num % 10_000_000 / 100_000 in
    let t = num % 10_000_000 % 100_000 / 1000 in
    let h = num % 10_000_000 % 100_000 % 1000 in
    let crores = scaled c (codes "Crore ") in
    let lakhs = scaled l (codes "Lakh ") in
    let thousands = scaled t (codes "Thousand ") in
    let r1 = advance (c * 10_000_000) r in
    let r2 = advance (l * 100_000) r1 in
    let r3 = advance (t * 1000) r2 in
    let sum : advance (t * 1000) (advance (l * 100_000) (advance (c * 10_000_000) r))
        ≡ advance (num / 1000 * 1000) r =
      ap (λ k. record r { number = k; block = 0 }) (omega arith) in
    let low : h ≡ num % 1000 = omega arith in
    rw (append_assoc crores (lakhs ++ (thousands ++ scaled h [])) rest) (
      rw (append_assoc lakhs (thousands ++ scaled h []) rest) (
        rw (append_assoc thousands (scaled h []) rest) (
          scaled-reads (codes "Crore ") 10_000_000 (λ r rest. refl) c (omega arith) r none_yet
            (lakhs ++ (thousands ++ (scaled h [] ++ rest)))
          ∙ scaled-reads (codes "Lakh ") 100_000 (λ r rest. refl) l (omega arith) r1 refl
              (thousands ++ (scaled h [] ++ rest))
          ∙ scaled-reads (codes "Thousand ") 1000 (λ r rest. refl) t (omega arith) r2 refl
              (scaled h [] ++ rest)
          ∙ unscaled-reads h (omega arith) r3 refl rest
          ∙ ap (λ x. read_words (split [] rest) (plus h x)) sum
          ∙ ap (λ x. read_words (split [] rest) (plus x (advance (num / 1000 * 1000) r))) low)))

empty_list : (s : List ℕ) → is_empty s ≡ true → s ≡ []
empty_list [] h = refl
empty_list (c ∷ s) h = cc

-- Before a space, trimming changes no word.
trim_end-split :
    (begun s rest : List ℕ)
    → split begun (trim_end s ++ b' ' ∷ rest) ≡ split begun (s ++ b' ' ∷ rest)
trim_end-split begun [] rest = refl
trim_end-split begun (c ∷ s) rest = elim (Bool-cases (c == b' ')) [
  | inl space ↦ elim (Bool-cases (is_empty (trim_end s))) [
    | inl e ↦
        let nothing : trim_end s ≡ [] = empty_list (trim_end s) e in
        let inner : split [] rest ≡ split [] (s ++ b' ' ∷ rest) =
          rw nothing at (trim_end-split [] s rest) in
        rw e (rw space (ap (flush begun) inner))
    | inr e ↦ rw e (rw space (ap (flush begun) (trim_end-split [] s rest)))
  ]
  | inr other ↦
      let kept : (is_empty (trim_end s) && c == b' ') ≡ false = rw other (ground arith) in
      rw kept (rw other (trim_end-split (begun ++ c ∷ []) s rest))
]

trim_start-split : (s rest : List ℕ) → split [] (trim_start s ++ rest) ≡ split [] (s ++ rest)
trim_start-split [] rest = refl
trim_start-split (c ∷ s) rest = elim (Bool-cases (c == b' ')) [
  | inl e ↦ rw e (trim_start-split s rest)
  | inr e ↦ rw e (rw e refl)
]

trim-split : (s rest : List ℕ) → split [] (trim s ++ b' ' ∷ rest) ≡ split [] (s ++ b' ' ∷ rest)
unfolding trim
trim-split s rest = trim_start-split (trim_end s) (b' ' ∷ rest) ∙ trim_end-split [] s rest

-- A number before a space.
convert_amount-reads :
    (num : ℕ)
    → num < 20_000_000_000
    → (r : Reader) → r.block ≡ 0
    → (rest : List ℕ)
    → read_words (split [] (convert_amount num ++ b' ' ∷ rest)) r
      ≡ read_words (split [] rest) (plus (num % 1000) (advance (num / 1000 * 1000) r))
unfolding convert_amount
convert_amount-reads num lt r none_yet rest =
    ap (λ ws. read_words ws r) (trim-split (amount_blocks num) rest)
    ∙ amount_blocks-reads num lt r none_yet (b' ' ∷ rest)

abbrev counted : ℕ → Reader
counted p = record { paise = p; number = 0; block = 0 }

-- The rupees of an amount, before a space.
rupees-reads :
    (num : ℕ)
    → num < 20_000_000_000
    → (rest : List ℕ)
    → read_words (split [] ((convert_amount num ++ codes " Rupees") ++ b' ' ∷ rest)) blank
      ≡ read_words (split [] rest) (counted (num * 100))
rupees-reads num lt rest = rw (append_assoc (convert_amount num) (codes " Rupees") (b' ' ∷ rest)) (
    convert_amount-reads num lt blank refl (codes "Rupees " ++ rest)
    ∙ ap (λ p. read_words (split [] rest) (counted p)) (omega arith))

paise-reads :
    (num p : ℕ)
    → num < 100
    → (read_words
        (split [] ((convert_amount num ++ codes " Paise") ++ codes " Only"))
        (counted p)).paise
      ≡ p + num
paise-reads num p lt = rw (append_assoc (convert_amount num) (codes " Paise") (codes " Only")) (
    rw (convert_amount-reads num (omega arith) (counted p) refl (codes "Paise Only")) (omega arith))

-- The words of an amount below 2,000 crore rupees, read back, give the amount to the paisa.
pub read_amount_to_words : (n : ℕ) → n < 2_000_000_000_000 → read_amount (amount_to_words n) ≡ n
unfolding read_amount amount_to_words
read_amount_to_words zero lt = refl
read_amount_to_words (suc m) lt =
    let nonzero : (suc m == 0) ≡ false = ground arith in
    let rupees = convert_amount (suc m / 100) ++ codes " Rupees" in
    let paise = convert_amount (suc m % 100) ++ codes " Paise" in
    elim (Bool-cases (ltb 0 (suc m % 100))) [
      | inl e ↦ rw nonzero (
          rw e (
            rw (append_assoc rupees (codes " and " ++ paise) (codes " Only")) (
              ap (λ (r : Reader). r.paise)
                (rupees-reads (suc m / 100) (omega arith)
                  (codes "and " ++ (paise ++ codes " Only")))
              ∙ paise-reads (suc m % 100) (suc m / 100 * 100) (omega arith)
              ∙ omega arith)))
      | inr e ↦ rw nonzero (
          rw e (
            ap (λ (r : Reader). r.paise) (rupees-reads (suc m / 100) (omega arith) (codes "Only"))
            ∙ ground arith))
    ]
