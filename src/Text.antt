-- ===== src/Text.antt =====
-- Texts that the code builds from numbers: `toString`, `padStart`, `slice`. A text is the list of
-- its characters' codes.
pub mod Decimal
use Prim.Native.Char.{code}
use Prim.Native.String.{String}
use biz_saathi.Prelude.{
  ℕ, zero, suc, ◌+◌, ◌-◌, ◌/◌, ◌%◌, List, [], ◌∷◌, ◌++◌, ltb, if◌then◌else◌, length,
}

abbrev pub codes : String → List ℕ
codes String.[] = []
codes (String.◌∷◌ c s) = code c ∷ codes s

-- The decimal digits of n, with fuel above n.
pub digits : ℕ → ℕ → List ℕ
digits zero n = []
digits (suc f) n =
    let more = digits f (n / 10) ++ (48 + n % 10) ∷ [] in if ltb n 10 then (48 + n) ∷ [] else more

-- `n.toString()`.
unfoldable pub to_string : ℕ → List ℕ
unfolding digits
to_string n = digits (suc n) n

abbrev pub replicate : ℕ → ℕ → List ℕ
replicate zero c = []
replicate (suc n) c = c ∷ replicate n c

-- `s.padStart(width, '0')`.
unfoldable pub pad_start : ℕ → List ℕ → List ℕ
pad_start width s = replicate (width - length s) b'0' ++ s

-- `s.slice(n)`, for n from 0.
abbrev pub slice_from : ℕ → List ℕ → List ℕ
slice_from zero s = s
slice_from (suc n) [] = []
slice_from (suc n) (c ∷ s) = slice_from n s
