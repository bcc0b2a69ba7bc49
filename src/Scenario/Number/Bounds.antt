-- ===== src/Scenario/Number/Bounds.antt =====
-- The ranges of the numbers that toml.c reads.
use cm_dotfiles.Prelude.{
  ℕ, ◌+◌, ◌-◌, ◌*◌, ◌^◌, ◌<◌, inl, inr, Bool, true, false, List, [], ◌∷◌, arith, ltb, leb, ◌==◌,
  if◌then◌else◌, Bool-cases,
}
use cm_dotfiles.Prelude.Ensures.{Ensures, fails, gives, Ensures-bind, Ensures-if}
use cm_dotfiles.Prelude.Digits.{is_digit}
use cm_dotfiles.Scenario.Number.{
  is_space, Strtoull, no_number, out_of_range, number, in_range, digits, first_digit, signed,
  strtoull, finish_number, parse_uint64, parse_uint32, only_spaces,
}

-- What is found fits 64 bits.
abbrev Fits : Strtoull → Type 0
Fits no_number = Unit {0}
Fits out_of_range = Unit {0}
Fits (number v rest) = v < 2 ^ 64

Fits-if : (b : Bool) (x y : Strtoull) → Fits x → Fits y → Fits (if b then x else y)
Fits-if true x y p q = p
Fits-if false x y p q = q

in_range-Fits : (minus : Bool) (v : ℕ) (rest : List ℕ) → Fits (in_range minus v rest)
unfolding in_range
in_range-Fits true v rest = elim (Bool-cases (leb (2 ^ 64) v)) [
  | inl e ↦ rw e tt
  | inr e ↦ rw e (omega arith)
]
in_range-Fits false v rest = elim (Bool-cases (leb (2 ^ 64) v)) [
  | inl e ↦ rw e tt
  | inr e ↦ rw e (ground arith)
]

digits-Fits : (minus : Bool) (v : ℕ) (s : List ℕ) → Fits (digits minus v s)
unfolding digits
digits-Fits minus v [] = in_range-Fits minus v []
digits-Fits minus v (c ∷ s) =
    Fits-if (is_digit c) _ _ (digits-Fits minus (v * 10 + (c - b'0')) s)
      (in_range-Fits minus v (c ∷ s))

first_digit-Fits : (minus : Bool) (s : List ℕ) → Fits (first_digit minus s)
unfolding first_digit
first_digit-Fits minus [] = tt
first_digit-Fits minus (c ∷ s) = Fits-if (is_digit c) _ _ (digits-Fits minus 0 (c ∷ s)) tt

signed-Fits : (s : List ℕ) → Fits (signed s)
unfolding signed
signed-Fits [] = tt
signed-Fits (c ∷ s) =
    Fits-if (c == b'-') _ _ (first_digit-Fits true s)
      (Fits-if (c == b'+') _ _ (first_digit-Fits false s) (first_digit-Fits false (c ∷ s)))

strtoull-Fits : (s : List ℕ) → Fits (strtoull s)
unfolding strtoull
strtoull-Fits [] = tt
strtoull-Fits (c ∷ s) = Fits-if (is_space c) _ _ (strtoull-Fits s) (signed-Fits (c ∷ s))

finish_number-lt : (r : Strtoull) → Fits r → Ensures (λ v. v < 2 ^ 64) (finish_number r)
unfolding finish_number
finish_number-lt no_number h = fails
finish_number-lt out_of_range h = fails
finish_number-lt (number v rest) h = Ensures-if (only_spaces rest) (λ _. gives h) (λ _. fails)

pub parse_uint64-lt : (s : List ℕ) → Ensures (λ v. v < 2 ^ 64) (parse_uint64 s)
unfolding parse_uint64
parse_uint64-lt s = finish_number-lt (strtoull s) (strtoull-Fits s)

pub parse_uint32-lt : (s : List ℕ) → Ensures (λ v. v < 2 ^ 32) (parse_uint32 s)
unfolding parse_uint32
parse_uint32-lt s =
    Ensures-bind (parse_uint64-lt s)
      (λ v _. Ensures-if (ltb 0xffffffff v) (λ _. fails) (λ small. gives (ground arith)))
