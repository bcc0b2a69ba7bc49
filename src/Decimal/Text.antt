-- ===== src/Decimal/Text.antt =====
-- The decimal text of a number, digit by digit.
use cm_dotfiles.Prelude.{
  ℕ, zero, suc, ◌+◌, ◌*◌, ◌/◌, ◌%◌, ◌≤◌, ◌<◌, ◌≡◌, refl, ◌∙◌, ◌≢◌, inl, inr, true, false, List, [],
  ◌∷◌, ◌++◌, arith, leb, ◌==◌, if◌then◌else◌, ==_iff, Bool-cases,
}
use cm_dotfiles.Prelude.Finite.{all_below, all_below_at}
use cm_dotfiles.Prelude.Digits.{is_digit, AllAre, AllAre-append, decimal, decimal-append}
use cm_dotfiles.Decimal.Print.{pair_high, pair_low}

-- A digit at least, and a zero in front only where it is alone.
abbrev pub StartsWell : List ℕ → Type 0
StartsWell [] = ⊥
StartsWell (c ∷ []) = Unit {0}
StartsWell (c ∷ d ∷ s) = c ≢ b'0'

pub record IsDecimal (v : ℕ) (s : List ℕ) : Type 0 where
  pub digits : AllAre is_digit s
  pub value : decimal 0 s ≡ v
  pub start : StartsWell s

high_table : all_below 100 (λ r. pair_high r == b'0' + r / 10) ≡ true
unfolding all_below pair_high
high_table = refl

low_table : all_below 100 (λ r. pair_low r == b'0' + r % 10) ≡ true
unfolding all_below pair_low
low_table = refl

pub pair_digits : (r : ℕ) → r < 100 → (pair_high r ≡ b'0' + r / 10) × (pair_low r ≡ b'0' + r % 10)
pair_digits r h = (
  (==_iff _ _).0 (all_below_at 100 (λ k. pair_high k == b'0' + k / 10) r high_table h),
  (==_iff _ _).0 (all_below_at 100 (λ k. pair_low k == b'0' + k % 10) r low_table h),
)

-- The text with the rounds of the printers, the first digits in front.
unfoldable pub digits_of : ℕ → ℕ → List ℕ
unfolding pair_high pair_low
digits_of zero v = []
digits_of (suc n) v =
    let rest = digits_of n (v / 100) in
    if leb 100 v
    then rest ++ pair_high (v % 100) ∷ pair_low (v % 100) ∷ []
    else if leb 10 v
    then pair_high v ∷ pair_low v ∷ []
    else (b'0' + v) ∷ []

-- 100 to the number of rounds.
abbrev pub span : ℕ → ℕ
span zero = 1
span (suc n) = 100 * span n

digit_byte : (d : ℕ) → d < 10 → is_digit (b'0' + d) ≡ true
unfolding is_digit
digit_byte d h = ground arith

two_digits :
    (r : ℕ)
    → r < 100
    → AllAre is_digit (pair_high r ∷ pair_low r ∷ [])
      × ((v : ℕ) → decimal v (pair_high r ∷ pair_low r ∷ []) ≡ v * 100 + r)
unfolding decimal
two_digits r h =
    let d = pair_digits r h in
    rw (d.0, d.1)
      (
        (digit_byte (r / 10) (omega arith), (digit_byte (r % 10) (omega arith), tt)),
        λ v. omega arith,
      )

StartsWell-append : (s t : List ℕ) → StartsWell s → decimal 0 s ≢ 0 → StartsWell (s ++ t)
unfolding decimal
StartsWell-append [] t h ne = absurd h
StartsWell-append (c ∷ []) [] h ne = tt
StartsWell-append (c ∷ []) (d ∷ t) h ne = λ e. ne (omega arith)
StartsWell-append (c ∷ d ∷ s) t h ne = h

last_digits :
    (v : ℕ)
    → v < 100
    → IsDecimal v (if leb 10 v then pair_high v ∷ pair_low v ∷ [] else (b'0' + v) ∷ [])
last_digits v h = elim (Bool-cases (leb 10 v)) [
  | inl two ↦
      let t = two_digits v h in
      let first : pair_high v ≢ b'0' = λ e. absurd (ground (arith, (pair_digits v h).0)) in
      rw two (record { digits = t.0; value = t.1 0 ∙ omega arith; start = first })
  | inr one ↦
      let small : v < 10 = ground arith in
      rw one (record {
        digits = (digit_byte v small, tt);
        value = unfold decimal in omega arith;
        start = tt;
      })
]

more_digits :
    (v : ℕ) (s : List ℕ)
    → 100 ≤ v
    → IsDecimal (v / 100) s
    → IsDecimal v (s ++ pair_high (v % 100) ∷ pair_low (v % 100) ∷ [])
more_digits v s h d =
    let t = two_digits (v % 100) (omega arith) in
    record {
      digits = AllAre-append is_digit s _ d.digits t.0;
      value = decimal-append 0 s _ ∙ (t.1 (decimal 0 s) ∙ omega (arith, d.value));
      start = StartsWell-append s _ d.start (λ e. absurd (omega (arith, d.value)));
    }

pub digits_of-IsDecimal : (n v : ℕ) → v < span (suc n) → IsDecimal v (digits_of (suc n) v)
unfolding digits_of
digits_of-IsDecimal zero v h =
    let e : leb 100 v ≡ false = ground arith in rw e (last_digits v (omega arith))
digits_of-IsDecimal (suc n) v h = elim (Bool-cases (leb 100 v)) [
  | inl large ↦
      let ih = digits_of-IsDecimal n (v / 100) (omega arith) in
      rw large (more_digits v _ (ground arith) ih)
  | inr small ↦ rw small (last_digits v (ground arith))
]
