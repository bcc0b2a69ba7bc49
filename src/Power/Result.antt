-- ===== src/Power/Result.antt =====
-- The powers that ipow.c computes.
use cm_dotfiles.Prelude.{
  ℕ, zero, suc, ◌+◌, ◌-◌, ◌*◌, ◌/◌, ◌%◌, ◌^◌, ◌≤◌, ◌<◌, bit_and, ◌≡◌, refl, sym, ap, ◌∙◌, ◌⊎◌, inl,
  inr, Bool, true, false, ◌&&◌, ◌||◌, not, Option, none, some, arith, ltb, leb, ◌==◌, if◌then◌else◌,
  ==_iff, get_or, u64, sub64,
}
use native.Mathlib.Decide.{dec_lt, ℕ_discrete}
use mathlib.Core.Path.{subst}
use native.Mathlib.Nat.{
  pow-suc, pow-zero, one-mul, one-le-pow, mul-le-mul, pow-le-pow_left, pow-le-pow_right,
}
use cm_dotfiles.Prelude.Finite.{all_below, all_below_at}
use cm_dotfiles.Power.{magnitude, multiply, highest_bit_set, cases_from, large_exponent, ipow}
use cm_dotfiles.Power.Rounds.{low_bit, even_round, odd_round}
use cm_dotfiles.Power.Exact.{magnitude-mul, mul_int-some, factor_le, square_le, even_left, odd_left}

multiply-odd :
    (base exp result : ℕ)
    → exp % 2 ≡ 1
    → magnitude result * magnitude base < 2 ^ 63
    → multiply base exp result ≡ some (u64 (result * base))
unfolding multiply
multiply-odd base exp result o h =
    let test : (bit_and exp 1 == 1) ≡ true = ground (arith, low_bit exp) in
    rw test (mul_int-some result base h)

multiply-even : (base exp result : ℕ) → exp % 2 ≡ 0 → multiply base exp result ≡ some result
unfolding multiply
multiply-even base exp result e =
    let test : (bit_and exp 1 == 1) ≡ false = ground (arith, low_bit exp) in rw test refl

parity : (exp : ℕ) → (exp % 2 ≡ 0) ⊎ (exp % 2 ≡ 1)
parity exp = grind arith

power_one : (m : ℕ) → m ^ 1 ≡ m
power_one m = pow-suc m 0 ∙ (ap (λ (t : ℕ). t * m) (pow-zero m) ∙ one-mul m)

-- The exponent has just as many bits as there are cases left, or none, and the product with the
-- power that is left is a number of 64 bits.
Remains : ℕ → ℕ → ℕ → ℕ → Type 0
Remains k base exp result =
    (exp < 2 ^ k)
    × (2 ^ k ≤ 2 * exp + 1)
    × (base < 2 ^ 64)
    × (result < 2 ^ 64)
    × (1 ≤ magnitude base)
    × (1 ≤ magnitude result)
    × (magnitude result * magnitude base ^ exp < 2 ^ 63)

cases_from_lem :
    (k base exp result : ℕ)
    → Remains k base exp result
    → cases_from k base exp result ≡ some (u64 (result * base ^ exp))
unfolding cases_from Remains
cases_from_lem zero base exp result (below, from, b, r, mb, mr, fits) =
    let none_left : exp ≡ 0 = omega arith in
    ap (λ (t : ℕ). some t)
      (sym (
        ap (λ (t : ℕ). u64 (result * t)) (ap (λ (n : ℕ). base ^ n) none_left ∙ pow-zero base)
        ∙ omega arith))
cases_from_lem (suc zero) base exp result (below, from, b, r, mb, mr, fits) =
    let one_left : exp ≡ 1 = omega arith in
    let whole : base ^ exp ≡ base = ap (λ (n : ℕ). base ^ n) one_left ∙ power_one base in
    let small = factor_le (magnitude result) (magnitude base) exp mb (omega arith) in
    multiply-odd base exp result (omega arith) (omega (arith, small))
    ∙ ap (λ (t : ℕ). some (u64 (result * t))) (sym whole)
cases_from_lem (suc (suc k)) base exp result (below, from, b, r, mb, mr, fits) =
    let halves = pow-suc 2 (suc k) in
    let square_fits =
      square_le (magnitude result) (magnitude base) exp mr mb
        (omega (arith, halves, one-le-pow k 2, pow-suc 2 k)) in
    let square = mul_int-some base base (omega (arith, square_fits)) in
    let size = magnitude-mul base base b b (omega (arith, square_fits)) in
    let unit = mul-le-mul {n₁ = 1} {m₁ = 1} mb mb in
    let shorter : exp / 2 < 2 ^ suc k = omega (arith, halves) in
    let as_long : 2 ^ suc k ≤ 2 * (exp / 2) + 1 = omega (arith, halves) in
    let q = magnitude result in
    let m = magnitude base in
    elim (parity exp) [
      | inl e ↦
          let left = even_left q m exp e in
          rw (multiply-even base exp result e, square)
            (cases_from_lem (suc k) (u64 (base * base)) (exp / 2) result
                (shorter, as_long, omega arith, r, rw size unit, mr, rw size (omega (arith, left)))
              ∙ ap (λ (t : ℕ). some t) (even_round base exp result e))
      | inr o ↦
          let left = odd_left q m exp o in
          let small : q * m < 2 ^ 63 = omega (arith, factor_le q m exp mb (omega arith)) in
          let moved = magnitude-mul result base r b small in
          rw (multiply-odd base exp result o small, square)
            (cases_from_lem (suc k) (u64 (base * base)) (exp / 2) (u64 (result * base)) (
              shorter,
              as_long,
              omega arith,
              omega arith,
              rw size unit,
              rw moved (mul-le-mul {n₁ = 1} {m₁ = 1} mr mb),
              rw (size, moved) (omega (arith, left)),
            )
              ∙ ap (λ (t : ℕ). some t) (odd_round base exp result o))
    ]

-- The table bounds the exponent: below 63, an entry is a number of bits.
bits_of : ℕ → Bool
bits_of exp =
    let highest = get_or highest_bit_set exp 0 in
    ltb exp (2 ^ highest) && leb (2 ^ highest) (2 * exp + 1) && not (highest == 255)

saturated : ℕ → Bool
saturated exp = ltb exp 63 || (get_or highest_bit_set exp 0 == 255)

table_low : (exp : ℕ) → exp < 63 → bits_of exp ≡ true
unfolding highest_bit_set all_below bits_of
table_low exp h = all_below_at 63 bits_of exp refl h

table_high : (exp : ℕ) → exp < 256 → saturated exp ≡ true
unfolding highest_bit_set all_below saturated
table_high exp h = all_below_at 256 saturated exp refl h

ipow_small :
    (base exp : ℕ)
    → exp < 63
    → base < 2 ^ 64
    → 1 ≤ magnitude base
    → magnitude base ^ exp < 2 ^ 63
    → ipow base exp ≡ some (u64 (base ^ exp))
unfolding ipow bits_of Remains
ipow_small base exp h b mb fits =
    let bits : bits_of exp ≡ true = table_low exp h in
    let highest = get_or highest_bit_set exp 0 in
    let below : exp < 2 ^ highest = ground arith in
    let from : 2 ^ highest ≤ 2 * exp + 1 = ground arith in
    let other : (highest == 255) ≡ false = ground arith in
    rw (other) (
      cases_from_lem highest base exp 1 (
        below,
        from,
        b,
        omega arith,
        mb,
        omega arith,
        omega (arith, one-mul (magnitude base ^ exp)),
      )
      ∙ ap (λ (t : ℕ). some (u64 t)) (one-mul (base ^ exp)))

pub ipow_large :
    (base exp : ℕ) → 63 ≤ exp → exp < 256 → ipow base exp ≡ some (large_exponent base exp)
unfolding ipow saturated
ipow_large base exp low high =
    let full : saturated exp ≡ true = table_high exp high in
    let top : (get_or highest_bit_set exp 0 == 255) ≡ true = ground arith in rw (top) refl

one_power : (n : ℕ) → 1 ^ n ≡ 1
one_power zero = pow-zero 1
one_power (suc n) = pow-suc 1 n ∙ (ap (λ (t : ℕ). t * 1) (one_power n) ∙ refl)

minus_one : (exp : ℕ) → large_exponent (2 ^ 64 - 1) exp ≡ u64 ((2 ^ 64 - 1) ^ exp)
unfolding large_exponent
minus_one exp =
    let m = 2 ^ 64 - 1 in
    let unit : u64 (m * m) ≡ 1 = refl in
    let squares : u64 (m * m) ^ (exp / 2) ≡ 1 =
      ap (λ (t : ℕ). t ^ (exp / 2)) unit ∙ one_power (exp / 2) in
    let whole : u64 (1 * m ^ exp) ≡ u64 (m ^ exp) = ap (λ (t : ℕ). u64 t) (one-mul (m ^ exp)) in
    elim (parity exp) [
      | inl e ↦
          ap (λ (t : ℕ). sub64 1 (2 * t)) (low_bit exp ∙ e)
          ∙ (ap (λ (t : ℕ). u64 (1 * t)) (sym squares) ∙ (even_round m exp 1 e ∙ whole))
      | inr o ↦
          ap (λ (t : ℕ). sub64 1 (2 * t)) (low_bit exp ∙ o)
          ∙ (ap (λ (t : ℕ). u64 (u64 (1 * m) * t)) (sym squares) ∙ (odd_round m exp 1 o ∙ whole))
    ]

no_power : (exp : ℕ) → 1 ≤ exp → 0 ^ exp ≡ 0
no_power zero h = absurd (omega arith)
no_power (suc n) h = rw (pow-suc 0 n) omega arith

-- For an exponent of 63 or more, which is a byte's, ipow is the power cut to 64 bits when the base
-- is 0, 1 or -1.
large_units :
    (base exp : ℕ)
    → 63 ≤ exp
    → (base ≡ 0) ⊎ ((base ≡ 1) ⊎ (base ≡ 2 ^ 64 - 1))
    → large_exponent base exp ≡ u64 (base ^ exp)
unfolding large_exponent
large_units base exp h (inl z) =
    subst (λ (b : ℕ). large_exponent b exp ≡ u64 (b ^ exp)) (sym z)
      (sym (ap (λ (t : ℕ). u64 t) (no_power exp (omega arith))))
large_units base exp h (inr (inl z)) =
    subst (λ (b : ℕ). large_exponent b exp ≡ u64 (b ^ exp)) (sym z)
      (sym (ap (λ (t : ℕ). u64 t) (one_power exp)))
large_units base exp h (inr (inr z)) =
    subst (λ (b : ℕ). large_exponent b exp ≡ u64 (b ^ exp)) (sym z) (minus_one exp)

-- The power of 0.
gives : Option ℕ → ℕ → Bool
gives none v = false
gives (some x) v = x == v

gives_lem : (o : Option ℕ) (v : ℕ) → gives o v ≡ true → o ≡ some v
unfolding gives
gives_lem none v h = cc
gives_lem (some x) v h = ap (λ (n : ℕ). some n) ((==_iff x v).0 h)

zero_power : ℕ → Bool
zero_power exp = gives (ipow 0 exp) (if exp == 0 then 1 else 0)

zero_powers : (exp : ℕ) → exp < 63 → zero_power exp ≡ true
unfolding ipow highest_bit_set cases_from all_below zero_power gives
zero_powers exp h = all_below_at 63 zero_power exp refl h

no_base : (exp : ℕ) → exp < 63 → ipow 0 exp ≡ some (u64 (0 ^ exp))
unfolding zero_power
no_base zero h = gives_lem (ipow 0 0) 1 (zero_powers 0 h)
no_base (suc n) h =
    let other : (suc n == 0) ≡ false = ground arith in
    gives_lem (ipow 0 (suc n)) 0 (rw other at (zero_powers (suc n) h))
    ∙ ap (λ (t : ℕ). some (u64 t)) (sym (no_power (suc n) (omega arith)))

-- A power with a large exponent that is a number of 64 bits has 0, 1 or -1 as its base.
unit_base :
    (base exp : ℕ)
    → base < 2 ^ 64
    → 63 ≤ exp
    → magnitude base ^ exp < 2 ^ 63
    → (base ≡ 0) ⊎ ((base ≡ 1) ⊎ (base ≡ 2 ^ 64 - 1))
unit_base base exp b large fits = elim (dec_lt (magnitude base) 2) [
  | yes unit ↦ ground arith
  | no more ↦
      let least : 2 ^ 63 ≤ 2 ^ exp =
        pow-le-pow_right {n = 2} (omega arith) {i = 63} {j = exp} large in
      let longer : 2 ^ exp ≤ magnitude base ^ exp =
        pow-le-pow_left {n = 2} {m = magnitude base} (omega arith) exp in
      absurd (omega (arith, least, longer))
]

-- For a base of 64 bits and a byte as the exponent, ipow gives the power, if its magnitude is below
-- 2 ^ 63; no product on the way overflows then.
pub ipow-power :
    (base exp : ℕ)
    → base < 2 ^ 64
    → exp < 256
    → magnitude base ^ exp < 2 ^ 63
    → ipow base exp ≡ some (u64 (base ^ exp))
ipow-power base exp b byte fits = elim (dec_lt exp 63) [
  | yes small ↦ elim (ℕ_discrete base 0) [
    | yes z ↦ subst (λ (n : ℕ). ipow n exp ≡ some (u64 (n ^ exp))) (sym z) (no_base exp small)
    | no nz ↦ ipow_small base exp small b (ground arith) fits
  ]
  | no large ↦
      let unit = unit_base base exp b (omega arith) fits in
      ipow_large base exp (omega arith) byte
      ∙ ap (λ (t : ℕ). some t) (large_units base exp (omega arith) unit)
]
