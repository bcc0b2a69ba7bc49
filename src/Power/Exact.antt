-- ===== src/Power/Exact.antt =====
-- Products of signed numbers that do not overflow, and the bounds that keep them from it.
use cm_dotfiles.Prelude.{
  ℕ, suc, ◌+◌, ◌-◌, ◌*◌, ◌/◌, ◌%◌, ◌^◌, ◌≤◌, ◌<◌, ◌≡◌, refl, sym, ap, ap₂, ◌∙◌, inl, inr, true,
  some, arith, ltb, leb, Bool-cases, u64,
}
use native.Mathlib.Nat.{
  pow-suc, pow-zero, mul_comm, mul_assoc, mul-add, add-mul, one-mul, mul-le-mul, mul-le-mul_left,
  pow-le-pow_right,
}
use cm_dotfiles.Power.{magnitude, mul_int}
use cm_dotfiles.Power.Rounds.{square_power}

-- The magnitude of a product, by the signs of its factors.
both_positive : (a b : ℕ) → a * b < 2 ^ 63 → magnitude (u64 (a * b)) ≡ a * b
both_positive a b h = let same : u64 (a * b) ≡ a * b = omega arith in rw same (ground arith)

one_negative : (a n : ℕ) → n ≤ 2 ^ 64 → a * n < 2 ^ 63 → magnitude (u64 (a * (2 ^ 64 - n))) ≡ a * n
one_negative a n fits h =
    let b = 2 ^ 64 - n in
    let sum : a * b + a * n ≡ a * 2 ^ 64 =
      sym (mul-add a b n) ∙ ap (λ (t : ℕ). a * t) (omega arith) in
    ground (arith, sum)

both_negative :
    (m n : ℕ)
    → m ≤ 2 ^ 64
    → n ≤ 2 ^ 64
    → m * n < 2 ^ 63
    → magnitude (u64 ((2 ^ 64 - m) * (2 ^ 64 - n))) ≡ m * n
both_negative m n p q h =
    let a = 2 ^ 64 - m in
    let b = 2 ^ 64 - n in
    let left : a * b + a * n ≡ a * 2 ^ 64 =
      sym (mul-add a b n) ∙ ap (λ (t : ℕ). a * t) (omega arith) in
    let right : a * n + m * n ≡ 2 ^ 64 * n =
      sym (add-mul a m n) ∙ ap (λ (t : ℕ). t * n) (omega arith) in
    ground (arith, left, right)

pub magnitude-mul :
    (a b : ℕ)
    → a < 2 ^ 64
    → b < 2 ^ 64
    → magnitude a * magnitude b < 2 ^ 63
    → magnitude (u64 (a * b)) ≡ magnitude a * magnitude b
magnitude-mul a b p q h =
    let back_a : a ≡ 2 ^ 64 - (2 ^ 64 - a) = omega arith in
    let back_b : b ≡ 2 ^ 64 - (2 ^ 64 - b) = omega arith in
    elim (Bool-cases (leb (2 ^ 63) a)) [
      | inl neg_a ↦ elim (Bool-cases (leb (2 ^ 63) b)) [
        | inl neg_b ↦
            let small : (2 ^ 64 - a) * (2 ^ 64 - b) < 2 ^ 63 = rw (neg_a, neg_b) at h in
            rw (neg_a, neg_b)
              (ap₂ (λ (x y : ℕ). magnitude (u64 (x * y))) back_a back_b
                ∙ both_negative (2 ^ 64 - a) (2 ^ 64 - b) (omega arith) (omega arith) small)
        | inr pos_b ↦
            let small : (2 ^ 64 - a) * b < 2 ^ 63 = rw (neg_a, pos_b) at h in
            rw (neg_a, pos_b)
              (ap (λ (x : ℕ). magnitude (u64 x)) (mul_comm a b ∙ ap (λ (x : ℕ). b * x) back_a)
                ∙ (one_negative b (2 ^ 64 - a) (omega arith)
                      (omega (arith, mul_comm b (2 ^ 64 - a), small))
                    ∙ mul_comm b (2 ^ 64 - a)))
      ]
      | inr pos_a ↦ elim (Bool-cases (leb (2 ^ 63) b)) [
        | inl neg_b ↦
            let small : a * (2 ^ 64 - b) < 2 ^ 63 = rw (pos_a, neg_b) at h in
            rw (pos_a, neg_b)
              (ap (λ (x : ℕ). magnitude (u64 (a * x))) back_b
                ∙ one_negative a (2 ^ 64 - b) (omega arith) small)
        | inr pos_b ↦
            let small : a * b < 2 ^ 63 = rw (pos_a, pos_b) at h in
            rw (pos_a, pos_b) (both_positive a b small)
      ]
    ]

pub mul_int-some : (a b : ℕ) → magnitude a * magnitude b < 2 ^ 63 → mul_int a b ≡ some (u64 (a * b))
unfolding mul_int
mul_int-some a b h =
    let fits : ltb (magnitude a * magnitude b) (2 ^ 63) ≡ true = ground arith in rw fits refl

-- Halving the exponent, exactly.
even_power : (m exp : ℕ) → exp % 2 ≡ 0 → (m * m) ^ (exp / 2) ≡ m ^ exp
even_power m exp e =
    square_power m (exp / 2) ∙ ap (λ (n : ℕ). m ^ n) {x = exp / 2 + exp / 2} {y = exp} (omega arith)

odd_power : (m exp : ℕ) → exp % 2 ≡ 1 → m * (m * m) ^ (exp / 2) ≡ m ^ exp
odd_power m exp o =
    let h = exp / 2 in
    ap (λ (t : ℕ). m * t) (square_power m h)
    ∙ (mul_comm m (m ^ (h + h))
        ∙ (sym (pow-suc m (h + h))
            ∙ ap (λ (n : ℕ). m ^ n) {x = suc (h + h)} {y = exp} (omega arith)))

-- A factor and a square are no larger than the whole product.
pub factor_le : (q m exp : ℕ) → 1 ≤ m → 1 ≤ exp → q * m ≤ q * m ^ exp
factor_le q m exp pos one =
    let base : m ^ 1 ≡ m = pow-suc m 0 ∙ (ap (λ (t : ℕ). t * m) (pow-zero m) ∙ one-mul m) in
    let up : m ^ 1 ≤ m ^ exp = pow-le-pow_right {n = m} pos {i = 1} {j = exp} one in
    mul-le-mul_left q (rw base at up)

pub square_le : (q m exp : ℕ) → 1 ≤ q → 1 ≤ m → 2 ≤ exp → m * m ≤ q * m ^ exp
square_le q m exp one pos two =
    let base : m ^ 2 ≡ m * m =
      pow-suc m 1
      ∙ ap (λ (t : ℕ). t * m) (pow-suc m 0 ∙ (ap (λ (t : ℕ). t * m) (pow-zero m) ∙ one-mul m)) in
    let up : m ^ 2 ≤ m ^ exp = pow-le-pow_right {n = m} pos {i = 2} {j = exp} two in
    let more : 1 * m ^ exp ≤ q * m ^ exp = mul-le-mul {n₁ = 1} {m₁ = m ^ exp} one (omega arith) in
    omega (arith, base, up, more, one-mul (m ^ exp))

-- What is left of the product after a round.
pub even_left : (q m exp : ℕ) → exp % 2 ≡ 0 → q * (m * m) ^ (exp / 2) ≡ q * m ^ exp
even_left q m exp e = ap (λ (t : ℕ). q * t) (even_power m exp e)

pub odd_left : (q m exp : ℕ) → exp % 2 ≡ 1 → q * m * (m * m) ^ (exp / 2) ≡ q * m ^ exp
odd_left q m exp o = mul_assoc q m ((m * m) ^ (exp / 2)) ∙ ap (λ (t : ℕ). q * t) (odd_power m exp o)
