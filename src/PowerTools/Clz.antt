-- ===== src/PowerTools/Clz.antt =====
-- The tools against next_pow2_gt_u64, for what GCC documents of __builtin_clzll.
use cm_dotfiles.Prelude.{
  ℕ, suc, ◌-◌, ◌*◌, ◌^◌, ◌≤◌, ◌<◌, ◌≡◌, sym, ap, ◌∙◌, inl, inr, false, arith, leb, ◌==◌, Bool-cases,
  u64, ◌<<◌,
}
use native.Mathlib.Nat.{pow-suc}
use cm_dotfiles.PowerTools.{p2below, p2above}
use cm_dotfiles.Bitwise.Pow2.{next_pow2_gt_u64}
use cm_dotfiles.Bitwise.Pow2.Least.{Least, Greatest, next_pow2_gt_u64_lem}

-- clzll counts the clear bits above the highest set bit of a word that is not 0.
unfoldable pub CountsZeros : (ℕ → ℕ) → Type 0
CountsZeros clzll = (x : ℕ) → 1 ≤ x → x < 2 ^ 64 → (clzll x ≤ 63) × Greatest (63 - clzll x) x

-- For a number of 64 bits that is not 0 or 1, p2above is next_pow2_gt_u64: 0 when the power does
-- not fit in 64 bits, if __builtin_clzll counts the leading zeros of a word that is not 0.
pub p2above-next_pow2_gt_u64 :
    (clzll : ℕ → ℕ) (n : ℕ)
    → CountsZeros clzll
    → 2 ≤ n
    → n < 2 ^ 64
    → p2above clzll n ≡ next_pow2_gt_u64 n
unfolding p2above CountsZeros
p2above-next_pow2_gt_u64 clzll n counts two fits =
    let c = counts (n - 1) (omega arith) (omega arith) in
    let bits = 64 - clzll (n - 1) in
    let up : bits ≡ suc (63 - clzll (n - 1)) = omega (arith, c.0) in
    let whole : 2 ^ bits ≡ 2 * 2 ^ (63 - clzll (n - 1)) =
      ap (λ (k : ℕ). 2 ^ k) up ∙ (pow-suc 2 (63 - clzll (n - 1)) ∙ omega arith) in
    let least : Least bits n = (omega (arith, whole, c.1.1), omega (arith, whole, c.1.0)) in
    let next : next_pow2_gt_u64 n ≡ u64 (2 ^ bits) =
      next_pow2_gt_u64_lem bits n (omega arith) least (omega arith) in
    let large : leb n 1 ≡ false = ground arith in
    rw (large) (elim (Bool-cases (leb 64 bits)) [
      | inl over ↦
          rw (over) (sym (next ∙ ap (λ (k : ℕ). u64 (2 ^ k)) {x = bits} {y = 64} (ground arith)))
      | inr inside ↦
          rw (inside)
            (ap (λ (t : ℕ). u64 t) {x = 1 << bits} {y = 2 ^ bits} (omega arith) ∙ sym next)
    ])

-- p2below is the greatest power of two that is not above its number, which is not 0.
pub p2below-Greatest :
    (clzll : ℕ → ℕ) (n : ℕ)
    → CountsZeros clzll
    → 1 ≤ n
    → n < 2 ^ 64
    → (k : ℕ) × ((p2below clzll n ≡ 2 ^ k) × Greatest k n)
unfolding p2below CountsZeros
p2below-Greatest clzll n counts one fits =
    let c = counts n one fits in
    let some_left : (n == 0) ≡ false = ground arith in
    (63 - clzll n, (rw (some_left) (omega (arith, c.1.0)), c.1))
