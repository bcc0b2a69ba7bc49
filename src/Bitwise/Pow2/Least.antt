-- ===== src/Bitwise/Pow2/Least.antt =====
-- next_pow2_gt and log2_ceil give the least power of two that is not below a number.
use cm_dotfiles.Prelude.{
  ℕ, zero, suc, ◌+◌, ◌-◌, ◌*◌, ◌/◌, ◌^◌, ◌≤◌, ◌<◌, bit_or, ◌≡◌, refl, ap, ◌∙◌, ◌↔◌, inl, inr, false,
  not, arith, ltb, ◌==◌, Bool-cases, u32, u64, ◌<<◌, ◌>>◌,
}
use native.Mathlib.Decide.{dec_lt}
use mathlib.Core.Path.{subst}
use native.Mathlib.Nat.{pow-suc, one-le-pow, div-eq_of_lt, le-div_iff_mul-le}
use cm_dotfiles.Bitwise.Pow2.{
  next_pow2_gt, next_pow2_gt_u64, floor_loop, ceil_loop, log2_floor, log2_ceil,
}
use cm_dotfiles.Bitwise.Pow2.Smear.{smear, filled, highest}

-- 2^e is the least power of two that is not below n.
abbrev pub Least : ℕ → ℕ → Type 0
Least e n = (n ≤ 2 ^ e) × (2 ^ e < 2 * n)

ceil_loop-Least :
    (fuel height n : ℕ)
    → 2 ^ height < 2 * n
    → n ≤ 2 ^ (height + fuel)
    → Least (ceil_loop fuel height n) n
unfolding ceil_loop
ceil_loop-Least zero height n low enough =
    (subst (λ (k : ℕ). n ≤ 2 ^ k) {x = height + 0} {y = height} (omega arith) enough, low)
ceil_loop-Least (suc fuel) height n low enough = elim (Bool-cases (ltb (1 << height) n)) [
  | inl more ↦ rw (more) (
      ceil_loop-Least fuel (height + 1) n
        (subst (λ (k : ℕ). 2 ^ k < 2 * n) {x = suc height} {y = height + 1} (omega arith)
          (ground (arith, pow-suc 2 height)))
        (subst (λ (k : ℕ). n ≤ 2 ^ k) {x = height + suc fuel} {y = height + 1 + fuel} (omega arith)
          enough))
  | inr done ↦ rw (done) (ground arith, low)
]

ceil_loop_le : (fuel height n : ℕ) → ceil_loop fuel height n ≤ height + fuel
unfolding ceil_loop
ceil_loop_le zero height n = omega arith
ceil_loop_le (suc fuel) height n = elim (Bool-cases (ltb (1 << height) n)) [
  | inl more ↦ rw (more) (omega (arith, ceil_loop_le fuel (height + 1) n))
  | inr done ↦ rw (done) omega arith
]

log2_ceil_le : (n : ℕ) → log2_ceil n ≤ 32
unfolding log2_ceil
log2_ceil_le n = ceil_loop_le 32 0 n

pub log2_ceil-Least : (n : ℕ) → 1 ≤ n → n ≤ 2 ^ 32 → Least (log2_ceil n) n
unfolding log2_ceil
log2_ceil-Least n one enough = ceil_loop-Least 32 0 n (omega arith) enough

-- 2^e is the greatest power of two that is not above n.
abbrev pub Greatest : ℕ → ℕ → Type 0
Greatest e n = (2 ^ e ≤ n) × (n < 2 * 2 ^ e)

quotient : (n d : ℕ) → 1 ≤ d → (d ≤ n) ↔ (1 ≤ n / d)
quotient n d one = (
  λ h. (le-div_iff_mul-le {k = d} {x = 1} {y = n} one).1 (omega arith),
  λ h. elim (dec_lt n d) [
    | yes less ↦ absurd (omega (arith, div-eq_of_lt {n = n} {m = d} less))
    | no more ↦ omega arith
  ],
)

pub floor_loop-Greatest :
    (fuel height n : ℕ)
    → 2 ^ height ≤ n
    → n < 2 ^ (height + fuel)
    → Greatest (floor_loop fuel height n) n
unfolding floor_loop
floor_loop-Greatest zero height n low enough = absurd (
    subst (λ (k : ℕ). n < 2 ^ k → ⊥) {x = height} {y = height + 0} (omega arith) (λ h. omega arith)
      enough)
floor_loop-Greatest (suc fuel) height n low enough =
    let d = 2 ^ (height + 1) in
    let next : d ≡ 2 * 2 ^ height =
      ap (λ (k : ℕ). 2 ^ k) {x = height + 1} {y = suc height} (omega arith)
      ∙ (pow-suc 2 height ∙ omega arith) in
    let q = quotient n d (one-le-pow (height + 1) 2 (omega arith)) in
    elim (Bool-cases (not (n >> (height + 1) == 0))) [
      | inl more ↦ rw (more) (
          floor_loop-Greatest fuel (height + 1) n (q.1 (ground arith)) (
            subst (λ (k : ℕ). n < 2 ^ k) {x = height + suc fuel} {y = height + 1 + fuel}
              (omega arith) enough))
      | inr done ↦ rw (done) (
        low,
        elim (dec_lt n d) [
          | yes less ↦ omega (arith, next)
          | no above ↦ let one = q.0 (omega arith) in absurd (ground (arith, one))
        ],
      )
    ]

pub floor_loop_lt :
    (fuel height n : ℕ)
    → 2 ^ height ≤ n
    → n < 2 ^ (height + fuel)
    → floor_loop fuel height n < height + fuel
unfolding floor_loop
floor_loop_lt zero height n low enough = absurd (
    subst (λ (k : ℕ). n < 2 ^ k → ⊥) {x = height} {y = height + 0} (omega arith) (λ h. omega arith)
      enough)
floor_loop_lt (suc fuel) height n low enough =
    let d = 2 ^ (height + 1) in
    let q = quotient n d (one-le-pow (height + 1) 2 (omega arith)) in
    elim (Bool-cases (not (n >> (height + 1) == 0))) [
      | inl more ↦ rw (more) (
          omega (
            arith,
            floor_loop_lt fuel (height + 1) n (q.1 (ground arith)) (
                subst (λ (k : ℕ). n < 2 ^ k) {x = height + suc fuel} {y = height + 1 + fuel}
                  (omega arith) enough),
          ))
      | inr done ↦ rw (done) omega arith
    ]

pub log2_floor-Greatest : (n : ℕ) → 1 ≤ n → n < 2 ^ 32 → Greatest (log2_floor n) n
unfolding log2_floor
log2_floor-Greatest n one fits = floor_loop-Greatest 32 0 n (omega arith) fits

pub next_pow2_gt_lem : (e n : ℕ) → 1 ≤ n → Least e n → e ≤ 32 → next_pow2_gt n ≡ u32 (2 ^ e)
unfolding next_pow2_gt
next_pow2_gt_lem zero n one least fits =
    subst (λ (k : ℕ). next_pow2_gt k ≡ 1) {x = 1} {y = n} (omega arith) refl
next_pow2_gt_lem (suc e) n one least fits =
    let a = n - 1 in
    let f0 = highest e a (omega (arith, pow-suc 2 e)) (omega arith) in
    let b = bit_or a (a >> 1) in
    let c = bit_or b (b >> 2) in
    let d = bit_or c (c >> 4) in
    let g = bit_or d (d >> 8) in
    let f = bit_or g (g >> 16) in
    let all =
      smear (suc e) 16 g
        (smear (suc e) 8 d (smear (suc e) 4 c (smear (suc e) 2 b (smear (suc e) 1 a f0)))) in
    let full : f + 1 ≡ 2 ^ suc e = filled (suc e) 32 f fits all in
    let some_left : (n == 0) ≡ false = ground arith in rw (some_left) (ap (λ (t : ℕ). u32 t) full)

pub next_pow2_gt_u64_lem : (e n : ℕ) → 1 ≤ n → Least e n → e ≤ 64 → next_pow2_gt_u64 n ≡ u64 (2 ^ e)
unfolding next_pow2_gt_u64
next_pow2_gt_u64_lem zero n one least fits =
    subst (λ (k : ℕ). next_pow2_gt_u64 k ≡ 1) {x = 1} {y = n} (omega arith) refl
next_pow2_gt_u64_lem (suc e) n one least fits =
    let a = n - 1 in
    let f0 = highest e a (omega (arith, pow-suc 2 e)) (omega arith) in
    let b = bit_or a (a >> 1) in
    let c = bit_or b (b >> 2) in
    let d = bit_or c (c >> 4) in
    let g = bit_or d (d >> 8) in
    let f = bit_or g (g >> 16) in
    let l = bit_or f (f >> 32) in
    let all = smear (suc e) 32 f (
      smear (suc e) 16 g
        (smear (suc e) 8 d (smear (suc e) 4 c (smear (suc e) 2 b (smear (suc e) 1 a f0))))) in
    let full : l + 1 ≡ 2 ^ suc e = filled (suc e) 64 l fits all in
    let some_left : (n == 0) ≡ false = ground arith in rw (some_left) (ap (λ (t : ℕ). u64 t) full)

-- For a number from 1 to 2^30, next_pow2_gt and next_pow2_gt_u64 are the power of two whose
-- logarithm log2_ceil gives, and that is the least power of two that is not below the number.
pub next_pow2_gt-log2_ceil :
    (n : ℕ)
    → 1 ≤ n
    → n ≤ 2 ^ 30
    → (next_pow2_gt n ≡ 2 ^ log2_ceil n)
      × ((next_pow2_gt_u64 n ≡ 2 ^ log2_ceil n) × Least (log2_ceil n) n)
next_pow2_gt-log2_ceil n one fits =
    let least = log2_ceil-Least n one (omega arith) in
    let small : log2_ceil n ≤ 32 = log2_ceil_le n in
    (
      next_pow2_gt_lem (log2_ceil n) n one least small ∙ omega (arith, least.1),
      (
        next_pow2_gt_u64_lem (log2_ceil n) n one least (omega arith) ∙ omega (arith, least.1),
        least,
      ),
    )
