-- ===== src/Bitwise/Signed/Sums.antt =====
-- What the tricks on ints give.
use cm_dotfiles.Prelude.{
  none, ltb, ◌&&◌, leb, ap, ◌≢◌, some, ℕ, zero, suc, ◌+◌, ◌-◌, ◌/◌, ◌^◌, ◌≤◌, ◌<◌, min, bit_and,
  bit_xor, ◌≡◌, refl, ap₂, ◌∙◌, inl, inr, true, not, arith, ◌==◌, if◌then◌else◌, Bool-cases, u32,
  sub32,
}
use cm_dotfiles.Prelude.Bits.{and_mask}
use cm_dotfiles.Bitwise.Signed.{
  from_least, add_int, sub_int, negative, safe_average, fast_abs, did_add_wrap, signless_flip,
  have_opposite_signs,
}
use cm_dotfiles.Bitwise.Signed.Digits.{and_xor, xor_ones, xor_above, and_above}

-- The highest bit of a word, when those of its parts are known.
sign_xor : (a b p q : ℕ) → a / 2 ^ 31 ≡ p → b / 2 ^ 31 ≡ q → bit_xor a b / 2 ^ 31 ≡ bit_xor p q
sign_xor a b p q ea eb = xor_above 31 a b ∙ ap₂ (λ (u v : ℕ). bit_xor u v) ea eb

sign_and : (a b p q : ℕ) → a / 2 ^ 31 ≡ p → b / 2 ^ 31 ≡ q → bit_and a b / 2 ^ 31 ≡ bit_and p q
sign_and a b p q ea eb = and_above 31 a b ∙ ap₂ (λ (u v : ℕ). bit_and u v) ea eb

xor_signs : (p q : ℕ) → p < 2 → q < 2 → bit_xor p q ≡ (if p == q then 0 else 1)
xor_signs zero zero h k = refl
xor_signs zero (suc zero) h k = refl
xor_signs (suc zero) zero h k = refl
xor_signs (suc zero) (suc zero) h k = refl
xor_signs zero (suc (suc q)) h k = absurd (omega arith)
xor_signs (suc zero) (suc (suc q)) h k = absurd (omega arith)
xor_signs (suc (suc p)) q h k = absurd (omega arith)

and_signs : (p q : ℕ) → p < 2 → q < 2 → bit_and p q ≡ min p q
and_signs zero zero h k = refl
and_signs zero (suc zero) h k = refl
and_signs (suc zero) zero h k = refl
and_signs (suc zero) (suc zero) h k = refl
and_signs zero (suc (suc q)) h k = absurd (omega arith)
and_signs (suc zero) (suc (suc q)) h k = absurd (omega arith)
and_signs (suc (suc p)) q h k = absurd (omega arith)

xor_sign :
    (a b : ℕ)
    → a < 2 ^ 32
    → b < 2 ^ 32
    → bit_xor a b / 2 ^ 31 ≡ (if a / 2 ^ 31 == b / 2 ^ 31 then 0 else 1)
xor_sign a b p q =
    sign_xor a b (a / 2 ^ 31) (b / 2 ^ 31) refl refl
    ∙ xor_signs (a / 2 ^ 31) (b / 2 ^ 31) (omega arith) (omega arith)

-- The average of two ints, rounded down.
pub safe_average-average :
    (a b : ℕ)
    → a < 2 ^ 32
    → b < 2 ^ 32
    → from_least (safe_average a b) ≡ (from_least a + from_least b) / 2
unfolding safe_average
safe_average-average a b p q =
    let sum = and_xor a b in let sign = xor_sign a b p q in ground (arith, sum, sign)

-- A sum of ints that is defined.
add_int-some :
    (a b : ℕ)
    → 2 ^ 31 ≤ from_least a + from_least b
    → from_least a + from_least b < 2 ^ 31 + 2 ^ 32
    → add_int a b ≡ some (u32 (a + b))
unfolding add_int
add_int-some a b low high =
    let sum = from_least a + from_least b in
    let fits : (leb (2 ^ 31) sum && ltb sum (2 ^ 31 + 2 ^ 32)) ≡ true = ground arith in rw fits refl

fits_lem :
    (a b : ℕ)
    → a < 2 ^ 32
    → b < 2 ^ 32
    → 2 ^ 31 ≤ from_least a + from_least b
    → from_least a + from_least b < 2 ^ 31 + 2 ^ 32
    → not (negative (bit_and (bit_xor a (u32 (a + b))) (bit_xor b (u32 (a + b))))) ≡ true
fits_lem a b p q low high =
    let r = u32 (a + b) in
    let left = xor_sign a r p (omega arith) in
    let right = xor_sign b r q (omega arith) in
    let both =
      and_above 31 (bit_xor a r) (bit_xor b r)
      ∙ and_signs (bit_xor a r / 2 ^ 31) (bit_xor b r / 2 ^ 31) (ground (arith, left))
          (ground (arith, right)) in
    ground (arith, left, right, both)

-- For two ints did_add_wrap computes their sum, that of the words modulo 2 ^ 32, and stores 1,
-- whenever the sum is an int. When the sum is no int, the addition before the test is undefined: no run
-- that C defines reports that a sum has wrapped around.
pub did_add_wrap-fits :
    (a b : ℕ)
    → a < 2 ^ 32
    → b < 2 ^ 32
    → did_add_wrap a b ≡ (
        let sum = from_least a + from_least b in
        if leb (2 ^ 31) sum && ltb sum (2 ^ 31 + 2 ^ 32) then some (u32 (a + b), true) else none)
unfolding did_add_wrap add_int
did_add_wrap-fits a b p q =
    let sum = from_least a + from_least b in
    elim (Bool-cases (leb (2 ^ 31) sum && ltb sum (2 ^ 31 + 2 ^ 32))) [
      | inl fits ↦ rw (fits, fits_lem a b p q (ground (arith, fits)) (ground (arith, fits))) refl
      | inr out ↦ rw out refl
    ]

pub have_opposite_signs_lem :
    (a b : ℕ)
    → a < 2 ^ 32
    → b < 2 ^ 32
    → have_opposite_signs a b ≡ (if negative a then not (negative b) else negative b)
unfolding have_opposite_signs
have_opposite_signs_lem a b p q = let sign = xor_sign a b p q in ground (arith, sign)

pub fast_abs_lem :
    (n : ℕ) → n < 2 ^ 32 → n ≢ 2 ^ 31 → fast_abs n ≡ some (if negative n then 2 ^ 32 - n else n)
unfolding fast_abs
fast_abs_lem n h ne = elim (Bool-cases (negative n)) [
  | inl below ↦
      let low : n / 2 ^ 31 ≡ 1 = ground arith in
      let moved = add_int-some n (2 ^ 32 - 1) (omega arith) (omega arith) in
      rw (below, low, moved)
        (ap (λ (x : ℕ). some x) (xor_ones 32 (u32 (n + (2 ^ 32 - 1))) (omega arith) ∙ omega arith))
  | inr above ↦
      let low : n / 2 ^ 31 ≡ 0 = ground arith in
      let moved = add_int-some n 0 (omega arith) (omega arith) in
      let sum = and_xor (u32 (n + 0)) 0 in
      let none_left = and_mask 0 (u32 (n + 0)) in
      rw (above, low, moved) (ap (λ (x : ℕ). some x) (omega (arith, sum, none_left)))
]

pub signless_flip_lem : (n : ℕ) → n < 2 ^ 32 → n ≢ 2 ^ 31 → signless_flip n ≡ some (sub32 0 n)
unfolding signless_flip sub_int
signless_flip_lem n h ne = rw (xor_ones 32 n h) (ground arith)
