-- ===== src/Bitwise/Signed/Digits.antt =====
-- `^` and `&` of words as arithmetic.
use cm_dotfiles.Prelude.{
  ℕ, zero, suc, ◌+◌, ◌-◌, ◌*◌, ◌/◌, ◌%◌, ◌^◌, ◌≤◌, ◌<◌, min, bit_and, bit_xor, ◌≡◌, refl, sym, ap,
  ap₂, ◌∙◌, arith,
}
use Prim.Native.Nat.{differ}
use native.Mathlib.Nat.{pow-suc, one-le-pow}
use cm_dotfiles.Prelude.Bits.{and_digit, xor_digit}
use cm_dotfiles.Bitwise.Pow2.Smear.{halve_shift}

differ_lt : (x y : ℕ) → x < 2 → y < 2 → differ x y < 2
differ_lt zero y p q = q
differ_lt (suc x) zero p q = p
differ_lt (suc x) (suc y) p q = differ_lt x y (omega arith) (omega arith)

differ-one : (x : ℕ) → x < 2 → differ x 1 ≡ 1 - x
differ-one zero h = refl
differ-one (suc zero) h = refl
differ-one (suc (suc x)) h = absurd (omega arith)

digit_sum : (x y : ℕ) → x < 2 → y < 2 → 2 * min x y + differ x y ≡ x + y
digit_sum zero y p q = omega arith
digit_sum (suc zero) zero p q = refl
digit_sum (suc zero) (suc zero) p q = refl
digit_sum (suc zero) (suc (suc y)) p q = absurd (omega arith)
digit_sum (suc (suc x)) y p q = absurd (omega arith)

no_digits : (a b : ℕ) → a ≤ 0 → b ≤ 0 → (bit_and a b ≡ 0) × (bit_xor a b ≡ 0)
no_digits zero zero p q = (refl, refl)
no_digits zero (suc b) p q = absurd (omega arith)
no_digits (suc a) b p q = absurd (omega arith)

and_xor_below : (f a b : ℕ) → a ≤ f → b ≤ f → 2 * bit_and a b + bit_xor a b ≡ a + b
and_xor_below zero a b p q = let none_left = no_digits a b p q in omega (arith, none_left)
and_xor_below (suc f) a b p q =
    let ih = and_xor_below f (a / 2) (b / 2) (omega arith) (omega arith) in
    let low = digit_sum (a % 2) (b % 2) (omega arith) (omega arith) in
    omega (arith, ih, low, and_digit a b, xor_digit a b)

-- A sum is the digits of one word alone, and twice those of both.
pub and_xor : (a b : ℕ) → 2 * bit_and a b + bit_xor a b ≡ a + b
and_xor a b = and_xor_below (a + b) a b (omega arith) (omega arith)

-- All the digits of a word turn over.
pub xor_ones : (k x : ℕ) → x < 2 ^ k → bit_xor x (2 ^ k - 1) ≡ 2 ^ k - 1 - x
xor_ones zero x h =
    let none_left = no_digits x 0 (omega arith) (omega arith) in omega (arith, none_left)
xor_ones (suc k) x h =
    let half : (2 ^ suc k - 1) / 2 ≡ 2 ^ k - 1 = omega (arith, pow-suc 2 k, one-le-pow k 2) in
    let low : (2 ^ suc k - 1) % 2 ≡ 1 = omega (arith, pow-suc 2 k, one-le-pow k 2) in
    let ih = xor_ones k (x / 2) (omega (arith, pow-suc 2 k)) in
    let turned = differ-one (x % 2) (omega arith) in
    xor_digit x (2 ^ suc k - 1)
    ∙ (ap₂ (λ (u v : ℕ). bit_xor (x / 2) u * 2 + differ (x % 2) v) half low
        ∙ omega (arith, ih, turned, pow-suc 2 k, one-le-pow k 2))

-- The digits from a place on.
pub xor_above : (k a b : ℕ) → bit_xor a b / 2 ^ k ≡ bit_xor (a / 2 ^ k) (b / 2 ^ k)
xor_above zero a b =
    omega arith
    ∙ ap₂ (λ (u v : ℕ). bit_xor u v) {x = a} {y = a / 2 ^ 0} {u = b} {v = b / 2 ^ 0} (omega arith)
        (omega arith)
xor_above (suc k) a b =
    let low = differ_lt (a % 2) (b % 2) (omega arith) (omega arith) in
    let half : bit_xor a b / 2 ≡ bit_xor (a / 2) (b / 2) = omega (arith, low, xor_digit a b) in
    halve_shift k (bit_xor a b)
    ∙ (ap (λ (t : ℕ). t / 2 ^ k) half
        ∙ (xor_above k (a / 2) (b / 2)
            ∙ ap₂ (λ (u v : ℕ). bit_xor u v) (sym (halve_shift k a)) (sym (halve_shift k b))))

pub and_above : (k a b : ℕ) → bit_and a b / 2 ^ k ≡ bit_and (a / 2 ^ k) (b / 2 ^ k)
and_above zero a b =
    omega arith
    ∙ ap₂ (λ (u v : ℕ). bit_and u v) {x = a} {y = a / 2 ^ 0} {u = b} {v = b / 2 ^ 0} (omega arith)
        (omega arith)
and_above (suc k) a b =
    let half : bit_and a b / 2 ≡ bit_and (a / 2) (b / 2) = omega (arith, and_digit a b) in
    halve_shift k (bit_and a b)
    ∙ (ap (λ (t : ℕ). t / 2 ^ k) half
        ∙ (and_above k (a / 2) (b / 2)
            ∙ ap₂ (λ (u v : ℕ). bit_and u v) (sym (halve_shift k a)) (sym (halve_shift k b))))
