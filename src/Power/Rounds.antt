-- ===== src/Power/Rounds.antt =====
-- The rounds of ipow.c on words, whose products are cut to 64 bits.
use cm_dotfiles.Prelude.{
  ℕ, zero, suc, ◌+◌, ◌*◌, ◌/◌, ◌%◌, ◌^◌, bit_and, ◌≡◌, sym, ap, ◌∙◌, arith, u64,
}
use native.Mathlib.Nat.{
  pow-suc, mul_comm, mul_assoc, add-mul, add-mul-mod_self_left, mod-add-div, pow-zero,
}
use cm_dotfiles.Prelude.Bits.{and_mask}

-- A factor may be cut to 64 bits before the product is.
cut_left : (a b : ℕ) → u64 (u64 a * b) ≡ u64 (a * b)
cut_left a b =
    let whole : a * b ≡ u64 a * b + 2 ^ 64 * (a / 2 ^ 64 * b) =
      ap (λ (t : ℕ). t * b) (sym (mod-add-div a (2 ^ 64)))
      ∙ (add-mul (u64 a) (2 ^ 64 * (a / 2 ^ 64)) b
          ∙ ap (λ (t : ℕ). u64 a * b + t) (mul_assoc (2 ^ 64) (a / 2 ^ 64) b)) in
    sym (ap (λ (t : ℕ). u64 t) whole ∙ add-mul-mod_self_left (u64 a * b) (2 ^ 64) (a / 2 ^ 64 * b))

cut_right : (a b : ℕ) → u64 (a * u64 b) ≡ u64 (a * b)
cut_right a b =
    ap (λ (t : ℕ). u64 t) (mul_comm a (u64 b))
    ∙ (cut_left b a ∙ ap (λ (t : ℕ). u64 t) (mul_comm b a))

cut_power : (n x y : ℕ) → u64 (x * u64 y ^ n) ≡ u64 (x * y ^ n)
cut_power zero x y = ap (λ (t : ℕ). u64 (x * t)) (pow-zero (u64 y) ∙ sym (pow-zero y))
cut_power (suc n) x y =
    let open_up : (b : ℕ) → x * b ^ suc n ≡ (x * b ^ n) * b =
      λ b. ap (λ (t : ℕ). x * t) (pow-suc b n) ∙ sym (mul_assoc x (b ^ n) b) in
    ap (λ (t : ℕ). u64 t) (open_up (u64 y))
    ∙ (cut_right (x * u64 y ^ n) y
        ∙ (sym (cut_left (x * u64 y ^ n) y)
            ∙ (ap (λ (t : ℕ). u64 (t * y)) (cut_power n x y)
                ∙ (cut_left (x * y ^ n) y ∙ ap (λ (t : ℕ). u64 t) (sym (open_up y))))))

pub square_power : (b m : ℕ) → (b * b) ^ m ≡ b ^ (m + m)
square_power b zero = pow-zero (b * b) ∙ sym (pow-zero b)
square_power b (suc m) =
    let e : suc m + suc m ≡ suc (suc (m + m)) = omega arith in
    rw (e, pow-suc (b * b) m, pow-suc b (suc (m + m)), pow-suc b (m + m), square_power b m)
      (sym (mul_assoc (b ^ (m + m)) b b))

pub low_bit : (exp : ℕ) → bit_and exp 1 ≡ exp % 2
low_bit exp = and_mask 1 exp

-- An even exponent, and an odd one, in a round.
pub even_round :
    (base exp result : ℕ)
    → exp % 2 ≡ 0
    → u64 (result * u64 (base * base) ^ (exp / 2)) ≡ u64 (result * base ^ exp)
even_round base exp result e =
    let whole : exp / 2 + exp / 2 ≡ exp = omega arith in
    cut_power (exp / 2) result (base * base)
    ∙ ap (λ (t : ℕ). u64 (result * t))
        (square_power base (exp / 2) ∙ ap (λ (n : ℕ). base ^ n) whole)

pub odd_round :
    (base exp result : ℕ)
    → exp % 2 ≡ 1
    → u64 (u64 (result * base) * u64 (base * base) ^ (exp / 2)) ≡ u64 (result * base ^ exp)
odd_round base exp result e =
    let whole : exp ≡ suc (exp / 2 + exp / 2) = omega arith in
    let h = exp / 2 in
    let power : base ^ exp ≡ base * base ^ (h + h) =
      ap (λ (n : ℕ). base ^ n) whole ∙ (pow-suc base (h + h) ∙ mul_comm (base ^ (h + h)) base) in
    cut_power h (u64 (result * base)) (base * base)
    ∙ (cut_left (result * base) ((base * base) ^ h)
        ∙ ap (λ (t : ℕ). u64 t)
            (ap (λ (t : ℕ). result * base * t) (square_power base h)
              ∙ (mul_assoc result base (base ^ (h + h)) ∙ ap (λ (t : ℕ). result * t) (sym power))))
