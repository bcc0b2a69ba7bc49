-- ===== src/Bitwise/Pow2/Smear.antt =====
-- Copying the highest set bit of a word down to all the bits below it.
use cm_dotfiles.Prelude.{
  ℕ, zero, suc, ◌+◌, ◌/◌, ◌%◌, ◌^◌, ◌≤◌, ◌<◌, bit_or, ◌≡◌, sym, ap, ap₂, ◌∙◌, arith, ◌>>◌,
}
use native.Mathlib.Decide.{dec_lt}
use mathlib.Core.Path.{subst}
use Prim.Native.Nat.{max}
use cm_dotfiles.Prelude.Bits.{or_digit, or-lt}
use native.Mathlib.Nat.{pow-suc, mul_comm, div-div-eq-div-mul, div-le_self}

-- The bit of n at a place.
unfoldable pub bit : ℕ → ℕ → ℕ
bit n zero = n % 2
bit n (suc i) = bit (n / 2) i

bit-or : (i a b : ℕ) → bit (bit_or a b) i ≡ max (bit a i) (bit b i)
unfolding bit
bit-or zero a b = rw (or_digit a b) omega arith
bit-or (suc i) a b =
    let half : bit_or a b / 2 ≡ bit_or (a / 2) (b / 2) = omega (arith, or_digit a b) in
    ap (λ (t : ℕ). bit t i) half ∙ bit-or i (a / 2) (b / 2)

pub halve_shift : (s n : ℕ) → n / 2 ^ suc s ≡ (n / 2) / 2 ^ s
halve_shift s n = sym (
    div-div-eq-div-mul n 2 (2 ^ s) ∙ ap (λ (d : ℕ). n / d) (mul_comm 2 (2 ^ s) ∙ sym (pow-suc 2 s)))

bit-shift : (s n i : ℕ) → bit (n / 2 ^ s) i ≡ bit n (s + i)
unfolding bit
bit-shift zero n i =
    ap₂ (λ (a j : ℕ). bit a j) {x = n / 2 ^ 0} {y = n} {u = i} {v = 0 + i} (omega arith)
      (omega arith)
bit-shift (suc s) n i =
    let next : suc s + i ≡ suc (s + i) = omega arith in
    ap (λ (t : ℕ). bit t i) (halve_shift s n)
    ∙ (bit-shift s (n / 2) i ∙ ap (λ (j : ℕ). bit n j) (sym next))

bit_lt : (i n : ℕ) → bit n i < 2
unfolding bit
bit_lt zero n = omega arith
bit_lt (suc i) n = bit_lt i (n / 2)

-- A word below 2^e whose s highest bits of the e are set.
pub Filled : ℕ → ℕ → ℕ → Type 0
Filled e s n = (n < 2 ^ e) × ((i : ℕ) → i < e → e ≤ i + s → bit n i ≡ 1)

pub smear : (e s n : ℕ) → Filled e s n → Filled e (s + s) (bit_or n (n >> s))
unfolding Filled
smear e s n (small, top) =
    let shifted : n / 2 ^ s ≤ n = div-le_self n (2 ^ s) in
    (
      or-lt e n (n / 2 ^ s) small (omega (arith, shifted)),
      λ i inside high. bit-or i n (n / 2 ^ s) ∙ (elim (dec_lt (i + s) e) [
        | yes below ↦
            let far : bit (n / 2 ^ s) i ≡ 1 =
              bit-shift s n i ∙ top (s + i) (omega arith) (omega arith) in
            omega (arith, far, bit_lt i n)
        | no above ↦ omega (arith, top i inside (omega arith), bit_lt i (n / 2 ^ s))
      ]),
    )

-- All bits are set.
pub filled : (e s n : ℕ) → e ≤ s → Filled e s n → n + 1 ≡ 2 ^ e
unfolding Filled bit
filled zero s n h (small, top) = omega arith
filled (suc e) s n h (small, top) =
    let half : n / 2 + 1 ≡ 2 ^ e =
      filled e s (n / 2) (omega arith)
        (omega (arith, pow-suc 2 e), λ i inside high. top (suc i) (omega arith) (omega arith)) in
    let low : n % 2 ≡ 1 = top 0 (omega arith) (omega arith) in omega (arith, half, low, pow-suc 2 e)

top_bit : (e n : ℕ) → 2 ^ e ≤ n → n < 2 ^ suc e → bit n e ≡ 1
unfolding bit
top_bit zero n low high = omega arith
top_bit (suc e) n low high =
    top_bit e (n / 2) (omega (arith, pow-suc 2 e)) (omega (arith, pow-suc 2 (suc e)))

pub highest : (e n : ℕ) → 2 ^ e ≤ n → n < 2 ^ suc e → Filled (suc e) 1 n
unfolding Filled
highest e n low high = (
  high,
  λ i inside top.
      subst (λ (j : ℕ). bit n j ≡ 1) {x = e} {y = i} (omega arith) (top_bit e n low high),
)
