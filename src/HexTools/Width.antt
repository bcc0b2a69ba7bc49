-- ===== src/HexTools/Width.antt =====
-- Lemmas on `get_min_width` of itoh.c.
use cm_dotfiles.Prelude.{
  ℕ, zero, suc, ◌-◌, ◌*◌, ◌/◌, ◌%◌, ◌^◌, ◌<◌, ◌≤◌, ◌≡◌, refl, ap, ◌∙◌, arith, none, some, Bool,
  true, false, ◌==◌, ◌||◌, ◌⊎◌, ltb, if◌then◌else◌, bit_and,
}
use cm_dotfiles.Prelude.Bits.{and_mask, and_shifted}
use cm_dotfiles.HexTools.Itoh.{le_width, be_width, get_min_width}

-- The number of bytes of a number below 2 ^ 64, and 1 for 0.
unfoldable pub byte_count : ℕ → ℕ
byte_count n =
    if ltb n (2 ^ 8)
    then 1
    else if ltb n (2 ^ 16)
    then 2
    else if ltb n (2 ^ 24)
    then 3
    else if ltb n (2 ^ 32)
    then 4
    else if ltb n (2 ^ 40)
    then 5
    else if ltb n (2 ^ 48)
    then 6
    else if ltb n (2 ^ 56)
    then 7
    else 8

mask_lem : (n k : ℕ) → bit_and n (0xFF * 2 ^ k) ≡ n / 2 ^ k % 2 ^ 8 * 2 ^ k
mask_lem n k = and_shifted k n 0xFF ∙ ap (λ (b : ℕ). b * 2 ^ k) (and_mask 8 (n / 2 ^ k))

be_lem : (n : ℕ) → be_width 8 n 1 ≡ (if ltb n (2 ^ 56) then some (byte_count n) else none)
unfolding be_width byte_count
be_lem n = ground arith

le_lem : (n : ℕ) → n < 2 ^ 64 → le_width 8 n 0xFF00000000000000 8 ≡ byte_count n
unfolding le_width byte_count
le_lem n h =
    rw
      (
        mask_lem n 56,
        mask_lem n 48,
        mask_lem n 40,
        mask_lem n 32,
        mask_lem n 24,
        mask_lem n 16,
        mask_lem n 8,
      )
      (ground arith)

-- For a number below 2 ^ 64 `get_min_width` returns the least number of bytes that hold it, in
-- either byte order, but that for big endian and a number of 2 ^ 56 or more it shifts by 64 bits,
-- which C does not define.
pub get_min_width-byte_count :
    (n : ℕ) (le : Bool)
    → n < 2 ^ 64
    → get_min_width n le ≡ (if le || ltb n (2 ^ 56) then some (byte_count n) else none)
unfolding get_min_width
get_min_width-byte_count zero true h = unfold byte_count in refl
get_min_width-byte_count zero false h = unfold byte_count in refl
get_min_width-byte_count (suc n) true h =
    let positive : (suc n == 0) ≡ false = ground arith in rw positive (ap some (le_lem (suc n) h))
get_min_width-byte_count (suc n) false h =
    let positive : (suc n == 0) ≡ false = ground arith in rw positive (be_lem (suc n))

-- That number of bytes is enough, and one less is not.
pub byte_count_lem :
    (n : ℕ)
    → n < 2 ^ 64
    → (n < 256 ^ byte_count n)
      × (1 ≤ byte_count n)
      × ((byte_count n ≡ 1) ⊎ (256 ^ (byte_count n - 1) ≤ n))
unfolding byte_count
byte_count_lem n h = ground arith
