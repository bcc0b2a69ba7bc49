-- ===== src/Bitwise/Swap/Short.antt =====
-- The functions on 32 and on 16 bits.
use cm_dotfiles.Prelude.{
  ℕ, ◌+◌, ◌*◌, ◌/◌, ◌%◌, ◌^◌, ◌<◌, ◌≡◌, refl, sym, ◌∙◌, arith, bit_and, bit_or, ◌<<◌, u32,
}
use cm_dotfiles.Prelude.Bits.{and_mask, or_fields, or_fields'}
use cm_dotfiles.Bitwise.Swap.{
  be32_to_le, swap_bytes_u16v2, swap_bytes_u16, to_big_endian, swap_bytes_32,
}
use cm_dotfiles.Bitwise.Swap.Bytes.{byte, masked}

or_word :
    (a b c d : ℕ)
    → a < 256
    → b < 256
    → c < 256
    → bit_or (bit_or (bit_or a (b * 2 ^ 8)) (c * 2 ^ 16)) (d * 2 ^ 24)
      ≡ d * 2 ^ 24 + (c * 2 ^ 16 + (b * 2 ^ 8 + a))
or_word a b c d ha hb hc =
    rw
      (
        or_fields' 8 b a (omega arith),
        or_fields' 16 c (b * 2 ^ 8 + a) (omega arith),
        or_fields' 24 d (c * 2 ^ 16 + (b * 2 ^ 8 + a)) (omega arith),
      )
      refl

be32_to_le_lem :
    (x : ℕ) → be32_to_le x ≡ byte x 0 * 2 ^ 24 + (byte x 1 * 2 ^ 16 + (byte x 2 * 2 ^ 8 + byte x 3))
unfolding be32_to_le
be32_to_le_lem x =
    let e3 : bit_and (x / 2 ^ 24) 0xff ≡ byte x 3 = and_mask 8 (x / 2 ^ 24) in
    let e2 : u32 (bit_and (x / 2 ^ 16) 0xff << 8) ≡ byte x 2 * 2 ^ 8 =
      omega (arith, and_mask 8 (x / 2 ^ 16)) in
    let e1 : u32 (bit_and (x / 2 ^ 8) 0xff << 16) ≡ byte x 1 * 2 ^ 16 =
      omega (arith, and_mask 8 (x / 2 ^ 8)) in
    let e0 : u32 (bit_and x 0xff << 24) ≡ byte x 0 * 2 ^ 24 = omega (arith, and_mask 8 x) in
    rw (e3, e2, e1, e0)
      (or_word (byte x 3) (byte x 2) (byte x 1) (byte x 0) (omega arith) (omega arith)
        (omega arith))

swap_bytes_32_lem :
    (x : ℕ)
    → swap_bytes_32 x ≡ byte x 0 * 2 ^ 24 + (byte x 1 * 2 ^ 16 + (byte x 2 * 2 ^ 8 + byte x 3))
unfolding swap_bytes_32
swap_bytes_32_lem x =
    let e3 : bit_and x 0xFF000000 / 2 ^ 24 ≡ byte x 3 = omega (arith, masked x 3) in
    let e2 : bit_and x 0x00FF0000 / 2 ^ 8 ≡ byte x 2 * 2 ^ 8 = omega (arith, masked x 2) in
    let e1 : u32 (bit_and x 0x0000FF00 << 8) ≡ byte x 1 * 2 ^ 16 = omega (arith, masked x 1) in
    let e0 : u32 (bit_and x 0x000000FF << 24) ≡ byte x 0 * 2 ^ 24 = omega (arith, masked x 0) in
    rw (e3, e2, e1, e0)
      (or_word (byte x 3) (byte x 2) (byte x 1) (byte x 0) (omega arith) (omega arith)
        (omega arith))

-- On 32-bit numbers `__be32_to_le` and `swap_bytes_32` agree, and are their own inverse.
pub swap_bytes_32-swap_bytes_32 :
    (x : ℕ) → x < 2 ^ 32 → (be32_to_le x ≡ swap_bytes_32 x) × (swap_bytes_32 (swap_bytes_32 x) ≡ x)
swap_bytes_32-swap_bytes_32 x h =
    let y = swap_bytes_32 x in
    (
      be32_to_le_lem x ∙ sym (swap_bytes_32_lem x),
      omega (arith, swap_bytes_32_lem x, swap_bytes_32_lem y),
    )

swap_bytes_u16_lem : (x : ℕ) → x < 2 ^ 16 → swap_bytes_u16 x ≡ x % 256 * 2 ^ 8 + x / 256
unfolding swap_bytes_u16
swap_bytes_u16_lem x h = rw (or_fields 8 x (x / 256) (omega arith)) (omega arith)

swap_bytes_u16v2_lem : (x : ℕ) → x < 2 ^ 16 → swap_bytes_u16v2 x ≡ x % 256 * 2 ^ 8 + x / 256
unfolding swap_bytes_u16v2
swap_bytes_u16v2_lem x h =
    let high : bit_and (x << 8) 0xFF00 ≡ x % 256 * 2 ^ 8 = omega (arith, masked (x * 256) 1) in
    let low : bit_and (x / 256) 0xFF ≡ x / 256 = omega (arith, and_mask 8 (x / 256)) in
    rw (high, low, or_fields 8 (x % 256) (x / 256) (omega arith)) (omega arith)

to_big_endian_lem : (x : ℕ) → x < 2 ^ 16 → to_big_endian x ≡ x % 256 * 2 ^ 8 + x / 256
unfolding to_big_endian
to_big_endian_lem x h =
    let low : bit_and (x / 256) 0xFF ≡ x / 256 = omega (arith, and_mask 8 (x / 256)) in
    rw (and_mask 8 x, low, or_fields 8 (x % 256) (x / 256) (omega arith)) (omega arith)

-- On 16-bit numbers the three functions agree, and are their own inverse.
pub swap_bytes_u16-swap_bytes_u16 :
    (x : ℕ)
    → x < 2 ^ 16
    → (swap_bytes_u16v2 x ≡ swap_bytes_u16 x)
      × (to_big_endian x ≡ swap_bytes_u16 x)
      × (swap_bytes_u16 (swap_bytes_u16 x) ≡ x)
swap_bytes_u16-swap_bytes_u16 x h =
    let once = swap_bytes_u16_lem x h in
    (
      swap_bytes_u16v2_lem x h ∙ sym once,
      to_big_endian_lem x h ∙ sym once,
      swap_bytes_u16_lem (swap_bytes_u16 x) (omega arith) ∙ omega arith,
    )
