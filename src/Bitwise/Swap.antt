-- ===== src/Bitwise/Swap.antt =====
-- The functions that turn the bytes of a number round.
pub mod Bytes
pub mod Short
use cm_dotfiles.Prelude.{ℕ, ◌+◌, ◌*◌, ◌/◌, ◌%◌, ◌^◌, bit_and, bit_or, ◌<<◌, ◌>>◌, u16, u32, u64}

unfoldable pub be32_to_le : ℕ → ℕ
be32_to_le val =
    let c1 = bit_and (val >> 24) 0xff in
    let c2 = bit_and (val >> 16) 0xff in
    let c3 = bit_and (val >> 8) 0xff in
    let c4 = bit_and val 0xff in
    bit_or (bit_or (bit_or c1 (u32 (c2 << 8))) (u32 (c3 << 16))) (u32 (c4 << 24))

unfoldable pub be64_to_le : ℕ → ℕ
be64_to_le val =
    let c1 = bit_and (val >> 56) 0xff in
    let c2 = bit_and (val >> 48) 0xff in
    let c3 = bit_and (val >> 40) 0xff in
    let c4 = bit_and (val >> 32) 0xff in
    let c5 = bit_and (val >> 24) 0xff in
    let c6 = bit_and (val >> 16) 0xff in
    let c7 = bit_and (val >> 8) 0xff in
    let c8 = bit_and val 0xff in
    let low = bit_or (bit_or (bit_or c1 (u64 (c2 << 8))) (u64 (c3 << 16))) (u64 (c4 << 24)) in
    bit_or (bit_or (bit_or (bit_or low (u64 (c5 << 32))) (u64 (c6 << 40))) (u64 (c7 << 48)))
      (u64 (c8 << 56))

unfoldable pub swap_bytes_u16v2 : ℕ → ℕ
swap_bytes_u16v2 value = u16 (bit_or (bit_and (value << 8) 0xFF00) (bit_and (value >> 8) 0x00FF))

unfoldable pub swap_bytes_u16 : ℕ → ℕ
swap_bytes_u16 x = u16 (bit_or (x << 8) (x >> 8))

unfoldable pub to_big_endian : ℕ → ℕ
to_big_endian value = u16 (bit_or (bit_and value 0xFF << 8) (bit_and (value >> 8) 0xFF))

unfoldable pub swap_bytes_32 : ℕ → ℕ
swap_bytes_32 x =
    bit_or
      (bit_or (bit_or (bit_and x 0xFF000000 >> 24) (bit_and x 0x00FF0000 >> 8))
        (u32 (bit_and x 0x0000FF00 << 8)))
      (u32 (bit_and x 0x000000FF << 24))

unfoldable pub swap_bytes_64 : ℕ → ℕ
swap_bytes_64 x =
    let low =
      bit_or
        (bit_or (bit_or (bit_and x 0xFF00000000000000 >> 56) (bit_and x 0x00FF000000000000 >> 40))
          (bit_and x 0x0000FF0000000000 >> 24))
        (bit_and x 0x000000FF00000000 >> 8) in
    bit_or
      (bit_or
        (bit_or (bit_or low (u64 (bit_and x 0x00000000FF000000 << 8)))
          (u64 (bit_and x 0x0000000000FF0000 << 24)))
        (u64 (bit_and x 0x000000000000FF00 << 40)))
      (u64 (bit_and x 0x00000000000000FF << 56))
