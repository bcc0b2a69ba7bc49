-- ===== src/Codec/Hex/RoundTrip.antt =====
-- `hex_encode` and `hex_decode` of codec.c, one after the other.
use cm_dotfiles.Prelude.{
  ℕ, ◌*◌, ◌/◌, ◌%◌, ◌^◌, ◌<◌, ◌≡◌, refl, arith, List, [], ◌∷◌, some, length, AllBytes,
}
use cm_dotfiles.Prelude.Bits.{and_mask, or_fields, or-lt}
use cm_dotfiles.Codec.Tables.{hex_encoded_length, hex_dec_tbl-hex_enc_tbl}
use cm_dotfiles.Codec.Hex.{encode_loop, decode_loop, hex_encode, hex_decode}

length-encode_loop : (bs : List ℕ) → length (encode_loop bs) ≡ 2 * length bs
unfolding encode_loop
length-encode_loop [] = refl
length-encode_loop (b ∷ bs) = omega (arith, length-encode_loop bs)

decode_loop-encode_loop : (bs : List ℕ) → AllBytes bs → decode_loop (encode_loop bs) ≡ some bs
unfolding encode_loop decode_loop
decode_loop-encode_loop [] h = refl
decode_loop-encode_loop (b ∷ bs) h = ground (
  arith,
  decode_loop-encode_loop bs,
  and_mask 4 b,
  hex_dec_tbl-hex_enc_tbl (b / 16),
  hex_dec_tbl-hex_enc_tbl (b % 16),
  or-lt 4 (b / 16) (b % 16),
  or_fields 4 (b / 16) (b % 16),
)

-- The count that `hex_encode` returns is the number of characters that it writes, and is
-- `hex_encoded_length` of the number of bytes, if twice that number is a `size_t`.
pub hex_encode-length :
    (bs : List ℕ)
    → length bs < 2 ^ 63
    → ((hex_encode bs).0 ≡ length (hex_encode bs).1)
      × (hex_encoded_length (length bs) ≡ length (hex_encode bs).1)
unfolding hex_encode hex_encoded_length
hex_encode-length bs h = omega (arith, length-encode_loop bs)

-- Decoding the encoding of bytes gives the bytes back, with their number as the count.
pub hex_decode-hex_encode :
    (bs : List ℕ) → AllBytes bs → hex_decode (hex_encode bs).1 ≡ some (length bs, bs)
unfolding hex_encode hex_decode
hex_decode-hex_encode bs h = ground (
  arith,
  and_mask 1 (length (encode_loop bs)),
  length-encode_loop bs,
  decode_loop-encode_loop bs h,
)
