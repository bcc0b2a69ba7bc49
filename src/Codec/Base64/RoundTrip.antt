-- ===== src/Codec/Base64/RoundTrip.antt =====
-- What `base64_decode` makes of the output of `base64_encode`.
use cm_dotfiles.Prelude.{
  ℕ, ◌+◌, ◌*◌, ◌/◌, ◌%◌, ◌^◌, ◌<◌, ◌≡◌, refl, ap₂, arith, List, [], ◌∷◌, none, some, length,
  AllBytes, Bool, true, false, ◌||◌, if◌then◌else◌, bit_or, ◌<<◌,
}
use cm_dotfiles.Prelude.Bits.{and_mask, or_fields}
use cm_dotfiles.Codec.Tables.{b64_encoded_length}
use cm_dotfiles.Codec.Base64.{
  encode_loop, decode_loop, base64_encode, base64_decode, sextet_char, group,
}
use cm_dotfiles.Codec.Base64.Sextets.{
  odd, word_of_bytes, sextets_of_word, group_full, group_three, group_two,
}

-- Some digit of a last, padded group is odd: the six bits of the one or two bytes that are left.
unfoldable pub has_odd_digit : List ℕ → Bool
has_odd_digit [] = false
has_odd_digit (x ∷ []) = odd (x / 4) || odd (x % 4 * 16)
has_odd_digit (x ∷ y ∷ []) = odd (x / 4) || odd (x % 4 * 16 + y / 16) || odd (y % 16 * 4)
has_odd_digit (x ∷ y ∷ z ∷ bs) = has_odd_digit bs

length-encode_loop : (bs : List ℕ) → length (encode_loop bs) ≡ (length bs + 2) / 3 * 4
unfolding encode_loop
length-encode_loop [] = refl
length-encode_loop (x ∷ []) = refl
length-encode_loop (x ∷ y ∷ []) = refl
length-encode_loop (x ∷ y ∷ z ∷ bs) = omega (arith, length-encode_loop bs)

-- The count that `base64_encode` returns is the number of characters that it writes and is
-- `b64_encoded_length` of the number of bytes, if that number is below 2 ^ 62.
pub base64_encode-length :
    (bs : List ℕ)
    → length bs < 2 ^ 62
    → ((base64_encode bs).0 ≡ length (base64_encode bs).1)
      × ((base64_encode bs).0 ≡ b64_encoded_length (length bs))
unfolding base64_encode b64_encoded_length
base64_encode-length bs h = omega (arith, length-encode_loop bs)

-- The group that stands for three bytes gives them back.
group_of_three_bytes :
    (x y z : ℕ) (last : Bool)
    → x < 256
    → y < 256
    → z < 256
    → let v = bit_or (bit_or (x << 16) (y << 8)) z in
      group (sextet_char v 18) (sextet_char v 12) (sextet_char v 6) (sextet_char v 0) last
      ≡ some (x ∷ y ∷ z ∷ [])
group_of_three_bytes x y z last hx hy hz =
    let v = x * 65536 + y * 256 + z in
    let digits = sextets_of_word v in
    rw
      (
        word_of_bytes x y z hy hz,
        digits.0,
        digits.1,
        digits.2,
        digits.3,
        group_full (v / 2 ^ 18 % 64) (v / 2 ^ 12 % 64) (v / 2 ^ 6 % 64) (v % 64) last (omega arith)
            (omega arith) (omega arith) (omega arith),
      )
      (ground arith)

-- The group for the last two bytes is refused where one of its digits is odd.
group_of_two_bytes :
    (x y : ℕ)
    → x < 256
    → y < 256
    → let v = bit_or (x << 16) (y << 8) in
      group (sextet_char v 18) (sextet_char v 12) (sextet_char v 6) b'=' true
      ≡ (if has_odd_digit (x ∷ y ∷ []) then none else some (x ∷ y ∷ []))
unfolding has_odd_digit odd
group_of_two_bytes x y hx hy =
    let v = x * 65536 + y * 256 in
    let digits = sextets_of_word v in
    rw
      (
        or_fields 16 x (y * 256) (omega arith),
        digits.0,
        digits.1,
        digits.2,
        group_three (v / 2 ^ 18 % 64) (v / 2 ^ 12 % 64) (v / 2 ^ 6 % 64) (omega arith) (omega arith)
            (omega arith),
      )
      (ap₂ (λ (b : Bool) (o : List ℕ). if b then none else some o) (ground arith) (ground arith))

-- The group for the last byte is refused where one of its digits is odd.
group_of_one_byte :
    (x : ℕ)
    → x < 256
    → let v = x << 16 in
      group (sextet_char v 18) (sextet_char v 12) b'=' b'=' true
      ≡ (if has_odd_digit (x ∷ []) then none else some (x ∷ []))
unfolding has_odd_digit odd
group_of_one_byte x hx =
    let v = x * 65536 in
    let digits = sextets_of_word v in
    rw
      (
        digits.0,
        digits.1,
        group_two (v / 2 ^ 18 % 64) (v / 2 ^ 12 % 64) (omega arith) (omega arith),
      )
      (ap₂ (λ (b : Bool) (o : List ℕ). if b then none else some o) (ground arith) (ground arith))

decode_loop-encode_loop :
    (bs : List ℕ)
    → AllBytes bs
    → decode_loop (encode_loop bs) ≡ (if has_odd_digit bs then none else some bs)
unfolding encode_loop decode_loop
decode_loop-encode_loop [] h = unfold has_odd_digit in refl
decode_loop-encode_loop (x ∷ []) h =
    rw (group_of_one_byte x h.0) (unfold has_odd_digit in ground arith)
decode_loop-encode_loop (x ∷ y ∷ []) h =
    rw (group_of_two_bytes x y h.0 h.1.0) (unfold has_odd_digit in ground arith)
decode_loop-encode_loop (x ∷ y ∷ z ∷ bs) h =
    rw (group_of_three_bytes x y z _ h.0 h.1.0 h.1.1.0, decode_loop-encode_loop bs h.1.1.1)
      (unfold has_odd_digit in ground arith)

-- Decoding the encoding of bytes gives the bytes back with their number as the count, unless the
-- last group is padded and has an odd digit: then the decoder refuses it.
pub base64_decode-base64_encode :
    (bs : List ℕ)
    → AllBytes bs
    → base64_decode (base64_encode bs).1 ≡ (if has_odd_digit bs then none else some (length bs, bs))
unfolding base64_encode base64_decode
base64_decode-base64_encode bs h =
    rw (decode_loop-encode_loop bs h)
      (ground (arith, and_mask 2 (length (encode_loop bs)), length-encode_loop bs))
