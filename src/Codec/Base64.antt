-- ===== src/Codec/Base64.antt =====
-- `base64_encode` and `base64_decode` of codec.c. The list is `in[0..n)`, and what goes through
-- `out` is returned beside the count.
pub mod Sextets
pub mod RoundTrip
use cm_dotfiles.Prelude.{
  ℕ, ◌+◌, ◌*◌, ◌/◌, ◌%◌, ◌^◌, List, [], ◌∷◌, ◌++◌, Option, none, some, length, get_or, ◌==◌,
  if◌then◌else◌, ◌>>=◌, Bool, true, false, ◌&&◌, ◌||◌, not, bit_and, bit_or, ◌<<◌, ◌>>◌, u8, u64,
}
use cm_dotfiles.Codec.Tables.{b64_enc_tbl, b64_dec_tbl}

-- `b64_enc_tbl[(v >> k) & 63]`
pub sextet_char : ℕ → ℕ → ℕ
sextet_char v k = get_or b64_enc_tbl (bit_and (v >> k) 63) 0

-- The loop on three bytes, and the last one or two bytes with their padding.
encode_loop : List ℕ → List ℕ
encode_loop [] = []
encode_loop (x ∷ []) = let v = x << 16 in sextet_char v 18 ∷ sextet_char v 12 ∷ b'=' ∷ b'=' ∷ []
encode_loop (x ∷ y ∷ []) =
    let v = bit_or (x << 16) (y << 8) in
    sextet_char v 18 ∷ sextet_char v 12 ∷ sextet_char v 6 ∷ b'=' ∷ []
encode_loop (x ∷ y ∷ z ∷ rest) =
    let v = bit_or (bit_or (x << 16) (y << 8)) z in
    sextet_char v 18 ∷ sextet_char v 12 ∷ sextet_char v 6 ∷ sextet_char v 0 ∷ encode_loop rest

-- The count is the `j` at the end, one for each character stored.
pub base64_encode : List ℕ → ℕ × List ℕ
unfolding encode_loop sextet_char
base64_encode bs = let out = encode_loop bs in (length out, out)

-- One round of `base64_decode`: the bytes that it stores, or `none` for its `return -1`. `last`
-- tells that the group ends the input, `i == n`.
pub group : ℕ → ℕ → ℕ → ℕ → Bool → Option (List ℕ)
group ca cb cc' cd last =
    let a = b64_dec_tbl ca in
    let b = b64_dec_tbl cb in
    let c = b64_dec_tbl cc' in
    let d = b64_dec_tbl cd in
    let v = bit_or (bit_or (bit_or (a << 18) (b << 12)) (bit_and c 63 << 6)) (bit_and d 63) in
    let stored =
      if not (c == 0xFE)
      then if not (d == 0xFE)
        then some (u8 (v >> 16) ∷ bit_and (v >> 8) 255 ∷ bit_and v 255 ∷ [])
        else if not (cd == b'=')
        then none
        else some (u8 (v >> 16) ∷ bit_and (v >> 8) 255 ∷ [])
      else if not (cc' == b'=')
      then none
      else some (u8 (v >> 16) ∷ []) in
    let checked = stored >>= λ bytes.
    if c == 0xFE && not (d == 0xFE) || (a == 0xFE || b == 0xFE)
    then none
    else if d == 0xFE && not last
    then none
    else some bytes in
    if bit_or (bit_or (bit_or a b) c) d == 0xFF then none else checked

is_empty : List ℕ → Bool
is_empty [] = true
is_empty (c ∷ cs) = false

-- The loop of `base64_decode`, four characters a round.
decode_loop : List ℕ → Option (List ℕ)
unfolding is_empty
decode_loop (ca ∷ cb ∷ cc' ∷ cd ∷ cs) =
    let rest = decode_loop cs in
    group ca cb cc' cd (is_empty cs) >>= λ bytes. rest >>= λ out. some (bytes ++ out)
decode_loop cs = some []

-- The count is the `j` at the end, one for each byte stored.
pub base64_decode : List ℕ → Option (ℕ × List ℕ)
unfolding decode_loop
base64_decode cs =
    if bit_and (length cs) 3 == 0 then (decode_loop cs >>= λ out. some (length out, out)) else none
