-- ===== src/Codec/Hex.antt =====
-- `hex_encode` and `hex_decode` of codec.c. The list is `in[0..n)`, and what goes through `out`
-- is returned beside the count.
pub mod RoundTrip
pub mod Accepts
use cm_dotfiles.Prelude.{
  ℕ, ◌*◌, ◌/◌, ◌%◌, ◌^◌, List, [], ◌∷◌, Option, none, some, length, get_or, ◌==◌, if◌then◌else◌,
  ◌>>=◌, bit_and, bit_or, ◌<<◌, ◌>>◌, u8, u64,
}
use cm_dotfiles.Codec.Tables.{hex_enc_tbl, hex_dec_tbl}

-- The rounds of the loop in `hex_encode`.
encode_loop : List ℕ → List ℕ
encode_loop [] = []
encode_loop (b ∷ bs) =
    get_or hex_enc_tbl (b >> 4) 0 ∷ get_or hex_enc_tbl (bit_and b 15) 0 ∷ encode_loop bs

pub hex_encode : List ℕ → ℕ × List ℕ
unfolding encode_loop
hex_encode bs = (u64 (length bs << 1), encode_loop bs)

-- The rounds of the loop in `hex_decode`, two digits each; `none` is its `return -1`.
decode_loop : List ℕ → Option (List ℕ)
decode_loop (c ∷ d ∷ cs) =
    let hi = hex_dec_tbl c in
    let lo = hex_dec_tbl d in
    let rest = decode_loop cs in
    if bit_or hi lo == 0xFF then none else (rest >>= λ out. some (u8 (bit_or (hi << 4) lo) ∷ out))
decode_loop cs = some []

-- At an odd `n` the loop is not entered.
pub hex_decode : List ℕ → Option (ℕ × List ℕ)
unfolding decode_loop
hex_decode cs =
    if bit_and (length cs) 1 == 0
    then (decode_loop cs >>= λ out. some (length cs >> 1, out))
    else none
