-- ===== src/HexTools/Itoh.antt =====
-- itoh.c: the text that is printed for a number, and the width for `--minw`.
use cm_dotfiles.Prelude.{
  ℕ, zero, suc, ◌+◌, ◌-◌, ◌*◌, ◌^◌, List, [], ◌∷◌, ◌++◌, Option, none, some, Bool, ◌==◌, ◌&&◌, ltb,
  if◌then◌else◌, bit_and, ◌>>◌, take, drop, get_or, codes,
}

-- hex_enc_tbl
abbrev pub hex_chars : List ℕ
hex_chars = codes "0123456789abcdef"

unfoldable pub hex_char : ℕ → ℕ
hex_char d = get_or hex_chars d 0

-- The separator stands between the bytes, the prefix before each.
unfoldable pub print_encoded_bytes : List ℕ → List ℕ → List ℕ → List ℕ
print_encoded_bytes sep esc [] = []
print_encoded_bytes sep esc (b ∷ []) = esc ++ (hex_char (b >> 4) ∷ hex_char (bit_and b 15) ∷ [])
print_encoded_bytes sep esc (b ∷ c ∷ bs) =
    let rest = print_encoded_bytes sep esc (c ∷ bs) in
    esc ++ (hex_char (b >> 4) ∷ hex_char (bit_and b 15) ∷ (sep ++ rest))

-- The loop over `b[i]`, and the one over `b[7 - i]`, with `k` bytes missing.
unfoldable pub le_bytes : ℕ → ℕ → List ℕ
le_bytes zero v = []
le_bytes (suc k) v = bit_and (v >> (8 * (7 - k))) 0xFF ∷ le_bytes k v

unfoldable pub be_bytes : ℕ → ℕ → List ℕ
be_bytes zero v = []
be_bytes (suc k) v = bit_and (v >> (8 * k)) 0xFF ∷ be_bytes k v

unfoldable pub encode : ℕ → Bool → ℕ → List ℕ → List ℕ → List ℕ
encode v le width sep esc =
    if le
    then print_encoded_bytes sep esc (take width (le_bytes 8 v))
    else print_encoded_bytes sep esc (drop (8 - width) (be_bytes 8 v))

-- The loop for little endian. It takes off a byte a round, so eight rounds are enough.
unfoldable pub le_width : ℕ → ℕ → ℕ → ℕ → ℕ
le_width zero n mask width = width
le_width (suc fuel) n mask width =
    let rest = le_width fuel n (mask >> 8) (width - 1) in
    if ltb 1 width && bit_and n mask == 0 then rest else width

-- The loop for big endian. `none` is the shift by 64 bits, which C does not define; it is reached
-- after seven rounds.
unfoldable pub be_width : ℕ → ℕ → ℕ → Option ℕ
be_width zero n width = none
be_width (suc fuel) n width =
    let rest = be_width fuel n (width + 1) in
    if ltb 7 width then none else if ltb (2 ^ (width * 8) - 1) n then rest else some width

unfoldable pub get_min_width : ℕ → Bool → Option ℕ
get_min_width n le =
    if n == 0
    then some 1
    else if le
    then some (le_width 8 n 0xFF00000000000000 8)
    else be_width 8 n 1
