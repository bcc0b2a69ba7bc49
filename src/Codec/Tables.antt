-- ===== src/Codec/Tables.antt =====
-- The four tables of codec.c and the two length functions.
use cm_dotfiles.Prelude.{
  ℕ, ◌+◌, ◌-◌, ◌/◌, ◌<◌, ◌≡◌, List, codes, get_or, leb, ◌==◌, ==_iff, if◌then◌else◌, ◌&&◌, true,
  refl, ◌<<◌, u64, add64,
}
use cm_dotfiles.Prelude.Finite.{all_below, all_below_at}

-- `hex_enc_tbl`
abbrev pub hex_enc_tbl : List ℕ
hex_enc_tbl = codes "0123456789abcdef"

-- `hex_dec_tbl`, read at a byte: 0xFF but at the digits and the letters of either case.
unfoldable pub hex_dec_tbl : ℕ → ℕ
hex_dec_tbl c =
    if leb b'0' c && leb c b'9'
    then c - b'0'
    else if leb b'A' c && leb c b'F'
    then c - b'A' + 10
    else if leb b'a' c && leb c b'f'
    then c - b'a' + 10
    else 0xFF

-- `b64_enc_tbl`
abbrev pub b64_enc_tbl : List ℕ
b64_enc_tbl = codes "ABCDEFGHIJKLMNOPQRSTUVWXYZabcdefghijklmnopqrstuvwxyz0123456789+/"

-- `b64_dec_tbl`, read at a byte: 0xFF but at the alphabet, and 0xFE at the padding.
unfoldable pub b64_dec_tbl : ℕ → ℕ
b64_dec_tbl c =
    if leb b'A' c && leb c b'Z'
    then c - b'A'
    else if leb b'a' c && leb c b'z'
    then c - b'a' + 26
    else if leb b'0' c && leb c b'9'
    then c - b'0' + 52
    else if c == b'+'
    then 62
    else if c == b'/'
    then 63
    else if c == b'='
    then 0xFE
    else 0xFF

unfoldable pub hex_encoded_length : ℕ → ℕ
hex_encoded_length n = u64 (n << 1)

unfoldable pub b64_encoded_length : ℕ → ℕ
b64_encoded_length n = u64 (add64 n 2 / 3 << 2)

hex_table : all_below 16 (λ d. hex_dec_tbl (get_or hex_enc_tbl d 0) == d) ≡ true
unfolding all_below hex_dec_tbl
hex_table = refl

b64_table : all_below 64 (λ d. b64_dec_tbl (get_or b64_enc_tbl d 0) == d) ≡ true
unfolding all_below b64_dec_tbl
b64_table = refl

-- The decoding tables invert the encoding tables.
pub hex_dec_tbl-hex_enc_tbl : (d : ℕ) → d < 16 → hex_dec_tbl (get_or hex_enc_tbl d 0) ≡ d
hex_dec_tbl-hex_enc_tbl d h = (==_iff _ d).0 (all_below_at 16 _ d hex_table h)

pub b64_dec_tbl-b64_enc_tbl : (d : ℕ) → d < 64 → b64_dec_tbl (get_or b64_enc_tbl d 0) ≡ d
b64_dec_tbl-b64_enc_tbl d h = (==_iff _ d).0 (all_below_at 64 _ d b64_table h)

pub b64_dec_tbl-padding : b64_dec_tbl b'=' ≡ 0xFE
unfolding b64_dec_tbl
b64_dec_tbl-padding = refl
