-- ===== src/HexTools/Htoi.antt =====
-- htoi.c: reading bytes from a text, and the number that they make.
use cm_dotfiles.Prelude.{
  ℕ, zero, suc, ◌+◌, ◌-◌, ◌*◌, List, [], ◌∷◌, Option, none, some, Bool, ◌==◌, ◌&&◌, ◌||◌, ltb, leb,
  if◌then◌else◌, bit_or, ◌<<◌, u8, u64, length,
}

-- `isspace` and `isxdigit`
unfoldable pub is_space : ℕ → Bool
is_space c = c == b' ' || leb 9 c && leb c 13

unfoldable pub is_xdigit : ℕ → Bool
is_xdigit c = leb b'0' c && leb c b'9' || leb b'A' c && leb c b'F' || leb b'a' c && leb c b'f'

-- hex_dec_tbl, 0 for all that is no digit
unfoldable pub hex_dec_tbl : ℕ → ℕ
hex_dec_tbl c =
    if leb b'0' c && leb c b'9'
    then c - b'0'
    else if leb b'A' c && leb c b'F'
    then c - b'A' + 10
    else if leb b'a' c && leb c b'f'
    then c - b'a' + 10
    else 0

-- `strncmp(s, sep, seplen) == 0`, with what stands behind the separator.
unfoldable pub behind : List ℕ → List ℕ → Option (List ℕ)
behind [] s = some s
behind (d ∷ sep) [] = none
behind (d ∷ sep) (c ∷ s) = let rest = behind sep s in if d == c then rest else none

-- What is left of `s` when a separator is taken off, or a white space; `none` where the loop ends.
unfoldable pub sep_at : List ℕ → List ℕ → Option (List ℕ)
sep_at [] s = none
sep_at (d ∷ sep) s = behind (d ∷ sep) s

unfoldable pub space_at : Bool → List ℕ → Option (List ℕ)
space_at trim_ws [] = none
space_at trim_ws (c ∷ s) = if trim_ws && is_space c then some s else none

unfoldable pub or_else : Option (List ℕ) → Option (List ℕ) → Option (List ℕ)
or_else none t = t
or_else (some r) t = some r

-- One more round, or the end of the loop.
unfoldable pub again : Option (List ℕ) → List ℕ → (List ℕ → List ℕ) → List ℕ
again none s loop = s
again (some rest) s loop = loop rest

-- The loop that skips separators and white space. A round takes a character at least.
unfoldable pub skip : ℕ → List ℕ → Bool → List ℕ → List ℕ
skip zero sep trim_ws s = s
skip (suc fuel) sep trim_ws s =
    again (or_else (sep_at sep s) (space_at trim_ws s)) s (λ rest. skip fuel sep trim_ws rest)

-- 0, the error exit, or 1 with the byte and the rest of the text.
pub data Next : Type 0 where
  stop odd_digits : Next
  byte : ℕ → List ℕ → Next

unfoldable pub low_digit : ℕ → List ℕ → Next
low_digit hi [] = odd_digits
low_digit hi (lo ∷ s) =
    if is_xdigit lo then byte (bit_or (u8 (hex_dec_tbl hi << 4)) (hex_dec_tbl lo)) s else odd_digits

unfoldable pub high_digit : List ℕ → Bool → List ℕ → Next
high_digit sep trim_ws [] = stop
high_digit sep trim_ws (hi ∷ s) =
    if is_xdigit hi then low_digit hi (skip (length s) sep trim_ws s) else stop

unfoldable pub next_byte : List ℕ → Bool → List ℕ → Next
next_byte sep trim_ws s = high_digit sep trim_ws (skip (length s) sep trim_ws s)

-- How `main` ends.
pub data Outcome : Type 0 where
  odd too_long no_digits : Outcome
  too_wide : ℕ → Outcome
  value : ℕ → Outcome

pub data Parsed : Type 0 where
  failed : Outcome → Parsed
  parsed : List ℕ → Parsed

unfoldable pub and_then : ℕ → Parsed → Parsed
and_then b (failed e) = failed e
and_then b (parsed bs) = parsed (b ∷ bs)

-- The body of the loop of `main`, before the rounds that follow.
unfoldable pub store_byte : ℕ → Next → (List ℕ → Parsed) → Parsed
store_byte nbytes stop loop = parsed []
store_byte nbytes odd_digits loop = failed odd
store_byte nbytes (byte b rest) loop =
    if leb 8 nbytes then failed too_long else and_then b (loop rest)

-- The loop of `main` with `nbytes` bytes read. A round takes a character at least.
unfoldable pub read_bytes : ℕ → List ℕ → Bool → ℕ → List ℕ → Parsed
read_bytes zero sep trim nbytes p = parsed []
read_bytes (suc fuel) sep trim nbytes [] = parsed []
read_bytes (suc fuel) sep trim nbytes (c ∷ p) =
    store_byte nbytes (next_byte sep trim (c ∷ p))
      (λ rest. read_bytes fuel sep trim (nbytes + 1) rest)

unfoldable pub be_number : ℕ → List ℕ → ℕ
be_number v [] = v
be_number v (b ∷ bs) = be_number (bit_or (u64 (v << 8)) b) bs

-- From `bytes[i]` on.
unfoldable pub le_number : ℕ → ℕ → List ℕ → ℕ
le_number i v [] = v
le_number i v (b ∷ bs) = le_number (i + 1) (bit_or v (u64 (b << (8 * i)))) bs

unfoldable pub trim_start : List ℕ → List ℕ
trim_start [] = []
trim_start (c ∷ s) = if is_space c then trim_start s else c ∷ s

unfoldable pub join : ℕ → List ℕ → List ℕ
join c [] = if is_space c then [] else c ∷ []
join c (d ∷ s) = c ∷ d ∷ s

unfoldable pub trim_end : List ℕ → List ℕ
trim_end [] = []
trim_end (c ∷ s) = join c (trim_end s)

unfoldable pub finish : Parsed → ℕ → Bool → Outcome
finish (failed e) width le = e
finish (parsed bs) width le =
    if length bs == 0
    then no_digits
    else if ltb width (length bs)
    then too_wide (length bs)
    else value (if le then le_number 0 0 bs else be_number 0 bs)

-- `main` behind the options, on its argument.
unfoldable pub htoi : List ℕ → List ℕ → Bool → ℕ → Bool → Outcome
htoi istr sep trim width le =
    let s = if trim then trim_end (trim_start istr) else istr in
    finish (read_bytes (length s) sep trim 0 s) width le
