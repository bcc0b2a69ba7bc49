-- ===== src/CuteId/Text.antt =====
-- `hexv`, `uuid_parse` and `uuid_format`. A C string is the list of the bytes before its
-- terminator, so `*s == '\0'` asks for the empty list.
pub mod RoundTrip
pub mod Shape
use cm_dotfiles.Prelude.{
  ℕ, zero, suc, ◌+◌, ◌-◌, ◌*◌, ◌/◌, ◌%◌, ◌^◌, List, [], ◌∷◌, ◌++◌, Option, none, some, length,
  get_or, codes, Bool, true, false, ◌&&◌, ◌||◌, ◌==◌, ltb, leb, if◌then◌else◌, ◌>>=◌, bit_and,
  bit_or, ◌<<◌, ◌>>◌, u8,
}
use cm_dotfiles.CuteId.Uuid.{Uuid}

-- `none` is the -1.
pub hexv : ℕ → Option ℕ
hexv c =
    if leb b'0' c && leb c b'9'
    then some (c - b'0')
    else if leb b'a' c && leb c b'f'
    then some (c - b'a' + 10)
    else if leb b'A' c && leb c b'F'
    then some (c - b'A' + 10)
    else none

-- What is skipped before the digits, and what behind them.
unfoldable pub is_lead : ℕ → Bool
is_lead c = c == b' ' || c == b'\t'

unfoldable pub is_trail : ℕ → Bool
is_trail c = c == b' ' || c == b'\n' || c == b'\r' || c == b'\t'

pub skip : (ℕ → Bool) → List ℕ → List ℕ
skip p [] = []
skip p (c ∷ s) = if p c then skip p s else c ∷ s

-- The loop over the digits with `16 - bi` bytes missing: the bytes that it stores, and the rest of
-- the text. A digit with no second one behind it is an error.
pub parse_loop : ℕ → List ℕ → Option (List ℕ × List ℕ)
parse_loop zero s = some ([], s)
parse_loop (suc k) [] = some ([], [])
parse_loop (suc k) (c ∷ []) = if c == b'-' then some ([], []) else none
parse_loop (suc k) (c ∷ d ∷ s) =
    let after_hyphen = parse_loop (suc k) (d ∷ s) in
    let after_byte =
      (hexv c >>= λ h.
      hexv d >>= λ l. parse_loop k s >>= λ r. some (u8 (bit_or (h << 4) l) ∷ r.0, r.1)) in
    if c == b'-' then after_hyphen else after_byte

pub at_end : List ℕ → Bool
at_end [] = true
at_end (c ∷ s) = false

unfoldable pub uuid_parse : List ℕ → Option Uuid
unfolding parse_loop hexv skip is_lead is_trail at_end
uuid_parse s = do
  r ← parse_loop 16 (skip is_lead s)
  if length r.0 == 16 && at_end (skip is_trail r.1) then some (record { b = r.0 }) else none

abbrev pub hex : List ℕ
hex = codes "0123456789abcdef"

abbrev pub grp : List ℕ
grp = 4 ∷ 2 ∷ 2 ∷ 2 ∷ 6 ∷ []

-- The loop over the bytes, with the group `gi` and the bytes `gc` already written of it.
pub format_loop : Bool → ℕ → ℕ → List ℕ → List ℕ
format_loop hyphens gi gc [] = []
format_loop hyphens gi gc (b ∷ bs) =
    let ends = hyphens && (gc + 1 == get_or grp gi 0 && ltb gi 4) in
    get_or hex (b >> 4) 0
    ∷ get_or hex (bit_and b 0xF) 0
    ∷ ((if ends then b'-' ∷ [] else [])
        ++ format_loop hyphens (if ends then gi + 1 else gi) (if ends then 0 else gc + 1) bs)

-- The text, and its length as the result.
unfoldable pub uuid_format : Uuid → Bool → ℕ × List ℕ
unfolding format_loop
uuid_format u hyphens = let out = format_loop hyphens 0 0 u.b in (length out, out)
