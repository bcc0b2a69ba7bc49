-- ===== src/Scenario/Text.antt =====
-- The characters and the pointers of toml.c. A pointer into the file's buffer is an index, and
-- the buffer is the list of its bytes with the NUL behind them.
pub mod Bounds
pub mod Compare
pub mod Holds
use cm_dotfiles.Prelude.{
  ℕ, zero, suc, ◌+◌, ◌-◌, List, [], ◌∷◌, Bool, true, false, ◌==◌, ◌&&◌, ◌||◌, leb, if◌then◌else◌,
  get_or, drop,
}

-- `*(buf + i)`
abbrev pub at : List ℕ → ℕ → ℕ
at buf i = get_or buf i 0

unfoldable pub is_space_char : ℕ → Bool
is_space_char c = c == b' ' || c == b'\t' || c == b'\r' || c == b'\n'

-- The two loops with the number of bytes between the pointers.
unfoldable pub skip_spaces : ℕ → List ℕ → ℕ → ℕ
skip_spaces zero buf s = s
skip_spaces (suc n) buf s =
    let rest = skip_spaces n buf (s + 1) in if is_space_char (at buf s) then rest else s

unfoldable pub trim_left : List ℕ → ℕ → ℕ → ℕ
unfolding skip_spaces
trim_left buf s end = skip_spaces (end - s) buf s

unfoldable pub drop_spaces : ℕ → List ℕ → ℕ → ℕ
drop_spaces zero buf end = end
drop_spaces (suc n) buf end =
    let rest = drop_spaces n buf (end - 1) in if is_space_char (at buf (end - 1)) then rest else end

unfoldable pub trim_right : List ℕ → ℕ → ℕ → ℕ
unfolding drop_spaces
trim_right buf s end = drop_spaces (end - s) buf end

-- `while (p < end && ...) p++`, with the test at which it stops
unfoldable pub scan : (ℕ → Bool) → ℕ → List ℕ → ℕ → ℕ
scan stop zero buf p = p
scan stop (suc n) buf p = let rest = scan stop n buf (p + 1) in if stop (at buf p) then p else rest

unfoldable pub scan_to : (ℕ → Bool) → List ℕ → ℕ → ℕ → ℕ
unfolding scan
scan_to stop buf p end = scan stop (end - p) buf p

-- The bytes before the NUL, and the string that a pointer stands for.
unfoldable pub c_string : List ℕ → List ℕ
c_string [] = []
c_string (c ∷ s) = let rest = c_string s in if c == 0 then [] else c ∷ rest

unfoldable pub string_at : List ℕ → ℕ → List ℕ
unfolding c_string
string_at buf p = c_string (drop p buf)

unfoldable pub lower : ℕ → ℕ
lower c = if leb b'A' c && leb c b'Z' then c - b'A' + b'a' else c

-- On strings without their NUL.
unfoldable pub str_eq_nocase : List ℕ → List ℕ → Bool
unfolding lower
str_eq_nocase [] [] = true
str_eq_nocase [] (b ∷ bs) = false
str_eq_nocase (a ∷ as') [] = false
str_eq_nocase (a ∷ as') (b ∷ bs) =
    let rest = str_eq_nocase as' bs in if lower a == lower b then rest else false

-- `strncasecmp(s, t, n) == 0`
unfoldable pub strncasecmp_zero : ℕ → List ℕ → List ℕ → Bool
unfolding lower
strncasecmp_zero (suc n) (a ∷ as') (b ∷ bs) =
    let rest = strncasecmp_zero n as' bs in
    if lower a == lower b then (if a == 0 then true else rest) else false
strncasecmp_zero zero as' bs = true
strncasecmp_zero (suc n) [] bs = false
strncasecmp_zero (suc n) (a ∷ as') [] = false
