-- ===== src/Scenario/Number.antt =====
-- The enumerations and the numbers of toml.c, read from strings without their NUL.
pub mod Bounds
pub mod Digits
use cm_dotfiles.Prelude.{
  ℕ, ◌+◌, ◌-◌, ◌*◌, ◌^◌, List, [], ◌∷◌, Option, none, some, Bool, true, false, ◌==◌, ◌&&◌, ◌>>=◌,
  leb, ltb, if◌then◌else◌, codes, sub64,
}
use cm_dotfiles.Prelude.Digits.{is_digit}
use cm_dotfiles.HexTools.Htoi.{is_space}
use cm_dotfiles.Scenario.Text.{is_space_char, str_eq_nocase}
use cm_dotfiles.Scenario.Types.{AppStatus, AlertLevel}

unfoldable pub parse_app_status : List ℕ → AppStatus
unfolding str_eq_nocase
parse_app_status s =
    if str_eq_nocase s (codes "Unknown")
    then AppStatus.unknown
    else if str_eq_nocase s (codes "Up")
    then AppStatus.up
    else if str_eq_nocase s (codes "Weak")
    then AppStatus.weak
    else if str_eq_nocase s (codes "Dead")
    then AppStatus.dead
    else if str_eq_nocase s (codes "Ended")
    then AppStatus.ended
    else AppStatus.unknown

unfoldable pub parse_alert_level : List ℕ → AlertLevel
unfolding str_eq_nocase
parse_alert_level s =
    if str_eq_nocase s (codes "Unknown")
    then AlertLevel.unknown
    else if str_eq_nocase s (codes "Positive")
    then AlertLevel.positive
    else if str_eq_nocase s (codes "Information")
    then AlertLevel.information
    else if str_eq_nocase s (codes "Warning")
    then AlertLevel.warning
    else if str_eq_nocase s (codes "Critical")
    then AlertLevel.critical
    else if str_eq_nocase s (codes "Fatal")
    then AlertLevel.fatal
    else AlertLevel.unknown

-- `strtoull` in base 10. It finds no number, or one that no 64 bits hold, or a number and what
-- stands behind it. Of a number behind a minus it gives the negative, as an unsigned one.
pub data Strtoull : Type 0 where
  no_number out_of_range : Strtoull
  number : ℕ → List ℕ → Strtoull

unfoldable pub in_range : Bool → ℕ → List ℕ → Strtoull
in_range minus v rest =
    if leb (2 ^ 64) v then out_of_range else number (if minus then sub64 0 v else v) rest

unfoldable pub digits : Bool → ℕ → List ℕ → Strtoull
unfolding is_digit in_range
digits minus v [] = in_range minus v []
digits minus v (c ∷ s) =
    let rest = digits minus (v * 10 + (c - b'0')) s in
    if is_digit c then rest else in_range minus v (c ∷ s)

unfoldable pub first_digit : Bool → List ℕ → Strtoull
unfolding digits
first_digit minus [] = no_number
first_digit minus (c ∷ s) = if is_digit c then digits minus 0 (c ∷ s) else no_number

unfoldable pub signed : List ℕ → Strtoull
unfolding first_digit
signed [] = no_number
signed (c ∷ s) =
    if c == b'-'
    then first_digit true s
    else if c == b'+'
    then first_digit false s
    else first_digit false (c ∷ s)

unfoldable pub strtoull : List ℕ → Strtoull
unfolding signed is_space
strtoull [] = no_number
strtoull (c ∷ s) = let rest = strtoull s in if is_space c then rest else signed (c ∷ s)

-- The loop behind the number, and the test that it reaches the NUL.
unfoldable pub only_spaces : List ℕ → Bool
unfolding is_space_char
only_spaces [] = true
only_spaces (c ∷ s) = let rest = only_spaces s in if is_space_char c then rest else false

unfoldable pub finish_number : Strtoull → Option ℕ
unfolding only_spaces
finish_number no_number = none
finish_number out_of_range = none
finish_number (number v rest) = if only_spaces rest then some v else none

unfoldable pub parse_uint64 : List ℕ → Option ℕ
unfolding strtoull finish_number
parse_uint64 s = finish_number (strtoull s)

unfoldable pub parse_uint32 : List ℕ → Option ℕ
unfolding parse_uint64
parse_uint32 s = parse_uint64 s >>= λ v. if ltb 0xffffffff v then none else some v
