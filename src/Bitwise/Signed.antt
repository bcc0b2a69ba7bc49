-- ===== src/Bitwise/Signed.antt =====
-- The tricks of bitwise.c on ints, which are words of 32 bits here. A sum or a difference that is
-- no int is undefined in C: none.
use cm_dotfiles.Prelude.{
  ℕ, zero, suc, ◌+◌, ◌-◌, ◌*◌, ◌/◌, ◌%◌, ◌^◌, ◌≤◌, ◌<◌, min, bit_and, bit_or, bit_xor, ◌≡◌, refl,
  sym, ap, ap₂, ◌∙◌, ◌≢◌, ◌↔◌, ◌⊎◌, inl, inr, Bool, true, false, ◌&&◌, ◌||◌, not, Option, none,
  some, List, [], ◌∷◌, ◌++◌, map, append_assoc, append-nil, arith, ltb, leb, ◌==◌, if◌then◌else◌,
  lt→ltb, le→ltb, ==_iff, Bool-cases, Option-cases, ◌>>=◌, codes, length, get_elem?, get_or, set,
  take, drop, replicate, length-append, length-set, length-replicate, get_or-replicate,
  get_or-set_self, get_or-set_ne, take-append-drop, length-take, length-drop, take-all,
  take-of_length, AllBytes, AllBytes-append, u8, u16, u32, u64, ◌<<◌, ◌>>◌, sub64, add64, sub32,
}
use native.Mathlib.Decide.{dec_lt, ℕ_discrete}
use mathlib.Core.Path.{subst}
pub mod Digits
pub mod Sums

-- The distance of an int from INT_MIN.
abbrev pub from_least : ℕ → ℕ
from_least w = (w + 2 ^ 31) % 2 ^ 32

-- `a + b` and `a - b` of ints.
unfoldable pub add_int : ℕ → ℕ → Option ℕ
add_int a b =
    let sum = from_least a + from_least b in
    if leb (2 ^ 31) sum && ltb sum (2 ^ 31 + 2 ^ 32) then some (u32 (a + b)) else none

unfoldable pub sub_int : ℕ → ℕ → Option ℕ
sub_int a b =
    if leb (from_least b) (from_least a + 2 ^ 31) && ltb (from_least a) (from_least b + 2 ^ 31)
    then some (sub32 a b)
    else none

-- `w < 0`.
abbrev pub negative : ℕ → Bool
negative w = leb (2 ^ 31) w

-- `w >> k` of an int: copies of its sign come in from the left.
abbrev pub shift_right : ℕ → ℕ → ℕ
shift_right w k = (w >> k) + (if negative w then 2 ^ 32 - 2 ^ (32 - k) else 0)

-- The sum of the two parts is always an int.
unfoldable pub safe_average : ℕ → ℕ → ℕ
safe_average a b = u32 (bit_and a b + shift_right (bit_xor a b) 1)

unfoldable pub fast_abs : ℕ → Option ℕ
unfolding add_int
fast_abs n = let mask = shift_right n 31 in add_int n mask >>= λ moved. some (bit_xor moved mask)

-- The sum, and what is stored in `suc`.
unfoldable pub did_add_wrap : ℕ → ℕ → Option (ℕ × Bool)
unfolding add_int
did_add_wrap a b = add_int a b >>= λ result.
    some (result, not (negative (bit_and (bit_xor a result) (bit_xor b result))))

unfoldable pub signless_flip : ℕ → Option ℕ
unfolding sub_int
signless_flip val = let sign = 2 ^ 32 - 1 in sub_int (bit_xor val sign) sign

unfoldable pub have_opposite_signs : ℕ → ℕ → Bool
have_opposite_signs a b = negative (bit_xor a b)
