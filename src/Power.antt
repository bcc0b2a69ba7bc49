-- ===== src/Power.antt =====
-- dot_config/nvim/lua/templates/ipow.c: integer powers by squaring. A signed number of 64 bits is
-- the word of its bits. A product that is no such number is undefined in C: none.
use cm_dotfiles.Prelude.{
  ℕ, zero, suc, ◌+◌, ◌-◌, ◌*◌, ◌/◌, ◌%◌, ◌^◌, ◌≤◌, ◌<◌, min, bit_and, bit_or, bit_xor, ◌≡◌, refl,
  sym, ap, ap₂, ◌∙◌, ◌≢◌, ◌↔◌, ◌⊎◌, inl, inr, Bool, true, false, ◌&&◌, ◌||◌, not, Option, none,
  some, List, [], ◌∷◌, ◌++◌, map, append_assoc, append-nil, arith, ltb, leb, ◌==◌, if◌then◌else◌,
  lt→ltb, le→ltb, ==_iff, Bool-cases, Option-cases, ◌>>=◌, codes, length, get_elem?, get_or, set,
  take, drop, replicate, length-append, length-set, length-replicate, get_or-replicate,
  get_or-set_self, get_or-set_ne, take-append-drop, length-take, length-drop, take-all,
  take-of_length, AllBytes, AllBytes-append, u8, u16, u32, u64, ◌<<◌, ◌>>◌, sub64, add64, sub32,
}
use native.Mathlib.Decide.{dec_lt, ℕ_discrete}
use mathlib.Core.Path.{subst}
pub mod Rounds
pub mod Exact
pub mod Result
mod Tests

unfoldable pub highest_bit_set : List ℕ
highest_bit_set =
    (0 ∷ 1 ∷ [])
    ++ replicate 2 2
    ++ replicate 4 3
    ++ replicate 8 4
    ++ replicate 16 5
    ++ replicate 31 6
    ++ replicate 193 255

-- The distance of a signed number from 0.
abbrev pub magnitude : ℕ → ℕ
magnitude w = if leb (2 ^ 63) w then 2 ^ 64 - w else w

-- `a * b`: a number of 64 bits, or one that is too large. The least number has the largest
-- magnitude, and is the product of a negative number and one that is not.
unfoldable pub mul_int : ℕ → ℕ → Option ℕ
mul_int a b =
    let size = magnitude a * magnitude b in
    let signs_differ = not (leb (2 ^ 63) a) && leb (2 ^ 63) b || leb (2 ^ 63) a && ltb b (2 ^ 63) in
    if ltb size (2 ^ 63) || size == 2 ^ 63 && signs_differ then some (u64 (a * b)) else none

-- The factor of a case: `if (exp & 1) result *= base`.
unfoldable pub multiply : ℕ → ℕ → ℕ → Option ℕ
unfolding mul_int
multiply base exp result = if bit_and exp 1 == 1 then mul_int result base else some result

-- The cases of the switch from the given one on, each of which falls into the next; the last one
-- squares no more.
unfoldable pub cases_from : ℕ → ℕ → ℕ → ℕ → Option ℕ
unfolding multiply
cases_from zero base exp result = some result
cases_from (suc zero) base exp result = multiply base exp result
cases_from (suc (suc k)) base exp result = multiply base exp result >>= λ product.
    mul_int base base >>= λ square. cases_from (suc k) square (exp >> 1) product

-- For an exponent of more than six bits, and for 63.
unfoldable pub large_exponent : ℕ → ℕ → ℕ
large_exponent base exp =
    if base == 1 then 1 else if base == 2 ^ 64 - 1 then sub64 1 (2 * bit_and exp 1) else 0

unfoldable pub ipow : ℕ → ℕ → Option ℕ
unfolding highest_bit_set cases_from large_exponent
ipow base exp =
    let highest = get_or highest_bit_set exp 0 in
    if highest == 255 then some (large_exponent base exp) else cases_from highest base exp 1
