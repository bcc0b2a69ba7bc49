-- ===== src/Decimal/Parse.antt =====
-- intfuncs.c and parse.c: reading numbers and Booleans from strings without their NUL, and a
-- function on numbers whose loop has no end. An `int` is the word of its bits.
use cm_dotfiles.Prelude.{
  ℕ, zero, suc, ◌+◌, ◌*◌, bit_and, bit_or, Bool, true, ◌||◌, Option, none, some, List, [], ◌∷◌,
  ◌==◌, if◌then◌else◌, codes, u32, sub32,
}

-- With `res`, the digits that are read.
unfoldable pub dirty_loop : ℕ → List ℕ → ℕ
dirty_loop res [] = res
dirty_loop res (c ∷ s) = dirty_loop (u32 (u32 (res * 10) + sub32 c b'0')) s

unfoldable pub dirty_parse_int : List ℕ → ℕ
unfolding dirty_loop
dirty_parse_int input = dirty_loop 0 input

-- `!cstreq_i(a, b)`: whether it returns 0. The difference of two bytes that are the same but for
-- case is taken of the one with the bit set and of the other less 32.
unfoldable pub cstreq_i_zero : List ℕ → List ℕ → Bool
cstreq_i_zero [] b = true
cstreq_i_zero (x ∷ a) [] = true
cstreq_i_zero (x ∷ a) (y ∷ b) =
    let rest = cstreq_i_zero a b in
    if bit_or x 32 == bit_or y 32 then bit_or x 32 + 32 == y else rest

-- The value that is stored, or the error return.
unfoldable pub parse_bool : List ℕ → Option ℕ
unfolding cstreq_i_zero
parse_bool input =
    if cstreq_i_zero input (codes "1")
      || cstreq_i_zero input (codes "true")
      || cstreq_i_zero input (codes "yes")
      || cstreq_i_zero input (codes "on")
    then some 1
    else if cstreq_i_zero input (codes "0")
        || cstreq_i_zero input (codes "false")
        || cstreq_i_zero input (codes "no")
        || cstreq_i_zero input (codes "off")
    then some 0
    else none

-- The loop of `roughpow`, `none` while it has not ended. The shift of `exp` is a value that nothing
-- takes.
unfoldable pub roughpow_loop : ℕ → ℕ → ℕ → ℕ → Option ℕ
roughpow_loop zero base exp res = none
roughpow_loop (suc n) base exp res =
    let res' = if bit_and exp 1 == 1 then u32 (res * base) else res in
    let rest = roughpow_loop n (u32 (base * base)) exp res' in if exp == 0 then some res' else rest
