-- ===== src/Bitwise/Pow2.antt =====
-- The powers of two of bitwise.c: the next one of a number, and the logarithms.
use cm_dotfiles.Prelude.{
  ℕ, zero, suc, ◌+◌, ◌-◌, ◌*◌, ◌/◌, ◌%◌, ◌^◌, ◌≤◌, ◌<◌, min, bit_and, bit_or, bit_xor, ◌≡◌, refl,
  sym, ap, ap₂, ◌∙◌, ◌≢◌, ◌↔◌, ◌⊎◌, inl, inr, Bool, true, false, ◌&&◌, ◌||◌, not, Option, none,
  some, List, [], ◌∷◌, ◌++◌, map, append_assoc, append-nil, arith, ltb, leb, ◌==◌, if◌then◌else◌,
  lt→ltb, le→ltb, ==_iff, Bool-cases, Option-cases, ◌>>=◌, codes, length, get_elem?, get_or, set,
  take, drop, replicate, length-append, length-set, length-replicate, get_or-replicate,
  get_or-set_self, get_or-set_ne, take-append-drop, length-take, length-drop, take-all,
  take-of_length, AllBytes, AllBytes-append, u8, u16, u32, u64, ◌<<◌, ◌>>◌, sub64, add64, sub32,
}
use native.Mathlib.Decide.{dec_lt, ℕ_discrete}
use mathlib.Core.Path.{subst}
pub mod Smear
pub mod Least

unfoldable pub next_pow2_gt : ℕ → ℕ
next_pow2_gt n =
    let a = n - 1 in
    let b = bit_or a (a >> 1) in
    let c = bit_or b (b >> 2) in
    let d = bit_or c (c >> 4) in
    let e = bit_or d (d >> 8) in let f = bit_or e (e >> 16) in if n == 0 then 1 else u32 (f + 1)

unfoldable pub next_pow2_gt_u64 : ℕ → ℕ
next_pow2_gt_u64 n =
    let a = n - 1 in
    let b = bit_or a (a >> 1) in
    let c = bit_or b (b >> 2) in
    let d = bit_or c (c >> 4) in
    let e = bit_or d (d >> 8) in
    let f = bit_or e (e >> 16) in let g = bit_or f (f >> 32) in if n == 0 then 1 else u64 (g + 1)

-- The loops, in at most the given number of turns.
unfoldable pub floor_loop : ℕ → ℕ → ℕ → ℕ
floor_loop zero height n = height
floor_loop (suc fuel) height n =
    let rest = floor_loop fuel (height + 1) n in
    if not (n >> (height + 1) == 0) then rest else height

unfoldable pub ceil_loop : ℕ → ℕ → ℕ → ℕ
ceil_loop zero height n = height
ceil_loop (suc fuel) height n =
    let rest = ceil_loop fuel (height + 1) n in if ltb (1 << height) n then rest else height

-- For an int that is not negative; the height stays below its width.
unfoldable pub log2_floor : ℕ → ℕ
unfolding floor_loop
log2_floor n = floor_loop 32 0 n

unfoldable pub log2_ceil : ℕ → ℕ
unfolding ceil_loop
log2_ceil n = ceil_loop 32 0 n
