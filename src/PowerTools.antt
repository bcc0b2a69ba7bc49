-- ===== src/PowerTools.antt =====
-- The tools p2below and p2above of cutils/cutenums. __builtin_clzll is GCC's, an argument here.
use cm_dotfiles.Prelude.{
  ℕ, zero, suc, ◌+◌, ◌-◌, ◌*◌, ◌/◌, ◌%◌, ◌^◌, ◌≤◌, ◌<◌, min, bit_and, bit_or, bit_xor, ◌≡◌, refl,
  sym, ap, ap₂, ◌∙◌, ◌≢◌, ◌↔◌, ◌⊎◌, inl, inr, Bool, true, false, ◌&&◌, ◌||◌, not, Option, none,
  some, List, [], ◌∷◌, ◌++◌, map, append_assoc, append-nil, arith, ltb, leb, ◌==◌, if◌then◌else◌,
  lt→ltb, le→ltb, ==_iff, Bool-cases, Option-cases, ◌>>=◌, codes, length, get_elem?, get_or, set,
  take, drop, replicate, length-append, length-set, length-replicate, get_or-replicate,
  get_or-set_self, get_or-set_ne, take-append-drop, length-take, length-drop, take-all,
  take-of_length, AllBytes, AllBytes-append, u8, u16, u32, u64, ◌<<◌, ◌>>◌, sub64, add64, sub32,
}
use native.Mathlib.Decide.{dec_lt, ℕ_discrete}
use mathlib.Core.Path.{subst}
pub mod Clz
mod Tests

unfoldable pub p2below : (ℕ → ℕ) → ℕ → ℕ
p2below clzll n = let bits = 63 - clzll n in if n == 0 then 0 else u64 (1 << bits)

unfoldable pub p2above : (ℕ → ℕ) → ℕ → ℕ
p2above clzll n =
    let bits = 64 - clzll (n - 1) in
    if leb n 1 then n else if leb 64 bits then 0 else u64 (1 << bits)
