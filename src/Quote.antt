-- ===== src/Quote.antt =====
-- dot_config/tooling/cutils/cutestrs/cute_str.c: quoting for the shell.
use cm_dotfiles.Prelude.{
  ℕ, zero, suc, ◌+◌, ◌-◌, ◌*◌, ◌/◌, ◌%◌, ◌^◌, ◌≤◌, ◌<◌, min, bit_and, bit_or, bit_xor, ◌≡◌, refl,
  sym, ap, ap₂, ◌∙◌, ◌≢◌, ◌↔◌, ◌⊎◌, inl, inr, Bool, true, false, ◌&&◌, ◌||◌, not, Option, none,
  some, List, [], ◌∷◌, ◌++◌, map, append_assoc, append-nil, arith, ltb, leb, ◌==◌, if◌then◌else◌,
  lt→ltb, le→ltb, ==_iff, Bool-cases, Option-cases, ◌>>=◌, codes, length, get_elem?, get_or, set,
  take, drop, replicate, length-append, length-set, length-replicate, get_or-replicate,
  get_or-set_self, get_or-set_ne, take-append-drop, length-take, length-drop, take-all,
  take-of_length, AllBytes, AllBytes-append, u8, u16, u32, u64, ◌<<◌, ◌>>◌, sub64, add64, sub32,
}
use native.Mathlib.Decide.{dec_lt, ℕ_discrete}
use mathlib.Core.Path.{subst}
pub mod Shell
pub mod RoundTrip
mod Tests

-- A quote as the first byte, or as the last one, is left out.
unfoldable pub skip_first : List ℕ → List ℕ
skip_first [] = []
skip_first (c ∷ s) = if c == b'\'' then s else c ∷ s

unfoldable pub skip_last : List ℕ → List ℕ
skip_last [] = []
skip_last (c ∷ []) = if c == b'\'' then [] else c ∷ []
skip_last (c ∷ d ∷ s) = c ∷ skip_last (d ∷ s)

-- The loop over what is left.
unfoldable pub quote_loop : List ℕ → List ℕ
quote_loop [] = []
quote_loop (c ∷ s) =
    let rest = quote_loop s in if c == b'\'' then c ∷ b'\\' ∷ b'\'' ∷ b'\'' ∷ rest else c ∷ rest

-- The text that is written to `out`, without its NUL. `outcap` is not looked at.
unfoldable pub cute_str_litquote : List ℕ → List ℕ
unfolding skip_first skip_last quote_loop
cute_str_litquote input = b'\'' ∷ (quote_loop (skip_last (skip_first input)) ++ b'\'' ∷ [])

-- The test of `cute_cstr_litquote` for a quote as the first byte.
unfoldable pub skip_first_cstr : List ℕ → List ℕ
skip_first_cstr [] = []
skip_first_cstr (c ∷ s) = if c == b'\'' then s else c ∷ s

-- The loop over a C string, which stops at a quote that ends it.
unfoldable pub cstr_loop : List ℕ → List ℕ
cstr_loop [] = []
cstr_loop (c ∷ []) = if c == b'\'' then [] else c ∷ []
cstr_loop (c ∷ d ∷ s) =
    let rest = cstr_loop (d ∷ s) in
    if c == b'\'' then c ∷ b'\\' ∷ b'\'' ∷ b'\'' ∷ rest else c ∷ rest

unfoldable pub cute_cstr_litquote : List ℕ → List ℕ
unfolding skip_first_cstr cstr_loop
cute_cstr_litquote input = b'\'' ∷ (cstr_loop (skip_first_cstr input) ++ b'\'' ∷ [])
