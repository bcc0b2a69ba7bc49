-- ===== src/Surround.antt =====
-- dot_config/tooling/cutils/surround/surround.c: the word at the cursor between two characters.
use cm_dotfiles.Prelude.{
  ℕ, zero, suc, ◌+◌, ◌-◌, ◌*◌, ◌/◌, ◌%◌, ◌^◌, ◌≤◌, ◌<◌, min, bit_and, bit_or, bit_xor, ◌≡◌, refl,
  sym, ap, ap₂, ◌∙◌, ◌≢◌, ◌↔◌, ◌⊎◌, inl, inr, Bool, true, false, ◌&&◌, ◌||◌, not, Option, none,
  some, List, [], ◌∷◌, ◌++◌, map, append_assoc, append-nil, arith, ltb, leb, ◌==◌, if◌then◌else◌,
  lt→ltb, le→ltb, ==_iff, Bool-cases, Option-cases, ◌>>=◌, codes, length, get_elem?, get_or, set,
  take, drop, replicate, length-append, length-set, length-replicate, get_or-replicate,
  get_or-set_self, get_or-set_ne, take-append-drop, length-take, length-drop, take-all,
  take-of_length, AllBytes, AllBytes-append, u8, u16, u32, u64, ◌<<◌, ◌>>◌, sub64, add64, sub32,
}
use native.Mathlib.Decide.{dec_lt, ℕ_discrete}
use mathlib.Core.Path.{subst}
use cm_dotfiles.HexTools.Htoi.{is_space}
pub mod Word
mod Tests

-- `strchr` in the four openers or closers, which finds their NUL too.
unfoldable pub match_close : ℕ → ℕ
match_close c =
    if c == 0
    then 0
    else if c == b'('
    then b')'
    else if c == b'['
    then b']'
    else if c == b'{'
    then b'}'
    else if c == b'<'
    then b'>'
    else if c == b')'
    then b'('
    else if c == b']'
    then b'['
    else if c == b'}'
    then b'{'
    else if c == b'>'
    then b'<'
    else c

unfoldable pub is_word_char : ℕ → Bool
is_word_char c =
    leb b'0' c && leb c b'9' || leb b'A' c && leb c b'Z' || leb b'a' c && leb c b'z' || c == b'_'

unfoldable pub is_big_word_char : ℕ → Bool
unfolding is_space
is_big_word_char c = not (is_space c)

-- The line without the newlines at its end, byte by byte from the end.
unfoldable pub before_newlines : ℕ → List ℕ → List ℕ
before_newlines c [] = if c == b'\n' then [] else c ∷ []
before_newlines c (d ∷ s) = c ∷ d ∷ s

unfoldable pub strip_newlines : List ℕ → List ℕ
unfolding before_newlines
strip_newlines [] = []
strip_newlines (c ∷ s) = before_newlines c (strip_newlines s)

-- The two loops that move the ends of the word, the second with the bytes behind it.
unfoldable pub expand_left : (ℕ → Bool) → List ℕ → ℕ → ℕ
expand_left boundary line zero = zero
expand_left boundary line (suc ws) =
    let rest = expand_left boundary line ws in if boundary (get_or line ws 0) then rest else suc ws

unfoldable pub expand_right : (ℕ → Bool) → ℕ → List ℕ → ℕ → ℕ
expand_right boundary zero line we = we
expand_right boundary (suc n) line we =
    let rest = expand_right boundary n line (we + 1) in
    if boundary (get_or line we 0) then rest else we

-- What `%s` prints of the buffer: the bytes before the first NUL.
unfoldable pub until_nul : List ℕ → List ℕ
until_nul [] = []
until_nul (c ∷ s) = let rest = until_nul s in if c == 0 then [] else c ∷ rest

-- The line that is printed, and the cursor.
pub record Output : Type 0 where
  pub out : List ℕ
  pub new_cursor : ℕ

unfoldable pub surround_at : (ℕ → Bool) → List ℕ → ℕ → ℕ → Output
unfolding expand_left expand_right match_close until_nul
surround_at boundary line open_ch cursor =
    let ws = expand_left boundary line cursor in
    let we = expand_right boundary (length line - cursor) line cursor in
    record {
      out = until_nul (
          take ws line
          ++ (open_ch ∷ (take (we - ws) (drop ws line) ++ match_close open_ch ∷ drop we line)));
      new_cursor = ws + 1;
    }

-- `main` behind the options, with what is read from standard input.
unfoldable pub surround : Bool → List ℕ → ℕ → ℕ → Output
unfolding surround_at strip_newlines is_word_char is_big_word_char
surround bigword input open_ch cursor =
    let line = strip_newlines input in
    surround_at (if bigword then is_big_word_char else is_word_char) line open_ch
      (if ltb (length line) cursor then length line else cursor)
