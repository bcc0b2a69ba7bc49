-- ===== src/Scenario/Values/Quoted.antt =====
-- `parse_string_literal` of toml.c on a text in quotes.
use cm_dotfiles.Prelude.{
  ℕ, zero, suc, ◌+◌, ◌-◌, ◌≤◌, ◌<◌, ◌≡◌, refl, ap, ◌∙◌, inl, inr, true, false, some, List, [], ◌∷◌,
  ◌++◌, arith, leb, ◌==◌, if◌then◌else◌, ==_iff, Bool-cases, length, set, length-append,
  get_or-set_self,
}
use mathlib.Core.Path.{subst}
use cm_dotfiles.Scenario.Text.{at, is_space_char, skip_spaces}
use cm_dotfiles.Scenario.Text.Holds.{HoldsAt, HoldsAt-Keeps}
use cm_dotfiles.Prelude.Digits.{AllAre}
use cm_dotfiles.Scenario.Values.{is_escapable, close_literal, literal_loop, parse_string_literal}
use cm_dotfiles.Scenario.Frame.{Keeps, Keeps-trans, Keeps-widen, Keeps-set}

-- A text as it stands between quotes, its quotes and backslashes escaped.
unfoldable pub escape : List ℕ → List ℕ
escape [] = []
escape (c ∷ s) = let rest = escape s in if is_escapable c then b'\\' ∷ c ∷ rest else c ∷ rest

-- The rest of a literal, with white space behind it.
abbrev closing : List ℕ → List ℕ → List ℕ
closing s spaces = escape s ++ b'"' ∷ spaces

abbrev pub quoted : List ℕ → List ℕ → List ℕ
quoted s spaces = b'"' ∷ escape s ++ b'"' ∷ spaces

skip_spaces-all :
    (buf : List ℕ) (p : ℕ) (spaces : List ℕ)
    → AllAre is_space_char spaces
    → HoldsAt buf p spaces
    → skip_spaces (length spaces) buf p ≡ p + length spaces
unfolding skip_spaces
skip_spaces-all buf p [] a h = omega arith
skip_spaces-all buf p (c ∷ spaces) (e, a) (f, h) =
    rw (f, e) (skip_spaces-all buf (p + 1) spaces a h ∙ omega arith)

-- The loop writes the text from `w` on, with a NUL behind it.
record Unescapes (w end : ℕ) (s buf buf' : List ℕ) : Type 0 where
  holds : HoldsAt buf' w (s ++ 0 ∷ [])
  keeps : Keeps w end buf buf'

escape-special :
    (c : ℕ) (s : List ℕ) → is_escapable c ≡ true → escape (c ∷ s) ≡ b'\\' ∷ c ∷ escape s
unfolding escape
escape-special c s e = rw e refl

escape-plain : (c : ℕ) (s : List ℕ) → is_escapable c ≡ false → escape (c ∷ s) ≡ c ∷ escape s
unfolding escape
escape-plain c s e = rw e refl

escape-nil : escape [] ≡ []
unfolding escape
escape-nil = refl

round_end :
    (n : ℕ) (buf : List ℕ) (p w end : ℕ)
    → p < end
    → at buf p ≡ b'"'
    → literal_loop (suc n) buf p w end ≡ close_literal buf p w end
unfolding literal_loop
round_end n buf p w end lt e = let a : leb end p ≡ false = ground arith in rw (a, e) refl

-- A round of the loop, for an escaped byte and for one that is not.
round_special :
    (n : ℕ) (buf : List ℕ) (p w end c : ℕ)
    → p + 1 < end
    → at buf p ≡ b'\\'
    → at buf (p + 1) ≡ c
    → is_escapable c ≡ true
    → literal_loop (suc n) buf p w end ≡ literal_loop n (set buf w c) (p + 2) (w + 1) end
unfolding literal_loop
round_special n buf p w end c lt e f k =
    let a : leb end p ≡ false = ground arith in
    let b : leb end (p + 1) ≡ false = ground arith in rw (a, e, b, f, k) refl

round_plain :
    (n : ℕ) (buf : List ℕ) (p w end c : ℕ)
    → p < end
    → at buf p ≡ c
    → is_escapable c ≡ false
    → literal_loop (suc n) buf p w end ≡ literal_loop n (set buf w c) (p + 1) (w + 1) end
unfolding literal_loop
round_plain n buf p w end c lt e k =
    let a : leb end p ≡ false = ground arith in
    let b : (c == b'\\') ≡ false = ground arith in
    let d : (c == b'"') ≡ false = ground arith in rw (a, e, b, d) refl

module _ (spaces : List ℕ) (blank : AllAre is_space_char spaces) where
  closes :
      (buf : List ℕ) (p w end : ℕ)
      → w ≤ p
      → end ≤ length buf
      → p + (length spaces + 1) ≡ end
      → HoldsAt buf (p + 1) spaces
      → (b : List ℕ) × (close_literal buf p w end ≡ some b) × Unescapes w end [] buf b
  unfolding close_literal
  closes buf p w end le size fits h =
      let n : end - (p + 1) ≡ length spaces = omega arith in
      let there : skip_spaces (end - (p + 1)) buf (p + 1) ≡ end =
        ap (λ (k : ℕ). skip_spaces k buf (p + 1)) n
        ∙ (skip_spaces-all buf (p + 1) spaces blank h ∙ omega arith) in
      let test : (skip_spaces (end - (p + 1)) buf (p + 1) == end) ≡ true = (==_iff _ end).1 there in
      (
        set buf w 0,
        rw test refl,
        record {
          holds = (get_or-set_self buf w 0 0 (omega arith), tt);
          keeps = Keeps-set w end buf w 0 (omega arith) (omega arith);
        },
      )

  writes_byte :
      (s buf b : List ℕ) (c w end : ℕ)
      → w < end
      → end ≤ length buf
      → Unescapes (w + 1) end s (set buf w c) b
      → Unescapes w end (c ∷ s) buf b
  writes_byte s buf b c w end lt size u = record {
    holds = (u.keeps.below w (omega arith) ∙ get_or-set_self buf w c 0 (omega arith), u.holds);
    keeps =
        Keeps-trans (Keeps-set w end buf w c (omega arith) lt)
          (Keeps-widen w end (omega arith) (omega arith) u.keeps);
  }

  literal_loop-closing :
      (s : List ℕ) (n : ℕ) (buf : List ℕ) (p w end : ℕ)
      → w ≤ p
      → end ≤ length buf
      → p + length (closing s spaces) ≡ end
      → length (closing s spaces) ≤ n
      → HoldsAt buf p (closing s spaces)
      → (b : List ℕ) × (literal_loop n buf p w end ≡ some b) × Unescapes w end s buf b
  literal_loop-closing s zero buf p w end le size fits room h =
      absurd (omega (arith, length-append (escape s) (b'"' ∷ spaces)))
  literal_loop-closing [] (suc n) buf p w end le size fits room h =
      let k : HoldsAt buf p (b'"' ∷ spaces) = rw escape-nil at h in
      let len : p + suc (length spaces) ≡ end = rw escape-nil at fits in
      let (b, ran, u) = closes buf p w end le size (omega arith) k.1 in
      (b, round_end n buf p w end (omega (arith, len)) k.0 ∙ ran, u)
  literal_loop-closing (c ∷ s) (suc n) buf p w end le size fits room h =
      elim (Bool-cases (is_escapable c)) [
        | inl special ↦
            let e = escape-special c s special in
            let k : HoldsAt buf p (b'\\' ∷ c ∷ closing s spaces) = rw e at h in
            let len : length (closing (c ∷ s) spaces) ≡ length (closing s spaces) + 2 =
              rw e (omega arith) in
            let after : HoldsAt buf (p + 2) (closing s spaces) =
              subst (λ i. HoldsAt buf i (closing s spaces)) {y = p + 2} (omega arith) k.1.1 in
            let written : Keeps w (w + 1) buf (set buf w c) =
              Keeps-set w (w + 1) buf w c (omega arith) (omega arith) in
            let (b, ran, u) =
              literal_loop-closing s n (set buf w c) (p + 2) (w + 1) end (omega arith)
                (omega (arith, written.size)) (omega (arith, len, fits)) (omega (arith, len, room))
                (HoldsAt-Keeps w (w + 1) buf (set buf w c) (p + 2) _ (omega arith) written after) in
            (
              b,
              round_special n buf p w end c
                    (omega (arith, len, length-append (escape s) (b'"' ∷ spaces))) k.0 k.1.0 special
                  ∙ ran,
              writes_byte s buf b c w end (omega (arith, len)) size u,
            )
        | inr plain ↦
            let e = escape-plain c s plain in
            let k : HoldsAt buf p (c ∷ closing s spaces) = rw e at h in
            let len : length (closing (c ∷ s) spaces) ≡ length (closing s spaces) + 1 =
              rw e (omega arith) in
            let written : Keeps w (w + 1) buf (set buf w c) =
              Keeps-set w (w + 1) buf w c (omega arith) (omega arith) in
            let (b, ran, u) =
              literal_loop-closing s n (set buf w c) (p + 1) (w + 1) end (omega arith)
                (omega (arith, written.size)) (omega (arith, len, fits)) (omega (arith, len, room))
                (HoldsAt-Keeps w (w + 1) buf (set buf w c) (p + 1) _ (omega arith) written k.1) in
            (
              b,
              round_plain n buf p w end c (omega (arith, len, fits)) k.0 plain ∙ ran,
              writes_byte s buf b c w end (omega (arith, len)) size u,
            )
      ]

  -- A text between quotes, with its quotes and backslashes escaped and white space behind it, is
  -- read by parse_string_literal, which returns a pointer behind the first quote. Behind that quote
  -- stands then the text, whatever its bytes are, with a NUL behind it. No byte before the text or
  -- behind the end is written.
  pub parse_string_literal-quoted :
      (s buf : List ℕ) (start end : ℕ)
      → end ≤ length buf
      → start + length (quoted s spaces) ≡ end
      → HoldsAt buf start (quoted s spaces)
      → (b : List ℕ) × (parse_string_literal buf start end
          ≡ some (record { buf = b; result = start + 1 }))
        × HoldsAt b (start + 1) (s ++ 0 ∷ [])
        × Keeps (start + 1) end buf b
  unfolding parse_string_literal
  parse_string_literal-quoted s buf start end size fits (q, h) =
      let (b, ran, u) =
        literal_loop-closing s (end - start) buf (start + 1) (start + 1) end (omega arith) size
          (omega arith) (omega arith) h in
      let a : leb end start ≡ false = ground arith in (b, rw (a, q, ran) refl, u.holds, u.keeps)
