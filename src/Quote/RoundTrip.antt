-- ===== src/Quote/RoundTrip.antt =====
-- The words that the shell reads from what cute_str.c quotes.
use cm_dotfiles.Prelude.{
  ℕ, ◌≡◌, ◌≢◌, ◌∙◌, ◌⊎◌, arith, get_or, append-nil, refl, sym, ap, inl, inr, some, List, [], ◌∷◌,
  ◌++◌, ◌==◌, ==_iff, Bool-cases,
}
use mathlib.Core.Path.{subst}
use cm_dotfiles.Quote.{
  skip_first, skip_first_cstr, skip_last, quote_loop, cute_str_litquote, cstr_loop,
  cute_cstr_litquote,
}
use cm_dotfiles.Quote.Shell.{plain, quoted, word}

word-quote_loop : (s : List ℕ) → word quoted (quote_loop s ++ b'\'' ∷ []) ≡ some s
unfolding word quote_loop
word-quote_loop [] = refl
word-quote_loop (c ∷ s) = elim (Bool-cases (c == b'\'')) [
  | inl quote ↦
      let e : c ≡ b'\'' = (==_iff c b'\'').0 quote in
      rw (quote, quote, word-quote_loop s) (ap (λ (k : ℕ). some (k ∷ s)) (sym e))
  | inr other ↦ rw (other, other, word-quote_loop s) refl
]

cstr_loop-skip_last : (s : List ℕ) → cstr_loop s ≡ quote_loop (skip_last s)
unfolding cstr_loop quote_loop skip_last
cstr_loop-skip_last [] = refl
cstr_loop-skip_last (c ∷ []) = elim (Bool-cases (c == b'\'')) [
  | inl quote ↦ rw quote refl
  | inr other ↦ rw (other, other) refl
]
cstr_loop-skip_last (c ∷ d ∷ s) = rw (cstr_loop-skip_last (d ∷ s)) refl

first_same : (s : List ℕ) → skip_first_cstr s ≡ skip_first s
unfolding skip_first skip_first_cstr
first_same [] = refl
first_same (c ∷ s) = refl

-- The last byte of a text.
abbrev pub last_byte : List ℕ → ℕ
last_byte [] = 0
last_byte (c ∷ []) = c
last_byte (c ∷ d ∷ s) = last_byte (d ∷ s)

-- t is s but for a quote that is its first byte and one that is the last byte of the rest.
pub record Trims (s t : List ℕ) : Type 0 where
  pub lead : List ℕ
  pub trail : List ℕ
  pub parts : s ≡ lead ++ (t ++ trail)
  pub leads : (lead ≡ []) × (get_or s 0 0 ≢ b'\'') ⊎ (lead ≡ b'\'' ∷ [])
  pub trails : (trail ≡ []) × (last_byte t ≢ b'\'') ⊎ (trail ≡ b'\'' ∷ [])

skip_last_lem :
    (s : List ℕ)
    → (trail : List ℕ) × (s ≡ skip_last s ++ trail)
      × ((trail ≡ []) × (last_byte (skip_last s) ≢ b'\'') ⊎ (trail ≡ b'\'' ∷ []))
unfolding skip_last
skip_last_lem [] = ([], refl, inl (refl, λ e. absurd (omega arith)))
skip_last_lem (c ∷ []) = elim (Bool-cases (c == b'\'')) [
  | inl quote ↦ rw quote (b'\'' ∷ [], ap (λ (k : ℕ). k ∷ []) ((==_iff c b'\'').0 quote), inr refl)
  | inr other ↦ rw other ([], refl, inl (refl, λ e. ground arith))
]
skip_last_lem (c ∷ d ∷ s) =
    let (trail, parts, last) = skip_last_lem (d ∷ s) in
    (
      trail,
      ap (λ (r : List ℕ). c ∷ r) parts,
      elim last [
        | inl (e, ne) ↦
            let whole : d ∷ s ≡ skip_last (d ∷ s) =
              parts
              ∙ (ap (λ (r : List ℕ). skip_last (d ∷ s) ++ r) e ∙ append-nil (skip_last (d ∷ s))) in
            inl (
              e,
              subst (λ (r : List ℕ). last_byte (c ∷ r) ≢ b'\'') whole
                  (subst (λ (r : List ℕ). last_byte r ≢ b'\'') (sym whole) ne),
            )
        | inr quote ↦ inr quote
      ],
    )

skip_first_lem :
    (s : List ℕ)
    → (lead : List ℕ) × (s ≡ lead ++ skip_first s)
      × ((lead ≡ []) × (get_or s 0 0 ≢ b'\'') ⊎ (lead ≡ b'\'' ∷ []))
unfolding skip_first
skip_first_lem [] = ([], refl, inl (refl, λ e. absurd (omega arith)))
skip_first_lem (c ∷ s) = elim (Bool-cases (c == b'\'')) [
  | inl quote ↦ rw quote (b'\'' ∷ [], ap (λ (k : ℕ). k ∷ s) ((==_iff c b'\'').0 quote), inr refl)
  | inr other ↦ rw other ([], refl, inl (refl, λ e. ground arith))
]

-- A shell reads the quoted text as one word: the input itself, but for a quote that is its first
-- byte and one that is the last byte of the rest, which are left out. The function for C strings
-- gives the same text, though it looks for the last quote in another way.
pub word-cute_str_litquote :
    (s : List ℕ)
    → (t : List ℕ) × (word plain (cute_str_litquote s) ≡ some t)
      × Trims s t
      × (cute_cstr_litquote s ≡ cute_str_litquote s)
unfolding cute_str_litquote cute_cstr_litquote word
word-cute_str_litquote s =
    let (lead, first, leads) = skip_first_lem s in
    let (trail, last, trails) = skip_last_lem (skip_first s) in
    (
      skip_last (skip_first s),
      word-quote_loop (skip_last (skip_first s)),
      record {
        lead = lead;
        trail = trail;
        parts = first ∙ ap (λ (r : List ℕ). lead ++ r) last;
        leads = leads;
        trails = trails;
      },
      ap (λ (r : List ℕ). b'\'' ∷ (r ++ b'\'' ∷ []))
          (ap cstr_loop (first_same s) ∙ cstr_loop-skip_last (skip_first s)),
    )
