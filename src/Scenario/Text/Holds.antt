-- ===== src/Scenario/Text/Holds.antt =====
-- The bytes that stand at a pointer, and the string that they make.
use native.Mathlib.Decide.{ℕ_discrete}
use cm_dotfiles.Prelude.{
  ap₂, ℕ, zero, suc, ◌+◌, ◌≤◌, ◌≡◌, refl, sym, ap, ◌∙◌, ◌≢◌, false, List, [], ◌∷◌, ◌++◌, arith,
  ◌==◌, length, drop,
}
use mathlib.Core.Path.{subst}
use cm_dotfiles.Scenario.Text.{at, c_string, string_at}
use cm_dotfiles.Scenario.Frame.{Keeps}

-- The bytes from `p` on are these.
abbrev pub HoldsAt : List ℕ → ℕ → List ℕ → Type 0
HoldsAt buf p [] = Unit {0}
HoldsAt buf p (t ∷ ts) = (at buf p ≡ t) × HoldsAt buf (p + 1) ts

pub HoldsAt-append :
    (buf : List ℕ) (p : ℕ) (xs ys : List ℕ)
    → HoldsAt buf p (xs ++ ys)
    → HoldsAt buf p xs × HoldsAt buf (p + length xs) ys
HoldsAt-append buf p [] ys h = (tt, subst (λ k. HoldsAt buf k ys) (omega arith) h)
HoldsAt-append buf p (x ∷ xs) ys (e, h) =
    let r = HoldsAt-append buf (p + 1) xs ys h in
    ((e, r.0), subst (λ k. HoldsAt buf k ys) (omega arith) r.1)

-- A write before the pointer leaves them.
pub HoldsAt-Keeps :
    (lo hi : ℕ) (a b : List ℕ) (p : ℕ) (ts : List ℕ)
    → hi ≤ p
    → Keeps lo hi a b
    → HoldsAt a p ts
    → HoldsAt b p ts
HoldsAt-Keeps lo hi a b p [] le k h = tt
HoldsAt-Keeps lo hi a b p (t ∷ ts) le k (e, h) =
    (k.above p le ∙ e, HoldsAt-Keeps lo hi a b (p + 1) ts (omega arith) k h)

-- No byte is NUL.
abbrev pub NoNul : List ℕ → Type 0
NoNul [] = Unit {0}
NoNul (c ∷ s) = (c ≢ 0) × NoNul s

drop-cons : (buf : List ℕ) (p : ℕ) → at buf p ≢ 0 → drop p buf ≡ at buf p ∷ drop (suc p) buf
drop-cons [] p h = absurd (h refl)
drop-cons (b ∷ bs) zero h = refl
drop-cons (b ∷ bs) (suc p) h = drop-cons bs p h

c_string-nul : (buf : List ℕ) (p : ℕ) → at buf p ≡ 0 → c_string (drop p buf) ≡ []
unfolding c_string
c_string-nul [] zero h = refl
c_string-nul [] (suc p) h = refl
c_string-nul (b ∷ bs) zero h = ground arith
c_string-nul (b ∷ bs) (suc p) h = c_string-nul bs p h

-- Bytes with a NUL behind them are the string at the pointer.
pub string_at-HoldsAt :
    (buf : List ℕ) (p : ℕ) (s : List ℕ)
    → NoNul s
    → HoldsAt buf p (s ++ 0 ∷ [])
    → string_at buf p ≡ s
unfolding string_at c_string
string_at-HoldsAt buf p [] n h = c_string-nul buf p h.0
string_at-HoldsAt buf p (c ∷ s) (ne, n) (e, h) =
    let ih : string_at buf (suc p) ≡ s =
      subst (λ k. string_at buf k ≡ s) {y = suc p} (omega arith)
        (string_at-HoldsAt buf (p + 1) s n h) in
    let some_byte : at buf p ≢ 0 = λ z. ne (sym e ∙ z) in
    let test : (c == 0) ≡ false = ground arith in
    rw (drop-cons buf p some_byte, e, test) (ap (λ (r : List ℕ). c ∷ r) ih)

string_at-cons :
    (buf : List ℕ) (p : ℕ) → at buf p ≢ 0 → string_at buf p ≡ at buf p ∷ string_at buf (suc p)
unfolding string_at c_string
string_at-cons buf p h =
    let test : (at buf p == 0) ≡ false = ground arith in rw (drop-cons buf p h, test) refl

string_at-nul : (buf : List ℕ) (p : ℕ) → at buf p ≡ 0 → string_at buf p ≡ []
unfolding string_at
string_at-nul buf p h = c_string-nul buf p h

-- Buffers that are the same up to the string's NUL have the same string.
pub string_at-same :
    (n : ℕ) (a b : List ℕ) (s e : ℕ)
    → s + n ≡ e
    → at a e ≡ 0
    → ((j : ℕ) → j ≤ e → at b j ≡ at a j)
    → string_at b s ≡ string_at a s
string_at-same zero a b s e fits z same =
    let nul : at a s ≡ 0 = ap (λ (k : ℕ). at a k) {x = s} {y = e} (omega arith) ∙ z in
    string_at-nul b s (same s (omega arith) ∙ nul) ∙ sym (string_at-nul a s nul)
string_at-same (suc n) a b s e fits z same = elim (ℕ_discrete (at a s) 0) [
  | yes nul ↦ string_at-nul b s (same s (omega arith) ∙ nul) ∙ sym (string_at-nul a s nul)
  | no byte ↦
      let e0 : at b s ≡ at a s = same s (omega arith) in
      let ih = string_at-same n a b (suc s) e (omega arith) z same in
      string_at-cons b s (λ k. byte (sym e0 ∙ k))
      ∙ (ap₂ (λ (x : ℕ) (xs : List ℕ). x ∷ xs) e0 ih ∙ sym (string_at-cons a s byte))
]
