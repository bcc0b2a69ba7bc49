-- ===== src/Scenario/Frame.antt =====
-- Which bytes of the buffer a reader of toml.c writes, and where the strings in it end.
use cm_dotfiles.Prelude.{
  ℕ, ◌≤◌, ◌<◌, ◌≡◌, ◌∙◌, refl, List, length, set, length-set, get_or-set_self, get_or-set_ne, arith,
}
use cm_dotfiles.Scenario.Text.{at}

-- Only bytes from `lo` on and before `hi` are written.
pub record Keeps (lo hi : ℕ) (buf buf' : List ℕ) : Type 0 where
  pub size : length buf' ≡ length buf
  pub below : (j : ℕ) → j < lo → at buf' j ≡ at buf j
  pub above : (j : ℕ) → hi ≤ j → at buf' j ≡ at buf j

pub Keeps-refl : (lo hi : ℕ) (buf : List ℕ) → Keeps lo hi buf buf
Keeps-refl lo hi buf = record { size = refl; below = λ j h. refl; above = λ j h. refl }

pub Keeps-trans : {lo hi : ℕ} {a b c : List ℕ} → Keeps lo hi a b → Keeps lo hi b c → Keeps lo hi a c
Keeps-trans k l = record {
  size = l.size ∙ k.size;
  below = λ j h. l.below j h ∙ k.below j h;
  above = λ j h. l.above j h ∙ k.above j h;
}

pub Keeps-widen :
    {lo hi : ℕ} (lo' hi' : ℕ) {a b : List ℕ}
    → lo' ≤ lo
    → hi ≤ hi'
    → Keeps lo hi a b
    → Keeps lo' hi' a b
Keeps-widen lo' hi' p q k = record {
  size = k.size;
  below = λ j h. k.below j (omega arith);
  above = λ j h. k.above j (omega arith);
}

pub Keeps-set :
    (lo hi : ℕ) (buf : List ℕ) (i v : ℕ) → lo ≤ i → i < hi → Keeps lo hi buf (set buf i v)
Keeps-set lo hi buf i v p q = record {
  size = length-set buf i v;
  below = λ j h. get_or-set_ne buf i j v 0 (omega arith);
  above = λ j h. get_or-set_ne buf i j v 0 (omega arith);
}

-- The string at `s` has its NUL before `limit`.
abbrev pub EndsBefore : List ℕ → ℕ → ℕ → Type 0
EndsBefore buf limit s = (e : ℕ) × (s ≤ e) × (e < limit) × (at buf e ≡ 0)

pub EndsBefore-set :
    (buf : List ℕ) (i limit s : ℕ)
    → s ≤ i
    → i < limit
    → i < length buf
    → EndsBefore (set buf i 0) limit s
EndsBefore-set buf i limit s p q h = (i, p, q, get_or-set_self buf i 0 0 h)

-- What is written behind the limit leaves it so.
pub EndsBefore-Keeps :
    {limit lo hi s : ℕ} {a b : List ℕ}
    → limit ≤ lo
    → Keeps lo hi a b
    → EndsBefore a limit s
    → EndsBefore b limit s
EndsBefore-Keeps le k (e, p, q, z) = (e, p, q, k.below e (omega arith) ∙ z)

pub EndsBefore-widen :
    {limit s : ℕ} (limit' : ℕ) (buf : List ℕ)
    → limit ≤ limit'
    → EndsBefore buf limit s
    → EndsBefore buf limit' s
EndsBefore-widen limit' buf le (e, p, q, z) = (e, p, omega arith, z)
