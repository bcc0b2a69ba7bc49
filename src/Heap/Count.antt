-- ===== src/Heap/Count.antt =====
-- How many numbers of a heap, and of the input, reach a bound; and the order of a heap.
use cm_dotfiles.Prelude.{
  ℕ, zero, suc, ◌+◌, ◌/◌, ◌≤◌, ◌<◌, ◌≡◌, refl, ap₂, ◌≢◌, ◌↔◌, List, [], ◌∷◌, arith, leb,
  if◌then◌else◌, length, set, get_or-set_self, get_or-set_ne,
}
use native.Mathlib.Decide.{dec_lt}
use mathlib.Core.Path.{subst}
use cm_dotfiles.Heap.{at, int_zero, int_max}

-- 1 when a number reaches the bound.
abbrev pub reaches : ℕ → ℕ → ℕ
reaches t x = if leb t x then 1 else 0

-- The entries of the heap, from 1 to n, that reach t.
unfoldable pub at_least : List ℕ → ℕ → ℕ → ℕ
at_least heap zero t = 0
at_least heap (suc n) t = at_least heap n t + reaches t (at heap (suc n))

-- The numbers of the input that reach t.
unfoldable pub count_at_least : List ℕ → ℕ → ℕ
count_at_least [] t = 0
count_at_least (x ∷ xs) t = reaches t x + count_at_least xs t

-- The numbers are ints.
abbrev pub AllInts : List ℕ → Type 0
AllInts [] = Unit {0}
AllInts (x ∷ xs) = (x ≤ int_max) × AllInts xs

-- No entry is above its parent.
unfoldable pub Ordered : List ℕ → ℕ → Type 0
Ordered heap n = (j : ℕ) → 2 ≤ j → j ≤ n → at heap j ≤ at heap (j / 2)

pub at-set : (heap : List ℕ) (i v : ℕ) → i < length heap → at (set heap i v) i ≡ v
at-set heap i v h = get_or-set_self heap i v int_zero h

pub at-set_ne : (heap : List ℕ) (i j v : ℕ) → i ≢ j → at (set heap i v) j ≡ at heap j
at-set_ne heap i j v h = get_or-set_ne heap i j v int_zero h

-- A write behind the entries counted.
pub at_least-above :
    (heap : List ℕ) (n i v t : ℕ) → n < i → at_least (set heap i v) n t ≡ at_least heap n t
unfolding at_least
at_least-above heap zero i v t h = refl
at_least-above heap (suc n) i v t h =
    ap₂ (λ (a b : ℕ). a + reaches t b) (at_least-above heap n i v t (omega arith))
      (at-set_ne heap i (suc n) v (λ e. absurd (omega arith)))

at_least-set_last :
    (heap : List ℕ) (n v t : ℕ)
    → suc n < length heap
    → at_least (set heap (suc n) v) (suc n) t + reaches t (at heap (suc n))
      ≡ at_least heap (suc n) t + reaches t v
unfolding at_least
at_least-set_last heap n v t r =
    rw (at-set heap (suc n) v r, at_least-above heap n (suc n) v t (omega arith)) omega arith

-- A write takes the old entry out of the count and puts the new one in.
pub at_least-set :
    (heap : List ℕ) (n i v t : ℕ)
    → 1 ≤ i
    → i ≤ n
    → n < length heap
    → at_least (set heap i v) n t + reaches t (at heap i) ≡ at_least heap n t + reaches t v
unfolding at_least
at_least-set heap zero i v t p q r = absurd (omega arith)
at_least-set heap (suc n) i v t p q r = elim (dec_lt i (suc n)) [
  | yes below ↦
      let same : at (set heap i v) (suc n) ≡ at heap (suc n) =
        at-set_ne heap i (suc n) v (λ e. absurd (omega arith)) in
      let rest = at_least-set heap n i v t p (omega arith) (omega arith) in
      rw (same) (omega (arith, rest))
  | no last ↦
      subst
        (λ (k : ℕ).
          at_least (set heap k v) (suc n) t + reaches t (at heap k)
          ≡ at_least heap (suc n) t + reaches t v)
        {x = suc n} {y = i} (omega arith) (at_least-set_last heap n v t r)
]

-- The root of an ordered heap is its greatest entry.
root_le :
    (fuel : ℕ) (heap : List ℕ) (n j : ℕ)
    → Ordered heap n
    → j < fuel
    → 1 ≤ j
    → j ≤ n
    → at heap j ≤ at heap 1
unfolding Ordered
root_le zero heap n j o h p q = absurd (omega arith)
root_le (suc fuel) heap n j o h p q = elim (dec_lt j 2) [
  | yes first ↦ subst (λ (k : ℕ). at heap k ≤ at heap 1) {x = 1} {y = j} (omega arith) (omega arith)
  | no later ↦
      let up = root_le fuel heap n (j / 2) o (omega arith) (omega arith) (omega arith) in
      let parent = o j (omega arith) q in omega (arith, up, parent)
]

root_counted : (heap : List ℕ) (n t : ℕ) → t ≤ at heap 1 → 1 ≤ n → 1 ≤ at_least heap n t
unfolding at_least
root_counted heap zero t r h = absurd (omega arith)
root_counted heap (suc zero) t r h = ground arith
root_counted heap (suc (suc n)) t r h =
    let rest = root_counted heap (suc n) t r (omega arith) in omega (arith, rest)

none_counted :
    (heap : List ℕ) (n t : ℕ) → ((j : ℕ) → 1 ≤ j → j ≤ n → at heap j < t) → at_least heap n t ≡ 0
unfolding at_least
none_counted heap zero t h = refl
none_counted heap (suc n) t h =
    let last = h (suc n) (omega arith) (omega arith) in
    let rest = none_counted heap n t (λ j p q. h j p (omega arith)) in ground (arith, last, rest)

-- So it reaches a bound when some entry does.
pub root_reaches :
    (heap : List ℕ) (n t : ℕ) → Ordered heap n → 1 ≤ n → (t ≤ at heap 1) ↔ (1 ≤ at_least heap n t)
root_reaches heap n t o h = (
  λ r. root_counted heap n t r h,
  λ c. elim (dec_lt (at heap 1) t) [
    | yes below ↦
        let empty =
          none_counted heap n t (λ j p q.
            let top = root_le (suc j) heap n j o (omega arith) p q in omega (arith, top)) in
        absurd (omega (arith, empty))
    | no reached ↦ omega arith
  ],
)
