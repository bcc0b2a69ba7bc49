-- ===== src/Heap/Kth.antt =====
-- findKthLargest: the heap that it builds, the numbers that it removes, and its result.
use cm_dotfiles.Prelude.{
  ℕ, zero, suc, ◌+◌, ◌-◌, ◌≤◌, ◌<◌, ◌≡◌, refl, ap, ◌∙◌, ◌↔◌, some, List, [], ◌∷◌, arith, lt→ltb,
  length, set, replicate, length-set, length-replicate,
}
use mathlib.Core.Path.{subst}
use cm_dotfiles.Heap.{
  at, sift_up, sift_down, build, pops, kth_largest, find_kth_largest, int_max, int_zero, max_size,
}
use cm_dotfiles.Heap.Count.{
  reaches, at_least, count_at_least, AllInts, Ordered, at-set, at-set_ne, root_reaches,
}
use cm_dotfiles.Heap.Steps.{insert, Removed, remove}

-- The heap that build leaves, when the array holds the numbers behind the first entry.
Built : List ℕ → ℕ → List ℕ → List ℕ × ℕ → Type 0
Built heap count nums (r, n) =
    Ordered r n
    × ((length r ≡ length heap)
        × ((n ≡ count + length nums)
            × ((t : ℕ) → at_least r n t ≡ at_least heap count t + count_at_least nums t)))

build-Built :
    (nums heap : List ℕ) (count : ℕ)
    → count + length nums < length heap
    → AllInts nums
    → at heap 0 ≡ int_max
    → Ordered heap count
    → Built heap count nums (build nums heap count)
unfolding build Built count_at_least
build-Built [] heap count len ints top o = (o, (refl, (omega arith, λ t. omega arith)))
build-Built (x ∷ nums) heap count len (int, ints) top o =
    let s = insert heap count x (omega arith) (omega (arith, top)) o in
    let r =
      build-Built nums (sift_up (set heap (suc count) x) (suc count)) (suc count)
        (omega (arith, s.1.0)) ints (s.1.1.0 ∙ top) s.0 in
    (r.0, (r.1.0 ∙ s.1.0, (omega (arith, r.1.1.0), λ t. omega (arith, r.1.1.1 t, s.1.1.1 t))))

pops_lem :
    (k : ℕ) (heap : List ℕ) (n : ℕ)
    → k ≤ n
    → n < length heap
    → Ordered heap n
    → (r : List ℕ) × ((pops k heap n ≡ some r)
        × (Ordered r (n - k) × ((t : ℕ) → at_least r (n - k) t ≡ at_least heap n t - k)))
unfolding pops Removed
pops_lem zero heap n p len o =
    let whole : n ≡ n - 0 = omega arith in
    (
      heap,
      (
        refl,
        (
          subst (λ (m : ℕ). Ordered heap m) whole o,
          λ t. subst (λ (m : ℕ). at_least heap m t ≡ at_least heap n t - 0) whole (omega arith),
        ),
      ),
    )
pops_lem (suc k) heap zero p len o = absurd (omega arith)
pops_lem (suc k) heap (suc n) p len o =
    let step = remove heap n len o in
    let (r, (e, (order, count))) =
      pops_lem k (sift_down (set heap 1 (at heap (suc n))) n 1) n (omega arith)
        (omega (arith, step.1.0)) step.0 in
    let left : n - k ≡ suc n - suc k = omega arith in
    (
      r,
      (
        e,
        (
          subst (λ (m : ℕ). Ordered r m) left order,
          λ t.
              subst (λ (m : ℕ). at_least r m t ≡ at_least heap (suc n) t - suc k) left
                (omega (arith, count t, step.1.1 t)),
        ),
      ),
    )

-- The heap that the loop over the other numbers starts from.
start_lem :
    (size x : ℕ)
    → 2 ≤ size
    → let h = set (set (replicate size int_zero) 0 int_max) 1 x in
      (length h ≡ size) × ((at h 0 ≡ int_max) × ((t : ℕ) → at_least h 1 t ≡ reaches t x))
unfolding at_least
start_lem size x two =
    let zeros = replicate size int_zero in
    let h = set zeros 0 int_max in
    let long : length h ≡ size = length-set zeros 0 int_max ∙ length-replicate size int_zero in
    let first : at (set h 1 x) 1 ≡ x = at-set h 1 x (omega (arith, long)) in
    (
      length-set h 1 x ∙ long,
      (
        at-set_ne h 1 0 x (λ e. absurd (omega arith))
            ∙ at-set zeros 0 int_max (omega (arith, length-replicate size int_zero)),
        λ t. omega (arith, ap (λ (y : ℕ). reaches t y) first),
      ),
    )

kth_largest_lem :
    (size : ℕ) (nums : List ℕ) (k : ℕ)
    → AllInts nums
    → 1 ≤ k
    → k ≤ length nums
    → length nums < size
    → (x : ℕ) × ((kth_largest size nums k ≡ some x)
        × ((t : ℕ) → (t ≤ x) ↔ (k ≤ count_at_least nums t)))
unfolding kth_largest Ordered count_at_least Built
kth_largest_lem size nums zero ints p q len = absurd (omega arith)
kth_largest_lem size [] (suc k) ints p q len = absurd (omega arith)
kth_largest_lem size (x ∷ nums) (suc k) (int, ints) p q len =
    let start = set (set (replicate size int_zero) 0 int_max) 1 x in
    let (long, (top, counted)) = start_lem size x (omega arith) in
    let b =
      build-Built nums start 1 (omega (arith, long)) ints top (λ j two low. absurd (omega arith)) in
    let made = build nums start 1 in
    let r =
      pops_lem k made.0 made.1 (omega (arith, b.1.1.0)) (omega (arith, b.1.0, b.1.1.0, long)) b.0 in
    let root = λ (t : ℕ). root_reaches r.0 (made.1 - k) t r.1.1.0 (omega (arith, b.1.1.0)) in
    let left = λ (t : ℕ). b.1.1.1 t in
    (
      at r.0 1,
      (
        rw (lt→ltb (suc (length nums)) size len, r.1.0) refl,
        λ t. (
          λ reached. let c = (root t).0 reached in omega (arith, c, r.1.1.1 t, left t, counted t),
          λ enough. (root t).1 (omega (arith, r.1.1.1 t, left t, counted t)),
        ),
      ),
    )

-- For fewer than 2^17 numbers, which are ints, and a k from 1 to their number, findKthLargest
-- returns the k-th largest of them: what it returns reaches a bound exactly if at least k of the
-- numbers do.
pub find_kth_largest-kth :
    (nums : List ℕ) (k : ℕ)
    → AllInts nums
    → 1 ≤ k
    → k ≤ length nums
    → length nums < max_size
    → (x : ℕ) × ((find_kth_largest nums k ≡ some x)
        × ((t : ℕ) → (t ≤ x) ↔ (k ≤ count_at_least nums t)))
unfolding find_kth_largest
find_kth_largest-kth nums k ints p q len = kth_largest_lem max_size nums k ints p q len
