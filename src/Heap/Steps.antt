-- ===== src/Heap/Steps.antt =====
-- sift_up at the end of a heap, and sift_down in place of its root.
use cm_dotfiles.Prelude.{
  ℕ, zero, suc, ◌+◌, ◌-◌, ◌/◌, ◌≤◌, ◌<◌, ◌≡◌, refl, sym, ap, ◌∙◌, ◌≢◌, ◌↔◌, List, arith, length,
  set, length-set,
}
use native.Mathlib.Decide.{dec_lt}
use cm_dotfiles.Heap.{at, down_loop, sift_up, sift_down}
use cm_dotfiles.Heap.Count.{
  reaches, at_least, Ordered, at-set, at-set_ne, at_least-set, at_least-above, root_reaches,
}
use cm_dotfiles.Heap.Down.{Sinking, down_loop_count, down_loop_order, length-down_loop}
use cm_dotfiles.Heap.Up.{Sifted, Rising, up_loop-Sifted}

-- An int behind the heap may rise from its place at once.
pub insert :
    (heap : List ℕ) (n x : ℕ)
    → suc n < length heap
    → x ≤ at heap 0
    → Ordered heap n
    → let r = sift_up (set heap (suc n) x) (suc n) in
      Ordered r (suc n)
      × ((length r ≡ length heap)
          × ((at r 0 ≡ at heap 0)
              × ((t : ℕ) → at_least r (suc n) t ≡ at_least heap n t + reaches t x)))
unfolding sift_up Rising Sifted Ordered at_least
insert heap n x len top o =
    let h = set heap (suc n) x in
    let here : at h (suc n) ≡ x = at-set heap (suc n) x len in
    let away : (j : ℕ) → suc n ≢ j → at h j ≡ at heap j = λ j ne. at-set_ne heap (suc n) j x ne in
    let s : Rising h (suc n) (suc n) (at h (suc n)) = (
      λ j two low other apart.
          rw (away j (λ e. other (sym e)), away (j / 2) (λ e. apart (sym e)))
            (o j two (ground (arith, other))),
      (λ j low child. absurd (omega arith), λ j low child two. absurd (omega arith)),
    ) in
    let r =
      up_loop-Sifted (suc (suc n)) h (suc n) (suc n) (at h (suc n)) (omega arith) (omega arith)
        (omega arith) (rw (length-set heap (suc n) x) len)
        (rw (here, away 0 (λ e. absurd (omega arith))) top) s in
    (
      r.0,
      (
        r.1.0 ∙ length-set heap (suc n) x,
        (
          r.1.1.0 ∙ away 0 (λ e. absurd (omega arith)),
          λ t.
              let count = r.1.1.1 t in
              let behind = at_least-above heap n (suc n) x t (omega arith) in
              omega (arith, ap (λ (y : ℕ). reaches t y) here, count, behind),
        ),
      ),
    )

empty_count : (heap : List ℕ) (n t : ℕ) → n < 1 → at_least heap n t ≡ 0
unfolding at_least
empty_count heap zero t h = refl
empty_count heap (suc n) t h = absurd (omega arith)

root_count :
    (heap : List ℕ) (n t : ℕ)
    → at_least heap (suc n) t ≡ at_least heap n t + reaches t (at heap (suc n))
unfolding at_least
root_count heap n t = refl

without_root :
    (result before all top t : ℕ)
    → result ≡ before
    → before + reaches t top ≡ all
    → (t ≤ top) ↔ (1 ≤ all)
    → result ≡ all - 1
without_root result before all top t same whole (up, down) = elim (dec_lt top t) [
  | yes below ↦ ground arith
  | no reached ↦ let some_left = up (omega arith) in ground (arith, some_left)
]

-- Removing the root of a heap that holds a number.
unfoldable pub Removed : List ℕ → ℕ → List ℕ → Type 0
Removed heap n r =
    Ordered r n
    × ((length r ≡ length heap) × ((t : ℕ) → at_least r n t ≡ at_least heap (suc n) t - 1))

pub remove :
    (heap : List ℕ) (n : ℕ)
    → suc n < length heap
    → Ordered heap (suc n)
    → Removed heap n (sift_down (set heap 1 (at heap (suc n))) n 1)
unfolding sift_down Sinking Ordered Removed
remove heap n len o =
    let h = set heap 1 (at heap (suc n)) in
    let key = at h 1 in
    let here : at h 1 ≡ at heap (suc n) = at-set heap 1 (at heap (suc n)) (omega arith) in
    let away : (j : ℕ) → 1 ≢ j → at h j ≡ at heap j =
      λ j ne. at-set_ne heap 1 j (at heap (suc n)) ne in
    let same = length-down_loop (suc n) h n 1 key ∙ length-set heap 1 (at heap (suc n)) in
    elim (dec_lt n 1) [
      | yes last ↦ (
        λ j two low. absurd (omega arith),
        (
          same,
          λ t.
              let none_left = empty_count (down_loop (suc n) h n 1 key) n t last in
              let one_left = empty_count heap n t last in
              let whole = root_count heap n t in ground (arith, none_left, one_left, whole),
        ),
      )
      | no more ↦
          let s : Sinking h n 1 key = (
            λ j two low other apart.
                rw (away j (λ e. other (sym e)), away (j / 2) (λ e. apart (sym e)))
                  (o j two (omega arith)),
            (λ two. absurd (omega arith), λ j low child two. absurd (omega arith)),
          ) in
          let inside : n < length h = rw (length-set heap 1 (at heap (suc n))) omega arith in
          (
            down_loop_order (suc n) h n 1 key (omega arith) (omega arith) (omega arith) inside s,
            (
              same,
              λ t.
                  let count =
                    down_loop_count (suc n) h n 1 key t (omega arith) (omega arith) (omega arith)
                      inside in
                  let swapped =
                    at_least-set heap n 1 (at heap (suc n)) t (omega arith) (omega arith)
                      (omega arith) in
                  let root = root_reaches heap (suc n) t o (omega arith) in
                  without_root (at_least (down_loop (suc n) h n 1 key) n t) (at_least h n t)
                    (at_least heap (suc n) t) (at heap 1) t (omega (arith, count))
                    (swapped ∙ sym (root_count heap n t)) root,
            ),
          )
    ]
