-- ===== src/Heap/Up.antt =====
-- sift_up: what it leaves.
use cm_dotfiles.Prelude.{
  ℕ, zero, suc, ◌+◌, ◌/◌, ◌≤◌, ◌<◌, ◌≡◌, sym, ap, ◌∙◌, ◌≢◌, inl, inr, List, arith, leb, Bool-cases,
  length, set, length-set, ◌>>◌,
}
use native.Mathlib.Decide.{dec_lt, ℕ_discrete}
use mathlib.Core.Path.{subst}
use cm_dotfiles.Heap.{at, up_loop}
use cm_dotfiles.Heap.Count.{reaches, at_least, Ordered, at-set, at-set_ne, at_least-set}

-- The hole of the loop is i, and key is to go there: apart from it the heap is in order, and the
-- children of i are above neither key nor the parent of i.
unfoldable pub Rising : List ℕ → ℕ → ℕ → ℕ → Type 0
Rising heap n i key =
    ((j : ℕ) → 2 ≤ j → j ≤ n → j ≢ i → j / 2 ≢ i → at heap j ≤ at heap (j / 2))
    × (((j : ℕ) → j ≤ n → j / 2 ≡ i → at heap j ≤ key)
        × ((j : ℕ) → j ≤ n → j / 2 ≡ i → 2 ≤ i → at heap j ≤ at heap (i / 2)))

-- A turn of the loop keeps the hole.
rise :
    (heap : List ℕ) (n i key : ℕ)
    → 2 ≤ i
    → i ≤ n
    → i < length heap
    → at heap (i / 2) < key
    → Rising heap n i key
    → Rising (set heap i (at heap (i / 2))) n (i / 2) key
unfolding Rising
rise heap n i key p q len below (order, (mine, parent)) =
    let u = i / 2 in
    let here : at (set heap i (at heap u)) i ≡ at heap u = at-set heap i (at heap u) len in
    let away : (j : ℕ) → i ≢ j → at (set heap i (at heap u)) j ≡ at heap j =
      λ j ne. at-set_ne heap i j (at heap u) ne in
    let under : (j : ℕ) → j ≤ n → j / 2 ≡ u → at (set heap i (at heap u)) j ≤ at heap u =
      λ j low child. elim (ℕ_discrete j i) [
        | yes hole ↦
            subst (λ (k : ℕ). at (set heap i (at heap u)) k ≤ at heap u) {x = i} {y = j} (sym hole)
              (rw (here) omega arith)
        | no other ↦ rw (away j (λ e. other (sym e))) (
            subst (λ (k : ℕ). at heap j ≤ at heap k) child
              (order j (omega arith) low other (λ e. absurd (omega arith))))
      ] in
    (
      λ j two low not_u not_child. elim (ℕ_discrete (j / 2) i) [
        | yes child ↦ rw (child, here, away j (λ e. absurd (omega arith))) (parent j low child p)
        | no apart ↦
            rw
              (
                away j (λ e. not_child (ap (λ (k : ℕ). k / 2) (sym e))),
                away (j / 2) (λ e. apart (sym e)),
              )
              (order j two low (λ e. not_child (ap (λ (k : ℕ). k / 2) e)) apart)
      ],
      (
        λ j low child. let h = under j low child in omega (arith, h),
        λ j low child two.
            let h = under j low child in
            let above =
              order u two (omega arith) (λ e. absurd (omega arith)) (λ e. absurd (omega arith)) in
            rw (away (u / 2) (λ e. absurd (omega arith))) omega (arith, h, above),
      ),
    )

fill :
    (heap : List ℕ) (n i key : ℕ)
    → i < length heap
    → 1 ≤ i
    → Rising heap n i key
    → key ≤ at heap (i / 2)
    → Ordered (set heap i key) n
unfolding Rising Ordered
fill heap n i key len p (order, (mine, parent)) below =
    let here : at (set heap i key) i ≡ key = at-set heap i key len in
    let away : (j : ℕ) → i ≢ j → at (set heap i key) j ≡ at heap j =
      λ j ne. at-set_ne heap i j key ne in
    λ j two low. elim (ℕ_discrete j i) [
      | yes hole ↦
          subst (λ (k : ℕ). at (set heap i key) k ≤ at (set heap i key) (k / 2)) {x = i} {y = j}
            (sym hole) (rw (here, away (i / 2) (λ e. absurd (omega arith))) below)
      | no other ↦ elim (ℕ_discrete (j / 2) i) [
        | yes child ↦ rw (child, here, away j (λ e. other (sym e))) (mine j low child)
        | no apart ↦
            rw (away j (λ e. other (sym e)), away (j / 2) (λ e. apart (sym e)))
              (order j two low other apart)
      ]
    ]

-- The entry at 0 stops the loop at the root.
two_up : (heap : List ℕ) (i key : ℕ) → 1 ≤ i → key ≤ at heap 0 → at heap (i / 2) < key → 2 ≤ i
two_up heap i key p top below = elim (dec_lt i 2) [
  | yes root ↦
      let front : at heap (i / 2) ≡ at heap 0 =
        ap (λ (k : ℕ). at heap k) {x = i / 2} {y = 0} (omega arith) in
      absurd (omega (arith, front))
  | no low ↦ omega arith
]

-- With nothing below the entry at 0, the loop puts key in the place of the entry of its hole, and
-- the heap in order.
unfoldable pub Sifted : List ℕ → ℕ → ℕ → ℕ → List ℕ → Type 0
Sifted heap n i key result =
    Ordered result n
    × ((length result ≡ length heap)
        × ((at result 0 ≡ at heap 0)
            × ((t : ℕ)
                → at_least result n t + reaches t (at heap i) ≡ at_least heap n t + reaches t key)))

pub up_loop-Sifted :
    (fuel : ℕ) (heap : List ℕ) (n i key : ℕ)
    → i < fuel
    → 1 ≤ i
    → i ≤ n
    → n < length heap
    → key ≤ at heap 0
    → Rising heap n i key
    → Sifted heap n i key (up_loop fuel heap i key)
unfolding up_loop Sifted
up_loop-Sifted zero heap n i key f p q len top s = absurd (omega arith)
up_loop-Sifted (suc fuel) heap n i key f p q len top s =
    elim (Bool-cases (leb key (at heap (i >> 1)))) [
      | inl stop ↦ rw (stop) (
        fill heap n i key (omega arith) p s (ground arith),
        (
          length-set heap i key,
          (
            at-set_ne heap i 0 key (λ e. absurd (omega arith)),
            λ t. at_least-set heap n i key t p q len,
          ),
        ),
      )
      | inr go ↦
          let u = i / 2 in
          let moved = set heap i (at heap u) in
          let below : at heap u < key = ground arith in
          let two : 2 ≤ i = two_up heap i key p top below in
          let ih =
            up_loop-Sifted fuel moved n u key (omega arith) (omega arith) (omega arith)
              (rw (length-set heap i (at heap u)) len)
              (rw (at-set_ne heap i 0 (at heap u) (λ e. absurd (omega arith))) top)
              (rise heap n i key two q (omega arith) below s) in
          let same : at moved u ≡ at heap u =
            at-set_ne heap i u (at heap u) (λ e. absurd (omega arith)) in
          rw (go) (
            ih.0,
            (
              ih.1.0 ∙ length-set heap i (at heap u),
              (
                ih.1.1.0 ∙ at-set_ne heap i 0 (at heap u) (λ e. absurd (omega arith)),
                λ t.
                    let rest = ih.1.1.1 t in
                    let count = at_least-set heap n i (at heap u) t p q len in
                    omega (arith, ap (λ (x : ℕ). reaches t x) same, rest, count),
              ),
            ),
          )
    ]
