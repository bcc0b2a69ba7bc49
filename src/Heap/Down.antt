-- ===== src/Heap/Down.antt =====
-- sift_down: what it leaves.
use cm_dotfiles.Prelude.{
  ℕ, zero, suc, ◌+◌, ◌*◌, ◌/◌, ◌≤◌, ◌<◌, ◌≡◌, refl, sym, ap, ◌∙◌, ◌≢◌, inl, inr, ◌&&◌, not, List,
  arith, ltb, leb, Bool-cases, length, set, length-set, ◌<<◌,
}
use native.Mathlib.Decide.{dec_lt, ℕ_discrete}
use mathlib.Core.Path.{subst}
use cm_dotfiles.Heap.{at, larger_child, down_loop}
use cm_dotfiles.Heap.Count.{reaches, at_least, Ordered, at-set, at-set_ne, at_least-set}

-- The hole of the loop is i, and key is to go there: apart from it the heap is in order, and
-- both key and the children of i are not above the parent of i.
unfoldable pub Sinking : List ℕ → ℕ → ℕ → ℕ → Type 0
Sinking heap n i key =
    ((j : ℕ) → 2 ≤ j → j ≤ n → j ≢ i → j / 2 ≢ i → at heap j ≤ at heap (j / 2))
    × ((2 ≤ i → key ≤ at heap (i / 2))
        × ((j : ℕ) → j ≤ n → j / 2 ≡ i → 2 ≤ i → at heap j ≤ at heap (i / 2)))

-- The child of i to go down to: in the heap, and not below the other one.
Best : List ℕ → ℕ → ℕ → ℕ → Type 0
Best heap n i m =
    (i < m) × ((m ≤ n) × ((m / 2 ≡ i) × ((j : ℕ) → j ≤ n → j / 2 ≡ i → at heap j ≤ at heap m)))

larger_child-Best :
    (heap : List ℕ) (n i : ℕ) → 1 ≤ i → i * 2 ≤ n → Best heap n i (larger_child heap n i)
unfolding larger_child Best
larger_child-Best heap n i p h =
    elim (Bool-cases (leb (i * 2 + 1) n && ltb (at heap (i * 2)) (at heap (i * 2 + 1)))) [
      | inl right ↦ rw (right) (
        omega arith,
        (
          ground arith,
          (
            omega arith,
            λ j inside child. elim (dec_lt j (i * 2 + 1)) [
              | yes l ↦
                  subst (λ (k : ℕ). at heap k ≤ at heap (i * 2 + 1)) {x = i * 2} {y = j}
                    (omega arith) (ground arith)
              | no r ↦
                  subst (λ (k : ℕ). at heap k ≤ at heap (i * 2 + 1)) {x = i * 2 + 1} {y = j}
                    (omega arith) (omega arith)
            ],
          ),
        ),
      )
      | inr left ↦ rw (left) (
        omega arith,
        (
          h,
          (
            omega arith,
            λ j inside child. elim (dec_lt j (i * 2 + 1)) [
              | yes l ↦
                  subst (λ (k : ℕ). at heap k ≤ at heap (i * 2)) {x = i * 2} {y = j} (omega arith)
                    (omega arith)
              | no r ↦
                  let in_heap : i * 2 + 1 ≤ n = omega arith in
                  subst (λ (k : ℕ). at heap k ≤ at heap (i * 2)) {x = i * 2 + 1} {y = j}
                    (omega arith) (ground arith)
            ],
          ),
        ),
      )
    ]

-- A turn of the loop keeps the hole.
sink :
    (heap : List ℕ) (n i m key : ℕ)
    → 1 ≤ i
    → i < length heap
    → Best heap n i m
    → key < at heap m
    → Sinking heap n i key
    → Sinking (set heap i (at heap m)) n m key
unfolding Sinking Best
sink heap n i m key p len (below, (inside, (parent, best))) above (order, (bound, children)) =
    let here : at (set heap i (at heap m)) i ≡ at heap m = at-set heap i (at heap m) len in
    let away : (j : ℕ) → i ≢ j → at (set heap i (at heap m)) j ≡ at heap j =
      λ j ne. at-set_ne heap i j (at heap m) ne in
    (
      λ j two low not_m not_child. elim (ℕ_discrete j i) [
        | yes hole ↦
            subst (λ (k : ℕ). at (set heap i (at heap m)) k ≤ at (set heap i (at heap m)) (k / 2))
              {x = i} {y = j} (sym hole)
              (rw (here, away (i / 2) (λ e. absurd (omega arith)))
                (children m inside parent (omega arith)))
        | no other ↦ elim (ℕ_discrete (j / 2) i) [
          | yes child ↦ rw (child, here, away j (λ e. other (sym e))) (best j low child)
          | no apart ↦
              rw (away j (λ e. other (sym e)), away (j / 2) (λ e. apart (sym e)))
                (order j two low other apart)
        ]
      ],
      (
        λ two. rw (parent, here) omega arith,
        λ j low child two.
            rw (parent, here, away j (λ e. absurd (omega arith)))
              (subst (λ (k : ℕ). at heap j ≤ at heap k) child
                (order j (omega arith) low (λ e. absurd (omega arith))
                  (λ e. absurd (omega arith)))),
      ),
    )

-- The hole is filled when key is not below the children.
fill :
    (heap : List ℕ) (n i key : ℕ)
    → i < length heap
    → 1 ≤ i
    → Sinking heap n i key
    → ((j : ℕ) → j ≤ n → j / 2 ≡ i → at heap j ≤ key)
    → Ordered (set heap i key) n
unfolding Sinking Ordered
fill heap n i key len p (order, (bound, children)) above =
    let here : at (set heap i key) i ≡ key = at-set heap i key len in
    let away : (j : ℕ) → i ≢ j → at (set heap i key) j ≡ at heap j =
      λ j ne. at-set_ne heap i j key ne in
    λ j two low. elim (ℕ_discrete j i) [
      | yes hole ↦
          subst (λ (k : ℕ). at (set heap i key) k ≤ at (set heap i key) (k / 2)) {x = i} {y = j}
            (sym hole) (rw (here, away (i / 2) (λ e. absurd (omega arith))) (bound (omega arith)))
      | no other ↦ elim (ℕ_discrete (j / 2) i) [
        | yes child ↦ rw (child, here, away j (λ e. other (sym e))) (above j low child)
        | no apart ↦
            rw (away j (λ e. other (sym e)), away (j / 2) (λ e. apart (sym e)))
              (order j two low other apart)
      ]
    ]

-- The loop puts key in the place of the entry of its hole, and the heap in order.
pub down_loop_count :
    (fuel : ℕ) (heap : List ℕ) (n i key t : ℕ)
    → n < i + fuel
    → 1 ≤ i
    → i ≤ n
    → n < length heap
    → at_least (down_loop fuel heap n i key) n t + reaches t (at heap i)
      ≡ at_least heap n t + reaches t key
unfolding down_loop Best
down_loop_count zero heap n i key t f p q len = absurd (omega arith)
down_loop_count (suc fuel) heap n i key t f p q len = elim (Bool-cases (ltb n (i << 1))) [
  | inl leaf ↦ rw (leaf) (at_least-set heap n i key t p q len)
  | inr inner ↦ elim (Bool-cases (not (ltb key (at heap (larger_child heap n i))))) [
    | inl stop ↦ rw (inner, stop) (at_least-set heap n i key t p q len)
    | inr go ↦
        let m = larger_child heap n i in
        let b = larger_child-Best heap n i p (ground arith) in
        let rest =
          down_loop_count fuel (set heap i (at heap m)) n m key t (omega (arith, b.0))
            (omega (arith, b.0)) b.1.0 (rw (length-set heap i (at heap m)) len) in
        let moved : at (set heap i (at heap m)) m ≡ at heap m =
          at-set_ne heap i m (at heap m) (λ e. absurd (omega (arith, b.0))) in
        let count = at_least-set heap n i (at heap m) t p q len in
        rw (inner, go) (omega (arith, ap (λ (x : ℕ). reaches t x) moved, rest, count))
  ]
]

pub down_loop_order :
    (fuel : ℕ) (heap : List ℕ) (n i key : ℕ)
    → n < i + fuel
    → 1 ≤ i
    → i ≤ n
    → n < length heap
    → Sinking heap n i key
    → Ordered (down_loop fuel heap n i key) n
unfolding down_loop Best
down_loop_order zero heap n i key f p q len s = absurd (omega arith)
down_loop_order (suc fuel) heap n i key f p q len s = elim (Bool-cases (ltb n (i << 1))) [
  | inl leaf ↦
      rw (leaf) (fill heap n i key (omega arith) p s (λ j low child. absurd (ground arith)))
  | inr inner ↦ elim (Bool-cases (not (ltb key (at heap (larger_child heap n i))))) [
    | inl stop ↦
        rw (inner, stop)
          (fill heap n i key (omega arith) p s (λ j low child.
            let most = (larger_child-Best heap n i p (ground arith)).1.1.1 j low child in
            ground (arith, most)))
    | inr go ↦
        let m = larger_child heap n i in
        let b = larger_child-Best heap n i p (ground arith) in
        rw (inner, go)
          (down_loop_order fuel (set heap i (at heap m)) n m key (omega (arith, b.0))
            (omega (arith, b.0)) b.1.0 (rw (length-set heap i (at heap m)) len)
            (sink heap n i m key p (omega arith) b (ground arith) s))
  ]
]

pub length-down_loop :
    (fuel : ℕ) (heap : List ℕ) (n i key : ℕ) → length (down_loop fuel heap n i key) ≡ length heap
unfolding down_loop
length-down_loop zero heap n i key = refl
length-down_loop (suc fuel) heap n i key = elim (Bool-cases (ltb n (i << 1))) [
  | inl leaf ↦ rw (leaf) (length-set heap i key)
  | inr inner ↦ elim (Bool-cases (not (ltb key (at heap (larger_child heap n i))))) [
    | inl stop ↦ rw (inner, stop) (length-set heap i key)
    | inr go ↦
        let m = larger_child heap n i in
        rw (inner, go)
          (length-down_loop fuel (set heap i (at heap m)) n m key ∙ length-set heap i (at heap m))
  ]
]
