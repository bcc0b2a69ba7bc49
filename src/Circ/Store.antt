-- ===== src/Circ/Store.antt =====
-- Storing bytes in the buffer behind the bytes that the ring holds.
use cm_dotfiles.Prelude.{
  ℕ, zero, suc, ◌+◌, ◌-◌, ◌%◌, ◌<◌, ◌≤◌, ◌≡◌, ◌⊎◌, inl, inr, refl, sym, ap, ap₂, ◌∙◌, arith, List,
  [], ◌∷◌, ◌++◌, length, take, drop, get_or, length-append, length-take, length-drop,
}
use native.Mathlib.Nat.{mod-eq_of_lt}
use cm_dotfiles.Prelude.Remainder.{wrap_cases}
use cm_dotfiles.Circ.Ring.{store}
use cm_dotfiles.Circ.View.{
  bytes_at, held, contents, IsValid, bytes_at-mod, bytes_at-append, held-lt,
}

get_or-drop : (bs : List ℕ) (i j : ℕ) → get_or (drop i bs) j 0 ≡ get_or bs (i + j) 0
get_or-drop bs zero j = ap (λ (k : ℕ). get_or bs k 0) (omega arith)
get_or-drop [] (suc i) j = refl
get_or-drop (b ∷ bs) (suc i) j =
    get_or-drop bs i j ∙ ap (λ (k : ℕ). get_or (b ∷ bs) k 0) {x = suc (i + j)} (omega arith)

get_or-take : (bs : List ℕ) (i j : ℕ) → j < i → get_or (take i bs) j 0 ≡ get_or bs j 0
get_or-take bs zero j h = absurd (omega arith)
get_or-take [] (suc i) j h = refl
get_or-take (b ∷ bs) (suc i) zero h = refl
get_or-take (b ∷ bs) (suc i) (suc j) h = get_or-take bs i j (omega arith)

get_or-append_left :
    (xs ys : List ℕ) (j : ℕ) → j < length xs → get_or (xs ++ ys) j 0 ≡ get_or xs j 0
get_or-append_left [] ys j h = absurd (omega arith)
get_or-append_left (x ∷ xs) ys zero h = refl
get_or-append_left (x ∷ xs) ys (suc j) h = get_or-append_left xs ys j (omega arith)

get_or-append_right : (xs ys : List ℕ) (j : ℕ) → get_or (xs ++ ys) (length xs + j) 0 ≡ get_or ys j 0
get_or-append_right [] ys j = ap (λ (k : ℕ). get_or ys k 0) (omega arith)
get_or-append_right (x ∷ xs) ys j =
    ap (λ (k : ℕ). get_or (x ∷ (xs ++ ys)) k 0) {y = suc (length xs + j)} (omega arith)
    ∙ get_or-append_right xs ys j

module _ (buf : List ℕ) (i : ℕ) (bs : List ℕ) (inside : i + length bs ≤ length buf) where
  pub length-store : length (store buf i bs) ≡ length buf
  unfolding store
  length-store = omega (
    arith,
    length-append (take i buf) (bs ++ drop (i + length bs) buf),
    length-append bs (drop (i + length bs) buf),
    length-take i buf,
    length-drop (i + length bs) buf,
  )

  -- Before, among and behind the bytes that were stored.
  get_or-store_before : (j : ℕ) → j < i → get_or (store buf i bs) j 0 ≡ get_or buf j 0
  unfolding store
  get_or-store_before j h =
      get_or-append_left (take i buf) (bs ++ drop (i + length bs) buf) j
        (omega (arith, length-take i buf))
      ∙ get_or-take buf i j h

  get_or-store_at : (j : ℕ) → j < length bs → get_or (store buf i bs) (i + j) 0 ≡ get_or bs j 0
  unfolding store
  get_or-store_at j h =
      ap (λ (k : ℕ). get_or (take i buf ++ (bs ++ drop (i + length bs) buf)) k 0)
        (omega (arith, length-take i buf))
      ∙ (get_or-append_right (take i buf) (bs ++ drop (i + length bs) buf) j
          ∙ get_or-append_left bs (drop (i + length bs) buf) j h)

  get_or-store_behind : (j : ℕ) → i + length bs ≤ j → get_or (store buf i bs) j 0 ≡ get_or buf j 0
  unfolding store
  get_or-store_behind j h =
      ap (λ (k : ℕ). get_or (take i buf ++ (bs ++ drop (i + length bs) buf)) k 0)
        {y = length (take i buf) + (length bs + over)} (omega (arith, length-take i buf))
      ∙ (get_or-append_right (take i buf) (bs ++ drop (i + length bs) buf) (length bs + over)
          ∙ (get_or-append_right bs (drop (i + length bs) buf) over
              ∙ (get_or-drop buf (i + length bs) over
                  ∙ ap (λ (k : ℕ). get_or buf k 0) (omega arith))))
    where
      over : ℕ
      over = j - (i + length bs)

bytes_at-congr :
    (buf buf' : List ℕ) (span i n : ℕ)
    → ((k : ℕ) → k < n → get_or buf' ((i + k) % span) 0 ≡ get_or buf ((i + k) % span) 0)
    → bytes_at buf' span i n ≡ bytes_at buf span i n
unfolding bytes_at
bytes_at-congr buf buf' span i zero same = refl
bytes_at-congr buf buf' span i (suc n) same =
    ap₂ (λ (b : ℕ) (bs : List ℕ). b ∷ bs)
      (ap (λ (k : ℕ). get_or buf' (k % span) 0) {y = i + 0} (omega arith)
        ∙ (same 0 (omega arith)
            ∙ ap (λ (k : ℕ). get_or buf (k % span) 0) {x = i + 0} (omega arith)))
      (bytes_at-congr buf buf' span (i + 1) n (λ k h.
        ap (λ (j : ℕ). get_or buf' (j % span) 0) {y = i + suc k} (omega arith)
        ∙ (same (suc k) (omega arith)
            ∙ ap (λ (j : ℕ). get_or buf (j % span) 0) {x = i + suc k} (omega arith))))

-- The bytes from `i` on are these, if they stand there before the end of the buffer.
bytes_at-stand :
    (buf : List ℕ) (span i : ℕ) (bs : List ℕ)
    → i + length bs ≤ span
    → ((k : ℕ) → k < length bs → get_or buf (i + k) 0 ≡ get_or bs k 0)
    → bytes_at buf span i (length bs) ≡ bs
unfolding bytes_at
bytes_at-stand buf span i [] h same = refl
bytes_at-stand buf span i (b ∷ bs) h same =
    ap₂ (λ (c : ℕ) (cs : List ℕ). c ∷ cs)
      (ap (λ (k : ℕ). get_or buf k 0) (mod-eq_of_lt (omega arith) ∙ omega arith)
        ∙ same 0 (omega arith))
      (bytes_at-stand buf span (i + 1) bs (omega arith) (λ k lt.
        ap (λ (j : ℕ). get_or buf j 0) {y = i + suc k} (omega arith) ∙ same (suc k) (omega arith)))

-- Storing bytes at `head`, before the end of the buffer and not over the bytes held, adds them
-- behind the bytes held.
module _ (buf : List ℕ) (span head tail : ℕ) (v : IsValid buf span head tail) (bs : List ℕ)
    (inside : head + length bs ≤ span) (free : held span head tail + length bs ≤ span) where
  kept :
      (k : ℕ)
      → k < held span head tail
      → get_or (store buf head bs) ((tail + k) % span) 0 ≡ get_or buf ((tail + k) % span) 0
  kept k h =
      let inside_buf : head + length bs ≤ length buf = omega (arith, inside, v.size) in
      elim spot [
        | inl before ↦ get_or-store_before buf head bs inside_buf ((tail + k) % span) before
        | inr behind ↦ get_or-store_behind buf head bs inside_buf ((tail + k) % span) behind
      ]
    where
      spot : ((tail + k) % span < head) ⊎ (head + length bs ≤ (tail + k) % span)
      spot =
          let few = held-lt buf span head tail v in
          let a = v.head_in in
          let b = v.tail_in in
          elim (wrap_cases (tail + k) span (omega arith)) [
            | inl w ↦ rw w.0 (ground arith)
            | inr w ↦ rw w.0 (ground arith)
          ]

  pub contents-store :
      bytes_at (store buf head bs) span tail (held span head tail + length bs)
      ≡ contents buf span head tail ++ bs
  contents-store =
      bytes_at-append (store buf head bs) span tail (held span head tail) (length bs)
      ∙ ap₂ (λ (xs ys : List ℕ). xs ++ ys)
          (bytes_at-congr buf (store buf head bs) span tail (held span head tail) kept)
          (sym (bytes_at-mod (store buf head bs) span (tail + held span head tail) (length bs))
            ∙ (ap (λ (k : ℕ). bytes_at (store buf head bs) span k (length bs)) at_head
                ∙ bytes_at-stand (store buf head bs) span head bs inside
                    (λ k lt. get_or-store_at buf head bs (omega (arith, inside, v.size)) k lt)))
    where
      at_head : (tail + held span head tail) % span ≡ head
      at_head =
          let few = held-lt buf span head tail v in
          let a = v.head_in in
          let b = v.tail_in in
          elim (wrap_cases (tail + held span head tail) span (omega arith)) [
            | inl w ↦ rw w.0 (ground arith)
            | inr w ↦ rw w.0 (ground arith)
          ]
