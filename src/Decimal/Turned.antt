-- ===== src/Decimal/Turned.antt =====
-- The loop of `int_to_str` that turns the digits round in place.
use cm_dotfiles.Prelude.{
  ap₂, append-nil, ℕ, zero, suc, ◌+◌, ◌-◌, ◌≤◌, ◌<◌, ◌≡◌, refl, sym, ap, ◌∙◌, true, false, List, [],
  ◌∷◌, ◌++◌, append_assoc, arith, ltb, length, get_or, set, length-append,
}
use mathlib.Core.Path.{subst}
use mathlib.Core.List.{reverse, reverse-append, reverse-cons}
use cm_dotfiles.Decimal.Print.{swap_loop}

get_or-middle : (a b : List ℕ) (x i : ℕ) → i ≡ length a → get_or (a ++ x ∷ b) i 0 ≡ x
get_or-middle [] b x i e = rw e refl
get_or-middle (c ∷ a) b x zero e = absurd (omega arith)
get_or-middle (c ∷ a) b x (suc i) e = get_or-middle a b x i (omega arith)

set-middle : (a b : List ℕ) (x y i : ℕ) → i ≡ length a → set (a ++ x ∷ b) i y ≡ a ++ y ∷ b
set-middle [] b x y i e = rw e refl
set-middle (c ∷ a) b x y zero e = absurd (omega arith)
set-middle (c ∷ a) b x y (suc i) e = ap (λ (r : List ℕ). c ∷ r) (set-middle a b x y i (omega arith))

-- A list of two elements or more, between its ends.
ends :
    (x : ℕ) (s : List ℕ)
    → 0 < length s
    → (mid : List ℕ) × (y : ℕ) × (x ∷ s ≡ x ∷ (mid ++ y ∷ [])) × (length s ≡ length mid + 1)
ends x [] h = absurd (omega arith)
ends x (c ∷ []) h = ([], c, refl, omega arith)
ends x (c ∷ d ∷ s) h =
    let (mid, y, e, n) = ends c (d ∷ s) (omega arith) in
    (c ∷ mid, y, ap (λ (r : List ℕ). x ∷ r) e, omega (arith, n))

-- One round trades the first and the last byte of the part.
trade :
    (a mid b : List ℕ) (x y q : ℕ)
    → q ≡ length a + 1 + length mid
    → set
        (set (a ++ x ∷ (mid ++ y ∷ b)) (length a) (get_or (a ++ x ∷ (mid ++ y ∷ b)) q 0))
        q
        (get_or (a ++ x ∷ (mid ++ y ∷ b)) (length a) 0)
      ≡ (a ++ y ∷ []) ++ (mid ++ x ∷ b)
trade a mid b x y q e =
    let far : (c : ℕ) → q ≡ length (a ++ c ∷ mid) = λ c. omega (arith, length-append a (c ∷ mid)) in
    let split : a ++ x ∷ (mid ++ y ∷ b) ≡ (a ++ x ∷ mid) ++ y ∷ b =
      sym (append_assoc a (x ∷ mid) (y ∷ b)) in
    let at_q : get_or (a ++ x ∷ (mid ++ y ∷ b)) q 0 ≡ y =
      ap (λ (l : List ℕ). get_or l q 0) split ∙ get_or-middle (a ++ x ∷ mid) b y q (far x) in
    let at_p : get_or (a ++ x ∷ (mid ++ y ∷ b)) (length a) 0 ≡ x =
      get_or-middle a (mid ++ y ∷ b) x (length a) refl in
    let first : set (a ++ x ∷ (mid ++ y ∷ b)) (length a) y ≡ (a ++ y ∷ mid) ++ y ∷ b =
      set-middle a (mid ++ y ∷ b) x y (length a) refl ∙ sym (append_assoc a (y ∷ mid) (y ∷ b)) in
    rw (at_q, at_p, first)
      (set-middle (a ++ y ∷ mid) b y x q (far y)
        ∙ (append_assoc a (y ∷ mid) (x ∷ b) ∙ sym (append_assoc a (y ∷ []) (mid ++ x ∷ b))))

reverse-ends :
    (mid : List ℕ) (x y : ℕ) → reverse (x ∷ (mid ++ y ∷ [])) ≡ y ∷ (reverse mid ++ x ∷ [])
reverse-ends mid x y =
    reverse-cons x (mid ++ y ∷ []) ∙ ap (λ (r : List ℕ). r ++ x ∷ []) (reverse-append mid (y ∷ []))

round :
    (n : ℕ) (a mid b : List ℕ) (x y q : ℕ)
    → q ≡ length a + 1 + length mid
    → swap_loop n ((a ++ y ∷ []) ++ (mid ++ x ∷ b)) (length a + 1) (q - 1)
      ≡ (a ++ y ∷ []) ++ (reverse mid ++ x ∷ b)
    → swap_loop (suc n) (a ++ ((x ∷ (mid ++ y ∷ [])) ++ b)) (length a) q
      ≡ a ++ (reverse (x ∷ (mid ++ y ∷ [])) ++ b)
unfolding swap_loop
round n a mid b x y q e ih =
    let inner : ((x ∷ (mid ++ y ∷ [])) ++ b) ≡ x ∷ (mid ++ y ∷ b) =
      ap (λ (r : List ℕ). x ∷ r) (append_assoc mid (y ∷ []) b) in
    let apart : ltb (length a) q ≡ true = ground arith in
    rw (inner, apart, trade a mid b x y q e, ih, reverse-ends mid x y)
      (append_assoc a (y ∷ []) (reverse mid ++ x ∷ b)
        ∙ ap (λ (r : List ℕ). a ++ y ∷ r) (sym (append_assoc (reverse mid) (x ∷ []) b)))

pub swap_loop-reverse :
    (n : ℕ) (a s b : List ℕ) (q : ℕ)
    → length s ≤ n + n + 1
    → length a + length s ≡ q + 1
    → swap_loop n (a ++ (s ++ b)) (length a) q ≡ a ++ (reverse s ++ b)
unfolding swap_loop
swap_loop-reverse zero a [] b q room fits = refl
swap_loop-reverse zero a (x ∷ []) b q room fits = refl
swap_loop-reverse zero a (x ∷ c ∷ s) b q room fits = absurd (omega arith)
swap_loop-reverse (suc n) a [] b q room fits =
    let met : ltb (length a) q ≡ false = ground arith in rw met refl
swap_loop-reverse (suc n) a (x ∷ []) b q room fits =
    let met : ltb (length a) q ≡ false = ground arith in rw met refl
swap_loop-reverse (suc n) a (x ∷ c ∷ s) b q room fits =
    let (mid, y, e, len) = ends x (c ∷ s) (omega arith) in
    let p : length (a ++ y ∷ []) ≡ length a + 1 = length-append a (y ∷ []) in
    let ih =
      swap_loop-reverse n (a ++ y ∷ []) mid (x ∷ b) (q - 1) (omega (arith, len))
        (omega (arith, p, len)) in
    subst (λ l. swap_loop (suc n) (a ++ (l ++ b)) (length a) q ≡ a ++ (reverse l ++ b)) (sym e)
      (round n a mid b x y q (omega (arith, len)) (rw p at ih))

length-reverse : (s : List ℕ) → length (reverse s) ≡ length s
length-reverse [] = refl
length-reverse (x ∷ s) =
    let e : length (reverse (x ∷ s)) ≡ length (reverse s ++ x ∷ []) =
      ap (λ (r : List ℕ). length r) (reverse-cons x s) in
    omega (arith, e, length-append (reverse s) (x ∷ []), length-reverse s)

-- The loop over all that stands behind a sign.
pub turned :
    (sign digits : List ℕ)
    → 0 < length digits
    → ◌≡◌ {A = List ℕ × ℕ}
        (
          swap_loop
              (length (sign ++ digits))
              (sign ++ digits)
              (length sign)
              (length (sign ++ digits) - 1),
          length (sign ++ digits),
        )
        (sign ++ reverse digits, length (sign ++ reverse digits))
turned sign digits pos =
    let n = length (sign ++ digits) in
    let len : n ≡ length sign + length digits = length-append sign digits in
    let text : swap_loop n (sign ++ digits) (length sign) (n - 1) ≡ sign ++ reverse digits =
      rw (append-nil digits, append-nil (reverse digits)) at
        (swap_loop-reverse n sign digits [] (n - 1) (omega (arith, len)) (omega (arith, len))) in
    let count : n ≡ length (sign ++ reverse digits) =
      omega (arith, len, length-append sign (reverse digits), length-reverse digits) in
    ap₂ (λ (s : List ℕ) (k : ℕ). (s, k)) text count
