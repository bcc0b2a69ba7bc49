-- ===== src/Circ/View.antt =====
-- The ring as the list of the bytes that it holds, and frames in such a list.
use cm_dotfiles.Prelude.{
  ℕ, zero, suc, ◌+◌, ◌-◌, ◌*◌, ◌/◌, ◌%◌, ◌^◌, ◌<◌, ◌≤◌, ◌≡◌, inl, inr, refl, sym, ap, ap₂, ◌∙◌,
  arith, List, [], ◌∷◌, ◌++◌, length, take, drop, get_or, Option, none, some, AllBytes, leb,
  if◌then◌else◌, ◌==◌, u64,
}
use cm_dotfiles.Prelude.Bits.{or_fields}
use cm_dotfiles.Prelude.Remainder.{wrap_cases}
use native.Mathlib.Nat.{mod-mod, mod-lt, mod-eq_of_lt, mod-add-mod}
use cm_dotfiles.Circ.Frames.{copy_out, frame_length, available}

-- The `n` bytes from index `i` on, round the end.
unfoldable pub bytes_at : List ℕ → ℕ → ℕ → ℕ → List ℕ
bytes_at buf span i zero = []
bytes_at buf span i (suc n) = get_or buf (i % span) 0 ∷ bytes_at buf span (i + 1) n

-- How many bytes stand between `tail` and `head`.
abbrev pub held : ℕ → ℕ → ℕ → ℕ
held span head tail = if leb tail head then head - tail else span - tail + head

abbrev pub contents : List ℕ → ℕ → ℕ → ℕ → List ℕ
contents buf span head tail = bytes_at buf span tail (held span head tail)

-- A buffer with its indices. One slot stays free, so that equal indices mean an empty ring.
pub record IsValid (buf : List ℕ) (span head tail : ℕ) : Type 0 where
  pub size : length buf ≡ span
  pub fits : span < 2 ^ 62
  pub head_in : head < span
  pub tail_in : tail < span

-- A frame is a length in two bytes, the high one first, and as many bytes.
unfoldable pub next_frame : List ℕ → Option (List ℕ × List ℕ)
next_frame [] = none
next_frame (x ∷ []) = none
next_frame (x ∷ y ∷ rest) =
    if leb (x * 256 + y) (length rest)
    then some (take (x * 256 + y) rest, drop (x * 256 + y) rest)
    else none

unfoldable pub frame : List ℕ → List ℕ
frame msg = length msg / 256 ∷ length msg % 256 ∷ msg

pub length-bytes_at : (buf : List ℕ) (span i n : ℕ) → length (bytes_at buf span i n) ≡ n
unfolding bytes_at
length-bytes_at buf span i zero = refl
length-bytes_at buf span i (suc n) = ap suc (length-bytes_at buf span (i + 1) n)

pub bytes_at-mod :
    (buf : List ℕ) (span i n : ℕ) → bytes_at buf span (i % span) n ≡ bytes_at buf span i n
unfolding bytes_at
bytes_at-mod buf span i zero = refl
bytes_at-mod buf span i (suc n) =
    ap₂ (λ (k : ℕ) (bs : List ℕ). get_or buf k 0 ∷ bs) (mod-mod i span)
      (sym (bytes_at-mod buf span (i % span + 1) n)
        ∙ (ap (λ (k : ℕ). bytes_at buf span k n) (mod-add-mod i span 1)
            ∙ bytes_at-mod buf span (i + 1) n))

pub take-bytes_at :
    (buf : List ℕ) (span i n m : ℕ) → m ≤ n → take m (bytes_at buf span i n) ≡ bytes_at buf span i m
unfolding bytes_at
take-bytes_at buf span i n zero h = refl
take-bytes_at buf span i zero (suc m) h = absurd (omega arith)
take-bytes_at buf span i (suc n) (suc m) h =
    ap (λ bs. get_or buf (i % span) 0 ∷ bs) (take-bytes_at buf span (i + 1) n m (omega arith))

pub drop-bytes_at :
    (buf : List ℕ) (span i n m : ℕ)
    → m ≤ n
    → drop m (bytes_at buf span i n) ≡ bytes_at buf span (i + m) (n - m)
unfolding bytes_at
drop-bytes_at buf span i n zero h =
    ap₂ (λ (k m : ℕ). bytes_at buf span k m) (omega arith) (omega arith)
drop-bytes_at buf span i zero (suc m) h = absurd (omega arith)
drop-bytes_at buf span i (suc n) (suc m) h =
    drop-bytes_at buf span (i + 1) n m (omega arith)
    ∙ ap₂ (λ (k j : ℕ). bytes_at buf span k j) (omega arith) (omega arith)

pub bytes_at-append :
    (buf : List ℕ) (span i m n : ℕ)
    → bytes_at buf span i (m + n) ≡ bytes_at buf span i m ++ bytes_at buf span (i + m) n
unfolding bytes_at
bytes_at-append buf span i zero n =
    ap₂ (λ (k j : ℕ). bytes_at buf span k j) (omega arith) (omega arith)
bytes_at-append buf span i (suc m) n =
    ap (λ (k : ℕ). bytes_at buf span i k) sum
    ∙ ap (λ bs. get_or buf (i % span) 0 ∷ bs)
        (bytes_at-append buf span (i + 1) m n
          ∙ ap (λ (k : ℕ). bytes_at buf span (i + 1) m ++ bytes_at buf span k n) (omega arith))
  where
    sum : suc m + n ≡ suc (m + n)
    sum = omega arith

pub copy_out-bytes_at :
    (buf : List ℕ) (span i n : ℕ) → i + n ≤ 2 ^ 64 → copy_out buf span i n ≡ bytes_at buf span i n
unfolding copy_out bytes_at
copy_out-bytes_at buf span i zero h = refl
copy_out-bytes_at buf span i (suc n) h =
    ap₂ (λ (k : ℕ) (bs : List ℕ). get_or buf (k % span) 0 ∷ bs) (omega arith)
      (copy_out-bytes_at buf span (i + 1) n (omega arith))

pub AllBytes-get_or : (bs : List ℕ) (i : ℕ) → AllBytes bs → get_or bs i 0 < 256
AllBytes-get_or [] i h = omega arith
AllBytes-get_or (b ∷ bs) zero h = h.0
AllBytes-get_or (b ∷ bs) (suc i) h = AllBytes-get_or bs i h.1

module _ (buf : List ℕ) (span head tail : ℕ) (v : IsValid buf span head tail) where
  pub available_lem : available span head tail ≡ held span head tail
  unfolding available
  available_lem = let a = v.fits in let b = v.head_in in let c = v.tail_in in ground arith

  pub held-lt : held span head tail < span
  held-lt = let a = v.fits in let b = v.head_in in let c = v.tail_in in ground arith

  pub empty_iff : (tail == head) ≡ (held span head tail == 0)
  empty_iff = let a = v.fits in let b = v.head_in in let c = v.tail_in in ground arith

  -- Moving `tail` on by what is held at most leaves a ring with fewer bytes.
  pub held-advance :
      (n : ℕ)
      → n ≤ held span head tail
      → held span head ((tail + n) % span) ≡ held span head tail - n
  held-advance n h =
      let a = v.head_in in
      let b = v.tail_in in
      elim (wrap_cases (tail + n) span (ground arith)) [
        | inl w ↦ rw w.0 (ground arith)
        | inr w ↦ rw w.0 (ground arith)
      ]

  pub advance-IsValid : (n : ℕ) → IsValid buf span head ((tail + n) % span)
  advance-IsValid n = record {
    size = v.size;
    fits = v.fits;
    head_in = v.head_in;
    tail_in = mod-lt (tail + n) (let a = v.head_in in omega arith);
  }

  -- Moving `head` on by what is free at most.
  pub held-extend :
      (n : ℕ)
      → held span head tail + n < span
      → held span ((head + n) % span) tail ≡ held span head tail + n
  held-extend n h =
      let a = v.head_in in
      let b = v.tail_in in
      elim (wrap_cases (head + n) span (ground arith)) [
        | inl w ↦ rw w.0 (ground arith)
        | inr w ↦ rw w.0 (ground arith)
      ]

  pub frame_length_lem :
      AllBytes buf
      → frame_length buf span tail
        ≡ get_or buf (tail % span) 0 * 256 + get_or buf ((tail + 1) % span) 0
  unfolding frame_length
  frame_length_lem bytes =
      let a = v.fits in
      let b = v.tail_in in
      let x = get_or buf tail 0 in
      let y = get_or buf ((tail + 1) % span) 0 in
      let hx : x < 256 = AllBytes-get_or buf tail bytes in
      let hy : y < 256 = AllBytes-get_or buf ((tail + 1) % span) bytes in
      let small : u64 (tail + 1) ≡ tail + 1 = omega arith in
      rw (small, mod-eq_of_lt v.tail_in, or_fields 8 x y hy) (omega arith)
