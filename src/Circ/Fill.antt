-- ===== src/Circ/Fill.antt =====
-- What `framed_io_read` adds to the ring.
use cm_dotfiles.Prelude.{
  ℕ, ◌+◌, ◌-◌, ◌%◌, ◌<◌, ◌≤◌, ◌≡◌, inl, inr, refl, sym, ◌∙◌, arith, List, [], ◌∷◌, ◌++◌, length,
  leb, ltb, if◌then◌else◌, ◌==◌, true, false, min, add64, sub64, Bool-cases, append-nil,
}
use native.Mathlib.Nat.{mod-lt}
use cm_dotfiles.Circ.Ring.{Answer, again, failed, error, store, framed_io_read}
use cm_dotfiles.Circ.View.{held, contents, IsValid, held-lt, held-extend}
use cm_dotfiles.Circ.Store.{length-store, contents-store}

-- The bytes that an answer of `read` brings, and that it brings no more than was asked for.
unfoldable pub came : Answer → List ℕ
came (Answer.bytes bs) = bs
came again = []
came failed = []

unfoldable pub AtMost : ℕ → Answer → Type 0
unfolding came
AtMost n a = length (came a) ≤ n

-- How much `framed_io_read` asks for: what is free, up to the end of the buffer.
unfoldable pub asked : ℕ → ℕ → ℕ → ℕ
asked span head tail = min (span - 1 - held span head tail) (span - head)

-- The result of a function that passes on the answer.
pub outcome : Answer → ℕ
outcome (Answer.bytes bs) = length bs
outcome again = 0
outcome failed = error

-- Nothing is read when nothing is asked for.
pub given : (ℕ → Answer) → ℕ → Answer
given read n = if n == 0 then Answer.bytes [] else read n

module _ (read : ℕ → Answer) (buf : List ℕ) (span head tail : ℕ)
    (v : IsValid buf span head tail) where
  -- The ring with the bytes stored.
  pub stored-IsValid :
      (bs : List ℕ)
      → head + length bs ≤ span
      → IsValid (store buf head bs) span (add64 head (length bs) % span) tail
  stored-IsValid bs inside = record {
    size = length-store buf head bs (omega (arith, v.size)) ∙ v.size;
    fits = v.fits;
    head_in = mod-lt (add64 head (length bs)) (omega (arith, v.head_in));
    tail_in = v.tail_in;
  }

  pub stored-contents :
      (bs : List ℕ)
      → head + length bs ≤ span
      → held span head tail + length bs < span
      → contents (store buf head bs) span (add64 head (length bs) % span) tail
        ≡ contents buf span head tail ++ bs
  stored-contents bs inside free =
      let a = v.fits in
      let sum : add64 head (length bs) ≡ head + length bs = omega arith in
      rw (sum, held-extend buf span head tail v (length bs) free)
        (contents-store buf span head tail v bs inside (omega arith))

  -- What `framed_io_read` does with the answer.
  io_handle : Answer → ℕ × List ℕ × ℕ
  io_handle (Answer.bytes []) = (0, buf, head)
  io_handle (Answer.bytes (b ∷ bs)) =
      (length (b ∷ bs), store buf head (b ∷ bs), add64 head (length (b ∷ bs)) % span)
  io_handle again = (0, buf, head)
  io_handle failed = (error, buf, head)

  -- The free space as the code computes it, and what it asks for.
  free_lem :
      (if leb tail head then sub64 (add64 (sub64 span head) tail) 1 else sub64 (sub64 tail head) 1)
      ≡ span - 1 - held span head tail
  free_lem = let a = v.fits in let b = v.head_in in let c = v.tail_in in ground arith

  rest_lem : sub64 span head ≡ span - head
  rest_lem = let a = v.fits in let b = v.head_in in omega arith

  least_lem : (f r : ℕ) → (if ltb f r then f else r) ≡ min f r
  least_lem f r = ground arith

  framed_io_read_lem :
      framed_io_read read buf span head tail ≡ io_handle (given read (asked span head tail))
  unfolding framed_io_read io_handle given asked
  framed_io_read_lem =
      let f = span - 1 - held span head tail in
      let b = v.head_in in
      rw (free_lem, rest_lem, least_lem f (span - head))
        (elim (Bool-cases (f == 0)) [
          | inl none_free ↦
              let none_asked : (min f (span - head) == 0) ≡ true = ground arith in
              rw (none_free, none_asked) refl
          | inr some_free ↦
              let some_asked : (min f (span - head) == 0) ≡ false = ground arith in
              rw (some_free, some_asked) refl
        ])

  handled :
      (a : Answer)
      → head + length (came a) ≤ span
      → held span head tail + length (came a) < span
      → let r = io_handle a in
        (r.0 ≡ outcome a)
        × (contents r.1 span r.2 tail ≡ contents buf span head tail ++ came a)
        × IsValid r.1 span r.2 tail
  unfolding came outcome io_handle
  handled (Answer.bytes []) inside free = (refl, sym (append-nil _), v)
  handled (Answer.bytes (b ∷ bs)) inside free =
      (refl, stored-contents (b ∷ bs) inside free, stored-IsValid (b ∷ bs) inside)
  handled again inside free = (refl, sym (append-nil _), v)
  handled failed inside free = (refl, sym (append-nil _), v)

  came-given : (n : ℕ) → AtMost n (read n) → length (came (given read n)) ≤ n
  unfolding came given AtMost
  came-given n most = elim (Bool-cases (n == 0)) [
    | inl zero_asked ↦ rw zero_asked (omega arith)
    | inr some_asked ↦ rw some_asked most
  ]

  -- On a valid ring `framed_io_read` adds the bytes that `read` brings behind the bytes held, asks
  -- for the free space up to the end of the buffer and does not read if there is none, and returns
  -- their number, 0 at the end of the file and for EAGAIN, and -1 for any other error, if `read`
  -- brings no more than was asked for. The ring stays valid.
  pub framed_io_read-append :
      AtMost (asked span head tail) (read (asked span head tail))
      → let r = framed_io_read read buf span head tail in
        let answer = given read (asked span head tail) in
        (r.0 ≡ outcome answer)
        × (contents r.1 span r.2 tail ≡ contents buf span head tail ++ came answer)
        × IsValid r.1 span r.2 tail
  framed_io_read-append most = rw framed_io_read_lem (
      let few = held-lt buf span head tail v in
      let brought = came-given (asked span head tail) most in
      let b = v.head_in in
      handled (given read (asked span head tail)) (unfold asked in omega arith)
        (unfold asked in omega arith))
