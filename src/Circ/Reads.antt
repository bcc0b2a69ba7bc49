-- ===== src/Circ/Reads.antt =====
-- Taking frames out of the ring, as operations on the list of its bytes.
use cm_dotfiles.Prelude.{
  ℕ, zero, suc, ◌+◌, ◌-◌, ◌%◌, ◌<◌, ◌≤◌, ◌≡◌, inl, inr, refl, sym, ap, ap₂, ◌∙◌, arith, List, [],
  length, Option, none, some, AllBytes, leb, ltb, if◌then◌else◌, u64, Bool-cases, Option-cases,
}
use mathlib.Core.Option.{some-injective}
use mathlib.Core.Path.{subst}
use cm_dotfiles.Circ.Ring.{error}
use cm_dotfiles.Circ.Frames.{copy_out, frame_length, framed_buf_read}
use cm_dotfiles.Circ.View.{
  bytes_at, held, contents, IsValid, next_frame, length-bytes_at, bytes_at-mod, take-bytes_at,
  drop-bytes_at, copy_out-bytes_at, available_lem, held-lt, held-advance, advance-IsValid,
  frame_length_lem,
}

module _ (buf : List ℕ) (span head tail : ℕ) (v : IsValid buf span head tail)
    (bytes : AllBytes buf) where
  -- The frame that stands at `tail`, as the code finds it.
  pub record FrameAt (msg rest : List ℕ) : Type 0 where
    pub enough : 2 + length msg ≤ held span head tail
    pub len : frame_length buf span tail ≡ length msg
    pub copied : copy_out buf span (tail + 2) (length msg) ≡ msg
    pub left : contents buf span head ((tail + (2 + length msg)) % span) ≡ rest

  -- The first frame of a ring that holds two bytes or more.
  next_frame_lem :
      (n : ℕ)
      → let len = frame_length buf span tail in
        next_frame (bytes_at buf span tail (suc (suc n))) ≡ (
          if leb len n
          then some (bytes_at buf span (tail + 2) len, bytes_at buf span (tail + 2 + len) (n - len))
          else none)
  unfolding next_frame bytes_at
  next_frame_lem n = elim (Bool-cases (leb (frame_length buf span tail) n)) [
    | inl fits ↦
        rw
          (
            sym (frame_length_lem buf span head tail v bytes),
            length-bytes_at buf span (tail + 1 + 1) n,
            fits,
          )
          (ap₂ (λ (m r : List ℕ). some (m, r))
            (take-bytes_at buf span (tail + 1 + 1) n (frame_length buf span tail) (ground arith)
              ∙ ap (λ (k : ℕ). bytes_at buf span k (frame_length buf span tail)) (omega arith))
            (drop-bytes_at buf span (tail + 1 + 1) n (frame_length buf span tail) (ground arith)
              ∙ ap
                  (λ (k : ℕ).
                    bytes_at buf span (k + frame_length buf span tail)
                      (n - frame_length buf span tail))
                  (omega arith)))
    | inr short ↦
        rw
          (
            sym (frame_length_lem buf span head tail v bytes),
            length-bytes_at buf span (tail + 1 + 1) n,
            short,
          )
          refl
  ]

  found :
      (n : ℕ)
      → held span head tail ≡ suc (suc n)
      → frame_length buf span tail ≤ n
      → let len = frame_length buf span tail in
        FrameAt (bytes_at buf span (tail + 2) len) (bytes_at buf span (tail + 2 + len) (n - len))
  found n h fits =
      let len = frame_length buf span tail in
      let few = held-lt buf span head tail v in
      let inside = v.tail_in in
      let small = v.fits in
      let size : length (bytes_at buf span (tail + 2) len) ≡ len =
        length-bytes_at buf span (tail + 2) len in
      record {
        enough = rw size (omega arith);
        len = sym size;
        copied = rw size (copy_out-bytes_at buf span (tail + 2) len (omega arith));
        left =
            rw (size, held-advance buf span head tail v (2 + len) (omega arith))
              (bytes_at-mod buf span (tail + (2 + len)) (held span head tail - (2 + len))
                ∙ ap₂ (λ (k m : ℕ). bytes_at buf span k m) (omega arith) (omega arith));
      }

  FrameAt-held :
      (h : ℕ)
      → held span head tail ≡ h
      → (msg rest : List ℕ) → next_frame (bytes_at buf span tail h) ≡ some (msg, rest)
      → FrameAt msg rest
  FrameAt-held zero e msg rest nf = absurd (unfold next_frame bytes_at in cc)
  FrameAt-held (suc zero) e msg rest nf = absurd (unfold next_frame bytes_at in cc)
  FrameAt-held (suc (suc n)) e msg rest nf =
      elim (Bool-cases (leb (frame_length buf span tail) n)) [
        | inl fits ↦
            let p = some-injective _ (msg, rest) (rw fits at (sym (next_frame_lem n) ∙ nf)) in
            subst (λ (q : List ℕ × List ℕ). FrameAt q.0 q.1) p (found n e (ground arith))
        | inr short ↦ absurd (let p = rw short at (sym (next_frame_lem n) ∙ nf) in cc)
      ]

  -- The first frame of the list of bytes is the one that the code finds.
  pub frame_at :
      (msg rest : List ℕ)
      → next_frame (contents buf span head tail) ≡ some (msg, rest)
      → FrameAt msg rest
  frame_at = FrameAt-held (held span head tail) refl

  no_frame-held :
      (h : ℕ)
      → held span head tail ≡ h
      → next_frame (bytes_at buf span tail h) ≡ none
      → held span head tail < 2 + frame_length buf span tail
  no_frame-held zero e nf = omega arith
  no_frame-held (suc zero) e nf = omega arith
  no_frame-held (suc (suc n)) e nf = elim (Bool-cases (leb (frame_length buf span tail) n)) [
    | inl fits ↦ absurd (let p = rw fits at (sym (next_frame_lem n) ∙ nf) in cc)
    | inr short ↦ ground arith
  ]

  -- Where the list has no whole frame, too few bytes are available.
  pub no_frame :
      next_frame (contents buf span head tail) ≡ none
      → held span head tail < 2 + frame_length buf span tail
  no_frame = no_frame-held (held span head tail) refl

hand_out : List ℕ → ℕ → Option (List ℕ × List ℕ) → ℕ × List ℕ × List ℕ
hand_out cs room none = (0, [], cs)
hand_out cs room (some (msg, rest)) =
    if ltb room (length msg) then (error, [], cs) else (length msg, msg, rest)

-- A queue of bytes: the result, the bytes handed out and the bytes left, when a whole frame is
-- taken off whose message has room.
pub dequeue : List ℕ → ℕ → ℕ × List ℕ × List ℕ
unfolding hand_out
dequeue cs room = hand_out cs room (next_frame cs)

module _ (buf : List ℕ) (span head tail room : ℕ) (v : IsValid buf span head tail)
    (bytes : AllBytes buf) where
  read_none :
      next_frame (contents buf span head tail) ≡ none
      → framed_buf_read buf span head tail room ≡ (0, tail, [])
  unfolding framed_buf_read
  read_none e =
      let few = no_frame buf span head tail v bytes e in
      rw (available_lem buf span head tail v) (ground arith)

  read_some :
      (msg rest : List ℕ)
      → next_frame (contents buf span head tail) ≡ some (msg, rest)
      → framed_buf_read buf span head tail room ≡ (
          if ltb room (length msg)
          then (error, tail, [])
          else (length msg, (tail + (2 + length msg)) % span, msg))
  unfolding framed_buf_read
  read_some msg rest e =
      let f = frame_at buf span head tail v bytes msg rest e in
      let enough = f.enough in
      let few = held-lt buf span head tail v in
      let inside = v.tail_in in
      let small = v.fits in
      let moved : u64 (tail + 2 + length msg) ≡ tail + (2 + length msg) = omega arith in
      rw (available_lem buf span head tail v, f.len, f.copied, moved) (ground arith)

  -- `framed_buf_read` refines the queue: on a valid ring of bytes it returns what the queue
  -- returns, writes the message that the queue hands out, and leaves a valid ring that holds the
  -- bytes that the queue has left. That includes a frame that is not whole and a message that is
  -- longer than the output, where nothing changes.
  pub framed_buf_read-dequeue :
      let r = framed_buf_read buf span head tail room in
      ((r.0, r.2, contents buf span head r.1) ≡ dequeue (contents buf span head tail) room)
      × IsValid buf span head r.1
  unfolding dequeue
  framed_buf_read-dequeue = elim (Option-cases (next_frame (contents buf span head tail))) [
    | inl e ↦ rw (read_none e, e) (refl, v)
    | inr ((msg, rest), e) ↦
        rw (read_some msg rest e, e)
          (elim (Bool-cases (ltb room (length msg))) [
            | inl big ↦ rw big (refl, v)
            | inr fits ↦ rw fits (
              ap (λ (cs : List ℕ). (length msg, msg, cs))
                  (frame_at buf span head tail v bytes msg rest e).left,
              advance-IsValid buf span head tail v (2 + length msg),
            )
          ])
  ]
