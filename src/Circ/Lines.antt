-- ===== src/Circ/Lines.antt =====
-- `framed_read_delim` on a ring of whole frames.
use cm_dotfiles.Prelude.{
  ℕ, zero, suc, ◌+◌, ◌%◌, ◌^◌, ◌<◌, ◌≤◌, ◌≡◌, refl, ap, ◌∙◌, arith, List, [], ◌∷◌, ◌++◌, length,
  none, some, AllBytes, u64, length-append, append_assoc,
}
use cm_dotfiles.Circ.Frames.{delim_loop, framed_read_delim}
use cm_dotfiles.Circ.View.{
  held, contents, IsValid, next_frame, frame, available_lem, held-lt, held-advance, advance-IsValid,
}
use cm_dotfiles.Circ.Reads.{frame_at, no_frame}
use cm_dotfiles.Circ.Messages.{frames, lines, next_frame-frame}

module _ (buf : List ℕ) (span head tail pos room : ℕ) (v : IsValid buf span head tail)
    (bytes : AllBytes buf) (fuel : ℕ) where
  delim_stop :
      next_frame (contents buf span head tail) ≡ none
      → delim_loop (suc fuel) buf span head tail pos room ≡ ([], tail)
  unfolding delim_loop
  delim_stop e =
      let few = no_frame buf span head tail v bytes e in
      rw (available_lem buf span head tail v) (ground arith)

  delim_step :
      (msg rest : List ℕ)
      → next_frame (contents buf span head tail) ≡ some (msg, rest)
      → pos + length msg + 1 ≤ room
      → room < 2 ^ 63
      → let r =
          delim_loop fuel buf span head
            ((tail + (2 + length msg)) % span)
            (pos + length msg + 1)
            room in
        delim_loop (suc fuel) buf span head tail pos room ≡ (msg ++ (b'\n' ∷ r.0), r.1)
  unfolding delim_loop
  delim_step msg rest e fits small =
      let f = frame_at buf span head tail v bytes msg rest e in
      let enough = f.enough in
      let few = held-lt buf span head tail v in
      let inside = v.tail_in in
      let narrow = v.fits in
      let moved : u64 (tail + 2 + length msg) ≡ tail + (2 + length msg) = omega arith in
      let counted : u64 (pos + length msg + 1) ≡ pos + length msg + 1 = omega arith in
      rw (available_lem buf span head tail v, f.len, f.copied, moved, counted) (ground arith)

module _ (buf : List ℕ) (span head room : ℕ) (bytes : AllBytes buf) where
  -- The loop with a ring of whole frames, and behind them no whole frame.
  delim_loop-frames :
      (ms : List (List ℕ)) (rest : List ℕ) (fuel tail pos : ℕ)
      → IsValid buf span head tail
      → contents buf span head tail ≡ frames ms ++ rest
      → next_frame rest ≡ none
      → pos + length (lines ms) ≤ room
      → room < 2 ^ 63
      → held span head tail < fuel
      → let r = delim_loop fuel buf span head tail pos room in
        (r.0 ≡ lines ms) × (contents buf span head r.1 ≡ rest) × IsValid buf span head r.1
  delim_loop-frames ms rest zero tail pos v e last fits small enough = absurd (omega arith)
  delim_loop-frames [] rest (suc fuel) tail pos v e last fits small enough =
      rw (delim_stop buf span head tail pos room v bytes fuel (ap next_frame e' ∙ last))
        (unfold lines in refl, e', v)
    where
      e' : contents buf span head tail ≡ rest
      e' = unfold frames in e
  delim_loop-frames (m ∷ ms) rest (suc fuel) tail pos v e last fits small enough =
      let first = ap next_frame (e ∙ split) ∙ next_frame-frame m (frames ms ++ rest) in
      let f = frame_at buf span head tail v bytes m (frames ms ++ rest) first in
      let tail' = (tail + (2 + length m)) % span in
      let room_left : pos + length m + 1 + length (lines ms) ≤ room = omega (arith, size) in
      let ih =
        delim_loop-frames ms rest fuel tail' (pos + length m + 1)
          (advance-IsValid buf span head tail v (2 + length m)) f.left last room_left small
          (rw (held-advance buf span head tail v (2 + length m) f.enough)
            (omega (arith, f.enough))) in
      rw
        (delim_step buf span head tail pos room v bytes fuel m (frames ms ++ rest) first
          (omega arith) small)
        (ap (λ (ls : List ℕ). m ++ (b'\n' ∷ ls)) ih.0 ∙ written, ih.1, ih.2)
    where
      split : frames (m ∷ ms) ++ rest ≡ frame m ++ (frames ms ++ rest)
      split = unfold frames in append_assoc (frame m) (frames ms) rest

      written : m ++ (b'\n' ∷ lines ms) ≡ lines (m ∷ ms)
      written = unfold lines in refl

      size : length (lines (m ∷ ms)) ≡ length m + (1 + length (lines ms))
      size = unfold lines in omega (arith, length-append m (b'\n' ∷ lines ms))

-- `framed_read_delim` on a valid ring of bytes that holds whole frames, and behind them no whole
-- frame: it writes each message with a newline behind it, if the output has room for them all,
-- returns the number of bytes written, and leaves a valid ring that holds the bytes behind the
-- frames.
pub framed_read_delim-frames :
    (buf : List ℕ) (span head tail room : ℕ) (ms : List (List ℕ)) (rest : List ℕ)
    → IsValid buf span head tail
    → AllBytes buf
    → contents buf span head tail ≡ frames ms ++ rest
    → next_frame rest ≡ none
    → length (lines ms) ≤ room
    → room < 2 ^ 63
    → let r = framed_read_delim buf span head tail room in
      (r.0 ≡ length (lines ms))
      × (r.2 ≡ lines ms)
      × (contents buf span head r.1 ≡ rest)
      × IsValid buf span head r.1
unfolding framed_read_delim
framed_read_delim-frames buf span head tail room ms rest v bytes e last fits small =
    let r =
      delim_loop-frames buf span head room bytes ms rest span tail 0 v e last (omega arith) small
        (held-lt buf span head tail v) in
    (ap length r.0, r.0, r.1, r.2)
