-- ===== src/Circ/Tests.antt =====
-- The ring on concrete inputs: the frame of one byte goes round the end of a buffer of six.
use cm_dotfiles.Prelude.{
  ℕ, ◌≡◌, ◌+◌, ◌++◌, refl, arith, List, [], ◌∷◌, some, false, length, AllBytes, take, if◌then◌else◌,
  ◌==◌,
}
use cm_dotfiles.Circ.Ring.{Answer, framed_io_read, feed_fd}
use cm_dotfiles.Circ.Frames.{
  framed_buf_read, framed_read_delim, copied, copy_complete_messages, ready, available,
  frame_length, copy_out,
}
use cm_dotfiles.Circ.View.{bytes_at, contents, held, IsValid, next_frame, frame}
use cm_dotfiles.Circ.Reads.{dequeue, framed_buf_read-dequeue}
use cm_dotfiles.Circ.Messages.{frames, lines}
use cm_dotfiles.Circ.Lines.{framed_read_delim-frames}
use cm_dotfiles.Circ.Fill.{came, AtMost, asked, outcome, given, framed_io_read-append}
use cm_dotfiles.Circ.Feed.{feed_asked, feed_given, feed_outcome, feed_fd-append}
use cm_dotfiles.Circ.Chunks.{IsRing, copy_complete_messages-frames}

abbrev buffer : List ℕ
buffer = 65 ∷ 9 ∷ 9 ∷ 9 ∷ 0 ∷ 1 ∷ []

buffer-IsValid : IsValid buffer 6 1 4
buffer-IsValid = omega arith

buffer-AllBytes : AllBytes buffer
buffer-AllBytes = omega arith

read_frame : framed_buf_read buffer 6 1 4 10 ≡ (1, 1, 65 ∷ [])
unfolding framed_buf_read available frame_length copy_out
read_frame = refl

framed_buf_read-dequeue_example :
    let r = framed_buf_read buffer 6 1 4 10 in
    ((r.0, r.2, contents buffer 6 1 r.1) ≡ dequeue (contents buffer 6 1 4) 10)
    × IsValid buffer 6 1 r.1
framed_buf_read-dequeue_example =
    framed_buf_read-dequeue buffer 6 1 4 10 buffer-IsValid buffer-AllBytes

framed_read_delim-frames_example :
    let r = framed_read_delim buffer 6 1 4 10 in
    (r.0 ≡ length (lines ((65 ∷ []) ∷ [])))
    × (r.2 ≡ lines ((65 ∷ []) ∷ []))
    × (contents buffer 6 1 r.1 ≡ [])
    × IsValid buffer 6 1 r.1
unfolding bytes_at next_frame frames frame lines
framed_read_delim-frames_example =
    framed_read_delim-frames buffer 6 1 4 10 ((65 ∷ []) ∷ []) [] buffer-IsValid buffer-AllBytes refl
      refl (omega arith) (omega arith)

-- A file with four bytes ready.
abbrev four : ℕ → Answer
four n = Answer.bytes (take n (1 ∷ 2 ∷ 3 ∷ 4 ∷ []))

framed_io_read-append_example :
    let r = framed_io_read four buffer 6 1 4 in
    let answer = given four (asked 6 1 4) in
    (r.0 ≡ outcome answer)
    × (contents r.1 6 r.2 4 ≡ contents buffer 6 1 4 ++ came answer)
    × IsValid r.1 6 r.2 4
unfolding came AtMost asked
framed_io_read-append_example = framed_io_read-append four buffer 6 1 4 buffer-IsValid (omega arith)

abbrev zeros : List ℕ
zeros = 0 ∷ 0 ∷ 0 ∷ 0 ∷ []

zeros-IsValid : IsValid zeros 4 0 0
zeros-IsValid = omega arith

feed_fd-append_example :
    let r = feed_fd four zeros 4 0 0 in
    let answer = feed_given four 4 0 0 in
    (r.0 ≡ feed_outcome answer)
    × (contents r.1 4 r.2 0 ≡ (
        if held 4 0 0 + length (came answer) == 4 then [] else contents zeros 4 0 0 ++ came answer))
    × IsValid r.1 4 r.2 0
unfolding came AtMost feed_asked
feed_fd-append_example = feed_fd-append four zeros 4 0 0 zeros-IsValid (omega arith)

buffer-IsRing : IsRing buffer 6 4 1
buffer-IsRing = omega arith

copy_complete_messages-frames_example :
    copy_complete_messages (some buffer) false 4 1 3 6 ≡ copied 3 (0 ∷ 1 ∷ 65 ∷ [])
unfolding bytes_at next_frame frames frame ready
copy_complete_messages-frames_example =
    copy_complete_messages-frames buffer 4 1 3 6 buffer-IsRing ((65 ∷ []) ∷ []) [] buffer-AllBytes
      (omega arith) refl refl
