-- ===== src/Circ/Messages.antt =====
-- A list of messages as frames one behind the other, and as lines.
use cm_dotfiles.Prelude.{
  ℕ, ◌+◌, ◌*◌, ◌/◌, ◌%◌, ◌≡◌, refl, ap, arith, List, [], ◌∷◌, ◌++◌, length, take, drop, some, leb,
  true, length-append,
}
use cm_dotfiles.Circ.View.{next_frame, frame}

-- The frames of a list of messages, and the lines that they are written out as.
unfoldable pub frames : List (List ℕ) → List ℕ
frames [] = []
frames (m ∷ ms) = frame m ++ frames ms

unfoldable pub lines : List (List ℕ) → List ℕ
lines [] = []
lines (m ∷ ms) = m ++ (b'\n' ∷ lines ms)

pub take-length_append : (xs ys : List ℕ) → take (length xs) (xs ++ ys) ≡ xs
take-length_append [] ys = refl
take-length_append (x ∷ xs) ys = ap (λ zs. x ∷ zs) (take-length_append xs ys)

drop-length_append : (xs ys : List ℕ) → drop (length xs) (xs ++ ys) ≡ ys
drop-length_append [] ys = refl
drop-length_append (x ∷ xs) ys = drop-length_append xs ys

pub next_frame-frame : (msg rest : List ℕ) → next_frame (frame msg ++ rest) ≡ some (msg, rest)
unfolding next_frame frame
next_frame-frame msg rest =
    let whole : length msg / 256 * 256 + length msg % 256 ≡ length msg = omega arith in
    let fits : leb (length msg) (length (msg ++ rest)) ≡ true =
      ground (arith, length-append msg rest) in
    rw (whole, fits) (rw (take-length_append msg rest, drop-length_append msg rest) refl)
