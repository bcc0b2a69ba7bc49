-- ===== src/Json/Size.antt =====
-- The size that `json_escape_buffer_size` computes and the escape loop.
use cm_dotfiles.Prelude.{
  refl, ℕ, ◌+◌, ◌*◌, ◌^◌, ◌<◌, ◌≤◌, ◌≡◌, ◌∙◌, arith, List, [], ◌∷◌, none, some, false, ltb, leb,
  if◌then◌else◌, length, length-append, u64,
}
use native.Mathlib.Decide.{dec_le}
use cm_dotfiles.Json.Escape.{
  width, is_short, size_loop, json_escape_buffer_size, escape, print_escape, room_for, buffer_loop,
  json_escape_to_buffer, print_loop, json_escape_print,
}

-- The guards, the sizes and what is written agree.
width_lem :
    (c : ℕ)
    → (length (print_escape c) ≡ width c) × (room_for c ≡ width c) × (0 < width c) × (width c ≤ 6)
unfolding width is_short print_escape room_for
width_lem c = ground arith

-- The two switches give the same bytes.
escape-print_escape : (c : ℕ) → escape c ≡ print_escape c
unfolding escape print_escape
escape-print_escape c = refl

size_loop_lem :
    (cs : List ℕ) (n : ℕ) → n + 6 * length cs < 2 ^ 63 → size_loop n cs ≡ n + length (print_loop cs)
unfolding size_loop print_loop
size_loop_lem [] n h = omega arith
size_loop_lem (c ∷ cs) n h =
    let w = width_lem c in
    let one : u64 (n + width c) ≡ n + width c = omega arith in
    rw one (
      size_loop_lem cs (n + width c) (omega arith)
      ∙ omega (arith, w.0, length-append (print_escape c) (print_loop cs)))

buffer_loop_lem :
    (cs : List ℕ) (size pos : ℕ)
    → size < 2 ^ 62
    → pos < 2 ^ 62
    → buffer_loop size pos cs
      ≡ (if leb size (pos + length (print_loop cs)) then none else some (print_loop cs))
unfolding buffer_loop print_loop
buffer_loop_lem [] size pos h k = ground arith
buffer_loop_lem (c ∷ cs) size pos h k =
    let (w, r, positive, small) = width_lem c in
    let one : u64 (pos + length (print_escape c)) ≡ pos + length (print_escape c) = omega arith in
    let two : u64 (pos + room_for c) ≡ pos + length (print_escape c) = omega arith in
    let all = length-append (print_escape c) (print_loop cs) in
    rw (escape-print_escape c, one, two)
      (elim (dec_le size (pos + length (print_escape c))) [
        | yes full ↦ ground arith
        | no room ↦
            let ih = buffer_loop_lem cs size (pos + length (print_escape c)) h (omega arith) in
            rw ih (ground arith)
      ])

-- Every byte takes one at least.
print_loop_longer : (cs : List ℕ) → length cs ≤ length (print_loop cs)
unfolding print_loop
print_loop_longer [] = omega arith
print_loop_longer (c ∷ cs) =
    let w = width_lem c in
    omega (arith, w.0, w.2, print_loop_longer cs, length-append (print_escape c) (print_loop cs))

-- For an input whose escaped text is not longer than an `int` can count, and a buffer below
-- 2 ^ 62, `json_escape_to_buffer` writes and returns just what `json_escape_print` prints and
-- returns, if the buffer has the size that `json_escape_buffer_size` computes or more, and is
-- refused if it is any smaller.
pub json_escape_to_buffer-size :
    (input : List ℕ) (output_size : ℕ)
    → length (json_escape_print (some input)).1 < 2 ^ 31
    → output_size < 2 ^ 62
    → json_escape_to_buffer (some input) false output_size ≡ (
        if ltb output_size (json_escape_buffer_size (some input))
        then none
        else some (json_escape_print (some input)))
unfolding json_escape_to_buffer json_escape_buffer_size json_escape_print
json_escape_to_buffer-size input output_size h k =
    let fits = print_loop_longer input in
    rw
      (
        buffer_loop_lem input output_size 0 k (omega arith),
        size_loop_lem input 1 (omega (arith, fits)),
      )
      (ground arith)
