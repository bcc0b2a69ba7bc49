-- ===== src/Circ/Ring.antt =====
-- `circ_avail`, `circ_space`, and the two functions that fill the ring from a file descriptor. The
-- `read` of the platform is a parameter: asked for at most `n` bytes, it brings some, or none at
-- the end of the file, or an error.
use cm_dotfiles.Prelude.{
  ℕ, ◌+◌, ◌-◌, ◌%◌, ◌^◌, List, [], ◌∷◌, ◌++◌, ◌==◌, ltb, leb, if◌then◌else◌, length, take, drop,
  add64, sub64,
}

unfoldable pub circ_avail : ℕ → ℕ → ℕ → ℕ
circ_avail start end size = if leb start end then sub64 end start else add64 (sub64 size start) end

unfoldable pub circ_space : ℕ → ℕ → ℕ → ℕ
circ_space start end size = sub64 (sub64 size 1) (circ_avail start end size)

-- What `read` answers: bytes, whose number it returns, or -1 with `errno`, of which EAGAIN is told
-- apart.
pub data Answer : Type 0 where
  bytes : List ℕ → Answer
  again : Answer
  failed : Answer

-- `size_t` of -1
abbrev pub error : ℕ
error = 2 ^ 64 - 1

-- The bytes that `read` stores from `buffer + i` on.
unfoldable pub store : List ℕ → ℕ → List ℕ → List ℕ
store buffer i bs = take i buffer ++ (bs ++ drop (i + length bs) buffer)

-- The result, the buffer and `*head`.
unfoldable pub framed_io_read : (ℕ → Answer) → List ℕ → ℕ → ℕ → ℕ → ℕ × List ℕ × ℕ
framed_io_read read buffer capacity head tail =
    let free_space =
      if leb tail head
      then sub64 (add64 (sub64 capacity head) tail) 1
      else sub64 (sub64 tail head) 1 in
    let to_read =
      if ltb free_space (sub64 capacity head) then free_space else sub64 capacity head in
    let answer : ℕ × List ℕ × ℕ = elim (read to_read) [
      | bytes [] ↦ (0, buffer, head)
      | bytes (b ∷ bs) ↦
          (length (b ∷ bs), store buffer head (b ∷ bs), add64 head (length (b ∷ bs)) % capacity)
      | again ↦ (0, buffer, head)
      | failed ↦ (error, buffer, head)
    ] in
    if free_space == 0 then (0, buffer, head) else answer

-- The result, the buffer and `*wpos`.
unfoldable pub feed_fd : (ℕ → Answer) → List ℕ → ℕ → ℕ → ℕ → ℕ × List ℕ × ℕ
feed_fd read buf size rpos wpos =
    let to_read = if leb rpos wpos then sub64 size wpos else sub64 (sub64 rpos wpos) 1 in
    let answer : ℕ × List ℕ × ℕ = elim (read to_read) [
      | bytes [] ↦ (0, buf, wpos)
      | bytes (b ∷ bs) ↦
          (length (b ∷ bs), store buf wpos (b ∷ bs), add64 wpos (length (b ∷ bs)) % size)
      | again ↦ (error, buf, wpos)
      | failed ↦ (error, buf, wpos)
    ] in
    if circ_space rpos wpos size == 0 then (0, buf, wpos) else answer
