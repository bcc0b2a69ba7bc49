-- ===== src/Circ/Frames.antt =====
-- The functions that take frames out of the ring.
use cm_dotfiles.Prelude.{
  ℕ, zero, suc, ◌+◌, ◌-◌, ◌%◌, List, [], ◌∷◌, ◌++◌, Bool, ◌==◌, ltb, leb, if◌then◌else◌, length,
  take, drop, get_or, bit_or, bit_and, ◌<<◌, u16, u32, u64, add64, sub64, sub32, min, Option, none,
  some,
}
use cm_dotfiles.Circ.Ring.{error}

-- The loop that copies `n` bytes from index `i` on, round the end of the buffer.
unfoldable pub copy_out : List ℕ → ℕ → ℕ → ℕ → List ℕ
copy_out buffer capacity i zero = []
copy_out buffer capacity i (suc n) =
    get_or buffer (u64 i % capacity) 0 ∷ copy_out buffer capacity (i + 1) n

-- `length` of the frame at `tail`
unfoldable pub frame_length : List ℕ → ℕ → ℕ → ℕ
frame_length buffer capacity tail =
    u16 (bit_or (get_or buffer tail 0 << 8) (get_or buffer (add64 tail 1 % capacity) 0))

-- `available_data`
unfoldable pub available : ℕ → ℕ → ℕ → ℕ
available capacity head tail =
    if leb tail head then sub64 head tail else add64 (sub64 capacity tail) head

-- The result, `*tail`, and the bytes written to `output`.
unfoldable pub framed_buf_read : List ℕ → ℕ → ℕ → ℕ → ℕ → ℕ × ℕ × List ℕ
framed_buf_read buffer capacity head tail output_capacity =
    let available_data = available capacity head tail in
    let len = frame_length buffer capacity tail in
    if tail == head
    then (0, tail, [])
    else if ltb available_data 2
    then (0, tail, [])
    else if ltb available_data (2 + len)
    then (0, tail, [])
    else if ltb output_capacity len
    then (error, tail, [])
    else (len, u64 (tail + 2 + len) % capacity, copy_out buffer capacity (tail + 2) len)

-- The loop of `framed_read_delim` with `output_pos` bytes written: the bytes that it adds to
-- `output`, and `*tail`. A round takes two bytes at least, so the bytes available are enough fuel.
unfoldable pub delim_loop : ℕ → List ℕ → ℕ → ℕ → ℕ → ℕ → ℕ → List ℕ × ℕ
delim_loop zero buffer capacity head tail output_pos output_capacity = ([], tail)
delim_loop (suc fuel) buffer capacity head tail output_pos output_capacity =
    let available_data = available capacity head tail in
    let len = frame_length buffer capacity tail in
    let rest =
      delim_loop fuel buffer capacity head (u64 (tail + 2 + len) % capacity)
        (u64 (output_pos + len + 1)) output_capacity in
    if tail == head
    then ([], tail)
    else if ltb available_data 2
    then ([], tail)
    else if ltb available_data (2 + len)
    then ([], tail)
    else if ltb output_capacity (u64 (output_pos + len + 1))
    then ([], tail)
    else (copy_out buffer capacity (tail + 2) len ++ (b'\n' ∷ rest.0), rest.1)

unfoldable pub framed_read_delim : List ℕ → ℕ → ℕ → ℕ → ℕ → ℕ × ℕ × List ℕ
framed_read_delim buffer capacity head tail output_capacity =
    let r = delim_loop capacity buffer capacity head tail 0 output_capacity in
    (length r.0, r.1, r.0)

-- The loop of `copy_complete_messages`: what it adds to `contiguous_bytes`. A round takes two of
-- the remaining bytes at least, so these are enough fuel.
unfoldable pub count_loop : ℕ → List ℕ → ℕ → ℕ → ℕ → ℕ
count_loop zero buff capacity curr_pos remaining = 0
count_loop (suc fuel) buff capacity curr_pos remaining =
    let msg_len =
      if ltb (u32 (curr_pos + 1)) capacity
      then u16 (bit_or (get_or buff curr_pos 0 << 8) (get_or buff (curr_pos + 1) 0))
      else u16 (bit_or (get_or buff curr_pos 0 << 8) (get_or buff 0 0)) in
    let rest =
      count_loop fuel buff capacity (u32 (curr_pos + msg_len + 2) % capacity)
        (remaining - (msg_len + 2)) in
    if ltb remaining 2 then 0 else if ltb remaining (msg_len + 2) then 0 else msg_len + 2 + rest

-- `bytes_available`
unfoldable pub ready : ℕ → ℕ → ℕ → ℕ → ℕ
ready read_head write_head size capacity =
    if write_head == read_head
    then if ltb 0 size then capacity else 0
    else if ltb read_head write_head
    then write_head - read_head
    else u32 (sub32 capacity read_head + write_head)

-- The two calls of memcpy.
unfoldable pub copy_chunks : List ℕ → ℕ → ℕ → ℕ → ℕ → List ℕ
copy_chunks buff read_head write_head capacity contiguous_bytes =
    let first_chunk =
      if ltb read_head write_head
      then contiguous_bytes
      else min contiguous_bytes (sub32 capacity read_head) in
    take first_chunk (drop read_head buff)
    ++ (if ltb first_chunk contiguous_bytes then take (contiguous_bytes - first_chunk) buff else [])

-- -1, -2, or the number of bytes and the bytes written to `out`.
pub data Copied : Type 0 where
  bad_capacity null_pointer : Copied
  copied : ℕ → List ℕ → Copied

-- `buff` may be null, and so may `out`.
unfoldable pub copy_complete_messages : Option (List ℕ) → Bool → ℕ → ℕ → ℕ → ℕ → Copied
copy_complete_messages none out_null read_head write_head size capacity =
    if bit_and capacity (sub32 capacity 1) == 0 then bad_capacity else null_pointer
copy_complete_messages (some buff) out_null read_head write_head size capacity =
    let bytes_available = ready read_head write_head size capacity in
    let contiguous_bytes = count_loop bytes_available buff capacity read_head bytes_available in
    if bit_and capacity (sub32 capacity 1) == 0
    then bad_capacity
    else if out_null
    then null_pointer
    else if contiguous_bytes == 0
    then copied 0 []
    else copied contiguous_bytes (copy_chunks buff read_head write_head capacity contiguous_bytes)

-- `struct buffer_state`
pub record BufferState : Type 0 where
  pub read_head : ℕ
  pub write_head : ℕ
  pub size : ℕ

-- `out_capacity` is not looked at.
pub copy_messages : Option (List ℕ) → ℕ → BufferState → Bool → ℕ → Copied
unfolding copy_complete_messages
copy_messages buff capacity state out_null out_capacity =
    copy_complete_messages buff out_null state.read_head state.write_head state.size capacity
