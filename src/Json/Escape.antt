-- ===== src/Json/Escape.antt =====
-- The three functions. `printf` of a byte in four hexadecimal digits is two zeros and two digits.
use cm_dotfiles.Prelude.{
  ℕ, ◌+◌, ◌/◌, ◌%◌, List, [], ◌∷◌, ◌++◌, Option, none, some, Bool, ◌==◌, ◌||◌, ltb, leb,
  if◌then◌else◌, ◌>>=◌, length, u64,
}

-- The characters that are escaped by a letter or by themselves.
unfoldable pub is_short : ℕ → Bool
is_short c = c == b'"' || c == b'\\' || c == 8 || c == 12 || c == b'\n' || c == b'\r' || c == b'\t'

-- What the loop of `json_escape_buffer_size` adds for `c`.
unfoldable pub width : ℕ → ℕ
width c = if is_short c then 2 else if leb c 0x1F then 6 else 1

unfoldable pub size_loop : ℕ → List ℕ → ℕ
size_loop required_size [] = required_size
size_loop required_size (c ∷ cs) = size_loop (u64 (required_size + width c)) cs

unfoldable pub json_escape_buffer_size : Option (List ℕ) → ℕ
json_escape_buffer_size none = 1
json_escape_buffer_size (some input) = size_loop 1 input

-- `%x` of a digit
unfoldable pub hex_digit : ℕ → ℕ
hex_digit d = if ltb d 10 then d + b'0' else d + 87

-- What `json_escape_to_buffer` writes for `c`.
unfoldable pub escape : ℕ → List ℕ
escape c =
    if c == b'"'
    then b'\\' ∷ b'"' ∷ []
    else if c == b'\\'
    then b'\\' ∷ b'\\' ∷ []
    else if c == 8
    then b'\\' ∷ b'b' ∷ []
    else if c == 12
    then b'\\' ∷ b'f' ∷ []
    else if c == b'\n'
    then b'\\' ∷ b'n' ∷ []
    else if c == b'\r'
    then b'\\' ∷ b'r' ∷ []
    else if c == b'\t'
    then b'\\' ∷ b't' ∷ []
    else if leb c 0x1F
    then b'\\' ∷ b'u' ∷ b'0' ∷ b'0' ∷ hex_digit (c / 16) ∷ hex_digit (c % 16) ∷ []
    else c ∷ []

-- The room that the guard before each write asks for.
unfoldable pub room_for : ℕ → ℕ
room_for c =
    if c == b'"' || c == b'\\' || c == 8 || c == 12 || c == b'\n' || c == b'\r' || c == b'\t'
    then 2
    else if leb c 0x1F
    then 6
    else 1

-- The loop of `json_escape_to_buffer` and the test behind it: the bytes written from `out_pos` on,
-- before the terminator.
unfoldable pub buffer_loop : ℕ → ℕ → List ℕ → Option (List ℕ)
buffer_loop output_size out_pos [] = if leb output_size out_pos then none else some []
buffer_loop output_size out_pos (c ∷ cs) =
    let rest = buffer_loop output_size (u64 (out_pos + length (escape c))) cs in
    if leb output_size (u64 (out_pos + room_for c))
    then none
    else (rest >>= λ text. some (escape c ++ text))

-- `none` is -1; the result is the number of bytes written before the terminator, and these bytes.
unfoldable pub json_escape_to_buffer : Option (List ℕ) → Bool → ℕ → Option (ℕ × List ℕ)
json_escape_to_buffer none output_null output_size = none
json_escape_to_buffer (some input) output_null output_size =
    if output_null || output_size == 0
    then none
    else (buffer_loop output_size 0 input >>= λ text. some (length text, text))

-- What `json_escape_print` prints for `c`, by a switch of its own.
unfoldable pub print_escape : ℕ → List ℕ
print_escape c =
    if c == b'"'
    then b'\\' ∷ b'"' ∷ []
    else if c == b'\\'
    then b'\\' ∷ b'\\' ∷ []
    else if c == 8
    then b'\\' ∷ b'b' ∷ []
    else if c == 12
    then b'\\' ∷ b'f' ∷ []
    else if c == b'\n'
    then b'\\' ∷ b'n' ∷ []
    else if c == b'\r'
    then b'\\' ∷ b'r' ∷ []
    else if c == b'\t'
    then b'\\' ∷ b't' ∷ []
    else if leb c 0x1F
    then b'\\' ∷ b'u' ∷ b'0' ∷ b'0' ∷ hex_digit (c / 16) ∷ hex_digit (c % 16) ∷ []
    else c ∷ []

-- The bytes printed.
unfoldable pub print_loop : List ℕ → List ℕ
print_loop [] = []
print_loop (c ∷ cs) = print_escape c ++ print_loop cs

-- `printf` returns the number of bytes that it printed.
unfoldable pub json_escape_print : Option (List ℕ) → ℕ × List ℕ
json_escape_print none = (0, [])
json_escape_print (some input) = let text = print_loop input in (length text, text)
