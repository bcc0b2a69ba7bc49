-- ===== src/Scenario/Values.antt =====
-- The values of toml.c: literals, which are unescaped where they stand, arrays of them, and
-- identifiers. A failure is `none`, for the file is then given up with its buffer.
pub mod Strings
pub mod Labels
pub mod Arrays
pub mod Quoted
pub mod Refused
pub mod Rounds
use cm_dotfiles.Prelude.{
  ℕ, zero, suc, ◌+◌, ◌-◌, List, Option, none, some, Bool, ◌==◌, ◌&&◌, ◌||◌, ◌>>=◌, leb, ltb,
  if◌then◌else◌, set, not,
}
use cm_dotfiles.Scenario.Text.{at, skip_spaces, trim_left, trim_right, scan_to}
use cm_dotfiles.Scenario.Types.{max_labels, Scenario, Read}

abbrev pub is_escapable : ℕ → Bool
is_escapable c = c == b'"' || c == b'\\'

-- Behind the quote that ends the literal only white space may stand.
unfoldable pub close_literal : List ℕ → ℕ → ℕ → ℕ → Option (List ℕ)
unfolding skip_spaces
close_literal buf p w end =
    if skip_spaces (end - (p + 1)) buf (p + 1) == end then some (set buf w 0) else none

-- The loop, which reads at `p` and writes at `w`. A round takes a byte at least, so that as many
-- rounds as there are bytes are enough.
unfoldable pub literal_loop : ℕ → List ℕ → ℕ → ℕ → ℕ → Option (List ℕ)
unfolding close_literal
literal_loop zero buf p w end = none
literal_loop (suc n) buf p w end =
    let escaped = literal_loop n (set buf w (at buf (p + 1))) (p + 2) (w + 1) end in
    let plain = literal_loop n (set buf w (at buf p)) (p + 1) (w + 1) end in
    if leb end p
    then none
    else if at buf p == b'\\'
    then (if leb end (p + 1) then none else if is_escapable (at buf (p + 1)) then escaped else none)
    else if at buf p == b'"'
    then close_literal buf p w end
    else plain

unfoldable pub parse_string_literal : List ℕ → ℕ → ℕ → Option (Read ℕ)
unfolding literal_loop
parse_string_literal buf start end =
    if leb end start
    then none
    else if not (at buf start == b'"')
    then none
    else literal_loop (end - start) buf (start + 1) (start + 1) end >>= λ written.
        some (record { buf = written; result = start + 1 })

-- A literal, or else the bytes as they are, with a NUL behind them.
unfoldable pub literal_or_ident : List ℕ → ℕ → ℕ → Option (Read ℕ)
unfolding parse_string_literal
literal_or_ident buf start end =
    if at buf start == b'"' && ltb (start + 1) end && at buf (end - 1) == b'"'
    then parse_string_literal buf start end
    else some (record { buf = set buf end 0; result = start })

unfoldable pub parse_value_string_or_ident : List ℕ → ℕ → ℕ → Option (Read ℕ)
unfolding trim_left trim_right literal_or_ident
parse_value_string_or_ident buf start end =
    let val_start = trim_left buf start end in
    let val_end = trim_right buf val_start end in
    if leb val_end val_start then none else literal_or_ident buf val_start val_end

abbrev pub push_label : Scenario → ℕ → Scenario
push_label sc s = record sc {
  labels = set sc.labels sc.label_count (some s);
  label_count = sc.label_count + 1;
}

-- The element before `elem`.
unfoldable pub array_element : List ℕ → Scenario → ℕ → ℕ → Option (Read Scenario)
unfolding literal_or_ident
array_element buf sc start end =
    if leb end start
    then none
    else if leb max_labels sc.label_count
    then none
    else literal_or_ident buf start end >>= λ r.
        some (record { buf = r.buf; result = push_label sc r.result })

-- Behind the bracket that ends the array only white space may stand.
unfoldable pub close_array : List ℕ → ℕ → ℕ → ℕ → Option ℕ
unfolding trim_left
close_array buf p end count = if trim_left buf (p + 1) end == end then some count else none

abbrev pub is_separator : ℕ → Bool
is_separator c = c == b',' || c == b']'

-- The ends of the element at `p`, white space left out.
unfoldable pub element_end : List ℕ → ℕ → ℕ → ℕ
unfolding scan_to trim_left trim_right
element_end buf p end =
    let stop = scan_to is_separator buf p end in trim_right buf (trim_left buf p stop) stop

unfoldable pub element_start : List ℕ → ℕ → ℕ → ℕ
unfolding scan_to trim_left
element_start buf p end = trim_left buf p (scan_to is_separator buf p end)

-- What the loop ends with: the buffer, the scenario, and the number of labels read.
abbrev pub Labels : Type 0
Labels = Read Scenario × ℕ

abbrev pub with_labels : List ℕ → Scenario → ℕ → Labels
with_labels buf sc count = (record { buf = buf; result = sc }, count)

-- Behind an element, at `q`: a comma and the rest of the loop, or the end.
unfoldable pub behind_element : ℕ → Read Scenario → ℕ → ℕ → (ℕ → Option Labels) → Option Labels
unfolding close_array
behind_element end r q count loop =
    if leb end q
    then none
    else if at r.buf q == b','
    then loop (q + 1)
    else if at r.buf q == b']'
    then (close_array r.buf q end count >>= λ n. some (r, n))
    else none

-- A round reads an element, which takes a byte at least.
unfoldable pub array_loop : ℕ → List ℕ → Scenario → ℕ → ℕ → ℕ → Option Labels
unfolding trim_left close_array element_start element_end array_element behind_element
array_loop zero buf sc p end count = none
array_loop (suc n) buf sc p end count =
    let start = trim_left buf p end in
    let stop = element_end buf start end in
    let rest = array_element buf sc (element_start buf start end) stop >>= λ r.
    behind_element end r (trim_left r.buf stop end) (count + 1)
      (λ q. array_loop n r.buf r.result q end (count + 1)) in
    if leb end start
    then none
    else if at buf start == b']'
    then (close_array buf start end count >>= λ k. some (with_labels buf sc k))
    else rest

-- With the label at which the array starts, and the number of its labels.
unfoldable pub parse_string_array : List ℕ → Scenario → ℕ → ℕ → Option (Read Scenario × ℕ × ℕ)
unfolding array_loop
parse_string_array buf sc start end =
    if at buf start == b'['
    then (array_loop (end + 1 - start) buf sc (start + 1) end 0 >>= λ r.
        some (r.0, sc.label_count, r.1))
    else none
