-- ===== src/Json/Decode.antt =====
-- A reader of JSON strings, the reference for the escaped text of json.c.
use cm_dotfiles.Prelude.{
  ℕ, zero, suc, ◌+◌, ◌-◌, ◌*◌, ◌/◌, ◌%◌, ◌<◌, ◌≤◌, ◌≡◌, refl, ◌∙◌, arith, List, [], ◌∷◌, ◌++◌,
  Option, none, some, true, false, ◌==◌, ◌||◌, ◌&&◌, ltb, leb, if◌then◌else◌, ◌>>=◌, Bool-cases,
  inl, inr,
}
use native.Mathlib.Decide.{dec_lt}
use cm_dotfiles.Json.Escape.{print_escape, hex_digit, print_loop, json_escape_print, is_short}

-- Where a reader stands: between characters, behind a backslash, or in the digits of a `\u` with
-- `left` digits to come behind the next, and the value of those before.
pub data Mode : Type 0 where
  plain escaped : Mode
  digits : (left value : ℕ) → Mode

pub digit_value : ℕ → Option ℕ
digit_value c =
    if leb b'0' c && leb c b'9'
    then some (c - b'0')
    else if leb b'a' c && leb c b'f'
    then some (c - 87)
    else if leb b'A' c && leb c b'F'
    then some (c - 55)
    else none

-- The character that a letter behind a backslash stands for.
pub named : ℕ → Option ℕ
named c =
    if c == b'"' || c == b'\\' || c == b'/'
    then some c
    else if c == b'b'
    then some 8
    else if c == b'f'
    then some 12
    else if c == b'n'
    then some b'\n'
    else if c == b'r'
    then some b'\r'
    else if c == b't'
    then some b'\t'
    else none

-- The inside of a JSON string as RFC 8259 reads it, `none` if it may not stand there. A `\u` above
-- 127 is refused too: its bytes depend on an encoding.
pub read : Mode → List ℕ → Option (List ℕ)
unfolding digit_value named
read plain [] = some []
read plain (c ∷ cs) =
    let next = read plain cs in
    let special = read escaped cs in
    if c == b'\\'
    then special
    else if c == b'"' || ltb c 32
    then none
    else (next >>= λ text. some (c ∷ text))
read escaped [] = none
read escaped (c ∷ cs) =
    let next = read plain cs in
    let unicode = read (digits 3 0) cs in
    if c == b'u' then unicode else (named c >>= λ v. next >>= λ text. some (v ∷ text))
read (digits left value) [] = none
read (digits zero value) (c ∷ cs) =
    let next = read plain cs in
    digit_value c >>= λ d.
    if ltb (value * 16 + d) 128 then (next >>= λ text. some ((value * 16 + d) ∷ text)) else none
read (digits (suc left) value) (c ∷ cs) =
    digit_value c >>= λ d. read (digits left (value * 16 + d)) cs

digit_value-hex_digit : (d : ℕ) → d < 16 → digit_value (hex_digit d) ≡ some d
unfolding digit_value hex_digit
digit_value-hex_digit d h = ground arith

-- A control character without a letter of its own.
read-unicode :
    (c : ℕ) (cs : List ℕ)
    → c < 32
    → read plain (b'\\' ∷ b'u' ∷ b'0' ∷ b'0' ∷ hex_digit (c / 16) ∷ hex_digit (c % 16) ∷ cs)
      ≡ (read plain cs >>= λ text. some (c ∷ text))
unfolding read named
read-unicode c cs h =
    let whole : (0 + c / 16) * 16 + c % 16 ≡ c = omega arith in
    let ascii : ltb c 128 ≡ true = ground arith in
    rw
      (
        digit_value-hex_digit (c / 16) (omega arith),
        digit_value-hex_digit (c % 16) (omega arith),
        whole,
        ascii,
      )
      refl

-- The letter behind the backslash.
letter : ℕ → ℕ
letter c =
    if c == 8
    then b'b'
    else if c == 12
    then b'f'
    else if c == b'\n'
    then b'n'
    else if c == b'\r'
    then b'r'
    else if c == b'\t'
    then b't'
    else c

escape_short : (c : ℕ) → is_short c ≡ true → print_escape c ≡ b'\\' ∷ letter c ∷ []
unfolding print_escape is_short letter
escape_short c h = ground arith

escape_control :
    (c : ℕ)
    → is_short c ≡ false
    → c < 32
    → print_escape c ≡ b'\\' ∷ b'u' ∷ b'0' ∷ b'0' ∷ hex_digit (c / 16) ∷ hex_digit (c % 16) ∷ []
unfolding print_escape is_short
escape_control c h lt = ground arith

escape_other :
    (c : ℕ)
    → is_short c ≡ false
    → 32 ≤ c
    → (print_escape c ≡ c ∷ []) × ((c == b'\\') ≡ false) × ((c == b'"' || ltb c 32) ≡ false)
unfolding print_escape is_short
escape_other c h le = ground arith

named-letter :
    (c : ℕ) → is_short c ≡ true → (named (letter c) ≡ some c) × ((letter c == b'u') ≡ false)
unfolding named is_short letter
named-letter c h = ground arith

read-print_escape :
    (c : ℕ) (cs : List ℕ)
    → read plain (print_escape c ++ cs) ≡ (read plain cs >>= λ text. some (c ∷ text))
read-print_escape c cs = elim (Bool-cases (is_short c)) [
  | inl short ↦
      let (back, not_u) = named-letter c short in
      rw (escape_short c short) (unfold read in rw (not_u, back) refl)
  | inr long ↦ elim (dec_lt c 32) [
    | yes control ↦ rw (escape_control c long control) (read-unicode c cs control)
    | no other ↦
        let (same, no_slash, allowed) = escape_other c long (omega arith) in
        rw same (unfold read in rw (no_slash, allowed) refl)
  ]
]

read-print_loop : (cs : List ℕ) → read plain (print_loop cs) ≡ some cs
unfolding print_loop
read-print_loop [] = unfold read in refl
read-print_loop (c ∷ cs) = read-print_escape c (print_loop cs) ∙ rw (read-print_loop cs) refl

-- A reader of JSON strings reads the text that `json_escape_print` prints, of any bytes, and gets
-- these bytes. So the text has no control character and no quote that would end the string.
pub read-json_escape_print :
    (input : List ℕ) → read plain (json_escape_print (some input)).1 ≡ some input
unfolding json_escape_print
read-json_escape_print input = read-print_loop input
