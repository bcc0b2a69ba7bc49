-- ===== src/HexTools/RoundTrip.antt =====
-- htoi on the output of itoh.
use cm_dotfiles.Prelude.{
  ℕ, suc, ◌*◌, ◌/◌, ◌%◌, ◌^◌, ◌<◌, ◌≤◌, ◌≡◌, refl, ap, ◌∙◌, arith, List, [], ◌∷◌, ◌++◌, Bool, true,
  false, ltb, if◌then◌else◌, bit_and, length, length-append, AllBytes, AllBytes-take, length-take,
  take,
}
use cm_dotfiles.Prelude.Bits.{and_mask}
use cm_dotfiles.HexTools.Itoh.{print_encoded_bytes, le_bytes, be_bytes, encode}
use cm_dotfiles.HexTools.Htoi.{
  is_space, value, be_number, le_number, trim_start, join, trim_end, finish, htoi,
}
use cm_dotfiles.HexTools.Digits.{IsSeparator, hex_char_lem, read_bytes-print}
use cm_dotfiles.HexTools.Numbers.{
  be_number-be_bytes, le_number-le_bytes, be_bytes-AllBytes, le_bytes-AllBytes, length-be_bytes,
  length-le_bytes, drop-be_bytes,
}

-- No white space is trimmed off at the end.
Solid : List ℕ → Type 0
Solid s = (trim_end s ≡ s) × (0 < length s)

Solid-digit : (c : ℕ) → is_space c ≡ false → Solid (c ∷ [])
unfolding Solid trim_end join
Solid-digit c n = (rw n refl, omega arith)

Solid-cons : (c : ℕ) (s : List ℕ) → Solid s → Solid (c ∷ s)
unfolding Solid trim_end join
Solid-cons c [] solid = absurd (omega arith)
Solid-cons c (d ∷ s) solid = (rw solid.0 refl, omega arith)

Solid-append : (xs s : List ℕ) → Solid s → Solid (xs ++ s)
Solid-append [] s solid = solid
Solid-append (x ∷ xs) s solid = Solid-cons x (xs ++ s) (Solid-append xs s solid)

Solid-print :
    (bs : List ℕ) (b : ℕ) (sep : List ℕ)
    → AllBytes (b ∷ bs)
    → Solid (print_encoded_bytes sep [] (b ∷ bs))
unfolding print_encoded_bytes
Solid-print [] b sep h =
    Solid-cons _ _ (Solid-digit _ (hex_char_lem (bit_and b 15) (omega (arith, and_mask 4 b))).1)
Solid-print (c ∷ bs) b sep h =
    Solid-cons _ _ (Solid-cons _ _ (Solid-append sep _ (Solid-print bs c sep h.1)))

trim_start-print :
    (bs : List ℕ) (b : ℕ) (sep : List ℕ)
    → AllBytes (b ∷ bs)
    → trim_start (print_encoded_bytes sep [] (b ∷ bs)) ≡ print_encoded_bytes sep [] (b ∷ bs)
unfolding print_encoded_bytes trim_start
trim_start-print [] b sep h = rw (hex_char_lem (b / 16) (omega arith)).1 refl
trim_start-print (c ∷ bs) b sep h = rw (hex_char_lem (b / 16) (omega arith)).1 refl

-- The text has two characters for each byte, and more.
length-print : (bs : List ℕ) (sep : List ℕ) → length bs ≤ length (print_encoded_bytes sep [] bs)
unfolding print_encoded_bytes
length-print [] sep = omega arith
length-print (b ∷ []) sep = omega arith
length-print (b ∷ c ∷ bs) sep =
    omega
      (arith, length-print (c ∷ bs) sep, length-append sep (print_encoded_bytes sep [] (c ∷ bs)))

htoi-print :
    (bs : List ℕ) (sep : List ℕ) (trim : Bool) (width : ℕ) (le : Bool)
    → IsSeparator sep
    → AllBytes bs
    → 0 < length bs
    → length bs ≤ 8
    → length bs ≤ width
    → htoi (print_encoded_bytes sep [] bs) sep trim width le
      ≡ value (if le then le_number 0 0 bs else be_number 0 bs)
unfolding htoi Solid finish
htoi-print [] sep trim width le q h some_byte few fits = absurd (omega arith)
htoi-print (b ∷ bs) sep trim width le q h some_byte few fits =
    let text = print_encoded_bytes sep [] (b ∷ bs) in
    let solid = Solid-print bs b sep h in
    let trimmed : (if trim then trim_end (trim_start text) else text) ≡ text = trim_lem trim in
    let read =
      read_bytes-print bs b (length text) 0 sep trim q h (omega arith)
        (length-print (b ∷ bs) sep) in
    let wide : ltb width (suc (length bs)) ≡ false = ground arith in
    rw (trimmed, read.0) (ground arith)
  where
    trim_lem :
        (t : Bool)
        → (if t
            then trim_end (trim_start (print_encoded_bytes sep [] (b ∷ bs)))
            else print_encoded_bytes sep [] (b ∷ bs))
          ≡ print_encoded_bytes sep [] (b ∷ bs)
    trim_lem true = rw (trim_start-print bs b sep h) (Solid-print bs b sep h).0
    trim_lem false = refl

-- htoi reads back what itoh prints, in either byte order: the number modulo 256 ^ width. It may be
-- given any width from itoh's on, trim white space or not, and the two have the same separator,
-- which is empty or begins with no hexadecimal digit; itoh has no prefix before the bytes.
pub htoi-encode :
    (n width width' : ℕ) (le trim : Bool) (sep : List ℕ)
    → 1 ≤ width
    → width ≤ 8
    → width ≤ width'
    → IsSeparator sep
    → htoi (encode n le width sep []) sep trim width' le ≡ value (n % 2 ^ (8 * width))
unfolding encode
htoi-encode n width width' true trim sep least most wider q =
    let size : length (take width (le_bytes 8 n)) ≡ width =
      omega (arith, length-take width (le_bytes 8 n), length-le_bytes 8 n) in
    htoi-print (take width (le_bytes 8 n)) sep trim width' true q
      (AllBytes-take width (le_bytes 8 n) (le_bytes-AllBytes 8 n)) (omega arith) (omega arith)
      (omega arith)
    ∙ ap value (le_number-le_bytes n width most)
htoi-encode n width width' false trim sep least most wider q =
    let size = length-be_bytes width n in
    rw (drop-be_bytes n width 8 most) (
      htoi-print (be_bytes width n) sep trim width' false q (be_bytes-AllBytes width n)
        (omega arith) (omega arith) (omega arith)
      ∙ ap value (be_number-be_bytes n width most))
