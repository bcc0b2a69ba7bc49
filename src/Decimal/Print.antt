-- ===== src/Decimal/Print.antt =====
-- intfuncs.c and int_conv.c: the decimal texts of machine integers. A signed number is the word of
-- its bits, and what is written backwards from the end of a buffer is the list of these bytes.
use cm_dotfiles.Prelude.{
  ℕ, zero, suc, Option, none, some, ◌==◌, ◌+◌, ◌-◌, ◌*◌, ◌/◌, ◌%◌, ◌^◌, Bool, List, [], ◌∷◌, ◌++◌,
  ltb, leb, if◌then◌else◌, codes, length, get_or, set, u32, u64, sub64, sub32,
}

-- The digits of 0 to 99, two each. `pairs` of int_conv.c has the same bytes.
abbrev pub lut : List ℕ
lut =
    codes
      "00010203040506070809101112131415161718192021222324252627282930313233343536373839404142434445464748495051525354555657585960616263646566676869707172737475767778798081828384858687888990919293949596979899"

abbrev pub is_negative32 : ℕ → Bool
is_negative32 v = leb (2 ^ 31) v

abbrev pub is_negative64 : ℕ → Bool
is_negative64 v = leb (2 ^ 63) v

-- The bytes at an even index and behind it.
unfoldable pub pair_high : ℕ → ℕ
pair_high r = get_or lut (r * 2) 0

unfoldable pub pair_low : ℕ → ℕ
pair_low r = get_or lut (r * 2 + 1) 0

-- The loop of the printers that write backwards, with what is written. A round takes two digits off,
-- and no number of 64 bits has more than twenty.
unfoldable pub pairs_loop : ℕ → ℕ → List ℕ → List ℕ
unfolding pair_high pair_low
pairs_loop zero v p = p
pairs_loop (suc n) v p =
    let rest = pairs_loop n (v / 100) (pair_high (v % 100) ∷ pair_low (v % 100) ∷ p) in
    if leb 100 v then rest else if leb 10 v then pair_high v ∷ pair_low v ∷ p else (b'0' + v) ∷ p

abbrev pub rounds : ℕ
rounds = 10

unfoldable pub gga_to_str_u32 : ℕ → List ℕ
unfolding pairs_loop
gga_to_str_u32 value = pairs_loop rounds value []

-- `-value` is no int32_t for the least one, and C leaves it open: none.
unfoldable pub gga_to_str_i32 : ℕ → Option (List ℕ)
unfolding gga_to_str_u32
gga_to_str_i32 value =
    if is_negative32 value
    then if value == 2 ^ 31 then none else some (b'-' ∷ gga_to_str_u32 (sub32 0 value))
    else some (gga_to_str_u32 value)

unfoldable pub gga_to_str_u64 : ℕ → List ℕ
unfolding pairs_loop
gga_to_str_u64 value = pairs_loop rounds value []

unfoldable pub gga_to_str_i64 : ℕ → Option (List ℕ)
unfolding gga_to_str_u64
gga_to_str_i64 value =
    if is_negative64 value
    then if value == 2 ^ 63 then none else some (b'-' ∷ gga_to_str_u64 (sub64 0 value))
    else some (gga_to_str_u64 value)

-- The loop of `hx_u64_to_str`, which takes the remainder by a subtraction.
unfoldable pub hx_loop : ℕ → ℕ → List ℕ → List ℕ
unfolding pair_high pair_low
hx_loop zero v p = p
hx_loop (suc n) v p =
    let q = v / 100 in
    let r = u32 (sub64 v (u64 (q * 100))) in
    let rest = hx_loop n q (pair_high r ∷ pair_low r ∷ p) in
    if leb 100 v then rest else if ltb v 10 then (b'0' + v) ∷ p else pair_high v ∷ pair_low v ∷ p

-- The text, and its length as the function returns it.
unfoldable pub hx_u64_to_str : ℕ → List ℕ × ℕ
unfolding hx_loop
hx_u64_to_str v = let p = hx_loop rounds v [] in (p, length p)

unfoldable pub hx_u32_to_str : ℕ → List ℕ × ℕ
unfolding hx_u64_to_str
hx_u32_to_str v = hx_u64_to_str v

unfoldable pub hx_i32_to_str : ℕ → List ℕ × ℕ
unfolding hx_u32_to_str
hx_i32_to_str x =
    let r = hx_u32_to_str (sub32 0 x) in
    if is_negative32 x then (b'-' ∷ r.0, r.1 + 1) else hx_u32_to_str x

-- The digits as `int_to_str` writes them first, the last one in front.
unfoldable pub backwards : ℕ → ℕ → List ℕ
unfolding pair_high pair_low
backwards zero n = []
backwards (suc k) n =
    let rest = backwards k (n / 100) in
    if leb 100 n
    then pair_low (n % 100) ∷ pair_high (n % 100) ∷ rest
    else if leb 10 n
    then pair_low n ∷ pair_high n ∷ []
    else (b'0' + n) ∷ []

-- The loop that turns the bytes from `p` up to `q` round. A round brings the two nearer.
unfoldable pub swap_loop : ℕ → List ℕ → ℕ → ℕ → List ℕ
swap_loop zero buf p q = buf
swap_loop (suc k) buf p q =
    let rest = swap_loop k (set (set buf p (get_or buf q 0)) q (get_or buf p 0)) (p + 1) (q - 1) in
    if ltb p q then rest else buf

unfoldable pub int_to_str : ℕ → List ℕ × ℕ
unfolding backwards swap_loop
int_to_str num =
    let digits = backwards rounds (if is_negative32 num then sub32 0 num else num) in
    let sign = if is_negative32 num then b'-' ∷ [] else [] in
    let written = sign ++ digits in
    let idx = length written in (swap_loop idx written (length sign) (idx - 1), idx)
