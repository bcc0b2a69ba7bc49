-- ===== src/CuteId/Text/RoundTrip.antt =====
-- `uuid_format` and `uuid_parse` of cuteid.h, one after the other.
use cm_dotfiles.Prelude.{
  ℕ, suc, ◌+◌, ◌/◌, ◌%◌, ◌≤◌, ◌<◌, ◌≡◌, List, [], ◌∷◌, ◌++◌, Option, none, some, length, get_or,
  AllBytes, Bool, true, false, ◌&&◌, ◌==◌, ltb, leb, bit_and, ◌>>◌, refl, ap, ◌∙◌, arith, ◌⊎◌, inl,
  inr, Bool-cases, ==_iff,
}
use cm_dotfiles.Prelude.Finite.{all_below, all_below_at}
use cm_dotfiles.Prelude.Bits.{and_mask, or_fields}
use cm_dotfiles.CuteId.Uuid.{Uuid, IsUuid}
use cm_dotfiles.CuteId.Text.{
  hexv, is_lead, is_trail, skip, parse_loop, uuid_parse, hex, grp, format_loop, uuid_format,
}

abbrev pub All : (ℕ → Bool) → List ℕ → Type 0
All p [] = Unit {0}
All p (c ∷ s) = (p c ≡ true) × All p s

is_value : Option ℕ → ℕ → Bool
is_value none d = false
is_value (some v) d = v == d

is_value_sound : (o : Option ℕ) (d : ℕ) → is_value o d ≡ true → o ≡ some d
unfolding is_value
is_value_sound none d h = cc
is_value_sound (some v) d h = ap some ((==_iff v d).0 h)

and-true : {a b : Bool} → (a && b) ≡ true → (a ≡ true) × (b ≡ true)
and-true h = ground arith

leb→le : (a b : ℕ) → leb a b ≡ true → a ≤ b
leb→le a b h = ground arith

digit_table :
    all_below 16 (λ d. is_value (hexv (get_or hex d 0)) d && leb b'0' (get_or hex d 0)) ≡ true
unfolding all_below hexv is_value
digit_table = refl

-- The character of a digit has its value, and is above every hyphen and blank.
digit_lem : (d : ℕ) → d < 16 → (hexv (get_or hex d 0) ≡ some d) × (b'0' ≤ get_or hex d 0)
digit_lem d h =
    let both = all_below_at 16 _ d digit_table h in
    (is_value_sound _ d (and-true both).0, leb→le _ _ (and-true both).1)

-- Where the loop of `uuid_format` stands, with `left` bytes to write: the groups to come and the
-- rest of this one.
abbrev pub Stands : ℕ → ℕ → ℕ → Type 0
Stands gi gc left =
    ((gi ≡ 0) × (gc < 4) × (left + gc ≡ 16))
    ⊎ ((gi ≡ 1) × (gc < 2) × (left + gc ≡ 12))
    ⊎ ((gi ≡ 2) × (gc < 2) × (left + gc ≡ 10))
    ⊎ ((gi ≡ 3) × (gc < 2) × (left + gc ≡ 8))
    ⊎ ((gi ≡ 4) × (left + gc ≡ 6))

not_hyphen : (c : ℕ) → b'0' ≤ c → (c == b'-') ≡ false
not_hyphen c h = ground arith

-- One byte of the text, and what follows it.
parse_byte :
    (k b : ℕ) (s bs rest : List ℕ)
    → b < 256
    → parse_loop k s ≡ some (bs, rest)
    → parse_loop (suc k) (get_or hex (b >> 4) 0 ∷ get_or hex (bit_and b 0xF) 0 ∷ s)
      ≡ some (b ∷ bs, rest)
unfolding parse_loop
parse_byte k b s bs rest h ih =
    let hi = digit_lem (b / 16) (omega arith) in
    let lo = digit_lem (b % 16) (omega arith) in
    rw
      (not_hyphen _ hi.1, hi.0, and_mask 4 b, lo.0, ih, or_fields 4 (b / 16) (b % 16) (omega arith))
      (ground arith)

-- A hyphen before the next byte is skipped.
parse_hyphen :
    (hyphens : Bool) (gi gc : ℕ) (bs rest : List ℕ)
    → 0 < length bs
    → parse_loop (length bs) (b'-' ∷ (format_loop hyphens gi gc bs ++ rest))
      ≡ parse_loop (length bs) (format_loop hyphens gi gc bs ++ rest)
unfolding parse_loop format_loop
parse_hyphen hyphens gi gc [] rest h = absurd (omega arith)
parse_hyphen hyphens gi gc (b ∷ bs) rest h = refl

-- Whether a group ends with this byte.
abbrev pub ends : ℕ → ℕ → Bool
ends gi gc = gc + 1 == get_or grp gi 0 && ltb gi 4

pub Stands-end :
    (gi gc left : ℕ)
    → Stands gi gc (suc left)
    → ends gi gc ≡ true
    → Stands (gi + 1) 0 left × (0 < left)
Stands-end gi gc left (inl (g, few, n)) e =
    let e' = rw g at e in (inr (inl (ground arith)), ground arith)
Stands-end gi gc left (inr (inl (g, few, n))) e =
    let e' = rw g at e in (inr (inr (inl (ground arith))), ground arith)
Stands-end gi gc left (inr (inr (inl (g, few, n)))) e =
    let e' = rw g at e in (inr (inr (inr (inl (ground arith)))), ground arith)
Stands-end gi gc left (inr (inr (inr (inl (g, few, n))))) e =
    let e' = rw g at e in (inr (inr (inr (inr (ground arith)))), ground arith)
Stands-end gi gc left (inr (inr (inr (inr (g, n))))) e = let e' = rw g at e in absurd (ground arith)

pub Stands-on :
    (gi gc left : ℕ) → Stands gi gc (suc left) → ends gi gc ≡ false → Stands gi (gc + 1) left
Stands-on gi gc left (inl (g, few, n)) e = let e' = rw g at e in inl (ground arith)
Stands-on gi gc left (inr (inl (g, few, n))) e = let e' = rw g at e in inr (inl (ground arith))
Stands-on gi gc left (inr (inr (inl (g, few, n)))) e =
    let e' = rw g at e in inr (inr (inl (ground arith)))
Stands-on gi gc left (inr (inr (inr (inl (g, few, n))))) e =
    let e' = rw g at e in inr (inr (inr (inl (ground arith))))
Stands-on gi gc left (inr (inr (inr (inr (g, n))))) e = inr (inr (inr (inr (omega arith))))

-- Without hyphens the text is the digits.
parse_plain :
    (gi gc : ℕ) (bs rest : List ℕ)
    → AllBytes bs
    → parse_loop (length bs) (format_loop false gi gc bs ++ rest) ≡ some (bs, rest)
unfolding format_loop
parse_plain gi gc [] rest h = unfold parse_loop in refl
parse_plain gi gc (b ∷ bs) rest h =
    parse_byte (length bs) b _ bs rest h.0 (parse_plain gi (gc + 1) bs rest h.1)

parse_hyphenated :
    (gi gc : ℕ) (bs rest : List ℕ)
    → AllBytes bs
    → Stands gi gc (length bs)
    → parse_loop (length bs) (format_loop true gi gc bs ++ rest) ≡ some (bs, rest)
unfolding format_loop
parse_hyphenated gi gc [] rest h st = unfold parse_loop in refl
parse_hyphenated gi gc (b ∷ bs) rest h st = elim (Bool-cases (ends gi gc)) [
  | inl e ↦
      let next = Stands-end gi gc (length bs) st e in
      rw e (
        parse_byte (length bs) b _ bs rest h.0 (
          parse_hyphen true (gi + 1) 0 bs rest next.1
          ∙ parse_hyphenated (gi + 1) 0 bs rest h.1 next.0))
  | inr e ↦ rw e (
      parse_byte (length bs) b _ bs rest h.0
        (parse_hyphenated gi (gc + 1) bs rest h.1 (Stands-on gi gc (length bs) st e)))
]

skip-append : (p : ℕ → Bool) (s t : List ℕ) → All p s → skip p (s ++ t) ≡ skip p t
unfolding skip
skip-append p [] t h = refl
skip-append p (c ∷ s) t (pc, h) = rw pc (skip-append p s t h)

skip-All : (p : ℕ → Bool) (s : List ℕ) → All p s → skip p s ≡ []
unfolding skip
skip-All p [] h = refl
skip-All p (c ∷ s) (pc, h) = rw pc (skip-All p s h)

-- The text starts with a digit, so nothing of it is taken for a blank.
skip-format_loop :
    (hyphens : Bool) (bs rest : List ℕ)
    → AllBytes bs
    → 0 < length bs
    → skip is_lead (format_loop hyphens 0 0 bs ++ rest) ≡ format_loop hyphens 0 0 bs ++ rest
unfolding skip format_loop
skip-format_loop hyphens [] rest h n = absurd (omega arith)
skip-format_loop hyphens (b ∷ bs) rest h n = rw (not_lead _ (digit_lem (b / 16) (omega arith)).1)
  where
    not_lead : (c : ℕ) → b'0' ≤ c → is_lead c ≡ false
    not_lead c h = unfold is_lead in ground arith

parse_text :
    (hyphens : Bool) (n : ℕ) (bs rest : List ℕ)
    → AllBytes bs
    → length bs ≡ n
    → n ≡ 16
    → parse_loop n (format_loop hyphens 0 0 bs ++ rest) ≡ some (bs, rest)
parse_text false n bs rest h e m = rw (← e) (parse_plain 0 0 bs rest h)
parse_text true n bs rest h e m = rw (← e) (parse_hyphenated 0 0 bs rest h (inl (omega arith)))

-- The text of a uuid of sixteen bytes, with or without hyphens, with spaces and tabs before it and
-- white space behind it, is parsed to that uuid.
pub uuid_parse-uuid_format :
    (u : Uuid) (hyphens : Bool) (lead trail : List ℕ)
    → IsUuid u
    → All is_lead lead
    → All is_trail trail
    → uuid_parse (lead ++ ((uuid_format u hyphens).1 ++ trail)) ≡ some u
unfolding uuid_parse uuid_format
uuid_parse-uuid_format u hyphens lead trail v l t =
    rw
      (
        skip-append is_lead lead (format_loop hyphens 0 0 u.b ++ trail) l,
        skip-format_loop hyphens u.b trail v.bytes (omega arith),
        parse_text hyphens 16 u.b trail v.bytes v.sixteen refl,
        skip-All is_trail trail t,
        v.sixteen,
      )
      refl
