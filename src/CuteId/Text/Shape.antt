-- ===== src/CuteId/Text/Shape.antt =====
-- How long the text of a uuid is, and what `uuid_parse` stores.
use cm_dotfiles.Prelude.{
  ℕ, zero, suc, ◌+◌, ◌*◌, ◌≤◌, ◌≡◌, List, [], ◌∷◌, Option, none, some, length, AllBytes, Bool, true,
  false, ◌&&◌, if◌then◌else◌, ◌>>=◌, ◌==◌, u8, bit_or, ◌<<◌, refl, arith, inl, inr, Bool-cases,
}
use mathlib.Core.Path.{subst}
use mathlib.Core.Option.{some-injective}
use cm_dotfiles.CuteId.Uuid.{Uuid, IsUuid}
use cm_dotfiles.CuteId.Text.{
  hexv, is_lead, is_trail, skip, parse_loop, at_end, uuid_parse, format_loop, uuid_format,
}
use cm_dotfiles.CuteId.Text.RoundTrip.{Stands, ends, Stands-end, Stands-on}

length_plain : (gi gc : ℕ) (bs : List ℕ) → length (format_loop false gi gc bs) ≡ 2 * length bs
unfolding format_loop
length_plain gi gc [] = refl
length_plain gi gc (b ∷ bs) = omega (arith, length_plain gi (gc + 1) bs)

length_hyphenated :
    (gi gc : ℕ) (bs : List ℕ)
    → Stands gi gc (length bs)
    → length (format_loop true gi gc bs) + gi ≡ 2 * length bs + 4
unfolding format_loop
length_hyphenated gi gc [] st = ground arith
length_hyphenated gi gc (b ∷ bs) st = elim (Bool-cases (ends gi gc)) [
  | inl e ↦
      rw e (omega (arith, length_hyphenated (gi + 1) 0 bs (Stands-end gi gc (length bs) st e).0))
  | inr e ↦
      rw e (omega (arith, length_hyphenated gi (gc + 1) bs (Stands-on gi gc (length bs) st e)))
]

-- The text of a uuid of sixteen bytes has 36 characters with hyphens and 32 without, and the
-- result counts them.
pub uuid_format-length :
    (u : Uuid) (hyphens : Bool)
    → IsUuid u
    → ((uuid_format u hyphens).0 ≡ length (uuid_format u hyphens).1)
      × ((uuid_format u hyphens).0 ≡ (if hyphens then 36 else 32))
unfolding uuid_format
uuid_format-length u true v = (refl, omega (arith, length_hyphenated 0 0 u.b (inl (omega arith))))
uuid_format-length u false v = (refl, omega (arith, length_plain 0 0 u.b))

-- What the loop stores, if it does not fail, are bytes, at most as many as are missing.
abbrev Stores : ℕ → Option (List ℕ × List ℕ) → Type 0
Stores k none = Unit {0}
Stores k (some r) = AllBytes r.0 × (length r.0 ≤ k)

Stores-byte :
    (k : ℕ) (h l : Option ℕ) (o : Option (List ℕ × List ℕ))
    → Stores k o
    → Stores (suc k) (h >>= λ x. l >>= λ y. o >>= λ r. some (u8 (bit_or (x << 4) y) ∷ r.0, r.1))
Stores-byte k none l o p = tt
Stores-byte k (some x) none o p = tt
Stores-byte k (some x) (some y) none p = tt
Stores-byte k (some x) (some y) (some r) p = ((omega arith, p.0), omega arith)

parse_loop-Stores : (k : ℕ) (s : List ℕ) → Stores k (parse_loop k s)
unfolding parse_loop
parse_loop-Stores zero s = (tt, omega arith)
parse_loop-Stores (suc k) [] = (tt, omega arith)
parse_loop-Stores (suc k) (c ∷ []) = elim (Bool-cases (c == b'-')) [
  | inl e ↦ rw e (tt, omega arith)
  | inr e ↦ rw e tt
]
parse_loop-Stores (suc k) (c ∷ d ∷ s) = elim (Bool-cases (c == b'-')) [
  | inl e ↦ rw e (parse_loop-Stores (suc k) (d ∷ s))
  | inr e ↦ rw e (Stores-byte k (hexv c) (hexv d) (parse_loop k s) (parse_loop-Stores k s))
]

-- What `uuid_parse` accepts is a uuid of sixteen bytes.
pub uuid_parse-IsUuid : (s : List ℕ) {u : Uuid} → uuid_parse s ≡ some u → IsUuid u
unfolding uuid_parse
uuid_parse-IsUuid s {u} e =
    stored (parse_loop 16 (skip is_lead s)) (parse_loop-Stores 16 (skip is_lead s)) e
  where
    stored :
        (o : Option (List ℕ × List ℕ))
        → Stores 16 o
        → (o >>= λ r.
            if length r.0 == 16 && at_end (skip is_trail r.1)
            then some (record { b = r.0 })
            else none)
          ≡ some u
        → IsUuid u
    stored none p e = cc
    stored (some r) p e = elim (Bool-cases (length r.0 == 16 && at_end (skip is_trail r.1))) [
      | inl full ↦
          subst IsUuid (some-injective (record { b = r.0 }) u (rw full at e))
            (record { sixteen = ground arith; bytes = p.0 })
      | inr short ↦ let e' = rw short at e in cc
    ]
