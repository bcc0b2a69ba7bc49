-- ===== src/CuteId/Fields/RoundTrip.antt =====
-- `cuteid_decode` against `cuteid_encode`, both ways.
use cm_dotfiles.Prelude.{ℕ, ◌+◌, ◌*◌, ◌/◌, ◌%◌, ◌^◌, ◌<◌, ◌≡◌, sym, ap₂, ◌∙◌, arith, get_or}
use mathlib.Core.Path.{subst}
use cm_dotfiles.Prelude.Bits.{and_mask, or_fields}
use cm_dotfiles.CuteId.Uuid.{Uuid, IsUuid, uuid_version, uuid_variant, variant_of_byte}
use cm_dotfiles.CuteId.Words.{
  be_word-be_bytes, of_words, of_words-Layout, words_of_uuid, variant_of_byte_lem,
}
use cm_dotfiles.CuteId.Fields.{
  CuteidFields, encode_hi, encode_lo, decode_words, cuteid_encode, cuteid_decode,
}

-- The ranges that the members' types give.
pub record InRange (f : CuteidFields) : Type 0 where
  pub process_handle : f.process_handle < 2 ^ 32
  pub alert_handle : f.alert_handle < 2 ^ 32

-- The high word as a sum of its fields.
encode_hi_lem :
    (f : CuteidFields)
    → InRange f
    → encode_hi f
      ≡ f.start_time % 2 ^ 42 * 2 ^ 22
        + f.server_id % 16 * 2 ^ 18
        + f.schema % 16 / 4 * 2 ^ 16
        + 8 * 2 ^ 12
        + f.schema % 4 * 2 ^ 10
        + f.process_handle / 2 ^ 30
unfolding encode_hi
encode_hi_lem f r =
    let ts = f.start_time % 2 ^ 42 in
    let sid = f.server_id % 16 in
    let sch = f.schema % 16 in
    let a = ts * 64 + sid * 4 + sch / 4 in
    rw
      (
        and_mask 42 f.start_time,
        and_mask 4 f.server_id,
        and_mask 4 f.schema,
        and_mask 2 sch,
        and_mask 2 (f.process_handle / 2 ^ 30),
      )
      (ground (
        arith,
        or_fields 6 ts (sid * 4),
        or_fields 2 (ts * 16 + sid) (sch / 4),
        or_fields 16 a (8 * 2 ^ 12),
        or_fields 10 (sch % 4) (f.process_handle / 2 ^ 30 % 4),
        or_fields 12 (a * 16 + 8) (sch % 4 * 2 ^ 10 + f.process_handle / 2 ^ 30 % 4),
      ))

encode_lo_lem :
    (f : CuteidFields)
    → InRange f
    → encode_lo f ≡ 2 * 2 ^ 62 + f.process_handle % 2 ^ 30 * 2 ^ 32 + f.alert_handle
unfolding encode_lo
encode_lo_lem f r = rw (and_mask 30 f.process_handle) (
    ground (
      arith,
      or_fields 32 (f.process_handle % 2 ^ 30) f.alert_handle,
      or_fields 62 2 (f.process_handle % 2 ^ 30 * 2 ^ 32 + f.alert_handle),
    ))

-- What `cuteid_decode` computes of two words, as divisions.
abbrev decoded : ℕ → ℕ → CuteidFields
decoded hi lo = record {
  start_time = hi / 2 ^ 22;
  process_handle = hi % 4 * 2 ^ 30 + lo % 2 ^ 62 / 2 ^ 32;
  alert_handle = lo % 2 ^ 32;
  server_id = hi / 2 ^ 18 % 16;
  schema = hi / 2 ^ 16 % 4 * 4 + hi / 2 ^ 10 % 4;
}

decode_words_lem : (hi lo : ℕ) → hi < 2 ^ 64 → lo < 2 ^ 64 → decode_words hi lo ≡ decoded hi lo
unfolding decode_words
decode_words_lem hi lo p q =
    let a = hi / 2 ^ 16 % 2 ^ 48 in
    let b = hi % 2 ^ 12 in
    let c = lo % 2 ^ 62 in
    rw
      (
        and_mask 48 (hi / 2 ^ 16),
        and_mask 12 hi,
        and_mask 62 lo,
        and_mask 42 (a / 2 ^ 6),
        and_mask 2 b,
        and_mask 32 c,
        and_mask 4 (a / 2 ^ 2),
        and_mask 2 a,
        and_mask 2 (b / 2 ^ 10),
        or_fields 30 (b % 4) (c / 2 ^ 32) (omega arith),
        or_fields 2 (a % 4) (b / 2 ^ 10 % 4) (omega arith),
      )
      (ground arith)

-- Decoding an encoded uuid gives the 32-bit handles back, and the start time, the server and the
-- schema cut to their 42, 4 and 4 bits.
pub cuteid_decode-cuteid_encode :
    (f : CuteidFields)
    → InRange f
    → cuteid_decode (cuteid_encode f) ≡ record f {
      start_time = f.start_time % 2 ^ 42;
      server_id = f.server_id % 2 ^ 4;
      schema = f.schema % 2 ^ 4;
    }
unfolding cuteid_decode cuteid_encode
cuteid_decode-cuteid_encode f r =
    let hi = encode_hi f in
    let lo = encode_lo f in
    let hi_fits : hi < 2 ^ 64 = omega (arith, encode_hi_lem f r) in
    let lo_fits : lo < 2 ^ 64 = omega (arith, encode_lo_lem f r) in
    rw
      (
        (of_words-Layout hi lo).first,
        (of_words-Layout hi lo).second,
        be_word-be_bytes hi hi_fits,
        be_word-be_bytes lo lo_fits,
        decode_words_lem hi lo hi_fits lo_fits,
      )
      (ground (arith, encode_hi_lem f r, encode_lo_lem f r))

-- Every uuid that is encoded of fields with 32-bit handles says that it is a version 8 uuid of the
-- RFC 9562 variant, and is sixteen bytes.
pub cuteid_encode-marks :
    (f : CuteidFields)
    → InRange f
    → (uuid_version (cuteid_encode f) ≡ 8)
      × (uuid_variant (cuteid_encode f) ≡ 1)
      × IsUuid (cuteid_encode f)
unfolding cuteid_encode
cuteid_encode-marks f r =
    let layout = of_words-Layout (encode_hi f) (encode_lo f) in
    (
      layout.version ∙ omega (arith, encode_hi_lem f r),
      layout.variant ∙ variant_of_byte_lem _ (omega arith) ∙ ground (arith, encode_lo_lem f r),
      layout.valid,
    )

-- Encoding what was decoded from two words with the marks, and with nothing reserved set.
encode-decode_words :
    (hi lo : ℕ)
    → hi < 2 ^ 64
    → lo < 2 ^ 64
    → hi / 2 ^ 12 % 16 ≡ 8
    → lo / 2 ^ 62 ≡ 2
    → hi / 4 % 2 ^ 8 ≡ 0
    → (encode_hi (decode_words hi lo) ≡ hi) × (encode_lo (decode_words hi lo) ≡ lo)
encode-decode_words hi lo p q version variant reserved = rw (decode_words_lem hi lo p q) (
    rw (encode_hi_lem (decoded hi lo) (omega arith), encode_lo_lem (decoded hi lo) (omega arith))
      (omega arith))

-- A byte of variant 1 has the two leading bits 10.
variant_of_byte-one : (v : ℕ) → v < 256 → variant_of_byte v ≡ 1 → v / 64 ≡ 2
variant_of_byte-one v h one = ground (arith, variant_of_byte_lem v h)

encode-decode_of_words :
    (hi lo : ℕ)
    → hi < 2 ^ 64
    → lo < 2 ^ 64
    → uuid_version (of_words hi lo) ≡ 8
    → uuid_variant (of_words hi lo) ≡ 1
    → get_or (of_words hi lo).b 6 0 % 4 ≡ 0
    → get_or (of_words hi lo).b 7 0 / 4 ≡ 0
    → cuteid_encode (cuteid_decode (of_words hi lo)) ≡ of_words hi lo
unfolding cuteid_decode cuteid_encode
encode-decode_of_words hi lo p q version variant res6 res7 =
    let layout = of_words-Layout hi lo in
    let top =
      variant_of_byte-one (lo / 2 ^ 56 % 256) (omega arith) (sym layout.variant ∙ variant) in
    let (back_hi, back_lo) =
      encode-decode_words hi lo p q (sym layout.version ∙ version) (omega arith)
        (omega (arith, layout.byte6, layout.byte7)) in
    rw (layout.first, layout.second, be_word-be_bytes hi p, be_word-be_bytes lo q)
      (ap₂ of_words back_hi back_lo)

-- Encoding the fields of a version 8 uuid of the RFC 9562 variant gives the uuid back, if its
-- eight reserved bits are clear: the low two of byte 6 and the high six of byte 7.
pub cuteid_encode-cuteid_decode :
    (u : Uuid)
    → IsUuid u
    → uuid_version u ≡ 8
    → uuid_variant u ≡ 1
    → get_or u.b 6 0 % 4 ≡ 0
    → get_or u.b 7 0 / 4 ≡ 0
    → cuteid_encode (cuteid_decode u) ≡ u
cuteid_encode-cuteid_decode u v version variant res6 res7 =
    let (same, hi_fits, lo_fits) = words_of_uuid u v in
    subst
      (λ w.
        uuid_version w ≡ 8
        → uuid_variant w ≡ 1
        → get_or w.b 6 0 % 4 ≡ 0
        → get_or w.b 7 0 / 4 ≡ 0
        → cuteid_encode (cuteid_decode w) ≡ w)
      (sym same) (encode-decode_of_words _ _ hi_fits lo_fits) version variant res6 res7
