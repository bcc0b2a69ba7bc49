-- ===== src/CuteId/Fields.antt =====
-- `struct cuteid_fields`, `cuteid_encode` and `cuteid_decode`.
pub mod RoundTrip
use cm_dotfiles.Prelude.{
  ℕ, ◌+◌, ◌*◌, ◌/◌, ◌%◌, ◌^◌, List, [], ◌∷◌, ◌++◌, bit_and, bit_or, ◌<<◌, ◌>>◌, u8, u32, u64, take,
  drop,
}
use cm_dotfiles.CuteId.Uuid.{Uuid, be_bytes, be_word}

pub record CuteidFields : Type 0 where
  pub start_time : ℕ
  pub process_handle : ℕ
  pub alert_handle : ℕ
  pub server_id : ℕ
  pub schema : ℕ

-- The two words that `cuteid_encode` stores.
pub encode_hi : CuteidFields → ℕ
encode_hi f =
    let ts = bit_and f.start_time 0x3FFFFFFFFFF in
    let sid = bit_and f.server_id 0xF in
    let sch = bit_and f.schema 0xF in
    let a = bit_or (bit_or (u64 (ts << 6)) (sid << 2)) (sch >> 2) in
    let b = bit_or (bit_and sch 0x3 << 10) (bit_and (f.process_handle >> 30) 0x3) in
    bit_or (bit_or (u64 (a << 16)) (0x8 << 12)) b

pub encode_lo : CuteidFields → ℕ
encode_lo f =
    let c = bit_or (bit_and f.process_handle 0x3FFFFFFF << 32) f.alert_handle in
    bit_or (0x2 << 62) c

pub cuteid_encode : CuteidFields → Uuid
cuteid_encode f = record { b = be_bytes 8 (encode_hi f) ++ be_bytes 8 (encode_lo f) }

-- The fields that `cuteid_decode` takes out of the two words.
pub decode_words : ℕ → ℕ → CuteidFields
decode_words hi lo =
    let a = bit_and (hi >> 16) 0xFFFFFFFFFFFF in
    let b = bit_and hi 0xFFF in
    let c = bit_and lo 0x3FFFFFFFFFFFFFFF in
    record {
      start_time = bit_and (a >> 6) 0x3FFFFFFFFFF;
      process_handle = u32 (bit_or (bit_and b 0x3 << 30) (c >> 32));
      alert_handle = u32 (bit_and c 0xFFFFFFFF);
      server_id = u8 (bit_and (a >> 2) 0xF);
      schema = u8 (bit_or (bit_and a 0x3 << 2) (bit_and (b >> 10) 0x3));
    }

pub cuteid_decode : Uuid → CuteidFields
cuteid_decode u = decode_words (be_word 0 (take 8 u.b)) (be_word 0 (take 8 (drop 8 u.b)))
