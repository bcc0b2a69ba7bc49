-- ===== src/CuteId/Tests.antt =====
-- A cuteid on concrete inputs.
use cm_dotfiles.Prelude.{ℕ, ◌≡◌, refl, arith, List, [], ◌∷◌, ◌++◌, some, true, codes}
use cm_dotfiles.CuteId.Uuid.{Uuid, IsUuid}
use cm_dotfiles.CuteId.Fields.{CuteidFields, cuteid_encode, cuteid_decode}
use cm_dotfiles.CuteId.Fields.RoundTrip.{InRange, cuteid_decode-cuteid_encode}
use cm_dotfiles.CuteId.Text.{uuid_parse, uuid_format, is_lead, is_trail}
use cm_dotfiles.CuteId.Text.RoundTrip.{uuid_parse-uuid_format}

abbrev fields : CuteidFields
fields = record {
  start_time = 0x0123456789A;
  process_handle = 0xC0000001;
  alert_handle = 0xFEDCBA98;
  server_id = 9;
  schema = 6;
}

-- Bytes of version 8 and of the variant of RFC 9562
abbrev id : Uuid
id = record { b = 1 ∷ 2 ∷ 3 ∷ 4 ∷ 5 ∷ 6 ∷ 0x84 ∷ 3 ∷ 0xBF ∷ 9 ∷ 10 ∷ 11 ∷ 12 ∷ 13 ∷ 14 ∷ 255 ∷ [] }

abbrev text : List ℕ
text = codes "01020304-0506-8403-bf09-0a0b0c0d0eff"

fields-InRange : InRange fields
fields-InRange = omega arith

id-IsUuid : IsUuid id
id-IsUuid = record { sixteen = refl; bytes = omega arith }

format-id : uuid_format id true ≡ (36, text)
unfolding uuid_format
format-id = refl

cuteid_decode-cuteid_encode_example : cuteid_decode (cuteid_encode fields) ≡ fields
cuteid_decode-cuteid_encode_example = cuteid_decode-cuteid_encode fields fields-InRange

uuid_parse-uuid_format_example :
    uuid_parse (codes " \t" ++ ((uuid_format id true).1 ++ codes "\n ")) ≡ some id
unfolding is_lead is_trail
uuid_parse-uuid_format_example =
    uuid_parse-uuid_format id true (codes " \t") (codes "\n ") id-IsUuid (refl, (refl, tt))
      (refl, (refl, tt))

parse-text : uuid_parse text ≡ some id
unfolding uuid_parse
parse-text = refl
