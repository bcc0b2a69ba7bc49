-- ===== src/HexTools/Tests.antt =====
-- itoh and htoi on concrete inputs.
use cm_dotfiles.Prelude.{◌≡◌, refl, arith, [], some, true, false, codes}
use cm_dotfiles.HexTools.Itoh.{
  encode, print_encoded_bytes, le_bytes, be_bytes, hex_char, get_min_width,
}
use cm_dotfiles.HexTools.Htoi.{value, htoi, is_xdigit}
use cm_dotfiles.HexTools.Digits.{IsSeparator, mark}
use cm_dotfiles.HexTools.RoundTrip.{htoi-encode}
use cm_dotfiles.HexTools.Width.{byte_count, get_min_width-byte_count}

printed : encode 0x1A2B false 3 (codes ", ") (codes "0x") ≡ codes "0x00, 0x1a, 0x2b"
unfolding encode print_encoded_bytes le_bytes be_bytes hex_char
printed = refl

comma-IsSeparator : IsSeparator (codes ", ")
comma-IsSeparator = mark {d = b','} (unfold is_xdigit in refl)

htoi-encode_example :
    htoi (encode 0x1A2B true 3 (codes ", ") []) (codes ", ") true 8 true ≡ value 0x1A2B
htoi-encode_example =
    htoi-encode 0x1A2B 3 8 true true (codes ", ") (omega arith) (omega arith) (omega arith)
      comma-IsSeparator

get_min_width-byte_count_example : get_min_width 65536 true ≡ some 3
unfolding byte_count
get_min_width-byte_count_example = get_min_width-byte_count 65536 true (omega arith)
