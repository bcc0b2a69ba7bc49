-- ===== src/Codec/Tests.antt =====
-- The codec on concrete inputs.
use cm_dotfiles.Prelude.{ℕ, ◌≡◌, arith, List, [], ◌∷◌, none, some, false, AllBytes, codes}
use cm_dotfiles.Codec.Hex.{hex_encode, hex_decode}
use cm_dotfiles.Codec.Hex.RoundTrip.{hex_decode-hex_encode}
use cm_dotfiles.Codec.Hex.Accepts.{accepts, all_hex_digits, is_hex_digit, hex_decode-accepts}
use cm_dotfiles.Codec.Base64.{base64_encode, base64_decode}
use cm_dotfiles.Codec.Base64.Sextets.{odd}
use cm_dotfiles.Codec.Base64.RoundTrip.{has_odd_digit, base64_decode-base64_encode}

-- "Man", its first two bytes, and bytes at the ends of the range
abbrev man : List ℕ
man = codes "Man"

abbrev ma : List ℕ
ma = codes "Ma"

abbrev ends : List ℕ
ends = 0 ∷ 171 ∷ 255 ∷ []

man-AllBytes : AllBytes man
man-AllBytes = omega arith

ma-AllBytes : AllBytes ma
ma-AllBytes = omega arith

ends-AllBytes : AllBytes ends
ends-AllBytes = omega arith

hex_decode-hex_encode_example : hex_decode (hex_encode ends).1 ≡ some (3, ends)
hex_decode-hex_encode_example = hex_decode-hex_encode ends ends-AllBytes

-- A letter beyond f is refused.
hex_decode-accepts_example : accepts (hex_decode (codes "0g")) ≡ false
unfolding all_hex_digits is_hex_digit
hex_decode-accepts_example = hex_decode-accepts (codes "0g")

base64_decode-base64_encode_example : base64_decode (base64_encode man).1 ≡ some (3, man)
unfolding has_odd_digit odd
base64_decode-base64_encode_example = base64_decode-base64_encode man man-AllBytes

-- The decoder refuses a padded group with an odd digit.
ma_is_refused : base64_decode (base64_encode ma).1 ≡ none
unfolding has_odd_digit odd
ma_is_refused = base64_decode-base64_encode ma ma-AllBytes
