-- ===== src/Json/Tests.antt =====
-- Escaping on concrete inputs.
use cm_dotfiles.Prelude.{ℕ, ◌≡◌, refl, arith, List, [], ◌∷◌, some, false, codes}
use cm_dotfiles.Json.Escape.{
  json_escape_buffer_size, json_escape_to_buffer, json_escape_print, size_loop, width, is_short,
  print_escape, print_loop, hex_digit,
}
use cm_dotfiles.Json.Size.{json_escape_to_buffer-size}
use cm_dotfiles.Json.Decode.{plain, read, read-json_escape_print}

-- A quote, a letter, a newline and a control character
abbrev mixed : List ℕ
mixed = b'"' ∷ b'a' ∷ b'\n' ∷ 1 ∷ []

mixed_text : json_escape_print (some mixed) ≡ (11, codes "\\\"a\\n\\u0001")
unfolding json_escape_print print_loop print_escape hex_digit
mixed_text = refl

mixed_size : json_escape_buffer_size (some mixed) ≡ 12
unfolding json_escape_buffer_size size_loop width is_short
mixed_size = refl

json_escape_to_buffer-size_example :
    json_escape_to_buffer (some mixed) false 12 ≡ some (json_escape_print (some mixed))
unfolding json_escape_buffer_size size_loop width is_short json_escape_print print_loop print_escape
json_escape_to_buffer-size_example = json_escape_to_buffer-size mixed 12 (omega arith) (omega arith)

read-json_escape_print_example : read plain (json_escape_print (some mixed)).1 ≡ some mixed
read-json_escape_print_example = read-json_escape_print mixed
