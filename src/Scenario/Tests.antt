-- ===== src/Scenario/Tests.antt =====
-- The reader of scenario files on short inputs.
use cm_dotfiles.Prelude.{
  ℕ, ◌+◌, ◌^◌, ◌≡◌, refl, true, none, some, List, [], ◌∷◌, ◌++◌, arith, ltb, if◌then◌else◌, codes,
  length,
}
use Prim.Native.String.{String}
use cm_dotfiles.Prelude.Digits.{is_digit, decimal}
use cm_dotfiles.Scenario.Text.{is_space_char, string_at, str_eq_nocase, trim_left}
use cm_dotfiles.Scenario.Types.{Scenario, Read, empty_scenario, fresh_app, max_file_size}
use cm_dotfiles.Scenario.Number.{parse_uint64}
use cm_dotfiles.HexTools.Htoi.{is_space}
use cm_dotfiles.Scenario.Number.Digits.{minus, parse_uint64-decimal, signed_value, sign_text}
use cm_dotfiles.Scenario.Values.{parse_string_literal, array_loop}
use cm_dotfiles.Scenario.Values.Quoted.{parse_string_literal-quoted, escape}
use cm_dotfiles.Scenario.Values.Refused.{array_loop-unquoted}
use cm_dotfiles.Scenario.Text.Holds.{HoldsAt}
use cm_dotfiles.Scenario.Header.{State, app_section}
use cm_dotfiles.Scenario.Lines.{handle_kv, line_loop, initial, parse_buffer}
use cm_dotfiles.Scenario.Lines.Blank.{handle_kv-labels}
use cm_dotfiles.Scenario.File.{
  ReadResult, interrupted, bytes, read_all_fd, standard_input, scenario_load_from_file,
}
use cm_dotfiles.Scenario.File.Contents.{read_all_fd-contents, contents}
use cm_dotfiles.Scenario.Frame.{Keeps}
use cm_dotfiles.Scenario.Valid.Result.{Loaded, scenario_load_from_file-Loaded, initial-valid}
use cm_dotfiles.Scenario.Valid.Strings.{line_loop-string_at}

-- The buffer of a text.
abbrev buffer : String → List ℕ
buffer s = codes s ++ 0 ∷ []

abbrev small : List ℕ
small = buffer "[app]\nname=\"x\""

-- NULs replace the equals sign and the quote that ends the name.
abbrev small_read : Read Scenario
small_read = record {
  buf = codes "[app]\nname" ++ 0 ∷ b'"' ∷ b'x' ∷ 0 ∷ 0 ∷ [];
  result = record empty_scenario { app = record fresh_app { name = some 12 } };
}

small_parses : parse_buffer small 14 ≡ some small_read
unfolding parse_buffer string_at is_space_char
small_parses = refl

abbrev small_reads : List ReadResult
small_reads = interrupted ∷ bytes (codes "[app]\nname") ∷ bytes (codes "=\"x\"") ∷ bytes [] ∷ []

small_loads : scenario_load_from_file standard_input true small_reads ≡ some small_read
unfolding scenario_load_from_file string_at is_space_char
small_loads = refl

scenario_load_from_file-Loaded_example : Loaded small_read
scenario_load_from_file-Loaded_example =
    scenario_load_from_file-Loaded standard_input true small_reads small_read small_loads

read_all_fd-contents_example : read_all_fd true small_reads ≡ (
    if ltb (length (contents small_reads)) max_file_size
    then some
        (record { buf = contents small_reads ++ 0 ∷ []; result = length (contents small_reads) })
    else none)
read_all_fd-contents_example = read_all_fd-contents small_reads tt

parse_string_literal-quoted_example :
    (b : List ℕ) × (parse_string_literal (buffer "\"a\\\"b\" ") 0 7
      ≡ some (record { buf = b; result = 0 + 1 }))
    × HoldsAt b (0 + 1) (codes "a\"b" ++ 0 ∷ [])
    × Keeps (0 + 1) 7 (buffer "\"a\\\"b\" ") b
unfolding escape is_space_char
parse_string_literal-quoted_example =
    parse_string_literal-quoted (b' ' ∷ []) (refl, tt) (codes "a\"b") (buffer "\"a\\\"b\" ") 0 7
      (omega arith) refl (omega arith)

array_loop-unquoted_example : array_loop 4 (buffer "[ a]") empty_scenario 1 4 0 ≡ none
unfolding trim_left is_space_char
array_loop-unquoted_example =
    array_loop-unquoted 4 (buffer "[ a]") empty_scenario 1 4 0 (omega arith) (omega arith)
      (omega arith) (omega arith)

-- `labels = [` with a blank behind the equals sign, which has become a NUL with the one before it.
abbrev blank_labels : List ℕ
blank_labels = codes "Labels" ++ 0 ∷ codes "= [\"a\"]"

blank_refused : handle_kv app_section none blank_labels 0 8 14 empty_scenario ≡ none
unfolding string_at str_eq_nocase
blank_refused =
    handle_kv-labels blank_labels 0 8 14 empty_scenario refl (omega arith) app_section none

parse_uint64-decimal_example :
    parse_uint64 ((b' ' ∷ []) ++ (sign_text minus ++ (b'1' ∷ b'2' ∷ [] ++ b'\t' ∷ []))) ≡ (
      if ltb (decimal 0 (b'1' ∷ b'2' ∷ [])) (2 ^ 64)
      then some (signed_value minus (decimal 0 (b'1' ∷ b'2' ∷ [])))
      else none)
unfolding is_space is_space_char is_digit
parse_uint64-decimal_example =
    parse_uint64-decimal (b' ' ∷ []) minus b'1' (b'2' ∷ []) (b'\t' ∷ []) (refl, tt)
      (refl, (refl, tt)) (refl, tt)

-- The second line is read, and the string of the first stays.
abbrev two_lines : List ℕ
two_lines = codes "name" ++ 0 ∷ codes "x\n[app]" ++ 0 ∷ []

abbrev in_app : State
in_app = record initial { section = app_section }

two_lines_read :
    line_loop 6 12 7 7 two_lines initial ≡ some (record { buf = two_lines; result = in_app })
unfolding line_loop is_space_char string_at
two_lines_read = refl

line_loop-string_at_example : string_at two_lines 0 ≡ string_at two_lines 0
line_loop-string_at_example =
    line_loop-string_at 6 12 7 7 two_lines initial 0 (record { buf = two_lines; result = in_app })
      refl (omega arith) refl (initial-valid two_lines 7) (4, omega arith, omega arith, refl)
      two_lines_read
