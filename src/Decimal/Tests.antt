-- ===== src/Decimal/Tests.antt =====
-- The decimal printers and readers on numbers at hand.
use cm_dotfiles.Prelude.{none, if◌then◌else◌, ◌==◌, ◌^◌, ◌<◌, ◌≡◌, refl, some, arith, codes, length}
use cm_dotfiles.Decimal.Print.{
  gga_to_str_u32, gga_to_str_u64, gga_to_str_i32, hx_u64_to_str, hx_i32_to_str, int_to_str,
  is_negative32,
}
use cm_dotfiles.Decimal.Parse.{dirty_parse_int, parse_bool}
use cm_dotfiles.Decimal.Text.{IsDecimal}
use cm_dotfiles.Decimal.Printed.{
  IsSigned, magnitude32, gga_to_str_u64-IsDecimal, int_to_str-IsSigned,
}
use cm_dotfiles.Decimal.RoundTrip.{dirty_parse_int-int_to_str}

-- -2 ^ 31 and a number with an odd count of digits
least : int_to_str (2 ^ 31) ≡ (codes "-2147483648", 11)
unfolding int_to_str
least = refl

odd_count : gga_to_str_u64 12345 ≡ codes "12345"
unfolding gga_to_str_u64
odd_count = refl

false_is_true : parse_bool (codes "false") ≡ some 1
unfolding parse_bool
false_is_true = refl

gga_to_str_u64-IsDecimal_example :
    IsDecimal 1234567 (gga_to_str_u64 1234567)
    × (hx_u64_to_str 1234567 ≡ (gga_to_str_u64 1234567, length (gga_to_str_u64 1234567)))
    × (1234567 < 2 ^ 32 → gga_to_str_u32 1234567 ≡ gga_to_str_u64 1234567)
gga_to_str_u64-IsDecimal_example = gga_to_str_u64-IsDecimal 1234567 (omega arith)

int_to_str-IsSigned_example :
    IsSigned (is_negative32 4294967251) (magnitude32 4294967251) (int_to_str 4294967251).0
    × ((int_to_str 4294967251).1 ≡ length (int_to_str 4294967251).0)
    × (hx_i32_to_str 4294967251 ≡ int_to_str 4294967251)
    × (gga_to_str_i32 4294967251
        ≡ (if 4294967251 == 2 ^ 31 then none else some (int_to_str 4294967251).0))
int_to_str-IsSigned_example = int_to_str-IsSigned 4294967251 (omega arith)

dirty_parse_int-int_to_str_example :
    (dirty_parse_int (int_to_str 980).0 ≡ 980)
    × ((int_to_str 980).1 ≡ length (int_to_str 980).0)
    × (hx_i32_to_str 980 ≡ int_to_str 980)
    × (gga_to_str_i32 980 ≡ some (int_to_str 980).0)
dirty_parse_int-int_to_str_example = dirty_parse_int-int_to_str 980 (omega arith)
