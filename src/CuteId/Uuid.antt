-- ===== src/CuteId/Uuid.antt =====
-- `struct uuid`, and its bytes as two big-endian words.
use cm_dotfiles.Prelude.{
  ℕ, zero, suc, ◌*◌, ◌≡◌, List, [], ◌∷◌, length, get_or, AllBytes, ◌==◌, if◌then◌else◌, bit_and,
  bit_or, ◌<<◌, ◌>>◌, u64,
}

-- `uint8_t b[16]`
pub record Uuid : Type 0 where
  pub b : List ℕ

pub record IsUuid (u : Uuid) : Type 0 where
  pub sixteen : length u.b ≡ 16
  pub bytes : AllBytes u.b

unfoldable pub uuid_version : Uuid → ℕ
uuid_version u = bit_and (get_or u.b 6 0 >> 4) 0xF

-- 0 = ncs, 1 = rfc9562, 2 = microsoft, 3 = future
unfoldable pub variant_of_byte : ℕ → ℕ
variant_of_byte v =
    if bit_and v 0x80 == 0
    then 0
    else if bit_and v 0xC0 == 0x80
    then 1
    else if bit_and v 0xE0 == 0xC0
    then 2
    else 3

unfoldable pub uuid_variant : Uuid → ℕ
unfolding variant_of_byte
uuid_variant u = variant_of_byte (get_or u.b 8 0)

-- `(w >> (56 - i * 8)) & 0xFF` for the last `k` of the eight values of `i`.
unfoldable pub be_bytes : ℕ → ℕ → List ℕ
be_bytes zero w = []
be_bytes (suc k) w = bit_and (w >> (8 * k)) 0xFF ∷ be_bytes k w

-- The loop `w = (w << 8) | b[i]`.
unfoldable pub be_word : ℕ → List ℕ → ℕ
be_word w [] = w
be_word w (b ∷ bs) = be_word (bit_or (u64 (w << 8)) b) bs
