-- ===== src/Ec/Client/Password.antt =====
-- The password hashing of core/ec/client.cpp.
use amule_remote_qt.Base.{
  ℕ, Bool, true, List, [], ◌∷◌, ◌++◌, ◌&&◌, ◌||◌, leb, ◌==◌, if◌then◌else◌, length,
}
use amule_remote_qt.Ec.Bytes.{Bytes, Text, Qt, zero_filled}
use amule_remote_qt.Ec.Tag.{Hash16}

-- `std::isxdigit` on the Latin-1 value of a code unit, which is 0 beyond Latin-1.
unfoldable pub is_hex_digit : ℕ → Bool
is_hex_digit c =
    (leb b'0' c && leb c b'9') || (leb b'a' c && leb c b'f') || (leb b'A' c && leb c b'F')

abbrev pub all : (ℕ → Bool) → List ℕ → Bool
all p [] = true
all p (c ∷ cs) = p c && all p cs

-- The test of `normalizePasswordMd5`.
unfoldable pub is_md5_hex : Text → Bool
is_md5_hex input = length input == 32 && all is_hex_digit input

module _ (qt : Qt) where
  unfoldable pub md5_hex : Bytes → Text
  md5_hex bytes = qt.from_latin1 (qt.to_hex (qt.md5 bytes))

  unfoldable pub normalize_password_md5 : Text → Text
  normalize_password_md5 input =
      if is_md5_hex input then qt.to_lower input else md5_hex (qt.to_utf8 input)

  -- The digest of 16 bytes is copied whole.
  unfoldable pub salted_password_hash : Text → ℕ → Hash16
  salted_password_hash pass_md5_hex salt =
      let salt_hash = md5_hex (qt.to_latin1 (qt.to_upper (qt.hex_number salt))) in
      zero_filled 16 (qt.md5 (qt.to_latin1 (qt.to_lower pass_md5_hex) ++ qt.to_latin1 salt_hash))
