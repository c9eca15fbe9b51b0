-- ===== src/Vault/Examples.antt =====
-- Recovery codes at concrete bytes and texts (src/recovery.rs).
use terrapi_vault.Common.{
  bool_eq, option_eq, list_eq, string_eq, nat_eq, All, ℕ, zero, suc, ◌<◌, ◌≡◌, refl, ◌↔◌, some,
  List, [], ◌∷◌, arith,
}
use terrapi_vault.Vault.RecoveryCode.{
  value, base32_encode, decode_from, base32_decode, bit_xor, crc_rounds, crc_from, crc16, format,
  to_ascii_uppercase, utf8, normalized, parsed, recovery_code_invalid, panicked, split_at,
  parse_checked, parse_decoded, parse_split, parse_normalized, parse,
}
use terrapi_vault.Vault.Base32.{base32_decode-encode}
use terrapi_vault.Vault.Codes.{parse-format}
use terrapi_vault.Vault.Accepted.{Reads, parse_iff, parse_ascii_lem}

abbrev repeated : ℕ → ℕ → List ℕ → List ℕ
repeated zero c rest = rest
repeated (suc n) c rest = c ∷ repeated n c rest

-- The bytes of a test of the source.
abbrev some_code : List ℕ
some_code = repeated 20 0xAB []

repeated_bytes : (n : ℕ) → All (λ b. b < 256) (repeated n 0xAB [])
repeated_bytes zero = tt
repeated_bytes (suc n) = (omega arith, repeated_bytes n)

some_code_bytes : All (λ b. b < 256) some_code
some_code_bytes = repeated_bytes 20

base32_decode-encode_example : base32_decode (base32_encode some_code) ≡ some some_code
base32_decode-encode_example = base32_decode-encode some_code some_code_bytes

parse-format_example : parse (format some_code) ≡ parsed some_code
parse-format_example = parse-format some_code refl some_code_bytes

parse_iff_example :
    (parse (format some_code) ≡ parsed some_code) ↔ Reads (format some_code) some_code
parse_iff_example = parse_iff (format some_code) some_code

-- "ABC"
abbrev short_text : List ℕ
short_text = 65 ∷ 66 ∷ 67 ∷ []

parse_ascii_lem_example : ¬ (parse short_text ≡ panicked)
parse_ascii_lem_example = parse_ascii_lem short_text (omega arith, (omega arith, (omega arith, tt)))

-- The letter after 31 digits takes the bytes 31 and 32, between which the text is cut.
non_ascii_panics : parse (repeated 31 48 (0xE9 ∷ repeated 3 48 [])) ≡ panicked
unfolding parse parse_normalized parse_split split_at normalized utf8 to_ascii_uppercase
non_ascii_panics = refl

-- A checksum that does not belong to the code.
wrong_checksum : parse (repeated 36 48 []) ≡ recovery_code_invalid "checksum mismatch"
unfolding parse parse_normalized parse_split split_at parse_decoded parse_checked normalized utf8
    to_ascii_uppercase base32_decode decode_from value crc16 crc_from crc_rounds bit_xor
wrong_checksum = refl
