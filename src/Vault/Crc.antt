-- ===== src/Vault/Crc.antt =====
-- The checksum fits into 16 bits (`crc16` of src/recovery.rs), so that its bytes give it back.
use terrapi_vault.Common.{
  eqb, if-cases, bool_eq, option_eq, list_eq, string_eq, nat_eq, All, ℕ, zero, suc, ◌+◌, ◌*◌, ◌/◌,
  ◌%◌, ◌^◌, ◌<◌, ◌≡◌, ap, some, List, [], ◌∷◌, arith,
}
use terrapi_vault.Vault.RecoveryCode.{
  bit_xor, crc_rounds, crc_from, crc16, to_be_bytes, from_be_bytes,
}

bit_xor_bound : (n a b : ℕ) → bit_xor n a b < 2 ^ n
unfolding bit_xor
bit_xor_bound zero a b = omega arith
bit_xor_bound (suc n) a b =
    double (bit_xor n (a / 2) (b / 2)) n (a + b) (bit_xor_bound n (a / 2) (b / 2))
  where
    double : (x m c : ℕ) → x < 2 ^ m → c % 2 + 2 * x < 2 ^ suc m
    double x m c l = omega (arith, l)

crc_rounds_bound : (n crc : ℕ) → crc < 65536 → crc_rounds n crc < 65536
unfolding crc_rounds
crc_rounds_bound zero crc l = l
crc_rounds_bound (suc n) crc l = crc_rounds_bound n _ (
    if-cases (λ (c : ℕ). c < 65536) (eqb (crc / 2 ^ 15 % 2) 1)
      (λ _. bit_xor_bound 16 (crc * 2 % 2 ^ 16) 0x1021) (λ _. omega arith))

crc_from_bound : (crc : ℕ) (bytes : List ℕ) → crc < 65536 → crc_from crc bytes < 65536
unfolding crc_from
crc_from_bound crc [] l = l
crc_from_bound crc (b ∷ bytes) l =
    crc_from_bound (crc_rounds 8 (bit_xor 16 crc (b * 256 % 2 ^ 16))) bytes (
      crc_rounds_bound 8 (bit_xor 16 crc (b * 256 % 2 ^ 16))
        (bit_xor_bound 16 crc (b * 256 % 2 ^ 16)))

pub crc16_bound : (bytes : List ℕ) → crc16 bytes < 65536
unfolding crc16
crc16_bound bytes = crc_from_bound 0xFFFF bytes (omega arith)

pub to_be_bytes_lem : (n : ℕ) → n < 65536 → All (λ b. b < 256) (to_be_bytes n)
to_be_bytes_lem n l = (omega (arith, l), (omega arith, tt))

pub from_be_bytes-to_be_bytes : (n : ℕ) → from_be_bytes (to_be_bytes n) ≡ some n
from_be_bytes-to_be_bytes n = ap some (omega arith)
