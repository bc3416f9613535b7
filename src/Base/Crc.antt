-- ===== src/Base/Crc.antt =====
-- zlib.crc32, bit by bit.
use Prim.Native.Nat.{ℕ, zero, suc, ◌/◌, ◌%◌, bit_xor}
use mathlib.Core.Path.{◌≡◌, refl}
use mathlib.Core.List.{List, [], ◌∷◌}
use net_lanvas.Base.Tests.{nat_eq, if◌then◌else◌}
use net_lanvas.Base.Utf8.{encode_ascii}

crc_bits : ℕ → ℕ → ℕ
crc_bits zero c = c
crc_bits (suc n) c = crc_bits n (if nat_eq (c % 2) 1 then bit_xor (c / 2) 0xedb88320 else c / 2)

crc_from : ℕ → List ℕ → ℕ
unfolding crc_bits
crc_from c [] = c
crc_from c (b ∷ bytes) = crc_from (crc_bits 8 (bit_xor c b)) bytes

unfoldable pub crc32 : List ℕ → ℕ
unfolding crc_from
crc32 bytes = bit_xor (crc_from 0xffffffff bytes) 0xffffffff

-- the check value of the checksum's standard
crc32_example : crc32 (encode_ascii "123456789") ≡ 0xcbf43926
unfolding crc32
crc32_example = refl
