-- ===== src/Journal/Checksum.antt =====
-- hash/crc32 with the table of Castagnoli's polynomial, which internal/journal/codec.go takes as its
-- checksum.
use Prim.Native.Nat.{bit_xor}
use matching_engine_go.Prelude.{
  ℕ, zero, suc, ◌/◌, ◌%◌, ◌^◌, ◌<◌, ◌≡◌, refl, List, [], ◌∷◌, ◌==◌, if◌then◌else◌, arith,
}

-- An entry of the table: so many steps of the division by the polynomial.
unfoldable pub table_entry : ℕ → ℕ → ℕ
table_entry zero crc = crc
table_entry (suc k) crc =
    table_entry k (if crc % 2 == 1 then bit_xor (crc / 2) 0x82f63b78 else crc / 2)

unfoldable pub update : ℕ → List ℕ → ℕ
unfolding table_entry
update crc [] = crc
update crc (b ∷ bs) = update (bit_xor (table_entry 8 (bit_xor (crc % 256) b)) (crc / 256)) bs

unfoldable pub checksum : List ℕ → ℕ
unfolding update
checksum bs = bit_xor (update 0xffffffff bs) 0xffffffff % 2 ^ 32

pub checksum-lt : (bs : List ℕ) → checksum bs < 2 ^ 32
unfolding checksum
checksum-lt bs = omega arith

-- The check value of the algorithm, for the bytes of "123456789".
checksum-check : checksum (49 ∷ 50 ∷ 51 ∷ 52 ∷ 53 ∷ 54 ∷ 55 ∷ 56 ∷ 57 ∷ []) ≡ 0xE3069283
unfolding checksum
checksum-check = refl
