-- ===== src/Ahci/Fis.antt =====
-- The command that rizzos/src/ahci/ahci.c writes, as the disk reads it.
use rizzos.Base.{
  ℕ, ◌+◌, ◌-◌, ◌*◌, ◌/◌, ◌%◌, ◌^◌, ◌≡◌, ◌==◌, if◌then◌else◌, arith, inl, inr, Bool-cases,
}
use rizzos.Base.Masks.{bit_and-low}
use rizzos.Memory.{Mem, byte, write_bytes}
use rizzos.Ahci.Command.{write8, write_fis}

-- A byte in memory after it or another one is written
same_byte : (m : Mem) (a v : ℕ) → write8 m a v a ≡ v % 256
unfolding write_bytes byte
same_byte m a v = let e : a - a ≡ 0 = omega arith in rw e (ground arith)

write8-if : (m : Mem) (a v x : ℕ) → write8 m a v x ≡ (if x == a then v % 256 else m x)
unfolding write_bytes byte
write8-if m a v x = elim (Bool-cases (x == a)) [
  | inl on ↦ let e : x ≡ a = ground arith in rw (on, e) (same_byte m a v)
  | inr off ↦ ground arith
]

-- The sector's number as the disk puts it together, in six bytes of the command
abbrev pub lba : Mem → (fis : ℕ) → ℕ
lba m fis =
    m (fis + 4)
    + 2 ^ 8 * m (fis + 5)
    + 2 ^ 16 * m (fis + 6)
    + 2 ^ 24 * m (fis + 8)
    + 2 ^ 32 * m (fis + 9)
    + 2 ^ 40 * m (fis + 10)

-- The bytes of the number, one after the other
lba_bytes :
    (m : Mem) (fis sector sector_count : ℕ)
    → let m' = write_fis m fis sector sector_count in
      (m' (fis + 4) ≡ sector % 2 ^ 8)
      × (m' (fis + 5) ≡ sector / 2 ^ 8 % 2 ^ 8)
      × (m' (fis + 6) ≡ sector / 2 ^ 16 % 2 ^ 8)
      × (m' (fis + 8) ≡ sector / 2 ^ 32 % 2 ^ 8)
      × (m' (fis + 9) ≡ sector / 2 ^ 40 % 2 ^ 8)
      × (m' (fis + 10) ≡ sector / 2 ^ 48 % 2 ^ 8)
unfolding write_fis
lba_bytes m fis sector sector_count = (
  simp write8-if (ground arith),
  simp write8-if (ground arith),
  simp write8-if (ground arith),
  simp write8-if (ground arith),
  simp write8-if (ground arith),
  simp write8-if (ground arith),
)

-- The other bytes
other_bytes :
    (m : Mem) (fis sector sector_count : ℕ)
    → let m' = write_fis m fis sector sector_count in
      (m' fis ≡ 0x27)
      × (m' (fis + 2) ≡ 0x25)
      × (m' (fis + 7) ≡ 0x40)
      × (m' (fis + 12) ≡ sector_count % 2 ^ 8)
      × (m' (fis + 13) ≡ sector_count / 2 ^ 8 % 2 ^ 8)
unfolding write_fis
other_bytes m fis sector sector_count = (
  simp write8-if (ground arith),
  simp write8-if (ground arith),
  simp write8-if (ground arith),
  simp write8-if (ground (arith, bit_and-low 8 sector_count)),
  simp write8-if (ground (arith, bit_and-low 8 (sector_count / 2 ^ 8))),
)

-- The command that AHCI_Port_Read puts into its table is the one that reads by a number of 48 bits
-- (type 0x27, command 0x25, bit 6 of the device byte), for the low 16 bits of the count of sectors.
-- The number that the disk reads there is made of the sector's bits 0 to 23 and 32 to 55 alone.
pub write_fis-lba :
    (m : Mem) (fis sector sector_count : ℕ)
    → let m' = write_fis m fis sector sector_count in
      (m' fis ≡ 0x27)
      × (m' (fis + 2) ≡ 0x25)
      × (m' (fis + 7) ≡ 0x40)
      × (m' (fis + 12) + 2 ^ 8 * m' (fis + 13) ≡ sector_count % 2 ^ 16)
      × (lba m' fis ≡ sector % 2 ^ 24 + 2 ^ 24 * (sector / 2 ^ 32 % 2 ^ 24))
write_fis-lba m fis sector sector_count =
    let other = other_bytes m fis sector sector_count in
    let number = lba_bytes m fis sector sector_count in
    (other.0, other.1, other.2, omega (arith, other), omega (arith, number))
