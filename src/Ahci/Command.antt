-- ===== src/Ahci/Command.antt =====
-- rizzos/src/ahci/ahci.c and fis.h: the command that reads sectors.
use rizzos.Base.{
  ◌>>=◌, ℕ, zero, suc, ◌+◌, ◌-◌, ◌*◌, ◌/◌, ◌%◌, ◌^◌, Bool, true, false, ◌==◌, bit_and, bit_or,
  Option, none, some, if◌then◌else◌,
}
use rizzos.Memory.{Mem, write_bytes, write32, read16, read32, set8}
use rizzos.Ahci.{
  Hba, interrupt_status, command_list_base, task_file_data, command_issue, px_is_tfes, has,
}

abbrev pub ata_dev_busy : ℕ
ata_dev_busy = 0x80

abbrev pub ata_dev_drq : ℕ
ata_dev_drq = 0x08

abbrev pub ata_cmd_read_dma_ex : ℕ
ata_cmd_read_dma_ex = 0x25

abbrev pub fis_type_reg_h2d : ℕ
fis_type_reg_h2d = 0x27

-- `*(uint8_t*) a = v` and `*(uint16_t*) a = v`
abbrev pub write8 : Mem → ℕ → ℕ → Mem
write8 = write_bytes 1

abbrev pub write16 : Mem → ℕ → ℕ → Mem
write16 = write_bytes 2

-- `HBACommandHeader`: the first byte has the length of the command in words, of which
-- `FIS_REG_H2D` takes five, and the direction in bit 6; the number of regions follows at 2, the
-- address of the command's table at 8 and 12.
unfoldable pub write_header : Mem → (cmd_header : ℕ) → Mem
write_header m cmd_header =
    let flags : ℕ = bit_and (m cmd_header) 0b10100000 in
    write16 (write8 m cmd_header (flags + 5)) (cmd_header + 2) 1

-- `HBAPRDTEntry`: the address, and in the last word the count of bytes in 22 bits and the
-- interrupt in bit 31
unfoldable pub write_region : Mem → (entry buffer sector_count : ℕ) → Mem
write_region m entry buffer sector_count =
    let m1 = write32 m entry (buffer % 2 ^ 32) in
    let m2 = write32 m1 (entry + 4) (buffer / 2 ^ 32 % 2 ^ 32) in
    let byte_count : ℕ = (sector_count * 2 ^ 9 + 2 ^ 32 - 1) % 2 ^ 22 in
    let kept : ℕ = read32 m2 (entry + 12) / 2 ^ 22 % 2 ^ 9 in
    write32 m2 (entry + 12) (byte_count + 2 ^ 22 * kept + 2 ^ 31)

-- `FIS_REG_H2D`, with the bit of a command kept apart from the rest of its byte
unfoldable pub write_fis : Mem → (fis sector sector_count : ℕ) → Mem
write_fis m fis sector sector_count =
    let sector_l : ℕ = sector % 2 ^ 32 in
    let sector_h : ℕ = sector / 2 ^ 32 % 2 ^ 32 in
    let m1 = write8 m fis fis_type_reg_h2d in
    let m2 = write8 m1 (fis + 1) (bit_or (m1 (fis + 1)) 0b10000000) in
    let m3 = write8 m2 (fis + 2) ata_cmd_read_dma_ex in
    let m4 = write8 m3 (fis + 4) (sector_l % 2 ^ 8) in
    let m5 = write8 m4 (fis + 5) (sector_l / 2 ^ 8 % 2 ^ 8) in
    let m6 = write8 m5 (fis + 6) (sector_l / 2 ^ 16 % 2 ^ 8) in
    let m7 = write8 m6 (fis + 8) (sector_h % 2 ^ 8) in
    let m8 = write8 m7 (fis + 9) (sector_h / 2 ^ 8 % 2 ^ 8) in
    let m9 = write8 m8 (fis + 10) (sector_h / 2 ^ 16 % 2 ^ 8) in
    let m10 = write8 m9 (fis + 7) (2 ^ 6) in
    let m11 = write8 m10 (fis + 12) (bit_and sector_count 0xff) in
    write8 m11 (fis + 13) (bit_and (sector_count / 2 ^ 8) 0xff)

-- `sizeof(HBACommandTable)`, where the entries of the regions begin
abbrev pub command_table_size : ℕ
command_table_size = 128

-- What `AHCI_Port_Read` writes to memory: the header, and the table that it points to by the low
-- half of its address. The count of regions has just been written, so the size that is cleared
-- has none of them.
unfoldable pub write_command : Mem → (cmd_header sector sector_count buffer : ℕ) → Option Mem
write_command m cmd_header sector sector_count buffer =
    let m1 = write_header m cmd_header in
    let command_table : ℕ = read32 m1 (cmd_header + 8) in
    let size : ℕ = command_table_size + (read16 m1 (cmd_header + 2) - 1) * 16 in
    set8 m1 command_table 0 size >>= λ m2.
    let m3 = write_region m2 (command_table + command_table_size) buffer sector_count in
    some (write_fis m3 command_table sector sector_count)

module _ {S : Type 0} (hba : Hba S) where
  open hba use {read, write, pass, dma}

  -- The loop that waits for the device, on the rounds left of 1000000: whether it is ready
  unfoldable pub spin_loop : (rounds : ℕ) → S → (port : ℕ) → Bool × S
  spin_loop zero s port = (false, pass s)
  spin_loop (suc rounds) s port =
      let rest = spin_loop rounds (pass s) port in
      if has (read s (port + task_file_data)) (bit_or ata_dev_busy ata_dev_drq)
      then rest
      else (true, pass s)

  -- The loop that waits for the command: whether it ended without an error; `none` is out of fuel.
  unfoldable pub issue_loop : (fuel : ℕ) → S → (port : ℕ) → Option (Bool × S)
  issue_loop zero s port = none
  issue_loop (suc fuel) s port =
      let rest = issue_loop fuel (pass (pass s)) port in
      if read s (port + command_issue) == 0
      then some (true, pass s)
      else if has (read (pass s) (port + interrupt_status)) px_is_tfes
      then some (false, pass (pass s))
      else rest

  -- `AHCI_Port_Read`, with `rounds` for 1000000: the answer, the controller and the memory. The
  -- list of commands is found by the low half of its address.
  unfoldable pub port_read :
      (rounds fuel : ℕ) → S → Mem → (port sector sector_count buffer : ℕ) → Option (Bool × S × Mem)
  port_read rounds fuel s m port sector sector_count buffer =
      let s1 = write s (port + interrupt_status) (2 ^ 32 - 1) in
      let cmd_header : ℕ = read s1 (port + command_list_base) in
      write_command m cmd_header sector sector_count buffer >>= λ m'.
      let (ready, s2) = spin_loop rounds s1 port in
      let issued = issue_loop fuel (write s2 (port + command_issue) 1) port in
      if ready then (issued >>= λ (done, s3). some (done, s3, dma s3 m')) else some (false, s2, m')
