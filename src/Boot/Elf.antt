-- ===== src/Boot/Elf.antt =====
-- bootloader/bootloader.c: the check of the kernel's ELF file and its segments.
use rizzos.Base.{
  ℕ, zero, suc, ◌+◌, ◌-◌, ◌*◌, ◌/◌, ◌%◌, ◌^◌, Bool, ◌&&◌, ltb, ◌==◌, Option, none, some,
  if◌then◌else◌,
}
use rizzos.Memory.{Mem, read16, read32, read64}
use rizzos.Boot.{Firmware, or_null}

-- `MemCmp`, on the rounds left; -1 as an `int`
unfoldable pub mem_cmp : (a b : ℕ → ℕ) → (i : ℕ) → (rounds : ℕ) → ℕ
mem_cmp a b i zero = 0
mem_cmp a b i (suc rounds) =
    let rest = mem_cmp a b (i + 1) rounds in
    if ltb (a i) (b i) then 2 ^ 32 - 1 else if ltb (b i) (a i) then 1 else rest

-- `ELFMAG`
unfoldable pub elf_magic : ℕ → ℕ
elf_magic i = if i == 0 then 0x7f else if i == 1 then 69 else if i == 2 then 76 else 70

-- `IsElfFHeader`, of the header at an address: ELFCLASS64, ELFDATA2LSB, ET_EXEC, EM_X86_64 and
-- EV_CURRENT
unfoldable pub is_elf_f_header : Mem → (header : ℕ) → Bool
is_elf_f_header m header =
    mem_cmp (λ i. m (header + i)) elf_magic 0 4 == 0
    && m (header + 4) == 2
    && m (header + 5) == 1
    && read16 m (header + 16) == 2
    && read16 m (header + 18) == 62
    && read32 m (header + 20) == 1

-- `e_entry`, `e_phoff`, `e_phentsize` and `e_phnum` of `Elf64_Ehdr`, and its size
abbrev pub e_entry : Mem → ℕ → ℕ
e_entry m header = read64 m (header + 24)

abbrev pub e_phoff : Mem → ℕ → ℕ
e_phoff m header = read64 m (header + 32)

abbrev pub e_phentsize : Mem → ℕ → ℕ
e_phentsize m header = read16 m (header + 54)

abbrev pub e_phnum : Mem → ℕ → ℕ
e_phnum m header = read16 m (header + 56)

abbrev pub elf_header_size : ℕ
elf_header_size = 64

-- The number of pages asked for a segment, as an `int`
unfoldable pub segment_pages : Mem → (phdr : ℕ) → ℕ
segment_pages m phdr = (read64 m (phdr + 40) + 8 - 1) % 2 ^ 64 / 8 % 2 ^ 32

module _ {S : Type 0} (firmware : Firmware S) where
  open firmware use {memory, lib_file_info, allocate_pool, allocate_pages, set_position, read}

  -- `ReadElfHeader`, which nothing calls; `header` is uninitialised there, too.
  unfoldable pub read_elf_header : S → (file header : ℕ) → Option (Option ℕ × S)
  read_elf_header s file header =
      or_null (lib_file_info s file)
        λ info s1. or_null (read s1 file elf_header_size header) λ count s2. some (some header, s2)

  -- `ReadElfProgramHeader`
  unfoldable pub read_elf_program_header : S → (kernel header : ℕ) → Option (Option ℕ × S)
  read_elf_program_header s kernel header =
      or_null (set_position s kernel (e_phoff (memory s) header)) λ position s1.
        let size : ℕ = e_phnum (memory s1) header * e_phentsize (memory s1) header in
        or_null (allocate_pool s1 size)
          λ phdrs s2. or_null (read s2 kernel size phdrs) λ count s3. some (some phdrs, s3)

  -- A segment of the type PT_LOAD; what the calls answer is not looked at, and the memory at the
  -- address is written whether it was allocated or not. The firmware puts the address back.
  unfoldable pub load_segment : S → (kernel phdr : ℕ) → S
  load_segment s kernel phdr =
      let m = memory s in
      let s1 = (allocate_pages s (segment_pages m phdr) (read64 m (phdr + 24))).1 in
      let s2 = (set_position s1 kernel (read64 (memory s1) (phdr + 8))).1 in
      (read s2 kernel (read64 (memory s2) (phdr + 32)) (read64 m (phdr + 24))).1

  -- The loop over the program headers; `none` is out of fuel.
  unfoldable pub load_segments : (fuel : ℕ) → S → (kernel header phdrs phdr : ℕ) → Option S
  load_segments zero s kernel header phdrs phdr = none
  load_segments (suc fuel) s kernel header phdrs phdr =
      let m = memory s in
      let s' = if read32 m phdr == 1 then load_segment s kernel phdr else s in
      let rest =
        load_segments fuel s' kernel header phdrs (phdr + e_phentsize (memory s') header) in
      if ltb phdr (phdrs + e_phnum m header * e_phentsize m header) then rest else some s
