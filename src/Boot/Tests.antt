-- ===== src/Boot/Tests.antt =====
-- Runs and instances for bootloader/bootloader.c.
use rizzos.Base.{
  ℕ, ◌+◌, ◌-◌, ◌*◌, ◌%◌, ◌<◌, ◌≡◌, refl, sym, ◌∙◌, ◌⊎◌, inl, inr, Bool, true, false, leb, ltb, ◌||◌,
  ◌&&◌, ◌==◌, none, some, if◌then◌else◌, arith,
}
use rizzos.Memory.{Mem, read_bytes, read64}
use rizzos.Boot.{Firmware}
use rizzos.Boot.Elf.{is_elf_f_header, mem_cmp, elf_magic, e_phnum, e_phentsize, load_segments}
use rizzos.Boot.Load.{Files, IsImage, p_offset, p_paddr, p_filesz}
use rizzos.Boot.Segments.{Loaded, load_segments-Loads}
use rizzos.Boot.Rsdp.{
  LastTaken, rsd_ptr, strcmp, rsdp_step, rsdp_loop, find_rsdp, find_rsdp-LastTaken,
}

-- Three tables of the firmware at 0x1000, whose structures lie at 0x2000, 0x2100 and 0x2200 and all
-- begin with "RSD PTR "; the identifier of ACPI 2.0 is that of the entries 0 and 2.
abbrev three_tables : Mem
three_tables a =
    if a == 0x1000 || a == 0x1030
    then 0x71
    else if a == 0x1011
    then 0x20
    else if a == 0x1029
    then 0x21
    else if a == 0x1028
    then 0x00
    else if a == 0x1041
    then 0x22
    else if leb 0x2000 a && ltb a 0x2008
    then rsd_ptr (a - 0x2000)
    else if leb 0x2100 a && ltb a 0x2108
    then rsd_ptr (a - 0x2100)
    else if leb 0x2200 a && ltb a 0x2208
    then rsd_ptr (a - 0x2200)
    else 0

abbrev acpi2 : Mem → ℕ → Bool
acpi2 m guid = m guid == 0x71

find_rsdp-LastTaken_example :
    LastTaken acpi2 three_tables 0x1000 0 0 3 (find_rsdp acpi2 three_tables 0x1000 3)
find_rsdp-LastTaken_example = find_rsdp-LastTaken acpi2 three_tables 0x1000 3

-- The entry between the two is taken.
wrong_table : find_rsdp acpi2 three_tables 0x1000 3 ≡ 0x2100
unfolding find_rsdp rsdp_loop rsdp_step strcmp rsd_ptr read64
wrong_table = refl

abbrev elf_header : Mem
elf_header a =
    if ltb a 4
    then elf_magic a
    else if a == 4 || a == 16
    then 2
    else if a == 5 || a == 20
    then 1
    else if a == 18
    then 62
    else 0

header_accepted : is_elf_f_header elf_header 0 ≡ true
unfolding is_elf_f_header mem_cmp elf_magic read_bytes
header_accepted = refl

-- A disk with one file, whose bytes count up, and its position in the file
record Disk : Type 0 where
  mem : Mem
  position : ℕ

abbrev file_byte : ℕ → ℕ
file_byte p = p % 256

abbrev disk_read : Disk → (n a : ℕ) → Disk
disk_read d n a = record {
  mem = λ x. if leb a x && ltb x (a + n) then file_byte (d.position + (x - a)) else d.mem x;
  position = d.position + n;
}

abbrev disk_firmware : Firmware Disk
disk_firmware = record {
  memory = λ d. d.mem;
  store = λ d m. record d { mem = m };
  locate_gop = λ d. (none, d);
  loaded_image = λ d. (none, d);
  lib_open_root = λ d device. (none, d);
  open_file = λ d directory path. (none, d);
  lib_file_info = λ d file. (none, d);
  allocate_pool = λ d n. (none, d);
  allocate_pages = λ d n a. (some a, d);
  set_position = λ d file p. (some p, record d { position = p });
  read = λ d file n a. (some n, disk_read d n a);
  lib_memory_map = λ d. (record { map = 0; no_entries = 0; map_key = 0; descriptor_size = 0 }, d);
  compare_guid = λ m guid. false;
  exit_boot_services = λ d key. d;
}

disk_files : Files disk_firmware
disk_files = record {
  content = λ file p. file_byte p;
  lenght = λ file. 0x1000;
  position = λ d file. d.position;
  seeks = λ d file p. refl;
  seek_memory = λ d file p. refl;
  pages_memory = λ d n a. refl;
  reads = λ d file n a x fits. refl;
}

-- Two segments: 0x20 bytes from 0x100 on to 0x100000, and 0x10 bytes from 0x180 on to 0x101000
abbrev two_segments : Mem
two_segments a =
    if a == 0x1036
    then 56
    else if a == 0x1038
    then 2
    else if a == 0x2000 || a == 0x2038
    then 1
    else if a == 0x2009 || a == 0x2041
    then 1
    else if a == 0x2040
    then 0x80
    else if a == 0x201a || a == 0x2052
    then 0x10
    else if a == 0x2051
    then 0x10
    else if a == 0x2020
    then 0x20
    else if a == 0x2058
    then 0x10
    else 0

-- The values of the fields
count_two : e_phnum two_segments 0x1000 ≡ 2
unfolding read_bytes
count_two = refl

size_56 : e_phentsize two_segments 0x1000 ≡ 56
unfolding read_bytes
size_56 = refl

first_segment :
    (p_offset 0x1000 0x2000 two_segments 0 ≡ 0x100)
    × (p_paddr 0x1000 0x2000 two_segments 0 ≡ 0x100000)
    × (p_filesz 0x1000 0x2000 two_segments 0 ≡ 0x20)
unfolding read_bytes read64
first_segment = (refl, refl, refl)

second_segment :
    (p_offset 0x1000 0x2000 two_segments 1 ≡ 0x180)
    × (p_paddr 0x1000 0x2000 two_segments 1 ≡ 0x101000)
    × (p_filesz 0x1000 0x2000 two_segments 1 ≡ 0x10)
unfolding read_bytes read64
second_segment = (refl, refl, refl)

table_size : e_phnum two_segments 0x1000 * e_phentsize two_segments 0x1000 ≡ 112
table_size = rw (count_two, size_56) refl

-- One of the two
which_segment : (i : ℕ) → i < e_phnum two_segments 0x1000 → (i ≡ 0) ⊎ (i ≡ 1)
which_segment i small = omega (arith, count_two)

two_segments-IsImage : IsImage 0x1000 0x2000 two_segments 0x1000
two_segments-IsImage = record {
  entry_size = omega (arith, size_56);
  in_file = λ i small load. elim (which_segment i small) [
    | inl e ↦ rw e (omega (arith, first_segment))
    | inr e ↦ rw e (omega (arith, second_segment))
  ];
  off_headers = λ i x small load there. elim (which_segment i small) [
    | inl e ↦ rw e (omega (arith, first_segment, table_size, there))
    | inr e ↦ rw e (omega (arith, second_segment, table_size, there))
  ];
  apart = λ i j x small small' load load' other from to. elim (which_segment i small) [
    | inl e ↦ elim (which_segment j small') [
      | inl e' ↦ absurd (other (e ∙ sym e'))
      | inr e' ↦ rw e' (omega (arith, first_segment, second_segment, (rw e at from), (rw e at to)))
    ]
    | inr e ↦ elim (which_segment j small') [
      | inl e' ↦ rw e' (omega (arith, first_segment, second_segment, (rw e at from), (rw e at to)))
      | inr e' ↦ absurd (other (e ∙ sym e'))
    ]
  ];
}

load_segments-Loads_example :
    (s' : Disk) × (load_segments disk_firmware 3
        (record { mem = two_segments; position = 64 })
        5
        0x1000
        0x2000
        0x2000
      ≡ some s')
    × Loaded 0x1000 0x2000 two_segments file_byte 0
        (e_phnum two_segments 0x1000)
        two_segments
        s'.mem
unfolding disk_files
load_segments-Loads_example =
    load_segments-Loads 0x1000 0x2000 disk_firmware disk_files 5 3
      (record { mem = two_segments; position = 64 }) two_segments-IsImage (omega (arith, count_two))
