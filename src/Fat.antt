-- ===== src/Fat.antt =====
-- rizzos/src/filesystems/fat.c and fat.h: the boot sector of a volume.
pub mod Layout
mod Tests
use rizzos.Base.{
  ℕ, zero, suc, ◌+◌, ◌-◌, ◌*◌, ◌/◌, ◌%◌, ◌^◌, Bool, true, false, not, ◌||◌, ◌==◌, Option, none,
  some, if◌then◌else◌,
}
use rizzos.Heap.{Heap, malloc}
use rizzos.Memory.{Mem, read16, read32}

-- `FAT_Bpb`, without the bytes of the jump and of the name. The structure is not packed, so the
-- fields lie at multiples of their size: 12 for the first word, 40 for the whole.
pub record FatBpb : Type 0 where
  pub num_bytes_per_sector : ℕ
  pub sectors_per_cluster : ℕ
  pub num_reserved_sectors : ℕ
  pub num_file_alocation_tables : ℕ
  pub num_root_dir_entries : ℕ
  pub num_logical_sectors : ℕ
  pub media_descriptor_type : ℕ
  pub num_sectors_per_fat : ℕ
  pub num_sectors_per_track : ℕ
  pub num_heads : ℕ
  pub num_hidden_sectors : ℕ
  pub large_sector_count : ℕ

-- `sizeof(FAT_Bpb)` and `sizeof(FAT16)`
abbrev pub bpb_size : ℕ
bpb_size = 40

abbrev pub fat16_size : ℕ
fat16_size = 68

unfoldable pub read_bpb : Mem → ℕ → FatBpb
read_bpb m b = record {
  num_bytes_per_sector = read16 m (b + 12);
  sectors_per_cluster = m (b + 14);
  num_reserved_sectors = read16 m (b + 16);
  num_file_alocation_tables = m (b + 18);
  num_root_dir_entries = read16 m (b + 20);
  num_logical_sectors = read16 m (b + 22);
  media_descriptor_type = m (b + 24);
  num_sectors_per_fat = read16 m (b + 26);
  num_sectors_per_track = read16 m (b + 28);
  num_heads = read16 m (b + 30);
  num_hidden_sectors = read32 m (b + 32);
  large_sector_count = read32 m (b + 36);
}

-- `FAT_Ebpb16`, without the volume's label and the system's name
pub record FatEbpb16 : Type 0 where
  pub drive_number : ℕ
  pub resv : ℕ
  pub signature : ℕ
  pub volume_id : ℕ

unfoldable pub read_ebpb16 : Mem → ℕ → FatEbpb16
read_ebpb16 m b = record {
  drive_number = m b;
  resv = m (b + 1);
  signature = m (b + 2);
  volume_id = read32 m (b + 4);
}

-- `FAT16`
pub record Fat16 : Type 0 where
  pub bpb : FatBpb
  pub ebpb : FatEbpb16

-- The structure of the sector in memory
unfoldable pub read_fat16 : Mem → ℕ → Fat16
read_fat16 m buffer = record { bpb = read_bpb m buffer; ebpb = read_ebpb16 m (buffer + bpb_size) }

-- What an allocation leaves, with the structure copied into it
unfoldable pub filled : Fat16 → Option (ℕ × Heap) → Option (Option (ℕ × Fat16) × Heap)
filled fat16 none = none
filled fat16 (some (a, h)) = some (some (a, fat16), h)

-- `FAT_ParseFat16_12` of the buffer in memory: NULL, or the structure that is allocated, with its
-- address, and the heap. The outer `none` is an allocation out of fuel.
unfoldable pub parse_fat16_12 :
    (fuel : ℕ) → Heap → (buffer : ℕ) → Option (Option (ℕ × Fat16) × Heap)
parse_fat16_12 fuel h buffer =
    let m = h.frames.mem in
    let fat16 = read_fat16 m buffer in
    if not (m buffer == 0xeb) || not (m (buffer + 2) == 0x90)
    then some (none, h)
    else if fat16.ebpb.signature == 0x28 || fat16.ebpb.signature == 0x29
    then some (none, h)
    else filled fat16 (malloc fuel h fat16_size)
