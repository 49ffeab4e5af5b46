-- ===== src/Fat/Layout.antt =====
-- rizzos/src/filesystems/fat.c and fat.h, against the layout of a FAT16 boot sector on a disk.
use rizzos.Base.{
  ℕ, ◌+◌, ◌*◌, ◌/◌, ◌%◌, ◌^◌, ◌≡◌, refl, ◌||◌, ◌==◌, none, some, if◌then◌else◌, arith,
}
use rizzos.Heap.{Heap, malloc}
use rizzos.Memory.{Mem, read_bytes, read16, read32}
use rizzos.Memory.Bytes.{IsBytes}
use rizzos.Fat.{
  FatBpb, bpb_size, fat16_size, read_bpb, read_ebpb16, read_fat16, filled, parse_fat16_12,
}

-- What the boot sector of a FAT16 volume says
pub record Volume : Type 0 where
  pub bytes_per_sector : ℕ
  pub sectors_per_cluster : ℕ
  pub reserved_sectors : ℕ
  pub fats : ℕ
  pub root_entries : ℕ
  pub sectors : ℕ
  pub media : ℕ
  pub sectors_per_fat : ℕ
  pub sectors_per_track : ℕ
  pub heads : ℕ
  pub hidden_sectors : ℕ
  pub large_sectors : ℕ
  pub drive : ℕ
  pub reserved : ℕ
  pub serial : ℕ

-- The sector at `b` holds the volume: the fields follow one another without a gap, from the jump
-- on, and the extended signature is 0x29.
abbrev pub IsVolume : Mem → ℕ → Volume → Type 0
IsVolume m b v =
    (m b ≡ 0xeb)
    × (m (b + 2) ≡ 0x90)
    × (read16 m (b + 11) ≡ v.bytes_per_sector)
    × (m (b + 13) ≡ v.sectors_per_cluster)
    × (read16 m (b + 14) ≡ v.reserved_sectors)
    × (m (b + 16) ≡ v.fats)
    × (read16 m (b + 17) ≡ v.root_entries)
    × (read16 m (b + 19) ≡ v.sectors)
    × (m (b + 21) ≡ v.media)
    × (read16 m (b + 22) ≡ v.sectors_per_fat)
    × (read16 m (b + 24) ≡ v.sectors_per_track)
    × (read16 m (b + 26) ≡ v.heads)
    × (read32 m (b + 28) ≡ v.hidden_sectors)
    × (read32 m (b + 32) ≡ v.large_sectors)
    × (m (b + 36) ≡ v.drive)
    × (m (b + 37) ≡ v.reserved)
    × (m (b + 38) ≡ 0x29)
    × (read32 m (b + 39) ≡ v.serial)

-- What the structure holds of such a volume
unfoldable pub misread_bpb : Volume → FatBpb
misread_bpb v = record {
  num_bytes_per_sector = v.bytes_per_sector / 2 ^ 8 + 2 ^ 8 * v.sectors_per_cluster;
  sectors_per_cluster = v.reserved_sectors % 2 ^ 8;
  num_reserved_sectors = v.fats + 2 ^ 8 * (v.root_entries % 2 ^ 8);
  num_file_alocation_tables = v.root_entries / 2 ^ 8;
  num_root_dir_entries = v.sectors / 2 ^ 8 + 2 ^ 8 * v.media;
  num_logical_sectors = v.sectors_per_fat;
  media_descriptor_type = v.sectors_per_track % 2 ^ 8;
  num_sectors_per_fat = v.heads;
  num_sectors_per_track = v.hidden_sectors % 2 ^ 16;
  num_heads = v.hidden_sectors / 2 ^ 16;
  num_hidden_sectors = v.large_sectors;
  large_sector_count = v.drive + 2 ^ 8 * v.reserved + 2 ^ 16 * (0x29 + 2 ^ 8 * (v.serial % 2 ^ 8));
}

-- The two halves of a word, and a word of two bytes
halves :
    (m : Mem) (a b w : ℕ)
    → b ≡ a + 1
    → IsBytes m
    → read16 m a ≡ w
    → (m a ≡ w % 2 ^ 8) × (m b ≡ w / 2 ^ 8)
unfolding read_bytes
halves m a b w next bytes held = rw next (omega (arith, bytes a), omega (arith, bytes a))

whole : (m : Mem) (a b lo hi : ℕ) → b ≡ a + 1 → m a ≡ lo → m b ≡ hi → read16 m a ≡ lo + 2 ^ 8 * hi
unfolding read_bytes
whole m a b lo hi next low high = rw (← next, low, high) (omega arith)

-- The two words of a number of four bytes, and a number of two words
words :
    (m : Mem) (a b w : ℕ)
    → b ≡ a + 1 + 1
    → IsBytes m
    → read32 m a ≡ w
    → (read16 m a ≡ w % 2 ^ 16) × (read16 m b ≡ w / 2 ^ 16)
unfolding read_bytes
words m a b w next bytes held =
    let low = bytes (a + 1) in rw next (omega (arith, bytes a, low), omega (arith, bytes a, low))

joined :
    (m : Mem) (a b lo hi : ℕ)
    → b ≡ a + 1 + 1
    → read16 m a ≡ lo
    → read16 m b ≡ hi
    → read32 m a ≡ lo + 2 ^ 16 * hi
unfolding read_bytes
joined m a b lo hi next low high =
    let high' : m (a + 1 + 1) + 2 ^ 8 * (m (a + 1 + 1 + 1) + 2 ^ 8 * 0) ≡ hi = rw next at high in
    omega arith

read_bpb-misread :
    (m : Mem) (b : ℕ) (v : Volume) → IsBytes m → IsVolume m b v → read_bpb m b ≡ misread_bpb v
unfolding read_bpb misread_bpb
read_bpb-misread m b v bytes held =
    let (
      jump, nop, bps, spc, res, fats, roots, secs, media, spf, spt, heads, hidden, large, drive,
      resv, sig, serial,
    ) =
      held in
    let size = halves m (b + 11) (b + 12) v.bytes_per_sector (omega arith) bytes bps in
    let kept = halves m (b + 14) (b + 15) v.reserved_sectors (omega arith) bytes res in
    let root = halves m (b + 17) (b + 18) v.root_entries (omega arith) bytes roots in
    let count = halves m (b + 19) (b + 20) v.sectors (omega arith) bytes secs in
    let track = halves m (b + 24) (b + 25) v.sectors_per_track (omega arith) bytes spt in
    let hide = words m (b + 28) (b + 30) v.hidden_sectors (omega arith) bytes hidden in
    let low = words m (b + 39) (b + 41) v.serial (omega arith) bytes serial in
    let first = (halves m (b + 39) (b + 40) (v.serial % 2 ^ 16) (omega arith) bytes low.0).0 in
    let last : m (b + 39) ≡ v.serial % 2 ^ 8 = omega (arith, first) in
    let e11 =
      joined m (b + 36) (b + 38) _ _ (omega arith)
        (whole m (b + 36) (b + 37) v.drive v.reserved (omega arith) drive resv)
        (whole m (b + 38) (b + 39) 0x29 (v.serial % 2 ^ 8) (omega arith) sig last) in
    λ i. record {
      num_bytes_per_sector = whole m (b + 12) (b + 13) _ _ (omega arith) size.1 spc i;
      sectors_per_cluster = kept.0 i;
      num_reserved_sectors = whole m (b + 16) (b + 17) _ _ (omega arith) fats root.0 i;
      num_file_alocation_tables = root.1 i;
      num_root_dir_entries = whole m (b + 20) (b + 21) _ _ (omega arith) count.1 media i;
      num_logical_sectors = spf i;
      media_descriptor_type = track.0 i;
      num_sectors_per_fat = heads i;
      num_sectors_per_track = hide.0 i;
      num_heads = hide.1 i;
      num_hidden_sectors = large i;
      large_sector_count = e11 i;
    }

-- If the memory holds bytes, and the buffer the boot sector of a FAT16 volume in the layout of a
-- disk, FAT_ParseFat16_12 returns NULL exactly if the top byte of the volume's serial number is
-- 0x28 or 0x29. Otherwise it allocates the structure, whose fields are put together from bytes of
-- other fields: the bytes per sector, for one, from their high byte and the sectors per cluster.
pub parse_fat16_12-misreads :
    (fuel : ℕ) (h : Heap) (buffer : ℕ) (v : Volume)
    → IsBytes h.frames.mem
    → IsVolume h.frames.mem buffer v
    → (parse_fat16_12 fuel h buffer ≡ (
        if v.serial / 2 ^ 24 == 0x28 || v.serial / 2 ^ 24 == 0x29
        then some (none, h)
        else filled (read_fat16 h.frames.mem buffer) (malloc fuel h fat16_size)))
      × ((read_fat16 h.frames.mem buffer).bpb ≡ misread_bpb v)
unfolding parse_fat16_12 read_fat16 read_ebpb16
parse_fat16_12-misreads fuel h b v bytes held =
    let m = h.frames.mem in
    let low = words m (b + 39) (b + 41) v.serial (omega arith) bytes held.17 in
    let top = (halves m (b + 41) (b + 42) (v.serial / 2 ^ 16) (omega arith) bytes low.1).1 in
    let place : b + bpb_size + 2 ≡ b + 42 = omega arith in
    let test : m (b + bpb_size + 2) ≡ v.serial / 2 ^ 24 = rw place (omega (arith, top)) in
    (rw (held.0, held.1, test) refl, read_bpb-misread m b v bytes held)
