-- ===== src/Fat/Tests.antt =====
-- Runs and instances for rizzos/src/filesystems/fat.c.
use rizzos.Base.{◌/◌, ◌^◌, ◌≡◌, refl, ◌==◌, ◌||◌, if◌then◌else◌, arith, true, none, some}
use rizzos.Heap.{Heap, malloc}
use rizzos.Memory.{Mem, read_bytes}
use rizzos.Memory.Bytes.{IsBytes}
use rizzos.Fat.{fat16_size, read_fat16, filled, parse_fat16_12}
use rizzos.Fat.Layout.{Volume, IsVolume, misread_bpb, parse_fat16_12-misreads}

-- A volume of 32768 sectors of 512 bytes, at address 0x5000
abbrev volume : Volume
volume = record {
  bytes_per_sector = 512;
  sectors_per_cluster = 4;
  reserved_sectors = 1;
  fats = 2;
  root_entries = 512;
  sectors = 32768;
  media = 0xf8;
  sectors_per_fat = 32;
  sectors_per_track = 32;
  heads = 64;
  hidden_sectors = 0;
  large_sectors = 0;
  drive = 0x80;
  reserved = 0;
  serial = 0x12000000;
}

abbrev sector : Mem
sector a =
    if a == 0x5000
    then 0xeb
    else if a == 0x5002
    then 0x90
    else if a == 0x500c
    then 2
    else if a == 0x500d
    then 4
    else if a == 0x500e
    then 1
    else if a == 0x5010
    then 2
    else if a == 0x5012
    then 2
    else if a == 0x5014
    then 0x80
    else if a == 0x5015
    then 0xf8
    else if a == 0x5016
    then 32
    else if a == 0x5018
    then 32
    else if a == 0x501a
    then 64
    else if a == 0x5024
    then 0x80
    else if a == 0x5026
    then 0x29
    else if a == 0x502a
    then 0x12
    else 0

abbrev heap : Heap
heap = record {
  heap_start = 0x1000;
  heap_end = 0x1200;
  last_hdr = 0x1000;
  seg = λ a. record { lenght = 0x1e0; next = 0; last = 0; free = true };
  manager = record { pml4 = 0x2000 };
  frames = record {
    free_memory = 0;
    reserved_memory = 0;
    used_memory = 0;
    initialized = true;
    page_bitmap = record { size = 0; buffer = 0x3000 };
    last_reserved_page = 0;
    mem = sector;
  };
}

sector-IsBytes : IsBytes sector
sector-IsBytes a = ground arith

sector-IsVolume : IsVolume sector 0x5000 volume
unfolding read_bytes
sector-IsVolume = (
  refl, refl, refl, refl, refl, refl, refl, refl, refl, refl, refl, refl, refl, refl, refl, refl,
  refl, refl,
)

parse_fat16_12-misreads_example :
    (parse_fat16_12 9 heap 0x5000 ≡ (
      if volume.serial / 2 ^ 24 == 0x28 || volume.serial / 2 ^ 24 == 0x29
      then some (none, heap)
      else filled (read_fat16 sector 0x5000) (malloc 9 heap fat16_size)))
    × ((read_fat16 sector 0x5000).bpb ≡ misread_bpb volume)
parse_fat16_12-misreads_example =
    parse_fat16_12-misreads 9 heap 0x5000 volume sector-IsBytes sector-IsVolume
