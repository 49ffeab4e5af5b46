-- ===== src/PageFrame/Init.antt =====
-- `PFA_InitEfiMemoryMap` of rizzos/src/paging/page_frame_allocator.c, with `MEM_GetTotalSize` of
-- rizzos/src/memory.c and the descriptors of rizzos/src/uefi_memory.h.
pub mod Marks
use rizzos.Base.{
  ℕ, zero, suc, ◌+◌, ◌*◌, ◌/◌, ◌%◌, ◌^◌, Bool, true, false, ◌&&◌, List, [], ◌∷◌, Option, none, some,
  ltb, ◌==◌, if◌then◌else◌,
}
use rizzos.Memory.{Mem, set64}
use rizzos.Bitmap.{Bitmap}
use rizzos.PageFrame.{Pfa, frame_size, unreserve_pages, reserve_pages, lock_pages}

-- `EFIMemoryDescriptor`: a memory map is the list of the descriptors found at the strides of
-- `desc_size` bytes from its start.
pub record EfiMemoryDescriptor : Type 0 where
  pub type : ℕ
  pub pad : ℕ
  pub phys_addr : ℕ
  pub virt_addr : ℕ
  pub num_pages : ℕ
  pub attribs : ℕ

-- The loop of `MEM_GetTotalSize`.
unfoldable pub sum_sizes : List EfiMemoryDescriptor → ℕ → ℕ
sum_sizes [] memory_size = memory_size
sum_sizes (d ∷ mmap) memory_size =
    sum_sizes mmap ((memory_size + d.num_pages * 4096 % 2 ^ 64) % 2 ^ 64)

-- `MEM_GetTotalSize`: `cached` is its static variable, and the answer is its new value.
unfoldable pub get_total_size : ℕ → List EfiMemoryDescriptor → ℕ
get_total_size cached mmap = if ltb 0 cached then cached else sum_sizes mmap cached

-- The conventional memory of the map's first loop: the largest range's address and size.
unfoldable pub largest_free : List EfiMemoryDescriptor → ℕ → ℕ → ℕ × ℕ
largest_free [] mem size = (mem, size)
largest_free (d ∷ mmap) mem size =
    let bytes : ℕ = d.num_pages * frame_size % 2 ^ 64 in
    let larger = (d.type == 7) && ltb size bytes in
    largest_free mmap (if larger then d.phys_addr else mem) (if larger then bytes else size)

-- `InitBitmap`
pub init_bitmap : Pfa → ℕ → ℕ → Option Pfa
init_bitmap s bitmap_size buffer_address =
    let bitmap : Bitmap = record { size = bitmap_size; buffer = buffer_address } in
    elim (set64 s.mem buffer_address 0 bitmap_size) [
      | none ↦ none
      | some m ↦ some (record s { page_bitmap = bitmap; mem = m })
    ]

-- The loop that gives the conventional memory back.
pub unreserve_free : List EfiMemoryDescriptor → Pfa → Pfa
unreserve_free [] s = s
unreserve_free (d ∷ mmap) s =
    unreserve_free mmap (if d.type == 7 then unreserve_pages s d.phys_addr d.num_pages else s)

-- What follows `InitBitmap`. The last call locks from `bitmap_variable` on, which is
-- `&g_pageBitmap.buffer`, the address of the static pointer and not the pointer.
pub mark_pages : (bitmap_variable : ℕ) → List EfiMemoryDescriptor → ℕ → Pfa → Pfa
mark_pages bitmap_variable mmap total_memory_size s =
    let s1 = reserve_pages s 0 (total_memory_size / frame_size + 1) in
    let s2 = unreserve_free mmap s1 in
    let s3 = reserve_pages s2 0 0x100 in
    lock_pages s3 bitmap_variable (s3.page_bitmap.size / frame_size + 1)

-- `PFA_InitEfiMemoryMap`. `none` is a fill that does not end.
pub init_efi_memory_map : (bitmap_variable cached : ℕ) → List EfiMemoryDescriptor → Pfa → Option Pfa
init_efi_memory_map bitmap_variable cached mmap s =
    if s.initialized
    then some s
    else let total_memory_size : ℕ = get_total_size cached mmap in
      let bitmap_size : ℕ = total_memory_size / (frame_size * 8) + 1 in
      let largest = largest_free mmap 0 0 in
      let begun = record s { initialized = true; free_memory = total_memory_size } in
      elim (init_bitmap begun bitmap_size largest.0) [
        | none ↦ none
        | some s' ↦ some (mark_pages bitmap_variable mmap total_memory_size s')
      ]
