-- ===== src/PageFrame.antt =====
-- rizzos/src/paging/page_frame_allocator.c: the operations on single pages, on ranges, and the
-- request of a page. `PFA_InitEfiMemoryMap` is in PageFrame/Init.antt.
pub mod Accounting
pub mod Bits
pub mod Init
pub mod Lowest
pub mod Ranges
pub mod Request
mod Tests
use rizzos.Base.{
  ℕ, zero, suc, ◌+◌, ◌-◌, ◌*◌, ◌/◌, ◌%◌, ◌^◌, Bool, true, false, not, ltb, if◌then◌else◌,
}
use rizzos.Memory.{Mem}
use rizzos.Bitmap
use rizzos.Bitmap.{Bitmap}

-- MEM_FRAME_SIZE
abbrev pub frame_size : ℕ
frame_size = 0x1000

-- The static variables of the file, and the memory that the bitmap lies in.
pub record Pfa : Type 0 where
  pub free_memory : ℕ
  pub reserved_memory : ℕ
  pub used_memory : ℕ
  pub initialized : Bool
  pub page_bitmap : Bitmap
  pub last_reserved_page : ℕ
  pub mem : Mem

-- `a += MEM_FRAME_SIZE` and `a -= MEM_FRAME_SIZE` on a `uint64_t`
abbrev pub add_frame : ℕ → ℕ
add_frame a = (a + frame_size) % 2 ^ 64

abbrev pub sub_frame : ℕ → ℕ
sub_frame a = (a + 2 ^ 64 - frame_size) % 2 ^ 64

-- The bit of page `index`.
abbrev pub locked : Pfa → ℕ → Bool
locked s index = Bitmap.get s.mem s.page_bitmap index

-- `if (g_lastReservedPage > index) g_lastReservedPage = index;`
abbrev pub lower_last : ℕ → ℕ → ℕ
lower_last last index = if ltb index last then index else last

-- `PFA_LockPage`
pub lock_page : Pfa → ℕ → Pfa
lock_page s address =
    let index : ℕ = address / frame_size in
    let (done, m) = Bitmap.set s.mem s.page_bitmap index true in
    if locked s index
    then s
    else if done
    then record s {
      free_memory = sub_frame s.free_memory;
      used_memory = add_frame s.used_memory;
      mem = m;
    }
    else record s { mem = m }

-- `PFA_FreePage`
pub free_page : Pfa → ℕ → Pfa
free_page s address =
    let index : ℕ = address / frame_size in
    let (done, m) = Bitmap.set s.mem s.page_bitmap index false in
    if not (locked s index)
    then s
    else if done
    then record s {
      free_memory = add_frame s.free_memory;
      used_memory = sub_frame s.used_memory;
      last_reserved_page = lower_last s.last_reserved_page index;
      mem = m;
    }
    else record s { mem = m }

-- `ReservePage`
pub reserve_page : Pfa → ℕ → Pfa
reserve_page s address =
    let index : ℕ = address / frame_size in
    let (done, m) = Bitmap.set s.mem s.page_bitmap index true in
    if locked s index
    then s
    else if done
    then record s {
      free_memory = sub_frame s.free_memory;
      reserved_memory = add_frame s.reserved_memory;
      mem = m;
    }
    else record s { mem = m }

-- `UnreservePage`
pub unreserve_page : Pfa → ℕ → Pfa
unreserve_page s address =
    let index : ℕ = address / frame_size in
    let (done, m) = Bitmap.set s.mem s.page_bitmap index false in
    if not (locked s index)
    then s
    else if done
    then record s {
      free_memory = add_frame s.free_memory;
      reserved_memory = sub_frame s.reserved_memory;
      last_reserved_page = lower_last s.last_reserved_page index;
      mem = m;
    }
    else record s { mem = m }

-- `for (i = 0; i < pageCount; i++) op(address + i * MEM_FRAME_SIZE)`, on the rounds left.
pub for_pages : (Pfa → ℕ → Pfa) → Pfa → ℕ → ℕ → ℕ → Pfa
for_pages op s address i zero = s
for_pages op s address i (suc rounds) =
    for_pages op (op s ((address + i * frame_size) % 2 ^ 64)) address (i + 1) rounds

-- `PFA_LockPages`, `PFA_FreePages`, `ReservePages`, `UnreservePages`
pub lock_pages : Pfa → ℕ → ℕ → Pfa
lock_pages s address page_count = for_pages lock_page s address 0 page_count

pub free_pages : Pfa → ℕ → ℕ → Pfa
free_pages s address page_count = for_pages free_page s address 0 page_count

pub reserve_pages : Pfa → ℕ → ℕ → Pfa
reserve_pages s address page_count = for_pages reserve_page s address 0 page_count

pub unreserve_pages : Pfa → ℕ → ℕ → Pfa
unreserve_pages s address page_count = for_pages unreserve_page s address 0 page_count

-- `g_pageBitmap.size * 8`
abbrev pub page_bound : Pfa → ℕ
page_bound s = s.page_bitmap.size * 8 % 2 ^ 64

-- The loop of `PFA_RequestPage`, on the rounds left before `index` reaches the bound.
-- The answer 0 is NULL.
unfoldable pub request_loop : Pfa → ℕ → ℕ → ℕ × Pfa
request_loop s index zero = (0, s)
request_loop s index (suc rounds) =
    let rest = request_loop s (index + 1) rounds in
    let address : ℕ = index * frame_size % 2 ^ 64 in
    if locked s index
    then rest
    else (address, record (lock_page s address) { last_reserved_page = index })

-- `PFA_RequestPage`
unfoldable pub request_page : Pfa → ℕ × Pfa
request_page s = request_loop s s.last_reserved_page (page_bound s - s.last_reserved_page)
