-- ===== src/Paging/Mapper.antt =====
-- rizzos/src/paging/page_table_manager.c: `PTM_MapMemory` over the page frame allocator, with the
-- page tables, the allocator's bitmap and the indices of `PMI_Create` in one memory.
pub mod Alloc
pub mod Calm
pub mod Down
pub mod Last
pub mod Hang
pub mod Map
pub mod Root
pub mod Sample
pub mod Step
mod Tests
use rizzos.Base.{
  ◌>>=◌, ℕ, ◌+◌, ◌*◌, ◌/◌, ◌%◌, ◌^◌, Bool, true, false, Option, none, some, if◌then◌else◌,
}
use rizzos.Memory.{Mem, read64, write64, set64}
use rizzos.PageFrame.{Pfa, frame_size, request_page}
use rizzos.Paging.Entry.{
  PageDirEntry, present, readwrite, set_flag, get_flag, set_address, get_address,
}
use rizzos.Paging.Indexer.{create, pdp_i_offset, pd_i_offset, pt_i_offset, p_i}

-- `PageTableManager`, which `PTM_Create` sets.
pub record PageTableManager : Type 0 where
  pub pml4 : ℕ

unfoldable pub ptm_create : ℕ → PageTableManager
ptm_create plm4_address = record { pml4 = plm4_address }

-- `table->entries[index]`
abbrev pub slot : ℕ → ℕ → ℕ
slot table index = table + index * 8

-- `PDE_SetAddress(&pde, address >> 12)` and the two flags, as each step of the mapping sets them.
unfoldable pub point_to : PageDirEntry → ℕ → PageDirEntry
point_to pde address =
    let addressed = set_address pde (address / 2 ^ 12) in
    let shown = set_flag addressed present true in set_flag shown readwrite true

-- One of the three steps down: the table that the entry points to, after a page is requested,
-- cleared and entered where there was none. The index is the field of the indexer at the address
-- `field`, which is read again for the entry that is written.
unfoldable pub next_table : Pfa → (table field : ℕ) → Option (ℕ × Pfa)
next_table s table field =
    let pde : PageDirEntry = record { value = read64 s.mem (slot table (read64 s.mem field)) } in
    let (page, s') = request_page s in
    let fresh : Option (ℕ × Pfa) = set64 s'.mem page 0 frame_size >>= λ m.
    some (
      page,
      record s' { mem = write64 m (slot table (read64 m field)) (point_to pde page).value },
    ) in
    if get_flag pde present then some (get_address pde * 2 ^ 12 % 2 ^ 64, s) else fresh

-- The last step: the page's own entry.
unfoldable pub set_page : Pfa → (table index physical_memory : ℕ) → Pfa
set_page s table index physical_memory =
    let pde : PageDirEntry = record { value = read64 s.mem (slot table index) } in
    record s { mem = write64 s.mem (slot table index) (point_to pde physical_memory).value }

-- `PTM_MapMemory`. `none` is a fill that does not end.
unfoldable pub map_memory :
    PageTableManager → Pfa → (virtual_memory physical_memory : ℕ) → Option Pfa
map_memory manager s virtual_memory physical_memory =
    let (m, indexer) = create s.mem virtual_memory in
    let s0 = record s { mem = m } in
    next_table s0 manager.pml4 (indexer + pdp_i_offset) >>= λ (pdp, s1).
    next_table s1 pdp (indexer + pd_i_offset) >>= λ (pd, s2).
    next_table s2 pd (indexer + pt_i_offset) >>= λ (pt, s3).
    some (set_page s3 pt (p_i s3.mem indexer) physical_memory)
