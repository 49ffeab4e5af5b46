-- ===== src/Kernel.antt =====
-- rizzos/src/kernel.c: how the kernel starts its parts.
pub mod Dispatch
pub mod Identity
pub mod Ready
pub mod Start
pub mod Tables
pub mod Typing
mod Tests
use rizzos.Base.{
  ℕ, zero, suc, ◌+◌, ◌-◌, ◌*◌, ◌/◌, ◌%◌, ◌^◌, ◌>>=◌, Bool, List, [], ◌∷◌, Option, none, some,
  if◌then◌else◌,
}
use rizzos.Acpi.{find_table}
use rizzos.Ahci.{Hba}
use rizzos.Ahci.Driver.{AhciDriver}
use rizzos.Graphics.{FrameBuffer}
use rizzos.Heap.{Heap}
use rizzos.Interrupts.{Idtr, IdtDescEntry, init_interrupt_table, set_interrupt_handler}
use rizzos.Memory.{Mem, set64, read64}
use rizzos.PageFrame.{Pfa, frame_size, lock_pages, request_page}
use rizzos.PageFrame.Init.{EfiMemoryDescriptor, get_total_size, init_efi_memory_map}
use rizzos.Paging.Mapper.{PageTableManager, ptm_create, map_memory}
use rizzos.Pci.{enumerate_pci}
use rizzos.Pic.{pic1_data, pic2_data, remap}
use rizzos.Ports.{Ports}
use rizzos.Timer.{OutByte, set_divisor}

-- The loops that map every page of a range to itself, from `i` on, on the rounds left
unfoldable pub identity_loop : PageTableManager → Pfa → (i : ℕ) → (rounds : ℕ) → Option Pfa
identity_loop manager s i zero = some s
identity_loop manager s i (suc rounds) =
    map_memory manager s i i >>= λ s'. identity_loop manager s' ((i + frame_size) % 2 ^ 64) rounds

-- The rounds of `for (i = 0; i < size; i += MEM_FRAME_SIZE)`
abbrev pub pages_of : ℕ → ℕ
pages_of size = (size + frame_size - 1) / frame_size

-- The page tables in `InitializeMemory`: the first table, and the two loops
unfoldable pub build_tables :
    FrameBuffer → (memory_size : ℕ) → Pfa → Option (PageTableManager × Pfa)
build_tables frame_buffer memory_size s =
    let (pml4, s1) = request_page s in
    set64 s1.mem pml4 0 frame_size >>= λ m.
    let manager = ptm_create pml4 in
    identity_loop manager (record s1 { mem = m }) 0 (pages_of memory_size) >>= λ s2.
    identity_loop manager s2 frame_buffer.base_address (pages_of frame_buffer.buffer_size) >>= λ s3.
    some (manager, s3)

-- `InitializeMemory`, but for the write to `cr3`: `bitmap_variable` is the address of
-- `g_pageBitmap.buffer`, `kernel_start` and `kernel_end` are those of the linker's symbols. The
-- ranges are taken not to reach the end of the address space.
unfoldable pub initialize_memory :
    (bitmap_variable kernel_start kernel_end : ℕ)
    → FrameBuffer
    → List EfiMemoryDescriptor
    → Pfa
    → Option (PageTableManager × Pfa)
initialize_memory bitmap_variable kernel_start kernel_end frame_buffer mmap s =
    init_efi_memory_map bitmap_variable 0 mmap s >>= λ s1.
    let kernel_size : ℕ = (kernel_end + 2 ^ 64 - kernel_start) % 2 ^ 64 in
    let s2 = lock_pages s1 kernel_start (kernel_size / frame_size + 1) in
    let s3 = lock_pages s2 frame_buffer.base_address (frame_buffer.buffer_size / frame_size + 1) in
    let memory_size : ℕ = get_total_size (get_total_size 0 mmap) mmap in
    build_tables frame_buffer memory_size s3

-- The addresses of the handlers
pub record Handlers : Type 0 where
  pub page_fault : ℕ
  pub double_fault : ℕ
  pub gp_fault : ℕ
  pub keyboard : ℕ
  pub mouse : ℕ
  pub pit : ℕ

-- The six calls of `INTH_SetInterruptHandler`
unfoldable pub install : Idtr → (ℕ → IdtDescEntry) → Handlers → ℕ → IdtDescEntry
install idtr entries h =
    let e1 = set_interrupt_handler idtr entries 0xe h.page_fault in
    let e2 = set_interrupt_handler idtr e1 0x8 h.double_fault in
    let e3 = set_interrupt_handler idtr e2 0xd h.gp_fault in
    let e4 = set_interrupt_handler idtr e3 0x21 h.keyboard in
    let e5 = set_interrupt_handler idtr e4 0x2c h.mouse in set_interrupt_handler idtr e5 0x20 h.pit

-- Port writes, one after the other
unfoldable pub play : {S : Type 0} → Ports S → S → List OutByte → S
play io s [] = s
play io s (write ∷ rest) = play io (io.out_byte s write.port write.value) rest

module _ {S : Type 0} (io : Ports S) where
  -- `InitializeInterrupts`, but for `lidt`; `a2` is as in `INT_PIC_Remap`.
  unfoldable pub initialize_interrupts :
      (a2 : ℕ) → Handlers → S → Pfa → (ℕ → IdtDescEntry) → (Idtr × (ℕ → IdtDescEntry)) × S × Pfa
  initialize_interrupts a2 h s p entries =
      let (idtr, p') = init_interrupt_table p in
      let s' = play io s (set_divisor 2000).1 in
      ((idtr, install idtr entries h), remap io a2 s' 0x20 0x28, p')

  -- The masks at the end of `_start`
  unfoldable pub unmask : S → S
  unmask s = io.out_byte (io.out_byte s pic1_data 0b11111000) pic2_data 0b11101111

-- `InitializeACPI`, with the address of "MCFG" and of the RSDP, in which the address of the root
-- table lies at 24
unfoldable pub initialize_acpi :
    {S : Type 0}
    → Hba S
    → (rounds fuel : ℕ) → (ℕ → AhciDriver)
    → S × Heap
    → (rsdp signature : ℕ) → Option (S × Heap)
initialize_acpi hba rounds fuel stale (s, h) rsdp signature =
    let m = h.frames.mem in
    enumerate_pci hba rounds fuel stale (s, h) (find_table m (read64 m (rsdp + 24)) signature)
