-- ===== src/Lib.antt =====
-- A model of the Rizzos kernel and of what its parts promise.
--
-- The program. rizzos/src is a small x86-64 kernel. bootloader/bootloader.c starts it with a frame
-- buffer, a font, the firmware's memory map and the ACPI tables (rizzos/common). The kernel
-- builds a page frame allocator over the memory map, page tables over the allocator, a heap over
-- both, then the interrupt table, the drivers for keyboard, mouse and timer, and the walk over
-- the PCI devices.
--
-- Which file models what:
--   Base           shared names, Boolean tests, the bits of a number (Base/Bits)
--   Memory         rizzos/src/memory.c: memory is a function from addresses to bytes; MEM_Set64,
--                  MEM_Set32 and MEM_Set are set64, set32 and set8
--   Bitmap         rizzos/src/utils/bitmap.c: Bitmap_Get and Bitmap_Set are get and set
--   PageFrame      rizzos/src/paging/page_frame_allocator.c: the static variables are the record
--                  Pfa; each PFA_ function is a function from Pfa, and PFA_RequestPage is
--                  request_page; PageFrame/Init has PFA_InitEfiMemoryMap and MEM_GetTotalSize
--   Paging         rizzos/src/paging/paging.c (Paging/Entry) and page_map_indexer.c
--                  (Paging/Indexer) and page_table_manager.c (Paging/Mapper): PTM_MapMemory is
--                  map_memory. Paging/Walk is the processor's translation, which the mapping is
--                  checked against, and Paging/Tree the shape of the tables in memory.
--   Heap           rizzos/src/memory/heap.c: the static variables are the record Heap, the headers
--                  a function from virtual addresses; MEM_Malloc, MEM_Free, MEM_ExpandHeap and
--                  MEM_InitializeHeap are malloc, mem_free, expand_heap and initialize_heap.
--                  Heap/Segments has the abstract list of segments, Heap/Represents what it is
--                  for a heap to hold one, Heap/Grow what it is for its pages to be its own;
--                  Heap/Malloc puts search, expansion and split together, and Heap/Outcome says
--                  what they leave.
--   Interrupts     rizzos/src/interrupts/idt.c and interrupt_handler.c
--   Keyboard       rizzos/src/userinput/keyboard.c and kb_scancode_translation.c
--   Mouse          rizzos/src/userinput/mouse.c: the packets and the position; Mouse/Setup has
--                  UI_PS2Mouse_Init, and Mouse/Controller the device that it is checked against
--   Timer          rizzos/src/scheduling/pit.c: the divisor and its port writes; Timer/Sleep has the
--                  time since boot and PIT_Sleep, over the arithmetic of double as a parameter
--   Ports          rizzos/src/io.c: what answers at a port is a parameter
--   Pic            rizzos/src/interrupts/interrupts.c: INT_PIC_Remap and the handlers that end an
--                  interrupt; Pic/Device has the two controllers by their documentation
--   Graphics       rizzos/src/graphics/basic_graphics.c: text and the mouse pointer in memory; the
--                  static variables are the record Screen
--   Panic          rizzos/src/panic.c, and the handlers of faults in interrupts/interrupts.c
--   Cpu            rizzos/src/sysinfo/cpu.c: the instruction cpuid is a parameter
--   Acpi           rizzos/src/acpi.c: ACPI_FindTable is find_table
--   Fat            rizzos/src/filesystems/fat.c; Fat/Layout has the layout on a disk
--   Ahci           rizzos/src/ahci/ahci.c and fis.h: the registers are the parameter Hba; the waits
--                  are in Ahci, the command in Ahci/Command, probing and configuring in
--                  Ahci/Driver, AHCI_AHCIDriver in Ahci/Create; Ahci/Stop has what the command
--                  register is documented to do
--   Pci            rizzos/src/pci.c: the walk over buses, devices and functions
--   Gdt            rizzos/src/gdt/gdt.c; Memory/Names has the names of rizzos/src/uefi_memory.c
--   Kernel         rizzos/src/kernel.c: InitializeMemory, InitializeInterrupts, InitializeACPI, and
--                  _start in Kernel/Start; build_tables is the part of InitializeMemory that makes
--                  the page tables, and Kernel/Ready goes from there to the heap; Kernel/Typing
--                  takes the interrupts of the keyboard to the screen
--   Boot           bootloader/bootloader.c: the firmware and gnu-efi are the parameter Firmware;
--                  Boot/Load has what their calls are documented to do with files
--
-- State is passed explicitly: a C function that changes static variables or memory is a function
-- from the old state to the new one. A uint64_t is a natural number, and its wrap-around is
-- written out as % 2 ^ 64; a sum of pointers does not wrap.
--
-- Fuel. The fill loops of Memory take a round of fuel more than there are bytes, which is enough
-- for a word of any size; `none` is a run out of fuel. MEM_Malloc takes fuel for its search and
-- for its calls of itself; a search needs no more than there are segments, and a call five more.
-- PIT_Sleep takes fuel for each interrupt that it waits for.
-- The loop over the program headers of Boot takes fuel for each of them and the end. The waits of
-- Ahci for the controller take fuel, and more than the controller takes steps is enough; the
-- parameter `rounds`, and `timeout` in Mouse/Setup, stand for the source's bounds of 1000000 and
-- 100000. `none` of Ahci/Create and Boot can also be a fault, as their files say, and `none` of
-- print a text that is too long for its buffer.
-- Every other loop recurs on the rounds that are left.
--
-- Assumptions. The memory map is read as a list of descriptors; that the bitmap is not written
-- over it is not modelled. The headers of the heap are kept apart from the memory of the page
-- tables, so a write through a stray pointer of the program is not modelled; each header is a record
-- of its own, so headers that come to overlap, where a list no longer fills the addresses of the
-- heap, do not overwrite each other. Memory is plain
-- memory: no device answers at an address, but for the registers of Ahci, which are apart from
-- memory; the configuration space that Pci walks is read as memory.
--
-- That the allocator is ready when InitializeMemory builds the tables is a hypothesis (IsReady of
-- Paging/Tree): PFA_InitEfiMemoryMap does not lock the pages of its bitmap itself.
--
-- Not modelled. The messages that the drivers print, and the loops that the fault handlers and
-- _start end in; the instructions of _start that load the descriptor tables and cr3 and enable
-- interrupts; bootloader/legacy, which is assembly; bootloader/gnu-efi, bootloader/OVMFbin and
-- rizzos/lib/stb_sprintf.h, which are other projects' work.
pub mod Acpi
pub mod Ahci
pub mod Base
pub mod Bitmap
pub mod Boot
pub mod Cpu
pub mod Fat
pub mod Gdt
pub mod Graphics
pub mod Heap
pub mod Interrupts
pub mod Kernel
pub mod Keyboard
pub mod Memory
pub mod Mouse
pub mod PageFrame
pub mod Paging
pub mod Panic
pub mod Pci
pub mod Pic
pub mod Ports
pub mod Timer
