-- ===== src/Kernel/Start.antt =====
-- rizzos/src/kernel.c: `_start`, up to the loop that waits for interrupts.
use rizzos.Base.{◌>>=◌, ℕ, List, Option, some}
use rizzos.Ahci.{Hba}
use rizzos.Ahci.Driver.{AhciDriver}
use rizzos.Graphics.{FrameBuffer, Psf1Font, Screen, init, set_bg_color, clear_bg, print}
use rizzos.Heap.{Heap, initialize_heap}
use rizzos.Interrupts.{IdtDescEntry}
use rizzos.Kernel.{Handlers, initialize_memory, initialize_interrupts, initialize_acpi, unmask}
use rizzos.Mouse.Setup.{ps2_mouse_init}
use rizzos.PageFrame.Init.{EfiMemoryDescriptor}
use rizzos.Panic.{bytes_of}
use rizzos.Ports.{Ports}

-- What `_start` uses of `UEFIBootData`, with what its pointers point to. `rsdp` is an address.
pub record BootData : Type 0 where
  pub frame_buffer : FrameBuffer
  pub console_font : Psf1Font
  pub m_map : List EfiMemoryDescriptor
  pub rsdp : ℕ

-- The addresses that the linker gives: of `g_pageBitmap.buffer`, of the kernel's two ends, of the
-- text "MCFG" and of the handlers.
pub record Addresses : Type 0 where
  pub bitmap_variable : ℕ
  pub kernel_start : ℕ
  pub kernel_end : ℕ
  pub mcfg : ℕ
  pub handlers : Handlers

-- The state of the kernel and of the devices. The memory is that of the heap's frames; the one in
-- `screen` is stale between two calls of the graphics.
pub record Machine (S : Type 0) : Type 0 where
  pub screen : Screen
  pub heap : Heap
  pub entries : ℕ → IdtDescEntry
  pub devices : S

-- The first address of the heap, and its pages
abbrev pub heap_address : ℕ
heap_address = 0x0000_1000_0000_0000

abbrev pub heap_pages : ℕ
heap_pages = 0x10

-- A call of the graphics, on the memory as it is
unfoldable pub on_screen : {S : Type 0} → (Screen → Option Screen) → Machine S → Option (Machine S)
on_screen draw k = draw (record k.screen { mem = k.heap.frames.mem }) >>= λ s. some (record k {
  screen = s;
  heap = record k.heap { frames = record k.heap.frames { mem = s.mem } };
})

module _ {S : Type 0} (io : Ports S) (hba : Hba S) (rounds fuel : ℕ) (stale : ℕ → AhciDriver)
    (a2 : ℕ) (addresses : Addresses) where
  -- The first four calls
  unfoldable pub greet : BootData → Machine S → Option (Machine S)
  greet boot k =
      on_screen
        (λ s. clear_bg (set_bg_color (init s boot.frame_buffer boot.console_font) 0xff02242b)) k
      >>= on_screen (λ s. print s (bytes_of "Hello World From Kernel!\n"))

  -- The devices and the tables of the firmware, once there is a heap
  unfoldable pub start_devices : BootData → Machine S → Option (Machine S)
  start_devices boot k =
      let ((idtr, entries), d1, p) =
        initialize_interrupts io a2 addresses.handlers k.devices k.heap.frames k.entries in
      let d2 = ps2_mouse_init io 100000 d1 in
      initialize_acpi hba rounds fuel stale (d2, record k.heap { frames = p }) boot.rsdp
        addresses.mcfg
      >>= λ (d3, h). some (record k { heap = h; entries = entries; devices = unmask io d3 })

  -- `_start`, but for the loading of the descriptor tables, `cr3` and `sti`. `none` is a fill or a
  -- wait that does not end.
  unfoldable pub start : BootData → Machine S → Option (Machine S)
  start boot k = greet boot k >>= λ k1.
      initialize_memory addresses.bitmap_variable addresses.kernel_start addresses.kernel_end
        boot.frame_buffer boot.m_map k1.heap.frames
      >>= λ (manager, p).
          initialize_heap (record k1.heap { manager = manager; frames = p }) heap_address heap_pages
          >>= λ h.
              start_devices boot (record k1 { heap = h })
              >>= on_screen (λ s. print s (bytes_of "Kernel Initialized.\n"))
