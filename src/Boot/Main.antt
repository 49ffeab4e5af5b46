-- ===== src/Boot/Main.antt =====
-- bootloader/bootloader.c: efi_main, up to the jump into the kernel.
use rizzos.Base.{ℕ, ◌+◌, ◌*◌, ◌%◌, ◌^◌, ◌>>=◌, Option, none, some}
use rizzos.Graphics.{FrameBuffer}
use rizzos.Memory.{Mem, write64}
use rizzos.Boot.{Firmware, kernel_elf, or_null, load_file}
use rizzos.Boot.Elf.{elf_header_size, e_entry, read_elf_program_header, load_segments}
use rizzos.Boot.Font.{initialize_gop, load_psf1_font}
use rizzos.Boot.Rsdp.{find_rsdp}

-- `UEFIBootData`
pub record UefiBootData : Type 0 where
  pub frame_buffer : FrameBuffer
  pub console_font : ℕ
  pub m_map : ℕ
  pub m_map_size : ℕ
  pub m_map_desc_size : ℕ
  pub m_map_entries : ℕ
  pub rsdp : ℕ

-- A pointer as the C code has it, 0 for NULL
unfoldable pub pointer : Option ℕ → ℕ
pointer none = 0
pointer (some address) = address

-- The assignments to `uefiBootData`: the structure at an address, with the address of the variable
-- `frameBuffer` in its first field
unfoldable pub write_boot_data :
    Mem → (uefi_boot_data frame_buffer_variable : ℕ) → UefiBootData → Mem
write_boot_data m a frame_buffer_variable boot =
    let m1 = write64 m a frame_buffer_variable in
    let m2 = write64 m1 (a + 8) boot.console_font in
    let m3 = write64 m2 (a + 16) boot.m_map in
    let m4 = write64 m3 (a + 24) boot.m_map_size in
    let m5 = write64 m4 (a + 32) boot.m_map_desc_size in
    let m6 = write64 m5 (a + 40) boot.m_map_entries in write64 m6 (a + 48) boot.rsdp

module _ {S : Type 0} (firmware : Firmware S) where
  open firmware use {
    memory, store, lib_file_info, read, lib_memory_map, compare_guid, exit_boot_services,
  }

  -- The kernel's file is read by a null pointer if it was not opened.
  unfoldable pub opened_kernel : Option ℕ × S → Option (ℕ × S)
  opened_kernel (none, s) = none
  opened_kernel (some kernel, s) = some (kernel, s)

  -- The kernel's header and segments: the address that the kernel starts at. The header is read to
  -- where the uninitialised pointer `header` points, and the check of the header only prints.
  unfoldable pub load_kernel : (fuel : ℕ) → S → (header : ℕ) → Option S
  load_kernel fuel s header = load_file firmware s kernel_elf >>= opened_kernel >>= λ (kernel, s1).
      let s2 = (lib_file_info s1 kernel).1 in
      let s3 = (read s2 kernel elf_header_size header).1 in
      read_elf_program_header firmware s3 kernel header >>= λ (phdrs, s4).
      load_segments firmware fuel s4 kernel header (pointer phdrs) (pointer phdrs)

  -- `efi_main`: what the kernel is started with, and where; the first NULL is a return without a
  -- start. `none` is out of fuel or a call by a null pointer. The boot data is written to where
  -- another uninitialised pointer points, `uefi_boot_data`.
  unfoldable pub efi_main :
      (fuel : ℕ)
      → S
      → (header uefi_boot_data frame_buffer_variable configuration_table
          number_of_table_entries : ℕ)
      → Option (Option (UefiBootData × ℕ) × S)
  efi_main fuel s header boot_data frame_buffer_variable configuration_table
        number_of_table_entries =
      load_kernel fuel s header >>= λ s1. initialize_gop firmware s1 >>= λ gop.
      or_null gop λ frame_buffer s2. load_psf1_font firmware s2 >>= λ (font, s3).
      let (m_map, s4) = lib_memory_map s3 in
      let m = memory s4 in
      let boot : UefiBootData = record {
        frame_buffer = frame_buffer;
        console_font = pointer font;
        m_map = m_map.map;
        m_map_size = m_map.no_entries * m_map.descriptor_size % 2 ^ 64;
        m_map_desc_size = m_map.descriptor_size;
        m_map_entries = m_map.no_entries;
        rsdp = find_rsdp compare_guid m configuration_table number_of_table_entries;
      } in
      let s5 = store s4 (write_boot_data m boot_data frame_buffer_variable boot) in
      some (some (boot, e_entry m header), exit_boot_services s5 m_map.map_key)
