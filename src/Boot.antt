-- ===== src/Boot.antt =====
-- bootloader/bootloader.c: the font, the kernel's ELF file and what the kernel is started with. The
-- firmware and gnu-efi are not in the program, so what they answer is a parameter.
pub mod Elf
pub mod Font
pub mod Load
pub mod Main
pub mod Rsdp
pub mod Segments
mod Tests
use rizzos.Base.{ℕ, ◌>>=◌, Bool, Option, none, some}
use rizzos.Memory.{Mem}

-- The two files that are opened
pub data BootFile : Type 0 where
  kernel_elf zap_light16_psf : BootFile

-- What `EFI_GRAPHICS_OUTPUT_PROTOCOL` says of the mode
pub record GopMode : Type 0 where
  pub frame_buffer_base : ℕ
  pub frame_buffer_size : ℕ
  pub horizontal_resolution : ℕ
  pub vertical_resolution : ℕ
  pub pixels_per_scan_line : ℕ

-- What `LibMemoryMap` returns
pub record MemoryMap : Type 0 where
  pub map : ℕ
  pub no_entries : ℕ
  pub map_key : ℕ
  pub descriptor_size : ℕ

-- The calls of the firmware and of gnu-efi, each with an error as `none`, on the state of the
-- firmware, the devices and memory; `memory` and `store` are the program's own accesses.
pub record Firmware (S : Type 0) : Type 0 where
  pub memory : S → Mem
  pub store : S → Mem → S
  pub locate_gop : S → Option GopMode × S
  pub loaded_image : S → Option ℕ × S
  pub lib_open_root : S → ℕ → Option ℕ × S
  pub open_file : S → ℕ → BootFile → Option ℕ × S
  pub lib_file_info : S → ℕ → Option ℕ × S
  pub allocate_pool : S → ℕ → Option ℕ × S
  pub allocate_pages : S → (pages address : ℕ) → Option ℕ × S
  pub set_position : S → (file position : ℕ) → Option ℕ × S
  pub read : S → (file size address : ℕ) → Option ℕ × S
  pub lib_memory_map : S → MemoryMap × S
  pub compare_guid : Mem → (guid : ℕ) → Bool
  pub exit_boot_services : S → (map_key : ℕ) → S

-- `if (EFI_ERROR(Status)) return NULL;`
abbrev pub or_null :
    {S A B : Type 0} → Option A × S → (A → S → Option (Option B × S)) → Option (Option B × S)
or_null (none, s) f = some (none, s)
or_null (some a, s) f = f a s

module _ {S : Type 0} (firmware : Firmware S) where
  open firmware use {loaded_image, lib_open_root, open_file}

  -- The file in the volume's root, if that was opened; a call by a null pointer is `none`.
  unfoldable pub open_in : Option ℕ × S → BootFile → Option (Option ℕ × S)
  open_in (none, s) path = none
  open_in (some directory, s) path = some (open_file s directory path)

  -- `LoadFile`
  unfoldable pub load_file : S → BootFile → Option (Option ℕ × S)
  load_file s path = or_null (loaded_image s) (λ device s1. open_in (lib_open_root s1 device) path)
