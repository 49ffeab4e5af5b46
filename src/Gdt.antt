-- ===== src/Gdt.antt =====
-- rizzos/src/gdt/gdt.c and gdt.h: the table of segments that the kernel loads.
use rizzos.Base.{ℕ, ◌-◌}

-- `GDTEntry`
pub record GdtEntry : Type 0 where
  pub limit0 : ℕ
  pub base0 : ℕ
  pub base1 : ℕ
  pub access_byte : ℕ
  pub limit1_flag : ℕ
  pub base2 : ℕ

-- `GDT`
pub record Gdt : Type 0 where
  pub null : GdtEntry
  pub kernel_code : GdtEntry
  pub kernel_data : GdtEntry
  pub user_null : GdtEntry
  pub user_code : GdtEntry
  pub user_data : GdtEntry

-- `sizeof(GDT)`: six entries of eight bytes; the alignment of the typedef adds nothing.
abbrev pub gdt_size : ℕ
gdt_size = 48

-- `GDTDescriptor`, and the one that `_start` loads, for the address of the table
pub record GdtDescriptor : Type 0 where
  pub size : ℕ
  pub offset : ℕ

abbrev pub gdt_descriptor : (default_gdt_address : ℕ) → GdtDescriptor
gdt_descriptor default_gdt_address = record { size = gdt_size - 1; offset = default_gdt_address }

-- An entry without a base and a limit
abbrev pub segment : (access_byte limit1_flag : ℕ) → GdtEntry
segment access_byte limit1_flag = record {
  limit0 = 0x0000;
  base0 = 0x0000;
  base1 = 0x00;
  access_byte = access_byte;
  limit1_flag = limit1_flag;
  base2 = 0x00;
}

-- `g_DefaultGDT`
abbrev pub default_gdt : Gdt
default_gdt = record {
  null = segment 0x00 0x00;
  kernel_code = segment 0x9a 0xa0;
  kernel_data = segment 0x92 0xa0;
  user_null = segment 0x00 0x00;
  user_code = segment 0x9a 0xa0;
  user_data = segment 0x92 0xa0;
}
