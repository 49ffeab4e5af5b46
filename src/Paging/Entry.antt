-- ===== src/Paging/Entry.antt =====
-- rizzos/src/paging/paging.c and paging.h: the flags and the address of a page table entry.
pub mod Laws
use rizzos.Base.{
  ℕ, ◌+◌, ◌-◌, ◌*◌, ◌/◌, ◌%◌, ◌^◌, Bool, true, false, bit_and, bit_or, ltb, if◌then◌else◌,
}
use rizzos.Base.Bits.{complement}

-- `PT_Flag` and the numbers of its constants
pub data PtFlag : Type 0 where
  present readwrite usersuper writethrough cachedisabled accessed dirty largepages global access0
        access1 access2 nx :
      PtFlag

unfoldable pub flag_index : PtFlag → ℕ
flag_index present = 0
flag_index readwrite = 1
flag_index usersuper = 2
flag_index writethrough = 3
flag_index cachedisabled = 4
flag_index accessed = 5
flag_index dirty = 6
flag_index largepages = 7
flag_index global = 8
flag_index access0 = 9
flag_index access1 = 10
flag_index access2 = 11
flag_index nx = 63

-- `PageDirEntry`
pub record PageDirEntry : Type 0 where
  pub value : ℕ

-- `PDE_SetFlag`
pub set_flag : PageDirEntry → PtFlag → Bool → PageDirEntry
set_flag pde flag enabled =
    let bit_mask : ℕ = 2 ^ flag_index flag in
    let cleared : ℕ = bit_and pde.value (complement 64 bit_mask) in
    record { value = if enabled then bit_or cleared bit_mask else cleared }

-- `PDE_GetFlag`
pub get_flag : PageDirEntry → PtFlag → Bool
get_flag pde flag =
    let bit_mask : ℕ = 2 ^ flag_index flag in
    if ltb 0 (bit_and pde.value bit_mask) then true else false

-- `PDE_SetAddress`
pub set_address : PageDirEntry → ℕ → PageDirEntry
set_address pde address =
    let low : ℕ = bit_and address 0x000000ffffffffff in
    let kept : ℕ = bit_and pde.value 0xfff0000000000fff in
    record { value = bit_or kept (low * 2 ^ 12 % 2 ^ 64) }

-- `PDE_GetAddress`
pub get_address : PageDirEntry → ℕ
get_address pde = bit_and pde.value 0x000ffffffffff000 / 2 ^ 12
