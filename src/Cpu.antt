-- ===== src/Cpu.antt =====
-- rizzos/src/sysinfo/cpu.c: what the processor says of itself. The instruction `cpuid` is a
-- parameter: the four registers that it gives for `eax` and `ecx`.
pub mod Decode
mod Tests
use rizzos.Base.{
  ℕ, zero, suc, ◌+◌, ◌*◌, ◌/◌, ◌%◌, ◌^◌, Bool, true, false, bit_and, bit_or, ltb, List, [], ◌∷◌,
  Option, none, some, if◌then◌else◌,
}

pub record Registers : Type 0 where
  pub eax : ℕ
  pub ebx : ℕ
  pub ecx : ℕ
  pub edx : ℕ

-- `CpuInfo`
pub record CpuInfo : Type 0 where
  pub manufacturer_id : List ℕ
  pub hfp : ℕ
  pub stepping_id : ℕ
  pub model : ℕ
  pub family_id : ℕ
  pub processor_type : ℕ
  pub extended_model_id : ℕ
  pub extended_family_id : ℕ

-- The static variables.
pub record Cpu : Type 0 where
  pub cpu_info : CpuInfo
  pub is_initialized : Bool
  pub feature_info : ℕ

-- The four bytes of a register, as the source takes them apart.
unfoldable pub four_bytes : ℕ → List ℕ → List ℕ
four_bytes r rest =
    bit_and r 0x000000ff
    ∷ bit_and r 0x0000ff00 / 2 ^ 8
    ∷ bit_and r 0x00ff0000 / 2 ^ 16
    ∷ bit_and r 0xff000000 / 2 ^ 24
    ∷ rest

-- `Set_ManufacturerID`
unfoldable pub set_manufacturer_id : CpuInfo → (ebx ecx edx : ℕ) → CpuInfo
set_manufacturer_id info ebx ecx edx = record info {
  manufacturer_id = four_bytes ebx (four_bytes edx (four_bytes ecx (0 ∷ [])));
}

-- `SysInfo_GetCpuInfo`, with `ecx` the value of the uninitialised variable at the first `cpuid`
unfoldable pub get_cpu_info : (cpuid : ℕ → ℕ → Registers) → (ecx : ℕ) → Cpu → CpuInfo × Cpu
get_cpu_info cpuid ecx s =
    let leaf0 = cpuid 0 ecx in
    let named =
      set_manufacturer_id (record s.cpu_info { hfp = leaf0.eax }) leaf0.ebx leaf0.ecx leaf0.edx in
    let leaf1 = cpuid 1 0 in
    let info = record named {
      stepping_id = bit_and leaf1.eax 0xf;
      model = bit_and (leaf1.eax / 2 ^ 4) 0xf;
      family_id = bit_and (leaf1.eax / 2 ^ 8) 0xf;
      processor_type = bit_and (leaf1.eax / 2 ^ 12) 0x3;
      extended_model_id = bit_and (leaf1.eax / 2 ^ 16) 0xf;
      extended_family_id = bit_and (leaf1.eax / 2 ^ 20) 0xff;
    } in
    if s.is_initialized then (s.cpu_info, s) else (
      info,
      record {
        cpu_info = info;
        is_initialized = true;
        feature_info = bit_or (leaf1.ecx * 2 ^ 32 % 2 ^ 64) leaf1.edx;
      },
    )

-- `SysInfo_IsFeatureAvailable`. The shift is of an `int`: 31 gives a negative number, which becomes
-- 33 ones as a `uint64_t`, and more than 31 is not defined, here `none`.
unfoldable pub is_feature_available :
    (cpuid : ℕ → ℕ → Registers) → (ecx : ℕ) → Cpu → (flag : ℕ) → Option Bool × Cpu
is_feature_available cpuid ecx s flag =
    let (_, s') = get_cpu_info cpuid ecx s in
    let mask : ℕ = if ltb flag 31 then 2 ^ flag else 0xffff_ffff_8000_0000 in
    (if ltb 31 flag then none else some (ltb 0 (bit_and s'.feature_info mask)), s')
