-- ===== src/Cpu/Tests.antt =====
-- Runs and instances for rizzos/src/sysinfo/cpu.c.
use rizzos.Base.{
  ℕ, ◌+◌, ◌*◌, ◌^◌, ◌<◌, ◌≡◌, refl, false, [], ◌∷◌, ◌++◌, some, ◌==◌, if◌then◌else◌, arith,
}
use rizzos.Cpu.{Registers, Cpu, is_feature_available, get_cpu_info, set_manufacturer_id, four_bytes}
use rizzos.Cpu.Decode.{bytes, IsAnswer, get_cpu_info-decodes, is_feature_available-bit}
use rizzos.Base.Bits.{test_bit}

-- An answer with the name "GenuineIntel".
abbrev genuine : ℕ → ℕ → Registers
genuine leaf ecx =
    if leaf == 0
    then record { eax = 0x16; ebx = 0x756e6547; ecx = 0x6c65746e; edx = 0x49656e69 }
    else record { eax = 0x000906ea; ebx = 0; ecx = 0x7ffafbbf; edx = 0xbfebfbff }

abbrev silent : ℕ → ℕ → Registers
silent leaf ecx = record { eax = 0; ebx = 0; ecx = 0; edx = 0 }

abbrev unknown : Cpu
unknown = record {
  cpu_info = record {
    manufacturer_id = [];
    hfp = 0;
    stepping_id = 0;
    model = 0;
    family_id = 0;
    processor_type = 0;
    extended_model_id = 0;
    extended_family_id = 0;
  };
  is_initialized = false;
  feature_info = 0;
}

genuine-IsAnswer : IsAnswer genuine 5
genuine-IsAnswer = record {
  ebx = omega arith;
  ecx_small = omega arith;
  edx = omega arith;
  signature = omega arith;
  reserved = refl;
  features = omega arith;
  more_features = omega arith;
}

get_cpu_info-decodes_example :
    let (info, s') = get_cpu_info genuine 5 unknown in
    (info.hfp ≡ 0x16)
    × (info.manufacturer_id
        ≡ bytes 4 0x756e6547 ++ bytes 4 0x49656e69 ++ bytes 4 0x6c65746e ++ 0 ∷ [])
    × (info.stepping_id
          + 2 ^ 4 * info.model
          + 2 ^ 8 * info.family_id
          + 2 ^ 12 * info.processor_type
          + 2 ^ 16 * info.extended_model_id
          + 2 ^ 20 * info.extended_family_id
        ≡ 0x000906ea)
    × ((info.stepping_id < 2 ^ 4)
        × (info.model < 2 ^ 4)
        × (info.family_id < 2 ^ 4)
        × (info.processor_type < 2 ^ 2)
        × (info.extended_model_id < 2 ^ 4)
        × (info.extended_family_id < 2 ^ 8))
    × (s'.feature_info ≡ 0x7ffafbbf * 2 ^ 32 + 0xbfebfbff)
    × (get_cpu_info silent 0 s' ≡ (info, s'))
get_cpu_info-decodes_example = get_cpu_info-decodes genuine silent 5 0 unknown genuine-IsAnswer refl

-- SYSINFO_CPUF_SSE
abbrev sse : ℕ
sse = 25

named :
    (get_cpu_info genuine 5 unknown).0.manufacturer_id
    ≡ 71 ∷ 101 ∷ 110 ∷ 117 ∷ 105 ∷ 110 ∷ 101 ∷ 73 ∷ 110 ∷ 116 ∷ 101 ∷ 108 ∷ 0 ∷ []
unfolding get_cpu_info set_manufacturer_id four_bytes
named = refl

is_feature_available-bit_example :
    (is_feature_available genuine 5 unknown sse).0 ≡ some (test_bit 0xbfebfbff 25)
is_feature_available-bit_example =
    is_feature_available-bit genuine 5 sse unknown (omega arith) refl (omega arith)
