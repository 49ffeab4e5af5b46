-- ===== src/Cpu/Decode.antt =====
-- What rizzos/src/sysinfo/cpu.c makes of the registers.
use rizzos.Base.{
  ℕ, zero, suc, ◌+◌, ◌*◌, ◌/◌, ◌%◌, ◌^◌, ◌<◌, ◌≡◌, refl, ◌∙◌, ap, true, false, bit_and, bit_or, ltb,
  List, [], ◌∷◌, ◌++◌, some, arith, ◌-◌, ◌≤◌, inl, inr, Bool-cases,
}
use rizzos.Base.Bits.{
  test_bit, test_bit-bit_or, test_bit-mod, test_bit-shl, bit_and-pow, eq_of_bits, test_bit_high,
  test_bit-shr,
}
use rizzos.Base.Masks.{bit_and-low, bit_and-field}
use rizzos.Cpu.{Registers, Cpu, four_bytes, set_manufacturer_id, get_cpu_info, is_feature_available}

-- The first `n` bytes of a number, the least significant first
unfoldable pub bytes : (n : ℕ) → ℕ → List ℕ
bytes zero r = []
bytes (suc n) r = r % 2 ^ 8 ∷ bytes n (r / 2 ^ 8)

four_bytes-bytes : (r : ℕ) (rest : List ℕ) → r < 2 ^ 32 → four_bytes r rest ≡ bytes 4 r ++ rest
unfolding bytes four_bytes
four_bytes-bytes r rest h =
    let b0 : bit_and r 0x000000ff ≡ r % 2 ^ 8 = bit_and-low 8 r in
    let b1 : bit_and r 0x0000ff00 / 2 ^ 8 ≡ r / 2 ^ 8 % 2 ^ 8 = bit_and-field 8 8 r in
    let b2 : bit_and r 0x00ff0000 / 2 ^ 16 ≡ r / 2 ^ 8 / 2 ^ 8 % 2 ^ 8 =
      omega (arith, bit_and-field 16 8 r) in
    let b3 : bit_and r 0xff000000 / 2 ^ 24 ≡ r / 2 ^ 8 / 2 ^ 8 / 2 ^ 8 % 2 ^ 8 =
      omega (arith, bit_and-field 24 8 r) in
    rw (b0, b1, b2, b3) refl

name-bytes :
    (b d c : ℕ)
    → b < 2 ^ 32
    → d < 2 ^ 32
    → c < 2 ^ 32
    → four_bytes b (four_bytes d (four_bytes c (0 ∷ [])))
      ≡ bytes 4 b ++ bytes 4 d ++ bytes 4 c ++ 0 ∷ []
unfolding bytes
name-bytes b d c hb hd hc =
    four_bytes-bytes b _ hb
    ∙ ap (λ l. bytes 4 b ++ l)
        (four_bytes-bytes d _ hd ∙ ap (λ l. bytes 4 d ++ l) (four_bytes-bytes c _ hc))

-- Two halves that are put together
bit_or-halves :
    (c d : ℕ) → c < 2 ^ 32 → d < 2 ^ 32 → bit_or (c * 2 ^ 32 % 2 ^ 64) d ≡ c * 2 ^ 32 + d
bit_or-halves c d hc hd =
    let fits : c * 2 ^ 32 % 2 ^ 64 ≡ c * 2 ^ 32 = omega arith in
    let low : (c * 2 ^ 32 + d) % 2 ^ 32 ≡ d = omega arith in
    let high : (c * 2 ^ 32 + d) / 2 ^ 32 ≡ c = omega arith in
    rw fits (
      eq_of_bits _ _ (λ k. elim (Bool-cases (ltb k 32)) [
        | inl below ↦ ground (
          arith,
          below,
          test_bit-bit_or (c * 2 ^ 32) d k,
          test_bit-shl c 32 k,
          test_bit-mod (c * 2 ^ 32 + d) 32 k,
          ap (λ x. test_bit x k) low,
        )
        | inr above ↦
            let up : 32 ≤ k = ground (arith, above) in
            let back : 32 + (k - 32) ≡ k = omega arith in
            ground (
              arith,
              up,
              test_bit-bit_or (c * 2 ^ 32) d k,
              test_bit-shl c 32 k,
              test_bit_high d 32 k hd up,
              test_bit-shr (c * 2 ^ 32 + d) 32 (k - 32),
              ap (λ x. test_bit x (k - 32)) high,
              ap (test_bit (c * 2 ^ 32 + d)) back,
            )
      ]))

-- The processor's answers are 32 bits wide, and the reserved bits of its signature are clear.
pub record IsAnswer (cpuid : ℕ → ℕ → Registers) (ecx : ℕ) : Type 0 where
  pub ebx : (cpuid 0 ecx).ebx < 2 ^ 32
  pub ecx_small : (cpuid 0 ecx).ecx < 2 ^ 32
  pub edx : (cpuid 0 ecx).edx < 2 ^ 32
  pub signature : (cpuid 1 0).eax < 2 ^ 28
  pub reserved : (cpuid 1 0).eax / 2 ^ 14 % 4 ≡ 0
  pub features : (cpuid 1 0).edx < 2 ^ 32
  pub more_features : (cpuid 1 0).ecx < 2 ^ 32

-- If the processor's answers are 32 bits wide and the reserved bits of its signature are clear, the
-- first SysInfo_GetCpuInfo keeps the highest leaf; the manufacturer's thirteen bytes are the four
-- of ebx, the four of edx, the four of ecx, the least significant first in each, and a zero; the
-- six fields, each within its width, make up the signature; and the features are the 32 bits of edx
-- below those of ecx. From the second call on, the answer is the same, whatever the processor says
-- then.
pub get_cpu_info-decodes :
    (cpuid cpuid' : ℕ → ℕ → Registers) (ecx ecx' : ℕ) (s : Cpu)
    → IsAnswer cpuid ecx
    → s.is_initialized ≡ false
    → let (info, s') = get_cpu_info cpuid ecx s in
      (info.hfp ≡ (cpuid 0 ecx).eax)
      × (info.manufacturer_id
          ≡ bytes 4 (cpuid 0 ecx).ebx
            ++ bytes 4 (cpuid 0 ecx).edx
            ++ bytes 4 (cpuid 0 ecx).ecx
            ++ 0 ∷ [])
      × (info.stepping_id
            + 2 ^ 4 * info.model
            + 2 ^ 8 * info.family_id
            + 2 ^ 12 * info.processor_type
            + 2 ^ 16 * info.extended_model_id
            + 2 ^ 20 * info.extended_family_id
          ≡ (cpuid 1 0).eax)
      × ((info.stepping_id < 2 ^ 4)
          × (info.model < 2 ^ 4)
          × (info.family_id < 2 ^ 4)
          × (info.processor_type < 2 ^ 2)
          × (info.extended_model_id < 2 ^ 4)
          × (info.extended_family_id < 2 ^ 8))
      × (s'.feature_info ≡ (cpuid 1 0).ecx * 2 ^ 32 + (cpuid 1 0).edx)
      × (get_cpu_info cpuid' ecx' s' ≡ (info, s'))
unfolding get_cpu_info set_manufacturer_id
get_cpu_info-decodes cpuid cpuid' ecx ecx' s ok first =
    let leaf0 = cpuid 0 ecx in
    let leaf1 = cpuid 1 0 in
    let f0 = bit_and-low 4 leaf1.eax in
    let f1 = bit_and-low 4 (leaf1.eax / 2 ^ 4) in
    let f2 = bit_and-low 4 (leaf1.eax / 2 ^ 8) in
    let f3 = bit_and-low 2 (leaf1.eax / 2 ^ 12) in
    let f4 = bit_and-low 4 (leaf1.eax / 2 ^ 16) in
    let f5 = bit_and-low 8 (leaf1.eax / 2 ^ 20) in
    simp first (
      refl,
      name-bytes leaf0.ebx leaf0.edx leaf0.ecx ok.ebx ok.edx ok.ecx_small,
      omega (arith, f0, f1, f2, f3, f4, f5, ok.signature, ok.reserved),
      (
        omega (arith, f0),
        omega (arith, f1),
        omega (arith, f2),
        omega (arith, f3),
        omega (arith, f4),
        omega (arith, f5),
      ),
      bit_or-halves leaf1.ecx leaf1.edx ok.more_features ok.features,
      refl,
    )

feature_bit :
    (c d k : ℕ)
    → k < 31
    → d < 2 ^ 32
    → ltb 0 (bit_and (bit_or (c * 2 ^ 32 % 2 ^ 64) d) (2 ^ k)) ≡ test_bit d k
feature_bit c d k h small =
    bit_and-pow (bit_or (c * 2 ^ 32 % 2 ^ 64) d) k
    ∙ ground (
      arith,
      test_bit-bit_or (c * 2 ^ 32 % 2 ^ 64) d k,
      test_bit-mod (c * 2 ^ 32) 64 k,
      test_bit-shl c 32 k,
    )

-- If SysInfo_GetCpuInfo has not run, the edx of leaf 1 has 32 bits and the flag is below 31,
-- SysInfo_IsFeatureAvailable gives the bit of edx with that number.
pub is_feature_available-bit :
    (cpuid : ℕ → ℕ → Registers) (ecx flag : ℕ) (s : Cpu)
    → (cpuid 1 0).edx < 2 ^ 32
    → s.is_initialized ≡ false
    → flag < 31
    → (is_feature_available cpuid ecx s flag).0 ≡ some (test_bit (cpuid 1 0).edx flag)
unfolding is_feature_available get_cpu_info
is_feature_available-bit cpuid ecx flag s small first h =
    let low : ltb flag 31 ≡ true = ground arith in
    let defined : ltb 31 flag ≡ false = ground arith in
    simp (first, low, defined) (ap some (feature_bit (cpuid 1 0).ecx (cpuid 1 0).edx flag h small))
