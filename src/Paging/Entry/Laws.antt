-- ===== src/Paging/Entry/Laws.antt =====
-- What the accessors of a page table entry (rizzos/src/paging/paging.c) promise each other.
use rizzos.Base.{
  ℕ, ◌+◌, ◌-◌, ◌*◌, ◌%◌, ◌^◌, ◌<◌, ◌≡◌, refl, Bool, true, ◌&&◌, ◌||◌, bit_and, leb, ltb, ◌==◌,
  if◌then◌else◌, arith,
}
use rizzos.Base.Bits.{
  test_bit, eq_of_bits, mask_bits, all_below, test_bit-bit_and, test_bit-bit_or, test_bit-shl,
  test_bit-shr, test_bit-mod, test_bit-assign, bit_and-pow, bit_and-lt, bit_or-lt, complement,
  pow_mono,
}
use rizzos.Paging.Entry.{
  PtFlag, flag_index, PageDirEntry, set_flag, get_flag, set_address, get_address,
}

-- The bits of the three masks, read off them.
low_mask : (k : ℕ) → test_bit 0x000000ffffffffff k ≡ (ltb k 64 && ltb k 40)
unfolding all_below test_bit
low_mask = mask_bits 0x000000ffffffffff 64 (λ k. ltb k 40) (omega arith) refl

keep_mask : (k : ℕ) → test_bit 0xfff0000000000fff k ≡ (ltb k 64 && (ltb k 12 || leb 52 k))
unfolding all_below test_bit
keep_mask = mask_bits 0xfff0000000000fff 64 (λ k. ltb k 12 || leb 52 k) (omega arith) refl

address_mask : (k : ℕ) → test_bit 0x000ffffffffff000 k ≡ (ltb k 64 && (leb 12 k && ltb k 52))
unfolding all_below test_bit
address_mask = mask_bits 0x000ffffffffff000 64 (λ k. leb 12 k && ltb k 52) (omega arith) refl

flag_index-lt : (f : PtFlag) → flag_index f < 64
unfolding flag_index
flag_index-lt f = ground arith

-- No flag lies in the address field.
flag_outside : (f : PtFlag) → (ltb (flag_index f) 12 || leb 52 (flag_index f)) ≡ true
unfolding flag_index
flag_outside f = ground arith

pub get_flag-test_bit :
    (e : PageDirEntry) (f : PtFlag) → get_flag e f ≡ test_bit e.value (flag_index f)
unfolding get_flag
get_flag-test_bit e f = ground (arith, bit_and-pow e.value (flag_index f))

-- A flag reads back as set, and setting it leaves every other flag.
pub get_flag-set_flag :
    (e : PageDirEntry) (f g : PtFlag) (b : Bool)
    → get_flag (set_flag e f b) g ≡ (if flag_index f == flag_index g then b else get_flag e g)
unfolding set_flag
get_flag-set_flag e f g b =
    rw (get_flag-test_bit (set_flag e f b) g, get_flag-test_bit e g)
      (test_bit-assign 64 e.value (flag_index f) (flag_index g) b (flag_index-lt f)
        (flag_index-lt g))

value-set_address :
    (e : PageDirEntry) (a k : ℕ)
    → test_bit (set_address e a).value k
      ≡ (ltb k 64 && (if leb 12 k && ltb k 52 then test_bit a (k - 12) else test_bit e.value k))
unfolding set_address
value-set_address e a k = ground (
  arith,
  test_bit-bit_or (bit_and e.value 0xfff0000000000fff)
      (bit_and a 0x000000ffffffffff * 2 ^ 12 % 2 ^ 64) k,
  test_bit-bit_and e.value 0xfff0000000000fff k,
  keep_mask k,
  test_bit-mod (bit_and a 0x000000ffffffffff * 2 ^ 12) 64 k,
  test_bit-shl (bit_and a 0x000000ffffffffff) 12 k,
  test_bit-bit_and a 0x000000ffffffffff (k - 12),
  low_mask (k - 12),
)

pub bits-get_address :
    (e : PageDirEntry) (k : ℕ)
    → test_bit (get_address e) k ≡ (ltb k 40 && test_bit e.value (12 + k))
unfolding get_address
bits-get_address e k =
    rw (test_bit-shr (bit_and e.value 0x000ffffffffff000) 12 k)
      (ground (arith, test_bit-bit_and e.value 0x000ffffffffff000 (12 + k), address_mask (12 + k)))

-- The address reads back as its low 40 bits.
pub get_address-set_address :
    (e : PageDirEntry) (a : ℕ) → get_address (set_address e a) ≡ a % 2 ^ 40
get_address-set_address e a = eq_of_bits _ _ (λ k.
    let s : 12 + k - 12 ≡ k = omega arith in
    ground (
      arith,
      s,
      bits-get_address (set_address e a) k,
      value-set_address e a (12 + k),
      test_bit-mod a 40 k,
    ))

-- The flags and the address do not disturb each other.
pub fields_independent :
    (e : PageDirEntry) (f : PtFlag) (b : Bool) (a : ℕ)
    → (get_address (set_flag e f b) ≡ get_address e) × (get_flag (set_address e a) f ≡ get_flag e f)
unfolding set_flag
fields_independent e f b a = (
  eq_of_bits _ _ (λ k. ground (
    arith,
    bits-get_address (set_flag e f b) k,
    bits-get_address e k,
    flag_outside f,
    flag_index-lt f,
    test_bit-assign 64 e.value (flag_index f) (12 + k) b,
  )),
  rw (get_flag-test_bit (set_address e a) f, get_flag-test_bit e f)
      (ground (arith, value-set_address e a (flag_index f), flag_outside f, flag_index-lt f)),
)

-- Both setters keep the entry within 64 bits.
pub value-lt :
    (e : PageDirEntry) (f : PtFlag) (b : Bool) (a : ℕ)
    → e.value < 2 ^ 64
    → ((set_flag e f b).value < 2 ^ 64) × ((set_address e a).value < 2 ^ 64)
unfolding set_flag set_address
value-lt e f b a h = (
  ground (
    arith,
    bit_and-lt e.value (complement 64 (2 ^ flag_index f)) 64 h,
    bit_or-lt (bit_and e.value (complement 64 (2 ^ flag_index f))) (2 ^ flag_index f) 64,
    pow_mono (flag_index f) 64 (flag_index-lt f),
  ),
  bit_or-lt _ _ 64 (bit_and-lt e.value 0xfff0000000000fff 64 h) (omega arith),
)
