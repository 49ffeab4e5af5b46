-- ===== src/Interrupts/Laws.antt =====
-- The offset of an interrupt table entry (rizzos/src/interrupts/idt.c).
use rizzos.Base.{
  ℕ, ◌+◌, ◌-◌, ◌*◌, ◌/◌, ◌%◌, ◌^◌, ◌≤◌, ◌<◌, ◌≡◌, refl, ◌∙◌, true, false, ◌&&◌, ◌||◌, ltb, leb,
  ◌==◌, bit_or, arith, inl, inr, ◌⊎◌, ◌≢◌, Bool-cases,
}
use rizzos.Base.Bits.{
  test_bit, eq_of_bits, test_bit-bit_or, test_bit-mod, test_bit-shr, test_bit-shl, test_bit_zero,
  test_bit_high,
}
use rizzos.Base.Masks.{bit_and-low, bit_and-field}
use rizzos.Interrupts.{
  Idtr, entry_size, interrupt_gate, set_interrupt_handler, IdtDescEntry, set_offset, get_offset,
}

-- The bits of the offset that three fields make up.
bits-get_offset :
    (ide : IdtDescEntry) (k : ℕ)
    → test_bit (get_offset ide) k ≡ (
        test_bit ide.offset0 k
        || (ltb k 64 && leb 16 k && test_bit ide.offset1 (k - 16))
        || (ltb k 64 && leb 32 k && test_bit ide.offset2 (k - 32)))
unfolding get_offset
bits-get_offset ide k =
    let first = bit_or 0 ide.offset0 in
    let second = ide.offset1 * 2 ^ 16 in
    let third = ide.offset2 * 2 ^ 32 in
    ground (
      arith,
      test_bit-bit_or (bit_or first (second % 2 ^ 64)) (third % 2 ^ 64) k,
      test_bit-bit_or first (second % 2 ^ 64) k,
      test_bit-bit_or 0 ide.offset0 k,
      test_bit_zero k,
      test_bit-mod second 64 k,
      test_bit-mod third 64 k,
      test_bit-shl ide.offset1 16 k,
      test_bit-shl ide.offset2 32 k,
    )

-- The three fields of an offset.
fields-set_offset :
    (ide : IdtDescEntry) (v : ℕ)
    → ((set_offset ide v).offset0 ≡ v % 2 ^ 16)
      × ((set_offset ide v).offset1 ≡ v / 2 ^ 16 % 2 ^ 16)
      × ((set_offset ide v).offset2 ≡ v / 2 ^ 32 % 2 ^ 32)
unfolding set_offset
fields-set_offset ide v = (
  omega (arith, bit_and-low 16 v),
  omega (arith, bit_and-field 16 16 v),
  omega (arith, bit_and-field 32 32 v),
)

-- For an address of 64 bits, IDT_GetOffset gives back what IDT_SetOffset split into the three
-- fields.
pub get_offset-set_offset :
    (ide : IdtDescEntry) (v : ℕ) → v < 2 ^ 64 → get_offset (set_offset ide v) ≡ v
get_offset-set_offset ide v small =
    let f = fields-set_offset ide v in
    eq_of_bits _ _ (λ k.
      rw (bits-get_offset (set_offset ide v) k, f.0, f.1, f.2)
        (ground (
          arith,
          test_bit-mod v 16 k,
          test_bit-mod (v / 2 ^ 16) 16 (k - 16),
          test_bit-mod (v / 2 ^ 32) 32 (k - 32),
          test_bit-shr v 16 (k - 16),
          test_bit-shr v 32 (k - 32),
          test_bit_high v 64 k small,
        )))

get_offset-typed :
    (ide : IdtDescEntry) (kind code : ℕ)
    → get_offset (record ide { type_dpl_p = kind; selector = code }) ≡ get_offset ide
unfolding get_offset
get_offset-typed ide kind code = refl

ist-set_offset :
    (ide : IdtDescEntry) (v : ℕ)
    → ((set_offset ide v).ist ≡ ide.ist) × ((set_offset ide v).reserved ≡ ide.reserved)
unfolding set_offset
ist-set_offset ide v = (refl, refl)

-- After INTH_SetInterruptHandler with an address of 64 bits, for a table that ends within the
-- address space, the entry has the handler's address, the type of an interrupt gate and the
-- selector 8, and keeps what it had as interrupt stack and in its reserved field; every other
-- entry of the table is as before.
pub set_interrupt_handler-entry :
    (idtr : Idtr) (entries : ℕ → IdtDescEntry) (e e' handler : ℕ)
    → handler < 2 ^ 64
    → idtr.offset + 256 * entry_size ≤ 2 ^ 64
    → e < 256
    → e' < 256
    → let after = set_interrupt_handler idtr entries e handler (idtr.offset + e' * entry_size) in
      let before = entries (idtr.offset + e' * entry_size) in
      ((e' ≡ e)
        × (get_offset after ≡ handler)
        × (after.type_dpl_p ≡ interrupt_gate)
        × (after.selector ≡ 8)
        × (after.ist ≡ before.ist)
        × (after.reserved ≡ before.reserved))
      ⊎ ((e' ≢ e) × (after ≡ before))
unfolding set_interrupt_handler
set_interrupt_handler-entry idtr entries e e' handler small fits in_table in_table' =
    let here : (idtr.offset + e * entry_size) % 2 ^ 64 ≡ idtr.offset + e * entry_size =
      omega arith in
    elim (Bool-cases (e == e')) [
      | inl same ↦
          let hit : ((idtr.offset + e * entry_size) % 2 ^ 64 == idtr.offset + e' * entry_size)
              ≡ true =
            ground arith in
          let eq : idtr.offset + e' * entry_size ≡ idtr.offset + e * entry_size = ground arith in
          inl (
            rw hit (
              ground arith,
              get_offset-typed (set_offset (entries _) handler) interrupt_gate 8
                  ∙ get_offset-set_offset _ handler small,
              refl,
              refl,
              rw (here, eq) (ist-set_offset (entries (idtr.offset + e * entry_size)) handler).0,
              rw (here, eq) (ist-set_offset (entries (idtr.offset + e * entry_size)) handler).1,
            ))
      | inr other ↦
          let miss : ((idtr.offset + e * entry_size) % 2 ^ 64 == idtr.offset + e' * entry_size)
              ≡ false =
            ground arith in
          inr (rw miss ((λ q. absurd (ground arith)), refl))
    ]
