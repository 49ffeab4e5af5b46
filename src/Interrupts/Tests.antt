-- ===== src/Interrupts/Tests.antt =====
-- Runs and instances for rizzos/src/interrupts/idt.c and interrupt_handler.c.
use rizzos.Base.{ℕ, ◌+◌, ◌*◌, ◌≡◌, ◌⊎◌, ◌≢◌, arith}
use rizzos.Interrupts.{
  IdtDescEntry, Idtr, get_offset, set_interrupt_handler, entry_size, interrupt_gate,
}
use rizzos.Interrupts.Laws.{set_interrupt_handler-entry}

abbrev stale : IdtDescEntry
stale = record {
  offset0 = 0x1111;
  selector = 0;
  ist = 7;
  type_dpl_p = 0;
  offset1 = 0x2222;
  offset2 = 0x3333;
  reserved = 0x44;
}

abbrev table : Idtr
table = record { size = 0xfff; offset = 0x5000 }

abbrev neighbour : ℕ
neighbour = 0x20

set_interrupt_handler-entry_example :
    let after =
      set_interrupt_handler table (λ a. stale) 0x21 0x10_2030 (0x5000 + 0x20 * entry_size) in
    ((neighbour ≡ 0x21)
      × (get_offset after ≡ 0x10_2030)
      × (after.type_dpl_p ≡ interrupt_gate)
      × (after.selector ≡ 8)
      × (after.ist ≡ 7)
      × (after.reserved ≡ 0x44))
    ⊎ ((neighbour ≢ 0x21) × (after ≡ stale))
set_interrupt_handler-entry_example =
    set_interrupt_handler-entry table (λ a. stale) 0x21 0x20 0x10_2030 (omega arith) (omega arith)
      (omega arith) (omega arith)
