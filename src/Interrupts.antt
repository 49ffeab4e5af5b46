-- ===== src/Interrupts.antt =====
-- rizzos/src/interrupts/idt.c and interrupt_handler.c: the entries of the interrupt table.
pub mod Laws
mod Tests
use rizzos.Base.{
  ℕ, zero, suc, ◌+◌, ◌*◌, ◌/◌, ◌%◌, ◌^◌, Bool, true, false, bit_and, bit_or, ◌==◌, if◌then◌else◌,
  update,
}
use rizzos.PageFrame.{Pfa, request_page}

-- `IDTTypeDplP`
abbrev pub interrupt_gate : ℕ
interrupt_gate = 0x8e

abbrev pub call_gate : ℕ
call_gate = 0x8b

abbrev pub trap_gate : ℕ
trap_gate = 0x8f

-- `IDTDescEntry`
pub record IdtDescEntry : Type 0 where
  pub offset0 : ℕ
  pub selector : ℕ
  pub ist : ℕ
  pub type_dpl_p : ℕ
  pub offset1 : ℕ
  pub offset2 : ℕ
  pub reserved : ℕ

-- `IDTR`
pub record Idtr : Type 0 where
  pub size : ℕ
  pub offset : ℕ

-- `IDT_InitInterruptTable`
unfoldable pub init_interrupt_table : Pfa → Idtr × Pfa
init_interrupt_table s =
    let (page, s') = request_page s in (record { size = 0x0fff; offset = page }, s')

-- `IDT_SetOffset`, with the conversions to the widths of the fields
unfoldable pub set_offset : IdtDescEntry → ℕ → IdtDescEntry
set_offset ide offset = record ide {
  offset0 = bit_and offset 0x000000000000ffff % 2 ^ 16;
  offset1 = bit_and offset 0x00000000ffff0000 / 2 ^ 16 % 2 ^ 16;
  offset2 = bit_and offset 0xffffffff00000000 / 2 ^ 32 % 2 ^ 32;
}

-- `IDT_GetOffset`
unfoldable pub get_offset : IdtDescEntry → ℕ
get_offset ide =
    let offset1 : ℕ = bit_or 0 ide.offset0 in
    let offset2 : ℕ = bit_or offset1 (ide.offset1 * 2 ^ 16 % 2 ^ 64) in
    bit_or offset2 (ide.offset2 * 2 ^ 32 % 2 ^ 64)

-- `sizeof(IDTDescEntry)`
abbrev pub entry_size : ℕ
entry_size = 16

-- `INTH_SetInterruptHandler`, on the entries of memory by their addresses
unfoldable pub set_interrupt_handler :
    Idtr → (ℕ → IdtDescEntry) → (table_entry pointer_func : ℕ) → ℕ → IdtDescEntry
set_interrupt_handler idtr entries table_entry pointer_func =
    let idte : ℕ = (idtr.offset + table_entry * entry_size) % 2 ^ 64 in
    let placed = set_offset (entries idte) pointer_func in
    update entries idte (record placed { type_dpl_p = interrupt_gate; selector = 0x08 })
