-- ===== src/Kernel/Dispatch.antt =====
-- Where the interrupts go after InitializeInterrupts of rizzos/src/kernel.c.
use rizzos.Base.{
  ℕ, ◌+◌, ◌-◌, ◌*◌, ◌^◌, ◌≤◌, ◌<◌, ◌≡◌, refl, false, ◌∙◌, ap, inl, inr, ltb, ◌==◌, if◌then◌else◌,
  arith,
}
use rizzos.Interrupts.{
  Idtr, IdtDescEntry, entry_size, get_offset, init_interrupt_table, set_interrupt_handler,
}
use rizzos.Interrupts.Laws.{set_interrupt_handler-entry}
use rizzos.PageFrame.{Pfa, request_page}
use rizzos.Pic.Device.{Pair, pair_ports}
use rizzos.Pic.Remap.{remap-initialises}
use rizzos.Timer.{set_divisor}
use rizzos.Kernel.{Handlers, install, play, initialize_interrupts}

-- Where the gate of a vector goes
abbrev pub target : Idtr → (ℕ → IdtDescEntry) → (vector : ℕ) → ℕ
target idtr entries vector = get_offset (entries (idtr.offset + vector * entry_size))

module _ (idtr : Idtr) (fits : idtr.offset + 256 * entry_size ≤ 2 ^ 64) where
  installed :
      (entries : ℕ → IdtDescEntry) (e handler : ℕ)
      → handler < 2 ^ 64
      → e < 256
      → target idtr (set_interrupt_handler idtr entries e handler) e ≡ handler
  installed entries e handler small in_table =
      elim (set_interrupt_handler-entry idtr entries e e handler small fits in_table in_table) [
        | inl hit ↦ hit.1
        | inr miss ↦ absurd (miss.0 refl)
      ]

  kept :
      (entries : ℕ → IdtDescEntry) (e e' handler : ℕ)
      → handler < 2 ^ 64
      → e < 256
      → e' < 256
      → (e' == e) ≡ false
      → target idtr (set_interrupt_handler idtr entries e handler) e' ≡ target idtr entries e'
  kept entries e e' handler small in_table in_table' other =
      elim (set_interrupt_handler-entry idtr entries e e' handler small fits in_table in_table') [
        | inl hit ↦ absurd (ground (arith, hit.0, other))
        | inr miss ↦ ap get_offset miss.1
      ]

-- The addresses of the handlers have 64 bits.
pub record IsHandlers (h : Handlers) : Type 0 where
  pub page_fault : h.page_fault < 2 ^ 64
  pub double_fault : h.double_fault < 2 ^ 64
  pub gp_fault : h.gp_fault < 2 ^ 64
  pub keyboard : h.keyboard < 2 ^ 64
  pub mouse : h.mouse < 2 ^ 64
  pub pit : h.pit < 2 ^ 64

module _ (idtr : Idtr) (fits : idtr.offset + 256 * entry_size ≤ 2 ^ 64) (entries : ℕ → IdtDescEntry)
    (h : Handlers) (ok : IsHandlers h) where
  -- Each handler's gate, once all are installed
  install-targets :
      let gate = target idtr (install idtr entries h) in
      (gate 0xe ≡ h.page_fault)
      × (gate 0x8 ≡ h.double_fault)
      × (gate 0xd ≡ h.gp_fault)
      × (gate 0x21 ≡ h.keyboard)
      × (gate 0x2c ≡ h.mouse)
      × (gate 0x20 ≡ h.pit)
  unfolding install
  install-targets =
      let e1 = set_interrupt_handler idtr entries 0xe h.page_fault in
      let e2 = set_interrupt_handler idtr e1 0x8 h.double_fault in
      let e3 = set_interrupt_handler idtr e2 0xd h.gp_fault in
      let e4 = set_interrupt_handler idtr e3 0x21 h.keyboard in
      let e5 = set_interrupt_handler idtr e4 0x2c h.mouse in
      let after_pit : (v : ℕ)
          → v < 256
          → (v == 0x20) ≡ false
          → target idtr (install idtr entries h) v ≡ target idtr e5 v =
        λ v lt ne. kept idtr fits e5 0x20 v h.pit ok.pit (omega arith) lt ne in
      let after_mouse : (v : ℕ)
          → v < 256
          → (v == 0x2c) ≡ false
          → target idtr e5 v ≡ target idtr e4 v =
        λ v lt ne. kept idtr fits e4 0x2c v h.mouse ok.mouse (omega arith) lt ne in
      let after_keyboard : (v : ℕ)
          → v < 256
          → (v == 0x21) ≡ false
          → target idtr e4 v ≡ target idtr e3 v =
        λ v lt ne. kept idtr fits e3 0x21 v h.keyboard ok.keyboard (omega arith) lt ne in
      let devices : (v : ℕ) → v < 0x20 → target idtr (install idtr entries h) v ≡ target idtr e3 v =
        λ v lt.
          after_pit v (omega arith) (ground arith)
          ∙ after_mouse v (omega arith) (ground arith)
          ∙ after_keyboard v (omega arith) (ground arith) in
      (
        devices 0xe (omega arith)
            ∙ kept idtr fits e2 0xd 0xe h.gp_fault ok.gp_fault (omega arith) (omega arith) refl
            ∙ kept idtr fits e1 0x8 0xe h.double_fault ok.double_fault (omega arith) (omega arith)
                refl
            ∙ installed idtr fits entries 0xe h.page_fault ok.page_fault (omega arith),
        devices 0x8 (omega arith)
            ∙ kept idtr fits e2 0xd 0x8 h.gp_fault ok.gp_fault (omega arith) (omega arith) refl
            ∙ installed idtr fits e1 0x8 h.double_fault ok.double_fault (omega arith),
        devices 0xd (omega arith) ∙ installed idtr fits e2 0xd h.gp_fault ok.gp_fault (omega arith),
        after_pit 0x21 (omega arith) refl
            ∙ after_mouse 0x21 (omega arith) refl
            ∙ installed idtr fits e3 0x21 h.keyboard ok.keyboard (omega arith),
        after_pit 0x2c (omega arith) refl
            ∙ installed idtr fits e4 0x2c h.mouse ok.mouse (omega arith),
        installed idtr fits e5 0x20 h.pit ok.pit (omega arith),
      )

-- The interrupt of a line: the gate of the vector that the controllers give for it, of which lines
-- 8 to 15 are those of the second one
abbrev pub line_target : Idtr → (ℕ → IdtDescEntry) → Pair → (line : ℕ) → ℕ
line_target idtr entries p line =
    target idtr entries (if ltb line 8 then p.first.vector + line else p.second.vector + (line - 8))

-- If the table is in the address space and the handlers' addresses have 64 bits, then after
-- InitializeInterrupts, whatever state the controllers are in before, the lines of the timer (0),
-- the keyboard (1) and the mouse (12) go to the gates of their handlers, and the exceptions 8, 13
-- and 14 to those of theirs.
pub initialize_interrupts-dispatches :
    (other : ℕ → ℕ) (a2 : ℕ) (h : Handlers) (p : Pair) (frames : Pfa) (entries : ℕ → IdtDescEntry)
    → IsHandlers h
    → (request_page frames).0 + 256 * entry_size ≤ 2 ^ 64
    → let ((idtr, entries'), p', _) =
        initialize_interrupts (pair_ports other) a2 h p frames entries in
      (line_target idtr entries' p' 0 ≡ h.pit)
      × (line_target idtr entries' p' 1 ≡ h.keyboard)
      × (line_target idtr entries' p' 12 ≡ h.mouse)
      × (target idtr entries' 0x8 ≡ h.double_fault)
      × (target idtr entries' 0xd ≡ h.gp_fault)
      × (target idtr entries' 0xe ≡ h.page_fault)
unfolding initialize_interrupts init_interrupt_table play set_divisor
initialize_interrupts-dispatches other a2 h p frames entries ok fits =
    let idtr : Idtr = record { size = 0x0fff; offset = (request_page frames).0 } in
    let (pf, df, gp, kb, mouse, pit) = install-targets idtr fits entries h ok in
    rw (remap-initialises other a2 0x20 0x28 p) (pit, kb, mouse, df, gp, pf)
