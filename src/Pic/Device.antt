-- ===== src/Pic/Device.antt =====
-- What the controllers that rizzos/src/interrupts/interrupts.c writes to do by their
-- documentation (8259A): four initialisation words, the mask, and the end of an interrupt.
use rizzos.Base.{ℕ, Bool, false, ◌==◌, if◌then◌else◌}
use rizzos.Base.Bits.{test_bit}
use rizzos.Ports.{Ports}

-- What a controller expects on its data port.
pub data Stage : Type 0 where
  mask_word vector_word cascade_word mode_word : Stage

pub record Controller : Type 0 where
  pub stage : Stage
  pub vector : ℕ
  pub cascade : ℕ
  pub mode : ℕ
  pub mask : ℕ
  pub in_service : Bool

-- A word with bit 4 starts the initialisation, which clears the mask; 0x20 ends the interrupt.
unfoldable pub command : Controller → ℕ → Controller
command c v =
    if test_bit v 4
    then record c { stage = vector_word; mask = 0 }
    else if v == 0x20
    then record c { in_service = false }
    else c

unfoldable pub word : Stage → Controller → ℕ → Controller
word mask_word c v = record c { mask = v }
word vector_word c v = record c { vector = v; stage = cascade_word }
word cascade_word c v = record c { cascade = v; stage = mode_word }
word mode_word c v = record c { mode = v; stage = mask_word }

-- The two controllers behind their four ports; whatever else answers is `other`.
pub record Pair : Type 0 where
  pub first : Controller
  pub second : Controller

abbrev pub pair_ports : (other : ℕ → ℕ) → Ports Pair
pair_ports other = record {
  in_byte = λ p port. (
    if port == 0x21 then p.first.mask else if port == 0xa1 then p.second.mask else other port,
    p,
  );
  out_byte = λ p port v.
      if port == 0x20
      then record p { first = command p.first v }
      else if port == 0x21
      then record p { first = word p.first.stage p.first v }
      else if port == 0xa0
      then record p { second = command p.second v }
      else if port == 0xa1
      then record p { second = word p.second.stage p.second v }
      else p;
}
