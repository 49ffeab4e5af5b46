-- ===== src/Pic/Ends.antt =====
-- Every handler of rizzos/src/interrupts/interrupts.c that returns ends its interrupt.
use rizzos.Base.{ℕ, ◌≡◌, refl, false}
use rizzos.Base.Bits.{test_bit}
use rizzos.Keyboard.{Keyboard, handle_keyboard}
use rizzos.Mouse
use rizzos.Mouse.{Mouse}
use rizzos.Pic.{keyboard_int_handler, mouse_int_handler, pit_handler, end_master, end_slave}
use rizzos.Pic.Device.{Pair, command, pair_ports}

-- The handlers of keyboard, mouse and timer end the interrupt at the controllers that their line
-- goes through, the second one too for the mouse, and change no controller otherwise; the keyboard
-- and the mouse take the byte at port 0x60.
pub handlers_end :
    (other : ℕ → ℕ) (beyond width height : ℕ) (k : Keyboard) (m : Mouse) (p : Pair)
    → let ended = record p { first = record p.first { in_service = false } } in
      let both = record ended { second = record p.second { in_service = false } } in
      (keyboard_int_handler (pair_ports other) beyond k p ≡ (
        (handle_keyboard beyond k (other 0x60)).0,
        (handle_keyboard beyond k (other 0x60)).1,
        ended,
      ))
      × (mouse_int_handler (pair_ports other) width height m p
          ≡ (Mouse.handle width height m (other 0x60), both))
      × (pit_handler (pair_ports other) p ≡ ended)
unfolding keyboard_int_handler mouse_int_handler pit_handler end_master end_slave command test_bit
handlers_end other beyond width height k m p = (refl, refl, refl)
