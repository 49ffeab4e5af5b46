-- ===== src/Mouse/Tests.antt =====
-- Runs and instances for rizzos/src/userinput/mouse.c.
use rizzos.Base.{bit_or, ℕ, ◌≡◌, refl, inl, true, false, List, [], ◌∷◌, arith}
use rizzos.Mouse.{Mouse, after_bytes, handle, take_byte, process_packet}
use rizzos.Mouse.Controller.{Controller, nothing, controller_ports, ps2_mouse_init-sets}
use rizzos.Mouse.Setup.{ps2_mouse_init}
use rizzos.Mouse.Screen.{IsMouse, after_bytes-IsMouse}

-- The static variables at the start.
abbrev at_start : Mouse
at_start = record {
  mouse_cycle = 0;
  packet0 = 0;
  packet1 = 0;
  packet2 = 0;
  is_mouse_packet_ready = false;
  skip = true;
  x = 100;
  y = 100;
}

-- The acknowledgement, a packet that moves far to the left, and the start of the next.
abbrev bytes : List ℕ
bytes = 0xfa ∷ 0x18 ∷ 0x10 ∷ 0x05 ∷ 0x08 ∷ []

at_start-IsMouse : IsMouse 640 480 at_start
at_start-IsMouse = record {
  across = omega arith;
  down = omega arith;
  cycle = omega arith;
  whole = inl refl;
}

after_bytes-IsMouse_example : IsMouse 640 480 (after_bytes 640 480 at_start bytes)
after_bytes-IsMouse_example =
    after_bytes-IsMouse 640 480 (omega arith) (omega arith) (omega arith) (omega arith) at_start
      bytes at_start-IsMouse

moved_left :
    ((after_bytes 640 480 at_start bytes).x ≡ 0) × ((after_bytes 640 480 at_start bytes).y ≡ 95)
unfolding after_bytes handle take_byte process_packet
moved_left = (refl, refl)

-- A controller as the firmware leaves it, busy for three reads after each byte
abbrev controller : Controller
controller = record {
  aux_enabled = false;
  config = 0x45;
  expects = nothing;
  output = [];
  reporting = false;
  busy = 3;
}

ps2_mouse_init-sets_example :
    ps2_mouse_init (controller_ports 3) 10 controller ≡ record controller {
      aux_enabled = true;
      config = bit_or 0x45 2;
      reporting = true;
      expects = nothing;
      output = [];
      busy = 0;
    }
ps2_mouse_init-sets_example =
    ps2_mouse_init-sets 3 10 controller (omega arith) refl refl (omega arith)
