-- ===== src/Pic/Tests.antt =====
-- Instances for rizzos/src/interrupts/interrupts.c.
use rizzos.Base.{ℕ, ◌%◌, ◌^◌, ◌≡◌, true, false}
use rizzos.Keyboard.{Keyboard, handle_keyboard}
use rizzos.Mouse
use rizzos.Mouse.{Mouse}
use rizzos.Pic.{remap, keyboard_int_handler, mouse_int_handler, pit_handler}
use rizzos.Pic.Device.{Pair, mask_word, cascade_word, pair_ports}
use rizzos.Pic.Ends.{handlers_end}
use rizzos.Pic.Remap.{remap-initialises}

-- Controllers as the firmware may leave them, one of them in the middle of its initialisation.
abbrev left : Pair
left = record {
  first = record {
    stage = mask_word;
    vector = 8;
    cascade = 0;
    mode = 0;
    mask = 0xb8;
    in_service = true;
  };
  second = record {
    stage = cascade_word;
    vector = 0x70;
    cascade = 0;
    mode = 0;
    mask = 0x8e;
    in_service = true;
  };
}

abbrev at_port : ℕ → ℕ
at_port port = 0x2a

remap-initialises_example : remap (pair_ports at_port) 0x55 left 0x20 0x28 ≡ record {
  first = record left.first {
    stage = mask_word;
    vector = 0x20 % 2 ^ 8;
    cascade = 4;
    mode = 1;
    mask = 0x8e;
  };
  second = record left.second {
    stage = mask_word;
    vector = 0x28 % 2 ^ 8;
    cascade = 2;
    mode = 1;
    mask = 0x55;
  };
}
remap-initialises_example = remap-initialises at_port 0x55 0x20 0x28 left

abbrev keys : Keyboard
keys = record { is_left_shift_pressed = false; is_right_shift_pressed = false }

abbrev pointer : Mouse
pointer = record {
  mouse_cycle = 0;
  packet0 = 0;
  packet1 = 0;
  packet2 = 0;
  is_mouse_packet_ready = false;
  skip = false;
  x = 100;
  y = 100;
}

handlers_end_example :
    let ended = record left { first = record left.first { in_service = false } } in
    let both = record ended { second = record left.second { in_service = false } } in
    (keyboard_int_handler (pair_ports at_port) 0 keys left
      ≡ ((handle_keyboard 0 keys 0x2a).0, (handle_keyboard 0 keys 0x2a).1, ended))
    × (mouse_int_handler (pair_ports at_port) 640 480 pointer left
        ≡ (Mouse.handle 640 480 pointer 0x2a, both))
    × (pit_handler (pair_ports at_port) left ≡ ended)
handlers_end_example = handlers_end at_port 0 640 480 keys pointer left
