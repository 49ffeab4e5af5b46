-- ===== src/Mouse/Setup.antt =====
-- rizzos/src/userinput/mouse.c: the set-up of the mouse at the keyboard controller, with its waits.
use rizzos.Base.{ℕ, zero, suc, ltb, ◌==◌, bit_and, bit_or, if◌then◌else◌}
use rizzos.Ports.{Ports}

module _ {S : Type 0} (io : Ports S) where
  open io use {in_byte, out_byte}

  -- `MouseWait` and `MouseWaitInput`, on the rounds left of 100000
  unfoldable pub mouse_wait : (timeout : ℕ) → S → S
  mouse_wait zero s = s
  mouse_wait (suc timeout) s =
      let (status, s') = in_byte s 0x64 in
      let rest = mouse_wait timeout s' in if bit_and status 0b10 == 0 then s' else rest

  unfoldable pub mouse_wait_input : (timeout : ℕ) → S → S
  mouse_wait_input zero s = s
  mouse_wait_input (suc timeout) s =
      let (status, s') = in_byte s 0x64 in
      let rest = mouse_wait_input timeout s' in if ltb 0 (bit_and status 1) then s' else rest

  -- `MouseWrite`, and `MouseRead`: the byte and the state
  unfoldable pub mouse_write : (timeout : ℕ) → S → (value : ℕ) → S
  mouse_write timeout s value =
      let s1 = out_byte (mouse_wait timeout s) 0x64 0xd4 in
      out_byte (mouse_wait timeout s1) 0x60 value

  unfoldable pub mouse_read : (timeout : ℕ) → S → ℕ × S
  mouse_read timeout s = in_byte (mouse_wait_input timeout s) 0x60

  -- `UI_PS2Mouse_Init`, with `timeout` for 100000
  unfoldable pub ps2_mouse_init : (timeout : ℕ) → S → S
  ps2_mouse_init timeout s =
      let s1 = out_byte (mouse_wait timeout s) 0x64 0xa8 in
      let s2 = out_byte (mouse_wait timeout s1) 0x64 0x20 in
      let (read, s3) = in_byte (mouse_wait_input timeout s2) 0x60 in
      let status : ℕ = bit_or read 2 in
      let s4 = out_byte (mouse_wait timeout s3) 0x64 0x60 in
      let s5 = out_byte (mouse_wait timeout s4) 0x60 status in
      let s6 = mouse_wait_input timeout (mouse_write timeout s5 0xf6) in
      let s7 = (mouse_read timeout s6).1 in
      let s8 = mouse_wait_input timeout (mouse_write timeout s7 0xf4) in (mouse_read timeout s8).1
