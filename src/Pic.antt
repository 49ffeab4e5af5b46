-- ===== src/Pic.antt =====
-- rizzos/src/interrupts/interrupts.c: the two interrupt controllers and the handlers that end an
-- interrupt. The handlers of faults, which never return, are not here.
pub mod Device
pub mod Ends
pub mod Remap
mod Tests
use rizzos.Base.{ℕ, ◌+◌, ◌%◌, ◌^◌, List, bit_or}
use rizzos.Keyboard.{Keyboard, Drawing, handle_keyboard}
use rizzos.Mouse
use rizzos.Mouse.{Mouse}
use rizzos.Ports.{Ports, wait}

-- INT_PIC1_COMMAND and the other constants
abbrev pub pic1_command : ℕ
pic1_command = 0x20

abbrev pub pic1_data : ℕ
pic1_data = 0x21

abbrev pub pic2_command : ℕ
pic2_command = 0xa0

abbrev pub pic2_data : ℕ
pic2_data = 0xa1

abbrev pub pic_eoi : ℕ
pic_eoi = 0x20

abbrev pub icw1_icw4 : ℕ
icw1_icw4 = 0x01

abbrev pub icw1_init : ℕ
icw1_init = 0x10

abbrev pub icw4_8086 : ℕ
icw4_8086 = 0x01

module _ {S : Type 0} (io : Ports S) where
  open io use {in_byte, out_byte}

  -- `INT_PIC_Disable`
  unfoldable pub disable : S → S
  disable s = out_byte (out_byte s pic1_data 0xff) pic2_data 0xff

  -- `INT_PIC_EndMaster`
  unfoldable pub end_master : S → S
  end_master s = out_byte s pic1_command pic_eoi

  -- `INT_PIC_EndSlave`
  unfoldable pub end_slave : S → S
  end_slave s = out_byte (out_byte s pic2_command pic_eoi) pic1_command pic_eoi

  -- `INT_PIC_Remap`. The source assigns both reads to `a1`; `a2` is whatever the uninitialised
  -- variable holds.
  unfoldable pub remap : (a2 : ℕ) → S → (offset1 offset2 : ℕ) → S
  remap a2 s offset1 offset2 =
      let (first, s1) = in_byte s pic1_data in
      let s2 = wait io s1 in
      let (a1, s3) = in_byte s2 pic2_data in
      let s4 = wait io s3 in
      let s5 = wait io (out_byte s4 pic1_command (bit_or icw1_init icw1_icw4)) in
      let s6 = wait io (out_byte s5 pic2_command (bit_or icw1_init icw1_icw4)) in
      let s7 = wait io (out_byte s6 pic1_data (offset1 % 2 ^ 8)) in
      let s8 = wait io (out_byte s7 pic2_data (offset2 % 2 ^ 8)) in
      let s9 = wait io (out_byte s8 pic1_data 4) in
      let s10 = wait io (out_byte s9 pic2_data 2) in
      let s11 = wait io (out_byte s10 pic1_data icw4_8086) in
      let s12 = wait io (out_byte s11 pic2_data icw4_8086) in
      let s13 = wait io (out_byte s12 pic1_data a1) in out_byte s13 pic2_data a2

  -- `INT_KeyboardIntHandler`: the keyboard, the calls that draw, and the ports afterwards
  unfoldable pub keyboard_int_handler : (beyond : ℕ) → Keyboard → S → Keyboard × List Drawing × S
  keyboard_int_handler beyond k s =
      let (scan_code, s1) = in_byte s 0x60 in
      let (k', drawn) = handle_keyboard beyond k scan_code in (k', drawn, end_master s1)

  -- `INT_MouseIntHandler`
  unfoldable pub mouse_int_handler : (width height : ℕ) → Mouse → S → Mouse × S
  mouse_int_handler width height m s =
      let (mouse_data, s1) = in_byte s 0x60 in
      (Mouse.handle width height m mouse_data, end_slave s1)

  -- `INT_PIT_Handler`, without the time that `PIT_Tick` counts
  unfoldable pub pit_handler : S → S
  pit_handler s = end_master s
