-- ===== src/Mouse.antt =====
-- rizzos/src/userinput/mouse.c: the packets of the mouse and its position. The set-up of the
-- device is in Mouse/Setup, the drawing of the pointer in Graphics.
pub mod Controller
pub mod Screen
pub mod Setup
mod Tests
use rizzos.Base.{
  ℕ, zero, suc, ◌+◌, ◌-◌, ◌*◌, ◌/◌, ◌%◌, ◌^◌, Bool, true, false, not, ◌&&◌, ltb, leb, ◌==◌, bit_and,
  List, [], ◌∷◌, if◌then◌else◌,
}

-- The static variables. A `long` is its 64 bits, so the numbers from 2^63 on are negative.
pub record Mouse : Type 0 where
  pub mouse_cycle : ℕ
  pub packet0 : ℕ
  pub packet1 : ℕ
  pub packet2 : ℕ
  pub is_mouse_packet_ready : Bool
  pub skip : Bool
  pub x : ℕ
  pub y : ℕ

-- PS2XSign and the other bits of the first byte
abbrev pub x_sign : ℕ
x_sign = 0x10

abbrev pub y_sign : ℕ
y_sign = 0x20

abbrev pub x_overflow : ℕ
x_overflow = 0x40

abbrev pub y_overflow : ℕ
y_overflow = 0x80

-- `a += b` and `a -= b` on a `long`
abbrev pub add_long : ℕ → ℕ → ℕ
add_long a b = (a + b) % 2 ^ 64

abbrev pub sub_long : ℕ → ℕ → ℕ
sub_long a b = (a + 2 ^ 64 - b) % 2 ^ 64

-- `if (a < 0) a = 0; if (a > limit) a = limit;` on a `long`, the limit not being negative.
abbrev pub clamp : (limit a : ℕ) → ℕ
clamp limit a =
    let low : ℕ = if leb (2 ^ 63) a then 0 else a in if ltb limit low then limit else low

-- One axis of the movement: the position, the byte of the packet as it is left, which is negated
-- when the sign is set, and `far` for an overflow.
abbrev pub away : (far : ℕ) → (overflow : Bool) → (a byte : ℕ) → ℕ
away far overflow a byte =
    let moved : ℕ = add_long a byte in if overflow then add_long moved far else moved

abbrev pub back : (far : ℕ) → (overflow : Bool) → (a byte : ℕ) → ℕ
back far overflow a byte =
    let moved : ℕ = sub_long a byte in if overflow then sub_long moved far else moved

-- `UI_PS2Mouse_ProcessPacket`, with the screen's width and height, which are `uint32_t`
unfoldable pub process_packet : (width height : ℕ) → Mouse → Mouse
process_packet width height m =
    let x_negative : Bool = ltb 0 (bit_and m.packet0 x_sign) in
    let y_negative : Bool = ltb 0 (bit_and m.packet0 y_sign) in
    let x_over : Bool = ltb 0 (bit_and m.packet0 x_overflow) in
    let y_over : Bool = ltb 0 (bit_and m.packet0 y_overflow) in
    let packet1 : ℕ = if x_negative then (2 ^ 8 + 256 - m.packet1) % 2 ^ 8 else m.packet1 in
    let packet2 : ℕ = if y_negative then (2 ^ 8 + 256 - m.packet2) % 2 ^ 8 else m.packet2 in
    let x : ℕ =
      if not x_negative
      then away (255 * 2) x_over m.x packet1
      else back (255 * 2) x_over m.x packet1 in
    let y : ℕ =
      if not y_negative then back 255 y_over m.y packet2 else away 255 y_over m.y packet2 in
    if not m.is_mouse_packet_ready then m else record m {
      packet1 = packet1;
      packet2 = packet2;
      x = clamp ((width + 2 ^ 32 - 8) % 2 ^ 32) x;
      y = clamp ((height + 2 ^ 32 - 16) % 2 ^ 32) y;
      is_mouse_packet_ready = false;
    }

-- The switch of `UI_PS2Mouse_Handle`
unfoldable pub take_byte : Mouse → ℕ → Mouse
take_byte m mouse_data =
    if m.mouse_cycle == 0
    then (if m.is_mouse_packet_ready
        then m
        else if bit_and mouse_data 0b00001000 == 0
        then m
        else record m { packet0 = mouse_data; mouse_cycle = 1 })
    else if m.mouse_cycle == 1
    then (if m.is_mouse_packet_ready then m else record m { packet1 = mouse_data; mouse_cycle = 2 })
    else if m.mouse_cycle == 2
    then (if m.is_mouse_packet_ready
        then m
        else record m { packet2 = mouse_data; is_mouse_packet_ready = true; mouse_cycle = 0 })
    else m

-- `UI_PS2Mouse_Handle`
unfoldable pub handle : (width height : ℕ) → Mouse → ℕ → Mouse
handle width height m mouse_data =
    let processed = process_packet width height m in
    if processed.skip then record processed { skip = false } else take_byte processed mouse_data

-- The mouse after a sequence of interrupts.
unfoldable pub after_bytes : (width height : ℕ) → Mouse → List ℕ → Mouse
after_bytes width height m [] = m
after_bytes width height m (d ∷ ds) = after_bytes width height (handle width height m d) ds
