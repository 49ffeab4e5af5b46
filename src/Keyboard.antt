-- ===== src/Keyboard.antt =====
-- rizzos/src/userinput/keyboard.c and kb_scancode_translation.c: the shift keys, and the character
-- of a scan code.
pub mod Held
pub mod Keys
mod Tests
use rizzos.Base.{
  ℕ, zero, suc, ◌+◌, ◌-◌, ◌*◌, ◌/◌, ◌%◌, ◌^◌, Bool, true, false, ◌||◌, ltb, ◌==◌, List, [], ◌∷◌,
  if◌then◌else◌, get_or,
}

-- UI_KB_LEFT_SHIFT and the other named scan codes
abbrev pub left_shift : ℕ
left_shift = 0x2a

abbrev pub right_shift : ℕ
right_shift = 0x36

abbrev pub enter : ℕ
enter = 0x1c

abbrev pub backspace : ℕ
backspace = 0x0e

abbrev pub spacebar : ℕ
spacebar = 0x39

-- `UI_KB_QWERTY_ASCIITable`
unfoldable pub qwerty_ascii_table : List ℕ
qwerty_ascii_table =
    0 ∷ 0 ∷ 49 ∷ 50 ∷ 51 ∷ 52 ∷ 53 ∷ 54 ∷ 55 ∷ 56 ∷ 57 ∷ 48 ∷ 45 ∷ 61 ∷ 0 ∷ 0 ∷ 113 ∷ 119 ∷ 101
    ∷ 114 ∷ 116 ∷ 121 ∷ 117 ∷ 105 ∷ 111 ∷ 112 ∷ 91 ∷ 93 ∷ 0 ∷ 0 ∷ 97 ∷ 115 ∷ 100 ∷ 102 ∷ 103 ∷ 104
    ∷ 106 ∷ 107 ∷ 108 ∷ 59 ∷ 39 ∷ 96 ∷ 0 ∷ 92 ∷ 122 ∷ 120 ∷ 99 ∷ 118 ∷ 98 ∷ 110 ∷ 109 ∷ 44 ∷ 46 ∷ 47
    ∷ 0 ∷ 42 ∷ 0 ∷ 32 ∷ []

-- `UI_KB_QWERTY_Translate`. The table has no entry 58, and the test lets 58 through: `beyond` is
-- the byte that lies behind the table. A `char` is its byte, so `- 32` wraps at 256.
unfoldable pub qwerty_translate : (beyond scancode : ℕ) → Bool → ℕ
qwerty_translate beyond scancode uppercase =
    let plain : ℕ = get_or qwerty_ascii_table scancode beyond in
    if ltb 58 scancode then 0 else if uppercase then (plain + 2 ^ 8 - 32) % 2 ^ 8 else plain

-- The static variables of keyboard.c, and the calls that it makes to draw.
pub record Keyboard : Type 0 where
  pub is_left_shift_pressed : Bool
  pub is_right_shift_pressed : Bool

pub data Drawing : Type 0 where
  next_line clear_char : Drawing
  put_char : ℕ → Drawing

-- `UI_Handle_Keyboard`: the state and the calls afterwards. The cases of the switch are tried in
-- their order, and `beyond` is as above.
unfoldable pub handle_keyboard : (beyond : ℕ) → Keyboard → ℕ → Keyboard × List Drawing
handle_keyboard beyond k scancode =
    let ascii : ℕ =
      qwerty_translate beyond scancode (k.is_left_shift_pressed || k.is_right_shift_pressed) in
    if scancode == left_shift
    then (record k { is_left_shift_pressed = true }, [])
    else if scancode == left_shift + 0x80
    then (record k { is_left_shift_pressed = false }, [])
    else if scancode == right_shift
    then (record k { is_right_shift_pressed = true }, [])
    else if scancode == right_shift + 0x80
    then (record k { is_right_shift_pressed = false }, [])
    else if scancode == enter
    then (k, next_line ∷ [])
    else if scancode == spacebar
    then (k, put_char 32 ∷ [])
    else if scancode == backspace
    then (k, clear_char ∷ [])
    else if ascii == 0
    then (k, [])
    else (k, put_char ascii ∷ [])

-- The keyboard after a sequence of interrupts.
pub after_keys : (beyond : ℕ) → Keyboard → List ℕ → Keyboard
after_keys beyond k [] = k
after_keys beyond k (c ∷ cs) = after_keys beyond (handle_keyboard beyond k c).0 cs
