-- ===== src/Keyboard/Tests.antt =====
-- Runs and instances for rizzos/src/userinput/keyboard.c and kb_scancode_translation.c.
use rizzos.Base.{ℕ, ◌≡◌, refl, true, false, List, [], ◌∷◌}
use rizzos.Keyboard.{
  Keyboard, handle_keyboard, qwerty_translate, qwerty_ascii_table, after_keys, put_char, left_shift,
  right_shift,
}
use rizzos.Keyboard.Held.{held, after_keys-held}

abbrev released : Keyboard
released = record { is_left_shift_pressed = false; is_right_shift_pressed = false }

-- Left shift down, the key of the letter a down and up, left shift up.
abbrev shifted_letter : List ℕ
shifted_letter = 0x2a ∷ 0x1e ∷ 0x9e ∷ 0xaa ∷ []

after_keys-held_example :
    ((after_keys 0 released shifted_letter).is_left_shift_pressed
      ≡ held left_shift false shifted_letter)
    × ((after_keys 0 released shifted_letter).is_right_shift_pressed
        ≡ held right_shift false shifted_letter)
after_keys-held_example = after_keys-held 0 released shifted_letter

abbrev no_key : ℕ
no_key = 0x00

abbrev escape : ℕ
escape = 0x01

neither_drawn : qwerty_translate 0 no_key false ≡ qwerty_translate 0 escape false
unfolding qwerty_translate qwerty_ascii_table
neither_drawn = refl

-- A key without a character, here control, draws a character when a shift key is down, and the
-- code 58 gives the byte behind the table.
faults :
    ((handle_keyboard 0
        (record { is_left_shift_pressed = true; is_right_shift_pressed = false })
        0x1d).1
      ≡ put_char 0xe0 ∷ [])
    × ((handle_keyboard 0x55 released 58).1 ≡ put_char 0x55 ∷ [])
unfolding handle_keyboard qwerty_translate qwerty_ascii_table
faults = (refl, refl)
