-- ===== src/Kernel/Typing.antt =====
-- Interrupts of the keyboard as they reach the screen: INT_KeyboardIntHandler
-- (rizzos/src/interrupts/interrupts.c), UI_Handle_Keyboard (rizzos/src/userinput/keyboard.c) and
-- the functions of rizzos/src/graphics/basic_graphics.c that it calls.
use rizzos.Base.{◌>>=◌, ℕ, zero, suc, ◌≡◌, refl, ◌∙◌, List, [], ◌∷◌, Option, some}
use rizzos.Graphics
use rizzos.Graphics.{FrameBuffer, Screen}
use rizzos.Graphics.Box.{IsFrame}
use rizzos.Graphics.Cursor.{
  IsOnScreen, Drawn, Draws, after, next_line-Draws, put_char-Draws, clear_char-Draws,
}
use rizzos.Keyboard.{Keyboard, Drawing, next_line, clear_char, put_char}
use rizzos.Pic.{keyboard_int_handler}
use rizzos.Ports.{Ports}

-- A call that UI_Handle_Keyboard makes, and all of them
unfoldable pub draw : Screen → Drawing → Option Screen
draw s next_line = Graphics.next_line s
draw s clear_char = some (Graphics.clear_char s)
draw s (put_char chr) = Graphics.put_char s chr

unfoldable pub draw_all : Screen → List Drawing → Option Screen
draw_all s [] = some s
draw_all s (d ∷ ds) = draw s d >>= λ s'. draw_all s' ds

-- The keyboard, the screen and what is behind the ports
pub record Typist (S : Type 0) : Type 0 where
  pub keyboard : Keyboard
  pub screen : Screen
  pub devices : S

module _ {S : Type 0} (io : Ports S) (beyond : ℕ) where
  -- An interrupt of the keyboard, and `n` of them
  unfoldable pub key_interrupt : Typist S → Option (Typist S)
  key_interrupt t =
      let (k, drawn, d) = keyboard_int_handler io beyond t.keyboard t.devices in
      draw_all t.screen drawn >>= λ s. some (record { keyboard = k; screen = s; devices = d })

  unfoldable pub key_interrupts : (n : ℕ) → Typist S → Option (Typist S)
  key_interrupts zero t = some t
  key_interrupts (suc n) t = key_interrupt t >>= λ t'. key_interrupts n t'

module _ (f : FrameBuffer) (ok : IsFrame f) where
  draw-Draws : (s : Screen) (d : Drawing) → IsOnScreen f s → Draws f s (draw s d)
  unfolding draw
  draw-Draws s next_line on = next_line-Draws f ok s on
  draw-Draws s clear_char on = clear_char-Draws f ok s on
  draw-Draws s (put_char chr) on = put_char-Draws f ok s chr on

  draw_all-Draws : (s : Screen) (ds : List Drawing) → IsOnScreen f s → Draws f s (draw_all s ds)
  unfolding draw_all
  draw_all-Draws s [] on = (s, refl, record { placed = on; outside = λ a off. refl })
  draw_all-Draws s (d ∷ ds) on =
      let (t, eq, drawn) = draw-Draws s d on in
      rw eq (after f ok drawn.outside (draw_all-Draws t ds drawn.placed))

  -- The outcome of interrupts
  abbrev pub Types : {S : Type 0} → Typist S → Option (Typist S) → Type 0
  Types {S} t result = (t' : Typist S) × (result ≡ some t') × Drawn f t.screen t'.screen

  module _ {S : Type 0} (io : Ports S) (beyond : ℕ) where
    key_interrupt-Types :
        (t : Typist S) → IsOnScreen f t.screen → Types t (key_interrupt io beyond t)
    unfolding key_interrupt
    key_interrupt-Types t on =
        let (k, calls, d) = keyboard_int_handler io beyond t.keyboard t.devices in
        let (s, eq, drawn) = draw_all-Draws t.screen calls on in
        (record { keyboard = k; screen = s; devices = d }, rw eq refl, drawn)

    -- If the text cursor is on the screen of a frame buffer whose lines are eight columns longer
    -- than the screen is wide, any number of interrupts of the keyboard come to their end, whatever
    -- is read from the keyboard: the cursor is on the screen again, and no byte outside the frame
    -- buffer has changed.
    pub key_interrupts-Types :
        (n : ℕ) (t : Typist S) → IsOnScreen f t.screen → Types t (key_interrupts io beyond n t)
    unfolding key_interrupts
    key_interrupts-Types zero t on = (t, refl, record { placed = on; outside = λ a off. refl })
    key_interrupts-Types (suc n) t on =
        let (t1, eq, drawn) = key_interrupt-Types t on in
        let (t2, eq', rest) = key_interrupts-Types n t1 drawn.placed in
        (
          t2,
          rw eq eq',
          record {
            placed = rest.placed;
            outside = λ a off. rest.outside a off ∙ drawn.outside a off;
          },
        )
