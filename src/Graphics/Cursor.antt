-- ===== src/Graphics/Cursor.antt =====
-- The text cursor of rizzos/src/graphics/basic_graphics.c stays on the screen, and printing stays
-- in the frame buffer.
use rizzos.Base.{
  ℕ, ◌+◌, ◌-◌, ◌*◌, ◌/◌, ◌%◌, ◌≤◌, ◌<◌, ◌≡◌, refl, ◌∙◌, ap, inl, inr, true, ltb, ◌==◌, List, [],
  ◌∷◌, length, Option, some, if◌then◌else◌, arith, Bool-cases,
}
use rizzos.Graphics.{
  FrameBuffer, Screen, clear_bg, clear_buffer, reset_cursor, next_line, put_tab, put_char, put_rows,
  glyph_address, clear_char, print_text, print_size, print, last_line, clear_below, default_cur_x,
  default_cur_y,
}
use rizzos.Graphics.Box.{IsFrame, OffScreen, put_rows-outside, blank_rows-outside, OffScreen-away}
use rizzos.Memory.Fill.{set-filled, filled, filled-outside}

-- The cursor's column is a multiple of eight from eight up to the width, its line one that holds a whole character.
pub record IsOnScreen (f : FrameBuffer) (s : Screen) : Type 0 where
  pub frame : s.frame_buffer ≡ f
  pub left : 8 ≤ s.cursor_position.x
  pub right : s.cursor_position.x ≤ f.width
  pub column : s.cursor_position.x % 8 ≡ 0
  pub top : 16 ≤ s.cursor_position.y
  pub bottom : s.cursor_position.y + 16 ≤ f.height

-- A screen that comes from `s` by drawing on the screen of `f`.
pub record Drawn (f : FrameBuffer) (s s' : Screen) : Type 0 where
  pub placed : IsOnScreen f s'
  pub outside : (a : ℕ) → OffScreen f a → s'.mem a ≡ s.mem a

abbrev pub Draws : FrameBuffer → Screen → Option Screen → Type 0
Draws f s out = (s' : Screen) × (out ≡ some s') × Drawn f s s'

module _ (f : FrameBuffer) (ok : IsFrame f) where
  cleared : (s : Screen) → s.frame_buffer ≡ f → Draws f s (clear_buffer s)
  unfolding clear_buffer clear_bg reset_cursor
  cleared s same =
      let base = s.frame_buffer.base_address in
      let size = s.frame_buffer.buffer_size in
      let here : base ≡ f.base_address = ap (λ (g : FrameBuffer). g.base_address) same in
      let there : size ≡ f.buffer_size = ap (λ (g : FrameBuffer). g.buffer_size) same in
      let done = (set-filled s.mem base s.bg_color size (omega (arith, ok.room))).1 in
      (
        record s {
          mem = filled 4 s.mem base s.bg_color ((size + 3) / 4 * 4);
          cursor_position = record { x = default_cur_x; y = default_cur_y };
        },
        rw done,
        record {
          placed = record {
            frame = same;
            left = omega arith;
            right = ok.wide;
            column = omega arith;
            top = omega arith;
            bottom = ok.high;
          };
          outside = λ a off.
              filled-outside 4 s.mem base s.bg_color ((size + 3) / 4 * 4) a
                (omega (arith, ok.whole));
        },
      )

  -- Drawing and moving, with a screen cleared when the line is below the last.
  below :
      (s : Screen)
      → s.frame_buffer ≡ f
      → 8 ≤ s.cursor_position.x
      → s.cursor_position.x ≤ f.width
      → s.cursor_position.x % 8 ≡ 0
      → 16 ≤ s.cursor_position.y
      → Draws f s (clear_below s)
  below s same left right column top =
      let line : last_line s.frame_buffer ≡ f.height - 16 =
        ap last_line same ∙ omega (arith, ok.high, ok.flat) in
      elim (Bool-cases (ltb (last_line s.frame_buffer) s.cursor_position.y)) [
        | inl out ↦ rw out (cleared s same)
        | inr fits ↦ rw fits (
          s,
          refl,
          record {
            placed = record {
              frame = same;
              left = left;
              right = right;
              column = column;
              top = top;
              bottom = ground (arith, line, ok.high);
            };
            outside = λ a off. refl;
          },
        )
      ]

  -- Bytes that a first part has left, and a second.
  pub after :
      {s t : Screen} {out : Option Screen}
      → ((a : ℕ) → OffScreen f a → t.mem a ≡ s.mem a)
      → Draws f t out
      → Draws f s out
  after same (u, eq, d) =
      (u, eq, record { placed = d.placed; outside = λ a off. d.outside a off ∙ same a off })

  pub next_line-Draws : (s : Screen) → IsOnScreen f s → Draws f s (next_line s)
  unfolding next_line
  next_line-Draws s on =
      after (λ a off. refl)
        (below
          (record s {
            cursor_position = record { x = default_cur_x; y = s.cursor_position.y + default_cur_y };
          })
          on.frame (omega arith) ok.wide (omega arith) (omega (arith, on.top)))

  put_tab-Draws : (s : Screen) → IsOnScreen f s → Draws f s (put_tab s)
  unfolding put_tab next_line
  put_tab-Draws s on =
      let wide : s.frame_buffer.width ≡ f.width = ap (λ (g : FrameBuffer). g.width) on.frame in
      elim (Bool-cases (ltb s.frame_buffer.width (s.cursor_position.x + 32))) [
        | inl over ↦ rw over (next_line-Draws s on)
        | inr fits ↦ rw fits (
          record s { cursor_position = record s.cursor_position { x = s.cursor_position.x + 32 } },
          refl,
          record {
            placed = record {
              frame = on.frame;
              left = omega (arith, on.left);
              right = ground (arith, wide);
              column = omega (arith, on.column);
              top = on.top;
              bottom = on.bottom;
            };
            outside = λ a off. refl;
          },
        )
      ]

  pub put_char-Draws : (s : Screen) (chr : ℕ) → IsOnScreen f s → Draws f s (put_char s chr)
  unfolding put_char
  put_char-Draws s chr on =
      let p = s.cursor_position in
      let drawn = put_rows s.frame_buffer s.color p.x s.mem p.y (glyph_address s.font chr) 16 in
      let wide : s.frame_buffer.width ≡ f.width = ap (λ (g : FrameBuffer). g.width) on.frame in
      let same : (a : ℕ) → OffScreen f a → drawn a ≡ s.mem a = λ a off.
        put_rows-outside s.frame_buffer s.color p.x s.mem p.y (glyph_address s.font chr) 16 a
          (rw on.frame (OffScreen-away f p.x p.y a ok on.right on.bottom off)) in
      elim (Bool-cases (ltb s.frame_buffer.width (p.x + default_cur_x))) [
        | inl over ↦ simp over (
            after same (
              below
                (record s {
                  mem = drawn;
                  cursor_position = record { x = default_cur_x; y = p.y + default_cur_y };
                })
                on.frame (omega arith) ok.wide (omega arith) (omega (arith, on.top))))
        | inr fits ↦ simp fits (
            after same (
              below
                (record s {
                  mem = drawn;
                  cursor_position = record { x = p.x + default_cur_x; y = p.y };
                })
                on.frame (omega arith) (ground (arith, wide)) (omega (arith, on.column)) on.top))
      ]

  -- A character is taken back, unless the cursor is in the first column.
  pub clear_char-Draws : (s : Screen) → IsOnScreen f s → Draws f s (some (clear_char s))
  unfolding clear_char
  clear_char-Draws s on =
      let p = s.cursor_position in
      elim (Bool-cases (ltb default_cur_x p.x)) [
        | inr first ↦ simp first (s, refl, record { placed = on; outside = λ a off. refl })
        | inl more ↦
            let far : 16 ≤ p.x = ground (arith, more, on.column) in
            simp more (
              _,
              refl,
              record {
                placed = record {
                  frame = on.frame;
                  left = omega arith;
                  right = omega (arith, on.right);
                  column = omega (arith, on.column);
                  top = on.top;
                  bottom = on.bottom;
                };
                outside = λ a off.
                    blank_rows-outside s.frame_buffer s.bg_color (p.x - default_cur_x) s.mem p.y 16
                      a
                      (rw on.frame (
                        OffScreen-away f (p.x - default_cur_x) p.y a ok (omega (arith, on.right))
                          on.bottom off));
              },
            )
      ]

  one_char :
      (s : Screen) (chr : ℕ)
      → IsOnScreen f s
      → Draws f s
          (if chr == 10 then next_line s else if chr == 9 then put_tab s else put_char s chr)
  one_char s chr on = elim (Bool-cases (chr == 10)) [
    | inl line ↦ rw line (next_line-Draws s on)
    | inr other ↦ rw other (elim (Bool-cases (chr == 9)) [
      | inl tab ↦ rw tab (put_tab-Draws s on)
      | inr glyph ↦ rw glyph (put_char-Draws s chr on)
    ])
  ]

  -- The loop over the text
  print_text-Draws : (s : Screen) (text : List ℕ) → IsOnScreen f s → Draws f s (print_text s text)
  unfolding print_text
  print_text-Draws s [] on = (s, refl, record { placed = on; outside = λ a off. refl })
  print_text-Draws s (chr ∷ rest) on =
      let (t, eq, d) = one_char s chr on in
      rw eq (after d.outside (print_text-Draws t rest d.placed))

  -- If the text cursor is on the screen of a frame buffer whose lines are eight columns longer than
  -- the screen is wide, and the text has fewer than 512 bytes, print comes to its end; the cursor
  -- is on the screen again, and no byte outside the frame buffer has changed.
  pub print-Draws :
      (s : Screen) (text : List ℕ) → IsOnScreen f s → length text < 512 → Draws f s (print s text)
  unfolding print
  print-Draws s text on short =
      let fits : ltb (length text) print_size ≡ true = ground arith in
      rw fits (print_text-Draws s text on)
