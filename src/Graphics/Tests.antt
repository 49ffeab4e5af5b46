-- ===== src/Graphics/Tests.antt =====
-- Runs and instances for rizzos/src/graphics/basic_graphics.c.
use rizzos.Base.{ℕ, ◌+◌, ◌<◌, ◌≡◌, refl, List, [], ◌∷◌, ◌==◌, if◌then◌else◌, get_or, arith}
use rizzos.Graphics.{FrameBuffer, Screen, print, draw_cursor, put_rows, put_row}
use rizzos.Graphics.Box.{IsFrame}
use rizzos.Graphics.Cursor.{IsOnScreen, Draws, print-Draws}
use rizzos.Graphics.Pointer.{mouse_pointer}
use rizzos.Graphics.Trace.{IsOver, place, draw_cursor-IsOver}
use rizzos.Memory.{Mem, read32, write_bytes, read_bytes, byte}

-- Sixty-four by forty-eight pixels in lines of seventy-two.
abbrev small_frame : FrameBuffer
small_frame = record {
  base_address = 0x10000;
  buffer_size = 13824;
  width = 64;
  height = 48;
  pixel_per_scan_line = 72;
}

abbrev blank : Mem
blank = λ a. 0

abbrev at_start : Screen
at_start = record {
  cursor_position = record { x = 8; y = 16 };
  frame_buffer = small_frame;
  font = record { charsize = 16; glyph_buffer = 0x9000 };
  color = 0xffffffff;
  bg_color = 0;
  last_mouse_cur_pos = record { x = 0; y = 0 };
  mouse_last_cursor_buffer = λ i. 0;
  mem = blank;
}

small_frame-IsFrame : IsFrame small_frame
small_frame-IsFrame = record {
  whole = refl;
  holds = omega arith;
  margin = omega arith;
  wide = omega arith;
  high = omega arith;
  flat = omega arith;
  room = omega arith;
}

at_start-IsOnScreen : IsOnScreen small_frame at_start
at_start-IsOnScreen = record {
  frame = refl;
  left = omega arith;
  right = omega arith;
  column = omega arith;
  top = omega arith;
  bottom = omega arith;
}

-- A tab, a letter and two lines.
abbrev text : List ℕ
text = 9 ∷ 65 ∷ 10 ∷ 10 ∷ []

print-Draws_example : Draws small_frame at_start (print at_start text)
print-Draws_example =
    print-Draws small_frame small_frame-IsFrame at_start text at_start-IsOnScreen (omega arith)

at_start-IsOver : IsOver blank at_start
unfolding read_bytes
at_start-IsOver = record { outside = λ a h. refl; saved = λ i h. refl }

draw_cursor-IsOver_example :
    let s' = draw_cursor at_start 20 30 in
    IsOver blank s'
    × ((i : ℕ)
        → i < 198
        → read32 s'.mem (place s'.frame_buffer s'.last_mouse_cur_pos i) ≡ (
            if get_or mouse_pointer i 0 == 0
            then read32 blank (place s'.frame_buffer s'.last_mouse_cur_pos i)
            else if get_or mouse_pointer i 0 == 1
            then 0xffffffff
            else 0))
draw_cursor-IsOver_example =
    draw_cursor-IsOver blank at_start 20 30 (λ a. omega arith) (omega arith) at_start-IsOver

-- At the right edge of a screen as wide as its lines, the last line is drawn past the buffer.
abbrev full_frame : FrameBuffer
full_frame = record {
  base_address = 0x10000;
  buffer_size = 12288;
  width = 64;
  height = 48;
  pixel_per_scan_line = 64;
}

past_the_end :
    put_rows full_frame 0xffffffff 64
      (λ a. if a == 0x9000 + 15 then 0x80 else 0)
      32
      0x9000
      16
      0x13000
    ≡ 0xff
unfolding put_rows put_row write_bytes byte
past_the_end = refl
