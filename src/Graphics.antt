-- ===== src/Graphics.antt =====
-- rizzos/src/graphics/basic_graphics.c: text and the mouse pointer in the frame buffer.
pub mod Box
pub mod Cursor
pub mod Pointer
pub mod Trace
mod Tests
use rizzos.Base.{
  ◌>>=◌, ℕ, zero, suc, ◌+◌, ◌-◌, ◌*◌, ◌/◌, ◌%◌, ◌^◌, Bool, true, false, bit_and, ltb, ◌==◌, List,
  [], ◌∷◌, Option, none, some, if◌then◌else◌, update, get_or, length,
}
use rizzos.Graphics.Pointer.{mouse_pointer}
use rizzos.Memory.{Mem, set32, read32, write32}

-- `FrameBuffer`
pub record FrameBuffer : Type 0 where
  pub base_address : ℕ
  pub buffer_size : ℕ
  pub width : ℕ
  pub height : ℕ
  pub pixel_per_scan_line : ℕ

-- `PSF1_FONT`, with the field of its header that is read
pub record Psf1Font : Type 0 where
  pub charsize : ℕ
  pub glyph_buffer : ℕ

-- `Point`
pub record Point : Type 0 where
  pub x : ℕ
  pub y : ℕ

-- The static variables, and the memory that holds the frame buffer and the font.
pub record Screen : Type 0 where
  pub cursor_position : Point
  pub frame_buffer : FrameBuffer
  pub font : Psf1Font
  pub color : ℕ
  pub bg_color : ℕ
  pub last_mouse_cur_pos : Point
  pub mouse_last_cursor_buffer : ℕ → ℕ
  pub mem : Mem

abbrev pub default_cur_x : ℕ
default_cur_x = 8

abbrev pub default_cur_y : ℕ
default_cur_y = 16

-- `pixPtr + x + (y * g_frameBuffer.pixelPerScanLine)`, four bytes to a pixel
abbrev pub pixel : FrameBuffer → (x y : ℕ) → ℕ
pixel f x y = f.base_address + 4 * (x + y * f.pixel_per_scan_line)

-- `BG_Init`
unfoldable pub init : Screen → FrameBuffer → Psf1Font → Screen
init s frame_buffer font = record s { frame_buffer = frame_buffer; font = font }

-- `BG_SetBgColor` and `BG_SetColor`
unfoldable pub set_bg_color : Screen → ℕ → Screen
set_bg_color s bg_color = record s { bg_color = bg_color }

unfoldable pub set_color : Screen → ℕ → Screen
set_color s fg_color = record s { color = fg_color }

-- `BG_SetCursor` and `BG_ResetCursor`
unfoldable pub set_cursor : Screen → (x_offset y_offset : ℕ) → Screen
set_cursor s x_offset y_offset = record s {
  cursor_position = record { x = x_offset; y = y_offset };
}

unfoldable pub reset_cursor : Screen → Screen
reset_cursor s = record s { cursor_position = record { x = default_cur_x; y = default_cur_y } }

-- `BG_ClearBg`. `none` is a fill that does not end, here and below.
unfoldable pub clear_bg : Screen → Option Screen
clear_bg s = set32 s.mem s.frame_buffer.base_address s.bg_color s.frame_buffer.buffer_size >>= λ m.
    some (record s { mem = m })

-- `clearBuffer`
unfoldable pub clear_buffer : Screen → Option Screen
clear_buffer s = clear_bg s >>= λ cleared. some (reset_cursor cleared)

-- `g_frameBuffer.height - 16` on a `uint32_t`
abbrev pub last_line : FrameBuffer → ℕ
last_line f = (f.height + 2 ^ 32 - 16) % 2 ^ 32

-- `if (g_cursorPosition.y > g_frameBuffer.height - 16) clearBuffer();`
abbrev pub clear_below : Screen → Option Screen
clear_below s =
    if ltb (last_line s.frame_buffer) s.cursor_position.y then clear_buffer s else some s

-- `BG_NextLine`
unfoldable pub next_line : Screen → Option Screen
next_line s = clear_below (record s {
  cursor_position = record { x = default_cur_x; y = s.cursor_position.y + default_cur_y };
})

-- `BG_PutTab`
unfoldable pub put_tab : Screen → Option Screen
put_tab s =
    let moved : Screen = record s {
      cursor_position = record s.cursor_position { x = s.cursor_position.x + default_cur_x * 4 };
    } in
    if ltb s.frame_buffer.width moved.cursor_position.x then next_line moved else some moved

-- A row of eight pixels from the address `start`: those whose bit is set get the color.
unfoldable pub put_row : Mem → (start glyph_row color k : ℕ) → (rounds : ℕ) → Mem
put_row m start glyph_row color k zero = m
put_row m start glyph_row color k (suc rounds) =
    put_row (if ltb 0 (bit_and glyph_row (128 / 2 ^ k)) then write32 m (start + 4 * k) color else m)
      start glyph_row color (k + 1) rounds

-- The rows of a glyph from the line `y` on, each reading its byte of the font.
unfoldable pub put_rows : FrameBuffer → (color x : ℕ) → Mem → (y font_ptr : ℕ) → (rounds : ℕ) → Mem
put_rows f color x m y font_ptr zero = m
put_rows f color x m y font_ptr (suc rounds) =
    put_rows f color x (put_row m (pixel f x y) (m font_ptr) color 0 8) (y + 1) (font_ptr + 1)
      rounds

-- Where the glyph of a `char` begins, which is negative from 128 on.
abbrev pub glyph_address : Psf1Font → ℕ → ℕ
glyph_address font chr =
    if ltb chr 128
    then (font.glyph_buffer + chr * font.charsize) % 2 ^ 64
    else (font.glyph_buffer + 2 ^ 64 - (256 - chr) * font.charsize) % 2 ^ 64

-- `BG_PutChar`
unfoldable pub put_char : Screen → ℕ → Option Screen
put_char s chr =
    let p = s.cursor_position in
    let f = s.frame_buffer in
    let drawn : Mem = put_rows f s.color p.x s.mem p.y (glyph_address s.font chr) 16 in
    let over : Bool = ltb f.width (p.x + default_cur_x) in
    let moved : Point =
      if over
      then record { x = default_cur_x; y = p.y + default_cur_y }
      else record { x = p.x + default_cur_x; y = p.y } in
    clear_below (record s { mem = drawn; cursor_position = moved })

-- A row of eight pixels in one color, and sixteen of them.
unfoldable pub blank_row : Mem → (start color k : ℕ) → (rounds : ℕ) → Mem
blank_row m start color k zero = m
blank_row m start color k (suc rounds) =
    blank_row (write32 m (start + 4 * k) color) start color (k + 1) rounds

unfoldable pub blank_rows : FrameBuffer → (color x : ℕ) → Mem → (y : ℕ) → (rounds : ℕ) → Mem
blank_rows f color x m y zero = m
blank_rows f color x m y (suc rounds) =
    blank_rows f color x (blank_row m (pixel f x y) color 0 8) (y + 1) rounds

-- `BG_ClearChar`
unfoldable pub clear_char : Screen → Screen
clear_char s =
    let p = s.cursor_position in
    let back : ℕ = p.x - default_cur_x in
    if ltb default_cur_x p.x
    then record s {
      cursor_position = record p { x = back };
      mem = blank_rows s.frame_buffer s.bg_color back s.mem p.y 16;
    }
    else s

-- The loop of `print` over the text in its buffer, which the list holds up to its terminating zero
unfoldable pub print_text : Screen → List ℕ → Option Screen
print_text s [] = some s
print_text s (chr ∷ rest) =
    let printed : Option Screen =
      if chr == 10 then next_line s else if chr == 9 then put_tab s else put_char s chr in
    printed >>= λ s'. print_text s' rest

-- `char str[512]` of `print`
abbrev pub print_size : ℕ
print_size = 512

-- `print`, of the text that `stbsp_vsprintf` makes. With its zero the text must fit into the buffer:
-- a longer one is written over the stack, which C leaves undefined, here `none`.
unfoldable pub print : Screen → (text : List ℕ) → Option Screen
print s text =
    let printed : Option Screen = print_text s text in
    if ltb (length text) print_size then printed else none

abbrev pub pointer_width : ℕ
pointer_width = 11

abbrev pub pointer_height : ℕ
pointer_height = 18

-- `for (y …) for (x …) body`, on the rounds left of a row and of the box.
unfoldable pub for_row : {S : Type 0} → (S → ℕ → ℕ → S) → S → (x y : ℕ) → (rounds : ℕ) → S
for_row body s x y zero = s
for_row body s x y (suc rounds) = for_row body (body s x y) (x + 1) y rounds

unfoldable pub for_rows : {S : Type 0} → (S → ℕ → ℕ → S) → S → (y : ℕ) → (rounds : ℕ) → S
for_rows body s y zero = s
for_rows body s y (suc rounds) = for_rows body (for_row body s 0 y pointer_width) (y + 1) rounds

-- `ClearLastMouseCurPos`
unfoldable pub clear_last_mouse_cur_pos : Screen → Mem
clear_last_mouse_cur_pos s =
    for_rows
      (λ m x y.
        write32 m (pixel s.frame_buffer (x + s.last_mouse_cur_pos.x) (y + s.last_mouse_cur_pos.y))
          (s.mouse_last_cursor_buffer (x + y * pointer_width)))
      s.mem 0 pointer_height

-- The body of the loop of `BG_DrawCursor`: the memory, and what was under the pointer.
unfoldable pub draw_pixel : FrameBuffer → Point → Mem × (ℕ → ℕ) → (x y : ℕ) → Mem × (ℕ → ℕ)
draw_pixel f at_point (m, under) x y =
    let index : ℕ = x + y * pointer_width in
    let place : ℕ = pixel f (x + at_point.x) (y + at_point.y) in
    let saved = update under index (read32 m place) in
    let shape : ℕ = get_or mouse_pointer index 0 in
    if shape == 0
    then (m, saved)
    else (write32 m place (if shape == 1 then 0xffffffff else 0), saved)

-- `if (offset > (size - length)) offset = size - length - 1;` on a `uint32_t`
abbrev pub pull_back : (size length offset : ℕ) → ℕ
pull_back size length offset =
    if ltb ((size + 2 ^ 32 - length) % 2 ^ 32) offset
    then (size + 2 ^ 32 - length - 1) % 2 ^ 32
    else offset

-- `BG_DrawCursor`
unfoldable pub draw_cursor : Screen → (x_offset y_offset : ℕ) → Screen
draw_cursor s x_offset y_offset =
    let f = s.frame_buffer in
    let place : Point = record {
      x = pull_back f.width pointer_width x_offset;
      y = pull_back f.height pointer_height y_offset;
    } in
    let (m, under) =
      for_rows (draw_pixel f place) (clear_last_mouse_cur_pos s, s.mouse_last_cursor_buffer) 0
        pointer_height in
    record s { mem = m; mouse_last_cursor_buffer = under; last_mouse_cur_pos = place }
