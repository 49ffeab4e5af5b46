-- ===== src/Graphics/Box.antt =====
-- Which bytes rizzos/src/graphics/basic_graphics.c writes for a character.
use native.Mathlib.Nat.{mul-le-mul_right}
use rizzos.Base.{
  ℕ, zero, suc, ◌+◌, ◌*◌, ◌/◌, ◌%◌, ◌^◌, ◌≤◌, ◌<◌, ◌≡◌, refl, ◌∙◌, ◌⊎◌, inl, inr, bit_and, ltb,
  arith, Bool-cases,
}
use rizzos.Graphics.{FrameBuffer, pixel, put_row, put_rows, blank_row, blank_rows}
use rizzos.Memory.{Mem, write32}
use rizzos.Memory.Words.{write_bytes-outside}

put_row-outside :
    (m : Mem) (start glyph_row color k rounds a : ℕ)
    → (a < start + 4 * k) ⊎ (start + 4 * (k + rounds) ≤ a)
    → put_row m start glyph_row color k rounds a ≡ m a
unfolding put_row
put_row-outside m start glyph_row color k zero a h = refl
put_row-outside m start glyph_row color k (suc rounds) a h =
    let same = write_bytes-outside 4 m (start + 4 * k) color a (omega arith) in
    elim (Bool-cases (ltb 0 (bit_and glyph_row (128 / 2 ^ k)))) [
      | inl on ↦ rw on (
          put_row-outside (write32 m (start + 4 * k) color) start glyph_row color (k + 1) rounds a
            (omega arith)
          ∙ same)
      | inr off ↦ rw off (put_row-outside m start glyph_row color (k + 1) rounds a (omega arith))
    ]

blank_row-outside :
    (m : Mem) (start color k rounds a : ℕ)
    → (a < start + 4 * k) ⊎ (start + 4 * (k + rounds) ≤ a)
    → blank_row m start color k rounds a ≡ m a
unfolding blank_row
blank_row-outside m start color k zero a h = refl
blank_row-outside m start color k (suc rounds) a h =
    blank_row-outside (write32 m (start + 4 * k) color) start color (k + 1) rounds a (omega arith)
    ∙ write_bytes-outside 4 m (start + 4 * k) color a (omega arith)

-- Away from eight pixels at `x` on each of the lines `y` to `y + rounds - 1`.
abbrev pub AwayFrom : FrameBuffer → (x y rounds a : ℕ) → Type 0
AwayFrom f x y rounds a =
    (i : ℕ) → i < rounds → (a < pixel f x (y + i)) ⊎ (pixel f x (y + i) + 32 ≤ a)

shift_away :
    (f : FrameBuffer) (x y rounds a : ℕ)
    → AwayFrom f x y (suc rounds) a
    → AwayFrom f x (y + 1) rounds a
shift_away f x y rounds a h i p =
    let e : y + suc i ≡ y + 1 + i = omega arith in rw (← e) (h (suc i) (omega arith))

first_away :
    (f : FrameBuffer) (x y rounds a : ℕ)
    → AwayFrom f x y (suc rounds) a
    → (a < pixel f x y) ⊎ (pixel f x y + 32 ≤ a)
first_away f x y rounds a h = let e : y + 0 ≡ y = omega arith in rw e at (h 0 (omega arith))

pub put_rows-outside :
    (f : FrameBuffer) (color x : ℕ) (m : Mem) (y font_ptr rounds a : ℕ)
    → AwayFrom f x y rounds a
    → put_rows f color x m y font_ptr rounds a ≡ m a
unfolding put_rows
put_rows-outside f color x m y font_ptr zero a h = refl
put_rows-outside f color x m y font_ptr (suc rounds) a h =
    put_rows-outside f color x (put_row m (pixel f x y) (m font_ptr) color 0 8) (y + 1)
      (font_ptr + 1) rounds a (shift_away f x y rounds a h)
    ∙ put_row-outside m (pixel f x y) (m font_ptr) color 0 8 a
        (omega (arith, first_away f x y rounds a h))

pub blank_rows-outside :
    (f : FrameBuffer) (color x : ℕ) (m : Mem) (y rounds a : ℕ)
    → AwayFrom f x y rounds a
    → blank_rows f color x m y rounds a ≡ m a
unfolding blank_rows
blank_rows-outside f color x m y zero a h = refl
blank_rows-outside f color x m y (suc rounds) a h =
    blank_rows-outside f color x (blank_row m (pixel f x y) color 0 8) (y + 1) rounds a
      (shift_away f x y rounds a h)
    ∙ blank_row-outside m (pixel f x y) color 0 8 a (omega (arith, first_away f x y rounds a h))

-- What the loader hands over: a buffer of whole pixels that holds every line, eight columns more
-- than the screen shows, and ends before the address space does.
pub record IsFrame (f : FrameBuffer) : Type 0 where
  pub whole : f.buffer_size % 4 ≡ 0
  pub holds : 4 * (f.height * f.pixel_per_scan_line) ≤ f.buffer_size
  pub margin : f.width + 8 ≤ f.pixel_per_scan_line
  pub wide : 8 ≤ f.width
  pub high : 32 ≤ f.height
  pub flat : f.height < 2 ^ 32
  pub room : f.base_address + f.buffer_size + 8 ≤ 2 ^ 64

abbrev pub OffScreen : FrameBuffer → ℕ → Type 0
OffScreen f a = (a < f.base_address) ⊎ (f.base_address + f.buffer_size ≤ a)

-- A byte off the screen is away from every character on it.
pub OffScreen-away :
    (f : FrameBuffer) (x y a : ℕ)
    → IsFrame f
    → x ≤ f.width
    → y + 16 ≤ f.height
    → OffScreen f a
    → AwayFrom f x y 16 a
OffScreen-away f x y a ok across down off i p =
    let line : (y + i + 1) * f.pixel_per_scan_line ≤ f.height * f.pixel_per_scan_line =
      mul-le-mul_right f.pixel_per_scan_line (omega arith) in
    let next : (y + i + 1) * f.pixel_per_scan_line
        ≡ (y + i) * f.pixel_per_scan_line + f.pixel_per_scan_line =
      grind arith in
    omega (arith, ok.holds, ok.margin, line, next)
