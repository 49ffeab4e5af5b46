-- ===== src/Graphics/Trace.antt =====
-- The mouse pointer of rizzos/src/graphics/basic_graphics.c is drawn over a picture and taken away
-- without a trace.
use native.Mathlib.Nat.{mul-le-mul_right, add-mul}
use rizzos.Base.{
  ℕ, zero, suc, ◌+◌, ◌*◌, ◌/◌, ◌%◌, ◌≤◌, ◌<◌, ◌≡◌, refl, sym, ◌∙◌, ap, ◌⊎◌, inl, inr, ltb, leb,
  ◌==◌, if◌then◌else◌, update, get_or, arith, Bool-cases, ◌&&◌,
}
use rizzos.Graphics.{
  FrameBuffer, Screen, Point, pixel, for_row, for_rows, clear_last_mouse_cur_pos, draw_pixel,
  draw_cursor,
}
use rizzos.Graphics.Pointer.{mouse_pointer}
use rizzos.Memory.{Mem, read32, write32}
use rizzos.Memory.Bytes.{IsBytes, read_bytes-agree, write_bytes-copy, read32-write32}
use rizzos.Memory.Words.{write_bytes-outside}

-- The address of the pointer's pixel `i` when the pointer is at `p`.
abbrev pub place : FrameBuffer → Point → ℕ → ℕ
place f p i = pixel f (i % 11 + p.x) (i / 11 + p.y)

abbrev pub Apart : ℕ → ℕ → Type 0
Apart p a = (a < p) ⊎ (p + 4 ≤ a)

-- What holds after each pixel of the box in its order holds after the loops.
module _ {S : Type 0} (body : S → ℕ → ℕ → S) (P : ℕ → S → Type 0)
    (step : (x y : ℕ) (s : S)
      → x < 11
      → y < 18
      → P (x + y * 11) s
      → P (x + 1 + y * 11) (body s x y)) where
  for_row-inv :
      (s : S) (x y rounds : ℕ)
      → x + rounds ≡ 11
      → y < 18
      → P (x + y * 11) s
      → P (11 + y * 11) (for_row body s x y rounds)
  unfolding for_row
  for_row-inv s x y zero full low h = let e : x ≡ 11 = omega arith in rw e at h
  for_row-inv s x y (suc rounds) full low h =
      for_row-inv (body s x y) (x + 1) y rounds (omega arith) low (step x y s (omega arith) low h)

  pub for_rows-inv :
      (s : S) (y rounds : ℕ) → y + rounds ≡ 18 → P (0 + y * 11) s → P 198 (for_rows body s y rounds)
  unfolding for_rows
  for_rows-inv s y zero full h = let e : 0 + y * 11 ≡ 198 = omega arith in rw e at h
  for_rows-inv s y (suc rounds) full h =
      let e : 11 + y * 11 ≡ 0 + (y + 1) * 11 = omega arith in
      for_rows-inv (for_row body s 0 y 11) (y + 1) rounds (omega arith)
        (rw e at (for_row-inv s 0 y 11 (omega arith) (omega arith) h))

module _ (f : FrameBuffer) (p : Point) (wide : 11 ≤ f.pixel_per_scan_line) where
  -- The pixels lie one behind the other.
  place_ascending : (i k : ℕ) → i < k → place f p i + 4 ≤ place f p k
  place_ascending i k h = elim (Bool-cases (i / 11 == k / 11)) [
    | inl same ↦
        let row : i / 11 ≡ k / 11 = ground arith in
        let line : (i / 11 + p.y) * f.pixel_per_scan_line ≡ (k / 11 + p.y) * f.pixel_per_scan_line =
          ap (λ r. (r + p.y) * f.pixel_per_scan_line) row in
        omega arith
    | inr other ↦
        let row : i / 11 + 1 ≤ k / 11 = ground arith in
        let line : (i / 11 + p.y + 1) * f.pixel_per_scan_line
            ≤ (k / 11 + p.y) * f.pixel_per_scan_line =
          mul-le-mul_right f.pixel_per_scan_line (omega arith) in
        let next : (i / 11 + p.y + 1) * f.pixel_per_scan_line
            ≡ (i / 11 + p.y) * f.pixel_per_scan_line + 1 * f.pixel_per_scan_line =
          add-mul (i / 11 + p.y) 1 f.pixel_per_scan_line in
        omega arith
  ]

  place_at : (x y : ℕ) → x < 11 → pixel f (x + p.x) (y + p.y) ≡ place f p (x + y * 11)
  place_at x y h =
      let column : (x + y * 11) % 11 ≡ x = omega arith in
      let row : (x + y * 11) / 11 ≡ y = omega arith in rw (column, row)

  -- Taking the pointer away: bytes apart from the pixels still to come are those of the picture.
  abbrev Clearing : Mem → ℕ → Mem → Type 0
  Clearing u k m = (a : ℕ) → ((i : ℕ) → k ≤ i → i < 198 → Apart (place f p i) a) → m a ≡ u a

  Clearing-step :
      (u : Mem) (under : ℕ → ℕ) (k : ℕ) (m : Mem)
      → IsBytes u
      → k < 198
      → under k ≡ read32 u (place f p k)
      → Clearing u k m
      → Clearing u (k + 1) (write32 m (place f p k) (under k))
  Clearing-step u under k m bytes inside saved h a apart =
      elim (Bool-cases (leb (place f p k) a && ltb a (place f p k + 4))) [
        | inl inside_it ↦
            let within : (place f p k ≤ a) × (a < place f p k + 4) = ground arith in
            rw saved (write_bytes-copy 4 m u (place f p k) a bytes within)
        | inr outside_it ↦
            let away : Apart (place f p k) a = ground arith in
            write_bytes-outside 4 m (place f p k) (under k) a away
            ∙ h a (λ i q r. elim (Bool-cases (i == k)) [
              | inl same ↦ let e : i ≡ k = ground arith in rw e away
              | inr other ↦ apart i (ground arith) r
            ])
      ]

  -- The colour of a pixel of the box over the picture.
  abbrev pub shown : Mem → ℕ → ℕ
  shown u i =
      if get_or mouse_pointer i 0 == 0
      then read32 u (place f p i)
      else if get_or mouse_pointer i 0 == 1
      then 0xffffffff
      else 0

  -- Drawing it: bytes apart from the pixels so far are those of the picture; these pixels are
  -- saved, and have the pointer's colours.
  pub record Drawing (u : Mem) (k : ℕ) (s : Mem × (ℕ → ℕ)) : Type 0 where
    pub outside : (a : ℕ) → ((i : ℕ) → i < k → Apart (place f p i) a) → s.0 a ≡ u a
    pub saved : (i : ℕ) → i < k → s.1 i ≡ read32 u (place f p i)
    pub drawn : (i : ℕ) → i < k → read32 s.0 (place f p i) ≡ shown u i

  -- The pixel `k` of the picture is still there.
  untouched :
      (u : Mem) (k : ℕ) (s : Mem × (ℕ → ℕ))
      → Drawing u k s
      → read32 s.0 (place f p k) ≡ read32 u (place f p k)
  untouched u k s h =
      read_bytes-agree 4 u s.0 (place f p k)
        (λ a q r. h.outside a (λ i less. inr (omega (arith, place_ascending i k less))))

  drawing_on :
      (u : Mem) (k : ℕ) (m m' : Mem) (under : ℕ → ℕ)
      → Drawing u k (m, under)
      → ((a : ℕ) → Apart (place f p k) a → m' a ≡ m a)
      → read32 m' (place f p k) ≡ shown u k
      → Drawing u (k + 1) (m', update under k (read32 m (place f p k)))
  drawing_on u k m m' under h rest new = record {
    outside =
        λ a apart. rest a (apart k (omega arith)) ∙ h.outside a (λ i less. apart i (omega arith));
    saved = λ i less. elim (Bool-cases (k == i)) [
      | inl same ↦ let e : k ≡ i = ground arith in rw (same, ← e) (untouched u k (m, under) h)
      | inr other ↦ rw other (h.saved i (ground arith))
    ];
    drawn = λ i less. elim (Bool-cases (k == i)) [
      | inl same ↦ let e : k ≡ i = ground arith in rw (← e) new
      | inr other ↦
          let before : i < k = ground arith in
          read_bytes-agree 4 m m' (place f p i)
            (λ a q r. rest a (inl (omega (arith, place_ascending i k before))))
          ∙ h.drawn i before
    ];
  }

  drawing_step :
      (u : Mem) (x y : ℕ) (s : Mem × (ℕ → ℕ))
      → x < 11
      → y < 18
      → Drawing u (x + y * 11) s
      → Drawing u (x + 1 + y * 11) (draw_pixel f p s x y)
  unfolding draw_pixel
  drawing_step u x y (m, under) small low h =
      let k : ℕ = x + y * 11 in
      let e : x + 1 + y * 11 ≡ x + y * 11 + 1 = omega arith in
      let colour : ℕ = if get_or mouse_pointer (x + y * 11) 0 == 1 then 0xffffffff else 0 in
      rw (e, place_at x y small)
        (elim (Bool-cases (get_or mouse_pointer (x + y * 11) 0 == 0)) [
          | inl clear ↦ rw clear (
              drawing_on u (x + y * 11) m m under h (λ a q. refl)
                (untouched u (x + y * 11) (m, under) h ∙ sym (rw clear)))
          | inr solid ↦ rw solid (
              drawing_on u (x + y * 11) m (write32 m (place f p (x + y * 11)) colour) under h
                (λ a q. write_bytes-outside 4 m (place f p (x + y * 11)) colour a q)
                (read32-write32 m (place f p (x + y * 11)) colour ∙ rw solid (ground arith)))
        ])

-- A picture with the pointer over it: away from the pointer's box the picture shows, and what the
-- box covers is saved.
pub record IsOver (u : Mem) (s : Screen) : Type 0 where
  pub outside :
      (a : ℕ)
      → ((i : ℕ) → i < 198 → Apart (place s.frame_buffer s.last_mouse_cur_pos i) a)
      → s.mem a ≡ u a
  pub saved :
      (i : ℕ)
      → i < 198
      → s.mouse_last_cursor_buffer i ≡ read32 u (place s.frame_buffer s.last_mouse_cur_pos i)

taken_away :
    (u : Mem) (s : Screen)
    → IsBytes u
    → 11 ≤ s.frame_buffer.pixel_per_scan_line
    → IsOver u s
    → (a : ℕ) → clear_last_mouse_cur_pos s a ≡ u a
unfolding clear_last_mouse_cur_pos
taken_away u s bytes wide over a =
    let f = s.frame_buffer in
    let p = s.last_mouse_cur_pos in
    let under = s.mouse_last_cursor_buffer in
    let done =
      for_rows-inv (λ m x y. write32 m (pixel f (x + p.x) (y + p.y)) (under (x + y * 11)))
        (Clearing f p wide u)
        (λ x y m small low h.
          let e : x + 1 + y * 11 ≡ x + y * 11 + 1 = omega arith in
          rw (e, place_at f p wide x y small)
            (Clearing-step f p wide u under (x + y * 11) m bytes (omega arith)
              (over.saved (x + y * 11) (omega arith)) h))
        s.mem 0 18 (omega arith) (λ b apart. over.outside b (λ i q. apart i (omega arith) q)) in
    done a (λ i q r. absurd (omega arith))

-- If the pointer lies over a picture, and the lines of the frame buffer have eleven pixels or more,
-- BG_DrawCursor leaves it over the same picture: at the new place the box shows the pointer's
-- shape over the picture, everywhere else the picture is as if the pointer had never been drawn.
pub draw_cursor-IsOver :
    (u : Mem) (s : Screen) (x_offset y_offset : ℕ)
    → IsBytes u
    → 11 ≤ s.frame_buffer.pixel_per_scan_line
    → IsOver u s
    → let s' = draw_cursor s x_offset y_offset in
      IsOver u s'
      × ((i : ℕ)
          → i < 198
          → read32 s'.mem (place s'.frame_buffer s'.last_mouse_cur_pos i) ≡ (
              if get_or mouse_pointer i 0 == 0
              then read32 u (place s'.frame_buffer s'.last_mouse_cur_pos i)
              else if get_or mouse_pointer i 0 == 1
              then 0xffffffff
              else 0))
unfolding draw_cursor
draw_cursor-IsOver u s x_offset y_offset bytes wide over =
    let f = s.frame_buffer in
    let p = (draw_cursor s x_offset y_offset).last_mouse_cur_pos in
    let clean = taken_away u s bytes wide over in
    let done =
      for_rows-inv (draw_pixel f p) (Drawing f p wide u) (drawing_step f p wide u)
        (clear_last_mouse_cur_pos s, s.mouse_last_cursor_buffer) 0 18 (omega arith)
        (record {
          outside = λ a q. clean a;
          saved = λ i q. absurd (omega arith);
          drawn = λ i q. absurd (omega arith);
        }) in
    (record { outside = done.outside; saved = done.saved }, done.drawn)
