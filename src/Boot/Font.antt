-- ===== src/Boot/Font.antt =====
-- bootloader/bootloader.c: the frame buffer and the font.
use rizzos.Base.{ℕ, ◌+◌, ◌*◌, ◌>>=◌, not, ◌||◌, ◌==◌, Option, none, some, if◌then◌else◌}
use rizzos.Graphics.{FrameBuffer}
use rizzos.Memory.{Mem, write64}
use rizzos.Boot.{Firmware, zap_light16_psf, or_null, load_file}

abbrev pub psf1_magic0 : ℕ
psf1_magic0 = 0x36

abbrev pub psf1_magic1 : ℕ
psf1_magic1 = 0x04

-- `sizeof(PSF1_HEADER)` and `sizeof(PSF1_FONT)`
abbrev pub psf1_header_size : ℕ
psf1_header_size = 4

abbrev pub psf1_font_size : ℕ
psf1_font_size = 16

-- `glyphBufferSize`, by the mode and the size of a character in the header
unfoldable pub glyph_buffer_size : Mem → (font_header : ℕ) → ℕ
glyph_buffer_size m font_header =
    let charsize : ℕ = m (font_header + 3) in
    if m (font_header + 2) == 1 then charsize * 512 else charsize * 256

module _ {S : Type 0} (firmware : Firmware S) where
  open firmware use {memory, store, locate_gop, allocate_pool, set_position, read}

  -- `InitializeGOP`
  unfoldable pub initialize_gop : S → Option (Option FrameBuffer × S)
  initialize_gop s = or_null (locate_gop s) λ gop s'. some (
    some (record {
      base_address = gop.frame_buffer_base;
      buffer_size = gop.frame_buffer_size;
      width = gop.horizontal_resolution;
      height = gop.vertical_resolution;
      pixel_per_scan_line = gop.pixels_per_scan_line;
    }),
    s',
  )

  -- The glyphs, and the structure that points to both
  unfoldable pub read_glyphs : S → (file font_header : ℕ) → Option (Option ℕ × S)
  read_glyphs s file font_header =
      let size : ℕ = glyph_buffer_size (memory s) font_header in
      or_null (set_position s file psf1_header_size) λ position s1.
        or_null (allocate_pool s1 size) λ glyph_buffer s2.
          or_null (read s2 file size glyph_buffer) λ count s3.
            or_null (allocate_pool s3 psf1_font_size) λ font s4.
              let m = write64 (memory s4) font font_header in
              some (some font, store s4 (write64 m (font + 8) glyph_buffer))

  -- `LoadPSF1Font`
  unfoldable pub load_psf1_font : S → Option (Option ℕ × S)
  load_psf1_font s = load_file firmware s zap_light16_psf >>= λ opened. or_null opened λ file s1.
      or_null (allocate_pool s1 psf1_header_size) λ font_header s2.
        or_null (read s2 file psf1_header_size font_header) λ count s3.
          let m = memory s3 in
          if not (m font_header == psf1_magic0) || not (m (font_header + 1) == psf1_magic1)
          then some (none, s3)
          else read_glyphs s3 file font_header
