-- ===== src/PageFrame/Init/Marks.antt =====
-- Which pages are locked once `PFA_InitEfiMemoryMap`
-- (rizzos/src/paging/page_frame_allocator.c) has returned.
use rizzos.Base.{
  ℕ, ◌+◌, ◌*◌, ◌/◌, ◌^◌, ◌≤◌, ◌<◌, ◌≡◌, refl, ap, ◌∙◌, Bool, true, false, ◌&&◌, ◌||◌, not, List, [],
  ◌∷◌, some, leb, ltb, ◌==◌, if◌then◌else◌, Bool-cases, inl, inr, arith,
}
use rizzos.Memory.{byte_of_zero}
use rizzos.Memory.Fill.{filled, filled-inside, set-filled, rounded}
use rizzos.Base.Bits.{test_bit_zero}
use rizzos.Bitmap.{Bitmap}
use rizzos.Bitmap.Laws.{accepts, get-test_bit}
use rizzos.PageFrame.{
  Pfa, frame_size, locked, page_bound, reserve_pages, unreserve_pages, lock_pages,
}
use rizzos.PageFrame.Init.{
  EfiMemoryDescriptor, get_total_size, largest_free, init_bitmap, unreserve_free, mark_pages,
  init_efi_memory_map,
}
use rizzos.PageFrame.Lowest.{IsLowest, ranges-IsLowest}
use rizzos.PageFrame.Ranges.{
  locked-lock_pages, locked-reserve_pages, locked-unreserve_pages, page_bitmap-for_pages,
  lock_page-Writes, reserve_page-Writes, unreserve_page-Writes,
}

-- Page `j` is in a range of conventional memory.
pub covered : List EfiMemoryDescriptor → ℕ → Bool
covered [] j = false
covered (d ∷ mmap) j =
    ((d.type == 7)
      && (leb (d.phys_addr / frame_size) j && ltb j (d.phys_addr / frame_size + d.num_pages)))
    || covered mmap j

-- No range of the map wraps round the address space.
abbrev pub Fits : List EfiMemoryDescriptor → Type 0
Fits [] = Unit {0}
Fits (d ∷ mmap) = (d.phys_addr + d.num_pages * frame_size ≤ 2 ^ 64) × Fits mmap

page_bitmap-unreserve_pages :
    (s : Pfa) (a n : ℕ) → (unreserve_pages s a n).page_bitmap ≡ s.page_bitmap
unfolding unreserve_pages
page_bitmap-unreserve_pages s a n = page_bitmap-for_pages unreserve_page-Writes s a 0 n

page_bitmap-reserve_pages : (s : Pfa) (a n : ℕ) → (reserve_pages s a n).page_bitmap ≡ s.page_bitmap
unfolding reserve_pages
page_bitmap-reserve_pages s a n = page_bitmap-for_pages reserve_page-Writes s a 0 n

page_bitmap-lock_pages : (s : Pfa) (a n : ℕ) → (lock_pages s a n).page_bitmap ≡ s.page_bitmap
unfolding lock_pages
page_bitmap-lock_pages s a n = page_bitmap-for_pages lock_page-Writes s a 0 n

page_bitmap-unreserve_free :
    (mmap : List EfiMemoryDescriptor) (s : Pfa)
    → (unreserve_free mmap s).page_bitmap ≡ s.page_bitmap
unfolding unreserve_free
page_bitmap-unreserve_free [] s = refl
page_bitmap-unreserve_free (d ∷ mmap) s = elim (Bool-cases (d.type == 7)) [
  | inl yes7 ↦
      rw (yes7, unreserve_free)
        (page_bitmap-unreserve_free mmap (unreserve_pages s d.phys_addr d.num_pages)
          ∙ page_bitmap-unreserve_pages s d.phys_addr d.num_pages)
  | inr no7 ↦ rw (no7, unreserve_free) (page_bitmap-unreserve_free mmap s)
]

locked-unreserve_free :
    (mmap : List EfiMemoryDescriptor) (s : Pfa) (j : ℕ)
    → Fits mmap
    → locked (unreserve_free mmap s) j
      ≡ (if accepts s.page_bitmap j && covered mmap j then false else locked s j)
unfolding unreserve_free covered
locked-unreserve_free [] s j fits = ground arith
locked-unreserve_free (d ∷ mmap) s j fits = elim (Bool-cases (d.type == 7)) [
  | inl yes7 ↦ rw yes7 (
      ground (
        arith,
        locked-unreserve_free mmap (unreserve_pages s d.phys_addr d.num_pages) j fits.1,
        page_bitmap-unreserve_pages s d.phys_addr d.num_pages,
        locked-unreserve_pages s d.phys_addr d.num_pages j fits.0,
      ))
  | inr no7 ↦ rw no7 (ground (arith, locked-unreserve_free mmap s j fits.1))
]

unreserve_free-IsLowest :
    (mmap : List EfiMemoryDescriptor) (s : Pfa) → IsLowest s → IsLowest (unreserve_free mmap s)
unfolding unreserve_free
unreserve_free-IsLowest [] s low = low
unreserve_free-IsLowest (d ∷ mmap) s low = elim (Bool-cases (d.type == 7)) [
  | inl yes7 ↦
      rw (yes7, unreserve_free)
        (unreserve_free-IsLowest mmap _ (ranges-IsLowest s d.phys_addr d.num_pages low).3)
  | inr no7 ↦ rw (no7, unreserve_free) (unreserve_free-IsLowest mmap s low)
]

-- The pages that the last call of the initialisation locks, for a bitmap of `size` bytes.
abbrev pub in_variable : (bv size j : ℕ) → Bool
in_variable bv size j = leb (bv / frame_size) j && ltb j (bv / frame_size + (size / frame_size + 1))

module _ (bv : ℕ) (mmap : List EfiMemoryDescriptor) (total : ℕ) (s : Pfa) where
  page_bitmap-mark_pages : (mark_pages bv mmap total s).page_bitmap ≡ s.page_bitmap
  unfolding mark_pages
  page_bitmap-mark_pages =
      page_bitmap-lock_pages _ _ _
      ∙ page_bitmap-reserve_pages _ _ _
      ∙ page_bitmap-unreserve_free mmap _
      ∙ page_bitmap-reserve_pages s _ _

  mark_pages-IsLowest : IsLowest s → IsLowest (mark_pages bv mmap total s)
  unfolding mark_pages
  mark_pages-IsLowest low =
      (ranges-IsLowest _ bv _
        (ranges-IsLowest _ 0 0x100 (
          unreserve_free-IsLowest mmap _ (ranges-IsLowest s 0 (total / frame_size + 1) low).2)).2).0

  locked-mark_pages :
      (j : ℕ)
      → Fits mmap
      → total + frame_size ≤ 2 ^ 64
      → bv + (s.page_bitmap.size / frame_size + 1) * frame_size ≤ 2 ^ 64
      → accepts s.page_bitmap j ≡ true
      → locked (mark_pages bv mmap total s) j ≡ (
          in_variable bv s.page_bitmap.size j
          || (ltb j 0x100 || (not (covered mmap j) && (leb j (total / frame_size) || locked s j))))
  unfolding mark_pages
  locked-mark_pages j fits small small' ok =
      let s1 = reserve_pages s 0 (total / frame_size + 1) in
      let s2 = unreserve_free mmap s1 in
      let s3 = reserve_pages s2 0 0x100 in
      let e1 : s1.page_bitmap ≡ s.page_bitmap = page_bitmap-reserve_pages s _ _ in
      let e2 : s2.page_bitmap ≡ s.page_bitmap = page_bitmap-unreserve_free mmap s1 ∙ e1 in
      let e3 : s3.page_bitmap ≡ s.page_bitmap = page_bitmap-reserve_pages s2 _ _ ∙ e2 in
      ground (
        arith,
        locked-lock_pages s3 bv (s3.page_bitmap.size / frame_size + 1) j (rw e3 small'),
        locked-reserve_pages s2 0 0x100 j (omega arith),
        locked-unreserve_free mmap s1 j fits,
        locked-reserve_pages s 0 (total / frame_size + 1) j (omega arith),
        e1,
        e2,
        e3,
      )

-- What `InitBitmap` makes of the state.
cleared : Pfa → (size buffer : ℕ) → Pfa
cleared s size buffer = record s {
  page_bitmap = record { size = size; buffer = buffer };
  mem = filled 8 s.mem buffer 0 (rounded 8 size);
}

init_bitmap-cleared :
    (s : Pfa) (size buffer : ℕ)
    → buffer + size + 8 ≤ 2 ^ 64
    → init_bitmap s size buffer ≡ some (cleared s size buffer)
unfolding init_bitmap cleared
init_bitmap-cleared s size buffer small = rw ((set-filled s.mem buffer 0 size small).0, init_bitmap)

locked-cleared :
    (s : Pfa) (size buffer j : ℕ) → j < size * 8 → locked (cleared s size buffer) j ≡ false
unfolding cleared
locked-cleared s size buffer j h = rw (
  get-test_bit (cleared s size buffer).mem (cleared s size buffer).page_bitmap j,
  filled-inside 8 s.mem buffer 0 (rounded 8 size) (buffer + j / 8) (omega arith) (omega arith),
  byte_of_zero,
  test_bit_zero,
)

-- From a start with the search position at 0, a memory map whose ranges do not wrap and whose
-- total leaves room, the initialisation ends; every page below the search position is locked;
-- and a page of the bitmap is locked exactly if it is one of the first 256, or in the range from
-- the page of the variable `g_pageBitmap.buffer` on, or not in conventional memory and at most
-- the total size's page number.
pub init_efi_memory_map-marks :
    (bv cached : ℕ) (mmap : List EfiMemoryDescriptor) (s : Pfa)
    → s.initialized ≡ false
    → s.last_reserved_page ≡ 0
    → Fits mmap
    → get_total_size cached mmap + frame_size ≤ 2 ^ 64
    → bv + (get_total_size cached mmap / 32768 + frame_size + 1) ≤ 2 ^ 64
    → (largest_free mmap 0 0).0 + get_total_size cached mmap / 32768 + 9 ≤ 2 ^ 64
    → (t : Pfa) × (init_efi_memory_map bv cached mmap s ≡ some t)
      × IsLowest t
      × (t.page_bitmap.buffer ≡ (largest_free mmap 0 0).0)
      × (t.page_bitmap.size ≡ get_total_size cached mmap / 32768 + 1)
      × ((j : ℕ)
          → j < page_bound t
          → locked t j ≡ (
              in_variable bv t.page_bitmap.size j
              || (ltb j 0x100
                  || (not (covered mmap j) && leb j (get_total_size cached mmap / frame_size)))))
unfolding init_efi_memory_map cleared
init_efi_memory_map-marks bv cached mmap s fresh start fits small small' room =
    (mark_pages bv mmap total t, ran, low, buffer, size, bits)
  where
    total : ℕ
    total = get_total_size cached mmap

    begun : Pfa
    begun = record s { initialized = true; free_memory = total }

    t : Pfa
    t = cleared begun (total / 32768 + 1) (largest_free mmap 0 0).0

    ran : init_efi_memory_map bv cached mmap s ≡ some (mark_pages bv mmap total t)
    ran = ground (
      arith,
      init_bitmap-cleared begun (total / 32768 + 1) (largest_free mmap 0 0).0 (omega arith),
    )

    low : IsLowest (mark_pages bv mmap total t)
    low = mark_pages-IsLowest bv mmap total t (λ j h. absurd (omega arith))

    buffer : (mark_pages bv mmap total t).page_bitmap.buffer ≡ (largest_free mmap 0 0).0
    buffer = ap (λ (b : Bitmap). b.buffer) (page_bitmap-mark_pages bv mmap total t)

    size : (mark_pages bv mmap total t).page_bitmap.size ≡ total / 32768 + 1
    size = ap (λ (b : Bitmap). b.size) (page_bitmap-mark_pages bv mmap total t)

    bits :
        (j : ℕ)
        → j < page_bound (mark_pages bv mmap total t)
        → locked (mark_pages bv mmap total t) j ≡ (
            in_variable bv (mark_pages bv mmap total t).page_bitmap.size j
            || (ltb j 0x100 || (not (covered mmap j) && leb j (total / frame_size))))
    bits j h = ground (
      arith,
      locked-mark_pages bv mmap total t j fits small (omega arith) (ground (arith, size)),
      locked-cleared begun (total / 32768 + 1) (largest_free mmap 0 0).0 j (omega (arith, size)),
      size,
    )
