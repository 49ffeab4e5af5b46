-- ===== src/PageFrame/Ranges.antt =====
-- The four range operations of rizzos/src/paging/page_frame_allocator.c, bit by bit.
use rizzos.Base.{
  ℕ, zero, suc, ◌+◌, ◌*◌, ◌/◌, ◌%◌, ◌^◌, ◌≤◌, ◌≡◌, refl, Bool, true, false, ◌&&◌, leb, ltb,
  if◌then◌else◌, arith, ◌∙◌,
}
use rizzos.Bitmap.Laws.{accepts}
use rizzos.PageFrame.{
  Pfa, frame_size, locked, lock_page, free_page, reserve_page, unreserve_page, for_pages,
  lock_pages, free_pages, reserve_pages, unreserve_pages,
}
use rizzos.PageFrame.Bits.{
  hits, locked-lock_page, locked-free_page, locked-reserve_page, locked-unreserve_page,
  page_bitmap-lock_page, page_bitmap-free_page, page_bitmap-reserve_page,
  page_bitmap-unreserve_page,
}

-- An operation on one page that writes `v` to the page's bit and to no other.
pub record Writes (op : Pfa → ℕ → Pfa) (v : Bool) : Type 0 where
  pub same_bitmap : (s : Pfa) (a : ℕ) → (op s a).page_bitmap ≡ s.page_bitmap
  pub bit : (s : Pfa) (a j : ℕ) → locked (op s a) j ≡ (if hits s a j then v else locked s j)

-- The pages from that of `address` on, `count` of them, as far as the bitmap takes them.
abbrev pub in_range : Pfa → ℕ → ℕ → ℕ → Bool
in_range s address count j =
    accepts s.page_bitmap j
    && (leb (address / frame_size) j && ltb j (address / frame_size + count))

module _ {op : Pfa → ℕ → Pfa} {v : Bool} (w : Writes op v) where
  pub page_bitmap-for_pages :
      (s : Pfa) (a i n : ℕ) → (for_pages op s a i n).page_bitmap ≡ s.page_bitmap
  unfolding for_pages
  page_bitmap-for_pages s a i zero = refl
  page_bitmap-for_pages s a i (suc n) =
      page_bitmap-for_pages (op s ((a + i * frame_size) % 2 ^ 64)) a (i + 1) n
      ∙ w.same_bitmap s ((a + i * frame_size) % 2 ^ 64)

  locked-for_pages :
      (s : Pfa) (a i n j : ℕ)
      → a + (i + n) * frame_size ≤ 2 ^ 64
      → locked (for_pages op s a i n) j ≡ (
          if accepts s.page_bitmap j
            && (leb (a / frame_size + i) j && ltb j (a / frame_size + i + n))
          then v
          else locked s j)
  unfolding for_pages
  locked-for_pages s a i zero j h = ground arith
  locked-for_pages s a i (suc n) j h =
      let here : ℕ = (a + i * frame_size) % 2 ^ 64 in
      let page : here / frame_size ≡ a / frame_size + i = omega arith in
      ground (
        arith,
        locked-for_pages (op s here) a (i + 1) n j (omega arith),
        w.same_bitmap s here,
        w.bit s here j,
        page,
      )

  pub locked-range :
      (s : Pfa) (a n j : ℕ)
      → a + n * frame_size ≤ 2 ^ 64
      → locked (for_pages op s a 0 n) j ≡ (if in_range s a n j then v else locked s j)
  locked-range s a n j h = ground (arith, locked-for_pages s a 0 n j (omega arith))

pub lock_page-Writes : Writes lock_page true
lock_page-Writes = record { same_bitmap = page_bitmap-lock_page; bit = locked-lock_page }

pub reserve_page-Writes : Writes reserve_page true
reserve_page-Writes = record { same_bitmap = page_bitmap-reserve_page; bit = locked-reserve_page }

pub free_page-Writes : Writes free_page false
free_page-Writes = record { same_bitmap = page_bitmap-free_page; bit = locked-free_page }

pub unreserve_page-Writes : Writes unreserve_page false
unreserve_page-Writes = record {
  same_bitmap = page_bitmap-unreserve_page;
  bit = locked-unreserve_page;
}

module _ (s : Pfa) (a n j : ℕ) (h : a + n * frame_size ≤ 2 ^ 64) where
  -- A range that does not wrap round the address space: afterwards the pages of the range that
  -- the bitmap takes are locked, and every other page is as before.
  pub locked-lock_pages :
      locked (lock_pages s a n) j ≡ (if in_range s a n j then true else locked s j)
  unfolding lock_pages
  locked-lock_pages = locked-range lock_page-Writes s a n j h

  pub locked-reserve_pages :
      locked (reserve_pages s a n) j ≡ (if in_range s a n j then true else locked s j)
  unfolding reserve_pages
  locked-reserve_pages = locked-range reserve_page-Writes s a n j h

  -- The same of `PFA_FreePages`, which unlocks.
  pub locked-free_pages :
      locked (free_pages s a n) j ≡ (if in_range s a n j then false else locked s j)
  unfolding free_pages
  locked-free_pages = locked-range free_page-Writes s a n j h

  pub locked-unreserve_pages :
      locked (unreserve_pages s a n) j ≡ (if in_range s a n j then false else locked s j)
  unfolding unreserve_pages
  locked-unreserve_pages = locked-range unreserve_page-Writes s a n j h

  -- Freeing a range that was locked from a state where it was free gives back every bit.
  pub free_pages-lock_pages :
      (in_range s a n j ≡ true → locked s j ≡ false)
      → locked (free_pages (lock_pages s a n) a n) j ≡ locked s j
  unfolding lock_pages free_pages
  free_pages-lock_pages was_free = ground (
    arith,
    locked-range free_page-Writes (lock_pages s a n) a n j h,
    locked-range lock_page-Writes s a n j h,
    page_bitmap-for_pages lock_page-Writes s a 0 n,
  )
