-- ===== src/PageFrame/Bits.antt =====
-- What the operations on one page do to the bits, and the invariant of the search position
-- (rizzos/src/paging/page_frame_allocator.c).
use rizzos.Base.{ℕ, ◌/◌, ◌≡◌, ◌<◌, ◌+◌, ◌⊎◌, Bool, true, false, ◌&&◌, ◌==◌, if◌then◌else◌, arith}
use rizzos.Bitmap.Laws.{accepts, get-set, set-accepts, set-bytes}
use rizzos.PageFrame.{Pfa, frame_size, locked, lock_page, free_page, reserve_page, unreserve_page}

-- The page of an address, if its bit lies where `Bitmap_Set` lets it be written.
abbrev pub hits : Pfa → ℕ → ℕ → Bool
hits s address j = accepts s.page_bitmap (address / frame_size) && (address / frame_size == j)

module _ (s : Pfa) (a j : ℕ) where
  pub locked-lock_page : locked (lock_page s a) j ≡ (if hits s a j then true else locked s j)
  unfolding lock_page
  locked-lock_page = ground (
    arith,
    get-set s.mem s.page_bitmap (a / frame_size) j true,
    set-accepts s.mem s.page_bitmap (a / frame_size) true,
  )

  pub locked-reserve_page : locked (reserve_page s a) j ≡ (if hits s a j then true else locked s j)
  unfolding reserve_page
  locked-reserve_page = ground (
    arith,
    get-set s.mem s.page_bitmap (a / frame_size) j true,
    set-accepts s.mem s.page_bitmap (a / frame_size) true,
  )

  pub locked-free_page : locked (free_page s a) j ≡ (if hits s a j then false else locked s j)
  unfolding free_page
  locked-free_page = ground (
    arith,
    get-set s.mem s.page_bitmap (a / frame_size) j false,
    set-accepts s.mem s.page_bitmap (a / frame_size) false,
  )

  pub locked-unreserve_page :
      locked (unreserve_page s a) j ≡ (if hits s a j then false else locked s j)
  unfolding unreserve_page
  locked-unreserve_page = ground (
    arith,
    get-set s.mem s.page_bitmap (a / frame_size) j false,
    set-accepts s.mem s.page_bitmap (a / frame_size) false,
  )

module _ (s : Pfa) (a : ℕ) where
  pub page_bitmap-lock_page : (lock_page s a).page_bitmap ≡ s.page_bitmap
  unfolding lock_page
  page_bitmap-lock_page = ground arith

  pub page_bitmap-reserve_page : (reserve_page s a).page_bitmap ≡ s.page_bitmap
  unfolding reserve_page
  page_bitmap-reserve_page = ground arith

  pub page_bitmap-free_page : (free_page s a).page_bitmap ≡ s.page_bitmap
  unfolding free_page
  page_bitmap-free_page = ground arith

  pub page_bitmap-unreserve_page : (unreserve_page s a).page_bitmap ≡ s.page_bitmap
  unfolding unreserve_page
  page_bitmap-unreserve_page = ground arith

-- `PFA_LockPage` writes in the bitmap's bytes and the byte behind them.
pub mem-lock_page :
    (s : Pfa) (a x : ℕ)
    → (x < s.page_bitmap.buffer) ⊎ (s.page_bitmap.buffer + s.page_bitmap.size < x)
    → (lock_page s a).mem x ≡ s.mem x
unfolding lock_page
mem-lock_page s a x out = ground (arith, set-bytes s.mem s.page_bitmap (a / frame_size) true x out)
