-- ===== src/PageFrame/Lowest.antt =====
-- The search position of rizzos/src/paging/page_frame_allocator.c: `g_lastReservedPage`.
use rizzos.Base.{ℕ, zero, suc, ◌+◌, ◌*◌, ◌/◌, ◌%◌, ◌^◌, ◌≤◌, ◌<◌, ◌≡◌, true, false, arith}
use rizzos.Bitmap.Laws.{set-accepts}
use rizzos.PageFrame.{
  Pfa, frame_size, locked, lock_page, free_page, reserve_page, unreserve_page, for_pages,
  lock_pages, free_pages, reserve_pages, unreserve_pages,
}
use rizzos.PageFrame.Bits.{
  hits, locked-lock_page, locked-free_page, locked-reserve_page, locked-unreserve_page,
}

-- Every page below the search position is locked, so the search may start there.
abbrev pub IsLowest : Pfa → Type 0
IsLowest s = (j : ℕ) → j < s.last_reserved_page → locked s j ≡ true

module _ (s : Pfa) (a : ℕ) where
  pub last-lock_page : (lock_page s a).last_reserved_page ≡ s.last_reserved_page
  unfolding lock_page
  last-lock_page = ground arith

  pub last-reserve_page : (reserve_page s a).last_reserved_page ≡ s.last_reserved_page
  unfolding reserve_page
  last-reserve_page = ground arith

  last-free_page :
      (j : ℕ)
      → locked s j ≡ true
      → j < (free_page s a).last_reserved_page
      → (j < s.last_reserved_page) × (hits s a j ≡ false)
  unfolding free_page
  last-free_page j = ground (arith, set-accepts s.mem s.page_bitmap (a / frame_size) false)

  last-free_page-le : (free_page s a).last_reserved_page ≤ s.last_reserved_page
  unfolding free_page
  last-free_page-le = ground arith

  last-unreserve_page :
      (j : ℕ)
      → locked s j ≡ true
      → j < (unreserve_page s a).last_reserved_page
      → (j < s.last_reserved_page) × (hits s a j ≡ false)
  unfolding unreserve_page
  last-unreserve_page j = ground (arith, set-accepts s.mem s.page_bitmap (a / frame_size) false)

  last-unreserve_page-le : (unreserve_page s a).last_reserved_page ≤ s.last_reserved_page
  unfolding unreserve_page
  last-unreserve_page-le = ground arith

  pub lock_page-IsLowest : IsLowest s → IsLowest (lock_page s a)
  lock_page-IsLowest low j h = ground (arith, locked-lock_page s a j, last-lock_page, low j)

  pub reserve_page-IsLowest : IsLowest s → IsLowest (reserve_page s a)
  reserve_page-IsLowest low j h =
      ground (arith, locked-reserve_page s a j, last-reserve_page, low j)

  pub free_page-IsLowest : IsLowest s → IsLowest (free_page s a)
  free_page-IsLowest low j h =
      let was : locked s j ≡ true = low j (omega (arith, last-free_page-le)) in
      ground (arith, locked-free_page s a j, last-free_page j was h)

  pub unreserve_page-IsLowest : IsLowest s → IsLowest (unreserve_page s a)
  unreserve_page-IsLowest low j h =
      let was : locked s j ≡ true = low j (omega (arith, last-unreserve_page-le)) in
      ground (arith, locked-unreserve_page s a j, last-unreserve_page j was h)

for_pages-IsLowest :
    (op : Pfa → ℕ → Pfa)
    → ((s : Pfa) (a : ℕ) → IsLowest s → IsLowest (op s a))
    → (s : Pfa) (a i n : ℕ) → IsLowest s
    → IsLowest (for_pages op s a i n)
unfolding for_pages
for_pages-IsLowest op keep s a i zero low = low
for_pages-IsLowest op keep s a i (suc n) low =
    for_pages-IsLowest op keep (op s ((a + i * frame_size) % 2 ^ 64)) a (i + 1) n (keep s _ low)

-- Locking, freeing, reserving and unreserving any range keeps every page below the search
-- position locked.
pub ranges-IsLowest :
    (s : Pfa) (a n : ℕ)
    → IsLowest s
    → IsLowest (lock_pages s a n)
      × IsLowest (free_pages s a n)
      × IsLowest (reserve_pages s a n)
      × IsLowest (unreserve_pages s a n)
unfolding lock_pages free_pages reserve_pages unreserve_pages
ranges-IsLowest s a n low = (
  for_pages-IsLowest lock_page lock_page-IsLowest s a 0 n low,
  for_pages-IsLowest free_page free_page-IsLowest s a 0 n low,
  for_pages-IsLowest reserve_page reserve_page-IsLowest s a 0 n low,
  for_pages-IsLowest unreserve_page unreserve_page-IsLowest s a 0 n low,
)
