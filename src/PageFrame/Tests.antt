-- ===== src/PageFrame/Tests.antt =====
-- Runs and instances for rizzos/src/paging/page_frame_allocator.c.
use rizzos.Base.{
  ℕ, zero, suc, ◌+◌, ◌-◌, ◌/◌, ◌<◌, ◌≡◌, refl, ◌⊎◌, true, false, not, ◌&&◌, ◌||◌, List, [], ◌∷◌,
  some, leb, ltb, ◌==◌, if◌then◌else◌, arith,
}
use rizzos.Base.Bits.{complement}
use rizzos.Bitmap
use rizzos.Bitmap.{Bitmap}
use rizzos.PageFrame.{
  Pfa, locked, page_bound, lock_page, free_page, lock_pages, free_pages, reserve_pages,
  unreserve_pages, request_loop, request_page, frame_size,
}
use rizzos.PageFrame.Accounting.{IsCounted, ledger, clear_pages, count_clear, operations-IsCounted}
use rizzos.PageFrame.Init.{
  EfiMemoryDescriptor, init_efi_memory_map, get_total_size, largest_free, sum_sizes,
}
use rizzos.PageFrame.Init.Marks.{covered, in_variable, init_efi_memory_map-marks}
use rizzos.PageFrame.Lowest.{IsLowest, ranges-IsLowest}
use rizzos.PageFrame.Ranges.{free_pages-lock_pages}
use rizzos.PageFrame.Request.{Granted, Exhausted, request_page-lowest}

-- Sixteen pages of which the first five are locked, and the search position at page 2.
abbrev some_locked : Pfa
some_locked = record {
  free_memory = 0xb000;
  reserved_memory = 0;
  used_memory = 0x5000;
  initialized = true;
  page_bitmap = record { size = 2; buffer = 0x3000 };
  last_reserved_page = 2;
  mem = λ x. if x == 0x3000 then 0x1f else 0;
}

two_requests :
    ((request_page some_locked).0 ≡ 0x5000)
    × ((request_page (request_page some_locked).1).0 ≡ 0x6000)
    × ((request_page (free_page (request_page some_locked).1 0x2000)).0 ≡ 0x2000)
unfolding request_page request_loop lock_page free_page Bitmap.get Bitmap.set complement
two_requests = (refl, refl, refl)

some_locked-IsLowest : IsLowest some_locked
unfolding Bitmap.get
some_locked-IsLowest zero h = refl
some_locked-IsLowest (suc zero) h = refl
some_locked-IsLowest (suc (suc j)) h = absurd (omega arith)

request_page-lowest_example :
    ((i : ℕ) × Granted some_locked 0 (request_page some_locked) i)
    ⊎ Exhausted some_locked 0 (request_page some_locked)
request_page-lowest_example = request_page-lowest some_locked (omega arith) some_locked-IsLowest

ranges-IsLowest_example :
    IsLowest (lock_pages some_locked 0x7000 3)
    × IsLowest (free_pages some_locked 0x7000 3)
    × IsLowest (reserve_pages some_locked 0x7000 3)
    × IsLowest (unreserve_pages some_locked 0x7000 3)
ranges-IsLowest_example = ranges-IsLowest some_locked 0x7000 3 some_locked-IsLowest

-- Seventeen indices can be written, so twelve of them are clear; eleven frames are counted free.
some_locked-IsCounted : IsCounted 0x1_0000 (0x1_0000_0000_0000_0000 - 0x1000) some_locked
unfolding ledger clear_pages count_clear Bitmap.get
some_locked-IsCounted = record { balanced = refl; counted = refl }

operations-IsCounted_example :
    let c : ℕ = 0x1_0000_0000_0000_0000 - 0x1000 in
    IsCounted 0x1_0000 c (lock_pages some_locked 0x4000 3)
    × IsCounted 0x1_0000 c (free_pages some_locked 0x4000 3)
    × IsCounted 0x1_0000 c (reserve_pages some_locked 0x4000 3)
    × IsCounted 0x1_0000 c (unreserve_pages some_locked 0x4000 3)
    × IsCounted 0x1_0000 c (request_page some_locked).1
operations-IsCounted_example =
    operations-IsCounted 0x1_0000 (0x1_0000_0000_0000_0000 - 0x1000) some_locked
      some_locked-IsCounted 0x4000 3

free_pages-lock_pages_example :
    locked (free_pages (lock_pages some_locked 0x8000 3) 0x8000 3) 9 ≡ locked some_locked 9
unfolding Bitmap.get
free_pages-lock_pages_example =
    free_pages-lock_pages some_locked 0x8000 3 9 (omega arith) (λ h. refl)

-- A machine with a megabyte of memory in use, and two ranges of conventional memory above it.
abbrev descriptor : ℕ → ℕ → ℕ → EfiMemoryDescriptor
descriptor type phys_addr num_pages = record {
  type = type;
  pad = 0;
  phys_addr = phys_addr;
  virt_addr = 0;
  num_pages = num_pages;
  attribs = 0;
}

abbrev small_map : List EfiMemoryDescriptor
small_map =
    descriptor 2 0 0x100
    ∷ descriptor 7 0x10_0000 0x20
    ∷ descriptor 7 0x12_0000 0x40
    ∷ descriptor 4 0x16_0000 0x10
    ∷ []

abbrev before_boot : Pfa
before_boot = record {
  free_memory = 0;
  reserved_memory = 0;
  used_memory = 0;
  initialized = false;
  page_bitmap = record { size = 0; buffer = 0 };
  last_reserved_page = 0;
  mem = λ x. 0xff;
}

init_efi_memory_map-marks_example :
    (t : Pfa) × (init_efi_memory_map 0x20_8000 0 small_map before_boot ≡ some t)
    × IsLowest t
    × (t.page_bitmap.buffer ≡ (largest_free small_map 0 0).0)
    × (t.page_bitmap.size ≡ get_total_size 0 small_map / 32768 + 1)
    × ((j : ℕ)
        → j < page_bound t
        → locked t j ≡ (
            in_variable 0x20_8000 t.page_bitmap.size j
            || (ltb j 0x100
                || (not (covered small_map j) && leb j (get_total_size 0 small_map / frame_size)))))
unfolding get_total_size sum_sizes largest_free
init_efi_memory_map-marks_example =
    init_efi_memory_map-marks 0x20_8000 0 small_map before_boot refl refl (omega arith)
      (omega arith) (omega arith) (omega arith)
