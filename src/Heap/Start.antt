-- ===== src/Heap/Start.antt =====
-- MEM_InitializeHeap (rizzos/src/memory/heap.c) as a whole.
use rizzos.Base.{
  ℕ, ◌+◌, ◌-◌, ◌*◌, ◌%◌, ◌^◌, ◌≤◌, ◌<◌, ◌≡◌, refl, ◌⊎◌, true, [], ◌∷◌, some, update, arith,
}
use rizzos.Heap.{Heap, hdr_size, map_pages, initialize_heap}
use rizzos.Heap.Backing.{IsPaged, IsBacked, map_pages-Backs}
use rizzos.Heap.Expand.{created}
use rizzos.Heap.Grow.{IsHeap, new_segment}
use rizzos.Heap.Held.{Held-more, Held-none}
use rizzos.Heap.Segments.{first_addr, last_addr, Linked, Ascending, Tiled}
use rizzos.PageFrame.{Pfa}
use rizzos.Paging.Mapper.{ptm_create}
use rizzos.Paging.Tree.{room}
use rizzos.Paging.Walk.{walk}

-- The heap of MEM_InitializeHeap
abbrev initialized : Heap → (a n : ℕ) → Pfa → Heap
initialized h a n s' = record h {
  frames = s';
  heap_start = a;
  heap_end = a + n * 4096;
  seg = update h.seg a (record { lenght = n * 4096 - hdr_size; next = 0; last = 0; free = true });
  last_hdr = a;
}

initialize_steps :
    (h : Heap) (a n : ℕ) (s' : Pfa)
    → a + n * 4096 ≤ 2 ^ 48
    → 0 < n
    → map_pages (ptm_create h.manager.pml4) h.frames a n ≡ some (a + n * 4096, s')
    → initialize_heap h a n ≡ some (initialized h a n s')
unfolding initialize_heap
initialize_steps h a n s' small many maps =
    let whole : n * 4096 % 2 ^ 64 ≡ n * 4096 = omega arith in
    let end : (a + n * 4096) % 2 ^ 64 ≡ a + n * 4096 = omega arith in
    let left : (n * 4096 + 2 ^ 64 - hdr_size) % 2 ^ 64 ≡ n * 4096 - hdr_size = omega arith in
    rw (whole, end, left, (rw (created h.manager) at maps)) refl

initialized-IsHeap :
    (h : Heap) (a n : ℕ)
    → a % 4096 ≡ 0
    → 0 < a
    → 0 < n
    → a + n * 4096 ≤ 2 ^ 48
    → (s' : Pfa) → IsBacked h.manager.pml4 h.frames a n s'
    → IsHeap (initialized h a n s') (new_segment a (n * 4096) ∷ [])
unfolding Linked Ascending Tiled first_addr last_addr
initialized-IsHeap h a n aligned pos many small s' b = record {
  represents = record {
    linked = (ground arith, tt);
    ascending = (pos, tt);
    start = refl;
    last = refl;
  };
  fills = (refl, omega arith);
  positive = pos;
  some_room = omega arith;
  whole = omega arith;
  low = small;
  paged = b.paged;
  held =
      Held-more h.manager.pml4 h.frames s' a a n aligned small (Held-none h.manager.pml4 h.frames a)
        b;
}

-- What it leaves
pub record Initialized (h : Heap) (a n : ℕ) (h' : Heap) : Type 0 where
  pub heap : IsHeap h' (new_segment a (n * 4096) ∷ [])
  pub manager : h'.manager ≡ h.manager
  pub others :
      (w : ℕ)
      → w < 2 ^ 48
      → (w < a) ⊎ (a + n * 4096 ≤ w)
      → walk 4 h'.frames.mem h.manager.pml4 w ≡ walk 4 h.frames.mem h.manager.pml4 w
  pub left : room h.frames ≤ room h'.frames + 4 * n

-- With the page tables and the allocator working together, a page-aligned address above page 0,
-- one page at least, a range below 2^48, and four pages left for each of its pages,
-- MEM_InitializeHeap comes to its end: the heap holds one free segment that fills the range but
-- for a header, every page of it has a physical page of its own, the other addresses below 2^48 are
-- translated as before, and no more than the four pages were taken.
pub initialize_heap-Initialized :
    (h : Heap) (heap_address page_count : ℕ)
    → IsPaged h.manager.pml4 h.frames
    → heap_address % 4096 ≡ 0
    → 0 < heap_address
    → 0 < page_count
    → heap_address + page_count * 4096 ≤ 2 ^ 48
    → 4 * page_count ≤ room h.frames
    → (h' : Heap) × (initialize_heap h heap_address page_count ≡ some h')
      × Initialized h heap_address page_count h'
initialize_heap-Initialized h a n paged aligned pos many small enough =
    let (s', eq, b) = map_pages-Backs h.manager.pml4 h.frames a n paged aligned small enough in
    (
      _,
      initialize_steps h a n s' small many eq,
      record {
        heap = initialized-IsHeap h a n aligned pos many small s' b;
        manager = refl;
        others = b.others;
        left = b.left;
      },
    )
