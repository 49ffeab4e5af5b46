-- ===== src/Heap/Tests.antt =====
-- Runs and instances for rizzos/src/memory/heap.c.
use rizzos.Base.{
  ℕ, ◌+◌, ◌*◌, ◌≡◌, refl, ◌↔◌, true, false, [], ◌∷◌, ◌==◌, if◌then◌else◌, arith, some,
}
use rizzos.Heap.{
  Heap, HeapSegHdr, hdr_size, initialize_heap, malloc, mem_free, split, malloc_loop,
  combine_forward, combine_backward,
}
use rizzos.Heap.Backing.{IsPaged}
use rizzos.Heap.Free.{join_last, join_next, mem_free-Represents}
use rizzos.Heap.Grow.{new_segment}
use rizzos.Heap.Malloc.{malloc-Allocated}
use rizzos.Heap.Outcome.{units, Allocated}
use rizzos.Heap.Represents.{Represents, marked}
use rizzos.Heap.Reuse.{after_return, mem_free-malloc}
use rizzos.Heap.Room.{split-room}
use rizzos.Heap.Search.{malloc_loop-first_fit, first_fit, taken, take_segment}
use rizzos.Heap.Segments.{Segment, first_addr, last_addr, Linked, Ascending, Tiled}
use rizzos.Heap.Start.{Initialized, initialize_heap-Initialized}
use rizzos.Heap.Split.{Splits, front, behind}
use rizzos.Paging.Mapper.Sample.{
  empty_root, root, only_root, empty_root-IsTree, empty_root-IsReady, enough_room,
}

-- Three segments from 0x1000 to 0x1200: free, taken, free.
abbrev first : Segment
first = record { addr = 0x1000; lenght = 0x60; free = true }

abbrev second : Segment
second = record { addr = 0x1080; lenght = 0x40; free = false }

abbrev third : Segment
third = record { addr = 0x10e0; lenght = 0x100; free = true }

abbrev headers : ℕ → HeapSegHdr
headers a =
    if a == 0x1000
    then record { lenght = 0x60; next = 0x1080; last = 0; free = true }
    else if a == 0x1080
    then record { lenght = 0x40; next = 0x10e0; last = 0x1000; free = false }
    else if a == 0x10e0
    then record { lenght = 0x100; next = 0; last = 0x1080; free = true }
    else record { lenght = 0; next = 0; last = 0; free = false }

abbrev three : Heap
three = record {
  heap_start = 0x1000;
  heap_end = 0x1200;
  last_hdr = 0x10e0;
  seg = headers;
  manager = record { pml4 = 0x2000 };
  frames = record {
    free_memory = 0;
    reserved_memory = 0;
    used_memory = 0;
    initialized = true;
    page_bitmap = record { size = 0; buffer = 0x3000 };
    last_reserved_page = 0;
    mem = λ x. 0;
  };
}

three-Represents : Represents three (first ∷ second ∷ third ∷ [])
unfolding Linked Ascending first_addr last_addr
three-Represents = record {
  linked = (refl, (refl, (refl, tt)));
  ascending = (omega arith, (omega arith, (omega arith, tt)));
  start = refl;
  last = refl;
}

three-Tiled : Tiled 0x1000 0x1200 (first ∷ second ∷ third ∷ [])
unfolding Tiled
three-Tiled = (refl, (refl, (refl, refl)))

mem_free-Represents_example :
    Represents
      (mem_free three (0x1080 + hdr_size))
      (join_last (first ∷ []) (join_next (marked true second) (third ∷ [])))
mem_free-Represents_example =
    mem_free-Represents three (first ∷ []) (third ∷ []) second three-Represents (omega arith)

malloc_loop-first_fit_example :
    malloc_loop 3 three 0x1000 0x80
    ≡ some (taken three 0x80 (first_fit 0x80 (first ∷ second ∷ third ∷ [])))
malloc_loop-first_fit_example =
    malloc_loop-first_fit three 0x80 0 0 3 first (second ∷ third ∷ []) three-Represents.linked
      three-Represents.ascending (omega arith)

third-Splits : Splits third 0x40
third-Splits = record {
  asked = omega arith;
  left = omega arith;
  signed = omega arith;
  reach = omega arith;
}

split-room_example :
    Represents
      (split three 0x10e0 0x40).1
      (first ∷ second ∷ front third 0x40 ∷ behind third 0x40 ∷ [])
    × (Tiled 0x1000 0x1200 (first ∷ second ∷ front third 0x40 ∷ behind third 0x40 ∷ [])
        ↔ (0x100 ≡ 2 * 0x40 + hdr_size))
split-room_example =
    split-room three 0x1000 0x1200 0x40 (first ∷ second ∷ []) [] third three-Represents three-Tiled
      third-Splits

-- The taken segment behind the one that is freed is lost in it.
lost_neighbour : ((mem_free three 0x10a0).seg 0x1000).lenght ≡ 0x1e0
unfolding mem_free combine_forward combine_backward
lost_neighbour = refl

-- A heap that is still to be set up
abbrev no_heap : Heap
no_heap = record {
  heap_start = 0;
  heap_end = 0;
  last_hdr = 0;
  seg = λ a. record { lenght = 0; next = 0; last = 0; free = false };
  manager = record { pml4 = root };
  frames = empty_root;
}

no_heap-IsPaged : IsPaged no_heap.manager.pml4 no_heap.frames
no_heap-IsPaged = record {
  shape = only_root;
  tree = empty_root-IsTree;
  ready = empty_root-IsReady;
  top = refl;
}

-- The heap of one page
one_page :
    (h' : Heap) × (initialize_heap no_heap 0x1000_0000_0000 1 ≡ some h')
    × Initialized no_heap 0x1000_0000_0000 1 h'
one_page =
    initialize_heap-Initialized no_heap 0x1000_0000_0000 1 no_heap-IsPaged (omega arith)
      (omega arith) (omega arith) (omega arith) (omega (arith, enough_room))

one_page-end : one_page.0.heap_end ≡ 0x1000_0000_1000
unfolding Tiled
one_page-end = omega (arith, one_page.2.heap.fills)

malloc-Allocated_example :
    Allocated one_page.0
      (new_segment 0x1000_0000_0000 0x1000 ∷ [])
      (units 5000)
      (malloc 6 one_page.0 5000)
malloc-Allocated_example =
    malloc-Allocated one_page.0 (new_segment 0x1000_0000_0000 0x1000 ∷ []) 5000 one_page.2.heap
      (omega arith) (omega (arith, one_page-end)) (omega (arith, enough_room, one_page.2.left)) 6
      (omega arith)

mem_free-malloc_example :
    (a : Allocated one_page.0
      (new_segment 0x1000_0000_0000 0x1000 ∷ [])
      (units 1000)
      (malloc 6 one_page.0 1000))
    × (let (p, h1) = take_segment a.grown (units 1000) a.fit.segment in
        Represents
          (mem_free h1 p)
          (after_return (units 1000) a.fit.before a.fit.segment a.fit.behind))
mem_free-malloc_example =
    mem_free-malloc one_page.0 (new_segment 0x1000_0000_0000 0x1000 ∷ []) 1000 one_page.2.heap
      (omega arith) (omega (arith, one_page-end)) (omega (arith, enough_room, one_page.2.left)) 6
      (omega arith)
