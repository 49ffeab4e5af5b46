-- ===== src/Heap/Malloc.antt =====
-- MEM_Malloc (rizzos/src/memory/heap.c): the search, and the expansions when nothing fits.
use rizzos.Base.{
  ℕ, zero, suc, ◌+◌, ◌*◌, ◌%◌, ◌^◌, ◌≤◌, ◌<◌, ◌≡◌, refl, ◌∙◌, ap, inl, inr, false, ◌==◌, List, [],
  ◌∷◌, length, none, some, arith, Bool-cases,
}
use rizzos.Heap.{Heap, hdr_size, round_up, malloc_loop, malloc, expand_heap}
use rizzos.Heap.Expand.{pages_for, Expanded, expand_heap-Expanded}
use rizzos.Heap.Free.{join_last, join_next}
use rizzos.Heap.Grow.{IsHeap, new_segment}
use rizzos.Heap.Outcome.{units, after_expansions, expand_times, Allocated, needed_none, needed_more}
use rizzos.Heap.Represents.{Represents}
use rizzos.Heap.Search.{first_fit, take_segment, taken, malloc_loop-first_fit}
use rizzos.Heap.Segments.{Segment, first_addr, Tiled}
use rizzos.Heap.Take.{after_take, take-Represents}
use rizzos.Heap.Tiles.{Found, first_fit-Found, last_room, last_room-Found, Tiled-member}
use rizzos.Paging.Tree.{room}

round_up-units : (size : ℕ) → size + 16 < 2 ^ 64 → round_up 0x10 size ≡ units size
round_up-units size small = ground arith

length-join_last :
    (xs : List Segment) (c : Segment) → length (join_last xs (c ∷ [])) ≤ length xs + 1
unfolding join_last join_next
length-join_last [] c = omega arith
length-join_last (p ∷ []) c = elim (Bool-cases p.free) [
  | inl on ↦ rw on (omega arith)
  | inr off ↦ rw off (omega arith)
]
length-join_last (p ∷ q ∷ ys) c = omega (arith, length-join_last (q ∷ ys) c)

search :
    (h : Heap) (xs : List Segment) (size fuel : ℕ)
    → IsHeap h xs
    → length xs ≤ fuel
    → malloc_loop fuel h h.heap_start size ≡ some (taken h size (first_fit size xs))
unfolding Tiled first_addr
search h [] size fuel heap enough = absurd (omega (arith, heap.fills, heap.some_room))
search h (x ∷ xs) size fuel heap enough =
    ap (λ a. malloc_loop fuel h a size) heap.represents.start
    ∙ malloc_loop-first_fit h size 0 0 fuel x xs heap.represents.linked heap.represents.ascending
        enough

module _ (h : Heap) (xs : List Segment) (size fuel : ℕ) (heap : IsHeap h xs) (pos : 0 < size)
    (small : size + 16 < 2 ^ 64) (enough : length xs ≤ fuel) where
  some_units : (units size == 0) ≡ false
  some_units = ground arith

  malloc_found :
      (a : Segment)
      → first_fit (units size) xs ≡ some a
      → malloc (suc fuel) h size ≡ some (take_segment h (units size) a)
  unfolding malloc
  malloc_found a found =
      rw (round_up-units size small, some_units, search h xs (units size) fuel heap enough, found)
        refl

  malloc_again :
      (h' : Heap)
      → first_fit (units size) xs ≡ none
      → expand_heap h (units size) ≡ some h'
      → malloc (suc fuel) h size ≡ malloc fuel h' (units size)
  unfolding malloc
  malloc_again h' nothing expanded =
      let rounded = round_up-units size small in
      let here : expand_heap h (round_up 0x10 size) ≡ some h' = rw rounded expanded in
      let some_size : (round_up 0x10 size == 0) ≡ false = rw rounded some_units in
      let nothing_there : malloc_loop fuel h h.heap_start (round_up 0x10 size) ≡ some none =
        rw rounded (search h xs (units size) fuel heap enough ∙ rw nothing refl) in
      rw (some_size, nothing_there, here) (ap (malloc fuel h') rounded)

take_fit :
    (h : Heap) (xs : List Segment) (size : ℕ)
    → IsHeap h xs
    → 0x10 ≤ size
    → (f : Found size xs)
    → Represents (take_segment h size f.segment).1 (after_take size f.before f.segment f.behind)
take_fit h xs size heap asked f =
    take-Represents h size f.before f.behind f.segment (rw f.parts at heap) asked f.enough

take-inside :
    (h : Heap) (xs : List Segment) (size : ℕ)
    → IsHeap h xs
    → (f : Found size xs)
    → (h.heap_start + hdr_size ≤ (take_segment h size f.segment).0)
      × ((take_segment h size f.segment).0 + size ≤ h.heap_end)
unfolding take_segment
take-inside h xs size heap f =
    let member =
      Tiled-member h.heap_start h.heap_end f.before f.behind f.segment (rw f.parts at heap.fills) in
    let fits : (f.segment.addr + hdr_size) % 2 ^ 64 ≡ f.segment.addr + hdr_size =
      omega (arith, member.1, heap.low) in
    (omega (arith, fits, member.0), omega (arith, fits, member.1, f.enough))

module _ (h : Heap) (xs : List Segment) (size : ℕ) (heap : IsHeap h xs) (pos : 0 < size)
    (low : h.heap_end + 2 * pages_for (units size) * 4096 ≤ 2 ^ 48)
    (enough : 8 * pages_for (units size) ≤ room h.frames) where
  abbrev R : ℕ
  R = units size

  abbrev P : ℕ
  P = pages_for (units size)

  small : size + 16 < 2 ^ 64
  small = omega arith

  same_units : units R ≡ R
  same_units = omega arith

  -- A segment is found after no expansion, after one or after two.
  after_none :
      (fuel : ℕ) → length xs ≤ fuel → Found R xs → Allocated h xs R (malloc (suc fuel) h size)
  unfolding after_expansions expand_times
  after_none fuel long f = record {
    expansions = 0;
    few = omega arith;
    needed = needed_none xs R h.heap_end;
    grown = h;
    expanded = refl;
    heap = heap;
    fit = f;
    returns = malloc_found h xs size fuel heap pos small long f.segment f.found;
    represents = take_fit h xs R heap (omega arith) f;
    inside = take-inside h xs R heap f;
    end = omega arith;
    left = omega arith;
  }

  module _ (nothing : first_fit R xs ≡ none) (h1 : Heap) (expanded : expand_heap h R ≡ some h1)
      (e1 : Expanded h xs P h1) where
    abbrev xs1 : List Segment
    xs1 = join_last xs (new_segment h.heap_end (P * 4096) ∷ [])

    longer : length xs1 ≤ length xs + 1
    longer = length-join_last xs (new_segment h.heap_end (P * 4096))

    step1 : (fuel : ℕ) → length xs ≤ fuel → malloc (suc fuel) h size ≡ malloc fuel h1 R
    step1 fuel long = malloc_again h xs size fuel heap pos small long h1 nothing expanded

    after_one :
        (fuel : ℕ)
        → length xs + 1 ≤ fuel
        → Found R xs1
        → Allocated h xs R (malloc (suc (suc fuel)) h size)
    unfolding after_expansions expand_times
    after_one fuel long f = record {
      expansions = 1;
      few = omega arith;
      needed = needed_more 0 xs R h.heap_end nothing (needed_none xs1 R (h.heap_end + P * 4096));
      grown = h1;
      expanded = rw expanded refl;
      heap = e1.heap;
      fit = f;
      returns =
          step1 (suc fuel) (omega arith)
          ∙ malloc_found h1 xs1 R fuel e1.heap (omega arith) (omega arith) (omega (arith, longer))
              f.segment (rw same_units f.found)
          ∙ ap (λ r. some (take_segment h1 r f.segment)) same_units;
      represents = take_fit h1 xs1 R e1.heap (omega arith) f;
      inside = rw (← e1.start) (take-inside h1 xs1 R e1.heap f);
      end = omega (arith, e1.end);
      left = omega (arith, e1.left);
    }

    module _ (nothing1 : first_fit R xs1 ≡ none) (h2 : Heap)
        (expanded1 : expand_heap h1 R ≡ some h2) (e2 : Expanded h1 xs1 P h2) where
      abbrev xs2 : List Segment
      xs2 = join_last xs1 (new_segment (h.heap_end + P * 4096) (P * 4096) ∷ [])

      heap2 : IsHeap h2 xs2
      heap2 = rw e1.end at e2.heap

      -- The two new segments are one.
      both : R ≤ last_room xs2
      both = let last2 = rw e1.end at e2.last in omega (arith, e1.last, last2, pos)

      again : (fuel : ℕ) → length xs1 ≤ fuel → malloc (suc fuel) h1 R ≡ malloc fuel h2 R
      again fuel long =
          malloc_again h1 xs1 R fuel e1.heap (omega arith) (omega arith) long h2
            (rw same_units nothing1) (rw same_units expanded1)
          ∙ ap (malloc fuel h2) same_units

      after_two :
          (fuel : ℕ)
          → length xs + 2 ≤ fuel
          → Allocated h xs R (malloc (suc (suc (suc fuel))) h size)
      unfolding after_expansions expand_times
      after_two fuel long =
          let f = last_room-Found R xs2 (omega arith) both in
          let longer2 = length-join_last xs1 (new_segment (h.heap_end + P * 4096) (P * 4096)) in
          record {
            expansions = 2;
            few = omega arith;
            needed = needed_more 1 xs R h.heap_end nothing (
                needed_more 0 xs1 R (h.heap_end + P * 4096) nothing1
                  (needed_none xs2 R (h.heap_end + P * 4096 + P * 4096)));
            grown = h2;
            expanded = rw (expanded, expanded1) refl;
            heap = heap2;
            fit = f;
            returns =
                step1 (suc (suc fuel)) (omega arith)
                ∙ again (suc fuel) (omega (arith, longer))
                ∙ malloc_found h2 xs2 R fuel heap2 (omega arith) (omega arith)
                    (omega (arith, longer, longer2)) f.segment (rw same_units f.found)
                ∙ ap (λ r. some (take_segment h2 r f.segment)) same_units;
            represents = take_fit h2 xs2 R heap2 (omega arith) f;
            inside = rw (← e1.start, ← e2.start) (take-inside h2 xs2 R heap2 f);
            end = omega (arith, e1.end, e2.end);
            left = omega (arith, e1.left, e2.left);
          }

  -- If the heap holds a list of segments that fills its addresses with pages of its own behind
  -- them, the size is not 0, the heap may grow twice by the whole pages of the size without
  -- reaching 2^48, four pages are left for each of those, and the fuel is five more than there are
  -- segments, then MEM_Malloc returns, after two calls of MEM_ExpandHeap at most, each made
  -- because no free segment was long enough. Each of them adds to the list one free segment of
  -- whole pages, joined with the last one if that is free, and leaves the other segments as they
  -- are. MEM_Malloc returns the memory of the first free segment that is long enough in that list,
  -- which lies within the heap, and the heap afterwards holds that list with this segment taken,
  -- split if it has room for another header and 16 bytes.
  pub malloc-Allocated :
      (fuel : ℕ) → length xs + 5 ≤ fuel → Allocated h xs (units size) (malloc fuel h size)
  malloc-Allocated zero long = absurd (omega arith)
  malloc-Allocated (suc zero) long = absurd (omega arith)
  malloc-Allocated (suc (suc zero)) long = absurd (omega arith)
  malloc-Allocated (suc (suc (suc fuel))) long = elim (first_fit-Found R xs) [
    | inr f ↦ after_none (suc (suc fuel)) (omega arith) f
    | inl nothing ↦
        let (h1, expanded, e1) =
          expand_heap-Expanded h xs R heap (omega arith) (omega arith) (omega arith) in
        elim (first_fit-Found R (xs1 nothing h1 expanded e1)) [
          | inr f ↦ after_one nothing h1 expanded e1 (suc fuel) (omega arith) f
          | inl nothing1 ↦
              let (h2, expanded1, e2) =
                expand_heap-Expanded h1 _ R e1.heap (omega arith) (omega (arith, e1.end))
                  (omega (arith, e1.left)) in
              after_two nothing h1 expanded e1 nothing1 h2 expanded1 e2 fuel (omega arith)
        ]
  ]
