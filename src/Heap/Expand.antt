-- ===== src/Heap/Expand.antt =====
-- MEM_ExpandHeap (rizzos/src/memory/heap.c) as a whole.
use rizzos.Base.{
  ℕ, ◌+◌, ◌-◌, ◌*◌, ◌/◌, ◌^◌, ◌≤◌, ◌<◌, ◌≡◌, refl, ◌⊎◌, inl, inr, not, ◌&&◌, ◌||◌, ◌==◌, List, [],
  ◌∷◌, ◌++◌, some, arith, Bool-cases,
}
use rizzos.Heap.{
  Heap, hdr_size, round_up, map_pages, append_segment, combine_backward, combine_forward,
  expand_heap,
}
use rizzos.Heap.Backing.{IsBacked, map_pages-Backs}
use rizzos.Heap.Free.{join_last, combine_backward-Represents}
use rizzos.Heap.Grow.{IsHeap, new_segment, appended-Represents, appended-Tiled}
use rizzos.Heap.Held.{Held-more}
use rizzos.Heap.Represents.{Represents}
use rizzos.Heap.Segments.{Segment, Tiled}
use rizzos.Heap.Tiles.{Tiled-join_last, last_room, last_room-join_last}
use rizzos.PageFrame.{Pfa}
use rizzos.Paging.Mapper.{PageTableManager, ptm_create}
use rizzos.Paging.Tree.{room}

-- The same heap but for its headers and its last segment.
pub record SameRange (h h' : Heap) : Type 0 where
  pub start : h'.heap_start ≡ h.heap_start
  pub end : h'.heap_end ≡ h.heap_end
  pub manager : h'.manager ≡ h.manager
  pub frames : h'.frames ≡ h.frames

combine_forward-SameRange : (h : Heap) (a : ℕ) → SameRange h (combine_forward h a)
unfolding combine_forward
combine_forward-SameRange h a = elim (Bool-cases ((h.seg a).next == 0 || not (h.seg a).free)) [
  | inl on ↦ rw on (record { start = refl; end = refl; manager = refl; frames = refl })
  | inr off ↦ rw off (record { start = refl; end = refl; manager = refl; frames = refl })
]

pub combine_backward-SameRange : (h : Heap) (a : ℕ) → SameRange h (combine_backward h a)
unfolding combine_backward
combine_backward-SameRange h a =
    elim (Bool-cases (not ((h.seg a).last == 0) && (h.seg (h.seg a).last).free)) [
      | inl on ↦ rw on (combine_forward-SameRange h (h.seg a).last)
      | inr off ↦ rw off (record { start = refl; end = refl; manager = refl; frames = refl })
    ]

pub SameRange-IsHeap :
    (h h' : Heap) (xs xs' : List Segment)
    → SameRange h h'
    → Represents h' xs'
    → Tiled h.heap_start h.heap_end xs'
    → IsHeap h xs
    → IsHeap h' xs'
SameRange-IsHeap h h' xs xs' same represents fills heap = record {
  represents = represents;
  fills = rw (same.start, same.end) fills;
  positive = rw same.start heap.positive;
  some_room = rw (same.start, same.end) heap.some_room;
  whole = rw same.end heap.whole;
  low = rw same.end heap.low;
  paged = rw (same.manager, same.frames) heap.paged;
  held = rw (same.manager, same.frames, same.start, same.end) heap.held;
}

pub created : (m : PageTableManager) → ptm_create m.pml4 ≡ m
unfolding ptm_create
created m = refl

-- The whole pages of a size
abbrev pub pages_for : ℕ → ℕ
pages_for size = (size + 4095) / 4096

round_up-pages : (size : ℕ) → size + 4096 < 2 ^ 64 → round_up 4096 size ≡ pages_for size * 4096
round_up-pages size small = ground arith

module _ (h : Heap) (xs : List Segment) (heap : IsHeap h xs) (n : ℕ) (pos : 0 < n)
    (small : h.heap_end + n * 4096 ≤ 2 ^ 48) (s' : Pfa)
    (b : IsBacked h.manager.pml4 h.frames h.heap_end n s') where
  abbrev appended : Heap
  appended = append_segment h h.heap_end (n * 4096) (h.heap_end + n * 4096) s'

  abbrev new : Segment
  new = new_segment h.heap_end (n * 4096)

  appended-IsHeap : IsHeap appended (xs ++ new ∷ [])
  unfolding append_segment
  appended-IsHeap = record {
    represents = appended-Represents h xs heap (n * 4096) s' (omega arith) (omega arith);
    fills = appended-Tiled h xs heap (n * 4096) s' (omega arith) (omega arith);
    positive = heap.positive;
    some_room = omega (arith, heap.some_room);
    whole = omega (arith, heap.whole);
    low = small;
    paged = b.paged;
    held =
        Held-more h.manager.pml4 h.frames s' h.heap_start h.heap_end n heap.whole small heap.held b;
  }

  expanded-IsHeap : IsHeap (combine_backward appended h.heap_end) (join_last xs (new ∷ []))
  unfolding append_segment
  expanded-IsHeap =
      SameRange-IsHeap appended (combine_backward appended h.heap_end) (xs ++ new ∷ [])
        (join_last xs (new ∷ [])) (combine_backward-SameRange appended h.heap_end)
        (combine_backward-Represents appended xs [] new appended-IsHeap.represents)
        (Tiled-join_last h.heap_start (h.heap_end + n * 4096) xs [] new (omega arith)
          appended-IsHeap.fills)
        appended-IsHeap

-- The outcome of an expansion by `n` pages
pub record Expanded (h : Heap) (xs : List Segment) (n : ℕ) (h' : Heap) : Type 0 where
  pub heap : IsHeap h' (join_last xs (new_segment h.heap_end (n * 4096) ∷ []))
  pub end : h'.heap_end ≡ h.heap_end + n * 4096
  pub start : h'.heap_start ≡ h.heap_start
  pub left : room h.frames ≤ room h'.frames + 4 * n
  pub last :
      (n * 4096 - hdr_size ≤ last_room (join_last xs (new_segment h.heap_end (n * 4096) ∷ [])))
      × ((last_room xs ≡ 0)
          ⊎ (last_room xs + n * 4096
              ≤ last_room (join_last xs (new_segment h.heap_end (n * 4096) ∷ []))))

module _ (h : Heap) (xs : List Segment) (heap : IsHeap h xs) (n : ℕ) (pos : 0 < n)
    (small : h.heap_end + n * 4096 ≤ 2 ^ 48) (s' : Pfa)
    (b : IsBacked h.manager.pml4 h.frames h.heap_end n s') where
  expanded : Expanded h xs n (
      combine_backward
        (append_segment h h.heap_end (n * 4096) (h.heap_end + n * 4096) s')
        h.heap_end)
  unfolding append_segment
  expanded =
      let same =
        combine_backward-SameRange
          (append_segment h h.heap_end (n * 4096) (h.heap_end + n * 4096) s') h.heap_end in
      record {
        heap = expanded-IsHeap h xs heap n pos small s' b;
        end = same.end;
        start = same.start;
        left = rw same.frames b.left;
        last =
            let tiled = appended-Tiled h xs heap (n * 4096) s' (omega arith) (omega arith) in
            let joined =
              last_room-join_last h.heap_start (h.heap_end + n * 4096) xs
                (new_segment h.heap_end (n * 4096)) (omega arith) tiled refl (omega arith) in
            (joined.0, omega (arith, joined.1));
      }

expand_steps :
    (h : Heap) (size n : ℕ) (s' : Pfa)
    → round_up 4096 size ≡ n * 4096
    → map_pages (ptm_create h.manager.pml4) h.frames h.heap_end n ≡ some (h.heap_end + n * 4096, s')
    → expand_heap h size
      ≡ some (
          combine_backward
            (append_segment h h.heap_end (n * 4096) (h.heap_end + n * 4096) s')
            h.heap_end)
unfolding expand_heap
expand_steps h size n s' rounded maps =
    let count : n * 4096 / 4096 ≡ n = omega arith in
    rw (rounded, count, (rw (created h.manager) at maps)) refl

-- With four pages left for every page to come, MEM_ExpandHeap adds the whole pages of the size.
pub expand_heap-Expanded :
    (h : Heap) (xs : List Segment) (size : ℕ)
    → IsHeap h xs
    → 0 < size
    → h.heap_end + pages_for size * 4096 ≤ 2 ^ 48
    → 4 * pages_for size ≤ room h.frames
    → (h' : Heap) × (expand_heap h size ≡ some h') × Expanded h xs (pages_for size) h'
expand_heap-Expanded h xs size heap pos small enough =
    let n : ℕ = pages_for size in
    let (s', eq, b) =
      map_pages-Backs h.manager.pml4 h.frames h.heap_end n heap.paged heap.whole small enough in
    (
      _,
      expand_steps h size n s' (round_up-pages size (omega arith)) eq,
      expanded h xs heap n (omega arith) small s' b,
    )
