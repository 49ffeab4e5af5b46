-- ===== src/Heap/Reuse.antt =====
-- MEM_Malloc and then MEM_Free of what it returned (rizzos/src/memory/heap.c).
use rizzos.Base.{
  ℕ, ◌+◌, ◌*◌, ◌^◌, ◌≤◌, ◌<◌, ◌≡◌, inl, inr, true, false, leb, List, ◌∷◌, ◌++◌, length,
  if◌then◌else◌, arith, Bool-cases,
}
use rizzos.Heap.{Heap, hdr_size, malloc, mem_free}
use rizzos.Heap.Expand.{pages_for}
use rizzos.Heap.Free.{join_last, join_next, mem_free-Represents}
use rizzos.Heap.Grow.{IsHeap}
use rizzos.Heap.Malloc.{malloc-Allocated}
use rizzos.Heap.Outcome.{units, Allocated}
use rizzos.Heap.Represents.{Represents, marked}
use rizzos.Heap.Search.{take_segment}
use rizzos.Heap.Segments.{Segment}
use rizzos.Heap.Split.{front, behind}
use rizzos.Heap.Take.{after_take}
use rizzos.Heap.Tiles.{Tiled-member}
use rizzos.Paging.Tree.{room}

-- The list after the segment `a` was taken and given back: what was split off is joined again,
-- and so are the free neighbours.
unfoldable pub after_return : ℕ → (ys : List Segment) → Segment → (zs : List Segment) → List Segment
after_return size ys a zs =
    if leb (size + hdr_size + 0x10) a.lenght
    then join_last ys (join_next (marked true (front a size)) (behind a size ∷ zs))
    else join_last ys (join_next (marked true a) zs)

module _ (h : Heap) (size : ℕ) (ys zs : List Segment) (a : Segment)
    (small : a.addr + hdr_size < 2 ^ 64)
    (r : Represents (take_segment h size a).1 (after_take size ys a zs)) where
  -- The pointer returned is that of the segment's memory.
  address : (take_segment h size a).0 ≡ a.addr + hdr_size
  unfolding take_segment
  address = omega arith

  pub mem_free-take :
      Represents
        (mem_free (take_segment h size a).1 (take_segment h size a).0)
        (after_return size ys a zs)
  unfolding after_take after_return
  mem_free-take = elim (Bool-cases (leb (size + hdr_size + 0x10) a.lenght)) [
    | inl long ↦
        let split_list : Represents (take_segment h size a).1
            (ys ++ marked false (front a size) ∷ behind a size ∷ zs) =
          simp long at r in
        rw address (
          simp long (
            mem_free-Represents (take_segment h size a).1 ys (behind a size ∷ zs)
              (marked false (front a size)) split_list small))
    | inr short ↦
        let whole_list : Represents (take_segment h size a).1 (ys ++ marked false a ∷ zs) =
          simp short at r in
        rw address (
          simp short
            (mem_free-Represents (take_segment h size a).1 ys zs (marked false a) whole_list small))
  ]

-- If the heap holds a list of segments that fills its addresses with pages of its own behind them,
-- the size is not 0, the heap may grow twice by the whole pages of the size without reaching 2^48,
-- four pages are left for each of those, and the fuel is five more than there are segments, then
-- MEM_Malloc returns, and MEM_Free of what it returned leaves a heap that holds the list from
-- before both, with a free segment of whole pages added at its end for each call of
-- MEM_ExpandHeap, two at most and none if a segment was long enough, and with the first segment
-- long enough joined with what was split off it, if that was done, and with a free segment before
-- it, and with the one behind it if nothing was split off.
pub mem_free-malloc :
    (h : Heap) (xs : List Segment) (size : ℕ)
    → IsHeap h xs
    → 0 < size
    → h.heap_end + 2 * pages_for (units size) * 4096 ≤ 2 ^ 48
    → 8 * pages_for (units size) ≤ room h.frames
    → (fuel : ℕ) → length xs + 5 ≤ fuel
    → (a : Allocated h xs (units size) (malloc fuel h size)) × (let (p, h1) =
          take_segment a.grown (units size) a.fit.segment in
        Represents
          (mem_free h1 p)
          (after_return (units size) a.fit.before a.fit.segment a.fit.behind))
mem_free-malloc h xs size heap pos low enough fuel long =
    let a = malloc-Allocated h xs size heap pos low enough fuel long in
    let member =
      Tiled-member a.grown.heap_start a.grown.heap_end a.fit.before a.fit.behind a.fit.segment
        (rw a.fit.parts at a.heap.fills) in
    (
      a,
      mem_free-take a.grown (units size) a.fit.before a.fit.behind a.fit.segment
          (omega (arith, member.1, a.heap.low)) a.represents,
    )
