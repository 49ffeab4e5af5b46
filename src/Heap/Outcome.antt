-- ===== src/Heap/Outcome.antt =====
-- What MEM_Malloc (rizzos/src/memory/heap.c) leaves behind: the heap after its expansions, with the
-- segment that it returns taken.
use rizzos.Base.{
  ◌>>=◌, ℕ, zero, suc, ◌+◌, ◌*◌, ◌/◌, ◌≤◌, ◌<◌, ◌≡◌, List, [], ◌∷◌, Option, none, some, arith,
}
use rizzos.Heap.{Heap, hdr_size, expand_heap}
use rizzos.Heap.Expand.{pages_for}
use rizzos.Heap.Free.{join_last}
use rizzos.Heap.Grow.{IsHeap, new_segment}
use rizzos.Heap.Represents.{Represents}
use rizzos.Heap.Search.{first_fit, take_segment}
use rizzos.Heap.Segments.{Segment}
use rizzos.Heap.Take.{after_take}
use rizzos.Heap.Tiles.{Found}
use rizzos.Paging.Tree.{room}

-- A size in whole units of 16
abbrev pub units : ℕ → ℕ
units size = (size + 15) / 16 * 16

-- The segments of a heap that ends at `end` after `n` expansions by `size`: each adds a free
-- segment of whole pages at the end, joined with the one before it if that one is free.
unfoldable pub after_expansions : (n size end : ℕ) → List Segment → List Segment
after_expansions zero size end xs = xs
after_expansions (suc n) size end xs =
    after_expansions n size (end + pages_for size * 4096)
      (join_last xs (new_segment end (pages_for size * 4096) ∷ []))

-- MEM_ExpandHeap, `n` times
unfoldable pub expand_times : (n : ℕ) → Heap → (size : ℕ) → Option Heap
expand_times zero h size = some h
expand_times (suc n) h size = expand_heap h size >>= λ h'. expand_times n h' size

-- The allocation from a heap that holds `xs`: the heap has been expanded as often as nothing in it
-- was long enough, and the memory is that of the first segment that then is, taken after a split
-- if it is too long.
pub record Allocated (h : Heap) (xs : List Segment) (size : ℕ) (result : Option (ℕ × Heap))
    : Type 0 where
  pub expansions : ℕ
  pub few : expansions ≤ 2
  pub needed :
      (k : ℕ) → k < expansions → first_fit size (after_expansions k size h.heap_end xs) ≡ none
  pub grown : Heap
  pub expanded : expand_times expansions h size ≡ some grown
  pub heap : IsHeap grown (after_expansions expansions size h.heap_end xs)
  pub fit : Found size (after_expansions expansions size h.heap_end xs)
  pub returns : result ≡ some (take_segment grown size fit.segment)
  pub represents :
      Represents
        (take_segment grown size fit.segment).1
        (after_take size fit.before fit.segment fit.behind)
  pub inside :
      (h.heap_start + hdr_size ≤ (take_segment grown size fit.segment).0)
      × ((take_segment grown size fit.segment).0 + size ≤ grown.heap_end)
  pub end : grown.heap_end ≡ h.heap_end + expansions * (pages_for size * 4096)
  pub left : room h.frames ≤ room grown.frames + expansions * (4 * pages_for size)

-- An expansion was needed where nothing was long enough.
pub needed_none :
    (xs : List Segment) (size end : ℕ) (k : ℕ)
    → k < 0
    → first_fit size (after_expansions k size end xs) ≡ none
needed_none xs size end k lt = absurd (omega arith)

pub needed_more :
    (n : ℕ) (xs : List Segment) (size end : ℕ)
    → first_fit size xs ≡ none
    → ((k : ℕ)
        → k < n
        → first_fit size (
            after_expansions k size
              (end + pages_for size * 4096)
              (join_last xs (new_segment end (pages_for size * 4096) ∷ [])))
          ≡ none)
    → (k : ℕ) → k < suc n
    → first_fit size (after_expansions k size end xs) ≡ none
unfolding after_expansions
needed_more n xs size end nothing later zero lt = nothing
needed_more n xs size end nothing later (suc k) lt = later k (omega arith)
