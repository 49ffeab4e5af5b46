-- ===== src/Heap/Search.antt =====
-- The search of `MEM_Malloc` in rizzos/src/memory/heap.c is first fit.
use rizzos.Base.{
  ℕ, zero, suc, ◌+◌, ◌%◌, ◌^◌, ◌≤◌, ◌≡◌, ap, Bool, false, ◌&&◌, ltb, leb, List, [], ◌∷◌,
  if◌then◌else◌, arith, length, Option, none, some,
}
use rizzos.Heap.{HeapSegHdr, Heap, hdr_size, set_free, split, malloc_loop}
use rizzos.Heap.Segments.{Segment, first_addr, Linked, Ascending}

-- A free segment of the size or more, and the first of them.
abbrev pub fits : ℕ → Segment → Bool
fits size x = x.free && leb size x.lenght

unfoldable pub first_fit : ℕ → List Segment → Option Segment
first_fit size [] = none
first_fit size (x ∷ xs) = if fits size x then some x else first_fit size xs

-- The memory of a segment, and the heap when it is taken, after a split if it is too long.
unfoldable pub take_segment : Heap → ℕ → Segment → ℕ × Heap
take_segment h size x =
    let cut = (split h x.addr size).1 in
    let whole : Heap = if ltb size x.lenght then cut else h in
    ((x.addr + hdr_size) % 2 ^ 64, record whole { seg = set_free whole.seg x.addr false })

abbrev pub taken : Heap → ℕ → Option Segment → Option (ℕ × Heap)
taken h size none = none
taken h size (some x) = some (take_segment h size x)

-- With more fuel than there are segments, the search of MEM_Malloc from the first segment of a
-- list in ascending order ends: it takes the first free segment of the size or more, after a
-- split if that one is longer, or finds that there is none.
pub malloc_loop-first_fit :
    (h : Heap) (size last bound fuel : ℕ) (x : Segment) (xs : List Segment)
    → Linked h.seg last (x ∷ xs)
    → Ascending bound (x ∷ xs)
    → length (x ∷ xs) ≤ fuel
    → malloc_loop fuel h x.addr size ≡ some (taken h size (first_fit size (x ∷ xs)))
unfolding malloc_loop first_fit take_segment Linked Ascending first_addr
malloc_loop-first_fit h size last bound zero x xs linked up enough = absurd (omega arith)
malloc_loop-first_fit h size last bound (suc fuel) x [] linked up enough =
    let state : (h.seg x.addr).free ≡ x.free = ap (λ (s : HeapSegHdr). s.free) linked.0 in
    let long : (h.seg x.addr).lenght ≡ x.lenght = ap (λ (s : HeapSegHdr). s.lenght) linked.0 in
    let next : (h.seg x.addr).next ≡ 0 = ap (λ (s : HeapSegHdr). s.next) linked.0 in
    ground (arith, state, long, next)
malloc_loop-first_fit h size last bound (suc fuel) x (y ∷ ys) linked up enough =
    let state : (h.seg x.addr).free ≡ x.free = ap (λ (s : HeapSegHdr). s.free) linked.0 in
    let long : (h.seg x.addr).lenght ≡ x.lenght = ap (λ (s : HeapSegHdr). s.lenght) linked.0 in
    let next : (h.seg x.addr).next ≡ y.addr = ap (λ (s : HeapSegHdr). s.next) linked.0 in
    let rest = malloc_loop-first_fit h size x.addr x.addr fuel y ys linked.1 up.1 (omega arith) in
    rw next (ground (arith, state, long, rest, up.1.0))
