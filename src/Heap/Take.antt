-- ===== src/Heap/Take.antt =====
-- The segment that MEM_Malloc (rizzos/src/memory/heap.c) takes: the list afterwards.
use rizzos.Base.{
  ℕ, ◌+◌, ◌-◌, ◌*◌, ◌%◌, ◌^◌, ◌≤◌, ◌<◌, ◌≡◌, refl, ap, inl, inr, true, false, ◌||◌, ltb, leb, List,
  ◌∷◌, ◌++◌, if◌then◌else◌, arith, Bool-cases,
}
use rizzos.Heap.{HeapSegHdr, Heap, hdr_size, split}
use rizzos.Heap.Grow.{IsHeap}
use rizzos.Heap.Represents.{Represents, mark-Represents, marked}
use rizzos.Heap.Room.{split-Represents}
use rizzos.Heap.Search.{take_segment}
use rizzos.Heap.Segments.{Segment, Linked, Linked-drop}
use rizzos.Heap.Split.{Splits, front, behind}
use rizzos.Heap.Tiles.{Tiled-member}

-- The list after the segment is taken, split where it has room for another header and 16 bytes.
unfoldable pub after_take : ℕ → (ys : List Segment) → Segment → (zs : List Segment) → List Segment
after_take size ys a zs =
    if leb (size + hdr_size + 0x10) a.lenght
    then ys ++ marked false (front a size) ∷ behind a size ∷ zs
    else ys ++ marked false a ∷ zs

-- A segment that is not long enough is not split.
split_short :
    (h : Heap) (a size : ℕ)
    → size ≤ (h.seg a).lenght
    → (h.seg a).lenght < 2 ^ 63
    → (h.seg a).lenght < size + hdr_size + 0x10
    → (split h a size).1 ≡ h
unfolding split
split_short h a size asked signed short =
    let little : (ltb (((h.seg a).lenght + 2 * 2 ^ 64 - size - hdr_size) % 2 ^ 64) 0x10
          || leb (2 ^ 63) (((h.seg a).lenght + 2 * 2 ^ 64 - size - hdr_size) % 2 ^ 64))
        ≡ true =
      ground arith in
    elim (Bool-cases (ltb size 0x10)) [ inl tiny ↦ rw tiny refl | inr big ↦ rw (big, little) refl ]

module _ (h : Heap) (size : ℕ) (ys zs : List Segment) (a : Segment) (heap : IsHeap h (ys ++ a ∷ zs))
    (asked : 0x10 ≤ size) (fits : size ≤ a.lenght) where
  own_lenght : (h.seg a.addr).lenght ≡ a.lenght
  unfolding Linked
  own_lenght =
      ap (λ (x : HeapSegHdr). x.lenght) (Linked-drop h.seg 0 ys (a ∷ zs) heap.represents.linked).0

  not_split :
      a.lenght < size + hdr_size + 0x10
      → (if ltb size a.lenght then (split h a.addr size).1 else h) ≡ h
  not_split short = elim (Bool-cases (ltb size a.lenght)) [
    | inr off ↦ rw off refl
    | inl on ↦
        let member = Tiled-member h.heap_start h.heap_end ys zs a heap.fills in
        rw on (
          split_short h a.addr size (omega (arith, own_lenght))
            (omega (arith, own_lenght, member.1, heap.low)) (omega (arith, own_lenght)))
  ]

  pub take-Represents : Represents (take_segment h size a).1 (after_take size ys a zs)
  unfolding take_segment after_take
  take-Represents =
      let member = Tiled-member h.heap_start h.heap_end ys zs a heap.fills in
      elim (Bool-cases (leb (size + hdr_size + 0x10) a.lenght)) [
        | inl long ↦
            let ok : Splits a size = record {
              asked = asked;
              left = ground (arith, long);
              signed = omega (arith, member.1, heap.low);
              reach = omega (arith, member.1, heap.low);
            } in
            let longer : ltb size a.lenght ≡ true = ground (arith, long) in
            rw long (
              simp longer (
                mark-Represents false (split h a.addr size).1 ys (behind a size ∷ zs) (front a size)
                  (split-Represents h h.heap_start h.heap_end size ys zs a heap.represents
                    heap.fills ok)))
        | inr short ↦
            let same = not_split (ground (arith, short)) in
            rw short (simp same (mark-Represents false h ys zs a heap.represents))
      ]
