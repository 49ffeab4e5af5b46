-- ===== src/Heap/Grow.antt =====
-- MEM_InitializeHeap and MEM_ExpandHeap (rizzos/src/memory/heap.c): the segments and the pages
-- behind them.
use mathlib.Core.List.{append_assoc}
use rizzos.Base.{
  ℕ, ◌+◌, ◌-◌, ◌%◌, ◌^◌, ◌≤◌, ◌<◌, ◌≡◌, ◌≢◌, refl, sym, ◌∙◌, ap, inl, inr, true, List, [], ◌∷◌,
  ◌++◌, arith,
}
use rizzos.Heap.{HeapSegHdr, Heap, hdr_size, append_segment}
use rizzos.Heap.Backing.{IsPaged}
use rizzos.Heap.Free.{last_or_none}
use rizzos.Heap.Held.{Held}
use rizzos.Heap.Represents.{Represents, last_addr-append}
use rizzos.Heap.Segments.{
  Segment, header, first_addr, last_addr, Linked, Ascending, Tiled, Linked-replace, Linked-drop,
  first_addr-append,
}
use rizzos.Heap.Tiles.{last_addr-lt, Tiled-snoc, Ascending-snoc}
use rizzos.PageFrame.{Pfa}

-- The heap with the list of its segments, which fill its addresses, and pages of its own behind
-- every one of them.
pub record IsHeap (h : Heap) (xs : List Segment) : Type 0 where
  pub represents : Represents h xs
  pub fills : Tiled h.heap_start h.heap_end xs
  pub positive : 0 < h.heap_start
  pub some_room : h.heap_start < h.heap_end
  pub whole : h.heap_end % 4096 ≡ 0
  pub low : h.heap_end ≤ 2 ^ 48
  pub paged : IsPaged h.manager.pml4 h.frames
  pub held : Held h.manager.pml4 h.frames h.heap_start h.heap_end

-- The new segment behind the last one
abbrev pub new_segment : (end lenght : ℕ) → Segment
new_segment end lenght = record { addr = end; lenght = lenght - hdr_size; free = true }

module _ (h : Heap) (xs : List Segment) (heap : IsHeap h xs) (lenght : ℕ) (s' : Pfa)
    (long : hdr_size < lenght) (small : h.heap_end + lenght < 2 ^ 64) where
  abbrev appended : Heap
  appended = append_segment h h.heap_end lenght (h.heap_end + lenght) s'

  abbrev new : Segment
  new = new_segment h.heap_end lenght

  left_lenght : (lenght + 2 ^ 64 - hdr_size) % 2 ^ 64 ≡ lenght - hdr_size
  left_lenght = omega arith

  last_below : h.last_hdr < h.heap_end
  last_below = omega (
    arith,
    heap.represents.last,
    last_addr-lt 0 h.heap_start h.heap_end xs heap.positive heap.fills,
  )

  at_new : appended.seg h.heap_end ≡ header h.last_hdr 0 new
  unfolding append_segment
  at_new = ground (arith, left_lenght, last_below)

  at_last : appended.seg h.last_hdr ≡ record (h.seg h.last_hdr) { next = h.heap_end }
  unfolding append_segment
  at_last = ground (arith, last_below)

  elsewhere : (y : ℕ) → y ≢ h.heap_end → y ≢ h.last_hdr → appended.seg y ≡ h.seg y
  unfolding append_segment
  elsewhere y p q = ground arith

  appended-Linked : Linked appended.seg 0 (xs ++ new ∷ [])
  unfolding Linked Ascending Tiled first_addr last_addr
  appended-Linked = elim (last_or_none xs) [
    | inl empty ↦
        let meet : h.heap_start ≡ h.heap_end = rw empty at heap.fills in
        absurd (omega (arith, meet, heap.some_room))
    | inr (ys, p, snoc) ↦
        let was : Linked h.seg 0 (ys ++ p ∷ []) = rw snoc at heap.represents.linked in
        let up : Ascending 0 (ys ++ p ∷ []) = rw snoc at heap.represents.ascending in
        let last : h.last_hdr ≡ p.addr =
          heap.represents.last ∙ ap (last_addr 0) snoc ∙ last_addr-append 0 ys (p ∷ []) in
        let here = (Linked-drop h.seg 0 ys (p ∷ []) was).0 in
        rw (snoc, append_assoc ys (p ∷ []) (new ∷ []))
          (Linked-replace h.seg appended.seg p [] (p ∷ new ∷ []) refl
            (λ y o lt.
              elsewhere y (λ q. absurd (omega (arith, last, last_below)))
                (λ q. absurd (omega (arith, last))))
            0 0 ys up was
            (
              ap appended.seg (sym last)
                  ∙ at_last
                  ∙ ap (λ a. record (h.seg a) { next = h.heap_end }) last
                  ∙ ap (λ (x : HeapSegHdr). record x { next = h.heap_end }) here,
              (at_new ∙ ap (λ a. header a 0 new) last, tt),
            ))
  ]

  pub appended-Represents : Represents appended (xs ++ new ∷ [])
  unfolding append_segment last_addr first_addr Tiled
  appended-Represents = record {
    linked = appended-Linked;
    ascending = Ascending-snoc 0 h.heap_start h.heap_end xs new refl heap.positive heap.fills;
    start = elim (last_or_none xs) [
      | inl empty ↦
          let meet : h.heap_start ≡ h.heap_end = rw empty at heap.fills in
          absurd (omega (arith, meet, heap.some_room))
      | inr (ys, p, snoc) ↦
          heap.represents.start
          ∙ rw (snoc, append_assoc ys (p ∷ []) (new ∷ []))
              (first_addr-append ys (p ∷ []) (p ∷ new ∷ []) refl)
    ];
    last = sym (last_addr-append 0 xs (new ∷ []));
  }

  pub appended-Tiled : Tiled h.heap_start (h.heap_end + lenght) (xs ++ new ∷ [])
  appended-Tiled =
      let sum : h.heap_end + hdr_size + (lenght - hdr_size) ≡ h.heap_end + lenght = omega arith in
      rw sum at (Tiled-snoc h.heap_start h.heap_end xs new refl heap.fills)
