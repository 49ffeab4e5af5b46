-- ===== src/Heap/Combine.antt =====
-- `MEM_HeapSegHdrCombineForward` and `MEM_HeapSegHdrCombineBackward` of rizzos/src/memory/heap.c
-- on the list of segments.
use rizzos.Base.{
  ℕ, ◌+◌, ◌%◌, ◌^◌, ◌<◌, ◌≡◌, refl, ◌∙◌, ◌≢◌, ◌⊎◌, inl, inr, true, ◌==◌, List, [], ◌∷◌, ◌++◌, arith,
  Bool-cases,
}
use rizzos.Heap.{Heap, hdr_size, combine_forward}
use rizzos.Heap.Segments.{
  Segment, header, first_addr, last_addr, Linked, Ascending, Linked-agree, Linked-drop,
  Ascending-drop, Linked-replace, first_addr-le,
}

-- Two neighbours as one segment.
abbrev pub merged : Segment → Segment → Segment
merged a b = record {
  addr = a.addr;
  lenght = (a.lenght + b.lenght + hdr_size) % 2 ^ 64;
  free = a.free;
}

-- The headers after two neighbours are joined.
module _ (h : Heap) (last n : ℕ) (a b : Segment) (at_a : h.seg a.addr ≡ header last b.addr a)
    (at_b : h.seg b.addr ≡ header a.addr n b) (free : a.free ≡ true) (up : a.addr < b.addr)
    (after : (n ≡ 0) ⊎ (b.addr < n)) where
  abbrev joined : Heap
  joined = combine_forward h a.addr

  joined_at : joined.seg a.addr ≡ header last n (merged a b)
  unfolding combine_forward
  joined_at =
      rw (at_a, at_b) (elim (Bool-cases (n == 0)) [ inl z ↦ ground arith | inr z ↦ ground arith ])

  joined_after : n ≢ 0 → joined.seg n ≡ record (h.seg n) { last = a.addr }
  unfolding combine_forward
  joined_after some_next = ground (arith, at_a, at_b)

  joined_elsewhere : (x : ℕ) → x ≢ a.addr → (n ≡ 0) ⊎ (x ≢ n) → joined.seg x ≡ h.seg x
  unfolding combine_forward
  joined_elsewhere x other other' = ground (arith, at_a, at_b)

joined_rest :
    (h : Heap) (last : ℕ) (a b : Segment) (zs : List Segment)
    → h.seg a.addr ≡ header last b.addr a
    → h.seg b.addr ≡ header a.addr (first_addr zs) b
    → a.free ≡ true
    → a.addr < b.addr
    → Ascending b.addr zs
    → Linked h.seg b.addr zs
    → Linked (combine_forward h a.addr).seg a.addr zs
unfolding Linked Ascending first_addr
joined_rest h last a b [] at_a at_b free up above linked = tt
joined_rest h last a b (z ∷ zs) at_a at_b free up above linked = (
  joined_after h last z.addr a b at_a at_b free up (inr above.0) (omega (arith, above.0))
      ∙ rw linked.0,
  Linked-agree h.seg (combine_forward h a.addr).seg z.addr z.addr zs above.1
      (λ x p.
        joined_elsewhere h last z.addr a b at_a at_b free up (inr above.0) x
          (λ q. absurd (omega (arith, above.0))) (inr (λ q. absurd (omega arith))))
      linked.1,
)

-- On the list, joining a free segment forward makes one segment of it and the next, free or not.
pub combine_forward-Linked :
    (h : Heap) (last bound : ℕ) (ys zs : List Segment) (a b : Segment)
    → Linked h.seg last (ys ++ a ∷ b ∷ zs)
    → Ascending bound (ys ++ a ∷ b ∷ zs)
    → a.free ≡ true
    → Linked (combine_forward h a.addr).seg last (ys ++ merged a b ∷ zs)
unfolding Linked Ascending first_addr
combine_forward-Linked h last bound ys zs a b linked up free =
    let here = Linked-drop h.seg last ys (a ∷ b ∷ zs) linked in
    let above = Ascending-drop bound ys (a ∷ b ∷ zs) up in
    let after = first_addr-le b.addr zs above.1.1 in
    let before : (y : ℕ) → 0 < y → y < a.addr → (combine_forward h a.addr).seg y ≡ h.seg y =
      λ y o p.
        joined_elsewhere h (last_addr last ys) (first_addr zs) a b here.0 here.1.0 free above.1.0
          after y (λ q. absurd (omega arith)) (omega (arith, above.1.0, after)) in
    Linked-replace h.seg (combine_forward h a.addr).seg a (b ∷ zs) (merged a b ∷ zs) refl before
      last bound ys up linked
      (
        joined_at h (last_addr last ys) (first_addr zs) a b here.0 here.1.0 free above.1.0 after,
        joined_rest h (last_addr last ys) a b zs here.0 here.1.0 free above.1.0 above.1.1 here.1.1,
      )
