-- ===== src/Heap/Free.antt =====
-- `MEM_Free` of rizzos/src/memory/heap.c on the list of segments.
use mathlib.Core.List.{append_assoc}
use rizzos.Base.{
  ◌+◌, ◌-◌, ◌%◌, ◌^◌, ◌<◌, ◌≡◌, refl, ◌∙◌, ap, ◌⊎◌, inl, inr, true, false, ◌==◌, List, [], ◌∷◌,
  ◌++◌, if◌then◌else◌, arith, Bool-cases,
}
use rizzos.Heap.{HeapSegHdr, Heap, hdr_size, set_free, combine_forward, combine_backward, mem_free}
use rizzos.Heap.Combine.{merged}
use rizzos.Heap.Represents.{Represents, combine_forward-Represents, mark-Represents, marked}
use rizzos.Heap.Segments.{Segment, first_addr, Linked, Ascending, Linked-drop, Ascending-drop}

-- The segment `a` and those behind it, after it has taken in the next one.
unfoldable pub join_next : Segment → List Segment → List Segment
join_next a [] = a ∷ []
join_next a (b ∷ zs) = merged a b ∷ zs

-- The segments `ys` before `xs`, after the last of them, if it is free, has taken in the first
-- of `xs`.
unfoldable pub join_last : List Segment → List Segment → List Segment
join_last [] xs = xs
join_last (p ∷ []) xs = if p.free then join_next p xs else p ∷ xs
join_last (p ∷ q ∷ ys) xs = p ∷ join_last (q ∷ ys) xs

pub last_or_none :
    (ys : List Segment) → (ys ≡ []) ⊎ ((zs : List Segment) × (p : Segment) × (ys ≡ zs ++ p ∷ []))
last_or_none [] = inl refl
last_or_none (y ∷ ys) = elim (last_or_none ys) [
  | inl e ↦ inr ([], y, ap (λ l. y ∷ l) e)
  | inr (zs, p, e) ↦ inr (y ∷ zs, p, ap (λ l. y ∷ l) e)
]

pub join_last-snoc :
    (ys xs : List Segment) (p : Segment)
    → join_last (ys ++ p ∷ []) xs ≡ (if p.free then ys ++ join_next p xs else ys ++ p ∷ xs)
unfolding join_last
join_last-snoc [] xs p = refl
join_last-snoc (y ∷ []) xs p = elim (Bool-cases p.free) [ inl on ↦ rw on | inr off ↦ rw off ]
join_last-snoc (y ∷ z ∷ ys) xs p =
    ap (λ l. y ∷ l) (join_last-snoc (z ∷ ys) xs p)
    ∙ elim (Bool-cases p.free) [ inl on ↦ rw on | inr off ↦ rw off ]

join_next-Represents :
    (h : Heap) (ys zs : List Segment) (a : Segment)
    → Represents h (ys ++ a ∷ zs)
    → a.free ≡ true
    → Represents (combine_forward h a.addr) (ys ++ join_next a zs)
unfolding join_next combine_forward Linked first_addr
join_next-Represents h ys [] a r free =
    let here = Linked-drop h.seg 0 ys (a ∷ []) r.linked in
    let alone : (h.seg a.addr).next ≡ 0 = ap (λ (s : HeapSegHdr). s.next) here.0 in rw alone r
join_next-Represents h ys (b ∷ zs) a r free = combine_forward-Represents h ys zs a b r free

backward_first :
    (h : Heap) (c : Segment) (rest : List Segment)
    → Represents h (c ∷ rest)
    → Represents (combine_backward h c.addr) (c ∷ rest)
unfolding combine_backward Linked
backward_first h c rest r =
    let none_before : (h.seg c.addr).last ≡ 0 = ap (λ (s : HeapSegHdr). s.last) r.linked.0 in
    rw none_before r

backward_after :
    (h : Heap) (zs rest : List Segment) (p c : Segment)
    → Represents h (zs ++ p ∷ c ∷ rest)
    → Represents
        (combine_backward h c.addr)
        (if p.free then zs ++ join_next p (c ∷ rest) else zs ++ p ∷ c ∷ rest)
unfolding combine_backward Linked Ascending
backward_after h zs rest p c r =
    let here = Linked-drop h.seg 0 zs (p ∷ c ∷ rest) r.linked in
    let above = Ascending-drop 0 zs (p ∷ c ∷ rest) r.ascending in
    let before : (h.seg c.addr).last ≡ p.addr = ap (λ (s : HeapSegHdr). s.last) here.1.0 in
    let there : (p.addr == 0) ≡ false = ground (arith, above.0) in
    let state : (h.seg p.addr).free ≡ p.free = ap (λ (s : HeapSegHdr). s.free) here.0 in
    rw (before, there, state)
      (elim (Bool-cases p.free) [
        | inl on ↦ simp on (join_next-Represents h zs (c ∷ rest) p r on)
        | inr off ↦ simp off r
      ])

pub combine_backward-Represents :
    (h : Heap) (ys rest : List Segment) (c : Segment)
    → Represents h (ys ++ c ∷ rest)
    → Represents (combine_backward h c.addr) (join_last ys (c ∷ rest))
unfolding join_last
combine_backward-Represents h ys rest c r = elim (last_or_none ys) [
  | inl e ↦ rw e (backward_first h c rest (rw e at r))
  | inr (zs, p, e) ↦
      rw (e, join_last-snoc zs (c ∷ rest) p)
        (backward_after h zs rest p c (rw (e, append_assoc zs (p ∷ []) (c ∷ rest)) at r))
]

backward_joined :
    (h : Heap) (ys zs : List Segment) (a : Segment)
    → Represents h (ys ++ join_next a zs)
    → Represents (combine_backward h a.addr) (join_last ys (join_next a zs))
unfolding join_next
backward_joined h ys [] a r = combine_backward-Represents h ys [] a r
backward_joined h ys (b ∷ zs) a r = combine_backward-Represents h ys zs (merged a b) r

-- If the heap holds a list of segments in ascending order, MEM_Free of the memory of one of them
-- marks it free and joins it with the next segment, whether that one is free or not, and then
-- with the one before, if that one is free; the list, its start and its last segment are again
-- as the headers and the static variables say.
pub mem_free-Represents :
    (h : Heap) (ys zs : List Segment) (a : Segment)
    → Represents h (ys ++ a ∷ zs)
    → a.addr + hdr_size < 2 ^ 64
    → Represents (mem_free h (a.addr + hdr_size)) (join_last ys (join_next (marked true a) zs))
unfolding mem_free
mem_free-Represents h ys zs a r small =
    let segment : (a.addr + hdr_size + 2 ^ 64 - hdr_size) % 2 ^ 64 ≡ a.addr = omega arith in
    let released = mark-Represents true h ys zs a r in
    let h1 : Heap = record h { seg = set_free h.seg a.addr true } in
    let joined = join_next-Represents h1 ys zs (marked true a) released refl in
    rw segment (backward_joined (combine_forward h1 a.addr) ys zs (marked true a) joined)
