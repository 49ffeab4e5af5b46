-- ===== src/Heap/Represents.antt =====
-- When the heap of rizzos/src/memory/heap.c, with its static variables, holds a list of segments.
use rizzos.Base.{
  ℕ, ◌≤◌, ◌≡◌, refl, sym, ◌∙◌, ap, ◌≢◌, Bool, true, ◌==◌, List, [], ◌∷◌, ◌++◌, if◌then◌else◌, arith,
}
use rizzos.Heap.{HeapSegHdr, Heap, set_free, combine_forward}
use rizzos.Heap.Combine.{merged, combine_forward-Linked}
use rizzos.Heap.Segments.{
  Segment, first_addr, last_addr, Linked, Ascending, Linked-drop, Ascending-drop, Linked-replace,
  Linked-agree, Ascending-le, first_addr-append,
}

pub record Represents (h : Heap) (xs : List Segment) : Type 0 where
  pub linked : Linked h.seg 0 xs
  pub ascending : Ascending 0 xs
  pub start : h.heap_start ≡ first_addr xs
  pub last : h.last_hdr ≡ last_addr 0 xs

pub last_addr-append :
    (p : ℕ) (ys xs : List Segment) → last_addr p (ys ++ xs) ≡ last_addr (last_addr p ys) xs
unfolding last_addr
last_addr-append p [] xs = refl
last_addr-append p (y ∷ ys) xs = last_addr-append y.addr ys xs

pub last_addr-le : (p : ℕ) (xs : List Segment) → Ascending p xs → p ≤ last_addr p xs
unfolding last_addr Ascending
last_addr-le p [] up = omega arith
last_addr-le p (x ∷ xs) up = omega (arith, up.0, last_addr-le x.addr xs up.1)

-- Another segment at the address of `c`, and another end behind it.
pub Ascending-replace :
    (k : ℕ) (ys xs xs' : List Segment) (c c' : Segment)
    → c'.addr ≡ c.addr
    → Ascending c.addr xs'
    → Ascending k (ys ++ c ∷ xs)
    → Ascending k (ys ++ c' ∷ xs')
unfolding Ascending
Ascending-replace k [] xs xs' c c' e t up = rw e (up.0, t)
Ascending-replace k (y ∷ ys) xs xs' c c' e t up =
    (up.0, Ascending-replace y.addr ys xs xs' c c' e t up.1)

last_of_joined :
    (h : Heap) (a : Segment) (b : ℕ)
    → (h.seg a.addr).next ≡ b
    → b ≢ 0
    → (h.seg a.addr).free ≡ true
    → (combine_forward h a.addr).last_hdr ≡ (if b == h.last_hdr then a.addr else h.last_hdr)
unfolding combine_forward
last_of_joined h a b e some_next free = ground (arith, e, free)

pub heap_start-combine_forward :
    (h : Heap) (a : ℕ) → (combine_forward h a).heap_start ≡ h.heap_start
unfolding combine_forward
heap_start-combine_forward h a = ground arith

-- The last segment of a list with `b` in it, and of the list without.
last_joined :
    (a b : Segment) (zs : List Segment)
    → Ascending b.addr zs
    → last_addr a.addr zs ≡ (if b.addr == last_addr b.addr zs then a.addr else last_addr b.addr zs)
unfolding last_addr Ascending
last_joined a b [] up = ground arith
last_joined a b (z ∷ zs) up = let le = last_addr-le z.addr zs up.1 in ground (arith, le, up.0)

pub combine_forward-Represents :
    (h : Heap) (ys zs : List Segment) (a b : Segment)
    → Represents h (ys ++ a ∷ b ∷ zs)
    → a.free ≡ true
    → Represents (combine_forward h a.addr) (ys ++ merged a b ∷ zs)
unfolding Linked Ascending first_addr last_addr
combine_forward-Represents h ys zs a b r free =
    let here = Linked-drop h.seg 0 ys (a ∷ b ∷ zs) r.linked in
    let above = Ascending-drop 0 ys (a ∷ b ∷ zs) r.ascending in
    let was : h.last_hdr ≡ last_addr b.addr zs = r.last ∙ last_addr-append 0 ys (a ∷ b ∷ zs) in
    record {
      linked = combine_forward-Linked h 0 0 ys zs a b r.linked r.ascending free;
      ascending =
          Ascending-replace 0 ys (b ∷ zs) zs a (merged a b) refl
            (Ascending-le b.addr a.addr zs (omega (arith, above.1.0)) above.1.1) r.ascending;
      start =
          heap_start-combine_forward h a.addr
          ∙ r.start
          ∙ first_addr-append ys (a ∷ b ∷ zs) (merged a b ∷ zs) refl;
      last =
          last_of_joined h a b.addr (ap (λ (s : HeapSegHdr). s.next) here.0)
            (λ q. absurd (omega (arith, above.1.0))) (ap (λ (s : HeapSegHdr). s.free) here.0 ∙ free)
          ∙ rw was (sym (last_joined a b zs above.1.1))
          ∙ sym (last_addr-append 0 ys (merged a b ∷ zs));
    }

-- The same segment, taken or given back.
abbrev pub marked : Bool → Segment → Segment
marked b a = record a { free = b }

pub mark-Represents :
    (b : Bool) (h : Heap) (ys zs : List Segment) (a : Segment)
    → Represents h (ys ++ a ∷ zs)
    → Represents (record h { seg = set_free h.seg a.addr b }) (ys ++ marked b a ∷ zs)
unfolding Linked Ascending first_addr last_addr
mark-Represents b h ys zs a r =
    let here = Linked-drop h.seg 0 ys (a ∷ zs) r.linked in
    let above = Ascending-drop 0 ys (a ∷ zs) r.ascending in
    record {
      linked =
          Linked-replace h.seg (set_free h.seg a.addr b) a zs (marked b a ∷ zs) refl
            (λ y o p. ground arith) 0 0 ys r.ascending r.linked
            (
              ground (arith, here.0),
              Linked-agree h.seg (set_free h.seg a.addr b) a.addr a.addr zs above.1
                  (λ y p. ground arith) here.1,
            );
      ascending = Ascending-replace 0 ys zs zs a (marked b a) refl above.1 r.ascending;
      start = r.start ∙ first_addr-append ys (a ∷ zs) (marked b a ∷ zs) refl;
      last =
          r.last ∙ last_addr-append 0 ys (a ∷ zs) ∙ sym (last_addr-append 0 ys (marked b a ∷ zs));
    }
