-- ===== src/Heap/Room.antt =====
-- Whether `MEM_HeapSegHdrSplit` of rizzos/src/memory/heap.c keeps the room of the segment.
use rizzos.Base.{
  ℕ, ◌+◌, ◌*◌, ◌<◌, ◌≡◌, refl, sym, ◌∙◌, ◌⊎◌, inl, inr, ◌↔◌, ◌==◌, List, [], ◌∷◌, ◌++◌,
  if◌then◌else◌, arith,
}
use rizzos.Heap.{Heap, hdr_size, split}
use rizzos.Heap.Represents.{Represents, last_addr-append, last_addr-le, Ascending-replace}
use rizzos.Heap.Segments.{
  Segment, header, first_addr, last_addr, Linked, Ascending, Tiled, Linked-drop, Ascending-drop,
  Linked-replace, Linked-agree, first_addr-append,
}
use rizzos.Heap.Split.{
  Splits, front, behind, split_at, split_new, split_after, split_elsewhere, split_last, split_start,
}

-- Where the segment behind `a` begins.
next_tile :
    (s e : ℕ) (ys zs : List Segment) (a : Segment)
    → Tiled s e (ys ++ a ∷ zs)
    → (first_addr zs ≡ 0) ⊎ (first_addr zs ≡ a.addr + hdr_size + a.lenght)
unfolding Tiled first_addr
next_tile s e [] [] a t = inl refl
next_tile s e [] (z ∷ zs) a t = inr (omega (arith, t.0, t.1.0))
next_tile s e (y ∷ ys) zs a t = next_tile (s + hdr_size + y.lenght) e ys zs a t.1

tile_start : (p q e : ℕ) (zs : List Segment) → Tiled p e zs → Tiled q e zs → p ≡ q
unfolding Tiled
tile_start p q e [] t t' = t ∙ sym t'
tile_start p q e (z ∷ zs) t t' = sym t.0 ∙ t'.0

-- The two segments of a split fill the room of the one.
split_fills :
    (s e size : ℕ) (ys zs : List Segment) (a : Segment)
    → Tiled s e (ys ++ a ∷ zs)
    → Tiled s e (ys ++ front a size ∷ behind a size ∷ zs) ↔ (a.lenght ≡ 2 * size + hdr_size)
unfolding Tiled
split_fills s e size [] zs a t = (
  λ t'. omega (arith, tile_start _ _ e zs t.1 t'.1.1),
  λ q.
      let same : s + hdr_size + a.lenght ≡ s + hdr_size + size + hdr_size + size = omega arith in
      (t.0, (omega (arith, t.0), rw (← same) t.1)),
)
split_fills s e size (y ∷ ys) zs a t =
    let rest = split_fills (s + hdr_size + y.lenght) e size ys zs a t.1 in
    (λ t'. rest.0 t'.1, λ q. (t.0, rest.1 q))

-- The headers behind the segment that is split.
split_rest :
    (h : Heap) (last size : ℕ) (a : Segment) (zs : List Segment)
    → h.seg a.addr ≡ header last (first_addr zs) a
    → Splits a size
    → (first_addr zs ≡ 0) ⊎ (a.addr + size + hdr_size < first_addr zs)
    → 0 < a.addr
    → Ascending a.addr zs
    → Linked h.seg a.addr zs
    → Linked (split h a.addr size).1.seg (a.addr + size + hdr_size) zs
unfolding Linked Ascending first_addr
split_rest h last size a [] at_a ok after pos up linked = tt
split_rest h last size a (z ∷ zs) at_a ok after pos up linked = (
  split_after h last z.addr size a at_a ok after pos (omega (arith, up.0)) ∙ rw linked.0,
  Linked-agree h.seg (split h a.addr size).1.seg z.addr z.addr zs up.1
      (λ x p.
        split_elsewhere h last z.addr size a at_a ok after pos x (λ q. absurd (omega (arith, up.0)))
          (λ q. absurd (omega (arith, after, up.0))) (λ q. absurd (omega arith)))
      linked.1,
)

-- The list ascends from any address below its first.
Ascending-first :
    (a b : ℕ) (zs : List Segment)
    → (first_addr zs ≡ 0) ⊎ (b < first_addr zs)
    → Ascending a zs
    → Ascending b zs
unfolding Ascending first_addr
Ascending-first a b [] h up = tt
Ascending-first a b (z ∷ zs) h up = (omega (arith, up.0), up.1)

last_cut :
    (size : ℕ) (a : Segment) (zs : List Segment)
    → Ascending a.addr zs
    → (if last_addr a.addr zs == a.addr then a.addr + size + hdr_size else last_addr a.addr zs)
      ≡ last_addr (a.addr + size + hdr_size) zs
unfolding Ascending last_addr
last_cut size a [] up = ground arith
last_cut size a (z ∷ zs) up = let le = last_addr-le z.addr zs up.1 in ground (arith, le, up.0)

module _ (h : Heap) (s e size : ℕ) (ys zs : List Segment) (a : Segment)
    (r : Represents h (ys ++ a ∷ zs)) (t : Tiled s e (ys ++ a ∷ zs)) (ok : Splits a size) where
  abbrev done : Heap
  done = (split h a.addr size).1

  here : (h.seg a.addr ≡ header (last_addr 0 ys) (first_addr zs) a) × Linked h.seg a.addr zs
  unfolding Linked
  here = Linked-drop h.seg 0 ys (a ∷ zs) r.linked

  above : (last_addr 0 ys < a.addr) × Ascending a.addr zs
  unfolding Ascending
  above = Ascending-drop 0 ys (a ∷ zs) r.ascending

  after : (first_addr zs ≡ 0) ⊎ (a.addr + size + hdr_size < first_addr zs)
  after = omega (arith, next_tile s e ys zs a t, ok.left)

  positive : 0 < a.addr
  positive = omega (arith, above.0)

  pub split-Represents : Represents done (ys ++ front a size ∷ behind a size ∷ zs)
  unfolding Linked Ascending first_addr last_addr
  split-Represents = record {
    linked =
        Linked-replace h.seg done.seg a zs (front a size ∷ behind a size ∷ zs) refl
          (λ y o p.
            split_elsewhere h _ _ size a here.0 ok after positive y (λ q. absurd (omega arith))
              (λ q. absurd (omega arith)) (λ q. absurd (omega (arith, after))))
          0 0 ys r.ascending r.linked
          (
            split_at h _ _ size a here.0 ok after positive,
            (
              split_new h _ _ size a here.0 ok after positive,
              split_rest h _ size a zs here.0 ok after positive above.1 here.1,
            ),
          );
    ascending =
        Ascending-replace 0 ys zs (behind a size ∷ zs) a (front a size) refl
          (omega arith, Ascending-first a.addr _ zs after above.1) r.ascending;
    start =
        split_start h _ _ size a here.0 ok after positive
        ∙ r.start
        ∙ first_addr-append ys (a ∷ zs) (front a size ∷ behind a size ∷ zs) refl;
    last =
        split_last h _ _ size a here.0 ok after positive
        ∙ rw (r.last ∙ last_addr-append 0 ys (a ∷ zs)) (last_cut size a zs above.1)
        ∙ sym (last_addr-append 0 ys (front a size ∷ behind a size ∷ zs));
  }

  -- If the heap holds a list of segments that fills its addresses, and a segment is long enough
  -- to be split, MEM_HeapSegHdrSplit leaves a heap that holds the list with two segments in its
  -- place, both of the length asked for. They fill its room exactly if its length was twice that
  -- length and a header; otherwise the list no longer fills the addresses.
  pub split-room :
      Represents (split h a.addr size).1 (ys ++ front a size ∷ behind a size ∷ zs)
      × (Tiled s e (ys ++ front a size ∷ behind a size ∷ zs) ↔ (a.lenght ≡ 2 * size + hdr_size))
  split-room = (split-Represents, split_fills s e size ys zs a t)
