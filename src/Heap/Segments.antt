-- ===== src/Heap/Segments.antt =====
-- The abstract view of the heap of rizzos/src/memory/heap.c: the list of its segments in the order
-- of their addresses.
use rizzos.Base.{
  ℕ, ◌+◌, ◌≤◌, ◌<◌, ◌≡◌, refl, sym, ◌∙◌, ap, ◌⊎◌, inl, inr, Bool, List, [], ◌∷◌, ◌++◌, arith,
}
use rizzos.Heap.{HeapSegHdr, hdr_size}

pub record Segment : Type 0 where
  pub addr : ℕ
  pub lenght : ℕ
  pub free : Bool

-- The address of the first segment, or NULL.
unfoldable pub first_addr : List Segment → ℕ
first_addr [] = 0
first_addr (x ∷ xs) = x.addr

-- The header that a segment has between its neighbours.
abbrev pub header : (last next : ℕ) → Segment → HeapSegHdr
header last next x = record { lenght = x.lenght; next = next; last = last; free = x.free }

-- The headers hold the list, the first segment coming after `last`.
unfoldable pub Linked : (ℕ → HeapSegHdr) → ℕ → List Segment → Type 0
Linked seg last [] = Unit {0}
Linked seg last (x ∷ xs) = (seg x.addr ≡ header last (first_addr xs) x) × Linked seg x.addr xs

-- The segments lie above `a`, in ascending order.
unfoldable pub Ascending : ℕ → List Segment → Type 0
Ascending a [] = Unit {0}
Ascending a (x ∷ xs) = (a < x.addr) × Ascending x.addr xs

-- The address of the last segment, or `a`.
unfoldable pub last_addr : ℕ → List Segment → ℕ
last_addr a [] = a
last_addr a (x ∷ xs) = last_addr x.addr xs

-- The segments fill the addresses from `a` to `e`, each header being followed by its memory.
unfoldable pub Tiled : (a e : ℕ) → List Segment → Type 0
Tiled a e [] = a ≡ e
Tiled a e (x ∷ xs) = (x.addr ≡ a) × Tiled (a + hdr_size + x.lenght) e xs

-- What happens at addresses below or at `a` does not matter to the segments above it.
pub Linked-agree :
    (seg seg' : ℕ → HeapSegHdr) (last a : ℕ) (xs : List Segment)
    → Ascending a xs
    → ((x : ℕ) → a < x → seg' x ≡ seg x)
    → Linked seg last xs
    → Linked seg' last xs
unfolding Linked Ascending
Linked-agree seg seg' last a [] up same h = tt
Linked-agree seg seg' last a (x ∷ xs) up same h = (
  same x.addr up.0 ∙ h.0,
  Linked-agree seg seg' x.addr x.addr xs up.1 (λ y p. same y (omega (arith, up.0))) h.1,
)

-- The segments above `a` still ascend above an address below `a`.
pub Ascending-le : (a b : ℕ) (xs : List Segment) → b ≤ a → Ascending a xs → Ascending b xs
unfolding Ascending
Ascending-le a b [] le up = tt
Ascending-le a b (x ∷ xs) le up = (omega (arith, up.0), up.1)

pub first_addr-le :
    (a : ℕ) (xs : List Segment) → Ascending a xs → (first_addr xs ≡ 0) ⊎ (a < first_addr xs)
unfolding first_addr Ascending
first_addr-le a [] up = inl refl
first_addr-le a (x ∷ xs) up = inr up.0

-- The end of a list, behind the segments `ys`.
pub Linked-drop :
    (seg : ℕ → HeapSegHdr) (last : ℕ) (ys xs : List Segment)
    → Linked seg last (ys ++ xs)
    → Linked seg (last_addr last ys) xs
unfolding Linked last_addr
Linked-drop seg last [] xs h = h
Linked-drop seg last (y ∷ ys) xs h = Linked-drop seg y.addr ys xs h.1

pub Ascending-drop :
    (a : ℕ) (ys xs : List Segment) → Ascending a (ys ++ xs) → Ascending (last_addr a ys) xs
unfolding Ascending last_addr
Ascending-drop a [] xs h = h
Ascending-drop a (y ∷ ys) xs h = Ascending-drop y.addr ys xs h.1

-- Every segment is above the first address.
pub Ascending-lt :
    (a : ℕ) (ys xs : List Segment) (x : Segment) → Ascending a (ys ++ x ∷ xs) → a < x.addr
unfolding Ascending
Ascending-lt a [] xs x h = h.0
Ascending-lt a (y ∷ ys) xs x h = omega (arith, h.0, Ascending-lt y.addr ys xs x h.1)

pub first_addr-append :
    (ys xs xs' : List Segment)
    → first_addr xs ≡ first_addr xs'
    → first_addr (ys ++ xs) ≡ first_addr (ys ++ xs')
unfolding first_addr
first_addr-append [] xs xs' h = h
first_addr-append (y ∷ ys) xs xs' h = refl

-- A change of the headers from the segment `c` on leaves the segments before it.
pub Linked-replace :
    (seg seg' : ℕ → HeapSegHdr) (c : Segment) (xs xs' : List Segment)
    → first_addr xs' ≡ c.addr
    → ((y : ℕ) → 0 < y → y < c.addr → seg' y ≡ seg y)
    → (last a : ℕ) (ys : List Segment) → Ascending a (ys ++ c ∷ xs)
    → Linked seg last (ys ++ c ∷ xs)
    → Linked seg' (last_addr last ys) xs'
    → Linked seg' last (ys ++ xs')
unfolding Linked Ascending first_addr last_addr
Linked-replace seg seg' c xs xs' first same last a [] up h t = t
Linked-replace seg seg' c xs xs' first same last a (y ∷ ys) up h t = (
  same y.addr (omega (arith, up.0)) (Ascending-lt y.addr ys xs c up.1)
      ∙ h.0
      ∙ ap (λ n. header last n y) (first_addr-append ys (c ∷ xs) xs' (sym first)),
  Linked-replace seg seg' c xs xs' first same y.addr y.addr ys up.1 h.1 t,
)
