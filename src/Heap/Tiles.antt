-- ===== src/Heap/Tiles.antt =====
-- The segments of the heap of rizzos/src/memory/heap.c fill its addresses: also after two of them
-- are joined, and with one more behind them.
use mathlib.Core.List.{append_assoc}
use rizzos.Base.{
  ℕ, ◌+◌, ◌%◌, ◌^◌, ◌≤◌, ◌<◌, ◌≡◌, refl, ap, ◌⊎◌, inl, inr, true, false, none, some, List, [], ◌∷◌,
  ◌++◌, arith, if◌then◌else◌, Bool-cases,
}
use rizzos.Heap.{hdr_size}
use rizzos.Heap.Combine.{merged}
use rizzos.Heap.Free.{join_next, join_last, last_or_none, join_last-snoc}
use rizzos.Heap.Search.{fits, first_fit}
use rizzos.Heap.Segments.{Segment, last_addr, Ascending, Tiled}

pub Tiled-le : (s e : ℕ) (xs : List Segment) → Tiled s e xs → s ≤ e
unfolding Tiled
Tiled-le s e [] t = omega arith
Tiled-le s e (x ∷ xs) t = omega (arith, Tiled-le (s + hdr_size + x.lenght) e xs t.1)

-- The last segment begins below the end.
pub last_addr-lt : (p s e : ℕ) (xs : List Segment) → p < s → Tiled s e xs → last_addr p xs < e
unfolding Tiled last_addr
last_addr-lt p s e [] below t = omega arith
last_addr-lt p s e (x ∷ xs) below t =
    last_addr-lt x.addr (s + hdr_size + x.lenght) e xs (omega (arith, t.0)) t.1

-- One segment of a list lies between the ends.
pub Tiled-member :
    (s e : ℕ) (ys zs : List Segment) (a : Segment)
    → Tiled s e (ys ++ a ∷ zs)
    → (s ≤ a.addr) × (a.addr + hdr_size + a.lenght ≤ e)
unfolding Tiled
Tiled-member s e [] zs a t =
    let below = Tiled-le (s + hdr_size + a.lenght) e zs t.1 in
    (omega (arith, t.0), omega (arith, t.0))
Tiled-member s e (y ∷ ys) zs a t =
    let rest = Tiled-member (s + hdr_size + y.lenght) e ys zs a t.1 in
    (omega (arith, rest.0), rest.1)

pub Tiled-snoc :
    (s e : ℕ) (xs : List Segment) (x : Segment)
    → x.addr ≡ e
    → Tiled s e xs
    → Tiled s (e + hdr_size + x.lenght) (xs ++ x ∷ [])
unfolding Tiled
Tiled-snoc s e [] x at_end t = (omega arith, omega arith)
Tiled-snoc s e (y ∷ xs) x at_end t = (t.0, Tiled-snoc (s + hdr_size + y.lenght) e xs x at_end t.1)

pub Ascending-snoc :
    (p s e : ℕ) (xs : List Segment) (x : Segment)
    → x.addr ≡ e
    → p < s
    → Tiled s e xs
    → Ascending p (xs ++ x ∷ [])
unfolding Tiled Ascending
Ascending-snoc p s e [] x at_end below t = (omega arith, tt)
Ascending-snoc p s e (y ∷ xs) x at_end below t = (
  omega (arith, t.0),
  Ascending-snoc y.addr (s + hdr_size + y.lenght) e xs x at_end (omega (arith, t.0)) t.1,
)

-- Joined segments fill what the two did.
pub Tiled-merged :
    (s e : ℕ) (ys zs : List Segment) (a b : Segment)
    → e < 2 ^ 64
    → Tiled s e (ys ++ a ∷ b ∷ zs)
    → Tiled s e (ys ++ merged a b ∷ zs)
unfolding Tiled
Tiled-merged s e [] zs a b small t =
    let below = Tiled-le _ e zs t.1.1 in
    let same : s + hdr_size + a.lenght + hdr_size + b.lenght
        ≡ s + hdr_size + (a.lenght + b.lenght + hdr_size) % 2 ^ 64 =
      omega arith in
    (t.0, rw same at t.1.1)
Tiled-merged s e (y ∷ ys) zs a b small t =
    (t.0, Tiled-merged (s + hdr_size + y.lenght) e ys zs a b small t.1)

pub Tiled-join_next :
    (s e : ℕ) (ys zs : List Segment) (a : Segment)
    → e < 2 ^ 64
    → Tiled s e (ys ++ a ∷ zs)
    → Tiled s e (ys ++ join_next a zs)
unfolding join_next
Tiled-join_next s e ys [] a small t = t
Tiled-join_next s e ys (b ∷ zs) a small t = Tiled-merged s e ys zs a b small t

pub Tiled-join_last :
    (s e : ℕ) (ys rest : List Segment) (c : Segment)
    → e < 2 ^ 64
    → Tiled s e (ys ++ c ∷ rest)
    → Tiled s e (join_last ys (c ∷ rest))
unfolding join_last
Tiled-join_last s e ys rest c small t = elim (last_or_none ys) [
  | inl none_before ↦ rw none_before (rw none_before at t)
  | inr (zs, p, snoc) ↦
      let t' : Tiled s e (zs ++ p ∷ c ∷ rest) =
        rw (snoc, append_assoc zs (p ∷ []) (c ∷ rest)) at t in
      rw (snoc, join_last-snoc zs (c ∷ rest) p)
        (elim (Bool-cases p.free) [
          | inl on ↦ simp on (Tiled-join_next s e zs (c ∷ rest) p small t')
          | inr off ↦ simp off t'
        ])
]

-- The length of the last segment if it is free, and 0 otherwise
unfoldable pub last_room : List Segment → ℕ
last_room [] = 0
last_room (x ∷ []) = if x.free then x.lenght else 0
last_room (x ∷ y ∷ ys) = last_room (y ∷ ys)

last_room-cons :
    (x : Segment) (xs : List Segment) → 0 < last_room xs → last_room (x ∷ xs) ≡ last_room xs
unfolding last_room
last_room-cons x [] h = absurd (omega arith)
last_room-cons x (y ∷ ys) h = refl

-- What comes in behind is the last room at least, and more when it was joined with a free one.
pub last_room-join_last :
    (s e : ℕ) (xs : List Segment) (c : Segment)
    → e < 2 ^ 64
    → Tiled s e (xs ++ c ∷ [])
    → c.free ≡ true
    → 0 < c.lenght
    → (c.lenght ≤ last_room (join_last xs (c ∷ [])))
      × ((last_room xs ≡ 0)
          ⊎ (last_room xs + hdr_size + c.lenght ≤ last_room (join_last xs (c ∷ []))))
unfolding last_room join_last join_next Tiled
last_room-join_last s e [] c small t free pos = ground (arith, free)
last_room-join_last s e (p ∷ []) c small t free pos =
    let sum : (p.lenght + c.lenght + hdr_size) % 2 ^ 64 ≡ p.lenght + c.lenght + hdr_size =
      omega (arith, t.1.1) in
    elim (Bool-cases p.free) [
      | inl on ↦ rw on (omega (arith, sum), inr (omega (arith, sum)))
      | inr off ↦ rw off (ground (arith, free), inl refl)
    ]
last_room-join_last s e (p ∷ q ∷ ys) c small t free pos =
    let rest = last_room-join_last (s + hdr_size + p.lenght) e (q ∷ ys) c small t.1 free pos in
    rw (last_room-cons p (join_last (q ∷ ys) (c ∷ [])) (omega (arith, rest.0, pos))) rest

-- A search finds a free segment that is long enough, and finds one where the last is.
pub record Found (size : ℕ) (xs : List Segment) : Type 0 where
  pub before : List Segment
  pub segment : Segment
  pub behind : List Segment
  pub found : first_fit size xs ≡ some segment
  pub parts : xs ≡ before ++ segment ∷ behind
  pub free : segment.free ≡ true
  pub enough : size ≤ segment.lenght

match_here : (size : ℕ) (x : Segment) (xs : List Segment) → fits size x ≡ true → Found size (x ∷ xs)
unfolding first_fit
match_here size x xs on = record {
  before = [];
  segment = x;
  behind = xs;
  found = rw on refl;
  parts = refl;
  free = ground arith;
  enough = ground arith;
}

match_later :
    (size : ℕ) (x : Segment) (xs : List Segment)
    → fits size x ≡ false
    → Found size xs
    → Found size (x ∷ xs)
unfolding first_fit
match_later size x xs off f = record {
  before = x ∷ f.before;
  segment = f.segment;
  behind = f.behind;
  found = rw off f.found;
  parts = ap (λ l. x ∷ l) f.parts;
  free = f.free;
  enough = f.enough;
}

pub first_fit-Found : (size : ℕ) (xs : List Segment) → (first_fit size xs ≡ none) ⊎ Found size xs
unfolding first_fit
first_fit-Found size [] = inl refl
first_fit-Found size (x ∷ xs) = elim (Bool-cases (fits size x)) [
  | inl on ↦ inr (match_here size x xs on)
  | inr off ↦ elim (first_fit-Found size xs) [
    | inl nothing ↦ inl (rw off nothing)
    | inr f ↦ inr (match_later size x xs off f)
  ]
]

pub last_room-Found :
    (size : ℕ) (xs : List Segment) → 0 < size → size ≤ last_room xs → Found size xs
unfolding last_room
last_room-Found size [] pos enough = absurd (omega arith)
last_room-Found size (x ∷ []) pos enough = match_here size x [] (ground (arith, enough, pos))
last_room-Found size (x ∷ y ∷ ys) pos enough = elim (Bool-cases (fits size x)) [
  | inl on ↦ match_here size x (y ∷ ys) on
  | inr off ↦ match_later size x (y ∷ ys) off (last_room-Found size (y ∷ ys) pos enough)
]
