-- ===== src/Heap/Backing.antt =====
-- The pages behind the heap of rizzos/src/memory/heap.c: the loops that map requested pages, in
-- MEM_InitializeHeap and MEM_ExpandHeap.
use rizzos.Base.{
  ℕ, zero, suc, ◌+◌, ◌*◌, ◌/◌, ◌%◌, ◌^◌, ◌≤◌, ◌<◌, ◌≡◌, ◌≢◌, refl, sym, ◌∙◌, ap, ◌⊎◌, inl, inr,
  true, false, ltb, Option, some, update, arith, Bool-cases,
}
use rizzos.Heap.{map_pages}
use rizzos.PageFrame.{Pfa, locked, page_bound, request_page}
use rizzos.Paging.Mapper.{ptm_create, map_memory}
use rizzos.Paging.Mapper.Map.{map_memory-maps}
use rizzos.Paging.Tree.{Shape, IsTree, IsReady, room}
use rizzos.Paging.Tree.Path.{walk-same_page}
use rizzos.Paging.Tree.Room.{
  request_page-Granted, granted-IsReady, granted-IsTree, granted-bound, granted-room, granted-walk,
}
use rizzos.Paging.Walk.{walk}

-- The page tables and the allocator work together.
pub record IsPaged (root : ℕ) (s : Pfa) : Type 0 where
  pub shape : Shape
  pub tree : IsTree shape s
  pub ready : IsReady s
  pub top : shape.level root ≡ 4

-- The `n` pages from `pos` on have pages of their own, which were free before: `frame` is the
-- physical page of a virtual one. The other addresses below 2^48 are translated as before, locked
-- pages stay locked, and no more than four pages were taken for each.
pub record IsBacked (root : ℕ) (s : Pfa) (pos n : ℕ) (s' : Pfa) : Type 0 where
  pub paged : IsPaged root s'
  pub frame : ℕ → ℕ
  pub here :
      (v : ℕ)
      → pos ≤ v
      → v < pos + n * 4096
      → walk 4 s'.mem root v ≡ some (frame (v / 4096) * 4096 + v % 4096)
  pub fresh :
      (v : ℕ)
      → pos ≤ v
      → v < pos + n * 4096
      → (frame (v / 4096) < page_bound s) × (locked s (frame (v / 4096)) ≡ false)
  pub owned : (v : ℕ) → pos ≤ v → v < pos + n * 4096 → locked s' (frame (v / 4096)) ≡ true
  pub apart :
      (v w : ℕ)
      → pos ≤ v
      → v < pos + n * 4096
      → pos ≤ w
      → w < pos + n * 4096
      → v / 4096 ≢ w / 4096
      → frame (v / 4096) ≢ frame (w / 4096)
  pub others :
      (w : ℕ)
      → w < 2 ^ 48
      → (w < pos) ⊎ (pos + n * 4096 ≤ w)
      → walk 4 s'.mem root w ≡ walk 4 s.mem root w
  pub left : room s ≤ room s' + 4 * n
  pub bound : page_bound s' ≡ page_bound s
  pub keeps : (j : ℕ) → j < page_bound s → locked s j ≡ true → locked s' j ≡ true

module _ (root : ℕ) where
  -- A requested page, mapped at `v`: the outcome
  record Placed (s : Pfa) (v n : ℕ) (s' : Pfa) : Type 0 where
    maps : map_memory (ptm_create root) (request_page s).1 v (request_page s).0 ≡ some s'
    paged : IsPaged root s'
    inside : n < page_bound s
    was_free : locked s n ≡ false
    taken : locked s' n ≡ true
    translates : walk 4 s'.mem root v ≡ some (n * 4096 + v % 4096)
    others : (w : ℕ) → w < 2 ^ 48 → w / 4096 ≢ v / 4096 → walk 4 s'.mem root w ≡ walk 4 s.mem root w
    left : room s ≤ room s' + 4
    bound : page_bound s' ≡ page_bound s
    keeps : (j : ℕ) → j < page_bound s → locked s j ≡ true → locked s' j ≡ true

  place :
      (s : Pfa) (v : ℕ)
      → IsPaged root s
      → v < 2 ^ 48
      → 4 ≤ room s
      → (n : ℕ) × (s' : Pfa) × Placed s v n s'
  place s v p low enough =
      let (n, granted) = request_page-Granted s p.ready (omega arith) in
      let out = request_page s in
      let bound = granted-bound s out n p.ready granted in
      let count = granted-room s out n p.ready granted in
      let small : out.0 < 2 ^ 52 = omega (arith, granted.address, granted.inside, p.ready.sized) in
      let (g', s', eq, m) =
        map_memory-maps p.shape out.1 root v out.0
          (granted-IsTree s out n p.ready granted p.shape p.tree)
          (granted-IsReady s out n p.ready granted) p.top small (omega (arith, count, enough)) in
      let page : out.0 / 4096 * 4096 ≡ n * 4096 = omega (arith, granted.address) in
      (
        n,
        s',
        record {
          maps = eq;
          paged = record { shape = g'; tree = m.tree; ready = m.ready; top = m.top };
          inside = granted.inside;
          was_free = granted.was_free;
          taken = m.keeps n (omega (arith, bound, granted.inside)) (ground (arith, granted.bits n));
          translates = m.translates ∙ ap (λ x. some (x + v % 4096)) page;
          others = λ w small' other.
              m.others w (λ q. other (omega arith))
              ∙ granted-walk s out n p.ready granted p.shape p.tree 4 root w p.top;
          left = omega (arith, count, m.left);
          bound = m.bound ∙ bound;
          keeps = λ j h on. m.keeps j (omega (arith, bound)) (ground (arith, granted.bits j, on));
        },
      )

  -- The outcome of the loop
  abbrev pub Backs : Pfa → (pos n : ℕ) → Option (ℕ × Pfa) → Type 0
  Backs s pos n result =
      (s' : Pfa) × (result ≡ some (pos + n * 4096, s')) × IsBacked root s pos n s'

  loop_step :
      (s s1 : Pfa) (pos n : ℕ)
      → map_memory (ptm_create root) (request_page s).1 pos (request_page s).0 ≡ some s1
      → (pos + 4096) % 2 ^ 64 ≡ pos + 4096
      → map_pages (ptm_create root) s pos (suc n) ≡ map_pages (ptm_create root) s1 (pos + 4096) n
  unfolding map_pages
  loop_step s s1 pos n maps next = rw (maps, next) refl

  module _ (s s1 s' : Pfa) (pos n f : ℕ) (aligned : pos % 4096 ≡ 0) (p : Placed s pos f s1)
      (small : pos + suc n * 4096 ≤ 2 ^ 48) (rest : IsBacked root s1 (pos + 4096) n s') where
    abbrev frame' : ℕ → ℕ
    frame' = update rest.frame (pos / 4096) f

    -- An address of the range lies in the first page or behind it.
    which :
        (v : ℕ)
        → pos ≤ v
        → v < pos + suc n * 4096
        → ((v / 4096 ≡ pos / 4096) × (frame' (v / 4096) ≡ f))
          ⊎ ((pos + 4096 ≤ v)
              × (v < pos + 4096 + n * 4096)
              × (frame' (v / 4096) ≡ rest.frame (v / 4096)))
    which v lo hi = elim (Bool-cases (ltb v (pos + 4096))) [
      | inl page ↦
          let lt : v < pos + 4096 = ground (arith, page) in
          let same : v / 4096 ≡ pos / 4096 = omega arith in inl (same, ground (arith, same))
      | inr later ↦
          let ge : pos + 4096 ≤ v = ground (arith, later) in
          let other : pos / 4096 < v / 4096 = omega arith in
          inr (ge, omega arith, ground (arith, other))
    ]

    -- The pages that were free after the first was taken, were free before, and are other pages.
    rest_fresh :
        (v : ℕ)
        → pos + 4096 ≤ v
        → v < pos + 4096 + n * 4096
        → (rest.frame (v / 4096) < page_bound s)
          × (locked s (rest.frame (v / 4096)) ≡ false)
          × (f ≢ rest.frame (v / 4096))
    rest_fresh v lo hi =
        let (inside, free) = rest.fresh v lo hi in
        let inside' : rest.frame (v / 4096) < page_bound s = omega (arith, inside, p.bound) in
        (
          inside',
          ground (arith, p.keeps (rest.frame (v / 4096)) inside', free),
          λ q. absurd (cc (p.taken, free, ap (locked s1) q)),
        )

    IsBacked-more : IsBacked root s pos (suc n) s'
    IsBacked-more = record {
      paged = rest.paged;
      frame = frame';
      here = λ v lo hi. elim (which v lo hi) [
        | inl (same, e) ↦
            rest.others v (omega arith) (inl (omega (arith, same, aligned)))
            ∙ walk-same_page 4 s1.mem root pos v (f * 4096) (sym same) p.translates
            ∙ ap (λ x. some (x * 4096 + v % 4096)) (sym e)
        | inr (ge, lt, e) ↦ rest.here v ge lt ∙ ap (λ x. some (x * 4096 + v % 4096)) (sym e)
      ];
      fresh = λ v lo hi. elim (which v lo hi) [
        | inl (same, e) ↦ rw e (p.inside, p.was_free)
        | inr (ge, lt, e) ↦ rw e (let r = rest_fresh v ge lt in (r.0, r.1))
      ];
      owned = λ v lo hi. elim (which v lo hi) [
        | inl (same, e) ↦ rw e (rest.keeps f (omega (arith, p.bound, p.inside)) p.taken)
        | inr (ge, lt, e) ↦ rw e (rest.owned v ge lt)
      ];
      apart = λ v w lo hi lo' hi' other. elim (which v lo hi) [
        | inl (same, e) ↦ elim (which w lo' hi') [
          | inl (same', e') ↦ absurd (other (same ∙ sym same'))
          | inr (ge', lt', e') ↦ rw (e, e') (rest_fresh w ge' lt').2
        ]
        | inr (ge, lt, e) ↦ elim (which w lo' hi') [
          | inl (same', e') ↦ rw (e, e') (λ q. (rest_fresh v ge lt).2 (sym q))
          | inr (ge', lt', e') ↦ rw (e, e') (rest.apart v w ge lt ge' lt' other)
        ]
      ];
      others = λ w below out.
          rest.others w below (omega arith)
          ∙ p.others w below (λ q. absurd (omega (arith, aligned, out)));
      left = omega (arith, p.left, rest.left);
      bound = rest.bound ∙ p.bound;
      keeps = λ j h on. rest.keeps j (omega (arith, p.bound)) (p.keeps j h on);
    }

  -- Where the page tables and the allocator work together, the range begins at a page and lies
  -- below 2^48, and four pages are left for each of its pages, the loop comes to its end.
  pub map_pages-Backs :
      (s : Pfa) (pos n : ℕ)
      → IsPaged root s
      → pos % 4096 ≡ 0
      → pos + n * 4096 ≤ 2 ^ 48
      → 4 * n ≤ room s
      → Backs s pos n (map_pages (ptm_create root) s pos n)
  unfolding map_pages
  map_pages-Backs s pos zero paged aligned small enough =
      let none_more : pos ≡ pos + zero * 4096 = omega arith in
      (
        s,
        ap (λ x. some (x, s)) none_more,
        record {
          paged = paged;
          frame = λ v. 0;
          here = λ v lo hi. absurd (omega arith);
          fresh = λ v lo hi. absurd (omega arith);
          owned = λ v lo hi. absurd (omega arith);
          apart = λ v w lo hi. absurd (omega arith);
          others = λ w below out. refl;
          left = omega arith;
          bound = refl;
          keeps = λ j h on. on;
        },
      )
  map_pages-Backs s pos (suc n) paged aligned small enough =
      let (f, s1, p) = place s pos paged (omega arith) (omega arith) in
      let (s', eq, rest) =
        map_pages-Backs s1 (pos + 4096) n p.paged (omega arith) (omega arith)
          (omega (arith, p.left)) in
      let there : pos + 4096 + n * 4096 ≡ pos + suc n * 4096 = omega arith in
      (
        s',
        loop_step s s1 pos n p.maps (omega arith) ∙ eq ∙ ap (λ x. some (x, s')) there,
        IsBacked-more s s1 s' pos n f aligned p small rest,
      )
