-- ===== src/Paging/Mapper/Map.antt =====
-- `PTM_MapMemory` (rizzos/src/paging/page_table_manager.c) maps the page that it is asked to map,
-- and no other.
use rizzos.Base.{
  ℕ, ◌+◌, ◌*◌, ◌/◌, ◌%◌, ◌^◌, ◌≤◌, ◌<◌, ◌≡◌, refl, ap, ◌∙◌, ◌≢◌, true, some, suc, inl, inr,
  Bool-cases, arith,
}
use rizzos.Memory.{Mem, read64}
use rizzos.Memory.Words.{read64-agree}
use rizzos.PageFrame.{Pfa, locked, page_bound}
use rizzos.Paging.Indexer.{create, create_fields, create-null}
use rizzos.Paging.Mapper.{ptm_create, next_table, set_page, map_memory}
use rizzos.Paging.Mapper.Calm.{
  with_mem, Calm, low-Calm, low-walk, last-Calm, calm-IsTree, calm-IsReady, calm-room, calm-arrive,
}
use rizzos.Paging.Mapper.Down.{Down, next_table-Down}
use rizzos.Paging.Mapper.Last.{mapped, others, still}
use rizzos.Paging.Mapper.Step.{next_table-there}
use rizzos.Paging.Tree.Path.{level-arrive}
use rizzos.Paging.Tree.{Shape, IsTree, IsReady, room}
use rizzos.Paging.Walk.{entry, is_present, target, table_index, walk, arrive}

-- The first step of a walk
arrive_first :
    (l : ℕ) (m : Mem) (a v t : ℕ)
    → arrive (suc l) m a v ≡ some t
    → (is_present (entry m a (table_index (suc l) v)) ≡ true)
      × (arrive l m (target (entry m a (table_index (suc l) v))) v ≡ some t)
unfolding arrive
arrive_first l m a v t r = elim (Bool-cases (is_present (entry m a (table_index (suc l) v)))) [
  | inr off ↦ cc (rw off at r)
  | inl on ↦ (on, rw on at r)
]

arrived : (m : Mem) (a v t : ℕ) → arrive 0 m a v ≡ some t → a ≡ t
unfolding arrive
arrived m a v t r = cc

-- The outcome of a mapping of the page of `v` to the page of `p`.
pub record Mapped (g : Shape) (s : Pfa) (root v p : ℕ) (g' : Shape) (s' : Pfa) : Type 0 where
  pub tree : IsTree g' s'
  pub ready : IsReady s'
  pub top : g'.level root ≡ 4
  pub translates : walk 4 s'.mem root v ≡ some (p / 4096 * 4096 + v % 4096)
  pub others :
      (w : ℕ) → w / 4096 % 2 ^ 36 ≢ v / 4096 % 2 ^ 36 → walk 4 s'.mem root w ≡ walk 4 s.mem root w
  pub left : room s ≤ room s' + 3
  pub entered : (t : ℕ) × (arrive 3 s'.mem root v ≡ some t)
  pub bound : page_bound s' ≡ page_bound s
  pub keeps : (j : ℕ) → j < page_bound s → locked s j ≡ true → locked s' j ≡ true

module _ (g : Shape) (s : Pfa) (root v p : ℕ) (tree : IsTree g s) (ready : IsReady s)
    (top : g.level root ≡ 4) where
  abbrev indexed : Pfa
  indexed = with_mem s (create s.mem v).0

  above : (x : ℕ) → 4096 ≤ x → indexed.mem x ≡ s.mem x
  above x h = (create-null s.mem v x).1 (omega arith)

  indexed-Calm : Calm g s indexed.mem
  indexed-Calm = low-Calm g s indexed.mem tree ready above

  start : Down indexed root v 0 3 g (root, indexed)
  unfolding arrive
  start = record {
    tree = calm-IsTree g s indexed.mem tree ready indexed-Calm;
    ready = calm-IsReady g s indexed.mem tree ready indexed-Calm;
    top = top;
    level = top;
    reached = refl;
    walks = λ w. refl;
    low_bytes = λ x h. refl;
    left = omega arith;
    bound = refl;
    keeps = λ j h on. on;
  }

  -- The structure at page 0 still has the indices.
  field_of :
      (m : Mem) (offset : ℕ)
      → ((x : ℕ) → x < 4096 → m x ≡ indexed.mem x)
      → offset ≤ 24
      → read64 m ((create s.mem v).1 + offset) ≡ read64 indexed.mem ((create s.mem v).1 + offset)
  field_of m offset low h =
      let null = (create-null s.mem v 0).0 in
      read64-agree indexed.mem m _ (λ x p q. low x (omega (arith, null)))

  -- The address of a field of the structure
  abbrev at : ℕ → ℕ
  at offset = (create s.mem v).1 + offset

  at_low : (offset : ℕ) → offset ≤ 24 → at offset + 8 ≤ 4096
  at_low offset h = let null = (create-null s.mem v 0).0 in omega (arith, null)

  -- The four steps, one after the other.
  four_steps :
      (d1 d2 d3 : ℕ × Pfa)
      → next_table indexed root (at 0) ≡ some d1
      → next_table d1.1 d1.0 (at 8) ≡ some d2
      → next_table d2.1 d2.0 (at 16) ≡ some d3
      → ((x : ℕ) → x < 4096 → d3.1.mem x ≡ indexed.mem x)
      → map_memory (ptm_create root) s v p ≡ some (set_page d3.1 d3.0 (table_index 0 v) p)
  unfolding map_memory ptm_create
  four_steps d1 d2 d3 e1 e2 e3 low3 =
      let fields = create_fields s.mem v in
      rw (e1, e2, e3, field_of d3.1.mem 24 low3 (omega arith) ∙ fields.0) refl

  module _ (small : p < 2 ^ 52) (g' : Shape) (out : ℕ × Pfa)
      (down : Down indexed root v 3 0 g' out) where
    reached : arrive 3 out.1.mem root v ≡ some out.0
    reached = let whole : v / 512 ^ 0 ≡ v = omega arith in rw whole at down.reached

    room-last : room (set_page out.1 out.0 (table_index 0 v) p) ≡ room out.1
    unfolding set_page
    room-last =
        let calm =
          last-Calm g' out.1 out.0 (table_index 0 v) _ down.tree down.ready down.level
            (omega arith) in
        calm-room g' out.1 _ down.tree down.ready calm

    Mapped-last : Mapped g s root v p g' (set_page out.1 out.0 (table_index 0 v) p)
    unfolding set_page
    Mapped-last =
        let at_last = down.level in
        let calm =
          last-Calm g' out.1 out.0 (table_index 0 v) _ down.tree down.ready at_last (omega arith) in
        record {
          tree = calm-IsTree g' out.1 _ down.tree down.ready calm;
          ready = calm-IsReady g' out.1 _ down.tree down.ready calm;
          top = down.top;
          translates = mapped g' out.1 root out.0 v p down.tree down.ready down.top reached small;
          others = λ w h.
              others g' out.1 root out.0 v p down.tree down.ready down.top reached small w h
              ∙ down.walks w
              ∙ low-walk g s indexed.mem tree ready above 4 root w top;
          left = omega (
            arith,
            down.left,
            calm-room g s indexed.mem tree ready indexed-Calm,
            calm-room g' out.1 _ down.tree down.ready calm,
          );
          entered = (
            out.0,
            still g' out.1 root out.0 v p down.tree down.ready down.top reached small v ∙ reached,
          );
          bound = down.bound;
          keeps = λ j h on.
              calm.locks j (omega (arith, down.bound))
              ∙ down.keeps j h (indexed-Calm.locks j h ∙ on);
        }

  -- With the page tables a tree, the allocator ready and three pages left to request, mapping the
  -- virtual address `v` to a physical address below 2^52 succeeds. Afterwards the processor
  -- translates `v` to its offset in the physical page, every address of another virtual page is
  -- translated as before, the page tables are a tree again, with a last table on the way of `v`,
  -- the allocator is ready, locked pages are still locked, and at most three pages were taken.
  pub map_memory-maps :
      p < 2 ^ 52
      → 3 ≤ room s
      → (g' : Shape) × (s' : Pfa) × (map_memory (ptm_create root) s v p ≡ some s')
        × Mapped g s root v p g' s'
  map_memory-maps small enough =
      let enough' : 3 ≤ room indexed =
        omega (arith, calm-room g s indexed.mem tree ready indexed-Calm) in
      let fields = create_fields s.mem v in
      let (d1, g1, e1, w1) =
        next_table-Down indexed root v enough' 0 2 (at 0) g (root, indexed) start (omega arith)
          (at_low 0 (omega arith)) fields.3 in
      let (d2, g2, e2, w2) =
        next_table-Down indexed root v enough' 1 1 (at 8) g1 d1 w1 (omega arith)
          (at_low 8 (omega arith)) fields.2 in
      let (d3, g3, e3, w3) =
        next_table-Down indexed root v enough' 2 0 (at 16) g2 d2 w2 (omega arith)
          (at_low 16 (omega arith)) fields.1 in
      (
        g3,
        set_page d3.1 d3.0 (table_index 0 v) p,
        four_steps d1 d2 d3 e1 e2 e3 w3.low_bytes,
        Mapped-last small g3 d3 w3,
      )

  -- Where the last table is there already.
  module _ (t : ℕ) (there : arrive 3 s.mem root v ≡ some t) where
    still_there : arrive 3 indexed.mem root v ≡ some t
    still_there = calm-arrive g s indexed.mem tree ready indexed-Calm 3 root v top ∙ there

    at_last : Down indexed root v 3 0 g (t, indexed)
    at_last = record {
      tree = start.tree;
      ready = start.ready;
      top = top;
      level = level-arrive g indexed start.tree 3 root v t top still_there;
      reached = let whole : v / 512 ^ 0 ≡ v = omega arith in rw whole still_there;
      walks = λ w. refl;
      low_bytes = λ x h. refl;
      left = omega arith;
      bound = refl;
      keeps = λ j h on. on;
    }

    -- Mapping the virtual address `v` to a physical address below 2^52 takes no page.
    pub map_memory-again :
        p < 2 ^ 52
        → (s' : Pfa) × (map_memory (ptm_create root) s v p ≡ some s')
          × Mapped g s root v p g s'
          × (room s ≤ room s')
    map_memory-again small =
        let (on3, r2) = arrive_first 2 indexed.mem root v t still_there in
        let t3 = target (entry indexed.mem root (table_index 3 v)) in
        let (on2, r1) = arrive_first 1 indexed.mem t3 v t r2 in
        let t2 = target (entry indexed.mem t3 (table_index 2 v)) in
        let (on1, r0) = arrive_first 0 indexed.mem t2 v t r1 in
        let t1 = target (entry indexed.mem t2 (table_index 1 v)) in
        let fields = create_fields s.mem v in
        let same : t1 ≡ t = arrived indexed.mem t1 v t r0 in
        let steps =
          four_steps (t3, indexed) (t2, indexed) (t1, indexed)
            (next_table-there indexed root (table_index 3 v) (at 0) fields.3 on3)
            (next_table-there indexed t3 (table_index 2 v) (at 8) fields.2 on2)
            (next_table-there indexed t2 (table_index 1 v) (at 16) fields.1 on1) (λ x h. refl) in
        (
          set_page indexed t (table_index 0 v) p,
          steps ∙ ap (λ x. some (set_page indexed x (table_index 0 v) p)) same,
          Mapped-last small g (t, indexed) at_last,
          omega (
            arith,
            room-last small g (t, indexed) at_last,
            calm-room g s indexed.mem tree ready indexed-Calm,
          ),
        )
