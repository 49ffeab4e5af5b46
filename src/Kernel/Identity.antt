-- ===== src/Kernel/Identity.antt =====
-- The loops of InitializeMemory (rizzos/src/kernel.c) that map memory to itself.
use rizzos.Base.{
  ℕ, zero, suc, ◌+◌, ◌*◌, ◌/◌, ◌%◌, ◌^◌, ◌≤◌, ◌<◌, ◌≡◌, refl, ◌∙◌, ap, ◌⊎◌, inl, inr, ◌==◌, ltb,
  Option, some, if◌then◌else◌, arith, Bool-cases,
}
use rizzos.PageFrame.{Pfa}
use rizzos.Paging.Mapper.{ptm_create, map_memory}
use rizzos.Paging.Mapper.Map.{Mapped, map_memory-maps, map_memory-again}
use rizzos.Paging.Tree.{Shape, IsTree, IsReady, room}
use rizzos.Paging.Tree.Path.{walk-same_page, arrive-same_region}
use rizzos.Paging.Walk.{walk, arrive}
use rizzos.Kernel.{identity_loop}

-- The pages that tables may take for the `n` pages from `i` on: three where a region of 512
-- pages begins.
unfoldable pub costs : (i : ℕ) → (n : ℕ) → ℕ
costs i zero = 0
costs i (suc n) = (if i % 2 ^ 21 == 0 then 3 else 0) + costs (i + 4096) n

costs-sum :
    (i n : ℕ)
    → i % 4096 ≡ 0
    → costs i n + 3 * ((i / 4096 + 511) / 512) ≡ 3 * ((i / 4096 + n + 511) / 512)
unfolding costs
costs-sum i zero aligned = omega arith
costs-sum i (suc n) aligned =
    let rest = costs-sum (i + 4096) n (omega arith) in
    elim (Bool-cases (i % 2 ^ 21 == 0)) [
      | inl first ↦ let e : i % 2 ^ 21 ≡ 0 = ground arith in rw first (omega (arith, rest))
      | inr other ↦ let e : 0 < i % 2 ^ 21 = ground arith in rw other (omega (arith, rest))
    ]

module _ (root : ℕ) where
  -- The `n` pages from `i` on are mapped to themselves; the other addresses below 2^48 are
  -- translated as before; at most `cost` pages were taken.
  pub record IsIdentity (s : Pfa) (i n cost : ℕ) (g' : Shape) (s' : Pfa) : Type 0 where
    pub tree : IsTree g' s'
    pub ready : IsReady s'
    pub top : g'.level root ≡ 4
    pub here : (v : ℕ) → i ≤ v → v < i + n * 4096 → walk 4 s'.mem root v ≡ some v
    pub others :
        (w : ℕ)
        → w < 2 ^ 48
        → (w < i) ⊎ (i + n * 4096 ≤ w)
        → walk 4 s'.mem root w ≡ walk 4 s.mem root w
    pub left : room s ≤ room s' + cost

  -- The page begins a region, or the last table for it is there.
  abbrev Begun : Pfa → ℕ → Type 0
  Begun s i = (i % 2 ^ 21 ≡ 0) ⊎ ((t : ℕ) × (arrive 3 s.mem root i ≡ some t))

  -- The outcome of one round
  abbrev Round : Shape → Pfa → (i cost : ℕ) → Type 0
  Round g s i cost =
      (g' : Shape) × (s' : Pfa) × (map_memory (ptm_create root) s i i ≡ some s')
      × Mapped g s root i i g' s'
      × (room s ≤ room s' + cost)

  module _ (g : Shape) (s : Pfa) (i : ℕ) (tree : IsTree g s) (ready : IsReady s)
      (top : g.level root ≡ 4) (small : i + 4096 ≤ 2 ^ 48) where
    one_new : 3 ≤ room s → Round g s i 3
    one_new enough =
        let (g', s', eq, m) = map_memory-maps g s root i i tree ready top (omega arith) enough in
        (g', s', eq, m, m.left)

    one_again : (t : ℕ) → arrive 3 s.mem root i ≡ some t → Round g s i 0
    one_again t there =
        let (s', eq, m, left) =
          map_memory-again g s root i i tree ready top t there (omega arith) in
        (g, s', eq, m, omega (arith, left))

    round :
        (rest : ℕ)
        → Begun s i
        → (if i % 2 ^ 21 == 0 then 3 else 0) + rest ≤ room s
        → Round g s i (if i % 2 ^ 21 == 0 then 3 else 0)
    round rest begun enough = elim (Bool-cases (i % 2 ^ 21 == 0)) [
      | inl first ↦ rw first (one_new (ground (arith, first, enough)))
      | inr other ↦ rw other (elim begun [
        | inl start ↦ absurd (ground (arith, start, other))
        | inr (t, there) ↦ one_again t there
      ])
    ]

  Begun-next :
      (g g1 : Shape) (s s1 : Pfa) (i : ℕ)
      → i % 4096 ≡ 0
      → Mapped g s root i i g1 s1
      → Begun s1 (i + 4096)
  Begun-next g g1 s s1 i aligned m = elim (Bool-cases ((i + 4096) % 2 ^ 21 == 0)) [
    | inl first ↦ inl (ground arith)
    | inr other ↦
        let inside : 0 < (i + 4096) % 2 ^ 21 = ground (arith, other) in
        let same : (i + 4096) / 2 ^ 21 ≡ i / 2 ^ 21 = omega arith in
        inr (m.entered.0, arrive-same_region s1.mem root (i + 4096) i same ∙ m.entered.1)
  ]

  -- The outcome of the loop
  abbrev pub Maps : Pfa → (i n cost : ℕ) → Option Pfa → Type 0
  Maps s i n cost result =
      (g' : Shape) × (s' : Pfa) × (result ≡ some s') × IsIdentity s i n cost g' s'

  loop_step :
      (s s1 : Pfa) (i n : ℕ)
      → map_memory (ptm_create root) s i i ≡ some s1
      → (i + 4096) % 2 ^ 64 ≡ i + 4096
      → identity_loop (ptm_create root) s i (suc n)
        ≡ identity_loop (ptm_create root) s1 (i + 4096) n
  unfolding identity_loop
  loop_step s s1 i n mapped next = rw (mapped, next) refl

  -- A round, and then the others
  module _ (g : Shape) (s : Pfa) (i n cost left : ℕ) (aligned : i % 4096 ≡ 0)
      (small : i + suc n * 4096 ≤ 2 ^ 48) where
    IsIdentity-step :
        (g1 g' : Shape) (s1 s' : Pfa)
        → Mapped g s root i i g1 s1
        → room s ≤ room s1 + cost
        → IsIdentity s1 (i + 4096) n left g' s'
        → IsIdentity s i (suc n) (cost + left) g' s'
    IsIdentity-step g1 g' s1 s' m taken rest = record {
      tree = rest.tree;
      ready = rest.ready;
      top = rest.top;
      here = λ v lo hi. elim (Bool-cases (ltb v (i + 4096))) [
        | inl page ↦
            let page' : v < i + 4096 = ground (arith, page) in
            rest.others v (omega arith) (inl page')
            ∙ walk-same_page 4 s1.mem root i v (i / 4096 * 4096) (omega arith) m.translates
            ∙ ap some (omega arith)
        | inr later ↦ rest.here v (ground (arith, later)) (omega arith)
      ];
      others = λ w below out. rest.others w below (omega arith) ∙ m.others w (omega arith);
      left = omega (arith, taken, rest.left);
    }

    Maps-step :
        (first : Round g s i cost)
        → Maps first.1 (i + 4096) n left (identity_loop (ptm_create root) first.1 (i + 4096) n)
        → Maps s i (suc n) (cost + left) (identity_loop (ptm_create root) s i (suc n))
    Maps-step (g1, s1, eq, m, taken) (g', s', eq', rest) = (
      g',
      s',
      loop_step s s1 i n eq (omega arith) ∙ eq',
      IsIdentity-step g1 g' s1 s' m taken rest,
    )

  Maps-none :
      (g : Shape) (s : Pfa) (i cost : ℕ)
      → IsTree g s
      → IsReady s
      → g.level root ≡ 4
      → Maps s i zero cost (identity_loop (ptm_create root) s i zero)
  unfolding identity_loop
  Maps-none g s i cost tree ready top = (
    g,
    s,
    refl,
    record {
      tree = tree;
      ready = ready;
      top = top;
      here = λ v lo hi. absurd (omega arith);
      others = λ w below out. refl;
      left = omega arith;
    },
  )

  Maps-more :
      (s : Pfa) (i n cost cost' : ℕ) (result : Option Pfa)
      → cost ≤ cost'
      → Maps s i n cost result
      → Maps s i n cost' result
  Maps-more s i n cost cost' result more (g', s', eq, m) = (
    g',
    s',
    eq,
    record {
      tree = m.tree;
      ready = m.ready;
      top = m.top;
      here = m.here;
      others = m.others;
      left = omega (arith, m.left, more);
    },
  )

  loop-Maps :
      (g : Shape) (s : Pfa) (i n : ℕ)
      → IsTree g s
      → IsReady s
      → g.level root ≡ 4
      → i % 4096 ≡ 0
      → i + n * 4096 ≤ 2 ^ 48
      → Begun s i
      → costs i n ≤ room s
      → Maps s i n (costs i n) (identity_loop (ptm_create root) s i n)
  unfolding identity_loop costs
  loop-Maps g s i zero tree ready top aligned small begun enough = Maps-none g s i 0 tree ready top
  loop-Maps g s i (suc n) tree ready top aligned small begun enough =
      let first = round g s i tree ready top (omega arith) (costs (i + 4096) n) begun enough in
      Maps-step g s i n _ (costs (i + 4096) n) aligned small first (
        loop-Maps first.0 first.1 (i + 4096) n first.3.tree first.3.ready first.3.top (omega arith)
          (omega arith) (Begun-next g first.0 s first.1 i aligned first.3)
          (omega (arith, first.4, enough)))

  -- If the page tables are a tree under the root, the allocator is ready, the range begins at a page
  -- and lies below 2^48, and three pages are left to request for every 512 pages and six more, then
  -- the loop of InitializeMemory comes to its end: every address of the range is translated to
  -- itself and every other address below 2^48 as before, the page tables are a tree and the
  -- allocator is ready again, and no more than those pages were taken.
  pub identity_loop-Maps :
      (g : Shape) (s : Pfa) (i n : ℕ)
      → IsTree g s
      → IsReady s
      → g.level root ≡ 4
      → i % 4096 ≡ 0
      → i + n * 4096 ≤ 2 ^ 48
      → 3 * (n / 512 + 2) ≤ room s
      → Maps s i n (3 * (n / 512 + 2)) (identity_loop (ptm_create root) s i n)
  identity_loop-Maps g s i zero tree ready top aligned small enough =
      Maps-none g s i 6 tree ready top
  identity_loop-Maps g s i (suc n) tree ready top aligned small enough =
      let count = costs-sum (i + 4096) n (omega arith) in
      let few : 3 + costs (i + 4096) n ≤ 3 * (suc n / 512 + 2) = omega (arith, count) in
      let first = one_new g s i tree ready top (omega arith) (omega arith) in
      Maps-more s i (suc n) _ _ _ few (
        Maps-step g s i n 3 (costs (i + 4096) n) aligned small first (
          loop-Maps first.0 first.1 (i + 4096) n first.3.tree first.3.ready first.3.top
            (omega arith) (omega arith) (Begun-next g first.0 s first.1 i aligned first.3)
            (omega (arith, first.4, enough, few))))
