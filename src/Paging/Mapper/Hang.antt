-- ===== src/Paging/Mapper/Hang.antt =====
-- A new table hung into the tree of rizzos/src/paging/page_table_manager.c: the translations are
-- as before, and the tables still form a tree.
use rizzos.Base.{
  ℕ, zero, suc, ◌+◌, ◌*◌, ◌/◌, ◌%◌, ◌^◌, ◌≤◌, ◌<◌, ◌≡◌, ◌≢◌, refl, ap, ◌⊎◌, inl, inr, true, false,
  ◌==◌, none, some, update, Bool-cases, arith,
}
use native.Mathlib.Decide.{ℕ_discrete}
use rizzos.Base.Bits.{test_bit_zero}
use rizzos.Bitmap.{Bitmap}
use rizzos.PageFrame.{Pfa, locked, page_bound}
use rizzos.PageFrame.Accounting.{count_clear-set}
use rizzos.Paging.Tree.{Shape, IsTree, IsReady, hang, room}
use rizzos.Paging.Walk.{entry, is_present, target, table_index, walk, arrive}
use rizzos.Paging.Mapper.Alloc.{hung, Hanging, Hung}

module _ (g : Shape) (s : Pfa) (out : ℕ × Pfa) (n t i l e : ℕ) (hanging : Hanging g s out n t i l e)
    (facts : Hung g s out n t i e) where
  open hanging use {tree, ready, granted, upper, in_table, empty, shown, points}
  open facts use {
    not_table, not_bitmap, new_page, locked_after, entry_old, entry_new, entry_slot, shape_after,
  }

  abbrev f : ℕ
  f = n * 4096

  abbrev after : Pfa
  after = hung out.1 f t i e

  -- An entry is the one written, or another.
  which : (a k : ℕ) → ((a ≡ t) × (k ≡ i)) ⊎ ((a ≢ t) ⊎ (k ≢ i))
  which a k = elim (ℕ_discrete a t) [
    | no ne ↦ inr (inl ne)
    | yes eq ↦ elim (ℕ_discrete k i) [ yes eq' ↦ inl (eq, eq') | no ne ↦ inr (inr ne) ]
  ]

  walk_new : (k v : ℕ) → walk (suc k) after.mem f v ≡ none
  unfolding walk
  walk_new k v = rw (entry_new (table_index k v) (omega arith), test_bit_zero 0)

  written : (a k : ℕ) → a ≡ t → k ≡ i → entry after.mem a k ≡ e % 2 ^ 64
  written a k p q = rw (p, q) entry_slot

  unwritten : (a k : ℕ) → a ≡ t → k ≡ i → is_present (entry s.mem a k) ≡ false
  unwritten a k p q = rw (p, q) empty

  -- No translation changes: the new table is empty, and its entry pointed nowhere.
  pub walk-hung : (k a v : ℕ) → g.level a ≡ k → walk k after.mem a v ≡ walk k s.mem a v
  unfolding walk
  walk-hung zero a v h = refl
  walk-hung (suc zero) a v h =
      let other : a ≢ t = λ q. absurd (omega (arith, ap g.level q)) in
      rw (entry_old a (table_index 0 v) (omega arith) (omega arith) (inl other))
  walk-hung (suc (suc k)) a v h = elim (which a (table_index (suc k) v)) [
    | inl (p, q) ↦
        rw (written a (table_index (suc k) v) p q, shown, points, unwritten a _ p q) (walk_new k v)
    | inr other ↦
        rw (entry_old a (table_index (suc k) v) (omega arith) (omega arith) other)
          (elim (Bool-cases (is_present (entry s.mem a (table_index (suc k) v)))) [
            | inr off ↦ rw off
            | inl on ↦ rw on (
                walk-hung (suc k) _ v (
                  omega (
                    arith,
                    (tree.child a (table_index (suc k) v) (omega arith) (omega arith) on).0,
                  )))
          ])
  ]

  -- A table that was reached is still reached.
  pub arrive-hung :
      (k a v p : ℕ) → k < g.level a → arrive k s.mem a v ≡ some p → arrive k after.mem a v ≡ some p
  unfolding arrive
  arrive-hung zero a v p h r = r
  arrive-hung (suc k) a v p h r =
      elim (Bool-cases (is_present (entry s.mem a (table_index (suc k) v)))) [
        | inr off ↦ cc (rw off at r)
        | inl on ↦ elim (which a (table_index (suc k) v)) [
          | inl (q, q') ↦ cc (unwritten a _ q q', on)
          | inr other ↦
              rw (entry_old a (table_index (suc k) v) (omega arith) (omega arith) other, on)
                (arrive-hung k _ v p
                  (omega (arith, (tree.child a _ (omega arith) (omega arith) on).0)) (rw on at r))
        ]
      ]

  bound_after : page_bound after ≡ page_bound s
  bound_after = ap (λ (b : Bitmap). b.size * 8 % 2 ^ 64) shape_after

  target_known : (a k : ℕ) → a ≡ t → k ≡ i → target (entry after.mem a k) ≡ f
  target_known a k p q = rw (written a k p q) points

  child-hung :
      (a k : ℕ)
      → 1 < update g.level f (suc l) a
      → k < 512
      → is_present (entry after.mem a k) ≡ true
      → (suc (update g.level f (suc l) (target (entry after.mem a k))) ≡ update g.level f (suc l) a)
        × (update g.parent f t (target (entry after.mem a k)) ≡ a)
        × (update g.slot f i (target (entry after.mem a k)) ≡ k)
  child-hung a k h small p = elim (Bool-cases (f == a)) [
    | inl new ↦
        let here : f ≡ a = ground arith in
        let none_there : is_present (entry after.mem a k) ≡ false =
          rw (← here, entry_new k small) (test_bit_zero 0) in
        cc (none_there, p)
    | inr old ↦ elim (which a k) [
      | inl (q, q') ↦ rw (target_known a k q q') (ground (arith, ap g.level q))
      | inr other ↦
          let up : 1 < g.level a = ground arith in
          let e1 = entry_old a k (ground arith) small other in
          let on : is_present (entry s.mem a k) ≡ true = rw (← e1) p in
          let below = tree.child a k up small on in
          let far = not_table (target (entry s.mem a k)) (omega (arith, below.0)) in
          rw e1 (ground (arith, below, far))
    ]
  ]

  -- The tables, with the new one, still form a tree.
  pub IsTree-hung : IsTree (hang g f (suc l) t i) after
  IsTree-hung = record {
    aligned = λ a h. ground (arith, tree.aligned a);
    above = λ a h. ground (arith, tree.above a, new_page);
    used =
        λ a h. ground (arith, locked_after (a / 4096), tree.used a, tree.known a, granted.inside);
    known = λ a h. ground (arith, tree.known a, bound_after, granted.inside);
    apart = λ a x h p q. rw shape_after (ground (arith, not_bitmap x, tree.apart a x));
    child = child-hung;
  }

  -- The allocator stays ready.
  pub IsReady-hung : after.last_reserved_page ≡ n → IsReady after
  IsReady-hung last = record {
    sized = rw shape_after ready.sized;
    lowest = λ j p. ground (arith, locked_after j, granted.lowest j, granted.inside);
    position = omega (arith, bound_after, granted.inside);
    first = ground (arith, locked_after 0, ready.first, granted.inside);
    beyond = rw shape_after ready.beyond;
    home = λ x p q.
        let p' : s.page_bitmap.buffer ≤ x = rw shape_after at p in
        let q' : x ≤ s.page_bitmap.buffer + s.page_bitmap.size = rw shape_after at q in
        ground (arith, ready.home x p' q', locked_after (x / 4096), bound_after);
  }

  -- One page less is left.
  pub room-hung : room after + 1 ≡ room s
  unfolding room
  room-hung = rw bound_after (
      count_clear-set (locked s) (locked after) n (page_bound s) granted.inside granted.was_free
        (λ j p. ground (arith, locked_after j p)))
