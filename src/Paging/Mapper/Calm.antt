-- ===== src/Paging/Mapper/Calm.antt =====
-- Writes that leave the tree of rizzos/src/paging/page_table_manager.c alone: those to page 0 and
-- those to a table of the last level.
use rizzos.Base.{
  ℕ, zero, suc, ◌+◌, ◌*◌, ◌/◌, ◌%◌, ◌≤◌, ◌<◌, ◌≡◌, refl, sym, ◌∙◌, ap, ◌⊎◌, inl, inr, ◌≢◌,
  Bool-cases, arith,
}
use rizzos.Base.Bits.{test_bit}
use rizzos.Bitmap.Laws.{get-test_bit}
use rizzos.Memory.{Mem, write64}
use rizzos.Memory.Words.{read64-agree, read64-write_bytes, write_bytes-outside}
use rizzos.PageFrame.{Pfa, locked, page_bound}
use rizzos.PageFrame.Accounting.{count_clear-agree}
use rizzos.Paging.Mapper.Alloc.{slots_apart}
use rizzos.Paging.Tree.{Shape, IsTree, IsReady, room}
use rizzos.Paging.Walk.{entry, is_present, table_index, walk, arrive}

abbrev pub with_mem : Pfa → Mem → Pfa
with_mem s m = record s { mem = m }

-- The locks of the pages and the entries above the last level are as before.
pub record Calm (g : Shape) (s : Pfa) (m : Mem) : Type 0 where
  pub locks : (j : ℕ) → j < page_bound s → locked (with_mem s m) j ≡ locked s j
  pub entries : (t i : ℕ) → 1 < g.level t → i < 512 → entry m t i ≡ entry s.mem t i

module _ (g : Shape) (s : Pfa) (m : Mem) (tree : IsTree g s) (ready : IsReady s)
    (calm : Calm g s m) where
  pub calm-IsTree : IsTree g (with_mem s m)
  calm-IsTree = record {
    aligned = tree.aligned;
    above = tree.above;
    used = λ t h. calm.locks (t / 4096) (tree.known t h) ∙ tree.used t h;
    known = tree.known;
    apart = tree.apart;
    child = λ t i h small on.
        rw (calm.entries t i h small)
          (tree.child t i h small (rw (calm.entries t i h small) at on));
  }

  bound_pos : 0 < page_bound s
  bound_pos = omega (arith, (ready.home s.page_bitmap.buffer (omega arith) (omega arith)).1)

  pub calm-IsReady : IsReady (with_mem s m)
  calm-IsReady = record {
    sized = ready.sized;
    lowest = λ j h. calm.locks j (omega (arith, ready.position)) ∙ ready.lowest j h;
    position = ready.position;
    first = calm.locks 0 bound_pos ∙ ready.first;
    beyond = ready.beyond;
    home = λ x p q.
        (calm.locks (x / 4096) (ready.home x p q).1 ∙ (ready.home x p q).0, (ready.home x p q).1);
  }

  pub calm-room : room (with_mem s m) ≡ room s
  unfolding room
  calm-room = count_clear-agree (locked (with_mem s m)) (locked s) (page_bound s) calm.locks

  pub calm-arrive : (k a v : ℕ) → g.level a ≡ suc k → arrive k m a v ≡ arrive k s.mem a v
  unfolding arrive
  calm-arrive zero a v h = refl
  calm-arrive (suc k) a v h =
      rw (calm.entries a (table_index (suc k) v) (omega arith) (omega arith))
        (elim (Bool-cases (is_present (entry s.mem a (table_index (suc k) v)))) [
          | inr off ↦ rw off
          | inl on ↦ rw on (
              calm-arrive k _ v (
                omega
                  (arith, (tree.child a (table_index (suc k) v) (omega arith) (omega arith) on).0)))
        ])

-- Writes below page 1.
module _ (g : Shape) (s : Pfa) (m : Mem) (tree : IsTree g s) (ready : IsReady s)
    (low : (x : ℕ) → 4096 ≤ x → m x ≡ s.mem x) where
  low_entry : (t i : ℕ) → 0 < g.level t → entry m t i ≡ entry s.mem t i
  low_entry t i h =
      let up = tree.above t h in read64-agree s.mem m (t + i * 8) (λ x p q. low x (omega arith))

  pub low-Calm : Calm g s m
  low-Calm = record {
    locks = λ j h.
        get-test_bit m s.page_bitmap j
        ∙ ap (λ y. test_bit y (j % 8))
            (low (s.page_bitmap.buffer + j / 8) (omega (arith, ready.beyond)))
        ∙ sym (get-test_bit s.mem s.page_bitmap j);
    entries = λ t i h small. low_entry t i (omega arith);
  }

  pub low-walk : (k a v : ℕ) → g.level a ≡ k → walk k m a v ≡ walk k s.mem a v
  unfolding walk
  low-walk zero a v h = refl
  low-walk (suc zero) a v h = rw (low_entry a (table_index 0 v) (omega arith))
  low-walk (suc (suc k)) a v h =
      rw (low_entry a (table_index (suc k) v) (omega arith))
        (elim (Bool-cases (is_present (entry s.mem a (table_index (suc k) v)))) [
          | inr off ↦ rw off
          | inl on ↦ rw on (
              low-walk (suc k) _ v (
                omega
                  (arith, (tree.child a (table_index (suc k) v) (omega arith) (omega arith) on).0)))
        ])

-- A write to entry `i` of a table of the last level.
module _ (g : Shape) (s : Pfa) (t i e : ℕ) (tree : IsTree g s) (ready : IsReady s)
    (last : g.level t ≡ 1) (in_table : i < 512) where
  pub entry-last :
      (a k : ℕ)
      → 0 < g.level a
      → k < 512
      → (a ≢ t) ⊎ (k ≢ i)
      → entry (write64 s.mem (t + i * 8) e) a k ≡ entry s.mem a k
  entry-last a k h small other =
      read64-write_bytes 8 s.mem (t + i * 8) e (a + k * 8)
        (slots_apart a k t i (tree.aligned a h) (tree.aligned t (omega arith)) small in_table other)

  pub last-Calm : Calm g s (write64 s.mem (t + i * 8) e)
  last-Calm = record {
    locks = λ j h.
        let x = s.page_bitmap.buffer + j / 8 in
        let off_table : (x < t) ⊎ (t + 4096 ≤ x) =
          ground (arith, tree.apart t x (omega arith), ready.sized) in
        get-test_bit (write64 s.mem (t + i * 8) e) s.page_bitmap j
        ∙ ap (λ y. test_bit y (j % 8)) (write_bytes-outside 8 s.mem (t + i * 8) e x (omega arith))
        ∙ sym (get-test_bit s.mem s.page_bitmap j);
    entries = λ a k h small.
        entry-last a k (omega arith) small (inl (λ q. absurd (omega (arith, ap g.level q))));
  }
