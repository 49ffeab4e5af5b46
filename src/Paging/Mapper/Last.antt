-- ===== src/Paging/Mapper/Last.antt =====
-- The last write of `PTM_MapMemory` (rizzos/src/paging/page_table_manager.c): the page's own
-- entry.
use rizzos.Base.{
  ℕ, ◌+◌, ◌*◌, ◌/◌, ◌%◌, ◌^◌, ◌<◌, ◌≡◌, refl, sym, ◌∙◌, ap, ◌≢◌, ◌⊎◌, inl, inr, Option, none, some,
  arith,
}
use native.Mathlib.Decide.{ℕ_discrete}
use rizzos.Memory.{Mem, write64}
use rizzos.Memory.Words.{read64-write64_mod}
use rizzos.PageFrame.{Pfa}
use rizzos.Paging.Mapper.{point_to}
use rizzos.Paging.Mapper.Calm.{last-Calm, entry-last, calm-arrive}
use rizzos.Paging.Mapper.Step.{point_to-present, point_to-target, old_entry}
use rizzos.Paging.Tree.{Shape, IsTree, IsReady}
use rizzos.Paging.Tree.Path.{walk-arrive, walk-arrive-none, level-arrive, arrive_unique}
use rizzos.Paging.Walk.{entry, table_index, walk, arrive}

option_cases : (x : Option ℕ) → (x ≡ none) ⊎ ((u : ℕ) × (x ≡ some u))
option_cases none = inl refl
option_cases (some u) = inr (u, refl)

-- The last write, below a root from which the walk of `v` reaches the table `t`.
module _ (g : Shape) (s : Pfa) (root t v p : ℕ) (tree : IsTree g s) (ready : IsReady s)
    (top : g.level root ≡ 4) (reached : arrive 3 s.mem root v ≡ some t) (small : p < 2 ^ 52) where
  pub last : g.level t ≡ 1
  last = level-arrive g s tree 3 root v t top reached

  abbrev i : ℕ
  i = table_index 0 v

  abbrev e : ℕ
  e = (point_to (old_entry s t i) p).value

  abbrev m : Mem
  m = write64 s.mem (t + i * 8) e

  pub still : (w : ℕ) → arrive 3 m root w ≡ arrive 3 s.mem root w
  still w =
      calm-arrive g s m tree ready (last-Calm g s t i e tree ready last (omega arith)) 3 root w top

  pub mapped : walk 4 m root v ≡ some (p / 4096 * 4096 + v % 4096)
  unfolding walk
  mapped =
      let here : entry m t i ≡ e % 2 ^ 64 = read64-write64_mod s.mem (t + i * 8) e in
      walk-arrive 3 m root v (still v ∙ reached)
      ∙ rw (here, point_to-present (old_entry s t i) p, point_to-target (old_entry s t i) p small)

  elsewhere :
      (w u : ℕ)
      → arrive 3 s.mem root w ≡ some u
      → w / 4096 % 2 ^ 36 ≢ v / 4096 % 2 ^ 36
      → (u ≢ t) ⊎ (table_index 0 w ≢ i)
  elsewhere w u r other = elim (ℕ_discrete u t) [
    | no ne ↦ inl ne
    | yes eq ↦ inr (λ same.
        let both = arrive_unique g s tree 3 root root w v t top top (r ∙ ap some eq) reached in
        other (omega (arith, both.1)))
  ]

  pub others :
      (w : ℕ) → w / 4096 % 2 ^ 36 ≢ v / 4096 % 2 ^ 36 → walk 4 m root w ≡ walk 4 s.mem root w
  unfolding walk
  others w other = elim (option_cases (arrive 3 s.mem root w)) [
    | inl r ↦ walk-arrive-none 3 m root w (still w ∙ r) ∙ sym (walk-arrive-none 3 s.mem root w r)
    | inr (u, r) ↦
        let at_last = level-arrive g s tree 3 root w u top r in
        let same =
          entry-last g s t i e tree ready last (omega arith) u (table_index 0 w) (omega arith)
            (omega arith) (elsewhere w u r other) in
        (walk-arrive 3 m root w (still w ∙ r) ∙ (rw same) ∙ sym (walk-arrive 3 s.mem root w r))
  ]
