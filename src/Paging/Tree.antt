-- ===== src/Paging/Tree.antt =====
-- When the page tables of rizzos/src/paging/page_table_manager.c form a tree of four levels in
-- pages that the allocator keeps locked.
pub mod Path
pub mod Room
use rizzos.Base.{
  ℕ, zero, suc, ◌+◌, ◌*◌, ◌/◌, ◌%◌, ◌^◌, ◌≤◌, ◌<◌, ◌≡◌, ◌⊎◌, Bool, true, false, ◌==◌, if◌then◌else◌,
  update,
}
use rizzos.PageFrame.{Pfa, locked, page_bound}
use rizzos.PageFrame.Accounting.{count_clear}
use rizzos.PageFrame.Lowest.{IsLowest}
use rizzos.Paging.Walk.{entry, is_present, target}

-- The level of the table at an address (1 for the last, 4 for the root, 0 for no table), and the
-- table and the index of the entry that points to it.
pub record Shape : Type 0 where
  pub level : ℕ → ℕ
  pub parent : ℕ → ℕ
  pub slot : ℕ → ℕ

-- The tables of the state `s`, by their levels. A table is a whole page away from page 0 and
-- from the allocator's bitmap, locked and within reach of an entry's 40 bits; what a table above
-- the last level points to is a table one level down, pointed to from there alone.
pub record IsTree (g : Shape) (s : Pfa) : Type 0 where
  pub aligned : (t : ℕ) → 0 < g.level t → t % 4096 ≡ 0
  pub above : (t : ℕ) → 0 < g.level t → 4096 ≤ t
  pub used : (t : ℕ) → 0 < g.level t → locked s (t / 4096) ≡ true
  pub known : (t : ℕ) → 0 < g.level t → t / 4096 < page_bound s
  pub apart :
      (t x : ℕ)
      → 0 < g.level t
      → t ≤ x
      → x < t + 4096
      → (x < s.page_bitmap.buffer) ⊎ (s.page_bitmap.buffer + s.page_bitmap.size < x)
  pub child :
      (t i : ℕ)
      → 1 < g.level t
      → i < 512
      → is_present (entry s.mem t i) ≡ true
      → (suc (g.level (target (entry s.mem t i))) ≡ g.level t)
        × (g.parent (target (entry s.mem t i)) ≡ t)
        × (g.slot (target (entry s.mem t i)) ≡ i)

-- The allocator: its bitmap lies beyond page 0 in locked pages and has no bit beyond the 40 bits
-- of an entry's address, page 0 is locked, and every page below the search position is.
pub record IsReady (s : Pfa) : Type 0 where
  pub sized : s.page_bitmap.size * 8 ≤ 2 ^ 40
  pub lowest : IsLowest s
  pub position : s.last_reserved_page ≤ page_bound s
  pub first : locked s 0 ≡ true
  pub beyond : 4096 ≤ s.page_bitmap.buffer
  pub home :
      (x : ℕ)
      → s.page_bitmap.buffer ≤ x
      → x ≤ s.page_bitmap.buffer + s.page_bitmap.size
      → (locked s (x / 4096) ≡ true) × (x / 4096 < page_bound s)

-- How many pages are left to request.
unfoldable pub room : Pfa → ℕ
room s = count_clear (locked s) (page_bound s)

-- The shape with the new table `f` below entry `i` of `t`.
abbrev pub hang : Shape → (f l t i : ℕ) → Shape
hang g f l t i = record {
  level = update g.level f l;
  parent = update g.parent f t;
  slot = update g.slot f i;
}
