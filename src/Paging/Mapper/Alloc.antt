-- ===== src/Paging/Mapper/Alloc.antt =====
-- A new table hung into the tree (the branch of `PTM_MapMemory` in
-- rizzos/src/paging/page_table_manager.c that requests a page): what it does to memory, to the
-- tree and to every translation.
use rizzos.Base.{
  ℕ, suc, ◌+◌, ◌-◌, ◌*◌, ◌/◌, ◌%◌, ◌^◌, ◌≤◌, ◌<◌, ◌≡◌, ◌≢◌, ltb, ltb→lt, sym, ◌∙◌, ap, ◌⊎◌, inl,
  inr, true, false, ◌||◌, ◌==◌, Bool-cases, arith,
}
use rizzos.Base.Bits.{test_bit}
use rizzos.Bitmap.{Bitmap}
use rizzos.Bitmap.Laws.{get-test_bit}
use rizzos.Memory.{write64, byte_of_zero}
use rizzos.Memory.Fill.{filled, filled-inside, filled-outside}
use rizzos.Memory.Words.{
  read64-agree, read64_zero, read64-write64_mod, read64-write_bytes, write_bytes-outside,
}
use rizzos.PageFrame.{Pfa, locked, page_bound}
use rizzos.PageFrame.Request.{Granted}
use rizzos.Paging.Tree.{Shape, IsTree, IsReady}
use rizzos.Paging.Tree.Room.{granted_page, granted-table, granted-bitmap}
use rizzos.Paging.Walk.{entry, is_present, target}

-- The state with page `f` cleared and the entry `i` of table `t` set to `e`.
unfoldable pub hung : Pfa → (f t i e : ℕ) → Pfa
hung s f t i e = record s { mem = write64 (filled 8 s.mem f 0 4096) (t + i * 8) e }

-- Two different entries of page-aligned tables do not overlap.
pub slots_apart :
    (a k t i : ℕ)
    → a % 4096 ≡ 0
    → t % 4096 ≡ 0
    → k < 512
    → i < 512
    → (a ≢ t) ⊎ (k ≢ i)
    → (a + k * 8 + 8 ≤ t + i * 8) ⊎ (t + i * 8 + 8 ≤ a + k * 8)
slots_apart a k t i al al' small small' other = elim (Bool-cases (ltb (a + k * 8) (t + i * 8))) [
  | inl below ↦ inl (omega (arith, ltb→lt (a + k * 8) (t + i * 8) below))
  | inr above ↦ let le : t + i * 8 ≤ a + k * 8 = ground arith in inr (omega arith)
]

-- A request that was granted page `n`, an entry `i` of the table `t` above the last level that
-- points nowhere, and a value `e` for it that shows page `n`.
pub record Hanging (g : Shape) (s : Pfa) (out : ℕ × Pfa) (n t i l e : ℕ) : Type 0 where
  pub tree : IsTree g s
  pub ready : IsReady s
  pub granted : Granted s 0 out n
  pub upper : g.level t ≡ suc (suc l)
  pub in_table : i < 512
  pub empty : is_present (entry s.mem t i) ≡ false
  pub shown : is_present (e % 2 ^ 64) ≡ true
  pub points : target (e % 2 ^ 64) ≡ n * 4096

-- What becomes of the entries and of the bitmap.
pub record Hung (g : Shape) (s : Pfa) (out : ℕ × Pfa) (n t i e : ℕ) : Type 0 where
  pub not_table : (a : ℕ) → 0 < g.level a → (a + 4096 ≤ n * 4096) ⊎ (n * 4096 + 4096 ≤ a)
  pub not_bitmap :
      (x : ℕ)
      → s.page_bitmap.buffer ≤ x
      → x ≤ s.page_bitmap.buffer + s.page_bitmap.size
      → (x < n * 4096) ⊎ (n * 4096 + 4096 ≤ x)
  pub new_page : 4096 ≤ n * 4096
  pub locked_after :
      (j : ℕ) → j < page_bound s → locked (hung out.1 (n * 4096) t i e) j ≡ (locked s j || (n == j))
  pub entry_old :
      (a k : ℕ)
      → 0 < g.level a
      → k < 512
      → (a ≢ t) ⊎ (k ≢ i)
      → entry (hung out.1 (n * 4096) t i e).mem a k ≡ entry s.mem a k
  pub entry_new : (k : ℕ) → k < 512 → entry (hung out.1 (n * 4096) t i e).mem (n * 4096) k ≡ 0
  pub entry_slot : entry (hung out.1 (n * 4096) t i e).mem t i ≡ e % 2 ^ 64
  pub low_bytes : (x : ℕ) → x < 4096 → (hung out.1 (n * 4096) t i e).mem x ≡ s.mem x
  pub shape_after : (hung out.1 (n * 4096) t i e).page_bitmap ≡ s.page_bitmap

module _ (g : Shape) (s : Pfa) (out : ℕ × Pfa) (n t i l e : ℕ)
    (hanging : Hanging g s out n t i l e) where
  open hanging use {tree, ready, granted, upper, in_table, empty, shown, points}

  abbrev f : ℕ
  f = n * 4096

  abbrev after : Pfa
  after = hung out.1 f t i e

  open granted use {bits, bytes, same_bitmap}

  new_page : 4096 ≤ f
  new_page = granted_page s out n ready granted

  not_table : (a : ℕ) → 0 < g.level a → (a + 4096 ≤ f) ⊎ (f + 4096 ≤ a)
  not_table = granted-table s out n ready granted g tree

  not_bitmap :
      (x : ℕ)
      → s.page_bitmap.buffer ≤ x
      → x ≤ s.page_bitmap.buffer + s.page_bitmap.size
      → (x < f) ⊎ (f + 4096 ≤ x)
  not_bitmap = granted-bitmap s out n ready granted

  byte_same :
      (x : ℕ)
      → (x < s.page_bitmap.buffer) ⊎ (s.page_bitmap.buffer + s.page_bitmap.size < x)
      → (x < f) ⊎ (f + 4096 ≤ x)
      → (x < t + i * 8) ⊎ (t + i * 8 + 8 ≤ x)
      → after.mem x ≡ s.mem x
  unfolding hung
  byte_same x p q r =
      write_bytes-outside 8 (filled 8 out.1.mem f 0 4096) (t + i * 8) e x r
      ∙ filled-outside 8 out.1.mem f 0 4096 x q
      ∙ bytes x p

  table_t : 0 < g.level t
  table_t = omega arith

  -- The bitmap's bytes are those that the request left.
  locked_after : (j : ℕ) → j < page_bound s → locked after j ≡ (locked s j || (n == j))
  unfolding hung
  locked_after j h =
      let here : out.1.page_bitmap.buffer ≡ s.page_bitmap.buffer =
        ap (λ (b : Bitmap). b.buffer) same_bitmap in
      let x = out.1.page_bitmap.buffer + j / 8 in
      let off_page : (x < f) ⊎ (f + 4096 ≤ x) =
        not_bitmap x (omega arith) (omega (arith, ready.sized)) in
      let off_table : (x < t) ⊎ (t + 4096 ≤ x) =
        ground (arith, tree.apart t x table_t, ready.sized) in
      let same : after.mem x ≡ out.1.mem x =
        write_bytes-outside 8 (filled 8 out.1.mem f 0 4096) (t + i * 8) e x (omega arith)
        ∙ filled-outside 8 out.1.mem f 0 4096 x off_page in
      get-test_bit after.mem out.1.page_bitmap j
      ∙ ap (λ y. test_bit y (j % 8)) same
      ∙ sym (get-test_bit out.1.mem out.1.page_bitmap j)
      ∙ bits j

  entry_old :
      (a k : ℕ)
      → 0 < g.level a
      → k < 512
      → (a ≢ t) ⊎ (k ≢ i)
      → entry after.mem a k ≡ entry s.mem a k
  entry_old a k h small other =
      let far =
        slots_apart a k t i (tree.aligned a h) (tree.aligned t table_t) small in_table other in
      let off = not_table a h in
      read64-agree s.mem after.mem (a + k * 8) (λ x p q.
        byte_same x (tree.apart a x h (omega arith) (omega arith)) (omega arith) (omega arith))

  entry_new : (k : ℕ) → k < 512 → entry after.mem f k ≡ 0
  unfolding hung
  entry_new k small =
      let off = not_table t table_t in
      read64-write_bytes 8 (filled 8 out.1.mem f 0 4096) (t + i * 8) e (f + k * 8) (omega arith)
      ∙ read64_zero (filled 8 out.1.mem f 0 4096) (f + k * 8) (λ x p q.
        filled-inside 8 out.1.mem f 0 4096 x (omega arith) (omega arith)
        ∙ byte_of_zero ((x - f) % 8))

  entry_slot : entry after.mem t i ≡ e % 2 ^ 64
  unfolding hung
  entry_slot = read64-write64_mod (filled 8 out.1.mem f 0 4096) (t + i * 8) e

  low_bytes : (x : ℕ) → x < 4096 → after.mem x ≡ s.mem x
  low_bytes x low =
      byte_same x (omega (arith, ready.beyond)) (omega (arith, new_page))
        (omega (arith, tree.above t table_t))

  shape_after : after.page_bitmap ≡ s.page_bitmap
  unfolding hung
  shape_after = same_bitmap

  pub Hanging-Hung : Hung g s out n t i e
  Hanging-Hung = record {
    not_table = not_table;
    not_bitmap = not_bitmap;
    new_page = new_page;
    locked_after = locked_after;
    entry_old = entry_old;
    entry_new = entry_new;
    entry_slot = entry_slot;
    low_bytes = low_bytes;
    shape_after = shape_after;
  }
