-- ===== src/Paging/Tree/Room.antt =====
-- A page that PFA_RequestPage (rizzos/src/paging/page_frame_allocator.c) grants: the page tables
-- and the allocator's bitmap do not lie in it.
use rizzos.Base.{
  ℕ, zero, suc, ◌+◌, ◌*◌, ◌/◌, ◌%◌, ◌^◌, ◌≤◌, ◌<◌, ◌≡◌, refl, ap, ◌⊎◌, inl, inr, Bool, true, ◌==◌,
  Bool-cases, arith,
}
use rizzos.Bitmap.{Bitmap}
use rizzos.Memory.Words.{read64-agree}
use rizzos.PageFrame.{Pfa, locked, page_bound, request_page}
use rizzos.PageFrame.Accounting.{count_clear, count_clear-set}
use rizzos.PageFrame.Request.{Granted, request_page-lowest}
use rizzos.Paging.Tree.{Shape, IsTree, IsReady, room}
use rizzos.Paging.Walk.{entry, is_present, table_index, walk}

count_clear_full :
    (bits : ℕ → Bool) (n : ℕ) → ((j : ℕ) → j < n → bits j ≡ true) → count_clear bits n ≡ 0
unfolding count_clear
count_clear_full bits zero h = refl
count_clear_full bits (suc n) h =
    ground (arith, h n, count_clear_full bits n (λ j p. h j (omega arith)))

-- With a page left to request, a request is granted one.
pub request_page-Granted :
    (s : Pfa) → IsReady s → 1 ≤ room s → (n : ℕ) × Granted s 0 (request_page s) n
unfolding room
request_page-Granted s ready enough =
    elim (request_page-lowest s (omega (arith, ready.sized)) ready.lowest) [
      | inr x ↦ absurd (
          omega (
            arith,
            count_clear_full (locked s) (page_bound s) (λ j p. x.none_free j (omega arith) p),
          ))
      | inl found ↦ found
    ]

module _ (s : Pfa) (out : ℕ × Pfa) (n : ℕ) (ready : IsReady s) (granted : Granted s 0 out n) where
  open granted use {inside, was_free, lowest, bits, bytes, same_bitmap, position}

  pub granted_page : 4096 ≤ n * 4096
  granted_page = ground (arith, was_free, ready.first)

  -- No byte of the bitmap lies in the page.
  pub granted-bitmap :
      (x : ℕ)
      → s.page_bitmap.buffer ≤ x
      → x ≤ s.page_bitmap.buffer + s.page_bitmap.size
      → (x < n * 4096) ⊎ (n * 4096 + 4096 ≤ x)
  granted-bitmap x lo hi =
      let us = (ready.home x lo hi).0 in
      elim (Bool-cases (x / 4096 == n)) [
        | inl same ↦
            let same' : x / 4096 ≡ n = ground arith in
            absurd (cc (us, was_free, ap (locked s) same'))
        | inr other ↦ ground arith
      ]

  pub granted-bound : page_bound out.1 ≡ page_bound s
  granted-bound = ap (λ (b : Bitmap). b.size * 8 % 2 ^ 64) same_bitmap

  pub granted-IsReady : IsReady out.1
  granted-IsReady = record {
    sized = rw same_bitmap ready.sized;
    lowest = λ j p. ground (arith, bits j, lowest j, inside);
    position = omega (arith, granted-bound, inside, position);
    first = ground (arith, bits 0, ready.first);
    beyond = rw same_bitmap ready.beyond;
    home = λ x p q.
        let p' : s.page_bitmap.buffer ≤ x = rw same_bitmap at p in
        let q' : x ≤ s.page_bitmap.buffer + s.page_bitmap.size = rw same_bitmap at q in
        ground (arith, ready.home x p' q', bits (x / 4096), granted-bound);
  }

  pub granted-room : room out.1 + 1 ≡ room s
  unfolding room
  granted-room = rw granted-bound (
      count_clear-set (locked s) (locked out.1) n (page_bound s) inside was_free
        (λ j p. ground (arith, bits j)))

  module _ (g : Shape) (tree : IsTree g s) where
    -- No table lies in the page.
    pub granted-table : (a : ℕ) → 0 < g.level a → (a + 4096 ≤ n * 4096) ⊎ (n * 4096 + 4096 ≤ a)
    granted-table a h =
        let al = tree.aligned a h in
        let us = tree.used a h in
        elim (Bool-cases (a / 4096 == n)) [
          | inl same ↦
              let same' : a / 4096 ≡ n = ground arith in
              absurd (cc (us, was_free, ap (locked s) same'))
          | inr other ↦ ground arith
        ]

    granted-entry : (a k : ℕ) → 0 < g.level a → k < 512 → entry out.1.mem a k ≡ entry s.mem a k
    granted-entry a k h small =
        read64-agree s.mem out.1.mem (a + k * 8)
          (λ x p q. bytes x (tree.apart a x h (omega arith) (omega arith)))

    pub granted-IsTree : IsTree g out.1
    granted-IsTree = record {
      aligned = tree.aligned;
      above = tree.above;
      used = λ a h. ground (arith, bits (a / 4096), tree.used a h);
      known = λ a h. ground (arith, tree.known a h, granted-bound);
      apart = λ a x h p q. rw same_bitmap (tree.apart a x h p q);
      child = λ a i h small on.
          rw (granted-entry a i (omega arith) small)
            (tree.child a i h small (rw (granted-entry a i (omega arith) small) at on));
    }

    pub granted-walk : (k a v : ℕ) → g.level a ≡ k → walk k out.1.mem a v ≡ walk k s.mem a v
    unfolding walk
    granted-walk zero a v h = refl
    granted-walk (suc zero) a v h =
        rw (granted-entry a (table_index 0 v) (omega arith) (omega arith))
    granted-walk (suc (suc k)) a v h =
        rw (granted-entry a (table_index (suc k) v) (omega arith) (omega arith))
          (elim (Bool-cases (is_present (entry s.mem a (table_index (suc k) v)))) [
            | inr off ↦ rw off
            | inl on ↦ rw on (
                granted-walk (suc k) _ v (
                  omega (
                    arith,
                    (tree.child a (table_index (suc k) v) (omega arith) (omega arith) on).0,
                  )))
          ])
