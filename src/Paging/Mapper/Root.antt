-- ===== src/Paging/Mapper/Root.antt =====
-- The first page table (InitializeMemory in rizzos/src/kernel.c): a requested page, cleared.
use rizzos.Base.{
  ℕ, ◌+◌, ◌-◌, ◌*◌, ◌/◌, ◌%◌, ◌^◌, ◌≤◌, ◌<◌, ◌≡◌, refl, sym, ap, ◌∙◌, true, false, ◌==◌,
  if◌then◌else◌, some, arith,
}
use rizzos.Base.Bits.{test_bit, test_bit_zero}
use rizzos.Bitmap.Laws.{get-test_bit}
use rizzos.Memory.{set64, byte_of_zero}
use rizzos.Memory.Fill.{filled, filled-inside, filled-outside, set-filled}
use rizzos.Memory.Words.{read64_zero}
use rizzos.PageFrame.{Pfa, frame_size, locked, page_bound, request_page}
use rizzos.PageFrame.Request.{Granted}
use rizzos.Paging.Mapper.Calm.{with_mem, Calm, calm-IsReady, calm-room}
use rizzos.Paging.Tree.{Shape, IsTree, IsReady, room}
use rizzos.Paging.Tree.Room.{
  request_page-Granted, granted_page, granted-bitmap, granted-bound, granted-IsReady, granted-room,
}
use rizzos.Paging.Walk.{entry, is_present}

-- No tables, and the root alone
abbrev no_tables : Shape
no_tables = record { level = λ t. 0; parent = λ t. 0; slot = λ t. 0 }

abbrev pub root_alone : ℕ → Shape
root_alone f = record { level = λ t. if t == f then 4 else 0; parent = λ t. 0; slot = λ t. 0 }

no_tables-IsTree : (s : Pfa) → IsTree no_tables s
no_tables-IsTree s = record {
  aligned = λ t h. absurd (omega arith);
  above = λ t h. absurd (omega arith);
  used = λ t h. absurd (omega arith);
  known = λ t h. absurd (omega arith);
  apart = λ t x h. absurd (omega arith);
  child = λ t i h. absurd (omega arith);
}

-- A requested page that is cleared is a tree by itself.
pub record Rooted (s : Pfa) (out : ℕ × Pfa) (s' : Pfa) : Type 0 where
  pub clears : set64 out.1.mem out.0 0 frame_size ≡ some s'.mem
  pub rest : s' ≡ with_mem out.1 s'.mem
  pub tree : IsTree (root_alone out.0) s'
  pub ready : IsReady s'
  pub empty : (k : ℕ) → k < 512 → entry s'.mem out.0 k ≡ 0
  pub left : room s ≤ room s' + 1
  pub bound : page_bound s' ≡ page_bound s
  pub keeps : (j : ℕ) → j < page_bound s → locked s j ≡ true → locked s' j ≡ true

module _ (s : Pfa) (out : ℕ × Pfa) (n : ℕ) (ready : IsReady s) (granted : Granted s 0 out n) where
  open granted use {address, inside, bits, same_bitmap}

  abbrev f : ℕ
  f = n * 4096

  abbrev after : Pfa
  after = with_mem out.1 (filled 8 out.1.mem f 0 4096)

  locks : (j : ℕ) → j < page_bound out.1 → locked after j ≡ locked out.1 j
  locks j h =
      let bound = granted-bound s out n ready granted in
      let x = out.1.page_bitmap.buffer + j / 8 in
      let start : out.1.page_bitmap.buffer ≡ s.page_bitmap.buffer =
        ap (λ b. b.buffer) same_bitmap in
      get-test_bit after.mem out.1.page_bitmap j
      ∙ ap (λ y. test_bit y (j % 8))
          (filled-outside 8 out.1.mem f 0 4096 x
            (granted-bitmap s out n ready granted x (omega arith) (omega (arith, ready.sized))))
      ∙ sym (get-test_bit out.1.mem out.1.page_bitmap j)

  calm : Calm no_tables out.1 (filled 8 out.1.mem f 0 4096)
  calm = record { locks = locks; entries = λ t i h. absurd (omega arith) }

  entry_cleared : (k : ℕ) → k < 512 → entry after.mem f k ≡ 0
  entry_cleared k small = read64_zero after.mem (f + k * 8) (λ x p q.
      filled-inside 8 out.1.mem f 0 4096 x (omega arith) (omega arith) ∙ byte_of_zero ((x - f) % 8))

  is_root : (t : ℕ) → 0 < (root_alone f).level t → t ≡ f
  is_root t h = ground arith

  pub root_alone-IsTree : IsTree (root_alone f) after
  root_alone-IsTree =
      let bound = granted-bound s out n ready granted in
      let taken : locked after n ≡ true =
        locks n (omega (arith, inside)) ∙ ground (arith, bits n) in
      record {
        aligned = λ t h. rw (is_root t h) (omega arith);
        above = λ t h. rw (is_root t h) (granted_page s out n ready granted);
        used = λ t h. let page : t / 4096 ≡ n = omega (arith, is_root t h) in rw page taken;
        known = λ t h. omega (arith, is_root t h, bound, inside);
        apart = λ t x h p q.
            rw same_bitmap (ground (arith, is_root t h, granted-bitmap s out n ready granted x));
        child = λ t i h small on.
            let off : is_present (entry after.mem t i) ≡ false =
              rw (is_root t (omega arith), entry_cleared i small) (test_bit_zero 0) in
            absurd (cc (off, on));
      }

  pub request_page-Rooted : Rooted s out after
  request_page-Rooted =
      let bound = granted-bound s out n ready granted in
      let small : n * 4096 + 4096 + 8 ≤ 2 ^ 64 = omega (arith, inside, ready.sized) in
      let none_there = no_tables-IsTree out.1 in
      let ready' = granted-IsReady s out n ready granted in
      record {
        clears = rw address ((set-filled out.1.mem f 0 4096 small).0);
        rest = refl;
        tree = rw address root_alone-IsTree;
        ready = calm-IsReady no_tables out.1 _ none_there ready' calm;
        empty = λ k small. rw address (entry_cleared k small);
        left = omega (
          arith,
          granted-room s out n ready granted,
          calm-room no_tables out.1 _ none_there ready' calm,
        );
        bound = bound;
        keeps = λ j h on. locks j (omega (arith, bound)) ∙ ground (arith, bits j);
      }

-- With a page left to request, there is a root.
pub request_page-root :
    (s : Pfa) → IsReady s → 1 ≤ room s → (s' : Pfa) × Rooted s (request_page s) s'
request_page-root s ready enough =
    let (n, granted) = request_page-Granted s ready enough in
    (_, request_page-Rooted s (request_page s) n ready granted)
