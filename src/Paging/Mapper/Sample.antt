-- ===== src/Paging/Mapper/Sample.antt =====
-- A state of the allocator of rizzos/src/paging/page_frame_allocator.c with an empty root, for the
-- instances of theorems on rizzos/src/paging/page_table_manager.c and what stands on it.
use rizzos.Base.{
  ℕ, zero, suc, ◌+◌, ◌*◌, ◌/◌, ◌≤◌, ◌<◌, ◌≡◌, refl, inr, arith, true, false, ◌==◌, if◌then◌else◌,
}
use rizzos.Base.Bits.{test_bit_zero}
use rizzos.Bitmap
use rizzos.Memory.Words.{read64_zero}
use rizzos.PageFrame.{Pfa, locked}
use rizzos.PageFrame.Accounting.{count_clear}
use rizzos.Paging.Tree.{Shape, IsTree, IsReady, room}
use rizzos.Paging.Walk.{entry, is_present}

-- A hundred and twenty-eight pages: page 1 has the bitmap and page 2 the empty root; both and page 0 are locked.
abbrev pub empty_root : Pfa
empty_root = record {
  free_memory = 0x7d000;
  reserved_memory = 0;
  used_memory = 0x3000;
  initialized = true;
  page_bitmap = record { size = 16; buffer = 0x1000 };
  last_reserved_page = 0;
  mem = λ x. if x == 0x1000 then 7 else 0;
}

abbrev pub root : ℕ
root = 0x2000

abbrev pub only_root : Shape
only_root = record { level = λ t. if t == 0x2000 then 4 else 0; parent = λ t. 0; slot = λ t. 0 }

is_root : (t : ℕ) → 0 < only_root.level t → t ≡ 0x2000
is_root t h = ground arith

root_empty : (i : ℕ) → entry empty_root.mem 0x2000 i ≡ 0
root_empty i = read64_zero empty_root.mem (0x2000 + i * 8) (λ x p q. ground arith)

locked_low : (j : ℕ) → j < 3 → locked empty_root j ≡ true
unfolding Bitmap.get
locked_low zero h = refl
locked_low (suc zero) h = refl
locked_low (suc (suc zero)) h = refl
locked_low (suc (suc (suc j))) h = absurd (omega arith)

pub empty_root-IsTree : IsTree only_root empty_root
empty_root-IsTree = record {
  aligned = λ t h. ground (arith, is_root t h);
  above = λ t h. ground (arith, is_root t h);
  used = λ t h. rw (is_root t h) (locked_low 2 (omega arith));
  known = λ t h. ground (arith, is_root t h);
  apart = λ t x h p q. inr (ground (arith, is_root t h));
  child = λ t i h small on.
      let off : is_present (entry empty_root.mem t i) ≡ false =
        rw (is_root t (omega arith), root_empty i) (test_bit_zero 0) in
      absurd (cc (off, on));
}

pub empty_root-IsReady : IsReady empty_root
empty_root-IsReady = record {
  sized = omega arith;
  lowest = λ j h. absurd (omega arith);
  position = omega arith;
  first = locked_low 0 (omega arith);
  beyond = omega arith;
  home = λ x p q. (locked_low (x / 4096) (omega arith), omega arith);
}

-- Pages 3 to 127 are left.
pub enough_room : 125 ≤ room empty_root
unfolding room count_clear Bitmap.get
enough_room = omega arith
