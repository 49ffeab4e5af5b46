-- ===== src/Kernel/Tables.antt =====
-- The page tables that InitializeMemory (rizzos/src/kernel.c) builds.
use rizzos.Base.{
  ℕ, ◌+◌, ◌*◌, ◌/◌, ◌%◌, ◌^◌, ◌≤◌, ◌<◌, ◌≡◌, refl, ◌∙◌, ◌⊎◌, inl, inr, Bool-cases, ltb, leb, ◌&&◌,
  none, some, arith,
}
use rizzos.Base.Bits.{test_bit_zero}
use rizzos.Graphics.{FrameBuffer}
use rizzos.PageFrame.{Pfa, request_page}
use rizzos.Paging.Mapper.{PageTableManager, ptm_create}
use rizzos.Paging.Mapper.Root.{Rooted, root_alone, request_page-root}
use rizzos.Paging.Tree.{Shape, IsTree, IsReady, room}
use rizzos.Paging.Walk.{walk}
use rizzos.Kernel.{build_tables, identity_loop, pages_of}
use rizzos.Kernel.Identity.{IsIdentity, identity_loop-Maps}

-- The pages that the tables for `n` pages in a row may take
abbrev pub table_pages : ℕ → ℕ
table_pages n = 3 * (n / 512 + 2)

-- The tables: the `m` pages from 0 on and the `n` pages from `base` on are mapped to themselves,
-- and no other address below 2^48 is translated.
pub record Built (s : Pfa) (m base n : ℕ) (manager : PageTableManager) (s' : Pfa) : Type 0 where
  pub shape : Shape
  pub tree : IsTree shape s'
  pub ready : IsReady s'
  pub top : shape.level manager.pml4 ≡ 4
  pub memory : (v : ℕ) → v < m * 4096 → walk 4 s'.mem manager.pml4 v ≡ some v
  pub screen : (v : ℕ) → base ≤ v → v < base + n * 4096 → walk 4 s'.mem manager.pml4 v ≡ some v
  pub nothing_else :
      (v : ℕ)
      → v < 2 ^ 48
      → m * 4096 ≤ v
      → (v < base) ⊎ (base + n * 4096 ≤ v)
      → walk 4 s'.mem manager.pml4 v ≡ none
  pub left : room s ≤ room s' + (1 + table_pages m + table_pages n)

module _ (s : Pfa) (out : ℕ × Pfa) (s1 : Pfa) (rooted : Rooted s out s1) where
  walk_nothing : (v : ℕ) → walk 4 s1.mem out.0 v ≡ none
  unfolding walk
  walk_nothing v = rw (rooted.empty (v / (4096 * 512 ^ 3) % 512) (omega arith), test_bit_zero 0)

  Built-loops :
      (m base n : ℕ) (g2 g3 : Shape) (s2 s3 : Pfa)
      → IsIdentity out.0 s1 0 m (table_pages m) g2 s2
      → IsIdentity out.0 s2 base n (table_pages n) g3 s3
      → m * 4096 ≤ 2 ^ 48
      → Built s m base n (ptm_create out.0) s3
  unfolding ptm_create
  Built-loops m base n g2 g3 s2 s3 low high small = record {
    shape = g3;
    tree = high.tree;
    ready = high.ready;
    top = high.top;
    memory = λ v below. elim (Bool-cases (leb base v && ltb v (base + n * 4096))) [
      | inl on ↦ high.here v (ground arith) (ground arith)
      | inr off ↦
          high.others v (omega arith) (ground arith) ∙ low.here v (omega arith) (omega arith)
    ];
    screen = high.here;
    nothing_else = λ v below above out.
        high.others v below out ∙ low.others v below (inr (omega arith)) ∙ walk_nothing v;
    left = omega (arith, rooted.left, low.left, high.left);
  }

  steps :
      (frame_buffer : FrameBuffer) (memory_size : ℕ) (s2 s3 : Pfa)
      → request_page s ≡ out
      → identity_loop (ptm_create out.0) s1 0 (pages_of memory_size) ≡ some s2
      → identity_loop
          (ptm_create out.0)
          s2
          frame_buffer.base_address
          (pages_of frame_buffer.buffer_size)
        ≡ some s3
      → build_tables frame_buffer memory_size s ≡ some (ptm_create out.0, s3)
  unfolding build_tables
  steps frame_buffer memory_size s2 s3 page first second =
      rw (page, rooted.clears, ← rooted.rest, first, second) refl

-- If the allocator is ready, the memory's pages and those of the frame buffer end below 2^48, the
-- frame buffer begins at a page, and there are pages left for the root and, for each of the two
-- ranges, three for every 512 pages and six more, then InitializeMemory builds its page tables:
-- the processor translates every address of the memory's pages and of the frame buffer's to
-- itself and no other address below 2^48, the tables are a tree, the allocator is ready, and no
-- more than those pages were taken.
pub build_tables-Built :
    (frame_buffer : FrameBuffer) (memory_size : ℕ) (s : Pfa)
    → IsReady s
    → pages_of memory_size * 4096 ≤ 2 ^ 48
    → frame_buffer.base_address % 4096 ≡ 0
    → frame_buffer.base_address + pages_of frame_buffer.buffer_size * 4096 ≤ 2 ^ 48
    → 1 + table_pages (pages_of memory_size) + table_pages (pages_of frame_buffer.buffer_size)
      ≤ room s
    → (manager : PageTableManager) × (s' : Pfa) × (build_tables frame_buffer memory_size s
        ≡ some (manager, s'))
      × Built s
          (pages_of memory_size)
          frame_buffer.base_address
          (pages_of frame_buffer.buffer_size)
          manager
          s'
build_tables-Built frame_buffer memory_size s ready low aligned high enough =
    let m : ℕ = pages_of memory_size in
    let n : ℕ = pages_of frame_buffer.buffer_size in
    let out = request_page s in
    let (s1, rooted) = request_page-root s ready (omega arith) in
    let (g2, s2, eq2, first) =
      identity_loop-Maps out.0 (root_alone out.0) s1 0 m rooted.tree rooted.ready (ground arith)
        (omega arith) (omega arith) (omega (arith, rooted.left)) in
    let (g3, s3, eq3, second) =
      identity_loop-Maps out.0 g2 s2 frame_buffer.base_address n first.tree first.ready first.top
        aligned high (omega (arith, rooted.left, first.left)) in
    (
      ptm_create out.0,
      s3,
      steps s out s1 rooted frame_buffer memory_size s2 s3 refl eq2 eq3,
      Built-loops s out s1 rooted m frame_buffer.base_address n g2 g3 s2 s3 first second low,
    )
