-- ===== src/Kernel/Ready.antt =====
-- The memory and the heap that `_start` (rizzos/src/kernel.c) goes on with.
use rizzos.Base.{ℕ, ◌+◌, ◌*◌, ◌%◌, ◌≤◌, ◌<◌, ◌≡◌, ◌∙◌, inl, [], ◌∷◌, some, arith}
use rizzos.Graphics.{FrameBuffer}
use rizzos.Heap.{Heap, initialize_heap}
use rizzos.Heap.Backing.{IsPaged}
use rizzos.Heap.Grow.{IsHeap, new_segment}
use rizzos.Heap.Start.{initialize_heap-Initialized}
use rizzos.PageFrame.{Pfa}
use rizzos.Paging.Mapper.{PageTableManager}
use rizzos.Paging.Tree.{IsReady, room}
use rizzos.Paging.Walk.{walk}
use rizzos.Kernel.{build_tables, pages_of}
use rizzos.Kernel.Start.{heap_address, heap_pages}
use rizzos.Kernel.Tables.{build_tables-Built, table_pages}

-- The memory and the frame buffer at their own addresses, and the heap
pub record Ready (memory_size : ℕ) (frame_buffer : FrameBuffer) (h : Heap) : Type 0 where
  pub heap : IsHeap h (new_segment heap_address (heap_pages * 4096) ∷ [])
  pub memory : (v : ℕ) → v < memory_size → walk 4 h.frames.mem h.manager.pml4 v ≡ some v
  pub screen :
      (v : ℕ)
      → frame_buffer.base_address ≤ v
      → v < frame_buffer.base_address + frame_buffer.buffer_size
      → walk 4 h.frames.mem h.manager.pml4 v ≡ some v

-- If the allocator is ready, memory and frame buffer lie below the heap, the frame buffer begins
-- at a page, and there are pages left for the tables and four for each page of the heap, then the
-- page tables of InitializeMemory and then MEM_InitializeHeap are set up: every address of the
-- memory and of the frame buffer is translated to itself, and the heap is one free segment in
-- pages of its own.
pub memory_and_heap-Ready :
    (h : Heap) (frame_buffer : FrameBuffer) (memory_size : ℕ)
    → IsReady h.frames
    → memory_size ≤ heap_address
    → frame_buffer.base_address % 4096 ≡ 0
    → frame_buffer.base_address + frame_buffer.buffer_size ≤ heap_address
    → 1
        + table_pages (pages_of memory_size)
        + table_pages (pages_of frame_buffer.buffer_size)
        + 4 * heap_pages
      ≤ room h.frames
    → (manager : PageTableManager) × (p : Pfa) × (h' : Heap) × (build_tables frame_buffer
          memory_size h.frames
        ≡ some (manager, p))
      × (initialize_heap (record h { manager = manager; frames = p }) heap_address heap_pages
          ≡ some h')
      × Ready memory_size frame_buffer h'
memory_and_heap-Ready h frame_buffer memory_size ready low aligned high enough =
    let (manager, p, tables, built) =
      build_tables-Built frame_buffer memory_size h.frames ready (omega arith) aligned (omega arith)
        (omega arith) in
    let paged : IsPaged manager.pml4 p = record {
      shape = built.shape;
      tree = built.tree;
      ready = built.ready;
      top = built.top;
    } in
    let (h', heap, made) =
      initialize_heap-Initialized (record h { manager = manager; frames = p }) heap_address
        heap_pages paged (omega arith) (omega arith) (omega arith) (omega arith)
        (omega (arith, built.left)) in
    (
      manager,
      p,
      h',
      tables,
      heap,
      record {
        heap = made.heap;
        memory = λ v below.
            rw made.manager (made.others v (omega arith) (inl (omega arith)))
            ∙ built.memory v (omega arith);
        screen = λ v lo hi.
            rw made.manager (made.others v (omega arith) (inl (omega arith)))
            ∙ built.screen v lo (omega arith);
      },
    )
