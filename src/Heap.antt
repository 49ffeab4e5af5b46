-- ===== src/Heap.antt =====
-- rizzos/src/memory/heap.c: the kernel heap, a doubly linked list of segments whose headers lie in
-- the heap's own pages.
pub mod Backing
pub mod Combine
pub mod Expand
pub mod Free
pub mod Grow
pub mod Held
pub mod Malloc
pub mod Outcome
pub mod Represents
pub mod Search
pub mod Segments
pub mod Split
pub mod Start
pub mod Take
pub mod Tiles
pub mod Reuse
pub mod Room
mod Tests
use rizzos.Base.{
  ◌>>=◌, ℕ, zero, suc, ◌+◌, ◌-◌, ◌*◌, ◌/◌, ◌%◌, ◌^◌, Bool, true, false, not, ◌&&◌, ◌||◌, ltb, leb,
  ◌==◌, Option, none, some, if◌then◌else◌, update,
}
use rizzos.PageFrame.{Pfa, frame_size, request_page}
use rizzos.Paging.Mapper.{PageTableManager, map_memory}

-- `HeapSegHdr`, and `sizeof(HeapSegHdr)`
pub record HeapSegHdr : Type 0 where
  pub lenght : ℕ
  pub next : ℕ
  pub last : ℕ
  pub free : Bool

abbrev pub hdr_size : ℕ
hdr_size = 32

-- The static variables, the headers by their virtual addresses, and what `PTM_MapMemory` and
-- `PFA_RequestPage` work on.
pub record Heap : Type 0 where
  pub heap_start : ℕ
  pub heap_end : ℕ
  pub last_hdr : ℕ
  pub seg : ℕ → HeapSegHdr
  pub manager : PageTableManager
  pub frames : Pfa

-- A write to one field of the header at `a`.
abbrev pub set_next : (ℕ → HeapSegHdr) → ℕ → ℕ → ℕ → HeapSegHdr
set_next seg a p = update seg a (record (seg a) { next = p })

abbrev pub set_last : (ℕ → HeapSegHdr) → ℕ → ℕ → ℕ → HeapSegHdr
set_last seg a p = update seg a (record (seg a) { last = p })

abbrev pub set_lenght : (ℕ → HeapSegHdr) → ℕ → ℕ → ℕ → HeapSegHdr
set_lenght seg a n = update seg a (record (seg a) { lenght = n })

abbrev pub set_free : (ℕ → HeapSegHdr) → ℕ → Bool → ℕ → HeapSegHdr
set_free seg a b = update seg a (record (seg a) { free = b })

-- `if (n % unit > 0) { n -= n % unit; n += unit; }` on a `size_t`
abbrev pub round_up : (unit n : ℕ) → ℕ
round_up unit n = if ltb 0 (n % unit) then (n - n % unit + unit) % 2 ^ 64 else n

-- `PTM_MapMemory(pos, PFA_RequestPage()); pos += MEM_FRAME_SIZE;` for the rounds left: the
-- position and the allocator afterwards.
pub map_pages : PageTableManager → Pfa → (pos rounds : ℕ) → Option (ℕ × Pfa)
map_pages manager frames pos zero = some (pos, frames)
map_pages manager frames pos (suc rounds) =
    let (page, requested) = request_page frames in
    map_memory manager requested pos page >>= λ mapped.
    map_pages manager mapped ((pos + frame_size) % 2 ^ 64) rounds

-- `MEM_InitializeHeap`
unfoldable pub initialize_heap : Heap → (heap_address page_count : ℕ) → Option Heap
initialize_heap h heap_address page_count =
    let heap_lenght : ℕ = page_count * frame_size % 2 ^ 64 in
    map_pages h.manager h.frames heap_address page_count >>= λ (pos, frames). some (record h {
      frames = frames;
      heap_start = heap_address;
      heap_end = (heap_address + heap_lenght) % 2 ^ 64;
      seg = update h.seg heap_address (record {
        lenght = (heap_lenght + 2 ^ 64 - hdr_size) % 2 ^ 64;
        next = 0;
        last = 0;
        free = true;
      });
      last_hdr = heap_address;
    })

-- `MEM_HeapSegHdrCombineForward`, with each line reading the headers as the line before left them
unfoldable pub combine_forward : Heap → ℕ → Heap
combine_forward h hshdr =
    let next : ℕ = (h.seg hshdr).next in
    let next_next : ℕ = (h.seg next).next in
    let last_hdr : ℕ = if next == h.last_hdr then hshdr else h.last_hdr in
    let seg1 = if not (next_next == 0) then set_last h.seg next_next hshdr else h.seg in
    let seg2 =
      set_lenght seg1 hshdr
        (((seg1 hshdr).lenght + (seg1 (seg1 hshdr).next).lenght + hdr_size) % 2 ^ 64) in
    let seg3 = set_next seg2 hshdr (seg2 (seg2 hshdr).next).next in
    if next == 0 || not (h.seg hshdr).free then h else record h { last_hdr = last_hdr; seg = seg3 }

-- `MEM_HeapSegHdrCombineBackward`
unfoldable pub combine_backward : Heap → ℕ → Heap
combine_backward h hshdr =
    let last : ℕ = (h.seg hshdr).last in
    if not (last == 0) && (h.seg last).free then combine_forward h last else h

-- `MEM_Free`
unfoldable pub mem_free : Heap → ℕ → Heap
mem_free h addr =
    let segment : ℕ = (addr + 2 ^ 64 - hdr_size) % 2 ^ 64 in
    let h1 = record h { seg = set_free h.seg segment true } in
    let h2 = combine_forward h1 segment in combine_backward h2 segment

-- `MEM_HeapSegHdrSplit`: the new header or NULL, and the heap. The length that is left is an
-- `int64_t`, so from 2^63 on it is negative.
unfoldable pub split : Heap → (hshdr split_lenght : ℕ) → ℕ × Heap
split h hshdr split_lenght =
    let split_seq_lenght : ℕ =
      ((h.seg hshdr).lenght + 2 * 2 ^ 64 - split_lenght - hdr_size) % 2 ^ 64 in
    let new_split_hdr : ℕ = (hshdr + split_lenght + hdr_size) % 2 ^ 64 in
    let seg1 = set_last h.seg (h.seg hshdr).next new_split_hdr in
    let seg2 = set_next seg1 new_split_hdr (seg1 hshdr).next in
    let seg3 = set_next seg2 hshdr new_split_hdr in
    let seg4 = set_last seg3 new_split_hdr hshdr in
    let seg5 = set_lenght seg4 new_split_hdr split_lenght in
    let seg6 = set_free seg5 new_split_hdr (seg5 hshdr).free in
    let seg7 = set_lenght seg6 hshdr split_lenght in
    let last_hdr : ℕ = if h.last_hdr == hshdr then new_split_hdr else h.last_hdr in
    if ltb split_lenght 0x10
    then (0, h)
    else if ltb split_seq_lenght 0x10 || leb (2 ^ 63) split_seq_lenght
    then (0, h)
    else (new_split_hdr, record h { seg = seg7; last_hdr = last_hdr })

-- The new segment of `MEM_ExpandHeap` at the end of the list, with the heap's end and the
-- allocator as the loop leaves them
unfoldable pub append_segment : Heap → (new_segment lenght pos : ℕ) → Pfa → Heap
append_segment h new_segment lenght pos frames =
    let seg1 = set_free h.seg new_segment true in
    let seg2 = set_last seg1 new_segment h.last_hdr in
    let seg3 = set_next seg2 h.last_hdr new_segment in
    let seg4 = set_next seg3 new_segment 0 in
    let seg5 = set_lenght seg4 new_segment ((lenght + 2 ^ 64 - hdr_size) % 2 ^ 64) in
    record h { frames = frames; heap_end = pos; seg = seg5; last_hdr = new_segment }

-- `MEM_ExpandHeap`
unfoldable pub expand_heap : Heap → ℕ → Option Heap
expand_heap h lenght =
    let rounded : ℕ = round_up frame_size lenght in
    let page_count : ℕ = rounded / frame_size in
    let new_segment : ℕ = h.heap_end in
    map_pages h.manager h.frames h.heap_end page_count >>= λ (pos, frames).
    some (combine_backward (append_segment h new_segment rounded pos frames) new_segment)

-- The search of `MEM_Malloc` from the segment `current`: the memory found and the heap, or
-- nothing at the end of the list. The outer `none` is out of fuel.
unfoldable pub malloc_loop : ℕ → Heap → (current size : ℕ) → Option (Option (ℕ × Heap))
malloc_loop zero h current size = none
malloc_loop (suc fuel) h current size =
    let hdr = h.seg current in
    let rest = malloc_loop fuel h hdr.next size in
    let cut = (split h current size).1 in
    let memory : ℕ = (current + hdr_size) % 2 ^ 64 in
    if hdr.free && ltb size hdr.lenght
    then some (some (memory, record cut { seg = set_free cut.seg current false }))
    else if hdr.free && (hdr.lenght == size)
    then some (some (memory, record h { seg = set_free h.seg current false }))
    else if hdr.next == 0
    then some none
    else rest

-- `MEM_Malloc`, with fuel for the search and for the calls of itself. The pointer 0 is NULL.
unfoldable pub malloc : ℕ → Heap → ℕ → Option (ℕ × Heap)
malloc zero h size = none
malloc (suc fuel) h size =
    let rounded : ℕ = round_up 0x10 size in
    let search = malloc_loop fuel h h.heap_start rounded in
    let again = expand_heap h rounded >>= λ expanded. malloc fuel expanded rounded in
    if rounded == 0
    then some (0, h)
    else elim search [ none ↦ none | some none ↦ again | some (some found) ↦ some found ]
