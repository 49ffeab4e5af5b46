-- ===== src/Heap/Split.antt =====
-- `MEM_HeapSegHdrSplit` of rizzos/src/memory/heap.c: the headers that it writes, and what it does
use rizzos.Base.{
  ℕ, ◌+◌, ◌-◌, ◌*◌, ◌%◌, ◌^◌, ◌≤◌, ◌<◌, ◌≡◌, ap, ◌≢◌, ◌⊎◌, false, ◌||◌, ◌==◌, ltb, leb,
  if◌then◌else◌, arith,
}
use rizzos.Heap.{HeapSegHdr, Heap, hdr_size, split}
use rizzos.Heap.Segments.{Segment, header}

-- The two segments that a split leaves: both have the length asked for.
abbrev pub front : Segment → ℕ → Segment
front a size = record a { lenght = size }

abbrev pub behind : Segment → ℕ → Segment
behind a size = record { addr = a.addr + size + hdr_size; lenght = size; free = a.free }

-- Where the source splits: the length asked for and the one that is left are 16 at least.
pub record Splits (a : Segment) (size : ℕ) : Type 0 where
  pub asked : 0x10 ≤ size
  pub left : size + hdr_size + 0x10 ≤ a.lenght
  pub signed : a.lenght < 2 ^ 63
  pub reach : a.addr + hdr_size + a.lenght < 2 ^ 64

module _ (h : Heap) (last n size : ℕ) (a : Segment) (at_a : h.seg a.addr ≡ header last n a)
    (ok : Splits a size) (after : (n ≡ 0) ⊎ (a.addr + size + hdr_size < n))
    (above : 0 < a.addr) where
  abbrev new : ℕ
  new = a.addr + size + hdr_size

  abbrev done : Heap
  done = (split h a.addr size).1

  new_small : (a.addr + size + hdr_size) % 2 ^ 64 ≡ new
  new_small = omega (arith, ok.left, ok.reach)

  asked_enough : ltb size 0x10 ≡ false
  asked_enough = ground (arith, ok.asked)

  left_enough :
      (ltb ((a.lenght + 2 * 2 ^ 64 - size - hdr_size) % 2 ^ 64) 0x10
        || leb (2 ^ 63) ((a.lenght + 2 * 2 ^ 64 - size - hdr_size) % 2 ^ 64))
      ≡ false
  left_enough = ground (arith, ok.left, ok.signed)

  pub split_at : done.seg a.addr ≡ header last new (front a size)
  unfolding split
  split_at = ground (arith, at_a, asked_enough, left_enough, new_small, ok.asked)

  not_front : (a.addr == new) ≡ false
  not_front = ground (arith, ok.asked)

  not_next : (n == new) ≡ false
  not_next = ground (arith, after, above)

  same_next : (h.seg a.addr).next ≡ n
  same_next = ap (λ (s : HeapSegHdr). s.next) at_a

  new_lenght : (done.seg new).lenght ≡ size
  unfolding split
  new_lenght = ground (arith, asked_enough, left_enough, new_small, not_front)

  new_next : (done.seg new).next ≡ n
  unfolding split
  new_next = ground (arith, asked_enough, left_enough, new_small, not_front, not_next, same_next)

  new_last : (done.seg new).last ≡ a.addr
  unfolding split
  new_last = ground (arith, asked_enough, left_enough, new_small, not_front)

  new_free : (done.seg new).free ≡ a.free
  unfolding split
  new_free =
      let same : (h.seg a.addr).free ≡ a.free = ap (λ (s : HeapSegHdr). s.free) at_a in
      ground (arith, asked_enough, left_enough, new_small, not_front, not_next, same_next, same)

  pub split_new : done.seg new ≡ header a.addr n (behind a size)
  split_new =
      λ i. record { lenght = new_lenght i; next = new_next i; last = new_last i; free = new_free i }

  pub split_after : n ≢ 0 → done.seg n ≡ record (h.seg n) { last = new }
  unfolding split
  split_after some_next = ground (arith, at_a, asked_enough, left_enough, new_small, ok.asked)

  pub split_elsewhere : (x : ℕ) → x ≢ a.addr → x ≢ new → x ≢ n → done.seg x ≡ h.seg x
  unfolding split
  split_elsewhere x p q r = ground (arith, at_a, asked_enough, left_enough, new_small, ok.asked)

  pub split_last : done.last_hdr ≡ (if h.last_hdr == a.addr then new else h.last_hdr)
  unfolding split
  split_last = ground (arith, asked_enough, left_enough, new_small)

  pub split_start : done.heap_start ≡ h.heap_start
  unfolding split
  split_start = ground (arith, asked_enough, left_enough, new_small)
