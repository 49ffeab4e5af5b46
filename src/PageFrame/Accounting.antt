-- ===== src/PageFrame/Accounting.antt =====
-- The three counters of rizzos/src/paging/page_frame_allocator.c against each other and against
-- the bits.
use rizzos.Base.{
  ℕ, zero, suc, ◌+◌, ◌-◌, ◌*◌, ◌/◌, ◌%◌, ◌^◌, ◌<◌, ◌≡◌, refl, Bool, true, false, not, ◌⊎◌, ◌==◌,
  if◌then◌else◌, Bool-cases, inl, inr, arith,
}
use rizzos.Bitmap.Laws.{accepts, set-accepts, set_refused}
use rizzos.PageFrame.{
  Pfa, frame_size, add_frame, sub_frame, locked, page_bound, lock_page, free_page, reserve_page,
  unreserve_page, for_pages, lock_pages, free_pages, reserve_pages, unreserve_pages, request_loop,
  request_page,
}
use rizzos.PageFrame.Ranges.{
  Writes, lock_page-Writes, free_page-Writes, reserve_page-Writes, unreserve_page-Writes,
}

same_or_not : (a b : Bool) → (a ≡ b) ⊎ (a ≡ not b)
same_or_not a b = ground arith

-- What the three counters add up to.
unfoldable pub ledger : Pfa → ℕ
ledger s = (s.free_memory + s.reserved_memory + s.used_memory) % 2 ^ 64

-- How many of the indices below `n` have a clear bit.
unfoldable pub count_clear : (ℕ → Bool) → ℕ → ℕ
count_clear bits zero = 0
count_clear bits (suc n) = count_clear bits n + (if bits n then 0 else 1)

pub count_clear-agree :
    (f g : ℕ → Bool) (n : ℕ) → ((j : ℕ) → j < n → f j ≡ g j) → count_clear f n ≡ count_clear g n
unfolding count_clear
count_clear-agree f g zero h = refl
count_clear-agree f g (suc n) h =
    ground (arith, h n, count_clear-agree f g n (λ j p. h j (omega arith)))

-- Setting one clear bit below `n` takes one off the count.
pub count_clear-set :
    (f g : ℕ → Bool) (i n : ℕ)
    → i < n
    → f i ≡ false
    → ((j : ℕ) → j < n → g j ≡ (if i == j then true else f j))
    → count_clear g n + 1 ≡ count_clear f n
unfolding count_clear
count_clear-set f g i zero h off bits = absurd (omega arith)
count_clear-set f g i (suc n) h off bits = elim (Bool-cases (i == n)) [
  | inl here ↦ ground (
    arith,
    bits n (omega arith),
    count_clear-agree g f n (λ j p. ground (arith, bits j (omega arith))),
  )
  | inr below ↦ ground (
    arith,
    bits n (omega arith),
    count_clear-set f g i n (ground arith) off (λ j p. bits j (omega arith)),
  )
]

-- The pages that the free counter should count: those with a clear bit that can be written.
unfoldable pub clear_pages : Pfa → ℕ
clear_pages s = count_clear (locked s) (page_bound s + 1)

-- An operation that does nothing to a page whose bit is `v` already, or that the bitmap does not
-- take, and that otherwise moves a frame out of the free memory (`v` is true) or into it.
pub record Moves (op : Pfa → ℕ → Pfa) (v : Bool) : Type 0 where
  pub idle :
      (s : Pfa) (a : ℕ)
      → (locked s (a / frame_size) ≡ v) ⊎ (accepts s.page_bitmap (a / frame_size) ≡ false)
      → op s a ≡ s
  pub free_moves :
      (s : Pfa) (a : ℕ)
      → locked s (a / frame_size) ≡ not v
      → accepts s.page_bitmap (a / frame_size) ≡ true
      → (op s a).free_memory ≡ (if v then sub_frame s.free_memory else add_frame s.free_memory)
  pub rest_moves :
      (s : Pfa) (a : ℕ)
      → locked s (a / frame_size) ≡ not v
      → accepts s.page_bitmap (a / frame_size) ≡ true
      → ((op s a).reserved_memory + (op s a).used_memory) % 2 ^ 64 ≡ (
          if v
          then add_frame (s.reserved_memory + s.used_memory)
          else sub_frame (s.reserved_memory + s.used_memory))

lock_page-Moves : Moves lock_page true
unfolding lock_page
lock_page-Moves = record {
  idle = λ s a h. ground (arith, set_refused s.mem s.page_bitmap (a / frame_size) true);
  free_moves = λ s a off ok. ground (arith, set-accepts s.mem s.page_bitmap (a / frame_size) true);
  rest_moves = λ s a off ok. ground (arith, set-accepts s.mem s.page_bitmap (a / frame_size) true);
}

reserve_page-Moves : Moves reserve_page true
unfolding reserve_page
reserve_page-Moves = record {
  idle = λ s a h. ground (arith, set_refused s.mem s.page_bitmap (a / frame_size) true);
  free_moves = λ s a off ok. ground (arith, set-accepts s.mem s.page_bitmap (a / frame_size) true);
  rest_moves = λ s a off ok. ground (arith, set-accepts s.mem s.page_bitmap (a / frame_size) true);
}

free_page-Moves : Moves free_page false
unfolding free_page
free_page-Moves = record {
  idle = λ s a h. ground (arith, set_refused s.mem s.page_bitmap (a / frame_size) false);
  free_moves = λ s a on ok. ground (arith, set-accepts s.mem s.page_bitmap (a / frame_size) false);
  rest_moves = λ s a on ok. ground (arith, set-accepts s.mem s.page_bitmap (a / frame_size) false);
}

unreserve_page-Moves : Moves unreserve_page false
unfolding unreserve_page
unreserve_page-Moves = record {
  idle = λ s a h. ground (arith, set_refused s.mem s.page_bitmap (a / frame_size) false);
  free_moves = λ s a on ok. ground (arith, set-accepts s.mem s.page_bitmap (a / frame_size) false);
  rest_moves = λ s a on ok. ground (arith, set-accepts s.mem s.page_bitmap (a / frame_size) false);
}

-- The counters add up to `l`, and the free counter is `c` and a frame for each clear page, all
-- modulo `2 ^ 64`.
pub record IsCounted (l c : ℕ) (s : Pfa) : Type 0 where
  pub balanced : ledger s ≡ l
  pub counted : s.free_memory % 2 ^ 64 ≡ (c + frame_size * clear_pages s) % 2 ^ 64

module _ {op : Pfa → ℕ → Pfa} {v : Bool} (w : Writes op v) (mv : Moves op v) (l c : ℕ) where
  clear-op :
      (s : Pfa) (a : ℕ)
      → locked s (a / frame_size) ≡ not v
      → accepts s.page_bitmap (a / frame_size) ≡ true
      → clear_pages (op s a) + (if v then 1 else 0) ≡ clear_pages s + (if v then 0 else 1)
  unfolding clear_pages
  clear-op s a other ok =
      let t = op s a in
      let e : t.page_bitmap ≡ s.page_bitmap = w.same_bitmap s a in
      let i = a / frame_size in
      elim (Bool-cases v) [
        | inl set ↦ ground (
          arith,
          e,
          count_clear-set (locked s) (locked t) i (page_bound s + 1) (ground arith) (ground arith)
              (λ j p. ground (arith, w.bit s a j)),
        )
        | inr reset ↦ ground (
          arith,
          e,
          count_clear-set (locked t) (locked s) i (page_bound s + 1) (ground arith)
              (ground (arith, w.bit s a i)) (λ j p. ground (arith, w.bit s a j)),
        )
      ]

  moved :
      (s : Pfa) (a : ℕ)
      → locked s (a / frame_size) ≡ not v
      → accepts s.page_bitmap (a / frame_size) ≡ true
      → IsCounted l c s
      → IsCounted l c (op s a)
  unfolding ledger
  moved s a other ok h =
      ground (arith, clear-op s a other ok, mv.free_moves s a other ok, mv.rest_moves s a other ok)

  op-IsCounted : (s : Pfa) (a : ℕ) → IsCounted l c s → IsCounted l c (op s a)
  op-IsCounted s a h = elim (Bool-cases (accepts s.page_bitmap (a / frame_size))) [
    | inr out ↦ rw (mv.idle s a (inr out)) h
    | inl ok ↦ elim (same_or_not (locked s (a / frame_size)) v) [
      | inl same ↦ rw (mv.idle s a (inl same)) h
      | inr other ↦ moved s a other ok h
    ]
  ]

  for_pages-IsCounted :
      (s : Pfa) (a i n : ℕ) → IsCounted l c s → IsCounted l c (for_pages op s a i n)
  unfolding for_pages
  for_pages-IsCounted s a i zero h = h
  for_pages-IsCounted s a i (suc n) h =
      for_pages-IsCounted (op s ((a + i * frame_size) % 2 ^ 64)) a (i + 1) n (op-IsCounted s _ h)

request_loop-IsCounted :
    (l c : ℕ) (s : Pfa) (i rounds : ℕ) → IsCounted l c s → IsCounted l c (request_loop s i rounds).1
unfolding request_loop ledger clear_pages
request_loop-IsCounted l c s i zero ok = ok
request_loop-IsCounted l c s i (suc rounds) ok = ground (
  arith,
  request_loop-IsCounted l c s (i + 1) rounds ok,
  op-IsCounted lock_page-Writes lock_page-Moves l c s (i * frame_size % 2 ^ 64) ok,
)

module _ (l c : ℕ) (s : Pfa) (ok : IsCounted l c s) where
  -- Locking, freeing, reserving or unreserving any range, and a request for a page, leave the sum
  -- of the counters as it was, and move the free counter by a frame for each page that becomes
  -- clear or stops being so.
  pub operations-IsCounted :
      (a n : ℕ)
      → IsCounted l c (lock_pages s a n)
        × IsCounted l c (free_pages s a n)
        × IsCounted l c (reserve_pages s a n)
        × IsCounted l c (unreserve_pages s a n)
        × IsCounted l c (request_page s).1
  unfolding lock_pages free_pages reserve_pages unreserve_pages request_page
  operations-IsCounted a n = (
    for_pages-IsCounted lock_page-Writes lock_page-Moves l c s a 0 n ok,
    for_pages-IsCounted free_page-Writes free_page-Moves l c s a 0 n ok,
    for_pages-IsCounted reserve_page-Writes reserve_page-Moves l c s a 0 n ok,
    for_pages-IsCounted unreserve_page-Writes unreserve_page-Moves l c s a 0 n ok,
    request_loop-IsCounted l c s s.last_reserved_page (page_bound s - s.last_reserved_page) ok,
  )
