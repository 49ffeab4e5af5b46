-- ===== src/PageFrame/Request.antt =====
-- `PFA_RequestPage` of rizzos/src/paging/page_frame_allocator.c finds the lowest free page.
use rizzos.Base.{
  ℕ, zero, suc, ◌+◌, ◌-◌, ◌*◌, ◌/◌, ◌%◌, ◌^◌, ◌≤◌, ◌<◌, ◌≡◌, refl, sym, ◌⊎◌, inl, inr, true, false,
  ◌||◌, ltb, ltb→lt, ◌==◌, Bool-cases, arith,
}
use mathlib.Core.Path.{subst}
use rizzos.PageFrame.{Pfa, frame_size, locked, page_bound, lock_page, request_loop, request_page}
use rizzos.PageFrame.Bits.{locked-lock_page, page_bitmap-lock_page, mem-lock_page}
use rizzos.PageFrame.Lowest.{IsLowest}

-- The bitmap has no more bits than there are pages in a 64-bit address space.
abbrev pub IsSized : Pfa → Type 0
IsSized s = s.page_bitmap.size * 8 ≤ 2 ^ 52

-- A search from `from`: what a request that finds a page returns and leaves behind, and a
-- request that finds none.
pub record Granted (s : Pfa) (from : ℕ) (out : ℕ × Pfa) (i : ℕ) : Type 0 where
  pub address : out.0 ≡ i * frame_size
  pub inside : i < page_bound s
  pub after : from ≤ i
  pub was_free : locked s i ≡ false
  pub lowest : (j : ℕ) → from ≤ j → j < i → locked s j ≡ true
  pub bits : (j : ℕ) → locked out.1 j ≡ (locked s j || (i == j))
  pub bytes :
      (x : ℕ)
      → (x < s.page_bitmap.buffer) ⊎ (s.page_bitmap.buffer + s.page_bitmap.size < x)
      → out.1.mem x ≡ s.mem x
  pub same_bitmap : out.1.page_bitmap ≡ s.page_bitmap
  pub position : out.1.last_reserved_page ≡ i

pub record Exhausted (s : Pfa) (from : ℕ) (out : ℕ × Pfa) : Type 0 where
  pub null : out.0 ≡ 0
  pub unchanged : out.1 ≡ s
  pub none_free : (j : ℕ) → from ≤ j → j < page_bound s → locked s j ≡ true

module _ (s : Pfa) (sized : IsSized s) where
  grant :
      (i : ℕ)
      → i < page_bound s
      → locked s i ≡ false
      → Granted s i
          (
            i * frame_size % 2 ^ 64,
            record (lock_page s (i * frame_size % 2 ^ 64)) { last_reserved_page = i },
          )
          i
  grant i h free =
      let e : i * frame_size % 2 ^ 64 ≡ i * frame_size = omega arith in
      let e' : i * frame_size / frame_size ≡ i = omega arith in
      record {
        address = e;
        inside = h;
        after = omega arith;
        was_free = free;
        lowest = λ j p q. absurd (omega arith);
        bits = λ j. rw e (ground (arith, locked-lock_page s (i * frame_size) j, e'));
        bytes = mem-lock_page s (i * frame_size % 2 ^ 64);
        same_bitmap = page_bitmap-lock_page s (i * frame_size % 2 ^ 64);
        position = refl;
      }

  -- Two stretches of locked pages that meet, `here` being the second one's start.
  join :
      (from here n : ℕ)
      → ((j : ℕ) → from ≤ j → j < here → locked s j ≡ true)
      → ((j : ℕ) → here ≤ j → j < n → locked s j ≡ true)
      → (j : ℕ) → from ≤ j
      → j < n
      → locked s j ≡ true
  join from here n below above j p q = elim (Bool-cases (ltb j here)) [
    | inl lt ↦ below j p (ltb→lt j here lt)
    | inr ge ↦ above j (ground arith) q
  ]

  only : (from : ℕ) → locked s from ≡ true → (j : ℕ) → from ≤ j → j < from + 1 → locked s j ≡ true
  only from on j p q = let e : j ≡ from = omega arith in rw e on

  widen :
      (from here : ℕ) (out : ℕ × Pfa)
      → from ≤ here
      → ((j : ℕ) → from ≤ j → j < here → locked s j ≡ true)
      → ((i : ℕ) × Granted s here out i) ⊎ Exhausted s here out
      → ((i : ℕ) × Granted s from out i) ⊎ Exhausted s from out
  widen from here out h below (inl (i, g)) = inl (
    i,
    record {
      address = g.address;
      inside = g.inside;
      after = omega (arith, g.after);
      was_free = g.was_free;
      lowest = join from here i below g.lowest;
      bits = g.bits;
      bytes = g.bytes;
      same_bitmap = g.same_bitmap;
      position = g.position;
    },
  )
  widen from here out h below (inr x) = inr (record {
    null = x.null;
    unchanged = x.unchanged;
    none_free = join from here (page_bound s) below x.none_free;
  })

  -- The loop, with the bound as many rounds away as are left.
  request_loop-search :
      (from rounds : ℕ)
      → from + rounds ≡ page_bound s ⊎ (rounds ≡ 0) × (page_bound s ≤ from)
      → ((i : ℕ) × Granted s from (request_loop s from rounds) i)
        ⊎ Exhausted s from (request_loop s from rounds)
  unfolding request_loop
  request_loop-search from zero h =
      inr (record { null = refl; unchanged = refl; none_free = λ j p q. absurd (omega arith) })
  request_loop-search from (suc rounds) h = elim (Bool-cases (locked s from)) [
    | inr free ↦ rw free (inl (from, grant from (omega arith) free))
    | inl on ↦ rw on (
        widen from (from + 1) (request_loop s (from + 1) rounds) (omega arith) (only from on)
          (request_loop-search (from + 1) rounds (omega arith)))
  ]

  -- With every page below the search position locked, a request returns the address of the
  -- lowest free page of the bitmap, which it locks and makes the search position, and no other
  -- page's bit changes; or, when it returns NULL from the end of its search, no page of the
  -- bitmap is free and nothing changes.
  pub request_page-lowest :
      IsLowest s → ((i : ℕ) × Granted s 0 (request_page s) i) ⊎ Exhausted s 0 (request_page s)
  unfolding request_page
  request_page-lowest low =
      widen 0 s.last_reserved_page _ (omega arith) (λ j p q. low j q)
        (request_loop-search s.last_reserved_page (page_bound s - s.last_reserved_page)
          (omega arith))

  -- A request keeps every page below the search position locked.
  pub request_page-IsLowest : IsLowest s → IsLowest (request_page s).1
  request_page-IsLowest low j h = elim (request_page-lowest low) [
    | inl (i, g) ↦ ground (arith, g.bits j, g.position, g.lowest j)
    | inr x ↦ let e : IsLowest (request_page s).1 = subst IsLowest (sym x.unchanged) low in e j h
  ]
