-- ===== src/Heap/Held.antt =====
-- The pages that the heap of rizzos/src/memory/heap.c holds.
use rizzos.Base.{
  ℕ, ◌+◌, ◌*◌, ◌/◌, ◌%◌, ◌^◌, ◌≤◌, ◌<◌, ◌≡◌, ◌≢◌, refl, sym, ◌∙◌, ap, ◌⊎◌, inl, inr, true, ltb,
  some, if◌then◌else◌, arith, Bool-cases,
}
use rizzos.Heap.Backing.{IsBacked}
use rizzos.PageFrame.{Pfa, locked, page_bound}
use rizzos.Paging.Walk.{walk}

-- Every address of the range has a physical page, `frame` of its virtual one, which is locked;
-- different pages have different ones.
pub record Held (root : ℕ) (s : Pfa) (start end : ℕ) : Type 0 where
  pub frame : ℕ → ℕ
  pub here :
      (v : ℕ)
      → start ≤ v
      → v < end
      → walk 4 s.mem root v ≡ some (frame (v / 4096) * 4096 + v % 4096)
  pub owned :
      (v : ℕ)
      → start ≤ v
      → v < end
      → (frame (v / 4096) < page_bound s) × (locked s (frame (v / 4096)) ≡ true)
  pub apart :
      (v w : ℕ)
      → start ≤ v
      → v < end
      → start ≤ w
      → w < end
      → v / 4096 ≢ w / 4096
      → frame (v / 4096) ≢ frame (w / 4096)

-- The pages held before the loop, and those of the loop
module _ (root : ℕ) (s s' : Pfa) (start end n : ℕ) (whole : end % 4096 ≡ 0)
    (low : end + n * 4096 ≤ 2 ^ 48) (held : Held root s start end)
    (b : IsBacked root s end n s') where
  abbrev frame' : ℕ → ℕ
  frame' p = if ltb p (end / 4096) then held.frame p else b.frame p

  which :
      (v : ℕ)
      → v < end + n * 4096
      → ((v < end) × (frame' (v / 4096) ≡ held.frame (v / 4096)))
        ⊎ ((end ≤ v) × (frame' (v / 4096) ≡ b.frame (v / 4096)))
  which v hi = elim (Bool-cases (ltb (v / 4096) (end / 4096))) [
    | inl old ↦ inl (ground (arith, old, whole), rw old refl)
    | inr new ↦ inr (ground (arith, new, whole), rw new refl)
  ]

  -- A page held before was not free.
  old_new :
      (v w : ℕ)
      → start ≤ v
      → v < end
      → end ≤ w
      → w < end + n * 4096
      → held.frame (v / 4096) ≢ b.frame (w / 4096)
  old_new v w lo hi lo' hi' q =
      absurd (cc ((held.owned v lo hi).1, (b.fresh w lo' hi').1, ap (locked s) q))

  pub Held-more : Held root s' start (end + n * 4096)
  Held-more = record {
    frame = frame';
    here = λ v lo hi. elim (which v hi) [
      | inl (lt, e) ↦
          b.others v (omega arith) (inl lt)
          ∙ held.here v lo lt
          ∙ ap (λ x. some (x * 4096 + v % 4096)) (sym e)
      | inr (ge, e) ↦ b.here v ge hi ∙ ap (λ x. some (x * 4096 + v % 4096)) (sym e)
    ];
    owned = λ v lo hi. elim (which v hi) [
      | inl (lt, e) ↦
          let (inside, on) = held.owned v lo lt in
          rw e (omega (arith, b.bound, inside), b.keeps (held.frame (v / 4096)) inside on)
      | inr (ge, e) ↦ rw e (omega (arith, b.bound, (b.fresh v ge hi).0), b.owned v ge hi)
    ];
    apart = λ v w lo hi lo' hi' other. elim (which v hi) [
      | inl (lt, e) ↦ elim (which w hi') [
        | inl (lt', e') ↦ rw (e, e') (held.apart v w lo lt lo' lt' other)
        | inr (ge', e') ↦ rw (e, e') (old_new v w lo lt ge' hi')
      ]
      | inr (ge, e) ↦ elim (which w hi') [
        | inl (lt', e') ↦ rw (e, e') (λ q. old_new w v lo' lt' ge hi (sym q))
        | inr (ge', e') ↦ rw (e, e') (b.apart v w ge hi ge' hi' other)
      ]
    ];
  }

-- No page is held at first.
pub Held-none : (root : ℕ) (s : Pfa) (start : ℕ) → Held root s start start
Held-none root s start = record {
  frame = λ p. 0;
  here = λ v lo hi. absurd (omega arith);
  owned = λ v lo hi. absurd (omega arith);
  apart = λ v w lo hi. absurd (omega arith);
}
