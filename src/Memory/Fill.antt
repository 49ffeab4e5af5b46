-- ===== src/Memory/Fill.antt =====
-- The fill functions of rizzos/src/memory.c: they end, and which bytes they write.
use native.Mathlib.Nat.{mod-eq_of_lt, mod-eq-sub-mod}
use rizzos.Base.{
  ℕ, zero, suc, ◌+◌, ◌-◌, ◌*◌, ◌/◌, ◌%◌, ◌^◌, ◌≤◌, ◌<◌, ◌≡◌, ap, ◌∙◌, fun_ext, ◌⊎◌, inl, inr,
  Bool-cases, ◌&&◌, some, leb, ltb, le→ltb, lt→ltb, if◌then◌else◌, arith,
}
use rizzos.Memory.{Mem, byte, write_bytes, fill_loop, set64, set32, set8}

-- Memory with the low `width` bytes of `value` repeated over the `n` bytes from `a` on.
pub filled : (width : ℕ) → Mem → (a value n : ℕ) → Mem
filled width m a value n x = if leb a x && ltb x (a + n) then byte value ((x - a) % width) else m x

module _ (w : ℕ) (pos : 0 < w) where
  filled_step :
      (m : Mem) (a v n x : ℕ)
      → filled w (write_bytes w m a v) (a + w) v n x ≡ filled w m a v (w + n) x
  unfolding filled write_bytes
  filled_step m a v n x = elim (Bool-cases (leb (a + w) x)) [
    | inl later ↦
        let e : x - (a + w) ≡ x - a - w = omega arith in
        let e' : (x - a) % w ≡ (x - (a + w)) % w =
          rw e (mod-eq-sub-mod {n = x - a} {m = w} (ground arith)) in
        ground arith
    | inr now ↦ elim (Bool-cases (leb a x)) [
      | inl here ↦
          let e : (x - a) % w ≡ x - a = mod-eq_of_lt {n = x - a} {m = w} (ground arith) in
          ground arith
      | inr before ↦ ground arith
    ]
  ]

  filled_none : (m : Mem) (a v : ℕ) → filled w m a v 0 ≡ m
  unfolding filled
  filled_none m a v = fun_ext λ x. ground arith

  -- `n` rounds are left: the last of them starts below `num`, and the next would not.
  fill_loop-filled :
      (n fuel : ℕ) (m : Mem) (start v num i : ℕ)
      → n < fuel
      → num ≤ i + n * w
      → (n ≡ 0) ⊎ (i + n * w < num + w)
      → start + num + w ≤ 2 ^ 64
      → fill_loop w fuel m start v num i ≡ some (filled w m (start + i) v (n * w))
  unfolding fill_loop
  fill_loop-filled n zero m start v num i f lo hi small = absurd (omega arith)
  fill_loop-filled zero (suc fuel) m start v num i f lo hi small =
      let e : 0 * w ≡ 0 = omega arith in
      rw (le→ltb i num (omega arith), e, filled_none m (start + i) v)
  fill_loop-filled (suc n) (suc fuel) m start v num i f lo hi small =
      let a : (start + i) % 2 ^ 64 ≡ start + i = omega arith in
      let b : (i + w) % 2 ^ 64 ≡ i + w = omega arith in
      let c : start + (i + w) ≡ start + i + w = omega arith in
      let d : suc n * w ≡ w + n * w = omega arith in
      rw (lt→ltb i num (omega arith), a, b)
        (fill_loop-filled n fuel (write_bytes w m (start + i) v) start v num (i + w) (omega arith)
            (omega arith) (omega arith) small
          ∙ rw (c, d) (ap some (fun_ext (filled_step m (start + i) v (n * w)))))

  from_start :
      (n : ℕ) (m : Mem) (start v num : ℕ)
      → n ≤ num
      → num ≤ n * w
      → n * w < num + w
      → start + num + w ≤ 2 ^ 64
      → fill_loop w (num + 1) m start v num 0 ≡ some (filled w m start v (n * w))
  from_start n m start v num few lo hi small =
      let e : start + 0 ≡ start = omega arith in
      rw e at (
        fill_loop-filled n (num + 1) m start v num 0 (omega arith) (omega arith) (omega arith)
          small)

-- The number of bytes that a fill of `num` bytes in words of `width` bytes writes.
abbrev pub rounded : ℕ → ℕ → ℕ
rounded width num = (num + (width - 1)) / width * width

-- Where the range ends at least a word before the end of the address space, the three fill
-- functions come to their end, and leave the value in the bytes from `start` on, up to the first
-- multiple of the word's size that is not below `num`, and every other byte as it was.
pub set-filled :
    (m : Mem) (start value num : ℕ)
    → start + num + 8 ≤ 2 ^ 64
    → (set64 m start value num ≡ some (filled 8 m start value (rounded 8 num)))
      × (set32 m start value num ≡ some (filled 4 m start value (rounded 4 num)))
      × (set8 m start value num ≡ some (filled 1 m start value (num * 1)))
unfolding set64 set32 set8
set-filled m start value num small = (
  from_start 8 (omega arith) ((num + 7) / 8) m start value num (omega arith) (omega arith)
      (omega arith) small,
  from_start 4 (omega arith) ((num + 3) / 4) m start value num (omega arith) (omega arith)
      (omega arith) (omega arith),
  from_start 1 (omega arith) num m start value num (omega arith) (omega arith) (omega arith)
      (omega arith),
)

-- The bytes of a filled range, and those outside it.
pub filled-inside :
    (w : ℕ) (m : Mem) (a v n x : ℕ) → a ≤ x → x < a + n → filled w m a v n x ≡ byte v ((x - a) % w)
unfolding filled
filled-inside w m a v n x lo hi = ground arith

pub filled-outside :
    (w : ℕ) (m : Mem) (a v n x : ℕ) → (x < a) ⊎ (a + n ≤ x) → filled w m a v n x ≡ m x
unfolding filled
filled-outside w m a v n x h = ground arith
