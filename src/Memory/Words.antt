-- ===== src/Memory/Words.antt =====
-- 64-bit words over the bytes of memory.
use rizzos.Base.{ℕ, ◌+◌, ◌-◌, ◌%◌, ◌^◌, ◌≤◌, ◌<◌, ◌≡◌, refl, ◌∙◌, ◌⊎◌, arith}
use rizzos.Memory.{Mem, byte, write_bytes, write64, read64}

byte_at : (m : Mem) (a v i : ℕ) → i < 8 → write64 m a v (a + i) ≡ byte v i
unfolding write_bytes
byte_at m a v i h = let e : a + i - a ≡ i = omega arith in ground (arith, e)

byte_zero : (m : Mem) (a v : ℕ) → write64 m a v a ≡ byte v 0
unfolding write_bytes
byte_zero m a v = let e : a - a ≡ 0 = omega arith in ground (arith, e)

-- What is written is the low 64 bits.
pub read64-write64_mod : (m : Mem) (a v : ℕ) → read64 (write64 m a v) a ≡ v % 2 ^ 64
unfolding read64 byte
read64-write64_mod m a v =
    rw
      (
        byte_zero m a v,
        byte_at m a v 1 (omega arith),
        byte_at m a v 2 (omega arith),
        byte_at m a v 3 (omega arith),
        byte_at m a v 4 (omega arith),
        byte_at m a v 5 (omega arith),
        byte_at m a v 6 (omega arith),
        byte_at m a v 7 (omega arith),
      )
      (omega arith)

-- A 64-bit word reads back as written.
pub read64-write64 : (m : Mem) (a v : ℕ) → v < 2 ^ 64 → read64 (write64 m a v) a ≡ v
read64-write64 m a v h = omega (arith, read64-write64_mod m a v)

pub write_bytes-outside :
    (n : ℕ) (m : Mem) (a v x : ℕ) → (x < a) ⊎ (a + n ≤ x) → write_bytes n m a v x ≡ m x
unfolding write_bytes
write_bytes-outside n m a v x h = ground arith

-- A word whose eight bytes agree is the same word.
pub read64-agree :
    (m m' : Mem) (b : ℕ) → ((x : ℕ) → b ≤ x → x < b + 8 → m' x ≡ m x) → read64 m' b ≡ read64 m b
unfolding read64
read64-agree m m' b h = rw (
  h b (omega arith) (omega arith),
  h (b + 1) (omega arith) (omega arith),
  h (b + 2) (omega arith) (omega arith),
  h (b + 3) (omega arith) (omega arith),
  h (b + 4) (omega arith) (omega arith),
  h (b + 5) (omega arith) (omega arith),
  h (b + 6) (omega arith) (omega arith),
  h (b + 7) (omega arith) (omega arith),
)

pub read64_zero : (m : Mem) (b : ℕ) → ((x : ℕ) → b ≤ x → x < b + 8 → m x ≡ 0) → read64 m b ≡ 0
unfolding read64
read64_zero m b h = read64-agree (λ x. 0) m b h ∙ refl

-- A write leaves the words that it does not overlap.
pub read64-write_bytes :
    (n : ℕ) (m : Mem) (a v b : ℕ)
    → (b + 8 ≤ a) ⊎ (a + n ≤ b)
    → read64 (write_bytes n m a v) b ≡ read64 m b
read64-write_bytes n m a v b h =
    read64-agree m (write_bytes n m a v) b (λ x p q. write_bytes-outside n m a v x (omega arith))
