-- ===== src/Memory/Bytes.antt =====
-- Numbers of any width in memory: what is read, and what a write leaves there.
use rizzos.Base.{ℕ, zero, suc, ◌+◌, ◌-◌, ◌*◌, ◌/◌, ◌%◌, ◌^◌, ◌≤◌, ◌<◌, ◌≡◌, refl, ◌∙◌, ap, arith}
use rizzos.Memory.{Mem, byte, write_bytes, read_bytes}

-- Every byte of memory is below 256.
abbrev pub IsBytes : Mem → Type 0
IsBytes m = (a : ℕ) → m a < 256

pub read_bytes-agree :
    (n : ℕ) (m m' : Mem) (a : ℕ)
    → ((x : ℕ) → a ≤ x → x < a + n → m' x ≡ m x)
    → read_bytes n m' a ≡ read_bytes n m a
unfolding read_bytes
read_bytes-agree zero m m' a h = refl
read_bytes-agree (suc n) m m' a h =
    let rest = read_bytes-agree n m m' (a + 1) (λ x p q. h x (omega arith) (omega arith)) in
    rw (h a (omega arith) (omega arith), rest)

-- A byte of a number that was read is the byte of memory.
pub byte-read_bytes :
    (n : ℕ) (m : Mem) (a j : ℕ) → IsBytes m → j < n → byte (read_bytes n m a) j ≡ m (a + j)
unfolding read_bytes byte
byte-read_bytes zero m a j h p = absurd (omega arith)
byte-read_bytes (suc n) m a zero h p =
    let here : a + 0 ≡ a = omega arith in rw here (omega (arith, h a))
byte-read_bytes (suc n) m a (suc j) h p =
    let rest : (m a + 2 ^ 8 * read_bytes n m (a + 1)) / 256 ≡ read_bytes n m (a + 1) =
      omega (arith, h a) in
    let there : a + 1 + j ≡ a + suc j = omega arith in
    rw (rest, ← there) (byte-read_bytes n m (a + 1) j h (omega arith))

pub byte-lt : (v j : ℕ) → byte v j < 256
unfolding byte
byte-lt v zero = omega arith
byte-lt v (suc j) = byte-lt (v / 256) j

-- A write of a number that was read at the same place of another memory copies its bytes.
pub write_bytes-copy :
    (n : ℕ) (m u : Mem) (a x : ℕ)
    → IsBytes u
    → (a ≤ x) × (x < a + n)
    → write_bytes n m a (read_bytes n u a) x ≡ u x
unfolding write_bytes
write_bytes-copy n m u a x h p =
    let there : a + (x - a) ≡ x = omega arith in
    let copied : byte (read_bytes n u a) (x - a) ≡ u x =
      byte-read_bytes n u a (x - a) h (omega arith) ∙ ap u there in
    ground (arith, copied)

byte_at : (n : ℕ) (m : Mem) (a v i : ℕ) → i < n → write_bytes n m a v (a + i) ≡ byte v i
unfolding write_bytes
byte_at n m a v i h = let e : a + i - a ≡ i = omega arith in ground (arith, e)

-- A 32-bit word reads back as its low 32 bits.
pub read32-write32 : (m : Mem) (a v : ℕ) → read_bytes 4 (write_bytes 4 m a v) a ≡ v % 2 ^ 32
unfolding read_bytes byte
read32-write32 m a v =
    let e : a + 0 ≡ a = omega arith in
    let e2 : a + 1 + 1 ≡ a + 2 = omega arith in
    let e3 : a + 2 + 1 ≡ a + 3 = omega arith in
    let zeroth : write_bytes 4 m a v a ≡ byte v 0 = rw e at (byte_at 4 m a v 0 (omega arith)) in
    rw
      (
        e2,
        e3,
        zeroth,
        byte_at 4 m a v 1 (omega arith),
        byte_at 4 m a v 2 (omega arith),
        byte_at 4 m a v 3 (omega arith),
      )
      (omega arith)

-- A 16-bit word reads back as its low 16 bits.
pub read16-write16 : (m : Mem) (a v : ℕ) → read_bytes 2 (write_bytes 2 m a v) a ≡ v % 2 ^ 16
unfolding read_bytes byte
read16-write16 m a v =
    let e : a + 0 ≡ a = omega arith in
    let zeroth : write_bytes 2 m a v a ≡ byte v 0 = rw e at (byte_at 2 m a v 0 (omega arith)) in
    rw (zeroth, byte_at 2 m a v 1 (omega arith)) (omega arith)

-- A 32-bit word is below 2^32, and a write leaves bytes.
pub read32-lt : (m : Mem) (a : ℕ) → IsBytes m → read_bytes 4 m a < 2 ^ 32
unfolding read_bytes
read32-lt m a h = omega (arith, h a, h (a + 1), h (a + 1 + 1), h (a + 1 + 1 + 1))

pub write_bytes-IsBytes : (n : ℕ) (m : Mem) (a v : ℕ) → IsBytes m → IsBytes (write_bytes n m a v)
unfolding write_bytes
write_bytes-IsBytes n m a v h x = ground (arith, h x, byte-lt v (x - a))
