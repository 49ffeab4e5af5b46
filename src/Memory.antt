-- ===== src/Memory.antt =====
-- rizzos/src/memory.c: the memory, its 64-bit words, and the fill loops.
pub mod Bytes
pub mod Fill
pub mod Names
pub mod Words
use rizzos.Base.{
  ℕ, zero, suc, ◌+◌, ◌-◌, ◌*◌, ◌/◌, ◌%◌, ◌^◌, ◌≤◌, ◌≡◌, refl, Bool, true, false, ◌&&◌, Option, none,
  some, leb, ltb, if◌then◌else◌,
}

-- Every address holds a byte.
abbrev pub Mem : Type 0
Mem = ℕ → ℕ

-- Byte `i` of a number, from the least significant on.
unfoldable pub byte : ℕ → ℕ → ℕ
byte v zero = v % 256
byte v (suc i) = byte (v / 256) i

pub byte_of_zero : (i : ℕ) → byte 0 i ≡ 0
unfolding byte
byte_of_zero zero = refl
byte_of_zero (suc i) = byte_of_zero i

-- The `n` bytes from `a` on hold the low bytes of `v`.
unfoldable pub write_bytes : ℕ → Mem → ℕ → ℕ → Mem
write_bytes n m a v x = if leb a x && ltb x (a + n) then byte v (x - a) else m x

-- `*(uint64_t*) a = v` and `*(uint64_t*) a`
abbrev pub write64 : Mem → ℕ → ℕ → Mem
write64 = write_bytes 8

unfoldable pub read64 : Mem → ℕ → ℕ
read64 m a =
    m a
    + 2 ^ 8 * m (a + 1)
    + 2 ^ 16 * m (a + 2)
    + 2 ^ 24 * m (a + 3)
    + 2 ^ 32 * m (a + 4)
    + 2 ^ 40 * m (a + 5)
    + 2 ^ 48 * m (a + 6)
    + 2 ^ 56 * m (a + 7)

-- The `n` bytes from `a` on as a number, the least significant first.
unfoldable pub read_bytes : ℕ → Mem → ℕ → ℕ
read_bytes zero m a = 0
read_bytes (suc n) m a = m a + 2 ^ 8 * read_bytes n m (a + 1)

-- `*(uint16_t*) a`, `*(uint32_t*) a`, and `*(uint32_t*) a = v`
abbrev pub read16 : Mem → ℕ → ℕ
read16 = read_bytes 2

abbrev pub read32 : Mem → ℕ → ℕ
read32 = read_bytes 4

abbrev pub write32 : Mem → ℕ → ℕ → Mem
write32 = write_bytes 4

-- `for (i = 0; i < num; i += width) *(start + i) = value`, which all three fill functions are.
-- Out of fuel is `none`; `i` is a `uint64_t`.
pub fill_loop : (width : ℕ) → ℕ → Mem → (start value num i : ℕ) → Option Mem
fill_loop width zero m start value num i = none
fill_loop width (suc fuel) m start value num i =
    let rest =
      fill_loop width fuel (write_bytes width m ((start + i) % 2 ^ 64) value) start value num
        ((i + width) % 2 ^ 64) in
    if ltb i num then rest else some m

-- `MEM_Set64`, `MEM_Set32` and `MEM_Set`, with a round of fuel for each word and one for the end.
pub set64 : Mem → (start value num : ℕ) → Option Mem
set64 m start value num = fill_loop 8 (num + 1) m start value num 0

pub set32 : Mem → (start value num : ℕ) → Option Mem
set32 m start value num = fill_loop 4 (num + 1) m start value num 0

pub set8 : Mem → (start value num : ℕ) → Option Mem
set8 m start value num = fill_loop 1 (num + 1) m start value num 0
