-- ===== src/Bitmap/Laws.antt =====
-- What `Bitmap_Get` and `Bitmap_Set` of rizzos/src/utils/bitmap.c promise each other.
use rizzos.Base.{
  ℕ, ◌+◌, ◌*◌, ◌/◌, ◌%◌, ◌^◌, ◌≤◌, ◌<◌, ◌≡◌, Bool, true, false, ◌&&◌, ◌⊎◌, leb, ◌==◌, if◌then◌else◌,
  arith,
}
use rizzos.Base.Bits.{test_bit, bit_and-pow, test_bit-assign}
use rizzos.Memory.{Mem}
use rizzos.Bitmap.{Bitmap, get, set}

-- The index that the guard of `Bitmap_Set` lets through.
abbrev pub accepts : Bitmap → ℕ → Bool
accepts bitmap index = leb index (bitmap.size * 8 % 2 ^ 64)

pub get-test_bit :
    (m : Mem) (b : Bitmap) (i : ℕ) → get m b i ≡ test_bit (m (b.buffer + i / 8)) (i % 8)
unfolding get
get-test_bit m b i = ground (arith, bit_and-pow (m (b.buffer + i / 8)) (i % 8))

pub set-accepts : (m : Mem) (b : Bitmap) (i : ℕ) (v : Bool) → (set m b i v).0 ≡ accepts b i
unfolding set
set-accepts m b i v = ground arith

pub set_refused :
    (m : Mem) (b : Bitmap) (i : ℕ) (v : Bool) → accepts b i ≡ false → set m b i v ≡ (false, m)
unfolding set
set_refused m b i v h = ground arith

-- Whatever the index: an accepted one reads back as the value written, and every other index
-- reads as before; a refused one changes nothing.
pub get-set :
    (m : Mem) (b : Bitmap) (i j : ℕ) (v : Bool)
    → get (set m b i v).1 b j ≡ (if accepts b i && (i == j) then v else get m b j)
unfolding set
get-set m b i j v =
    rw (get-test_bit _ b j, get-test_bit m b j)
      (ground (
        arith,
        test_bit-assign 8 (m (b.buffer + i / 8)) (i % 8) (j % 8) v (omega arith) (omega arith),
      ))

-- An index below `size * 8` writes inside the `size` bytes of the buffer and nowhere else.
pub set-inside :
    (m : Mem) (b : Bitmap) (i : ℕ) (v : Bool) (x : ℕ)
    → i < b.size * 8
    → (x < b.buffer) ⊎ (b.buffer + b.size ≤ x)
    → (set m b i v).1 x ≡ m x
unfolding set
set-inside m b i v x h out = ground arith

-- Whatever the index, nothing changes outside the buffer and the byte behind it.
pub set-bytes :
    (m : Mem) (b : Bitmap) (i : ℕ) (v : Bool) (x : ℕ)
    → (x < b.buffer) ⊎ (b.buffer + b.size < x)
    → (set m b i v).1 x ≡ m x
unfolding set
set-bytes m b i v x out = ground arith

-- The guard lets the index `size * 8` through: the write goes to the byte behind the buffer.
pub set-overrun :
    (m : Mem) (b : Bitmap) (v : Bool)
    → b.size * 8 < 2 ^ 64
    → ((set m b (b.size * 8) v).0 ≡ true)
      × (test_bit ((set m b (b.size * 8) v).1 (b.buffer + b.size)) 0 ≡ v)
unfolding set
set-overrun m b v h =
    ground (arith, test_bit-assign 8 (m (b.buffer + b.size)) 0 0 v (omega arith) (omega arith))
