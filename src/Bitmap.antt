-- ===== src/Bitmap.antt =====
-- rizzos/src/utils/bitmap.c: a bitmap over bytes that lie in memory at `buffer`.
pub mod Laws
mod Tests
use rizzos.Base.{
  ℕ, ◌+◌, ◌*◌, ◌/◌, ◌%◌, ◌^◌, Bool, true, false, bit_and, bit_or, ltb, if◌then◌else◌, update,
}
use rizzos.Base.Bits.{complement}
use rizzos.Memory.{Mem}

pub record Bitmap : Type 0 where
  pub size : ℕ
  pub buffer : ℕ

-- `Bitmap_Get`. The pointer sum `buffer + byte_index` is that of the addresses; it has no check.
unfoldable pub get : Mem → Bitmap → ℕ → Bool
get m bitmap index =
    let byte_index : ℕ = index / 8 in
    let bit_index : ℕ = index % 8 in
    let bit_mask : ℕ = 2 ^ bit_index in
    if ltb 0 (bit_and (m (bitmap.buffer + byte_index)) bit_mask) then true else false

-- `Bitmap_Set`: the answer, and the memory afterwards. The second write is made if `value` is set.
unfoldable pub set : Mem → Bitmap → ℕ → Bool → Bool × Mem
set m bitmap index value =
    let byte_index : ℕ = index / 8 in
    let bit_index : ℕ = index % 8 in
    let bit_mask : ℕ = 2 ^ bit_index in
    let cell : ℕ = bitmap.buffer + byte_index in
    let cleared : ℕ = bit_and (m cell) (complement 8 bit_mask) in
    if ltb (bitmap.size * 8 % 2 ^ 64) index
    then (false, m)
    else (true, update m cell (if value then bit_or cleared bit_mask else cleared))
