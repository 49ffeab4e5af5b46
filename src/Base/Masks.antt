-- ===== src/Base/Masks.antt =====
-- `x & mask` where the mask is a run of ones, at every width.
use Prim.Native.Nat.{ℕ, ◌+◌, ◌-◌, ◌*◌, ◌/◌, ◌%◌, ◌^◌, bit_and}
use mathlib.Core.Path.{◌≡◌, ap}
use native.Mathlib.Omega.{arith}
use native.Mathlib.Nat.{one-le-pow}
use rizzos.Base.Tests.{ltb}
use rizzos.Base.Bits.{
  test_bit, test_bit-bit_and, test_bit-mod, test_bit-shl, test_bit-shr, test_bit-complement,
  test_bit_zero, complement, eq_of_bits,
}

ones : (w k : ℕ) → test_bit (2 ^ w - 1) k ≡ ltb k w
unfolding complement
ones w k =
    let e : 2 ^ w - 1 ≡ complement w 0 = omega arith in
    rw e (ground (arith, test_bit-complement w 0 k (one-le-pow w 2 (omega arith)), test_bit_zero k))

-- The low `w` bits.
pub bit_and-low : (w a : ℕ) → bit_and a (2 ^ w - 1) ≡ a % 2 ^ w
bit_and-low w a =
    eq_of_bits _ _
      (λ k. ground (arith, test_bit-bit_and a (2 ^ w - 1) k, ones w k, test_bit-mod a w k))

-- The `w` bits from bit `s` on.
pub bit_and-field : (s w a : ℕ) → bit_and a ((2 ^ w - 1) * 2 ^ s) / 2 ^ s ≡ a / 2 ^ s % 2 ^ w
bit_and-field s w a = eq_of_bits _ _ (λ k. ground (
  arith,
  test_bit-shr (bit_and a ((2 ^ w - 1) * 2 ^ s)) s k,
  test_bit-bit_and a ((2 ^ w - 1) * 2 ^ s) (s + k),
  test_bit-shl (2 ^ w - 1) s (s + k),
  ap (test_bit (2 ^ w - 1)) (back s k),
  ones w k,
  test_bit-mod (a / 2 ^ s) w k,
  test_bit-shr a s k,
))
  where
    back : (s k : ℕ) → s + k - s ≡ k
    back s k = omega arith
