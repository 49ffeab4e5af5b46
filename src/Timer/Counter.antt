-- ===== src/Timer/Counter.antt =====
-- What the timer counts from after rizzos/src/scheduling/pit.c has set its divisor.
use native.Mathlib.Nat.{le-div_iff_mul-le, div-lt_iff_lt-mul}
use rizzos.Base.{
  ℕ, ◌+◌, ◌*◌, ◌/◌, ◌%◌, ◌^◌, ◌≤◌, ◌<◌, ◌≡◌, ◌↔◌, ltb, ◌==◌, bit_and, List, [], ◌∷◌, if◌then◌else◌,
  arith,
}
use rizzos.Base.Masks.{bit_and-low}
use rizzos.Timer.{OutByte, set_divisor, get_frequency}

-- The counter that the device makes of the bytes that it is sent: low byte, then high byte.
unfoldable pub counter : List OutByte → ℕ
counter [] = 0
counter (w ∷ ws) =
    let high : ℕ = counter ws in if w.port == 0x40 then w.value + 2 ^ 8 * high else high

sent :
    (r : ℕ)
    → bit_and r 255 % 2 ^ 8 + 2 ^ 8 * (bit_and r 65280 % 2 ^ 8 / 2 ^ 8 + 2 ^ 8 * 0) ≡ r % 2 ^ 8
sent r = omega (arith, bit_and-low 8 r)

frequency_range : (r : ℕ) → 100 ≤ r → r ≤ 65535 → (18 ≤ get_frequency r) × (get_frequency r ≤ 11931)
unfolding get_frequency
frequency_range r least most =
    let positive : 0 < r = omega arith in
    let above : 18 * r ≤ 1193182 = omega arith in
    let below : 1193182 < 11932 * r = omega arith in
    let under : 1193182 / r < 11932 = (div-lt_iff_lt-mul positive).1 below in
    ((le-div_iff_mul-le positive).1 above, omega (arith, under))

-- For a divisor of 16 bits, PIT_SetDivisor keeps a divisor from 100 to 65535, so the frequency
-- that PIT_GetFrequency gives is from 18 to 11931. The timer itself counts from the low byte of
-- that divisor alone, which is the divisor only if it is below 256.
pub set_divisor-counter :
    (d : ℕ)
    → d < 2 ^ 16
    → let (divisor, writes) = set_divisor d in
      (100 ≤ divisor)
      × (18 ≤ get_frequency divisor)
      × (get_frequency divisor ≤ 11931)
      × (counter writes ≡ divisor % 2 ^ 8)
      × ((counter writes ≡ divisor) ↔ (divisor < 2 ^ 8))
unfolding set_divisor get_frequency counter
set_divisor-counter d small =
    let raised : ℕ = if ltb d 100 then 100 else d in
    let least : 100 ≤ raised = ground arith in
    let most : raised ≤ 65535 = ground arith in
    (
      least,
      (frequency_range raised least most).0,
      (frequency_range raised least most).1,
      sent raised,
      ((λ q. omega (arith, sent raised)), (λ q. omega (arith, sent raised))),
    )
