-- ===== src/Timer.antt =====
-- rizzos/src/scheduling/pit.c: the divisor of the timer and its port writes. The time since
-- boot is a `double`, whose arithmetic is a parameter.
pub mod Counter
pub mod Sleep
mod Tests
use rizzos.Base.{
  ℕ, zero, suc, ◌+◌, ◌*◌, ◌/◌, ◌%◌, ◌^◌, Bool, true, false, ltb, ◌==◌, bit_and, List, [], ◌∷◌,
  if◌then◌else◌, Option, none, some,
}

-- PIT_BASE_FREQUENCY
abbrev pub pit_base_frequency : ℕ
pit_base_frequency = 1193182

-- A call of `IO_OutByte`; `IO_Wait` is one to the port 0x80.
pub record OutByte : Type 0 where
  pub port : ℕ
  pub value : ℕ

-- `PIT_SetDivisor`: g_Divisor afterwards, and the port writes. In the last one the cast to
-- `uint8_t` binds before the shift.
unfoldable pub set_divisor : ℕ → ℕ × List OutByte
set_divisor divisor =
    let raised : ℕ = if ltb divisor 100 then 100 else divisor in
    (
      raised,
      record { port = 0x40; value = bit_and raised 0x00ff % 2 ^ 8 }
          ∷ record { port = 0x80; value = 0 }
          ∷ record { port = 0x40; value = bit_and raised 0xff00 % 2 ^ 8 / 2 ^ 8 }
          ∷ [],
    )

-- `PIT_GetFrequency`
unfoldable pub get_frequency : (divisor : ℕ) → ℕ
get_frequency divisor = pit_base_frequency / divisor

-- `PIT_SetFrequency`. `none` is a division by zero; the quotient is converted to a `uint16_t`.
unfoldable pub set_frequency : ℕ → Option (ℕ × List OutByte)
set_frequency frequency =
    if frequency == 0 then none else some (set_divisor (pit_base_frequency / frequency % 2 ^ 16))
