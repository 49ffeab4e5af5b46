-- ===== src/Timer/Tests.antt =====
-- Runs and instances for rizzos/src/scheduling/pit.c.
use rizzos.Base.{ℕ, ◌+◌, ◌*◌, ◌/◌, ltb, ◌%◌, ◌^◌, ◌≤◌, ◌<◌, ◌≡◌, ◌↔◌, refl, some, arith}
use rizzos.Timer.{set_divisor, get_frequency}
use rizzos.Timer.Counter.{counter, set_divisor-counter}
use rizzos.Timer.Sleep.{Doubles, pit_tick, pit_sleep, pit_sleepd, sleep_loop}

-- The divisor that the kernel sets.
abbrev kernel_divisor : ℕ
kernel_divisor = 2000

set_divisor-counter_example :
    let (divisor, writes) = set_divisor kernel_divisor in
    (100 ≤ divisor)
    × (18 ≤ get_frequency divisor)
    × (get_frequency divisor ≤ 11931)
    × (counter writes ≡ divisor % 2 ^ 8)
    × ((counter writes ≡ divisor) ↔ (divisor < 2 ^ 8))
set_divisor-counter_example = set_divisor-counter kernel_divisor (omega arith)

kernel_counter : counter (set_divisor kernel_divisor).1 ≡ 208
unfolding set_divisor counter
kernel_counter = refl

-- Seconds in millionths, for doubles
abbrev millionths : Doubles ℕ
millionths = record {
  of_uint64 = λ n. n * 1000000;
  add = λ a b. a + b;
  div = λ a b. a * 1000000 / b;
  less = λ a b. ltb a b;
}

-- Every interrupt is one of the timer.
abbrev tick : ℕ → ℕ
tick = pit_tick millionths kernel_divisor

-- Five milliseconds take three interrupts.
slept : pit_sleep millionths (λ t. t) tick 10 70 5 ≡ some (tick (tick (tick 70)))
unfolding pit_sleep pit_sleepd sleep_loop pit_tick get_frequency
slept = refl
