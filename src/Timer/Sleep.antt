-- ===== src/Timer/Sleep.antt =====
-- rizzos/src/scheduling/pit.c: the time since boot, and the waits for it.
use rizzos.Base.{ℕ, zero, suc, Bool, Option, none, some, if◌then◌else◌}
use rizzos.Timer.{get_frequency}

-- The arithmetic of `double` that the file uses, with the conversion of a `uint64_t`
pub record Doubles (D : Type 0) : Type 0 where
  pub of_uint64 : ℕ → D
  pub add : D → D → D
  pub div : D → D → D
  pub less : D → D → Bool

module _ {D : Type 0} (doubles : Doubles D) where
  open doubles use {of_uint64, add, div, less}

  -- `PIT_Tick`, with `g_Divisor`
  unfoldable pub pit_tick : (divisor : ℕ) → D → D
  pit_tick divisor time_since_boot =
      add time_since_boot (div (of_uint64 1) (of_uint64 (get_frequency divisor)))

  module _ {S : Type 0} (time_since_boot : S → D) (hlt : S → S) where
    -- The loop of `PIT_Sleepd`: `hlt` waits for an interrupt, whose handler is run. `none` is out of
    -- fuel.
    unfoldable pub sleep_loop : (fuel : ℕ) → S → (end : D) → Option S
    sleep_loop zero s end = none
    sleep_loop (suc fuel) s end =
        let rest = sleep_loop fuel (hlt s) end in
        if less (time_since_boot s) end then rest else some s

    -- `PIT_Sleepd` and `PIT_Sleep`
    unfoldable pub pit_sleepd : (fuel : ℕ) → S → (seconds : D) → Option S
    pit_sleepd fuel s seconds = sleep_loop fuel s (add (time_since_boot s) seconds)

    unfoldable pub pit_sleep : (fuel : ℕ) → S → (miliseconds : ℕ) → Option S
    pit_sleep fuel s miliseconds = pit_sleepd fuel s (div (of_uint64 miliseconds) (of_uint64 1000))
