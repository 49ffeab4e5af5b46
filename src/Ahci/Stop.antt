-- ===== src/Ahci/Stop.antt =====
-- AHCI_Port_StopCMD (rizzos/src/ahci/ahci.c) stops the engines of a port.
use rizzos.Base.{
  ℕ, zero, suc, ◌+◌, ◌-◌, ◌^◌, ◌≤◌, ◌<◌, ◌≡◌, refl, ◌∙◌, inl, inr, false, ◌&&◌, bit_and, Option,
  some, arith, Bool-cases,
}
use rizzos.Base.Bits.{test_bit, test_bit-bit_and, bit_and-pow}
use rizzos.Ahci.{
  Hba, cmd_sts, px_cmd_cr, px_cmd_fr, px_cmd_fre, px_cmd_st, has, stop_loop, clear_start, stop_cmd,
}
use rizzos.Ahci.Polls.{after}

-- A bit of a masked value
has-bit_and : (v m k : ℕ) → has (bit_and v m) (2 ^ k) ≡ (has v (2 ^ k) && test_bit m k)
has-bit_and v m k =
    ground (arith, bit_and-pow (bit_and v m) k, test_bit-bit_and v m k, bit_and-pow v k)

masked_out : (v m k : ℕ) → test_bit m k ≡ false → has (bit_and v m) (2 ^ k) ≡ false
masked_out v m k off = ground (arith, has-bit_and v m k, off)

module _ {S : Type 0} (hba : Hba S) where
  open hba use {read, write, pass}

  -- From step `n` on, the port has stopped both of its engines.
  abbrev pub IsQuiet : ℕ → S → (port : ℕ) → Type 0
  IsQuiet n s port =
      (k : ℕ)
      → n ≤ k
      → (has (read (after hba k s) (port + cmd_sts)) px_cmd_fr ≡ false)
        × (has (read (after hba k s) (port + cmd_sts)) px_cmd_cr ≡ false)

  -- What is documented of the command register: the controller takes over the two bits ST and FRE
  -- as they are written and leaves them alone, it stops both engines within `n` steps when the bits
  -- are clear, and an engine that has stopped does not start again while its bit is clear.
  pub record IsEngine (n port : ℕ) : Type 0 where
    pub st_written :
        (s : S) (v : ℕ)
        → has (read (write s (port + cmd_sts) v) (port + cmd_sts)) px_cmd_st ≡ has v px_cmd_st
    pub fre_written :
        (s : S) (v : ℕ)
        → has (read (write s (port + cmd_sts) v) (port + cmd_sts)) px_cmd_fre ≡ has v px_cmd_fre
    pub st_kept :
        (s : S)
        → has (read (pass s) (port + cmd_sts)) px_cmd_st ≡ has (read s (port + cmd_sts)) px_cmd_st
    pub fre_kept :
        (s : S)
        → has (read (pass s) (port + cmd_sts)) px_cmd_fre ≡ has (read s (port + cmd_sts)) px_cmd_fre
    pub stops :
        (s : S)
        → has (read s (port + cmd_sts)) px_cmd_st ≡ false
        → has (read s (port + cmd_sts)) px_cmd_fre ≡ false
        → IsQuiet n s port
    pub cr_stays :
        (s : S)
        → has (read s (port + cmd_sts)) px_cmd_st ≡ false
        → has (read s (port + cmd_sts)) px_cmd_cr ≡ false
        → has (read (pass s) (port + cmd_sts)) px_cmd_cr ≡ false
    pub fr_stays :
        (s : S)
        → has (read s (port + cmd_sts)) px_cmd_fre ≡ false
        → has (read s (port + cmd_sts)) px_cmd_fr ≡ false
        → has (read (pass s) (port + cmd_sts)) px_cmd_fr ≡ false

  -- The two bits that the program clears
  abbrev Cleared : S → (port : ℕ) → Type 0
  Cleared s port =
      (has (read s (port + cmd_sts)) px_cmd_st ≡ false)
      × (has (read s (port + cmd_sts)) px_cmd_fre ≡ false)

  -- A state in which the port has both bits clear and both engines stopped
  abbrev pub Stops : (port : ℕ) → Option S → Type 0
  Stops port result =
      (s : S) × (result ≡ some s)
      × (has (read s (port + cmd_sts)) px_cmd_st ≡ false)
      × (has (read s (port + cmd_sts)) px_cmd_fre ≡ false)
      × (has (read s (port + cmd_sts)) px_cmd_cr ≡ false)
      × (has (read s (port + cmd_sts)) px_cmd_fr ≡ false)

  module _ (n port : ℕ) (engine : IsEngine n port) where
    Cleared-pass : (s : S) → Cleared s port → Cleared (pass s) port
    Cleared-pass s (st, fre) = (engine.st_kept s ∙ st, engine.fre_kept s ∙ fre)

    clear_start-Cleared : (s : S) → Cleared (clear_start hba s port) port
    unfolding clear_start test_bit
    clear_start-Cleared s =
        let v : ℕ = bit_and (read s (port + cmd_sts)) (2 ^ 32 - 1 - px_cmd_st) in
        let s1 : S = write s (port + cmd_sts) v in
        let w : ℕ = read s1 (port + cmd_sts) in
        let st : has w px_cmd_st ≡ false =
          engine.st_written s v
          ∙ masked_out (read s (port + cmd_sts)) (2 ^ 32 - 1 - px_cmd_st) 0 refl in
        (
          engine.st_written s1 (bit_and w (2 ^ 32 - 1 - px_cmd_fre))
              ∙ has-bit_and w (2 ^ 32 - 1 - px_cmd_fre) 0
              ∙ rw st refl,
          engine.fre_written s1 (bit_and w (2 ^ 32 - 1 - px_cmd_fre))
              ∙ masked_out w (2 ^ 32 - 1 - px_cmd_fre) 4 refl,
        )

    -- Where the loop sees the one engine stopped and then the other
    seen :
        (s : S)
        → Cleared s port
        → has (read s (port + cmd_sts)) px_cmd_fr ≡ false
        → has (read (pass s) (port + cmd_sts)) px_cmd_cr ≡ false
        → Stops port (some (pass (pass s)))
    seen s clear fr cr =
        let clear1 = Cleared-pass s clear in
        let clear2 = Cleared-pass (pass s) clear1 in
        (
          pass (pass s),
          refl,
          clear2.0,
          clear2.1,
          engine.cr_stays (pass s) clear1.0 cr,
          engine.fr_stays (pass s) clear1.1 (engine.fr_stays s clear.1 fr),
        )

    stop_loop-Stops :
        (m fuel : ℕ) (s : S)
        → Cleared s port
        → IsQuiet m s port
        → m < fuel
        → Stops port (stop_loop hba fuel s port)
    unfolding stop_loop after
    stop_loop-Stops m zero s clear quiet enough = absurd (omega arith)
    stop_loop-Stops m (suc fuel) s clear quiet enough =
        let clear1 = Cleared-pass s clear in
        elim (Bool-cases (has (read s (port + cmd_sts)) px_cmd_fr)) [
          | inl on ↦
              let late : 1 ≤ m = ground (arith, quiet 0, on) in
              rw on (
                stop_loop-Stops (m - 1) fuel (pass s) clear1 (λ k p. quiet (suc k) (omega arith))
                  (omega arith))
          | inr off ↦ elim (Bool-cases (has (read (pass s) (port + cmd_sts)) px_cmd_cr)) [
            | inl busy ↦
                let late : 2 ≤ m = ground (arith, quiet 1, busy) in
                rw (off, busy)
                  (stop_loop-Stops (m - 2) fuel (pass (pass s)) (Cleared-pass (pass s) clear1)
                    (λ k p. quiet (suc (suc k)) (omega arith)) (omega arith))
            | inr idle ↦ rw (off, idle) (seen s clear off idle)
          ]
        ]

    -- If the engines of the port behave as their documentation has it, stopped for good within n
    -- steps once their bits are clear, then with more than n rounds of fuel AHCI_Port_StopCMD
    -- returns, from any state, and in the state that it leaves ST and FRE are clear and both
    -- engines are stopped.
    pub stop_cmd-Stops : (fuel : ℕ) (s : S) → n < fuel → Stops port (stop_cmd hba fuel s port)
    unfolding stop_cmd
    stop_cmd-Stops fuel s enough =
        let clear = clear_start-Cleared s in
        stop_loop-Stops n fuel (clear_start hba s port) clear
          (engine.stops (clear_start hba s port) clear.0 clear.1) enough
