-- ===== src/Ahci/Polls.antt =====
-- The waits of rizzos/src/ahci/ahci.c come to their end.
use rizzos.Base.{
  ℕ, zero, suc, ◌+◌, ◌-◌, ◌^◌, ◌≤◌, ◌<◌, ◌≡◌, refl, ◌⊎◌, inl, inr, Bool, true, false, ◌==◌, bit_and,
  Option, some, arith, Bool-cases,
}
use rizzos.Memory.{Mem, read16, read32}
use rizzos.Memory.Bytes.{IsBytes}
use rizzos.Ahci.{Hba, px_is_tfes, command_list_base, command_issue, interrupt_status, has}
use rizzos.Memory.Bytes.{read16-write16, read32-lt, write_bytes-IsBytes}
use rizzos.Memory.Fill.{set-filled}
use rizzos.Ahci.Command.{write_command, write_header, write8, issue_loop, spin_loop, port_read}

module _ {S : Type 0} (hba : Hba S) where
  open hba use {read, write, pass, dma}

  -- The controller after `n` of its steps
  unfoldable pub after : ℕ → S → S
  after zero s = s
  after (suc n) s = after n (pass s)

  -- From step `n` on, the command of the port is done, or its error stands.
  abbrev pub IsAnswered : ℕ → S → (port : ℕ) → Type 0
  IsAnswered n s port =
      ((k : ℕ) → n ≤ k → read (after k s) (port + command_issue) ≡ 0)
      ⊎ ((k : ℕ) → n ≤ k → has (read (after k s) (port + interrupt_status)) px_is_tfes ≡ true)

  not_yet :
      (n : ℕ) (s : S) (port : ℕ)
      → IsAnswered n s port
      → (read s (port + command_issue) == 0) ≡ false
      → has (read (pass s) (port + interrupt_status)) px_is_tfes ≡ false
      → (1 ≤ n) × IsAnswered (n - 2) (pass (pass s)) port
  unfolding after
  not_yet n s port (inl done) off well =
      (ground (arith, done 0, off), inl (λ k p. done (suc (suc k)) (omega arith)))
  not_yet n s port (inr failed) off well =
      (ground (arith, failed 1, well), inr (λ k p. failed (suc (suc k)) (omega arith)))

  -- The loop ends where it has seen the command done, or the error while it was not.
  abbrev pub Ended : S → (port : ℕ) → Option (Bool × S) → Type 0
  Ended s port result =
      (k : ℕ) × (((read (after k s) (port + command_issue) ≡ 0)
          × (result ≡ some (true, after (suc k) s)))
        ⊎ ((has (read (after (suc k) s) (port + interrupt_status)) px_is_tfes ≡ true)
            × (result ≡ some (false, after (suc (suc k)) s))))

  -- A loop that ends later ends.
  later :
      (s : S) (port : ℕ) (result : Option (Bool × S))
      → Ended (pass (pass s)) port result
      → Ended s port result
  unfolding after
  later s port result (k, inl done) = (suc (suc k), inl done)
  later s port result (k, inr failed) = (suc (suc k), inr failed)

  issue_loop-ends :
      (n fuel : ℕ) (s : S) (port : ℕ)
      → IsAnswered n s port
      → n < fuel
      → Ended s port (issue_loop hba fuel s port)
  unfolding issue_loop after
  issue_loop-ends n zero s port answered enough = absurd (omega arith)
  issue_loop-ends n (suc fuel) s port answered enough =
      elim (Bool-cases (read s (port + command_issue) == 0)) [
        | inl on ↦
            let none_left : read s (port + command_issue) ≡ 0 = ground (arith, on) in
            rw on (0, inl (none_left, refl))
        | inr off ↦ elim (Bool-cases (has (read (pass s) (port + interrupt_status)) px_is_tfes)) [
          | inl failed ↦ rw (off, failed) (0, inr (failed, refl))
          | inr well ↦
              let (late, answered') = not_yet n s port answered off well in
              let rest =
                issue_loop-ends (n - 2) fuel (pass (pass s)) port answered' (omega arith) in
              rw (off, well) (later s port (issue_loop hba fuel (pass (pass s)) port) rest)
        ]
      ]

  -- What has ended has an answer.
  Ended-answer :
      (s : S) (port : ℕ) (result : Option (Bool × S))
      → Ended s port result
      → (answer : Bool × S) × (Ended s port (some answer)) × (result ≡ some answer)
  Ended-answer s port result (k, inl (done, eq)) = (_, (k, inl (done, refl)), eq)
  Ended-answer s port result (k, inr (failed, eq)) = (_, (k, inr (failed, refl)), eq)

  -- The command is written to memory.
  write_command-writes :
      (m : Mem) (cmd_header sector sector_count buffer : ℕ)
      → IsBytes m
      → (m' : Mem) × (write_command m cmd_header sector sector_count buffer ≡ some m')
  unfolding write_command write_header
  write_command-writes m cmd_header sector sector_count buffer bytes =
      let flags = write8 m cmd_header (bit_and (m cmd_header) 0b10100000 + 5) in
      let m1 = write_header m cmd_header in
      let one : read16 m1 (cmd_header + 2) ≡ 1 = read16-write16 flags (cmd_header + 2) 1 in
      let bytes1 : IsBytes m1 =
        write_bytes-IsBytes 2 flags (cmd_header + 2) 1
          (write_bytes-IsBytes 1 m cmd_header _ bytes) in
      let low : read32 m1 (cmd_header + 8) < 2 ^ 32 = read32-lt m1 (cmd_header + 8) bytes1 in
      let cleared = (set-filled m1 (read32 m1 (cmd_header + 8)) 0 128 (omega arith)).2 in
      rw (one, cleared) (_, refl)

  -- What AHCI_Port_Read returns: false, after the wait for the device has failed, or what
  -- the loop that waits for the command ends with.
  abbrev pub Returned : S → (port : ℕ) → Mem → (ready : Bool × S) → Option (Bool × S × Mem) → Type 0
  Returned s port m' ready result =
      ((ready.0 ≡ false) × (result ≡ some (false, ready.1, m')))
      ⊎ ((ready.0 ≡ true)
          × ((answer : Bool × S) × (Ended (write ready.1 (port + command_issue) 1) port
                (some answer))
              × (result ≡ some (answer.0, answer.1, dma answer.1 m'))))

  -- If memory holds bytes, and the controller ends any command of the port within a number of
  -- steps, well or with an error, then AHCI_Port_Read returns with any more fuel than that: it has
  -- written the command, and answers true only after it has seen the command done, and false only
  -- with the error bit of the port set or after its wait for the device has failed.
  pub port_read-returns :
      (n rounds fuel : ℕ) (s : S) (m : Mem) (port sector sector_count buffer : ℕ)
      → IsBytes m
      → ((s' : S) → IsAnswered n (write s' (port + command_issue) 1) port)
      → n < fuel
      → let s1 = write s (port + interrupt_status) (2 ^ 32 - 1) in
        (m' : Mem) × (write_command m
            (read s1 (port + command_list_base))
            sector
            sector_count
            buffer
          ≡ some m')
        × Returned s1 port m'
            (spin_loop hba rounds s1 port)
            (port_read hba rounds fuel s m port sector sector_count buffer)
  unfolding port_read
  port_read-returns n rounds fuel s m port sector sector_count buffer bytes answers enough =
      let s1 = write s (port + interrupt_status) (2 ^ 32 - 1) in
      let (m', written) =
        write_command-writes m (read s1 (port + command_list_base)) sector sector_count buffer
          bytes in
      let spun = spin_loop hba rounds s1 port in
      let ended =
        issue_loop-ends n fuel (write spun.1 (port + command_issue) 1) port (answers spun.1)
          enough in
      elim (Bool-cases spun.0) [
        | inl on ↦
            let (answer, ended', eq) =
              Ended-answer (write spun.1 (port + command_issue) 1) port _ ended in
            (m', written, inr (on, (answer, ended', rw (written, on, eq) refl)))
        | inr off ↦ (m', written, inl (off, rw (written, off) refl))
      ]
