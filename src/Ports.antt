-- ===== src/Ports.antt =====
-- rizzos/src/io.c: the input and output ports. What answers at a port is not in the program, so it
-- is a parameter of all that uses ports.
use rizzos.Base.{ℕ}

-- A read may change what is behind the port.
pub record Ports (S : Type 0) : Type 0 where
  pub in_byte : S → ℕ → ℕ × S
  pub out_byte : S → ℕ → ℕ → S

-- `IO_Wait`
abbrev pub wait : {S : Type 0} → Ports S → S → S
wait io s = io.out_byte s 0x80 0
