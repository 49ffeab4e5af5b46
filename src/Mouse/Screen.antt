-- ===== src/Mouse/Screen.antt =====
-- The mouse of rizzos/src/userinput/mouse.c stays on the screen, and reads whole packets.
use rizzos.Base.{
  ℕ, ◌+◌, ◌-◌, ◌%◌, ◌^◌, ◌≤◌, ◌<◌, ◌≡◌, refl, false, List, [], ◌∷◌, arith, ◌⊎◌, inl, inr,
  Bool-cases,
}
use rizzos.Mouse.{Mouse, process_packet, take_byte, handle, after_bytes, clamp}

-- The position is on the screen, eight pixels from its right edge and sixteen from its bottom;
-- the cycle is one of the three, and a packet is ready only at its start.
pub record IsMouse (width height : ℕ) (m : Mouse) : Type 0 where
  pub across : m.x ≤ width - 8
  pub down : m.y ≤ height - 16
  pub cycle : m.mouse_cycle ≤ 2
  pub whole : (m.is_mouse_packet_ready ≡ false) ⊎ (m.mouse_cycle ≡ 0)

clamp-le : (limit a : ℕ) → clamp limit a ≤ limit
clamp-le limit a = ground arith

module _ (width height : ℕ) (wide : 8 ≤ width) (high : 16 ≤ height) (narrow : width < 2 ^ 32)
    (flat : height < 2 ^ 32) where
  process_packet-IsMouse :
      (m : Mouse) → IsMouse width height m → IsMouse width height (process_packet width height m)
  unfolding process_packet
  process_packet-IsMouse m ok = elim (Bool-cases m.is_mouse_packet_ready) [
    | inr off ↦ simp off ok
    | inl on ↦ simp on (record {
      across = omega (arith, clamp-le ((width + 2 ^ 32 - 8) % 2 ^ 32) _);
      down = omega (arith, clamp-le ((height + 2 ^ 32 - 16) % 2 ^ 32) _);
      cycle = ok.cycle;
      whole = inl refl;
    })
  ]

  take_byte-IsMouse :
      (m : Mouse) (d : ℕ) → IsMouse width height m → IsMouse width height (take_byte m d)
  unfolding take_byte
  take_byte-IsMouse m d ok = record {
    across = ground (arith, ok.across);
    down = ground (arith, ok.down);
    cycle = ground (arith, ok.cycle);
    whole = ground (arith, ok.whole, ok.cycle);
  }

  handle-IsMouse :
      (m : Mouse) (d : ℕ) → IsMouse width height m → IsMouse width height (handle width height m d)
  unfolding handle
  handle-IsMouse m d ok =
      let now = process_packet-IsMouse m ok in
      elim (Bool-cases (process_packet width height m).skip) [
        | inr off ↦ simp off (take_byte-IsMouse (process_packet width height m) d now)
        | inl on ↦
            simp on (record {
              across = now.across;
              down = now.down;
              cycle = now.cycle;
              whole = now.whole;
            })
      ]

  -- On a screen of eight by sixteen pixels at least, with sides below 2^32, the following holds
  -- after any sequence of bytes if it holds before: the pointer is at least eight pixels from the
  -- right edge and sixteen from the bottom, the cycle is at most 2, and a packet is ready only at
  -- the start of a cycle.
  pub after_bytes-IsMouse :
      (m : Mouse) (ds : List ℕ)
      → IsMouse width height m
      → IsMouse width height (after_bytes width height m ds)
  unfolding after_bytes
  after_bytes-IsMouse m [] ok = ok
  after_bytes-IsMouse m (d ∷ ds) ok =
      after_bytes-IsMouse (handle width height m d) ds (handle-IsMouse m d ok)
