-- ===== src/Pic/Remap.antt =====
-- `INT_PIC_Remap` of rizzos/src/interrupts/interrupts.c against the documented controllers.
use rizzos.Base.{ℕ, ◌%◌, ◌^◌, ◌≡◌, refl}
use rizzos.Base.Bits.{test_bit}
use rizzos.Pic.{remap}
use rizzos.Pic.Device.{Pair, command, word, mask_word, pair_ports}

-- Whatever state the two controllers are in, INT_PIC_Remap initialises both, with the low bytes of
-- the two offsets as their vectors, the second on line 2 of the first, in 8086 mode. The first
-- controller's mask becomes the mask that the second had, and the second's becomes the value of
-- the uninitialised variable.
pub remap-initialises :
    (other : ℕ → ℕ) (a2 offset1 offset2 : ℕ) (p : Pair)
    → remap (pair_ports other) a2 p offset1 offset2 ≡ record {
      first = record p.first {
        stage = mask_word;
        vector = offset1 % 2 ^ 8;
        cascade = 4;
        mode = 1;
        mask = p.second.mask;
      };
      second = record p.second {
        stage = mask_word;
        vector = offset2 % 2 ^ 8;
        cascade = 2;
        mode = 1;
        mask = a2;
      };
    }
unfolding remap command word test_bit
remap-initialises other a2 offset1 offset2 p = refl
