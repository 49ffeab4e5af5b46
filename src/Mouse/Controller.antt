-- ===== src/Mouse/Controller.antt =====
-- What the keyboard controller that rizzos/src/userinput/mouse.c writes to does by its
-- documentation (8042), and the set-up of the mouse there.
use rizzos.Base.{
  ℕ, zero, suc, ◌<◌, ◌≡◌, refl, ap, ◌∙◌, Bool, true, false, ltb, ◌==◌, bit_and, bit_or, List, [],
  ◌∷◌, if◌then◌else◌, arith,
}
use rizzos.Ports.{Ports}
use rizzos.Mouse.Setup.{mouse_wait, mouse_wait_input, mouse_write, mouse_read, ps2_mouse_init}

-- What the next byte at the data port is for.
pub data Expects : Type 0 where
  nothing configuration mouse_command : Expects

-- The controller and the mouse: what is enabled, the byte that waits for the program, if any, and
-- for how many reads of the status the controller is still busy.
pub record Controller : Type 0 where
  pub aux_enabled : Bool
  pub config : ℕ
  pub expects : Expects
  pub output : List ℕ
  pub reporting : Bool
  pub busy : ℕ

-- A byte at the data port; the mouse acknowledges the commands by 0xFA.
unfoldable pub data_byte : Controller → Expects → ℕ → Controller
data_byte c nothing v = c
data_byte c configuration v = record c { config = v; expects = nothing }
data_byte c mouse_command v =
    if v == 0xf6
    then record c { expects = nothing; reporting = false; output = 0xfa ∷ [] }
    else if v == 0xf4
    then record c { expects = nothing; reporting = true; output = 0xfa ∷ [] }
    else record c { expects = nothing }

unfoldable pub command_byte : Controller → ℕ → Controller
command_byte c v =
    if v == 0xa8
    then record c { aux_enabled = true }
    else if v == 0x20
    then record c { output = c.config ∷ [] }
    else if v == 0x60
    then record c { expects = configuration }
    else if v == 0xd4
    then record c { expects = mouse_command }
    else c

-- The status: bit 1 while the controller is busy, bit 0 when it is not and a byte waits.
unfoldable pub status_of : (busy : ℕ) → List ℕ → ℕ
status_of zero [] = 0
status_of zero (b ∷ bs) = 1
status_of (suc n) bs = 2

unfoldable pub one_less : ℕ → ℕ
one_less zero = 0
one_less (suc n) = n

unfoldable pub first_byte : List ℕ → ℕ
first_byte [] = 0
first_byte (b ∷ bs) = b

-- The ports of a controller that is busy for `delay` reads of the status after each byte, and that
-- takes no byte while it is.
unfoldable pub controller_ports : (delay : ℕ) → Ports Controller
controller_ports delay = record {
  in_byte = λ c port.
      if port == 0x64
      then (status_of c.busy c.output, record c { busy = one_less c.busy })
      else (first_byte c.output, record c { output = [] });
  out_byte = λ c port v.
      if ltb 0 c.busy
      then c
      else if port == 0x64
      then record (command_byte c v) { busy = delay }
      else record (data_byte c c.expects v) { busy = delay };
}

free_status : (output : List ℕ) → bit_and (status_of 0 output) 0b10 ≡ 0
unfolding status_of
free_status [] = refl
free_status (b ∷ bs) = refl

-- After a wait that is long enough the controller is not busy.
waited :
    (delay timeout busy : ℕ) (c : Controller)
    → busy < timeout
    → mouse_wait (controller_ports delay) timeout (record c { busy = busy }) ≡ record c { busy = 0 }
unfolding mouse_wait controller_ports status_of one_less
waited delay zero busy c enough = absurd (omega arith)
waited delay (suc timeout) zero c enough = rw (free_status c.output) refl
waited delay (suc timeout) (suc busy) c enough = waited delay timeout busy c (omega arith)

waited_input :
    (delay timeout busy b : ℕ) (bs : List ℕ) (c : Controller)
    → busy < timeout
    → mouse_wait_input (controller_ports delay) timeout (record c { busy = busy; output = b ∷ bs })
      ≡ record c { busy = 0; output = b ∷ bs }
unfolding mouse_wait_input controller_ports status_of one_less
waited_input delay zero busy b bs c enough = absurd (omega arith)
waited_input delay (suc timeout) zero b bs c enough = refl
waited_input delay (suc timeout) (suc busy) b bs c enough =
    waited_input delay timeout busy b bs c (omega arith)

-- A byte that the mouse is to take
written :
    (delay timeout busy value : ℕ) (c : Controller)
    → delay < timeout
    → busy < timeout
    → mouse_write (controller_ports delay) timeout (record c { busy = busy }) value
      ≡ record (data_byte (record c { busy = 0; expects = mouse_command }) mouse_command value) {
        busy = delay;
      }
unfolding mouse_write controller_ports command_byte
written delay timeout busy value c enough some_left = rw (
  waited delay timeout busy c some_left,
  waited delay timeout delay (record c { expects = mouse_command }) enough,
)

-- The acknowledgement, which is waited for twice
acknowledged :
    (delay timeout b : ℕ) (bs : List ℕ) (c : Controller)
    → delay < timeout
    → (mouse_read (controller_ports delay) timeout (
        mouse_wait_input
          (controller_ports delay)
          timeout
          (record c { busy = delay; output = b ∷ bs }))).1
      ≡ record c { busy = 0; output = [] }
unfolding mouse_read controller_ports
acknowledged delay timeout b bs c enough = rw (
  waited_input delay timeout delay b bs c enough,
  waited_input delay timeout 0 b bs c (omega (arith, enough)),
)

from_idle :
    (delay timeout busy : ℕ) (c : Controller)
    → delay < timeout
    → busy < timeout
    → ps2_mouse_init
        (controller_ports delay)
        timeout
        (record c { expects = nothing; output = []; busy = busy })
      ≡ record c {
        aux_enabled = true;
        config = bit_or c.config 2;
        reporting = true;
        expects = nothing;
        output = [];
        busy = 0;
      }
unfolding ps2_mouse_init controller_ports command_byte data_byte first_byte
from_idle delay timeout busy c enough soon =
    let c0 = record c { expects = nothing; output = [] } in
    let c1 = record c0 { aux_enabled = true } in
    let c3 = record c1 { expects = configuration } in
    let c4 = record c1 { config = bit_or c.config 2 } in
    let c5 = record c4 { reporting = false } in
    let c6 = record c4 { reporting = true } in
    let at_once : 0 < timeout = omega (arith, enough) in
    rw (
      ps2_mouse_init,
      waited delay timeout busy c0 soon,
      waited delay timeout delay c1 enough,
      waited_input delay timeout delay c.config [] c1 enough,
      waited delay timeout 0 c1 at_once,
      waited delay timeout delay c3 enough,
      written delay timeout delay 0xf6 c4 enough enough,
      acknowledged delay timeout 0xfa [] c5 enough,
      written delay timeout 0 0xf4 c5 enough at_once,
      acknowledged delay timeout 0xfa [] c6 enough,
    )

-- If the controller expects nothing, no byte waits, and it is busy for fewer reads of its status
-- than UI_PS2Mouse_Init waits, both at the start and after each byte, then UI_PS2Mouse_Init gets
-- every byte through: the mouse's port is enabled, bit 1 of the configuration is set and its other
-- bits are as before, the mouse reports, and again nothing is expected and no byte waits.
pub ps2_mouse_init-sets :
    (delay timeout : ℕ) (c : Controller)
    → delay < timeout
    → c.expects ≡ nothing
    → c.output ≡ []
    → c.busy < timeout
    → ps2_mouse_init (controller_ports delay) timeout c ≡ record c {
      aux_enabled = true;
      config = bit_or c.config 2;
      reporting = true;
      expects = nothing;
      output = [];
      busy = 0;
    }
ps2_mouse_init-sets delay timeout c enough idle empty soon =
    let start : c ≡ record c { expects = nothing; output = [] } =
      λ i. record c { expects = idle i; output = empty i } in
    ap (ps2_mouse_init (controller_ports delay) timeout) start
    ∙ from_idle delay timeout c.busy c enough soon
