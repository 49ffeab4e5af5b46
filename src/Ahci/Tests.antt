-- ===== src/Ahci/Tests.antt =====
-- Runs and instances for rizzos/src/ahci/ahci.c.
use rizzos.Base.{
  Bool, true, false, sym, ◌∙◌, ◌≤◌, ℕ, zero, suc, ◌+◌, ◌*◌, ◌/◌, ◌%◌, ◌^◌, ◌≡◌, refl, ◌==◌, ◌&&◌,
  ltb, inl, some, if◌then◌else◌, arith,
}
use rizzos.Memory.{Mem}
use rizzos.Ahci.{Hba, has, stop_cmd, command_issue, check_port_type, pt_sata}
use rizzos.Ahci.Command.{write_fis, write_command, spin_loop, port_read}
use rizzos.Ahci.Fis.{lba, write_fis-lba}
use rizzos.Ahci.Driver.{AhciDriver}
use rizzos.Heap.{Heap}
use rizzos.Ahci.Polls.{after, IsAnswered, Returned, port_read-returns}
use rizzos.Ahci.Stop.{IsEngine, Stops, stop_cmd-Stops}

-- A controller whose state counts the steps since the last write; both engines run for three
-- steps, and a command takes two. Its only disk is at port 0, its list of commands at 0x1000.
abbrev slow : Hba ℕ
slow = record {
  read = λ s r.
      if (r == 0x118) && ltb s 3
      then 0xc000
      else if (r == 0x138) && ltb s 2
      then 1
      else if r == 0x124
      then 0x101
      else if r == 0x128
      then 0x113
      else if r == 0x100
      then 0x1000
      else if r == 0x0c
      then 0x5
      else 0;
  write = λ s r v. 0;
  pass = λ s. s + 1;
  dma = λ s m. m;
}

after-add : (k s : ℕ) → after slow k s ≡ s + k
unfolding after
after-add zero s = omega arith
after-add (suc k) s = omega (arith, after-add k (s + 1))

-- The command register of a port, and whether its engines still run; they stop in one step.
record Engine : Type 0 where
  st : Bool
  fre : Bool
  busy : Bool

unfoldable value : (st fre busy : Bool) → ℕ
value st fre busy = (if st then 1 else 0) + (if fre then 0x10 else 0) + (if busy then 0xc000 else 0)

value-has :
    (st fre busy : Bool)
    → (has (value st fre busy) 1 ≡ st)
      × (has (value st fre busy) 0x10 ≡ fre)
      × (has (value st fre busy) 0x8000 ≡ busy)
      × (has (value st fre busy) 0x4000 ≡ busy)
unfolding value
value-has true true true = (refl, refl, refl, refl)
value-has true true false = (refl, refl, refl, refl)
value-has true false true = (refl, refl, refl, refl)
value-has true false false = (refl, refl, refl, refl)
value-has false true true = (refl, refl, refl, refl)
value-has false true false = (refl, refl, refl, refl)
value-has false false true = (refl, refl, refl, refl)
value-has false false false = (refl, refl, refl, refl)

abbrev stopping : Hba Engine
stopping = record {
  read = λ s r. value s.st s.fre s.busy;
  write = λ s r v. record { st = has v 1; fre = has v 0x10; busy = true };
  pass = λ s. record s { busy = false };
  dma = λ s m. m;
}

abbrev running : Engine
running = record { st = true; fre = true; busy = true }

still : (k : ℕ) (s : Engine) → s.busy ≡ false → (after stopping k s).busy ≡ false
unfolding after
still zero s off = off
still (suc k) s off = still k (record s { busy = false }) refl

still_later : (k : ℕ) (s : Engine) → 1 ≤ k → (after stopping k s).busy ≡ false
unfolding after
still_later zero s late = absurd (omega arith)
still_later (suc k) s late = still k (record s { busy = false }) refl

stopping-IsEngine : IsEngine stopping 1 0x100
stopping-IsEngine = record {
  st_written = λ s v. (value-has (has v 1) (has v 0x10) true).0;
  fre_written = λ s v. (value-has (has v 1) (has v 0x10) true).1;
  st_kept = λ s. (value-has s.st s.fre false).0 ∙ sym (value-has s.st s.fre s.busy).0;
  fre_kept = λ s. (value-has s.st s.fre false).1 ∙ sym (value-has s.st s.fre s.busy).1;
  stops = λ s st fre k late.
      let t = after stopping k s in
      let bits = value-has t.st t.fre t.busy in
      (bits.3 ∙ still_later k s late, bits.2 ∙ still_later k s late);
  cr_stays = λ s st cr. (value-has s.st s.fre false).2;
  fr_stays = λ s fre fr. (value-has s.st s.fre false).3;
}

stop_cmd-Stops_example : Stops stopping 0x100 (stop_cmd stopping 5 running 0x100)
stop_cmd-Stops_example = stop_cmd-Stops stopping 1 0x100 stopping-IsEngine 5 running (omega arith)

slow-IsAnswered : (s : ℕ) → IsAnswered slow 2 (slow.write s (0x100 + command_issue) 1) 0x100
slow-IsAnswered s = inl (λ k late. rw (after-add k 0) (ground arith))

abbrev empty : Mem
empty a = 0

port_read-returns_example :
    (m' : Mem) × (write_command empty 0x1000 5 4 0x8000 ≡ some m')
    × Returned slow 0 0x100 m'
        (spin_loop slow 7 0 0x100)
        (port_read slow 7 9 3 empty 0x100 5 4 0x8000)
port_read-returns_example =
    port_read-returns slow 2 7 9 3 empty 0x100 5 4 0x8000 (λ a. omega arith) slow-IsAnswered
      (omega arith)

write_fis-lba_example :
    let m' = write_fis empty 0x2000 0x1234567 4 in
    (m' 0x2000 ≡ 0x27)
    × (m' 0x2002 ≡ 0x25)
    × (m' 0x2007 ≡ 0x40)
    × (m' 0x200c + 2 ^ 8 * m' 0x200d ≡ 4 % 2 ^ 16)
    × (lba m' 0x2000 ≡ 0x1234567 % 2 ^ 24 + 2 ^ 24 * (0x1234567 / 2 ^ 32 % 2 ^ 24))
write_fis-lba_example = write_fis-lba empty 0x2000 0x1234567 4

disk_there : check_port_type slow 0 0x100 ≡ pt_sata
unfolding check_port_type
disk_there = refl

-- A driver without ports, and a heap with one free segment
abbrev driver : AhciDriver
driver = record {
  pci_base_address = 0x4000;
  abar = 0;
  ports = λ place. record { hba_port = 0; port_type = pt_sata; buffer = 0; port_number = 0 };
  port_count = 0;
}

abbrev heap : Heap
heap = record {
  heap_start = 0x1000;
  heap_end = 0x1200;
  last_hdr = 0x1000;
  seg = λ a. record { lenght = 0x1e0; next = 0; last = 0; free = true };
  manager = record { pml4 = 0x2000 };
  frames = record {
    free_memory = 0;
    reserved_memory = 0;
    used_memory = 0;
    initialized = true;
    page_bitmap = record { size = 0; buffer = 0x3000 };
    last_reserved_page = 0;
    mem = empty;
  };
}
