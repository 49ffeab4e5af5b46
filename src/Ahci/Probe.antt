-- ===== src/Ahci/Probe.antt =====
-- What AHCI_AHCIDriver_ProbePorts of rizzos/src/ahci/ahci.c finds.
use rizzos.Base.{
  ℕ, zero, suc, ◌+◌, ◌*◌, ◌^◌, ◌<◌, ◌≡◌, Bool, true, ◌&&◌, Option, some, if◌then◌else◌,
}
use rizzos.Heap.{Heap, malloc}
use rizzos.Ahci.{Hba, hba_ports, hba_port_size, has, check_port_type}
use rizzos.Ahci.Driver.{AhciDriver, ahci_port_size, is_disk}

-- The heap has room for `n` more ports.
unfoldable pub Allocates : (fuel : ℕ) → (n : ℕ) → Heap → Type 0
Allocates fuel zero h = Unit
Allocates fuel (suc n) h =
    (address : ℕ) × (h' : Heap) × (malloc fuel h ahci_port_size ≡ some (address, h'))
    × Allocates fuel n h'

module _ {S : Type 0} (hba : Hba S) (s : S) (abar implemented : ℕ) where
  abbrev pub port_address : ℕ → ℕ
  port_address i = abar + hba_ports + i * hba_port_size

  -- Port `i` is implemented, and a disk answers there.
  abbrev pub has_disk : ℕ → Bool
  has_disk i = has implemented (2 ^ i) && is_disk (check_port_type hba s (port_address i))

  -- How many of the `n` ports from `i` on have a disk
  unfoldable pub disks : (i : ℕ) → (n : ℕ) → ℕ
  disks i zero = 0
  disks i (suc n) = let rest = disks (i + 1) n in if has_disk i then suc rest else rest

  -- Number `place` of the driver's ports is port `i`.
  abbrev pub IsListed : AhciDriver → (place i : ℕ) → Type 0
  IsListed d place i =
      ((d.ports place).hba_port ≡ port_address i)
      × ((d.ports place).port_type ≡ check_port_type hba s (port_address i))
      × ((d.ports place).port_number ≡ place)

  -- From `d` the `n` ports from `i` on have been taken in, in order.
  pub record IsProbed (d : AhciDriver) (i n : ℕ) (d' : AhciDriver) : Type 0 where
    pub count : d'.port_count ≡ d.port_count + disks i n
    pub earlier : (k : ℕ) → k < d.port_count → d'.ports k ≡ d.ports k
    pub listed :
        (j : ℕ) → j < n → has_disk (i + j) ≡ true → IsListed d' (d.port_count + disks i j) (i + j)

  -- The outcome of the loop
  abbrev pub Probes : AhciDriver → (i n : ℕ) → Option (AhciDriver × Heap) → Type 0
  Probes d i n result =
      (d' : AhciDriver) × (h' : Heap) × (result ≡ some (d', h')) × IsProbed d i n d'
