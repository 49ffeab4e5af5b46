-- ===== src/Pci.antt =====
-- rizzos/src/pci.c: the walk over the buses, devices and functions that the table of the
-- configuration space lists.
use rizzos.Base.{
  ◌>>=◌, ℕ, zero, suc, ◌+◌, ◌-◌, ◌*◌, ◌/◌, ◌%◌, ◌^◌, Bool, ◌&&◌, ◌||◌, leb, ◌==◌, Option, some,
  if◌then◌else◌,
}
use rizzos.Ahci.{Hba}
use rizzos.Ahci.Create.{ahci_driver}
use rizzos.Ahci.Driver.{AhciDriver}
use rizzos.Heap.{Heap}
use rizzos.Memory.{Mem, read16, read32, read64}
use rizzos.Paging.Mapper.{map_memory}

-- `sizeof(MCFGHeader)` and `sizeof(DeviceConfig)`, both packed
abbrev pub mcfg_header_size : ℕ
mcfg_header_size = 44

abbrev pub device_config_size : ℕ
device_config_size = 16

-- `deviceID` of the header at an address is 0 or 0xFFFF: nothing is there.
unfoldable pub is_absent : Mem → (address : ℕ) → Bool
is_absent m address =
    let device_id : ℕ = read16 m (address + 2) in device_id == 0 || device_id == 0xffff

-- `Class`, `subclass` and `progIF` are those of a disk controller.
unfoldable pub is_ahci : Mem → (address : ℕ) → Bool
is_ahci m address = m (address + 11) == 0x01 && m (address + 10) == 0x06 && m (address + 9) == 0x01

-- `PTM_MapMemory` of an address to itself
unfoldable pub map_identity : Heap → (address : ℕ) → Option Heap
map_identity h address =
    map_memory h.manager h.frames address address >>= λ p. some (record h { frames = p })

module _ {S : Type 0} (hba : Hba S) (rounds fuel : ℕ) (stale : ℕ → AhciDriver) where
  -- `EnumerateFunction`, without its output
  unfoldable pub enumerate_function : S × Heap → (device_address func : ℕ) → Option (S × Heap)
  enumerate_function (s, h) device_address func =
      let function_addr : ℕ = (device_address + func * 2 ^ 12) % 2 ^ 64 in
      map_identity h function_addr >>= λ h'.
      let started =
        ahci_driver hba rounds fuel s h' stale function_addr >>= λ (d, s2, h2). some (s2, h2) in
      if is_absent h'.frames.mem function_addr
      then some (s, h')
      else if is_ahci h'.frames.mem function_addr
      then started
      else some (s, h')

  unfoldable pub function_loop :
      S × Heap → (device_address func : ℕ) → (left : ℕ) → Option (S × Heap)
  function_loop t device_address func zero = some t
  function_loop t device_address func (suc left) =
      enumerate_function t device_address func >>= λ t'.
      function_loop t' device_address (func + 1) left

  -- `EnumerateDevice`
  unfoldable pub enumerate_device : S × Heap → (bus_address device : ℕ) → Option (S × Heap)
  enumerate_device (s, h) bus_address device =
      let device_addr : ℕ = (bus_address + device * 2 ^ 15) % 2 ^ 64 in
      map_identity h device_addr >>= λ h'.
      let functions = function_loop (s, h') device_addr 0 8 in
      if is_absent h'.frames.mem device_addr then some (s, h') else functions

  unfoldable pub device_loop : S × Heap → (bus_address device : ℕ) → (left : ℕ) → Option (S × Heap)
  device_loop t bus_address device zero = some t
  device_loop t bus_address device (suc left) =
      enumerate_device t bus_address device >>= λ t'. device_loop t' bus_address (device + 1) left

  -- `EnumerateBus`
  unfoldable pub enumerate_bus : S × Heap → (base_address bus : ℕ) → Option (S × Heap)
  enumerate_bus (s, h) base_address bus =
      let bus_addr : ℕ = (base_address + bus * 2 ^ 20) % 2 ^ 64 in
      map_identity h bus_addr >>= λ h'.
      let devices = device_loop (s, h') bus_addr 0 32 in
      if is_absent h'.frames.mem bus_addr then some (s, h') else devices

  unfoldable pub bus_loop : S × Heap → (dev_config bus : ℕ) → (left : ℕ) → Option (S × Heap)
  bus_loop t dev_config bus zero = some t
  bus_loop (s, h) dev_config bus (suc left) =
      enumerate_bus (s, h) (read64 h.frames.mem dev_config) bus >>= λ t'.
      bus_loop t' dev_config (bus + 1) left

  -- One entry of the table: the buses from `startBus` to the one before `endBus`, which are taken
  -- to stay as they are while the buses are walked.
  unfoldable pub enumerate_entry : S × Heap → (dev_config : ℕ) → Option (S × Heap)
  enumerate_entry (s, h) dev_config =
      let start_bus : ℕ = h.frames.mem (dev_config + 10) in
      let end_bus : ℕ = h.frames.mem (dev_config + 11) in
      bus_loop (s, h) dev_config start_bus (end_bus - start_bus)

  unfoldable pub entry_loop : S × Heap → (mcfg i : ℕ) → (left : ℕ) → Option (S × Heap)
  entry_loop t mcfg i zero = some t
  entry_loop t mcfg i (suc left) =
      enumerate_entry t (mcfg + mcfg_header_size + device_config_size * i) >>= λ t'.
      entry_loop t' mcfg (i + 1) left

  -- `PCI_EnumeratePCI`; the number of entries is converted to an `int`.
  unfoldable pub enumerate_pci : S × Heap → (mcfg : ℕ) → Option (S × Heap)
  enumerate_pci (s, h) mcfg =
      let enteries : ℕ =
        (read32 h.frames.mem (mcfg + 4) + 2 ^ 64 - mcfg_header_size)
        % 2 ^ 64
        / device_config_size
        % 2 ^ 32 in
      entry_loop (s, h) mcfg 0 (if leb (2 ^ 31) enteries then 0 else enteries)
