-- ===== src/Ahci/Create.antt =====
-- rizzos/src/ahci/ahci.c: AHCI_AHCIDriver, which sets up a controller and reads the first sectors
-- and the root directory of each disk.
use rizzos.Base.{
  ◌>>=◌, ℕ, zero, suc, ◌+◌, ◌-◌, ◌*◌, ◌/◌, ◌%◌, ◌^◌, ◌==◌, Option, none, some, if◌then◌else◌,
  update,
}
use rizzos.Fat.{FatBpb, Fat16, parse_fat16_12}
use rizzos.Heap.{Heap, malloc}
use rizzos.Memory.{Mem, read32, set8}
use rizzos.PageFrame.{request_page}
use rizzos.Paging.Mapper.{map_memory}
use rizzos.Ahci.{Hba}
use rizzos.Ahci.Command.{port_read}
use rizzos.Ahci.Driver.{AhciPort, AhciDriver, ahci_driver_size, bar5, probe_ports, port_configure}

-- Memory of the heap's frames replaced
abbrev pub with_mem : Heap → Mem → Heap
with_mem h m = let p = h.frames in record h { frames = record p { mem = m } }

-- The first sector of the root directory; `none` is the fault of a division by zero.
unfoldable pub first_root_dir_sector : FatBpb → Option ℕ
first_root_dir_sector bpb =
    let root_dir_sectors : ℕ =
      (bpb.num_root_dir_entries * 32 + bpb.num_bytes_per_sector - 1) / bpb.num_bytes_per_sector in
    let first_data_sector : ℕ =
      (bpb.num_reserved_sectors
        + bpb.num_file_alocation_tables * bpb.num_sectors_per_fat
        + root_dir_sectors)
      % 2 ^ 32 in
    if bpb.num_bytes_per_sector == 0
    then none
    else some ((first_data_sector + 2 ^ 32 - root_dir_sectors) % 2 ^ 32)

module _ {S : Type 0} (hba : Hba S) where
  open hba use {read}

  -- What is read when the first sectors hold a volume
  unfoldable pub read_root_dir :
      (rounds fuel : ℕ) → S → Heap → AhciPort → Option (ℕ × Fat16) → Option (S × Heap)
  read_root_dir rounds fuel s h port none = some (s, h)
  read_root_dir rounds fuel s h port (some (address, fat16)) =
      first_root_dir_sector fat16.bpb >>= λ sector.
      port_read hba rounds fuel s h.frames.mem port.hba_port sector 4 port.buffer
      >>= λ (done, s', m). some (s', with_mem h m)

  -- The body of the loop over the ports: the port gets a page as its buffer.
  unfoldable pub start_port : (rounds fuel : ℕ) → S → Heap → AhciPort → Option (AhciPort × S × Heap)
  start_port rounds fuel s h port = port_configure hba fuel s h.frames port.hba_port >>= λ (s1, p1).
      let (page, p2) = request_page p1 in
      set8 p2.mem page 0 0x1000 >>= λ m.
      port_read hba rounds fuel s1 m port.hba_port 0 4 page >>= λ (done, s2, m2).
      parse_fat16_12 fuel (with_mem (record h { frames = p2 }) m2) page >>= λ (fat16, h3).
      let buffered = record port { buffer = page } in
      read_root_dir rounds fuel s2 h3 buffered fat16 >>= λ (s4, h4). some (buffered, s4, h4)

  -- The loop over the ports, from port `i` on, on the rounds left
  unfoldable pub ports_loop :
      (rounds fuel : ℕ)
      → S
      → Heap
      → AhciDriver
      → (i : ℕ) → (left : ℕ) → Option (AhciDriver × S × Heap)
  ports_loop rounds fuel s h d i zero = some (d, s, h)
  ports_loop rounds fuel s h d i (suc left) =
      start_port rounds fuel s h (d.ports i) >>= λ (port, s', h').
      ports_loop rounds fuel s' h' (record d { ports = update d.ports i port }) (i + 1) left

  -- `AHCI_AHCIDriver`: `stale` is what the memory of the new driver held before, since only two of
  -- its fields are set. `none` is out of fuel, or a fault.
  unfoldable pub ahci_driver :
      (rounds fuel : ℕ)
      → S
      → Heap
      → (stale : ℕ → AhciDriver) → (pci_base_address : ℕ) → Option (AhciDriver × S × Heap)
  ahci_driver rounds fuel s h stale pci_base_address =
      malloc fuel h ahci_driver_size >>= λ (address, h1).
      let abar : ℕ = read32 h1.frames.mem (pci_base_address + bar5) in
      let held = stale address in
      let d = record held { pci_base_address = pci_base_address; abar = abar } in
      map_memory h1.manager h1.frames abar abar >>= λ p.
      probe_ports hba fuel s d (record h1 { frames = p }) >>= λ (d2, h2).
      ports_loop rounds fuel s h2 d2 0 d2.port_count
