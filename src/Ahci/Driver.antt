-- ===== src/Ahci/Driver.antt =====
-- rizzos/src/ahci/ahci.c: the set-up of the controller's ports and the first reads from them.
use rizzos.Base.{
  ◌>>=◌, ℕ, zero, suc, ◌+◌, ◌*◌, ◌/◌, ◌%◌, ◌^◌, Bool, true, false, ◌&&◌, Option, some,
  if◌then◌else◌, update,
}
use rizzos.Heap.{Heap, malloc}
use rizzos.Memory.{Mem, write32, read64, set8}
use rizzos.PageFrame.{Pfa, request_page}
use rizzos.Ahci.{
  Hba, PortType, pt_none, pt_sata, pt_semb, pt_pm, pt_satapi, command_list_base,
  command_list_base_upper, fis_base_address, fis_base_address_upper, ports_implemented, hba_ports,
  hba_port_size, has, check_port_type, stop_cmd, start_cmd,
}
use rizzos.Ahci.Command.{write16}

-- `AHCI_Port`
pub record AhciPort : Type 0 where
  pub hba_port : ℕ
  pub port_type : PortType
  pub buffer : ℕ
  pub port_number : ℕ

-- `AHCIDriver`, with the ports that its pointers point to
pub record AhciDriver : Type 0 where
  pub pci_base_address : ℕ
  pub abar : ℕ
  pub ports : ℕ → AhciPort
  pub port_count : ℕ

-- `sizeof(AHCI_Port)` and `sizeof(AHCIDriver)`, and the place of `BAR5` in `PCIHeader0`
abbrev pub ahci_port_size : ℕ
ahci_port_size = 32

abbrev pub ahci_driver_size : ℕ
ahci_driver_size = 280

abbrev pub bar5 : ℕ
bar5 = 0x24

abbrev pub max_ahci_ports : ℕ
max_ahci_ports = 32

unfoldable pub is_disk : PortType → Bool
is_disk pt_none = false
is_disk pt_sata = true
is_disk pt_semb = false
is_disk pt_pm = false
is_disk pt_satapi = true

-- The new port at the end of the ports, in memory that holds what it held before
unfoldable pub add_port : AhciDriver → Mem → (address hba_port : ℕ) → PortType → AhciDriver
add_port d m address hba_port port_type = record d {
  ports = update d.ports d.port_count (record {
    hba_port = hba_port;
    port_type = port_type;
    buffer = read64 m (address + 16);
    port_number = d.port_count;
  });
  port_count = (d.port_count + 1) % 2 ^ 8;
}

module _ {S : Type 0} (hba : Hba S) where
  open hba use {read, write}

  -- The body of the loop of `AHCI_AHCIDriver_ProbePorts`; `none` is an allocation out of fuel.
  unfoldable pub probe_port :
      (fuel : ℕ) → S → (implemented i : ℕ) → AhciDriver → Heap → Option (AhciDriver × Heap)
  probe_port fuel s implemented i d h =
      let port : ℕ = d.abar + hba_ports + i * hba_port_size in
      let port_type : PortType = check_port_type hba s port in
      if has implemented (2 ^ i) && is_disk port_type
      then (malloc fuel h ahci_port_size >>= λ (address, h').
          some (add_port d h'.frames.mem address port port_type, h'))
      else some (d, h)

  -- The loop, from port `i` on, on the rounds left
  unfoldable pub probe_loop :
      (fuel : ℕ)
      → S
      → (implemented i : ℕ) → (rounds : ℕ) → AhciDriver
      → Heap
      → Option (AhciDriver × Heap)
  probe_loop fuel s implemented i zero d h = some (d, h)
  probe_loop fuel s implemented i (suc rounds) d h =
      probe_port fuel s implemented i d h >>= λ (d', h').
      probe_loop fuel s implemented (i + 1) rounds d' h'

  -- `AHCI_AHCIDriver_ProbePorts`
  unfoldable pub probe_ports : (fuel : ℕ) → S → AhciDriver → Heap → Option (AhciDriver × Heap)
  probe_ports fuel s d h =
      probe_loop fuel s (read s (d.abar + ports_implemented)) 0 max_ahci_ports d h

  -- The 32 headers of `AHCI_Port_Configure`, from header `i` on, on the rounds left
  unfoldable pub header_loop : Pfa → (cmd_header i : ℕ) → (rounds : ℕ) → Option Pfa
  header_loop p cmd_header i zero = some p
  header_loop p cmd_header i (suc rounds) =
      let header : ℕ = cmd_header + i * 32 in
      let (table, p') = request_page (record p { mem = write16 p.mem (header + 2) 8 }) in
      let address : ℕ = (table + i * 2 ^ 8) % 2 ^ 64 in
      let m1 = write32 p'.mem (header + 8) (address % 2 ^ 32) in
      let m2 = write32 m1 (header + 12) (address / 2 ^ 32) in
      set8 m2 table 0 256 >>= λ m3. header_loop (record p' { mem = m3 }) cmd_header (i + 1) rounds

  -- `AHCI_Port_Configure`, with fuel for its waits
  unfoldable pub port_configure : (fuel : ℕ) → S → Pfa → (port : ℕ) → Option (S × Pfa)
  port_configure fuel s p port = stop_cmd hba fuel s port >>= λ s1.
      let (new_base, p1) = request_page p in
      let s2 = write s1 (port + command_list_base) (new_base % 2 ^ 32) in
      let s3 = write s2 (port + command_list_base_upper) (new_base / 2 ^ 32) in
      let (fis_base, p2) = request_page p1 in
      let s4 = write s3 (port + fis_base_address) (fis_base % 2 ^ 32) in
      let s5 = write s4 (port + fis_base_address_upper) (fis_base / 2 ^ 32) in
      set8 p2.mem fis_base 0 256 >>= λ m.
      let cmd_header : ℕ =
        (read s5 (port + command_list_base) + read s5 (port + command_list_base_upper) * 2 ^ 32)
        % 2 ^ 64 in
      header_loop (record p2 { mem = m }) cmd_header 0 32 >>= λ p3.
      start_cmd hba fuel s5 port >>= λ s6. some (s6, p3)
