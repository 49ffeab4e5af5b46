-- ===== src/Ahci.antt =====
-- rizzos/src/ahci/ahci.c: the ports of a disk controller. The controller is not in the program, so
-- its registers, by their addresses, are a parameter of all that uses them.
pub mod Command
pub mod Create
pub mod Driver
pub mod Fis
pub mod Polls
pub mod Probe
pub mod Stop
mod Tests
use rizzos.Base.{
  ◌>>=◌, ℕ, zero, suc, ◌+◌, ◌-◌, ◌*◌, ◌/◌, ◌%◌, ◌^◌, Bool, true, false, not, ltb, ◌==◌, bit_and,
  bit_or, Option, none, some, if◌then◌else◌,
}

-- `read` is what a register holds now, which a read leaves as it is; `pass` is what the controller
-- does by the next time that it is asked; `dma` is what it has written to memory by the end of a
-- command.
pub record Hba (S : Type 0) : Type 0 where
  pub read : S → ℕ → ℕ
  pub write : S → ℕ → ℕ → S
  pub pass : S → S
  pub dma : S → (ℕ → ℕ) → ℕ → ℕ

-- `AHCI_PortType`
pub data PortType : Type 0 where
  pt_none pt_sata pt_semb pt_pm pt_satapi : PortType

-- `HBAPort`: the place of each register
abbrev pub command_list_base : ℕ
command_list_base = 0x00

abbrev pub command_list_base_upper : ℕ
command_list_base_upper = 0x04

abbrev pub fis_base_address : ℕ
fis_base_address = 0x08

abbrev pub fis_base_address_upper : ℕ
fis_base_address_upper = 0x0c

abbrev pub interrupt_status : ℕ
interrupt_status = 0x10

abbrev pub cmd_sts : ℕ
cmd_sts = 0x18

abbrev pub task_file_data : ℕ
task_file_data = 0x20

abbrev pub signature_register : ℕ
signature_register = 0x24

abbrev pub sata_status : ℕ
sata_status = 0x28

abbrev pub command_issue : ℕ
command_issue = 0x38

-- `sizeof(HBAPort)`, and in `HBAMemory` the implemented ports and the first port
abbrev pub hba_port_size : ℕ
hba_port_size = 0x80

abbrev pub ports_implemented : ℕ
ports_implemented = 0x0c

abbrev pub hba_ports : ℕ
hba_ports = 0x100

-- HBA_PORT_DEV_PRESENT, HBA_PORT_IPM_ACTIVE, HBA_PxCMD_CR and the other constants
abbrev pub hba_port_dev_present : ℕ
hba_port_dev_present = 0x3

abbrev pub hba_port_ipm_active : ℕ
hba_port_ipm_active = 0x1

abbrev pub px_cmd_cr : ℕ
px_cmd_cr = 0x8000

abbrev pub px_cmd_fre : ℕ
px_cmd_fre = 0x0010

abbrev pub px_cmd_st : ℕ
px_cmd_st = 0x0001

abbrev pub px_cmd_fr : ℕ
px_cmd_fr = 0x4000

abbrev pub px_is_tfes : ℕ
px_is_tfes = 2 ^ 30

abbrev pub sata_sig_atapi : ℕ
sata_sig_atapi = 0xeb140101

abbrev pub sata_sig_ata : ℕ
sata_sig_ata = 0x00000101

abbrev pub sata_sig_semb : ℕ
sata_sig_semb = 0xc33c0101

abbrev pub sata_sig_pm : ℕ
sata_sig_pm = 0x96690101

-- `value & flag` as a test
abbrev pub has : (value flag : ℕ) → Bool
has value flag = ltb 0 (bit_and value flag)

module _ {S : Type 0} (hba : Hba S) where
  open hba use {read, write, pass}

  -- `CheckPortType`
  unfoldable pub check_port_type : S → (port : ℕ) → PortType
  check_port_type s port =
      let status : ℕ = read s (port + sata_status) in
      let signature : ℕ = read s (port + signature_register) in
      if not (bit_and status 0b111 == hba_port_dev_present)
      then pt_none
      else if not (bit_and (status / 2 ^ 8) 0b111 == hba_port_ipm_active)
      then pt_none
      else if signature == sata_sig_atapi
      then pt_satapi
      else if signature == sata_sig_ata
      then pt_sata
      else if signature == sata_sig_pm
      then pt_pm
      else if signature == sata_sig_semb
      then pt_semb
      else pt_none

  -- The loop of `AHCI_Port_StopCMD`; `none` is out of fuel.
  unfoldable pub stop_loop : (fuel : ℕ) → S → (port : ℕ) → Option S
  stop_loop zero s port = none
  stop_loop (suc fuel) s port =
      let receiving : Bool = has (read s (port + cmd_sts)) px_cmd_fr in
      let running : Bool = has (read (pass s) (port + cmd_sts)) px_cmd_cr in
      let next : S = if receiving then pass s else pass (pass s) in
      let rest = stop_loop fuel next port in
      if receiving then rest else if running then rest else some next

  -- `AHCI_Port_StopCMD`
  unfoldable pub clear_start : S → (port : ℕ) → S
  clear_start s port =
      let s1 =
        write s (port + cmd_sts) (bit_and (read s (port + cmd_sts)) (2 ^ 32 - 1 - px_cmd_st)) in
      write s1 (port + cmd_sts) (bit_and (read s1 (port + cmd_sts)) (2 ^ 32 - 1 - px_cmd_fre))

  unfoldable pub stop_cmd : (fuel : ℕ) → S → (port : ℕ) → Option S
  stop_cmd fuel s port = stop_loop fuel (clear_start s port) port

  -- `AHCI_Port_StartCMD`, with the loop that waits
  unfoldable pub start_loop : (fuel : ℕ) → S → (port : ℕ) → Option S
  start_loop zero s port = none
  start_loop (suc fuel) s port =
      let rest = start_loop fuel (pass s) port in
      if has (read s (port + cmd_sts)) px_cmd_cr then rest else some (pass s)

  unfoldable pub set_start : S → (port : ℕ) → S
  set_start s port =
      let s1 = write s (port + cmd_sts) (bit_or (read s (port + cmd_sts)) px_cmd_fre) in
      write s1 (port + cmd_sts) (bit_or (read s1 (port + cmd_sts)) px_cmd_st)

  unfoldable pub start_cmd : (fuel : ℕ) → S → (port : ℕ) → Option S
  start_cmd fuel s port = start_loop fuel s port >>= λ s'. some (set_start s' port)
