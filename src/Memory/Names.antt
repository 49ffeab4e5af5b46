-- ===== src/Memory/Names.antt =====
-- rizzos/src/uefi_memory.c: the names of the firmware's types of memory.
use Prim.Native.String.{String}
use rizzos.Base.{ℕ, ◌==◌, if◌then◌else◌}

-- `UEFI_MEM_TypeName`
unfoldable pub type_name : ℕ → String
type_name type =
    if type == 0
    then "EfiReservedMemoryType"
    else if type == 1
    then "EfiLoaderCode"
    else if type == 2
    then "EfiLoaderData"
    else if type == 3
    then "EfiBootServicesCode"
    else if type == 4
    then "EfiBootServicesData"
    else if type == 5
    then "EfiRuntimeServicesCode"
    else if type == 6
    then "EfiRuntimeServicesData"
    else if type == 7
    then "EfiConventionalMemory"
    else if type == 8
    then "EfiUnusableMemory"
    else if type == 9
    then "EfiACPIReclaimMemory"
    else if type == 10
    then "EfiACPIMemoryNVS"
    else if type == 11
    then "EfiMemoryMappedIO"
    else if type == 12
    then "EfiMemoryMappedIOPortSpace"
    else if type == 13
    then "EfiPalCode"
    else "UNREACHABLE"
