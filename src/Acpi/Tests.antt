-- ===== src/Acpi/Tests.antt =====
-- Runs and instances for rizzos/src/acpi.c.
use rizzos.Base.{◌-◌, ◌/◌, ◌^◌, ◌≤◌, ◌<◌, ◌≡◌, refl, ◌==◌, if◌then◌else◌, arith}
use rizzos.Memory.{Mem, read_bytes, read64}
use rizzos.Acpi.{find_table, sdt_lenght, find_loop, str_eq}
use rizzos.Acpi.Find.{FirstMatch, find_table-FirstMatch}

-- A root table at 0x1000 that lists the tables at 0x2000 and 0x3000; the second begins with the
-- bytes 77 and 67 and the signature at 0x10 too, all else is zero.
abbrev two_tables : Mem
two_tables a =
    if a == 0x1004
    then 52
    else if a == 0x1025
    then 0x20
    else if a == 0x102d
    then 0x30
    else if a == 0x3000
    then 77
    else if a == 0x3001
    then 67
    else if a == 0x10
    then 77
    else if a == 0x11
    then 67
    else 0

long_enough : (36 ≤ sdt_lenght two_tables 0x1000) × (sdt_lenght two_tables 0x1000 < 2 ^ 32)
unfolding read_bytes
long_enough = (omega arith, omega arith)

find_table-FirstMatch_example :
    FirstMatch two_tables 0x1000 0x10 0
      ((sdt_lenght two_tables 0x1000 - 36) / 8)
      (find_table two_tables 0x1000 0x10)
find_table-FirstMatch_example =
    find_table-FirstMatch two_tables 0x1000 0x10 long_enough.0 long_enough.1

second_found : find_table two_tables 0x1000 0x10 ≡ 0x3000
unfolding find_table find_loop str_eq read_bytes read64
second_found = refl
