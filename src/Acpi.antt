-- ===== src/Acpi.antt =====
-- rizzos/src/acpi.c: the search for a table among those that the root table lists.
pub mod Find
mod Tests
use rizzos.Base.{
  ℕ, zero, suc, ◌+◌, ◌-◌, ◌*◌, ◌/◌, ◌%◌, ◌^◌, Bool, true, false, leb, ◌==◌, if◌then◌else◌,
}
use rizzos.Memory.{Mem, read32, read64}

-- `sizeof(SDTHeader)`, packed, and the place of its field `lenght`
abbrev pub sdt_header_size : ℕ
sdt_header_size = 36

abbrev pub sdt_lenght : Mem → ℕ → ℕ
sdt_lenght m sdt_header = read32 m (sdt_header + 4)

-- `StrEq`, on the rounds left
unfoldable pub str_eq : Mem → (str1 str2 i : ℕ) → (rounds : ℕ) → Bool
str_eq m str1 str2 i zero = true
str_eq m str1 str2 i (suc rounds) =
    let rest = str_eq m str1 str2 (i + 1) rounds in
    if m (str1 + i) == m (str2 + i) then rest else false

-- Entry `i` of the root table
abbrev pub listed : Mem → (sdt_header i : ℕ) → ℕ
listed m sdt_header i = read64 m (sdt_header + sdt_header_size + i * 8)

-- The loop of `ACPI_FindTable`, on the rounds left
unfoldable pub find_loop : Mem → (sdt_header signature i : ℕ) → (rounds : ℕ) → ℕ
find_loop m sdt_header signature i zero = 0
find_loop m sdt_header signature i (suc rounds) =
    let rest = find_loop m sdt_header signature (i + 1) rounds in
    let header : ℕ = listed m sdt_header i in if str_eq m header signature 0 4 then header else rest

-- The number of entries, which is converted to an `int`: a negative one makes no round.
abbrev pub table_entries : ℕ → ℕ
table_entries lenght =
    let entries : ℕ = (lenght + 2 ^ 64 - sdt_header_size) % 2 ^ 64 / 8 % 2 ^ 32 in
    if leb (2 ^ 31) entries then 0 else entries

-- `ACPI_FindTable`
unfoldable pub find_table : Mem → (sdt_header signature : ℕ) → ℕ
find_table m sdt_header signature =
    find_loop m sdt_header signature 0 (table_entries (sdt_lenght m sdt_header))
