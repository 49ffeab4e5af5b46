-- ===== src/Paging/Walk.antt =====
-- The translation of a virtual address by the processor: four levels of tables of 512 entries of
-- eight bytes, bit 0 for "present", bits 12 to 51 for the address of the next table or the page.
use rizzos.Base.{ℕ, zero, suc, ◌+◌, ◌*◌, ◌/◌, ◌%◌, ◌^◌, Bool, Option, none, some, if◌then◌else◌}
use rizzos.Base.Bits.{test_bit}
use rizzos.Memory.{Mem, read64}

-- The nine bits of `v` that index a table with `l` levels of tables below it.
abbrev pub table_index : ℕ → ℕ → ℕ
table_index l v = v / (4096 * 512 ^ l) % 512

abbrev pub entry : Mem → ℕ → ℕ → ℕ
entry m t i = read64 m (t + i * 8)

abbrev pub is_present : ℕ → Bool
is_present e = test_bit e 0

abbrev pub target : ℕ → ℕ
target e = e / 2 ^ 12 % 2 ^ 40 * 2 ^ 12

-- The physical address that `v` stands for below the table `t` of level `l`.
unfoldable pub walk : ℕ → Mem → ℕ → ℕ → Option ℕ
walk zero m t v = some (t + v % 4096)
walk (suc l) m t v =
    if is_present (entry m t (table_index l v))
    then walk l m (target (entry m t (table_index l v))) v
    else none

-- The table that the walk of `v` has reached `l` levels below `t`.
unfoldable pub arrive : ℕ → Mem → ℕ → ℕ → Option ℕ
arrive zero m t v = some t
arrive (suc l) m t v =
    if is_present (entry m t (table_index (suc l) v))
    then arrive l m (target (entry m t (table_index (suc l) v))) v
    else none
