-- ===== src/Paging/Tests.antt =====
-- Runs and instances for rizzos/src/paging/paging.c and page_map_indexer.c.
use rizzos.Base.{ℕ, ◌+◌, ◌*◌, ◌%◌, ◌^◌, ◌<◌, ◌≡◌, arith}
use rizzos.Memory.{Mem}
use rizzos.Paging.Entry.{PageDirEntry, set_address, get_address}
use rizzos.Paging.Entry.Laws.{get_address-set_address}
use rizzos.Paging.Indexer.{create, p_i, pt_i, pd_i, pdp_i, create-reassembles}

abbrev zeroes : Mem
zeroes = λ x. 0

abbrev entry : PageDirEntry
entry = record { value = 0x8000_0000_dead_b003 }

get_address-set_address_example : get_address (set_address entry 0x1_2345) ≡ 0x1_2345 % 2 ^ 40
get_address-set_address_example = get_address-set_address entry 0x1_2345

abbrev heap_start : ℕ
heap_start = 0x0000_1000_0000_0000

create-reassembles_example :
    let (m', pmi) = create zeroes heap_start in
    (pdp_i m' pmi * 2 ^ 39
        + pd_i m' pmi * 2 ^ 30
        + pt_i m' pmi * 2 ^ 21
        + p_i m' pmi * 2 ^ 12
        + heap_start % 2 ^ 12
      ≡ heap_start)
    × (pdp_i m' pmi < 512)
    × (pd_i m' pmi < 512)
    × (pt_i m' pmi < 512)
    × (p_i m' pmi < 512)
create-reassembles_example = create-reassembles zeroes heap_start (omega arith)
