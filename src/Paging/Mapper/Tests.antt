-- ===== src/Paging/Mapper/Tests.antt =====
-- Runs and instances for `PTM_MapMemory` (rizzos/src/paging/page_table_manager.c).
use rizzos.Base.{◌≡◌, refl, some, arith}
use rizzos.PageFrame.{Pfa}
use rizzos.Paging.Mapper.{ptm_create, map_memory}
use rizzos.Paging.Mapper.Map.{Mapped, map_memory-maps}
use rizzos.Paging.Mapper.Sample.{
  empty_root, root, only_root, empty_root-IsTree, empty_root-IsReady, enough_room,
}
use rizzos.Paging.Tree.{Shape}

map_memory-maps_example :
    (g' : Shape) × (s' : Pfa) × (map_memory (ptm_create root) empty_root 0x1000_0000_5123 0xe_0008
      ≡ some s')
    × Mapped only_root empty_root root 0x1000_0000_5123 0xe_0008 g' s'
map_memory-maps_example =
    map_memory-maps only_root empty_root root 0x1000_0000_5123 0xe_0008 empty_root-IsTree
      empty_root-IsReady refl (omega arith) (omega (arith, enough_room))
