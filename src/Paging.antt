-- ===== src/Paging.antt =====
-- The page tables: entries (rizzos/src/paging/paging.c), the indices of a virtual address
-- (rizzos/src/paging/page_map_indexer.c) and the mapping of a page
-- (rizzos/src/paging/page_table_manager.c).
pub mod Entry
pub mod Indexer
pub mod Mapper
pub mod Tree
pub mod Walk
mod Tests
