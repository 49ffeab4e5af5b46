-- ===== src/Paging/Indexer.antt =====
-- rizzos/src/paging/page_map_indexer.c: the four table indices of a virtual address.
use rizzos.Base.{ℕ, ◌+◌, ◌*◌, ◌/◌, ◌%◌, ◌^◌, ◌≤◌, ◌<◌, ◌≡◌, refl, bit_and, ◌∙◌, arith}
use rizzos.Base.Masks.{bit_and-low}
use rizzos.Memory.{Mem, write64, read64}
use rizzos.Memory.Words.{read64-write64, read64-write_bytes, write_bytes-outside}

-- The offsets of `PageMapIndexer` behind the pointer that `PMI_Create` returns. The source
-- initialises the pointer itself by `{0}`, so the pointer is NULL and the structure is written
-- at the address 0.
abbrev pub null_indexer : ℕ
null_indexer = 0

abbrev pub pdp_i_offset : ℕ
pdp_i_offset = 0

abbrev pub pd_i_offset : ℕ
pd_i_offset = 8

abbrev pub pt_i_offset : ℕ
pt_i_offset = 16

abbrev pub p_i_offset : ℕ
p_i_offset = 24

-- `PMI_Create`: the memory after the writes, and the pointer.
unfoldable pub create : Mem → ℕ → Mem × ℕ
create m virtual_address =
    let pmi : ℕ = null_indexer in
    let v1 : ℕ = virtual_address / 2 ^ 12 in
    let m1 = write64 m (pmi + p_i_offset) (bit_and v1 0x1ff) in
    let v2 : ℕ = v1 / 2 ^ 9 in
    let m2 = write64 m1 (pmi + pt_i_offset) (bit_and v2 0x1ff) in
    let v3 : ℕ = v2 / 2 ^ 9 in
    let m3 = write64 m2 (pmi + pd_i_offset) (bit_and v3 0x1ff) in
    let v4 : ℕ = v3 / 2 ^ 9 in
    let m4 = write64 m3 (pmi + pdp_i_offset) (bit_and v4 0x1ff) in (m4, pmi)

-- The fields behind the pointer.
abbrev pub pdp_i : Mem → ℕ → ℕ
pdp_i m pmi = read64 m (pmi + pdp_i_offset)

abbrev pub pd_i : Mem → ℕ → ℕ
pd_i m pmi = read64 m (pmi + pd_i_offset)

abbrev pub pt_i : Mem → ℕ → ℕ
pt_i m pmi = read64 m (pmi + pt_i_offset)

abbrev pub p_i : Mem → ℕ → ℕ
p_i m pmi = read64 m (pmi + p_i_offset)

-- What a reader of the structure finds: the four digits of the address in base 512.
pub create_fields :
    (m : Mem) (v : ℕ)
    → let (m', pmi) = create m v in
      (p_i m' pmi ≡ v / 2 ^ 12 % 2 ^ 9)
      × (pt_i m' pmi ≡ v / 2 ^ 21 % 2 ^ 9)
      × (pd_i m' pmi ≡ v / 2 ^ 30 % 2 ^ 9)
      × (pdp_i m' pmi ≡ v / 2 ^ 39 % 2 ^ 9)
unfolding create
create_fields m v =
    rw
      (
        bit_and-low 9 (v / 2 ^ 12),
        bit_and-low 9 (v / 2 ^ 12 / 2 ^ 9),
        bit_and-low 9 (v / 2 ^ 12 / 2 ^ 9 / 2 ^ 9),
        bit_and-low 9 (v / 2 ^ 12 / 2 ^ 9 / 2 ^ 9 / 2 ^ 9),
      )
      (let i4 = v / 2 ^ 12 % 2 ^ 9 in
        let i3 = v / 2 ^ 12 / 2 ^ 9 % 2 ^ 9 in
        let i2 = v / 2 ^ 12 / 2 ^ 9 / 2 ^ 9 % 2 ^ 9 in
        let i1 = v / 2 ^ 12 / 2 ^ 9 / 2 ^ 9 / 2 ^ 9 % 2 ^ 9 in
        let m1 = write64 m 24 i4 in
        let m2 = write64 m1 16 i3 in
        let m3 = write64 m2 8 i2 in
        (
          read64-write_bytes 8 m3 0 i1 24 (omega arith)
              ∙ read64-write_bytes 8 m2 8 i2 24 (omega arith)
              ∙ read64-write_bytes 8 m1 16 i3 24 (omega arith)
              ∙ read64-write64 m 24 i4 (omega arith),
          read64-write_bytes 8 m3 0 i1 16 (omega arith)
              ∙ read64-write_bytes 8 m2 8 i2 16 (omega arith)
              ∙ read64-write64 m1 16 i3 (omega arith)
              ∙ omega arith,
          read64-write_bytes 8 m3 0 i1 8 (omega arith)
              ∙ read64-write64 m2 8 i2 (omega arith)
              ∙ omega arith,
          read64-write64 m3 0 i1 (omega arith) ∙ omega arith,
        ))

-- For an address of 48 bits the four fields, each below 512, and the offset in the page make up
-- the address.
pub create-reassembles :
    (m : Mem) (v : ℕ)
    → v < 2 ^ 48
    → let (m', pmi) = create m v in
      (pdp_i m' pmi * 2 ^ 39
          + pd_i m' pmi * 2 ^ 30
          + pt_i m' pmi * 2 ^ 21
          + p_i m' pmi * 2 ^ 12
          + v % 2 ^ 12
        ≡ v)
      × (pdp_i m' pmi < 512)
      × (pd_i m' pmi < 512)
      × (pt_i m' pmi < 512)
      × (p_i m' pmi < 512)
create-reassembles m v h = omega (arith, create_fields m v)

-- The pointer is NULL and the writes go to the first 32 bytes of memory, whatever was there;
-- every other byte is left.
pub create-null : (m : Mem) (v x : ℕ) → ((create m v).1 ≡ 0) × (32 ≤ x → (create m v).0 x ≡ m x)
unfolding create
create-null m v x = (
  refl,
  λ h.
      write_bytes-outside 8 _ 0 _ x (omega arith)
      ∙ write_bytes-outside 8 _ 8 _ x (omega arith)
      ∙ write_bytes-outside 8 _ 16 _ x (omega arith)
      ∙ write_bytes-outside 8 m 24 _ x (omega arith),
)
