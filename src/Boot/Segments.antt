-- ===== src/Boot/Segments.antt =====
-- The loop of efi_main (bootloader/bootloader.c) over the program headers: every segment of the
-- kernel's file is in memory after it.
use rizzos.Base.{
  ℕ, zero, suc, ◌+◌, ◌-◌, ◌*◌, ◌≤◌, ◌<◌, ◌≡◌, refl, ◌∙◌, ◌⊎◌, inl, inr, true, false, ltb, ◌==◌,
  Option, some, if◌then◌else◌, arith, Bool-cases,
}
use rizzos.Memory.{Mem, read32}
use rizzos.Boot.{Firmware}
use rizzos.Boot.Elf.{e_phnum, e_phentsize, load_segment, load_segments}
use rizzos.Boot.Load.{
  Files, phdr_at, is_load, p_offset, p_paddr, p_filesz, IsImage, Headers, Round, one_load, one_skip,
  read_header, read_type, row_end,
}

module _ (header phdrs : ℕ) (m : Mem) where
  -- The segments with the numbers from `i` on, `k` of them, are in the memory `after`, and the
  -- rest of it is that of `before`.
  pub record Loaded (content : ℕ → ℕ) (i k : ℕ) (before after : Mem) : Type 0 where
    pub segments :
        (j x : ℕ)
        → i ≤ j
        → j < i + k
        → is_load header phdrs m j ≡ true
        → p_paddr header phdrs m j ≤ x
        → x < p_paddr header phdrs m j + p_filesz header phdrs m j
        → after x ≡ content (p_offset header phdrs m j + (x - p_paddr header phdrs m j))
    pub others :
        (x : ℕ)
        → ((j : ℕ)
            → i ≤ j
            → j < i + k
            → is_load header phdrs m j ≡ true
            → (x < p_paddr header phdrs m j)
              ⊎ (p_paddr header phdrs m j + p_filesz header phdrs m j ≤ x))
        → after x ≡ before x

module _ {S : Type 0} (firmware : Firmware S) (kernel header phdrs : ℕ) where
  loop_step :
      (s s' : S) (phdr phdr' fuel : ℕ)
      → (if read32 (firmware.memory s) phdr == 1 then load_segment firmware s kernel phdr else s)
        ≡ s'
      → phdr + e_phentsize (firmware.memory s') header ≡ phdr'
      → ltb phdr
          (phdrs + e_phnum (firmware.memory s) header * e_phentsize (firmware.memory s) header)
        ≡ true
      → load_segments firmware (suc fuel) s kernel header phdrs phdr
        ≡ load_segments firmware fuel s' kernel header phdrs phdr'
  unfolding load_segments
  loop_step s s' phdr phdr' fuel e next on = rw (e, next, on) refl

  loop_end :
      (s : S) (phdr fuel : ℕ)
      → ltb phdr
          (phdrs + e_phnum (firmware.memory s) header * e_phentsize (firmware.memory s) header)
        ≡ false
      → load_segments firmware (suc fuel) s kernel header phdrs phdr ≡ some s
  unfolding load_segments
  loop_end s phdr fuel off = rw off refl

module _ (header phdrs : ℕ) (m : Mem) {S : Type 0} (firmware : Firmware S) (files : Files firmware)
    (kernel : ℕ) (image : IsImage header phdrs m (files.lenght kernel)) where
  abbrev num : ℕ
  num = e_phnum m header

  abbrev at_header : ℕ → ℕ
  at_header = phdr_at header phdrs m

  -- The bounds of the loop are as in the header.
  bound :
      (s : S)
      → Headers header phdrs m (firmware.memory s)
      → phdrs + e_phnum (firmware.memory s) header * e_phentsize (firmware.memory s) header
        ≡ phdrs + num * e_phentsize m header
  bound s same =
      let count =
        read_header header phdrs m firmware files kernel image (firmware.memory s) 2 (header + 56)
          same (omega arith) (omega arith) in
      let size =
        read_header header phdrs m firmware files kernel image (firmware.memory s) 2 (header + 54)
          same (omega arith) (omega arith) in
      rw (count, size) refl

  round :
      (s : S) (i : ℕ)
      → Headers header phdrs m (firmware.memory s)
      → i < num
      → (s' : S) × ((if read32 (firmware.memory s) (at_header i) == 1
            then load_segment firmware s kernel (at_header i)
            else s)
          ≡ s')
        × Round header phdrs m firmware files kernel image s i s'
  round s i same small =
      let type =
        read_type header phdrs m firmware files kernel image (firmware.memory s) i same small in
      elim (Bool-cases (is_load header phdrs m i)) [
        | inl load ↦ (
          _,
          rw (type, load) refl,
          one_load header phdrs m firmware files kernel image s i same small load,
        )
        | inr skip ↦ (
          s,
          rw (type, skip) refl,
          one_skip header phdrs m firmware files kernel image s i same skip,
        )
      ]

  abbrev Loads : ℕ → ℕ → S → Option S → Type 0
  Loads i k s result =
      (s' : S) × (result ≡ some s')
      × Loaded header phdrs m (files.content kernel) i k (firmware.memory s) (firmware.memory s')

  -- A round, and then the others
  Loaded-step :
      (i k : ℕ) (s s1 s' : S)
      → i + suc k ≡ num
      → Round header phdrs m firmware files kernel image s i s1
      → Loaded header phdrs m
          (files.content kernel)
          (i + 1)
          k
          (firmware.memory s1)
          (firmware.memory s')
      → Loaded header phdrs m
          (files.content kernel)
          i
          (suc k)
          (firmware.memory s)
          (firmware.memory s')
  Loaded-step i k s s1 s' sum r rest = record {
    segments = λ j x lo hi load from to. elim (Bool-cases (i == j)) [
      | inl here ↦
          let same : i ≡ j = ground (arith, here) in
          let load' : is_load header phdrs m i ≡ true = rw same load in
          rest.others x (λ j' lo' hi' load''.
            image.apart j j' x (omega arith) (omega arith) load load'' (λ q. absurd (omega arith))
              from to)
          ∙ r.copied load' x (rw same from) (rw same to)
          ∙ rw same refl
      | inr other ↦
          let later : i + 1 ≤ j = ground (arith, other, lo) in
          rest.segments j x later (omega arith) load from to
    ];
    others = λ x out.
        rest.others x (λ j lo hi load. out j (omega arith) (omega arith) load)
        ∙ r.rest x (λ load. out i (omega arith) (omega arith) load);
  }

  loop-Loads :
      (k i fuel : ℕ) (s : S)
      → i + k ≡ num
      → k < fuel
      → Headers header phdrs m (firmware.memory s)
      → Loads i k s (load_segments firmware fuel s kernel header phdrs (at_header i))
  loop-Loads k i zero s sum enough same = absurd (omega arith)
  loop-Loads zero i (suc fuel) s sum enough same =
      let last : i ≡ num = omega arith in
      (
        s,
        loop_end firmware kernel header phdrs s (at_header i) fuel
            (rw (bound s same, last) (ground arith)),
        record { segments = λ j x lo hi. absurd (omega arith); others = λ x out. refl },
      )
  loop-Loads (suc k) i (suc fuel) s sum enough same =
      let small : i < num = omega arith in
      let (s1, step, r) = round s i same small in
      let whole = row_end i num (e_phentsize m header) small in
      let size =
        read_header header phdrs m firmware files kernel image (firmware.memory s1) 2 (header + 54)
          r.headers (omega arith) (omega arith) in
      let next : at_header i + e_phentsize (firmware.memory s1) header ≡ at_header (i + 1) =
        rw size (omega arith) in
      let on : ltb (at_header i) (phdrs + num * e_phentsize m header) ≡ true =
        ground (arith, whole, image.entry_size) in
      let (s', eq, rest) = loop-Loads k (i + 1) fuel s1 (omega arith) (omega arith) r.headers in
      (
        s',
        loop_step firmware kernel header phdrs s s1 (at_header i) (at_header (i + 1)) fuel step next
              (rw (bound s same) on)
            ∙ eq,
        Loaded-step i k s s1 s' sum r rest,
      )

-- If the firmware's calls do with files and memory what they are documented to do, and the
-- segments to load lie in the file, apart from each other and from the headers in memory, then
-- with more fuel than program headers the loop of efi_main ends: the bytes of every segment to
-- load are in memory, as many as its size in the file, and every other byte is as before.
pub load_segments-Loads :
    (header phdrs : ℕ) {S : Type 0} (firmware : Firmware S) (files : Files firmware)
    (kernel fuel : ℕ) (s : S)
    → IsImage header phdrs (firmware.memory s) (files.lenght kernel)
    → e_phnum (firmware.memory s) header < fuel
    → (s' : S) × (load_segments firmware fuel s kernel header phdrs phdrs ≡ some s')
      × Loaded header phdrs
          (firmware.memory s)
          (files.content kernel)
          0
          (e_phnum (firmware.memory s) header)
          (firmware.memory s)
          (firmware.memory s')
load_segments-Loads header phdrs firmware files kernel fuel s image enough =
    let m = firmware.memory s in
    let start : phdrs + 0 * e_phentsize m header ≡ phdrs = omega arith in
    rw start at (
      loop-Loads header phdrs m firmware files kernel image (e_phnum m header) 0 fuel s
        (omega arith) enough (λ x there. refl))
