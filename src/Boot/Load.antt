-- ===== src/Boot/Load.antt =====
-- What the loop of efi_main (bootloader/bootloader.c) over the program headers leaves in memory.
use native.Mathlib.Nat.{mul-le-mul_right}
use rizzos.Base.{
  ℕ, ◌+◌, ◌-◌, ◌*◌, ◌≤◌, ◌<◌, ◌≡◌, ◌≢◌, refl, ◌∙◌, ap, ◌⊎◌, inl, inr, Bool, true, false, ◌&&◌, leb,
  ltb, ◌==◌, if◌then◌else◌, arith,
}
use rizzos.Memory.{Mem, read32, read64, read_bytes}
use rizzos.Memory.Bytes.{read_bytes-agree}
use rizzos.Memory.Words.{read64-agree}
use rizzos.Boot.{Firmware}
use rizzos.Boot.Elf.{e_phnum, e_phentsize, segment_pages, load_segment}

-- Files, as the firmware's calls document them: the bytes of a file and its length, its position,
-- which SetPosition sets, and Read, which copies from there where the file is long enough.
-- SetPosition and AllocatePages leave the program's memory as it is.
pub record Files {S : Type 0} (firmware : Firmware S) : Type 0 where
  pub content : (file position : ℕ) → ℕ
  pub lenght : (file : ℕ) → ℕ
  pub position : S → (file : ℕ) → ℕ
  pub seeks : (s : S) (file p : ℕ) → position (firmware.set_position s file p).1 file ≡ p
  pub seek_memory :
      (s : S) (file p : ℕ) → firmware.memory (firmware.set_position s file p).1 ≡ firmware.memory s
  pub pages_memory :
      (s : S) (pages a : ℕ)
      → firmware.memory (firmware.allocate_pages s pages a).1 ≡ firmware.memory s
  pub reads :
      (s : S) (file n a x : ℕ)
      → position s file + n ≤ lenght file
      → firmware.memory (firmware.read s file n a).1 x ≡ (
          if leb a x && ltb x (a + n)
          then content file (position s file + (x - a))
          else firmware.memory s x)

pub row_end : (i n e : ℕ) → i < n → i * e + e ≤ n * e
row_end i n e small =
    let rows : (i + 1) * e ≤ n * e = mul-le-mul_right e (omega arith) in
    let one_more : (i + 1) * e ≡ i * e + e = omega arith in omega (arith, rows, one_more)

-- The calls of one segment, by what is read of its header
load_steps :
    {S : Type 0} (firmware : Firmware S) (s s1 s2 : S) (kernel phdr a o n : ℕ)
    → (firmware.allocate_pages s (segment_pages (firmware.memory s) phdr) a).1 ≡ s1
    → (firmware.set_position s1 kernel o).1 ≡ s2
    → read64 (firmware.memory s) (phdr + 24) ≡ a
    → read64 (firmware.memory s1) (phdr + 8) ≡ o
    → read64 (firmware.memory s2) (phdr + 32) ≡ n
    → load_segment firmware s kernel phdr ≡ (firmware.read s2 kernel n a).1
unfolding load_segment
load_steps firmware s s1 s2 kernel phdr a o n e1 e2 ea eo en =
    rw (load_segment, ea, e1, eo, e2, en) refl

-- The program header `i`, its type, and where the segment's bytes come from and go to
module _ (header phdrs : ℕ) (m : Mem) where
  abbrev pub phdr_at : ℕ → ℕ
  phdr_at i = phdrs + i * e_phentsize m header

  abbrev pub is_load : ℕ → Bool
  is_load i = read32 m (phdr_at i) == 1

  abbrev pub p_offset : ℕ → ℕ
  p_offset i = read64 m (phdr_at i + 8)

  abbrev pub p_paddr : ℕ → ℕ
  p_paddr i = read64 m (phdr_at i + 24)

  abbrev pub p_filesz : ℕ → ℕ
  p_filesz i = read64 m (phdr_at i + 32)

  -- The segments to load lie in the file, apart from each other and from the headers.
  pub record IsImage (file_lenght : ℕ) : Type 0 where
    pub entry_size : 40 ≤ e_phentsize m header
    pub in_file :
        (i : ℕ) → i < e_phnum m header → is_load i ≡ true → p_offset i + p_filesz i ≤ file_lenght
    pub off_headers :
        (i x : ℕ)
        → i < e_phnum m header
        → is_load i ≡ true
        → (header ≤ x) × (x < header + 64)
          ⊎ (phdrs ≤ x) × (x < phdrs + e_phnum m header * e_phentsize m header)
        → (x < p_paddr i) ⊎ (p_paddr i + p_filesz i ≤ x)
    pub apart :
        (i j x : ℕ)
        → i < e_phnum m header
        → j < e_phnum m header
        → is_load i ≡ true
        → is_load j ≡ true
        → i ≢ j
        → p_paddr i ≤ x
        → x < p_paddr i + p_filesz i
        → (x < p_paddr j) ⊎ (p_paddr j + p_filesz j ≤ x)

  -- The headers are still in memory.
  abbrev pub Headers : Mem → Type 0
  Headers m' =
      (x : ℕ)
      → (header ≤ x) × (x < header + 64)
        ⊎ (phdrs ≤ x) × (x < phdrs + e_phnum m header * e_phentsize m header)
      → m' x ≡ m x

  module _ {S : Type 0} (firmware : Firmware S) (files : Files firmware) (kernel : ℕ)
      (image : IsImage (files.lenght kernel)) where
    -- A header lies in the table.
    in_table :
        (i x : ℕ)
        → i < e_phnum m header
        → phdr_at i ≤ x
        → x < phdr_at i + 40
        → (header ≤ x) × (x < header + 64)
          ⊎ (phdrs ≤ x) × (x < phdrs + e_phnum m header * e_phentsize m header)
    in_table i x small lo hi =
        let whole = row_end i (e_phnum m header) (e_phentsize m header) small in
        inr (omega arith, omega (arith, whole, image.entry_size))

    pub read_header :
        (m' : Mem) (n a : ℕ)
        → Headers m'
        → header ≤ a
        → a + n ≤ header + 64
        → read_bytes n m' a ≡ read_bytes n m a
    read_header m' n a same lo hi =
        read_bytes-agree n m m' a (λ x p q. same x (inl (omega arith, omega arith)))

    pub read_type :
        (m' : Mem) (i : ℕ)
        → Headers m'
        → i < e_phnum m header
        → read32 m' (phdr_at i) ≡ read32 m (phdr_at i)
    read_type m' i same small =
        read_bytes-agree 4 m m' (phdr_at i)
          (λ x p q. same x (in_table i x small (omega arith) (omega arith)))

    read_field :
        (m' : Mem) (i k : ℕ)
        → Headers m'
        → i < e_phnum m header
        → k ≤ 32
        → read64 m' (phdr_at i + k) ≡ read64 m (phdr_at i + k)
    read_field m' i k same small low =
        read64-agree m m' (phdr_at i + k)
          (λ x p q. same x (in_table i x small (omega arith) (omega arith)))

    -- One segment, from the file.
    memory-load_segment :
        (s : S) (i x : ℕ)
        → Headers (firmware.memory s)
        → i < e_phnum m header
        → is_load i ≡ true
        → firmware.memory (load_segment firmware s kernel (phdr_at i)) x ≡ (
            if leb (p_paddr i) x && ltb x (p_paddr i + p_filesz i)
            then files.content kernel (p_offset i + (x - p_paddr i))
            else firmware.memory s x)
    memory-load_segment s i x same small load =
        let m1 = firmware.memory s in
        let s1 = (firmware.allocate_pages s (segment_pages m1 (phdr_at i)) (p_paddr i)).1 in
        let same1 : firmware.memory s1 ≡ m1 = files.pages_memory s _ _ in
        let s2 = (firmware.set_position s1 kernel (p_offset i)).1 in
        let same2 : firmware.memory s2 ≡ m1 = files.seek_memory s1 kernel _ ∙ same1 in
        let here = files.seeks s1 kernel (p_offset i) in
        let steps =
          load_steps firmware s s1 s2 kernel (phdr_at i) (p_paddr i) (p_offset i) (p_filesz i) refl
            refl (read_field m1 i 24 same small (omega arith))
            (ap (λ m'. read64 m' (phdr_at i + 8)) same1
              ∙ read_field m1 i 8 same small (omega arith))
            (ap (λ m'. read64 m' (phdr_at i + 32)) same2
              ∙ read_field m1 i 32 same small (omega arith)) in
        let fits : files.position s2 kernel + p_filesz i ≤ files.lenght kernel =
          rw here (image.in_file i small load) in
        ap (λ t. firmware.memory t x) steps
        ∙ files.reads s2 kernel (p_filesz i) (p_paddr i) x fits
        ∙ rw (here, same2) refl

    -- After a round, loaded or not, the memory is that of the step, and the headers are still there.
    pub record Round (s : S) (i : ℕ) (s' : S) : Type 0 where
      pub copied :
          is_load i ≡ true
          → (x : ℕ) → p_paddr i ≤ x
          → x < p_paddr i + p_filesz i
          → firmware.memory s' x ≡ files.content kernel (p_offset i + (x - p_paddr i))
      pub rest :
          (x : ℕ)
          → (is_load i ≡ true → (x < p_paddr i) ⊎ (p_paddr i + p_filesz i ≤ x))
          → firmware.memory s' x ≡ firmware.memory s x
      pub headers : Headers (firmware.memory s')

    pub one_load :
        (s : S) (i : ℕ)
        → Headers (firmware.memory s)
        → i < e_phnum m header
        → is_load i ≡ true
        → Round s i (load_segment firmware s kernel (phdr_at i))
    one_load s i same small load = record {
      copied = λ p x lo hi. memory-load_segment s i x same small load ∙ ground arith;
      rest = λ x out. memory-load_segment s i x same small load ∙ ground (arith, out load);
      headers = λ x there.
          memory-load_segment s i x same small load
          ∙ ground (arith, image.off_headers i x small load there)
          ∙ same x there;
    }

    pub one_skip : (s : S) (i : ℕ) → Headers (firmware.memory s) → is_load i ≡ false → Round s i s
    one_skip s i same skip = record {
      copied = λ load. cc (load, skip);
      rest = λ x out. refl;
      headers = same;
    }
