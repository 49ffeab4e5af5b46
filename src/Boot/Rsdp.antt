-- ===== src/Boot/Rsdp.antt =====
-- bootloader/bootloader.c: the search for the root of the ACPI tables among the firmware's tables.
use rizzos.Base.{
  ℕ, zero, suc, ◌+◌, ◌*◌, ◌≤◌, ◌<◌, ◌≡◌, refl, ◌⊎◌, inl, inr, Bool, true, false, ◌&&◌, ◌==◌,
  if◌then◌else◌, arith, Bool-cases,
}
use rizzos.Memory.{Mem, read64}

-- `Strcmp`, on the rounds left
unfoldable pub strcmp : (a b : ℕ → ℕ) → (i : ℕ) → (rounds : ℕ) → Bool
strcmp a b i zero = true
strcmp a b i (suc rounds) =
    let rest = strcmp a b (i + 1) rounds in if a i == b i then rest else false

-- "RSD PTR "
unfoldable pub rsd_ptr : ℕ → ℕ
rsd_ptr i =
    if i == 0
    then 82
    else if i == 1
    then 83
    else if i == 2
    then 68
    else if i == 3
    then 32
    else if i == 4
    then 80
    else if i == 5
    then 84
    else if i == 6
    then 82
    else 32

-- `sizeof(EFI_CONFIGURATION_TABLE)`, and `VendorTable` of an entry
abbrev pub configuration_table_size : ℕ
configuration_table_size = 24

abbrev pub vendor_table : Mem → (entry : ℕ) → ℕ
vendor_table m entry = read64 m (entry + 16)

module _ (compare_guid : Mem → ℕ → Bool) (m : Mem) where
  -- The body of the loop: `configTable` has been moved to the entry `index` before, and the
  -- identifier is read `index` entries behind it.
  unfoldable pub rsdp_step : (config_table index rsdp : ℕ) → ℕ
  rsdp_step config_table index rsdp =
      let same : Bool = compare_guid m (config_table + configuration_table_size * index) in
      let table : ℕ = vendor_table m config_table in
      if same && strcmp rsd_ptr (λ i. m (table + i)) 0 8 then table else rsdp

  -- The loop, on the rounds left
  unfoldable pub rsdp_loop : (config_table index rsdp : ℕ) → (rounds : ℕ) → ℕ
  rsdp_loop config_table index rsdp zero = rsdp
  rsdp_loop config_table index rsdp (suc rounds) =
      rsdp_loop (config_table + configuration_table_size) (index + 1)
        (rsdp_step config_table index rsdp) rounds

  -- The table that the search leaves, among `entries` entries
  unfoldable pub find_rsdp : (config_table entries : ℕ) → ℕ
  find_rsdp config_table entries = rsdp_loop config_table 0 0 entries

  -- Round `index` takes its table: it is that of entry `index` of the tables from `base` on, the
  -- identifier that of entry `2 * index`.
  abbrev pub is_taken : (base index : ℕ) → Bool
  is_taken base index =
      let table : ℕ = vendor_table m (base + configuration_table_size * index) in
      compare_guid m (base + configuration_table_size * (2 * index))
      && strcmp rsd_ptr (λ i. m (table + i)) 0 8

  -- The last round before `entries` that takes its table decides; without one, `rsdp` stays.
  abbrev pub LastTaken : (base first rsdp entries result : ℕ) → Type 0
  LastTaken base first rsdp entries result =
      ((result ≡ rsdp) × ((i : ℕ) → first ≤ i → i < entries → is_taken base i ≡ false))
      ⊎ ((last : ℕ) × (first ≤ last)
          × (last < entries)
          × (is_taken base last ≡ true)
          × (result ≡ vendor_table m (base + configuration_table_size * last))
          × ((i : ℕ) → last < i → i < entries → is_taken base i ≡ false))

  -- A round before the others that takes its table, and one that does not
  taken_first :
      (base first rsdp entries result : ℕ)
      → first < entries
      → is_taken base first ≡ true
      → LastTaken base
          (first + 1)
          (vendor_table m (base + configuration_table_size * first))
          entries
          result
      → LastTaken base first rsdp entries result
  taken_first base first rsdp entries result small on (inl (eq, never)) =
      inr (first, omega arith, small, on, eq, λ i p q. never i (omega arith) q)
  taken_first base first rsdp entries result small on (inr (last, lo, hi, taken, eq, none_later)) =
      inr (last, omega arith, hi, taken, eq, none_later)

  left_first :
      (base first rsdp entries result : ℕ)
      → is_taken base first ≡ false
      → LastTaken base (first + 1) rsdp entries result
      → LastTaken base first rsdp entries result
  left_first base first rsdp entries result off (inl (eq, never)) = inl (
    eq,
    λ i p q. elim (Bool-cases (first == i)) [
      | inl same ↦ let e : first ≡ i = ground (arith, same) in rw (← e) off
      | inr other ↦ never i (ground (arith, other)) q
    ],
  )
  left_first base first rsdp entries result off (inr (last, lo, hi, taken, eq, none_later)) =
      inr (last, omega arith, hi, taken, eq, none_later)

  loop-LastTaken :
      (base index rsdp rounds entries : ℕ)
      → entries ≡ index + rounds
      → LastTaken base index rsdp entries
          (rsdp_loop (base + configuration_table_size * index) index rsdp rounds)
  unfolding rsdp_loop rsdp_step
  loop-LastTaken base index rsdp zero entries e = inl (refl, λ i p q. absurd (omega arith))
  loop-LastTaken base index rsdp (suc rounds) entries e =
      let here = base + configuration_table_size * index in
      let next : base + configuration_table_size * (index + 1) ≡ here + configuration_table_size =
        omega arith in
      let guid : here + configuration_table_size * index
          ≡ base + configuration_table_size * (2 * index) =
        omega arith in
      let step : ℕ → ℕ = λ r. rsdp_loop (here + configuration_table_size) (index + 1) r rounds in
      let rest : (r : ℕ) → LastTaken base (index + 1) r entries (step r) =
        λ r. rw next at (loop-LastTaken base (index + 1) r rounds entries (omega arith)) in
      elim (Bool-cases (is_taken base index)) [
        | inl on ↦
            rw (guid, on)
              (taken_first base index rsdp entries (step (vendor_table m here)) (omega arith) on
                (rest (vendor_table m here)))
        | inr off ↦ rw (guid, off) (left_first base index rsdp entries (step rsdp) off (rest rsdp))
      ]

  -- The search for the RSDP leaves the table of the last entry whose table begins with "RSD PTR "
  -- and for which the identifier of the entry of twice its number is that of ACPI 2.0; without one
  -- it leaves NULL.
  pub find_rsdp-LastTaken : (base entries : ℕ) → LastTaken base 0 0 entries (find_rsdp base entries)
  unfolding find_rsdp
  find_rsdp-LastTaken base entries =
      let e : base + configuration_table_size * 0 ≡ base = omega arith in
      rw e at (loop-LastTaken base 0 0 entries entries (omega arith))
