-- ===== src/Acpi/Find.antt =====
-- `ACPI_FindTable` of rizzos/src/acpi.c finds the first table with the signature.
use rizzos.Base.{
  ℕ, zero, suc, ◌+◌, ◌-◌, ◌/◌, ◌%◌, ◌^◌, ◌≤◌, ◌<◌, ◌≡◌, ◌≢◌, refl, ◌⊎◌, inl, inr, true, false, ◌==◌,
  arith, Bool-cases,
}
use rizzos.Memory.{Mem}
use rizzos.Acpi.{str_eq, listed, find_loop, table_entries, find_table, sdt_lenght}

-- The four bytes at `header` are those at `signature`.
abbrev pub Matches : Mem → (header signature : ℕ) → Type 0
Matches m header signature = (j : ℕ) → j < 4 → m (header + j) ≡ m (signature + j)

str_eq-agree :
    (m : Mem) (a b i rounds : ℕ)
    → ((str_eq m a b i rounds ≡ true) × ((j : ℕ) → i ≤ j → j < i + rounds → m (a + j) ≡ m (b + j)))
      ⊎ ((str_eq m a b i rounds ≡ false)
          × (j : ℕ) × (i ≤ j)
          × (j < i + rounds)
          × (m (a + j) ≢ m (b + j)))
unfolding str_eq
str_eq-agree m a b i zero = inl (refl, λ j p q. absurd (omega arith))
str_eq-agree m a b i (suc rounds) = elim (Bool-cases (m (a + i) == m (b + i))) [
  | inr differ ↦ rw differ (inr (refl, i, omega arith, omega arith, ground arith))
  | inl same ↦ rw same (elim (str_eq-agree m a b (i + 1) rounds) [
    | inr (e, j, p, q, r) ↦ inr (e, j, omega arith, omega arith, r)
    | inl (e, all) ↦ inl (
      e,
      λ j p q. elim (Bool-cases (j == i)) [
        | inl here ↦ let there : j ≡ i = ground arith in rw there (ground arith)
        | inr later ↦ all j (ground arith) (omega arith)
      ],
    )
  ])
]

-- The first of the entries from `from` on to `to` that has the signature, or none.
abbrev pub FirstMatch : Mem → (sdt_header signature from to out : ℕ) → Type 0
FirstMatch m sdt_header signature from to out =
    ((i : ℕ) × (from ≤ i)
      × (i < to)
      × (out ≡ listed m sdt_header i)
      × Matches m out signature
      × ((k : ℕ) → from ≤ k → k < i → ¬ (Matches m (listed m sdt_header k) signature)))
    ⊎ ((out ≡ 0) × ((k : ℕ) → from ≤ k → k < to → ¬ (Matches m (listed m sdt_header k) signature)))

-- The four bytes of a table's signature.
str_eq-Matches :
    (m : Mem) (header signature : ℕ)
    → ((str_eq m header signature 0 4 ≡ true) × Matches m header signature)
      ⊎ ((str_eq m header signature 0 4 ≡ false) × ¬ (Matches m header signature))
str_eq-Matches m header signature = elim (str_eq-agree m header signature 0 4) [
  | inl (e, all) ↦ inl (e, λ j p. all j (omega arith) (omega arith))
  | inr (e, j, p, q, r) ↦ inr (e, λ all. r (all j (omega arith)))
]

find_loop-FirstMatch :
    (m : Mem) (sdt_header signature from rounds : ℕ)
    → FirstMatch m sdt_header signature from
        (from + rounds)
        (find_loop m sdt_header signature from rounds)
unfolding find_loop
find_loop-FirstMatch m sdt_header signature from zero = inr (refl, λ k p q. absurd (omega arith))
find_loop-FirstMatch m sdt_header signature from (suc rounds) =
    elim (str_eq-Matches m (listed m sdt_header from) signature) [
      | inl (e, found) ↦
          rw e (inl (from, omega arith, omega arith, refl, found, λ k p q. absurd (omega arith)))
      | inr (e, other) ↦
          let before : (k : ℕ) → k ≡ from → ¬ (Matches m (listed m sdt_header k) signature) =
            λ k q. rw q other in
          rw e (elim (find_loop-FirstMatch m sdt_header signature (from + 1) rounds) [
            | inl (i, p, q, here, found, none_before) ↦ inl (
              i,
              omega arith,
              omega arith,
              here,
              found,
              λ k a b. elim (Bool-cases (k == from)) [
                | inl first ↦ before k (ground arith)
                | inr later ↦ none_before k (ground arith) b
              ],
            )
            | inr (null, none_at_all) ↦ inr (
              null,
              λ k a b. elim (Bool-cases (k == from)) [
                | inl first ↦ before k (ground arith)
                | inr later ↦ none_at_all k (ground arith) (omega arith)
              ],
            )
          ])
    ]

counted : (n : ℕ) → 36 ≤ n → n < 2 ^ 32 → table_entries n ≡ 0 + (n - 36) / 8
counted n long short =
    let fits : (n + 2 ^ 64 - 36) % 2 ^ 64 / 8 % 2 ^ 32 ≡ (n - 36) / 8 = omega arith in
    ground (arith, fits)

-- For a root table of 36 bytes or more, ACPI_FindTable returns the first table among its entries
-- that has the four bytes of the signature, or 0, and then no entry has them.
pub find_table-FirstMatch :
    (m : Mem) (sdt_header signature : ℕ)
    → 36 ≤ sdt_lenght m sdt_header
    → sdt_lenght m sdt_header < 2 ^ 32
    → FirstMatch m sdt_header signature 0
        ((sdt_lenght m sdt_header - 36) / 8)
        (find_table m sdt_header signature)
unfolding find_table
find_table-FirstMatch m sdt_header signature long short =
    let entries : table_entries (sdt_lenght m sdt_header) ≡ 0 + (sdt_lenght m sdt_header - 36) / 8 =
      counted (sdt_lenght m sdt_header) long short in
    let plain : 0 + (sdt_lenght m sdt_header - 36) / 8 ≡ (sdt_lenght m sdt_header - 36) / 8 =
      omega arith in
    rw (entries, plain)
      (rw plain at
        (find_loop-FirstMatch m sdt_header signature 0 ((sdt_lenght m sdt_header - 36) / 8)))
