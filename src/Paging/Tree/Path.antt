-- ===== src/Paging/Tree/Path.antt =====
-- In a tree of page tables the way to a table is unique, so two addresses that reach the same
-- table have the same indices.
use native.Mathlib.Nat.{div-div-eq-div-mul}
use rizzos.Base.{
  ◌+◌, ◌/◌, ◌%◌, ◌^◌, ℕ, zero, suc, ◌≡◌, sym, ◌∙◌, ap, inl, inr, none, some, Bool-cases, arith,
}
use rizzos.Memory.{Mem}
use rizzos.PageFrame.{Pfa}
use rizzos.Paging.Tree.{Shape, IsTree}
use rizzos.Paging.Walk.{entry, is_present, target, table_index, walk, arrive}

-- A walk goes to the last table and reads one entry there.
pub walk-arrive :
    (k : ℕ) (m : Mem) (a v : ℕ) {p : ℕ}
    → arrive k m a v ≡ some p
    → walk (suc k) m a v ≡ walk 1 m p v
unfolding walk arrive
walk-arrive zero m a v h = cc
walk-arrive (suc k) m a v h = elim (Bool-cases (is_present (entry m a (table_index (suc k) v)))) [
  | inr off ↦ cc (rw off at h)
  | inl on ↦ rw on (walk-arrive k m _ v (rw on at h))
]

pub walk-arrive-none :
    (k : ℕ) (m : Mem) (a v : ℕ) → arrive k m a v ≡ none → walk (suc k) m a v ≡ none
unfolding walk arrive
walk-arrive-none zero m a v h = cc
walk-arrive-none (suc k) m a v h =
    elim (Bool-cases (is_present (entry m a (table_index (suc k) v)))) [
      | inr off ↦ rw off
      | inl on ↦ rw on (walk-arrive-none k m _ v (rw on at h))
    ]

-- The indices of two addresses above the last level.
abbrev pub SameIndices : ℕ → ℕ → ℕ → Type 0
SameIndices zero v w = Unit {0}
SameIndices (suc k) v w = (table_index (suc k) v ≡ table_index (suc k) w) × SameIndices k v w

module _ (g : Shape) (s : Pfa) (tree : IsTree g s) where
  pub level-arrive : (k a v p : ℕ) → g.level a ≡ suc k → arrive k s.mem a v ≡ some p → g.level p ≡ 1
  unfolding arrive
  level-arrive zero a v p h r = let e : a ≡ p = cc in rw (← e) h
  level-arrive (suc k) a v p h r =
      elim (Bool-cases (is_present (entry s.mem a (table_index (suc k) v)))) [
        | inr off ↦ cc (rw off at r)
        | inl on ↦
            level-arrive k _ v p
              (omega
                (arith, (tree.child a (table_index (suc k) v) (omega arith) (omega arith) on).0))
              (rw on at r)
      ]

  pub arrive_unique :
      (k a b v w p : ℕ)
      → g.level a ≡ suc k
      → g.level b ≡ suc k
      → arrive k s.mem a v ≡ some p
      → arrive k s.mem b w ≡ some p
      → (a ≡ b) × SameIndices k v w
  unfolding arrive
  arrive_unique zero a b v w p h h' r r' = (cc, tt)
  arrive_unique (suc k) a b v w p h h' r r' =
      elim (Bool-cases (is_present (entry s.mem a (table_index (suc k) v)))) [
        | inr off ↦ cc (rw off at r)
        | inl on ↦ elim (Bool-cases (is_present (entry s.mem b (table_index (suc k) w)))) [
          | inr off ↦ cc (rw off at r')
          | inl on' ↦
              let c = tree.child a (table_index (suc k) v) (omega arith) (omega arith) on in
              let c' = tree.child b (table_index (suc k) w) (omega arith) (omega arith) on' in
              let below =
                arrive_unique k (target (entry s.mem a (table_index (suc k) v)))
                  (target (entry s.mem b (table_index (suc k) w))) v w p (omega (arith, c.0))
                  (omega (arith, c'.0)) (rw on at r) (rw on' at r') in
              (sym c.1 ∙ ap g.parent below.0 ∙ c'.1, (sym c.2 ∙ ap g.slot below.0 ∙ c'.2, below.1))
        ]
      ]

-- The translations of two addresses of one page differ by their offsets alone.
pub walk-same_page :
    (l : ℕ) (m : Mem) (t v w q : ℕ)
    → v / 4096 ≡ w / 4096
    → walk l m t v ≡ some (q + v % 4096)
    → walk l m t w ≡ some (q + w % 4096)
unfolding walk
walk-same_page zero m t v w q same h =
    let sums : t + v % 4096 ≡ q + v % 4096 = cc in let base : t ≡ q = omega arith in rw base
walk-same_page (suc l) m t v w q same h =
    let index : table_index l w ≡ table_index l v =
      ap (λ x. x % 512)
        (sym (div-div-eq-div-mul w 4096 (512 ^ l))
          ∙ ap (λ x. x / 512 ^ l) (sym same)
          ∙ div-div-eq-div-mul v 4096 (512 ^ l)) in
    let e = entry m t (table_index l v) in
    rw index (elim (Bool-cases (is_present e)) [
      | inr off ↦ cc (rw off at h)
      | inl on ↦ rw on (walk-same_page l m (target e) v w q same (rw on at h))
    ])

-- The last table depends on the region of 512 pages alone.
pub arrive-same_region :
    (m : Mem) (a v w : ℕ) → v / 2 ^ 21 ≡ w / 2 ^ 21 → arrive 3 m a v ≡ arrive 3 m a w
unfolding arrive
arrive-same_region m a v w same =
    let i3 : table_index 3 v ≡ table_index 3 w = omega arith in
    let i2 : table_index 2 v ≡ table_index 2 w = omega arith in
    let i1 : table_index 1 v ≡ table_index 1 w = omega arith in rw (i3, i2, i1)
