-- ===== src/Paging/Mapper/Down.antt =====
-- The way of `PTM_MapMemory` (rizzos/src/paging/page_table_manager.c) from the root down to the
-- table of the last level.
use native.Mathlib.Nat.{div-div-eq-div-mul}
use rizzos.Base.{
  ℕ, zero, suc, ◌+◌, ◌*◌, ◌/◌, ◌%◌, ◌^◌, ◌≤◌, ◌<◌, ◌≡◌, ◌∙◌, ap, inl, inr, true, some, Bool-cases,
  arith,
}
use rizzos.Memory.{Mem, read64}
use rizzos.Memory.Words.{read64-agree}
use rizzos.PageFrame.{Pfa, locked, page_bound}
use rizzos.Paging.Mapper.{next_table}
use rizzos.Paging.Mapper.Step.{Stepped, next_table-Stepped}
use rizzos.Paging.Tree.{Shape, IsTree, IsReady, room}
use rizzos.Paging.Walk.{entry, is_present, target, table_index, walk, arrive}

-- An index of the address without its last nine bits of index.
table_index-shift : (l v : ℕ) → table_index l (v / 512) ≡ table_index (suc l) v
table_index-shift l v =
    ap (λ x. x % 512) (div-div-eq-div-mul v 512 (4096 * 512 ^ l) ∙ ap (λ x. v / x) (omega arith))

table_index-power : (l v : ℕ) → table_index 1 (v / 512 ^ l) ≡ table_index (suc l) v
table_index-power l v =
    ap (λ x. x % 512)
      (div-div-eq-div-mul v (512 ^ l) (4096 * 512 ^ 1) ∙ ap (λ x. v / x) (omega arith))

-- One more level on the way.
arrive_step :
    (k : ℕ) (m : Mem) (a v t : ℕ)
    → arrive k m a (v / 512) ≡ some t
    → is_present (entry m t (table_index 1 v)) ≡ true
    → arrive (suc k) m a v ≡ some (target (entry m t (table_index 1 v)))
unfolding arrive
arrive_step zero m a v t h on =
    let same : a ≡ t = cc in
    let there : is_present (entry m a (table_index 1 v)) ≡ true = rw same on in rw (there, same)
arrive_step (suc k) m a v t h on =
    elim (Bool-cases (is_present (entry m a (table_index (suc (suc k)) v)))) [
      | inr off ↦ cc (rw (table_index-shift (suc k) v, off) at h)
      | inl there ↦
          rw there (arrive_step k m _ v t (rw (table_index-shift (suc k) v, there) at h) on)
    ]

-- `k` steps below the root, with `l` to go: a table of that level, on the way that the walk of
-- `v` takes. No translation is changed, nor the bytes of page 0, and locked pages
-- stay locked.
pub record Down (s : Pfa) (root v k l : ℕ) (g : Shape) (out : ℕ × Pfa) : Type 0 where
  pub tree : IsTree g out.1
  pub ready : IsReady out.1
  pub top : g.level root ≡ 4
  pub level : g.level out.0 ≡ suc l
  pub reached : arrive k out.1.mem root (v / 512 ^ l) ≡ some out.0
  pub walks : (w : ℕ) → walk 4 out.1.mem root w ≡ walk 4 s.mem root w
  pub low_bytes : (x : ℕ) → x < 4096 → out.1.mem x ≡ s.mem x
  pub left : room s ≤ room out.1 + k
  pub bound : page_bound out.1 ≡ page_bound s
  pub keeps : (j : ℕ) → j < page_bound s → locked s j ≡ true → locked out.1 j ≡ true

module _ (s : Pfa) (root v : ℕ) (enough : 3 ≤ room s) where
  stepped-Down :
      (k l : ℕ) (g g' : Shape) (out out' : ℕ × Pfa)
      → Down s root v k (suc l) g out
      → k ≤ 2
      → Stepped g out.1 out.0 (table_index (suc l) v) l out' g'
      → Down s root v (suc k) l g' out'
  stepped-Down k l g g' out out' d few st = record {
    tree = st.tree;
    ready = st.ready;
    top = st.kept root (omega (arith, d.top)) ∙ d.top;
    level = st.level;
    reached =
        let here : v / 512 ^ l / 512 ≡ v / 512 ^ suc l =
          div-div-eq-div-mul v (512 ^ l) 512 ∙ ap (λ x. v / x) (omega arith) in
        let index = table_index-power l v in
        let was : arrive k out'.1.mem root (v / 512 ^ l / 512) ≡ some out.0 =
          rw here (st.arrives k root (v / 512 ^ suc l) out.0 (omega (arith, d.top)) d.reached) in
        arrive_step k out'.1.mem root (v / 512 ^ l) out.0 was (rw index st.entered)
        ∙ ap some (rw index st.leads);
    walks = λ w. st.walks 4 root w d.top ∙ d.walks w;
    low_bytes = λ x h. st.low_bytes x h ∙ d.low_bytes x h;
    left = omega (arith, st.left, d.left);
    bound = st.bound ∙ d.bound;
    keeps = λ j h on. st.keeps j (omega (arith, d.bound)) (d.keeps j h on);
  }

  pub next_table-Down :
      (k l field : ℕ) (g : Shape) (out : ℕ × Pfa)
      → Down s root v k (suc l) g out
      → k ≤ 2
      → field + 8 ≤ 4096
      → read64 s.mem field ≡ table_index (suc l) v
      → (out' : ℕ × Pfa) × (g' : Shape) × (next_table out.1 out.0 field ≡ some out')
        × Down s root v (suc k) l g' out'
  next_table-Down k l field g out d few low index =
      let same : read64 out.1.mem field ≡ read64 s.mem field =
        read64-agree s.mem out.1.mem field (λ x p q. d.low_bytes x (omega arith)) in
      let (out', g', eq, st) =
        next_table-Stepped g out.1 out.0 (table_index (suc l) v) l d.tree d.ready d.level
          (omega arith) field low (same ∙ index) (omega (arith, d.left)) in
      (out', g', eq, stepped-Down k l g g' out out' d few st)
