-- ===== src/Paging/Mapper/Step.antt =====
-- One step down of `PTM_MapMemory` (rizzos/src/paging/page_table_manager.c): there is a table
-- below, and nothing else changes.
use rizzos.Base.{
  ℕ, suc, ◌+◌, ◌*◌, ◌/◌, ◌%◌, ◌^◌, ◌≤◌, ◌<◌, ◌≡◌, refl, sym, ap, ◌∙◌, inl, inr, true, false, some,
  Bool-cases, arith,
}
use rizzos.Base.Bits.{eq_of_bits, test_bit-mod, test_bit-shr}
use rizzos.Bitmap.{Bitmap}
use rizzos.Memory.{read64}
use rizzos.Memory.Fill.{set-filled, filled, filled-outside}
use rizzos.Memory.Words.{read64-agree}
use rizzos.PageFrame.{Pfa, locked, page_bound, request_page}
use rizzos.PageFrame.Request.{Granted}
use rizzos.Paging.Entry.{
  PageDirEntry, present, readwrite, flag_index, set_flag, get_flag, set_address, get_address,
}
use rizzos.Paging.Entry.Laws.{
  get_flag-test_bit, get_flag-set_flag, get_address-set_address, fields_independent,
  bits-get_address,
}
use rizzos.Paging.Mapper.{point_to, slot, next_table}
use rizzos.Paging.Mapper.Alloc.{hung, Hanging, Hanging-Hung}
use rizzos.Paging.Mapper.Hang.{walk-hung, arrive-hung, IsTree-hung, IsReady-hung, room-hung}
use rizzos.Paging.Tree.{Shape, IsTree, IsReady, hang, room}
use rizzos.Paging.Tree.Room.{request_page-Granted, granted_page}
use rizzos.Paging.Walk.{entry, is_present, target, walk, arrive}

-- The processor's reading of an entry is the accessors'.
pub present-get_flag : (v : ℕ) → is_present v ≡ get_flag (record { value = v }) present
unfolding flag_index
present-get_flag v = sym (get_flag-test_bit (record { value = v }) present)

field-get_address : (v : ℕ) → v / 2 ^ 12 % 2 ^ 40 ≡ get_address (record { value = v })
field-get_address v = eq_of_bits _ _ (λ k. ground (
  arith,
  bits-get_address (record { value = v }) k,
  test_bit-mod (v / 2 ^ 12) 40 k,
  test_bit-shr v 12 k,
))

-- What `point_to` leaves in the 64 bits of an entry.
pub point_to-present :
    (e : PageDirEntry) (a : ℕ) → is_present ((point_to e a).value % 2 ^ 64) ≡ true
unfolding point_to flag_index
point_to-present e a =
    let shown = set_flag (set_address e (a / 2 ^ 12)) present true in
    ground (
      arith,
      test_bit-mod (point_to e a).value 64 0,
      get_flag-test_bit (point_to e a) present,
      get_flag-set_flag shown readwrite present true,
      get_flag-set_flag (set_address e (a / 2 ^ 12)) present present true,
    )

pub point_to-target :
    (e : PageDirEntry) (a : ℕ)
    → a < 2 ^ 52
    → target ((point_to e a).value % 2 ^ 64) ≡ a / 4096 * 4096
unfolding point_to
point_to-target e a small =
    let addressed = set_address e (a / 2 ^ 12) in
    let shown = set_flag addressed present true in
    omega (
      arith,
      field-get_address (point_to e a).value,
      (fields_independent shown readwrite true 0).0,
      (fields_independent addressed present true 0).0,
      get_address-set_address e (a / 2 ^ 12),
    )

-- After a step at entry `i` of the table `t`, with `l + 1` levels below it: the entry points to
-- the table that the step returns, one level down in a tree that has every table of the old one;
-- every translation is as before, whatever table was reached still is, the bytes of page 0 are
-- as before and at most one page is used;
-- locked pages stay locked.
pub record Stepped (g : Shape) (s : Pfa) (t i l : ℕ) (out : ℕ × Pfa) (g' : Shape) : Type 0 where
  pub tree : IsTree g' out.1
  pub ready : IsReady out.1
  pub level : g'.level out.0 ≡ suc l
  pub kept : (a : ℕ) → 0 < g.level a → g'.level a ≡ g.level a
  pub entered : is_present (entry out.1.mem t i) ≡ true
  pub leads : target (entry out.1.mem t i) ≡ out.0
  pub walks : (k a v : ℕ) → g.level a ≡ k → walk k out.1.mem a v ≡ walk k s.mem a v
  pub arrives :
      (k a v p : ℕ) → k < g.level a → arrive k s.mem a v ≡ some p → arrive k out.1.mem a v ≡ some p
  pub low_bytes : (x : ℕ) → x < 4096 → out.1.mem x ≡ s.mem x
  pub left : room s ≤ room out.1 + 1
  pub bound : page_bound out.1 ≡ page_bound s
  pub keeps : (j : ℕ) → j < page_bound s → locked s j ≡ true → locked out.1 j ≡ true

abbrev pub old_entry : Pfa → ℕ → ℕ → PageDirEntry
old_entry s t i = record { value = read64 s.mem (slot t i) }

next_present :
    (s : Pfa) (t i field : ℕ)
    → read64 s.mem field ≡ i
    → is_present (entry s.mem t i) ≡ true
    → next_table s t field ≡ some (get_address (old_entry s t i) * 2 ^ 12 % 2 ^ 64, s)
unfolding next_table
next_present s t i field index on =
    let on' : get_flag (old_entry s t i) present ≡ true =
      sym (present-get_flag (entry s.mem t i)) ∙ on in
    rw (index, on') refl

-- The table that is there, as the processor reads its address.
pub next_table-there :
    (s : Pfa) (t i field : ℕ)
    → read64 s.mem field ≡ i
    → is_present (entry s.mem t i) ≡ true
    → next_table s t field ≡ some (target (entry s.mem t i), s)
next_table-there s t i field index on =
    let same : get_address (old_entry s t i) * 2 ^ 12 % 2 ^ 64 ≡ target (entry s.mem t i) =
      omega (arith, field-get_address (entry s.mem t i)) in
    next_present s t i field index on ∙ ap (λ x. some (x, s)) same

next_absent :
    (s : Pfa) (t i field a : ℕ)
    → read64 s.mem field ≡ i
    → read64 (filled 8 (request_page s).1.mem a 0 4096) field ≡ i
    → is_present (entry s.mem t i) ≡ false
    → (request_page s).0 ≡ a
    → a + 4096 + 8 ≤ 2 ^ 64
    → next_table s t field
      ≡ some (a, hung (request_page s).1 a t i (point_to (old_entry s t i) a).value)
unfolding next_table hung
next_absent s t i field a index again off page small =
    let off' : get_flag (old_entry s t i) present ≡ false =
      sym (present-get_flag (entry s.mem t i)) ∙ off in
    rw (index, off', page, (set-filled (request_page s).1.mem a 0 4096 small).0, again) refl

-- A field of page 0 is not touched by the request and the clearing of another page.
field_kept :
    (s : Pfa) (n field : ℕ)
    → IsReady s
    → Granted s 0 (request_page s) n
    → field + 8 ≤ 4096
    → read64 (filled 8 (request_page s).1.mem (n * 4096) 0 4096) field ≡ read64 s.mem field
field_kept s n field ready granted low =
    let page = granted_page s (request_page s) n ready granted in
    read64-agree s.mem _ field (λ x p q.
      filled-outside 8 (request_page s).1.mem (n * 4096) 0 4096 x (omega arith)
      ∙ granted.bytes x (omega (arith, ready.beyond)))

module _ (g : Shape) (s : Pfa) (t i l : ℕ) (tree : IsTree g s) (ready : IsReady s)
    (upper : g.level t ≡ suc (suc l)) (in_table : i < 512) (field : ℕ) (low : field + 8 ≤ 4096)
    (index : read64 s.mem field ≡ i) where
  -- The table is there already.
  step_present :
      is_present (entry s.mem t i) ≡ true
      → Stepped g s t i l (get_address (record { value = entry s.mem t i }) * 2 ^ 12 % 2 ^ 64, s) g
  step_present on =
      let same : target (entry s.mem t i)
          ≡ get_address (record { value = entry s.mem t i }) * 2 ^ 12 % 2 ^ 64 =
        omega (arith, field-get_address (entry s.mem t i)) in
      record {
        tree = tree;
        ready = ready;
        level = rw (← same) (omega (arith, (tree.child t i (omega arith) in_table on).0));
        kept = λ a h. refl;
        entered = on;
        leads = same;
        walks = λ k a v h. refl;
        arrives = λ k a v p h r. r;
        low_bytes = λ x h. refl;
        left = omega arith;
        bound = refl;
        keeps = λ j h on. on;
      }

  -- It is requested, cleared and entered.
  step_absent :
      (out : ℕ × Pfa) (n e : ℕ)
      → Hanging g s out n t i l e
      → Stepped g s t i l (n * 4096, hung out.1 (n * 4096) t i e) (hang g (n * 4096) (suc l) t i)
  unfolding hung
  step_absent out n e hanging =
      let facts = Hanging-Hung g s out n t i l e hanging in
      record {
        tree = IsTree-hung g s out n t i l e hanging facts;
        ready = IsReady-hung g s out n t i l e hanging facts hanging.granted.position;
        level = ground arith;
        kept = λ a h. ground (arith, facts.not_table a h);
        entered = rw facts.entry_slot hanging.shown;
        leads = rw facts.entry_slot hanging.points;
        walks = walk-hung g s out n t i l e hanging facts;
        arrives = arrive-hung g s out n t i l e hanging facts;
        low_bytes = facts.low_bytes;
        left = omega (arith, room-hung g s out n t i l e hanging facts);
        bound = ap (λ (b : Bitmap). b.size * 8 % 2 ^ 64) facts.shape_after;
        keeps = λ j h on. ground (arith, facts.locked_after j h, on);
      }

  step_requested :
      is_present (entry s.mem t i) ≡ false
      → (n : ℕ) → Granted s 0 (request_page s) n
      → (out : ℕ × Pfa) × (g' : Shape) × (next_table s t field ≡ some out)
        × Stepped g s t i l out g'
  step_requested off n granted =
      let e : ℕ = (point_to (old_entry s t i) (n * 4096)).value in
      let small : n * 4096 < 2 ^ 52 = omega (arith, granted.inside, ready.sized) in
      (
        (n * 4096, hung (request_page s).1 (n * 4096) t i e),
        hang g (n * 4096) (suc l) t i,
        next_absent s t i field (n * 4096) index (field_kept s n field ready granted low ∙ index)
            off granted.address (omega arith),
        step_absent (request_page s) n e (record {
          tree = tree;
          ready = ready;
          granted = granted;
          upper = upper;
          in_table = in_table;
          empty = off;
          shown = point_to-present (old_entry s t i) (n * 4096);
          points = omega (arith, point_to-target (old_entry s t i) (n * 4096) small);
        }),
      )

  -- With a page left to request, a step succeeds.
  pub next_table-Stepped :
      1 ≤ room s
      → (out : ℕ × Pfa) × (g' : Shape) × (next_table s t field ≡ some out)
        × Stepped g s t i l out g'
  next_table-Stepped enough = elim (Bool-cases (is_present (entry s.mem t i))) [
    | inl on ↦ (_, g, next_present s t i field index on, step_present on)
    | inr off ↦
        let (n, granted) = request_page-Granted s ready enough in step_requested off n granted
  ]
