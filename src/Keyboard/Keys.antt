-- ===== src/Keyboard/Keys.antt =====
-- The characters of rizzos/src/userinput/kb_scancode_translation.c.
use rizzos.Base.{
  ℕ, zero, suc, ◌<◌, ◌≡◌, refl, Bool, true, false, not, ◌||◌, List, [], ◌∷◌, length, ◌==◌, arith,
  get_or, ◌⊎◌,
}
use rizzos.Base.Bits.{all_below, test-all_below}
use rizzos.Keyboard.{qwerty_ascii_table, qwerty_translate}

-- No two scan codes have the same character.
no_double : ℕ → Bool
no_double a = all_below 58 (λ b.
    a == b
    || get_or qwerty_ascii_table a 0 == 0
    || not (get_or qwerty_ascii_table a 0 == get_or qwerty_ascii_table b 0))

table_checked : all_below 58 no_double ≡ true
unfolding all_below no_double qwerty_ascii_table
table_checked = refl

get_or-inside : (xs : List ℕ) (i d d' : ℕ) → i < length xs → get_or xs i d ≡ get_or xs i d'
get_or-inside [] i d d' h = absurd (omega arith)
get_or-inside (x ∷ xs) zero d d' h = refl
get_or-inside (x ∷ xs) (suc i) d d' h = get_or-inside xs i d d' (omega arith)

table_long : length qwerty_ascii_table ≡ 58
unfolding qwerty_ascii_table
table_long = refl

-- Below 58 the byte behind the table does not matter.
inside : (beyond c : ℕ) → c < 58 → qwerty_translate beyond c false ≡ get_or qwerty_ascii_table c 0
unfolding qwerty_translate
inside beyond c h =
    let listed = get_or-inside qwerty_ascii_table c beyond 0 (omega (arith, table_long)) in
    ground (arith, listed)

-- Without shift, two scan codes below 58 that give the same character are the same scan code, or
-- give none.
pub qwerty_translate-inj :
    (beyond a b : ℕ)
    → a < 58
    → b < 58
    → qwerty_translate beyond a false ≡ qwerty_translate beyond b false
    → (a ≡ b) ⊎ (qwerty_translate beyond a false ≡ 0)
unfolding no_double
qwerty_translate-inj beyond a b small small' same =
    let row = test-all_below no_double 58 a small table_checked in
    let cell = test-all_below _ 58 b small' row in
    let here = inside beyond a small in
    let there = inside beyond b small' in ground (arith, cell, here, there)
