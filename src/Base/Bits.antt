-- ===== src/Base/Bits.antt =====
-- The bits of a number, and the laws that turn masks and shifts into statements about bits.
use Prim.Native.Nat.{
  ℕ, zero, suc, ◌+◌, ◌-◌, ◌*◌, ◌/◌, ◌%◌, ◌^◌, ◌≤◌, ◌<◌, min, max, bit_and, bit_or, digits,
  bit_and-bitwise, bit_or-bitwise,
}
use mathlib.Core.Path.{◌≡◌, refl, sym, ap, ◌∙◌}
use mathlib.Core.Bool.{Bool, true, false, ◌&&◌, ◌||◌, not}
use mathlib.Core.Logic.{inl, inr}
use native.Mathlib.Omega.{arith}
use native.Mathlib.Nat.{
  pow-suc, pow-succ', mod-eq-sub-div-mul, div-div-eq-div-mul, div-mul-le_self, mod-eq_of_lt, mod-lt,
  one-le-pow, pow-le-pow_right,
}
use rizzos.Base.Tests.{ltb, leb, ◌==◌, ltb→lt, if◌then◌else◌, Bool-cases}

-- Bit `k` of `n`, from the least significant on.
unfoldable pub test_bit : ℕ → ℕ → Bool
test_bit n zero = n % 2 == 1
test_bit n (suc k) = test_bit (n / 2) k

-- `digits` runs on fuel. Any fuel from the first number on gives the same value, so a digit-wise
-- operation splits off its lowest digit; `base` says so of what is left when that number is 0.
module _ (left : ℕ → ℕ) (pick : ℕ → ℕ → ℕ)
    (base : (b : ℕ) → left b ≡ left (b / 2) * 2 + pick 0 (b % 2)) where
  one_more_round :
      (fuel a b : ℕ) → a ≤ fuel → digits left pick (suc fuel) a b ≡ digits left pick fuel a b
  one_more_round (suc fuel) (suc a) b h =
      ap (λ r. r * 2 + pick (suc a % 2) (b % 2))
        (one_more_round fuel (suc a / 2) (b / 2) (omega arith))
  one_more_round zero (suc a) b h = elim h [ ]
  one_more_round zero zero b h = refl
  one_more_round (suc fuel) zero b h = refl

  spare_rounds :
      (spare fuel long a b : ℕ)
      → fuel + spare ≡ long
      → a ≤ fuel
      → digits left pick long a b ≡ digits left pick fuel a b
  spare_rounds zero fuel long a b e h =
      let same : long ≡ fuel = omega arith in ap (λ k. digits left pick k a b) same
  spare_rounds (suc spare) fuel zero a b e h = absurd (omega arith)
  spare_rounds (suc spare) fuel (suc long) a b e h =
      one_more_round long a b (omega arith) ∙ spare_rounds spare fuel long a b (omega arith) h

  lowest_digit :
      (a b : ℕ)
      → digits left pick a a b ≡ digits left pick (a / 2) (a / 2) (b / 2) * 2 + pick (a % 2) (b % 2)
  lowest_digit zero b = base b
  lowest_digit (suc a) b =
      let half : ℕ = suc a / 2 in
      ap (λ r. r * 2 + pick (suc a % 2) (b % 2))
        (spare_rounds (a - half) half a half (b / 2) (omega arith) (omega arith))

bit_and_step : (a b : ℕ) → bit_and a b ≡ bit_and (a / 2) (b / 2) * 2 + min (a % 2) (b % 2)
bit_and_step a b =
    rw (bit_and-bitwise a b, bit_and-bitwise (a / 2) (b / 2))
      (lowest_digit (λ c. zero) min (λ c. omega arith) a b)

bit_or_step : (a b : ℕ) → bit_or a b ≡ bit_or (a / 2) (b / 2) * 2 + max (a % 2) (b % 2)
bit_or_step a b =
    rw (bit_or-bitwise a b, bit_or-bitwise (a / 2) (b / 2))
      (lowest_digit (λ c. c) max (λ c. omega arith) a b)

pub test_bit-bit_and : (a b k : ℕ) → test_bit (bit_and a b) k ≡ (test_bit a k && test_bit b k)
unfolding test_bit
test_bit-bit_and a b zero = ground (arith, bit_and_step a b)
test_bit-bit_and a b (suc k) =
    let e : bit_and a b / 2 ≡ bit_and (a / 2) (b / 2) = omega (arith, bit_and_step a b) in
    rw e (test_bit-bit_and (a / 2) (b / 2) k)

pub test_bit-bit_or : (a b k : ℕ) → test_bit (bit_or a b) k ≡ (test_bit a k || test_bit b k)
unfolding test_bit
test_bit-bit_or a b zero = ground (arith, bit_or_step a b)
test_bit-bit_or a b (suc k) =
    let e : bit_or a b / 2 ≡ bit_or (a / 2) (b / 2) = omega (arith, bit_or_step a b) in
    rw e (test_bit-bit_or (a / 2) (b / 2) k)

pub test_bit_zero : (k : ℕ) → test_bit 0 k ≡ false
unfolding test_bit
test_bit_zero zero = refl
test_bit_zero (suc k) = test_bit_zero k

-- x >> s
pub test_bit-shr : (n s k : ℕ) → test_bit (n / 2 ^ s) k ≡ test_bit n (s + k)
unfolding test_bit
test_bit-shr n zero k =
    let e : 0 + k ≡ k = omega arith in let e' : n / 1 ≡ n = omega arith in rw (e, e')
test_bit-shr n (suc s) k =
    let e : suc s + k ≡ suc (s + k) = omega arith in
    let e' : n / 2 ^ suc s ≡ n / 2 / 2 ^ s = rw (pow-succ', div-div-eq-div-mul) in
    rw (e, e') (test_bit-shr (n / 2) s k)

half_shl : (n s : ℕ) → n * 2 ^ suc s / 2 ≡ n * 2 ^ s
half_shl n s = rw pow-suc (omega arith)

even_shl : (n s : ℕ) → n * 2 ^ suc s % 2 ≡ 0
even_shl n s = rw pow-suc (omega arith)

-- x << s, with no bound on the width
pub test_bit-shl : (n s k : ℕ) → test_bit (n * 2 ^ s) k ≡ (leb s k && test_bit n (k - s))
unfolding test_bit
test_bit-shl n zero k =
    let e : k - 0 ≡ k = omega arith in let e' : n * 1 ≡ n = omega arith in rw (e, e') (ground arith)
test_bit-shl n (suc s) zero = rw (even_shl n s) (ground arith)
test_bit-shl n (suc s) (suc k) =
    let e : suc k - suc s ≡ k - s = omega arith in
    rw (half_shl n s, e) (ground (arith, test_bit-shl n s k))

half_mod : (n s : ℕ) → n % 2 ^ suc s / 2 ≡ n / 2 % 2 ^ s
half_mod n s =
    rw (pow-succ', mod-eq-sub-div-mul n (2 * 2 ^ s), mod-eq-sub-div-mul (n / 2) (2 ^ s))
      (rw (← div-div-eq-div-mul n 2 (2 ^ s)) (omega arith))

parity_mod : (n s : ℕ) → n % 2 ^ suc s % 2 ≡ n % 2
parity_mod n s =
    rw (pow-succ', mod-eq-sub-div-mul n (2 * 2 ^ s)) (omega (arith, div-mul-le_self n (2 * 2 ^ s)))

-- x & (2 ^ s - 1), the low bits
pub test_bit-mod : (n s k : ℕ) → test_bit (n % 2 ^ s) k ≡ (ltb k s && test_bit n k)
unfolding test_bit
test_bit-mod n zero k = let e : n % 1 ≡ 0 = omega arith in rw (e, test_bit_zero k) (ground arith)
test_bit-mod n (suc s) zero = rw (parity_mod n s) (ground arith)
test_bit-mod n (suc s) (suc k) = rw (half_mod n s) (ground (arith, test_bit-mod (n / 2) s k))

-- 1 << s
pub test_bit-pow : (s k : ℕ) → test_bit (2 ^ s) k ≡ (s == k)
unfolding test_bit
test_bit-pow zero zero = refl
test_bit-pow zero (suc k) = rw (test_bit_zero k) (ground arith)
test_bit-pow (suc s) zero =
    let e : 2 ^ suc s % 2 ≡ 0 = rw pow-suc (omega arith) in rw e (ground arith)
test_bit-pow (suc s) (suc k) =
    let e : 2 ^ suc s / 2 ≡ 2 ^ s = rw pow-suc (omega arith) in
    rw e (ground (arith, test_bit-pow s k))

-- A number below `2 ^ w` has no bit from `w` on.
pub test_bit_high : (n w k : ℕ) → n < 2 ^ w → w ≤ k → test_bit n k ≡ false
test_bit_high n w k small high =
    let e : n % 2 ^ w ≡ n = mod-eq_of_lt small in ground (arith, test_bit-mod n w k, e)

-- `~x` of a `w`-bit word
unfoldable pub complement : ℕ → ℕ → ℕ
complement w x = 2 ^ w - 1 - x

pub test_bit-complement :
    (w x k : ℕ) → x < 2 ^ w → test_bit (complement w x) k ≡ (ltb k w && not (test_bit x k))
unfolding complement test_bit
test_bit-complement zero x k h =
    let e : 1 - 1 - x ≡ 0 = omega arith in rw (e, test_bit_zero k) (ground arith)
test_bit-complement (suc w) x zero h = let e : 2 ^ suc w ≡ 2 ^ w * 2 = pow-suc 2 w in ground arith
test_bit-complement (suc w) x (suc k) h =
    let e : 2 ^ suc w ≡ 2 ^ w * 2 = pow-suc 2 w in
    let e' : (2 ^ suc w - 1 - x) / 2 ≡ 2 ^ w - 1 - x / 2 = omega arith in
    rw e' (ground (arith, test_bit-complement w (x / 2) k (omega arith)))

-- Numbers with the same bits are the same.
same_bits : (f a b : ℕ) → a ≤ f → b ≤ f → ((k : ℕ) → test_bit a k ≡ test_bit b k) → a ≡ b
unfolding test_bit
same_bits zero a b p q h = omega arith
same_bits (suc f) a b p q h =
    let e : a / 2 ≡ b / 2 =
      same_bits f (a / 2) (b / 2) (omega arith) (omega arith) (λ k. h (suc k)) in
    let e' : (a % 2 == 1) ≡ (b % 2 == 1) = h 0 in ground arith

pub eq_of_bits : (a b : ℕ) → ((k : ℕ) → test_bit a k ≡ test_bit b k) → a ≡ b
eq_of_bits a b h = same_bits (a + b) a b (omega arith) (omega arith) h

pub zero_of_bits : (a : ℕ) → ((k : ℕ) → test_bit a k ≡ false) → a ≡ 0
zero_of_bits a h = eq_of_bits a 0 (λ k. h k ∙ sym (test_bit_zero k))

positive_of_bit : (n k : ℕ) → test_bit n k ≡ true → 0 < n
positive_of_bit zero k h = cc (test_bit_zero k)
positive_of_bit (suc n) k h = omega arith

-- The test `(x & (1 << k)) > 0` reads bit `k`.
pub bit_and-pow : (a k : ℕ) → ltb 0 (bit_and a (2 ^ k)) ≡ test_bit a k
bit_and-pow a k = elim (Bool-cases (test_bit a k)) [
  | inl on ↦
      let has : test_bit (bit_and a (2 ^ k)) k ≡ true =
        ground (arith, test_bit-bit_and a (2 ^ k) k, test_bit-pow k k) in
      ground (arith, positive_of_bit (bit_and a (2 ^ k)) k)
  | inr off ↦
      let e : bit_and a (2 ^ k) ≡ 0 =
        zero_of_bits _ (λ j. ground (arith, test_bit-bit_and a (2 ^ k) j, test_bit-pow k j)) in
      ground (arith, e)
]

-- A number with no bit from `w` on is below `2 ^ w`.
pub lt_of_bits : (n w : ℕ) → ((k : ℕ) → w ≤ k → test_bit n k ≡ false) → n < 2 ^ w
lt_of_bits n w h =
    let e : n % 2 ^ w ≡ n = eq_of_bits _ n (λ k. ground (arith, test_bit-mod n w k, h k)) in
    let pos : 0 < 2 ^ w = one-le-pow w 2 (omega arith) in
    let small : n % 2 ^ w < 2 ^ w = mod-lt n pos in omega arith

pub bit_and-lt : (a b w : ℕ) → a < 2 ^ w → bit_and a b < 2 ^ w
bit_and-lt a b w h =
    lt_of_bits _ w (λ k high. ground (arith, test_bit-bit_and a b k, test_bit_high a w k h high))

pub bit_or-lt : (a b w : ℕ) → a < 2 ^ w → b < 2 ^ w → bit_or a b < 2 ^ w
bit_or-lt a b w h g = lt_of_bits _ w (λ k high.
    ground (arith, test_bit-bit_or a b k, test_bit_high a w k h high, test_bit_high b w k g high))

-- Whether a test holds of every number below `bound`, by running it.
unfoldable pub all_below : (bound : ℕ) → (ℕ → Bool) → Bool
all_below zero test = true
all_below (suc bound) test = all_below bound test && test bound

pub test-all_below :
    (test : ℕ → Bool) (bound k : ℕ) → k < bound → all_below bound test ≡ true → test k ≡ true
unfolding all_below
test-all_below test zero k h passed = elim h [ ]
test-all_below test (suc bound) k h passed = ground (arith, test-all_below test bound k)

abbrev pub agree : Bool → Bool → Bool
agree true b = b
agree false b = not b

agree_sound : (a b : Bool) → agree a b ≡ true → a ≡ b
agree_sound a b h = ground arith

-- The bits of a constant mask are read off a table of its `w` bits.
pub mask_bits :
    (m w : ℕ) (p : ℕ → Bool)
    → m < 2 ^ w
    → all_below w (λ k. agree (test_bit m k) (p k)) ≡ true
    → (k : ℕ) → test_bit m k ≡ (ltb k w && p k)
mask_bits m w p small table k = elim (Bool-cases (ltb k w)) [
  | inl low ↦ rw low (
      agree_sound _ _ (test-all_below (λ j. agree (test_bit m j) (p j)) w k (ltb→lt k w low) table))
  | inr high ↦ rw high (test_bit_high m w k small (ground arith))
]

pub pow_mono : (k w : ℕ) → k < w → 2 ^ k < 2 ^ w
pow_mono k w h = omega (
  arith,
  pow-suc 2 k,
  pow-le-pow_right {n = 2} (omega arith) {i = suc k} {j = w} h,
  one-le-pow k 2 (omega arith),
)

-- `x &= ~(1 << k); if (v) x |= 1 << k;` on a `w`-bit word makes bit `k` equal to `v`, and keeps
-- the others.
pub test_bit-assign :
    (w x k j : ℕ) (v : Bool)
    → k < w
    → j < w
    → test_bit
        (if v
          then bit_or (bit_and x (complement w (2 ^ k))) (2 ^ k)
          else bit_and x (complement w (2 ^ k)))
        j
      ≡ (if k == j then v else test_bit x j)
test_bit-assign w x k j v hk hj =
    let small : 2 ^ k < 2 ^ w = pow_mono k w hk in
    ground (
      arith,
      test_bit-bit_or (bit_and x (complement w (2 ^ k))) (2 ^ k) j,
      test_bit-bit_and x (complement w (2 ^ k)) j,
      test_bit-complement w (2 ^ k) j small,
      test_bit-pow k j,
    )
