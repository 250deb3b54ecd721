-- ===== src/Bits.antt =====
-- Bit sets held in machine words: membership of a bit, and how `|`, `&`, `!` and `<<` act on it.
-- Used for `SigSet`, `SaFlags` and the flag words of the system calls.
use Prim.Native.Nat.{bit_and, bit_or, bit_and-bitwise, bit_or-bitwise, digits, min, max}
use native.Mathlib.Nat.{pow-suc}
use muffin.Base.{
  ap, ℕ, zero, suc, ◌+◌, ◌-◌, ◌*◌, ◌/◌, ◌%◌, ◌^◌, ◌≤◌, ◌<◌, ◌≡◌, refl, ◌∙◌, Bool, true, false, not,
  ◌&&◌, ◌||◌, arith, ◌==◌, ◌≢◌, Bool-cases, inl, inr,
}

-- Bit `i` of `a`.
unfoldable pub test_bit : ℕ → ℕ → Bool
test_bit a zero = a % 2 == 1
test_bit a (suc i) = test_bit (a / 2) i

-- `!a` of a `w`-bit word.
abbrev pub complement : ℕ → ℕ → ℕ
complement w a = 2 ^ w - 1 - a

module _ (base : ℕ → ℕ) (op : ℕ → ℕ → ℕ) where
  -- The digit recursion behind a native operation gives the same for any two counts of rounds that
  -- cover its first argument.
  settled : (x y k l : ℕ) → (x ≤ k) × (x ≤ l) → digits base op k x y ≡ digits base op l x y
  settled zero y zero zero h = refl
  settled zero y zero (suc l) h = refl
  settled zero y (suc k) zero h = refl
  settled zero y (suc k) (suc l) h = refl
  settled (suc x) y zero l h = absurd (omega arith)
  settled (suc x) y (suc k) zero h = absurd (omega arith)
  settled (suc x) y (suc k) (suc l) h =
      ap (λ high. high * 2 + op (suc x % 2) (y % 2))
        (settled (suc x / 2) (y / 2) k l (omega arith, omega arith))

  -- Its lowest digit.
  digits-lowest :
      (x y : ℕ)
      → 0 < x
      → digits base op x x y ≡ digits base op (x / 2) (x / 2) (y / 2) * 2 + op (x % 2) (y % 2)
  digits-lowest zero y h = absurd (omega arith)
  digits-lowest (suc x) y h =
      ap (λ high. high * 2 + op (suc x % 2) (y % 2))
        (settled (suc x / 2) (y / 2) x (suc x / 2) (omega arith, omega arith))

bit_and_step : (a b : ℕ) → bit_and a b ≡ min (a % 2) (b % 2) + 2 * bit_and (a / 2) (b / 2)
bit_and_step a b = elim (Bool-cases (a == 0)) [
  | inl none_left ↦
      let e : a ≡ 0 = ground arith in
      rw e (omega (arith, bit_and-bitwise 0 b, bit_and-bitwise 0 (b / 2)))
  | inr some_left ↦
      let positive : 0 < a = ground arith in
      omega (
        arith,
        bit_and-bitwise a b,
        bit_and-bitwise (a / 2) (b / 2),
        digits-lowest (λ _. zero) min a b positive,
      )
]

bit_or_step : (a b : ℕ) → bit_or a b ≡ max (a % 2) (b % 2) + 2 * bit_or (a / 2) (b / 2)
bit_or_step a b = elim (Bool-cases (a == 0)) [
  | inl none_left ↦
      let e : a ≡ 0 = ground arith in
      rw e (omega (arith, bit_or-bitwise 0 b, bit_or-bitwise 0 (b / 2)))
  | inr some_left ↦
      let positive : 0 < a = ground arith in
      omega (
        arith,
        bit_or-bitwise a b,
        bit_or-bitwise (a / 2) (b / 2),
        digits-lowest (λ c. c) max a b positive,
      )
]

bit_and_half : (a b : ℕ) → bit_and a b / 2 ≡ bit_and (a / 2) (b / 2)
bit_and_half a b = omega (arith, bit_and_step a b)

bit_or_half : (a b : ℕ) → bit_or a b / 2 ≡ bit_or (a / 2) (b / 2)
bit_or_half a b = omega (arith, bit_or_step a b)

pub test_bit-and : (a b i : ℕ) → test_bit (bit_and a b) i ≡ (test_bit a i && test_bit b i)
unfolding test_bit
test_bit-and a b zero = ground (arith, bit_and_step a b)
test_bit-and a b (suc i) = rw (bit_and_half a b) (test_bit-and (a / 2) (b / 2) i)

pub test_bit-or : (a b i : ℕ) → test_bit (bit_or a b) i ≡ (test_bit a i || test_bit b i)
unfolding test_bit
test_bit-or a b zero = ground (arith, bit_or_step a b)
test_bit-or a b (suc i) = rw (bit_or_half a b) (test_bit-or (a / 2) (b / 2) i)

pub test_bit-complement :
    (w a i : ℕ) → a < 2 ^ w → i < w → test_bit (complement w a) i ≡ not (test_bit a i)
unfolding test_bit
test_bit-complement zero a i h p = elim p [ ]
test_bit-complement (suc w) a zero h p = ground (arith, pow-suc 2 w)
test_bit-complement (suc w) a (suc i) h p =
    let half : complement (suc w) a / 2 ≡ complement w (a / 2) = omega (arith, pow-suc 2 w) in
    rw half (test_bit-complement w (a / 2) i (omega (arith, pow-suc 2 w)) (omega arith))

pub test_bit-zero : (i : ℕ) → test_bit 0 i ≡ false
unfolding test_bit
test_bit-zero zero = refl
test_bit-zero (suc i) = test_bit-zero i

-- `1 << k` has the bit `k` alone.
pub test_bit-pow : (k i : ℕ) → test_bit (2 ^ k) i ≡ (k == i)
unfolding test_bit
test_bit-pow zero zero = refl
test_bit-pow zero (suc i) = test_bit-zero i ∙ ground arith
test_bit-pow (suc k) zero = ground (arith, pow-suc 2 k)
test_bit-pow (suc k) (suc i) =
    let half : 2 ^ suc k / 2 ≡ 2 ^ k = omega (arith, pow-suc 2 k) in
    rw half (test_bit-pow k i ∙ ground arith)

pub bit_or-lt : (w a b : ℕ) → a < 2 ^ w → b < 2 ^ w → bit_or a b < 2 ^ w
bit_or-lt zero a b h k =
    let e : a ≡ 0 = omega arith in let e' : b ≡ 0 = omega arith in rw (e, e') (omega arith)
bit_or-lt (suc w) a b h k = omega (
  arith,
  pow-suc 2 w,
  bit_or_step a b,
  bit_or-lt w (a / 2) (b / 2) (omega (arith, pow-suc 2 w)) (omega (arith, pow-suc 2 w)),
)

bit_and_under : (bound a b : ℕ) → a < bound → bit_and a b ≤ a
bit_and_under zero a b h = absurd (omega arith)
bit_and_under (suc bound) zero b h = omega (arith, bit_and-bitwise 0 b)
bit_and_under (suc bound) (suc a) b h =
    omega (arith, bit_and_under bound (suc a / 2) (b / 2) (omega arith), bit_and_step (suc a) b)

pub bit_and-le : (a b : ℕ) → bit_and a b ≤ a
bit_and-le a b = bit_and_under (a + 1) a b (omega arith)

-- Words with the same bits are equal.
pub eq_of_test_bit :
    (w a b : ℕ) → a < 2 ^ w → b < 2 ^ w → ((i : ℕ) → i < w → test_bit a i ≡ test_bit b i) → a ≡ b
unfolding test_bit
eq_of_test_bit zero a b h k e = omega arith
eq_of_test_bit (suc w) a b h k e =
    let low : (a % 2 == 1) ≡ (b % 2 == 1) = e 0 (omega arith) in
    let high : a / 2 ≡ b / 2 =
      eq_of_test_bit w (a / 2) (b / 2) (omega (arith, pow-suc 2 w)) (omega (arith, pow-suc 2 w))
        (λ i p. e (suc i) (omega arith)) in
    ground arith

-- `a.trailing_zeros()` of a `w`-bit word.
unfoldable pub trailing_zeros : ℕ → ℕ → ℕ
trailing_zeros zero a = 0
trailing_zeros (suc w) a = elim (a % 2 == 1) [ true ↦ 0 | false ↦ suc (trailing_zeros w (a / 2)) ]

-- What `trailing_zeros` finds in a word that is not 0.
pub record IsLowest (w a i : ℕ) : Type 0 where
  pub in_word : i < w
  pub is_set : test_bit a i ≡ true
  pub first : (j : ℕ) → j < i → test_bit a j ≡ false

pub trailing_zeros-IsLowest : (w a : ℕ) → a < 2 ^ w → a ≢ 0 → IsLowest w a (trailing_zeros w a)
unfolding trailing_zeros test_bit
trailing_zeros-IsLowest zero a h ne = absurd (ne (omega arith))
trailing_zeros-IsLowest (suc w) a h ne = elim (Bool-cases (a % 2 == 1)) [
  | inl odd ↦
      rw (odd, trailing_zeros)
        (record { in_word = omega arith; is_set = odd; first = λ j p. absurd (omega arith) })
  | inr even ↦
      let rest : IsLowest w (a / 2) (trailing_zeros w (a / 2)) =
        trailing_zeros-IsLowest w (a / 2) (omega (arith, pow-suc 2 w)) (ground arith) in
      rw (even, trailing_zeros)
        (record {
          in_word = omega (arith, rest.in_word);
          is_set = rest.is_set;
          first = elim [ zero ↦ λ _. even | suc j ↦ λ p. rest.first j (omega arith) ];
        })
]

none_common : (bound : ℕ) {a : ℕ} → a < bound → bit_and a 0 ≡ 0
none_common zero h = absurd (omega arith)
none_common (suc bound) {a = zero} h = bit_and-bitwise 0 0
none_common (suc bound) {a = suc a} h =
    omega (arith, none_common bound {a = suc a / 2} (omega arith), bit_and_step (suc a) 0)

-- The test `a & (1 << i) != 0`.
pub bit_and_pow_test : (a i : ℕ) → not (bit_and a (2 ^ i) == 0) ≡ test_bit a i
unfolding test_bit
bit_and_pow_test a zero =
    ground (arith, bit_and_step a 1, none_common (a + 1) {a = a / 2} (omega arith))
bit_and_pow_test a (suc i) =
    let half : 2 ^ suc i / 2 ≡ 2 ^ i = omega (arith, pow-suc 2 i) in
    let split : bit_and a (2 ^ suc i)
        ≡ min (a % 2) (2 ^ suc i % 2) + 2 * bit_and (a / 2) (2 ^ suc i / 2) =
      bit_and_step a (2 ^ suc i) in
    let step : bit_and a (2 ^ suc i) ≡ bit_and (a / 2) (2 ^ i) * 2 =
      omega (arith, rw half at split, pow-suc 2 i) in
    rw (← bit_and_pow_test (a / 2) i) (ground (arith, step))

pub test_bit_high : (w a i : ℕ) → a < 2 ^ w → w ≤ i → test_bit a i ≡ false
unfolding test_bit
test_bit_high zero a i h p = let e : a ≡ 0 = omega arith in rw e (test_bit-zero i)
test_bit_high (suc w) a zero h p = absurd (omega arith)
test_bit_high (suc w) a (suc i) h p =
    test_bit_high w (a / 2) i (omega (arith, pow-suc 2 w)) (omega arith)

-- The bit or of a word and of one whose lowest bits are clear.
pub bit_or_shifted : (k a b : ℕ) → a < 2 ^ k → bit_or a (b * 2 ^ k) ≡ a + b * 2 ^ k
bit_or_shifted zero a b h =
    let none_low : a ≡ 0 = omega arith in rw none_low (omega (arith, bit_or-bitwise 0 (b * 1)))
bit_or_shifted (suc k) a b h =
    let double : b * 2 ^ suc k ≡ b * 2 ^ k * 2 = ap (λ p. b * p) (pow-suc 2 k) ∙ omega arith in
    let half : b * 2 ^ suc k / 2 ≡ b * 2 ^ k = omega (arith, double) in
    let rest : bit_or (a / 2) (b * 2 ^ suc k / 2) ≡ a / 2 + b * 2 ^ k =
      ap (bit_or (a / 2)) half ∙ bit_or_shifted k (a / 2) b (omega (arith, pow-suc 2 k, h)) in
    omega (arith, double, rest, bit_or_step a (b * 2 ^ suc k))

-- The bits of a word below `2 ^ k` are all under the mask of `k` bits.
pub bit_and_mask : (k a : ℕ) → a < 2 ^ k → bit_and a (2 ^ k - 1) ≡ a
bit_and_mask zero a h =
    let none_set : a ≡ 0 = omega arith in rw none_set (omega (arith, bit_and-bitwise 0 (1 - 1)))
bit_and_mask (suc k) a h =
    let half : (2 ^ suc k - 1) / 2 ≡ 2 ^ k - 1 = omega (arith, pow-suc 2 k, h) in
    let rest : bit_and (a / 2) ((2 ^ suc k - 1) / 2) ≡ a / 2 =
      ap (bit_and (a / 2)) half ∙ bit_and_mask k (a / 2) (omega (arith, pow-suc 2 k, h)) in
    omega (arith, rest, pow-suc 2 k, h, bit_and_step a (2 ^ suc k - 1))
