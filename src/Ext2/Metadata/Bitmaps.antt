-- ===== src/Ext2/Metadata/Bitmaps.antt =====
-- kernel/ext2/src/lib.rs: what the scan of a bitmap finds.
use Prim.Native.Nat.{bit_and}
use mathlib.Core.Path.{subst}
use muffin.Base.{
  ℕ, zero, suc, ◌+◌, ◌-◌, ◌*◌, ◌/◌, ◌%◌, ◌^◌, ◌≤◌, ◌<◌, ◌≡◌, ◌∙◌, refl, ap, Bool, true, false, not,
  Option, none, some, List, [], ◌∷◌, length, get_or, ◌==◌, arith, Bool-cases, Option-cases, inl,
  inr, ltb,
}
use muffin.Bits.{test_bit, bit_and_pow_test}
use muffin.Ext2.Metadata.Allocation.{first_clear, first_free_bit}

-- Bit `j` of a bitmap, from the lowest bit of its first byte on.
unfoldable pub bit_at : List ℕ → ℕ → Bool
unfolding test_bit
bit_at bitmap j = test_bit (get_or bitmap (j / 8) 0) (j % 8)

-- `i` is the first clear bit.
pub record IsFirstFree (bitmap : List ℕ) (i : ℕ) : Type 0 where
  pub in_range : i < length bitmap * 8
  pub is_clear : bit_at bitmap i ≡ false
  pub all_before : (j : ℕ) → j < i → bit_at bitmap j ≡ true

bit_test : (byte bit : ℕ) → (bit_and byte (2 ^ bit) == 0) ≡ not (test_bit byte bit)
bit_test byte bit = ground (arith, bit_and_pow_test byte bit)

-- What `first_clear` gives for the bits from `bit` on, `n` of them.
Cleared : ℕ → ℕ → ℕ → Option ℕ → Type 0
Cleared n bit byte none = (j : ℕ) → bit ≤ j → j < bit + n → test_bit byte j ≡ true
Cleared n bit byte (some k) =
    (k < bit + n)
    × ((bit ≤ k)
        × ((test_bit byte k ≡ false) × ((j : ℕ) → bit ≤ j → j < k → test_bit byte j ≡ true)))

widen :
    (n bit byte : ℕ) (r : Option ℕ)
    → test_bit byte bit ≡ true
    → Cleared n (bit + 1) byte r
    → Cleared (suc n) bit byte r
unfolding Cleared
widen n bit byte none here h = λ j above below. elim (Bool-cases (ltb bit j)) [
  | inl later ↦ h j (ground arith) (omega arith)
  | inr now ↦ let same : bit ≡ j = ground arith in subst (λ i. test_bit byte i ≡ true) same here
]
widen n bit byte (some k) here (below, (above, (clear, before))) = (
  omega arith,
  (
    omega arith,
    (
      clear,
      λ j low high. elim (Bool-cases (ltb bit j)) [
        | inl later ↦ before j (ground arith) high
        | inr now ↦
            let same : bit ≡ j = ground arith in subst (λ i. test_bit byte i ≡ true) same here
      ],
    ),
  ),
)

first_clear-Cleared : (n bit byte : ℕ) → Cleared n bit byte (first_clear n bit byte)
unfolding Cleared first_clear
first_clear-Cleared zero bit byte = λ j above below. absurd (omega (arith, above, below))
first_clear-Cleared (suc n) bit byte = elim (Bool-cases (test_bit byte bit)) [
  | inl taken ↦
      let test : (bit_and byte (2 ^ bit) == 0) ≡ false = bit_test byte bit ∙ ap not taken in
      rw (first_clear, test)
        (widen n bit byte (first_clear n (bit + 1) byte) taken
          (first_clear-Cleared n (bit + 1) byte))
  | inr clear ↦
      let test : (bit_and byte (2 ^ bit) == 0) ≡ true = bit_test byte bit ∙ ap not clear in
      rw (first_clear, test)
        (omega arith, (omega arith, (clear, λ j low high. absurd (omega (arith, low, high)))))
]

bit_at_head :
    (byte : ℕ) (bytes : List ℕ) (j : ℕ) → j < 8 → bit_at (byte ∷ bytes) j ≡ test_bit byte j
unfolding bit_at
bit_at_head byte bytes j h =
    let low : j / 8 ≡ 0 = omega arith in
    let same : j % 8 ≡ j = omega arith in rw (bit_at, low, same) refl

bit_at_tail :
    (byte : ℕ) (bytes : List ℕ) (j : ℕ) → 8 ≤ j → bit_at (byte ∷ bytes) j ≡ bit_at bytes (j - 8)
unfolding bit_at
bit_at_tail byte bytes j h =
    let next : j / 8 ≡ suc ((j - 8) / 8) = omega arith in
    let same : j % 8 ≡ (j - 8) % 8 = omega arith in rw (bit_at, next, same) refl

-- What `first_free` gives for the bytes from byte `i` on.
unfoldable pub Scanned : ℕ → List ℕ → Option ℕ → Type 0
Scanned i bytes none = (j : ℕ) → j < length bytes * 8 → bit_at bytes j ≡ true
Scanned i bytes (some k) = (own : ℕ) × ((k ≡ i * 8 + own) × IsFirstFree bytes own)

full_byte :
    (i byte : ℕ) (bytes : List ℕ) (r : Option ℕ)
    → Cleared 8 0 byte none
    → Scanned (i + 1) bytes r
    → Scanned i (byte ∷ bytes) r
unfolding Scanned Cleared
full_byte i byte bytes none full h = λ j below. elim (Bool-cases (ltb j 8)) [
  | inl first ↦ bit_at_head byte bytes j (ground arith) ∙ full j (omega arith) (ground arith)
  | inr later ↦ bit_at_tail byte bytes j (ground arith) ∙ h (j - 8) (ground arith)
]
full_byte i byte bytes (some k) full (own, (e, found)) = (
  8 + own,
  (
    omega (arith, e),
    record {
      in_range = omega (arith, found.in_range);
      is_clear =
          bit_at_tail byte bytes (8 + own) (omega arith)
          ∙ ap (bit_at bytes) {x = 8 + own - 8} {y = own} (omega arith)
          ∙ found.is_clear;
      all_before = λ j below. elim (Bool-cases (ltb j 8)) [
        | inl first ↦ bit_at_head byte bytes j (ground arith) ∙ full j (omega arith) (ground arith)
        | inr later ↦
            bit_at_tail byte bytes j (ground arith) ∙ found.all_before (j - 8) (ground arith)
      ];
    },
  ),
)

free_byte :
    (i byte : ℕ) (bytes : List ℕ) (bit : ℕ)
    → Cleared 8 0 byte (some bit)
    → Scanned i (byte ∷ bytes) (some (i * 8 + bit))
unfolding Scanned Cleared
free_byte i byte bytes bit (below, (above, (clear, before))) = (
  bit,
  (
    refl,
    record {
      in_range = omega (arith, below);
      is_clear = bit_at_head byte bytes bit (omega (arith, below)) ∙ clear;
      all_before =
          λ j low. bit_at_head byte bytes j (omega (arith, below)) ∙ before j (omega arith) low;
    },
  ),
)

pub first_free_bit-Scanned : (i : ℕ) (bytes : List ℕ) → Scanned i bytes (first_free_bit i bytes)
unfolding Scanned first_free_bit
first_free_bit-Scanned i [] = λ j below. absurd (omega (arith, below))
first_free_bit-Scanned i (byte ∷ bytes) =
    let rest = first_free_bit-Scanned (i + 1) bytes in
    let found = first_clear-Cleared 8 0 byte in
    elim (Option-cases (first_clear 8 0 byte)) [
      | inl full ↦
          rw (first_free_bit, full)
            (full_byte i byte bytes (first_free_bit (i + 1) bytes) (rw full at found) rest)
      | inr (bit, clear) ↦
          rw (first_free_bit, clear) (free_byte i byte bytes bit (rw clear at found))
    ]
