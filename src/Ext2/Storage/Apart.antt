-- ===== src/Ext2/Storage/Apart.antt =====
-- Blocks of a device that are apart: a write of one leaves the other.
use muffin.Base.{
  ℕ, zero, suc, ◌+◌, ◌*◌, ◌≤◌, ◌≡◌, ◌≢◌, ◌⊎◌, refl, List, [], ◌∷◌, length, take, drop, ltb, arith,
  Bool-cases, inl, inr,
}
use muffin.BlockDevice.Reading.{times-le}
use muffin.BlockDevice.Writes.{splice}
use muffin.Ext2.Records.Fields.{take-drop-splice_before}

-- A replacement does not reach what lies after it.
pub take-drop-splice_after :
    (o p n : ℕ) (bs ys : List ℕ)
    → o + length bs ≤ p
    → take n (drop p (splice o bs ys)) ≡ take n (drop p ys)
unfolding splice
take-drop-splice_after o p n bs [] h = refl
take-drop-splice_after zero p n [] (y ∷ ys) h = refl
take-drop-splice_after zero zero n (b ∷ bs) (y ∷ ys) h = absurd (omega (arith, h))
take-drop-splice_after zero (suc p) n (b ∷ bs) (y ∷ ys) h =
    take-drop-splice_after zero p n bs ys (omega (arith, h))
take-drop-splice_after (suc o) zero n bs (y ∷ ys) h = absurd (omega (arith, h))
take-drop-splice_after (suc o) (suc p) n bs (y ∷ ys) h =
    take-drop-splice_after o p n bs ys (omega (arith, h))

-- Two blocks of the same size are apart.
blocks_apart : (a b size : ℕ) → a ≢ b → (a * size + size ≤ b * size) ⊎ (b * size + size ≤ a * size)
blocks_apart a b size ne = elim (Bool-cases (ltb a b)) [
  | inl below ↦ inl (omega (arith, times-le (a + 1) b size (ground arith)))
  | inr above ↦ inr (omega (arith, times-le (b + 1) a size (ground arith)))
]

pub other_block :
    (a b size : ℕ) (bs ys : List ℕ)
    → a ≢ b
    → length bs ≤ size
    → take size (drop (b * size) (splice (a * size) bs ys)) ≡ take size (drop (b * size) ys)
other_block a b size bs ys ne small = elim (blocks_apart a b size ne) [
  | inl after ↦ take-drop-splice_after (a * size) (b * size) size bs ys (omega arith)
  | inr before ↦ take-drop-splice_before (a * size) (b * size) size bs ys before
]
