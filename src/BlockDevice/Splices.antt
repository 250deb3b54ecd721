-- ===== src/BlockDevice/Splices.antt =====
-- The bytes of a device with some of them replaced, and how such replacements compose.
use muffin.Base.{
  ℕ, zero, suc, ◌+◌, ◌≤◌, ◌≡◌, refl, sym, ap, List, [], ◌∷◌, ◌++◌, length, take, drop, arith,
}
use muffin.BlockDevice.Writes.{splice}

pub splice-nil : (o : ℕ) (ys : List ℕ) → splice o [] ys ≡ ys
unfolding splice
splice-nil o [] = refl
splice-nil zero (y ∷ ys) = refl
splice-nil (suc o) (y ∷ ys) = ap (λ l. y ∷ l) (splice-nil o ys)

pub length-splice : (o : ℕ) (bs ys : List ℕ) → length (splice o bs ys) ≡ length ys
unfolding splice
length-splice o bs [] = refl
length-splice zero [] (y ∷ ys) = refl
length-splice zero (b ∷ bs) (y ∷ ys) = ap suc (length-splice zero bs ys)
length-splice (suc o) bs (y ∷ ys) = ap suc (length-splice o bs ys)

-- Two replacements next to each other are one.
pub splice-splice :
    (a c : ℕ) (xs ys zs : List ℕ)
    → c ≡ a + length xs
    → splice c ys (splice a xs zs) ≡ splice a (xs ++ ys) zs
unfolding splice
splice-splice a c xs ys [] e = refl
splice-splice zero c [] ys (z ∷ zs) e = let start : c ≡ 0 = omega (arith, e) in rw start refl
splice-splice zero zero (x ∷ xs) ys (z ∷ zs) e = absurd (omega (arith, e))
splice-splice zero (suc c) (x ∷ xs) ys (z ∷ zs) e =
    ap (λ l. x ∷ l) (splice-splice zero c xs ys zs (omega (arith, e)))
splice-splice (suc a) zero xs ys (z ∷ zs) e = absurd (omega (arith, e))
splice-splice (suc a) (suc c) xs ys (z ∷ zs) e =
    ap (λ l. z ∷ l) (splice-splice a c xs ys zs (omega (arith, e)))

splice-copy : (n : ℕ) (ys : List ℕ) → splice 0 (take n ys) ys ≡ ys
unfolding splice
splice-copy n [] = refl
splice-copy zero (y ∷ ys) = refl
splice-copy (suc n) (y ∷ ys) = ap (λ l. y ∷ l) (splice-copy n ys)

-- A replacement in a copy of a part, written back, is a replacement in the whole.
pub splice-part :
    (a s c n : ℕ) (bs ys : List ℕ)
    → c ≡ a + s
    → s + length bs ≤ n
    → splice a (splice s bs (take n (drop a ys))) ys ≡ splice c bs ys
unfolding splice
splice-part a s c n bs [] e h = refl
splice-part zero s c zero [] (y ∷ ys) e h = sym (splice-nil c (y ∷ ys))
splice-part zero s c zero (b ∷ bs) (y ∷ ys) e h = absurd (omega (arith, h))
splice-part zero zero zero (suc n) [] (y ∷ ys) e h = ap (λ l. y ∷ l) (splice-copy n ys)
splice-part zero zero zero (suc n) (b ∷ bs) (y ∷ ys) e h =
    ap (λ l. b ∷ l) (splice-part zero zero zero n bs ys refl (omega (arith, h)))
splice-part zero zero (suc c) (suc n) bs (y ∷ ys) e h = absurd (omega (arith, e))
splice-part zero (suc s) zero (suc n) bs (y ∷ ys) e h = absurd (omega (arith, e))
splice-part zero (suc s) (suc c) (suc n) bs (y ∷ ys) e h =
    ap (λ l. y ∷ l) (splice-part zero s c n bs ys (omega (arith, e)) (omega (arith, h)))
splice-part (suc a) s zero n bs (y ∷ ys) e h = absurd (omega (arith, e))
splice-part (suc a) s (suc c) n bs (y ∷ ys) e h =
    ap (λ l. y ∷ l) (splice-part a s c n bs ys (omega (arith, e)) h)

-- What was put in is what is read there.
pub take-drop-splice :
    (o : ℕ) (bs ys : List ℕ)
    → o + length bs ≤ length ys
    → take (length bs) (drop o (splice o bs ys)) ≡ bs
unfolding splice
take-drop-splice o [] ys h = refl
take-drop-splice zero (b ∷ bs) [] h = absurd (omega (arith, h))
take-drop-splice zero (b ∷ bs) (y ∷ ys) h =
    ap (λ l. b ∷ l) (take-drop-splice zero bs ys (omega (arith, h)))
take-drop-splice (suc o) (b ∷ bs) [] h = absurd (omega (arith, h))
take-drop-splice (suc o) (b ∷ bs) (y ∷ ys) h = take-drop-splice o (b ∷ bs) ys (omega (arith, h))

pub take-drop : (n : ℕ) (xs : List ℕ) → take n xs ++ drop n xs ≡ xs
take-drop zero xs = refl
take-drop (suc n) [] = refl
take-drop (suc n) (x ∷ xs) = ap (λ l. x ∷ l) (take-drop n xs)
