-- ===== src/PhysicalMemory/Marks.antt =====
-- kernel/physical_memory/src/lib.rs: how the writes to a region's frames change the state at each place.
use muffin.Base.{
  ℕ, zero, suc, ◌+◌, ◌≤◌, ◌<◌, ◌≡◌, refl, ap, ◌&&◌, none, some, List, [], ◌∷◌, length, get_elem?,
  set, drop, ltb, leb, ◌==◌, if◌then◌else◌, arith,
}
use muffin.PhysicalMemory.Region.{FrameState, allocated, MemoryRegion}
use muffin.PhysicalMemory.Manager.{fill}
use muffin.PhysicalMemory.Spots.{state_at}

pub state_at-some :
    (rs : List MemoryRegion) (r i : ℕ) {x : MemoryRegion}
    → get_elem? rs r ≡ some x
    → state_at rs r i ≡ get_elem? x.frames i
state_at-some [] r i e = cc
state_at-some (y ∷ ys) zero i e = ground (arith, e)
state_at-some (y ∷ ys) (suc r) i e = state_at-some ys r i e

pub state_at-none :
    (rs : List MemoryRegion) (r i : ℕ) → get_elem? rs r ≡ none → state_at rs r i ≡ none
state_at-none [] r i e = refl
state_at-none (y ∷ ys) zero i e = cc
state_at-none (y ∷ ys) (suc r) i e = state_at-none ys r i e

pub state_at-drop :
    (n : ℕ) (rs : List MemoryRegion) (d i : ℕ) → state_at (drop n rs) d i ≡ state_at rs (n + d) i
state_at-drop zero rs d i = let e : 0 + d ≡ d = omega arith in rw e
state_at-drop (suc n) [] d i = refl
state_at-drop (suc n) (x ∷ xs) d i =
    let e : suc n + d ≡ suc (n + d) = omega arith in rw e (state_at-drop n xs d i)

pub get_elem?-drop {ℓ} :
    {A : Type ℓ} (n : ℕ) (xs : List A) (j : ℕ) → get_elem? (drop n xs) j ≡ get_elem? xs (n + j)
get_elem?-drop zero xs j = let e : 0 + j ≡ j = omega arith in rw e
get_elem?-drop (suc n) [] j = refl
get_elem?-drop (suc n) (x ∷ xs) j =
    let e : suc n + j ≡ suc (n + j) = omega arith in rw e (get_elem?-drop n xs j)

pub get_elem?-ge {ℓ} : {A : Type ℓ} (xs : List A) (j : ℕ) → length xs ≤ j → get_elem? xs j ≡ none
get_elem?-ge [] j h = refl
get_elem?-ge (x ∷ xs) zero h = absurd (omega arith)
get_elem?-ge (x ∷ xs) (suc j) h = get_elem?-ge xs j (omega arith)

pub get_elem?-lt {ℓ} :
    {A : Type ℓ} (xs : List A) (j : ℕ) → j < length xs → (a : A) × (get_elem? xs j ≡ some a)
get_elem?-lt [] j h = elim h [ ]
get_elem?-lt (x ∷ xs) zero h = (x, refl)
get_elem?-lt (x ∷ xs) (suc j) h = get_elem?-lt xs j (omega arith)

pub get_elem?-some-lt {ℓ} :
    {A : Type ℓ} (xs : List A) (j : ℕ) {a : A} → get_elem? xs j ≡ some a → j < length xs
get_elem?-some-lt [] j e = cc
get_elem?-some-lt (x ∷ xs) zero e = omega arith
get_elem?-some-lt (x ∷ xs) (suc j) e = omega (arith, get_elem?-some-lt xs j e)

-- `fill` writes the frames of its range, and no others.
pub get_elem?-fill :
    (xs : List FrameState) (start count j : ℕ)
    → start + count ≤ length xs
    → get_elem? (fill xs start count) j
      ≡ (if leb start j && ltb j (start + count) then some allocated else get_elem? xs j)
unfolding fill
get_elem?-fill [] start count j h = ground arith
get_elem?-fill (x ∷ xs) zero zero j h = ground arith
get_elem?-fill (x ∷ xs) zero (suc count) zero h = ground arith
get_elem?-fill (x ∷ xs) zero (suc count) (suc j) h =
    ground (arith, get_elem?-fill xs zero count j (omega arith))
get_elem?-fill (x ∷ xs) (suc start) count zero h = ground arith
get_elem?-fill (x ∷ xs) (suc start) count (suc j) h =
    ground (arith, get_elem?-fill xs start count j (omega arith))

pub length-fill :
    (xs : List FrameState) (start count : ℕ) → length (fill xs start count) ≡ length xs
unfolding fill
length-fill [] start count = refl
length-fill (x ∷ xs) zero zero = refl
length-fill (x ∷ xs) zero (suc count) = ap suc (length-fill xs zero count)
length-fill (x ∷ xs) (suc start) count = ap suc (length-fill xs start count)

pub get_elem?-set {ℓ} :
    {A : Type ℓ} (xs : List A) (i j : ℕ) (v : A)
    → i < length xs
    → get_elem? (set xs i v) j ≡ (if i == j then some v else get_elem? xs j)
get_elem?-set [] i j v h = elim h [ ]
get_elem?-set (x ∷ xs) zero zero v h = ground arith
get_elem?-set (x ∷ xs) zero (suc j) v h = ground arith
get_elem?-set (x ∷ xs) (suc i) zero v h = ground arith
get_elem?-set (x ∷ xs) (suc i) (suc j) v h = ground (arith, get_elem?-set xs i j v (omega arith))

-- A region that is replaced changes the states of that region alone.
pub state_at-set :
    (rs : List MemoryRegion) (r e j : ℕ) (y : MemoryRegion) {x : MemoryRegion}
    → get_elem? rs r ≡ some x
    → state_at (set rs r y) e j ≡ (if r == e then get_elem? y.frames j else state_at rs e j)
state_at-set [] r e j y h = cc
state_at-set (z ∷ zs) zero zero j y h = ground arith
state_at-set (z ∷ zs) zero (suc e) j y h = ground arith
state_at-set (z ∷ zs) (suc r) zero j y h = ground arith
state_at-set (z ∷ zs) (suc r) (suc e) j y h = ground (arith, state_at-set zs r e j y h)
