-- ===== src/DevFs/Handles.antt =====
-- kernel/devfs/src/fs.rs: the handles of open device files.
use muffin.Base.{
  ℕ, ◌+◌, ◌<◌, ◌≡◌, ◌≢◌, refl, false, none, List, [], ◌∷◌, ◌==◌, arith, Bool-cases, inl, inr,
}
use mathlib.Core.Path.{subst}
use muffin.DevFs.Files.{find_file, store_file, remove_file}

module _ {S : Type 0} where
  -- No open file has this handle.
  unfoldable pub IsUnused : ℕ → List (ℕ × S) → Type 0
  IsUnused h [] = Unit
  IsUnused h ((k, s) ∷ l) = (k ≢ h) × IsUnused h l

  -- Handles are all different.
  unfoldable pub AreHandles : List (ℕ × S) → Type 0
  unfolding IsUnused
  AreHandles [] = Unit
  AreHandles ((k, s) ∷ l) = IsUnused k l × AreHandles l

  -- Each handle is below `n`.
  unfoldable pub AreBelow : ℕ → List (ℕ × S) → Type 0
  AreBelow n [] = Unit
  AreBelow n ((k, s) ∷ l) = (k < n) × AreBelow n l

  pub find-unused : (h : ℕ) (l : List (ℕ × S)) → IsUnused h l → find_file h l ≡ none
  unfolding IsUnused find_file
  find-unused h [] u = refl
  find-unused h ((k, s) ∷ l) (other, u) = ground (arith, other, find-unused h l u)

  pub remove-find : (h : ℕ) (l : List (ℕ × S)) → AreHandles l → find_file h (remove_file h l) ≡ none
  unfolding AreHandles find_file remove_file
  remove-find h [] v = refl
  remove-find h ((k, s) ∷ l) (u, v) = elim (Bool-cases (k == h)) [
    | inl here ↦
        let same : k ≡ h = ground (arith, here) in
        rw here (find-unused h l (subst (λ i. IsUnused i l) same u))
    | inr there ↦ rw (there, there) (remove-find h l v)
  ]

  pub remove-other :
      (h k : ℕ) (l : List (ℕ × S)) → h ≢ k → find_file k (remove_file h l) ≡ find_file k l
  unfolding find_file remove_file
  remove-other h k [] apart = refl
  remove-other h k ((i, s) ∷ l) apart = elim (Bool-cases (i == h)) [
    | inl here ↦ let other : (i == k) ≡ false = ground (arith, here, apart) in rw (here, other) refl
    | inr there ↦ elim (Bool-cases (i == k)) [
      | inl this ↦ rw (there, this) refl
      | inr that ↦ rw (there, that) (remove-other h k l apart)
    ]
  ]

  IsUnused-remove : (h k : ℕ) (l : List (ℕ × S)) → IsUnused k l → IsUnused k (remove_file h l)
  unfolding IsUnused remove_file
  IsUnused-remove h k [] u = tt
  IsUnused-remove h k ((i, s) ∷ l) (other, u) = elim (Bool-cases (i == h)) [
    | inl here ↦ rw here u
    | inr there ↦ rw there (other, IsUnused-remove h k l u)
  ]

  pub AreHandles-remove : (h : ℕ) (l : List (ℕ × S)) → AreHandles l → AreHandles (remove_file h l)
  unfolding AreHandles remove_file
  AreHandles-remove h [] v = tt
  AreHandles-remove h ((i, s) ∷ l) (u, v) = elim (Bool-cases (i == h)) [
    | inl here ↦ rw here v
    | inr there ↦ rw there (IsUnused-remove h i l u, AreHandles-remove h l v)
  ]

  IsUnused-store :
      (h k : ℕ) (s' : S) (l : List (ℕ × S)) → IsUnused k l → IsUnused k (store_file h s' l)
  unfolding IsUnused store_file
  IsUnused-store h k s' [] u = tt
  IsUnused-store h k s' ((i, s) ∷ l) (other, u) = elim (Bool-cases (i == h)) [
    | inl here ↦ rw here (other, u)
    | inr there ↦ rw there (other, IsUnused-store h k s' l u)
  ]

  pub AreHandles-store :
      (h : ℕ) (s' : S) (l : List (ℕ × S)) → AreHandles l → AreHandles (store_file h s' l)
  unfolding AreHandles store_file
  AreHandles-store h s' [] v = tt
  AreHandles-store h s' ((i, s) ∷ l) (u, v) = elim (Bool-cases (i == h)) [
    | inl here ↦ rw here (u, v)
    | inr there ↦ rw there (IsUnused-store h i s' l u, AreHandles-store h s' l v)
  ]

  -- A handle that was removed is of no open file.
  pub IsUnused-removed : (h : ℕ) (l : List (ℕ × S)) → AreHandles l → IsUnused h (remove_file h l)
  unfolding AreHandles IsUnused remove_file
  IsUnused-removed h [] v = tt
  IsUnused-removed h ((i, s) ∷ l) (u, v) = elim (Bool-cases (i == h)) [
    | inl here ↦
        let same : i ≡ h = ground (arith, here) in rw here (subst (λ k. IsUnused k l) same u)
    | inr there ↦ rw there ((λ same. ground (arith, same, there)), IsUnused-removed h l v)
  ]

  pub IsUnused-new : (n : ℕ) (l : List (ℕ × S)) → AreBelow n l → IsUnused n l
  unfolding IsUnused AreBelow
  IsUnused-new n [] v = tt
  IsUnused-new n ((i, s) ∷ l) (below, v) =
      ((λ same. omega (arith, same, below)), IsUnused-new n l v)

  AreBelow-suc : (n : ℕ) (l : List (ℕ × S)) → AreBelow n l → AreBelow (n + 1) l
  unfolding AreBelow
  AreBelow-suc n [] v = tt
  AreBelow-suc n ((i, s) ∷ l) (below, v) = (omega (arith, below), AreBelow-suc n l v)

  -- What is left after a removal is still below a larger bound.
  pub AreBelow-remove :
      (n h : ℕ) (l : List (ℕ × S)) → AreBelow n l → AreBelow (n + 1) (remove_file h l)
  unfolding AreBelow remove_file
  AreBelow-remove n h [] v = tt
  AreBelow-remove n h ((i, s) ∷ l) (below, v) = elim (Bool-cases (i == h)) [
    | inl here ↦ rw here (AreBelow-suc n l v)
    | inr there ↦ rw there (omega (arith, below), AreBelow-remove n h l v)
  ]
