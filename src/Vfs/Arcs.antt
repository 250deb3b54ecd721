-- ===== src/Vfs/Arcs.antt =====
-- kernel/vfs/src/vfs/mod.rs: the well-formedness of the mounts, kept by each change of their list.
use muffin.Base.{
  ℕ, ◌+◌, ◌<◌, ◌≡◌, ◌≢◌, refl, sym, false, none, some, List, [], ◌∷◌, ◌==◌, if◌then◌else◌, arith,
  Bool-cases, inl, inr,
}
use mathlib.Core.Path.{subst}
use muffin.Vfs.Path.{OwnedPath, path_eq}
use muffin.Vfs.Mounts.{Mounted, Vfs, get, remove, store}
use muffin.Vfs.Nodes.{upgrade}

module _ {F : Type 0} where
  -- No entry has this path or this `Arc`.
  unfoldable pub IsFresh : OwnedPath → ℕ → List (OwnedPath × Mounted F) → Type 0
  IsFresh p i [] = Unit
  IsFresh p i ((q, m) ∷ l) = (path_eq q p ≡ false) × (m.arc ≢ i) × IsFresh p i l

  -- Paths and arcs are all different, and every arc is below `n`.
  unfoldable pub AreMounts : ℕ → List (OwnedPath × Mounted F) → Type 0
  unfolding IsFresh
  AreMounts n [] = Unit
  AreMounts n ((q, m) ∷ l) = (m.arc < n) × IsFresh q m.arc l × AreMounts n l

  abbrev pub IsValid : Vfs F → Type 0
  IsValid v = AreMounts v.next_arc v.file_systems

  upgrade-IsFresh :
      (p : OwnedPath) (i : ℕ) (l : List (OwnedPath × Mounted F))
      → IsFresh p i l
      → upgrade i l ≡ none
  unfolding IsFresh upgrade
  upgrade-IsFresh p i [] h = refl
  upgrade-IsFresh p i ((q, m) ∷ l) (apart, other, rest) =
      ground (arith, other, upgrade-IsFresh p i l rest)

  -- An entry that is found has another arc than a fresh one.
  IsFresh-get :
      (q p : OwnedPath) (i : ℕ) (m : Mounted F) (l : List (OwnedPath × Mounted F))
      → IsFresh q i l
      → get p l ≡ some m
      → m.arc ≢ i
  unfolding IsFresh get
  IsFresh-get q p i m [] h e = ground (arith, e)
  IsFresh-get q p i m ((r, k) ∷ l) (apart, other, rest) e = elim (Bool-cases (path_eq r p)) [
    | inl here ↦
        let this : k ≡ m = ground (arith, here, e) in
        subst (λ (x : Mounted F). x.arc ≢ i) this other
    | inr there ↦ IsFresh-get q p i m l rest (ground (arith, there, e))
  ]

  -- The arc of a removed entry is gone.
  pub upgrade-remove :
      (n : ℕ) (p : OwnedPath) (m : Mounted F) (l : List (OwnedPath × Mounted F))
      → AreMounts n l
      → get p l ≡ some m
      → upgrade m.arc (remove p l) ≡ none
  unfolding AreMounts get remove upgrade
  upgrade-remove n p m [] h e = ground (arith, e)
  upgrade-remove n p m ((q, k) ∷ l) (below, fresh, rest) e = elim (Bool-cases (path_eq q p)) [
    | inl here ↦
        let this : k ≡ m = ground (arith, here, e) in
        rw here
          (subst (λ (x : Mounted F). upgrade x.arc l ≡ none) this (upgrade-IsFresh q k.arc l fresh))
    | inr there ↦
        let deeper : get p l ≡ some m = ground (arith, there, e) in
        let apart = IsFresh-get q p k.arc m l fresh deeper in
        let gone = upgrade-remove n p m l rest deeper in rw there (ground (arith, apart, gone))
  ]

  -- The arc of an entry is below the bound.
  pub get-arc :
      (n : ℕ) (p : OwnedPath) (m : Mounted F) (l : List (OwnedPath × Mounted F))
      → AreMounts n l
      → get p l ≡ some m
      → m.arc < n
  unfolding AreMounts get
  get-arc n p m [] h e = ground (arith, e)
  get-arc n p m ((q, k) ∷ l) (below, fresh, rest) e = elim (Bool-cases (path_eq q p)) [
    | inl here ↦
        let this : k ≡ m = ground (arith, here, e) in
        subst (λ (x : Mounted F). x.arc < n) this below
    | inr there ↦ get-arc n p m l rest (ground (arith, there, e))
  ]

  pub IsFresh-new :
      (n : ℕ) (p : OwnedPath) (l : List (OwnedPath × Mounted F))
      → AreMounts n l
      → get p l ≡ none
      → IsFresh p n l
  unfolding AreMounts IsFresh get
  IsFresh-new n p [] h e = tt
  IsFresh-new n p ((q, m) ∷ l) (below, fresh, rest) e = elim (Bool-cases (path_eq q p)) [
    | inl here ↦ ground (arith, here, e)
    | inr there ↦ (
      there,
      (λ same. omega (arith, same, below)),
      IsFresh-new n p l rest (ground (arith, there, e)),
    )
  ]

  pub AreMounts-suc :
      (n : ℕ) (l : List (OwnedPath × Mounted F)) → AreMounts n l → AreMounts (n + 1) l
  unfolding AreMounts
  AreMounts-suc n [] h = tt
  AreMounts-suc n ((q, m) ∷ l) (below, fresh, rest) =
      (omega (arith, below), fresh, AreMounts-suc n l rest)

  IsFresh-remove :
      (p r : OwnedPath) (i : ℕ) (l : List (OwnedPath × Mounted F))
      → IsFresh p i l
      → IsFresh p i (remove r l)
  unfolding IsFresh remove
  IsFresh-remove p r i [] h = tt
  IsFresh-remove p r i ((q, m) ∷ l) (apart, other, rest) = elim (Bool-cases (path_eq q r)) [
    | inl here ↦ rw here rest
    | inr there ↦ rw there (apart, other, IsFresh-remove p r i l rest)
  ]

  pub AreMounts-remove :
      (n : ℕ) (r : OwnedPath) (l : List (OwnedPath × Mounted F))
      → AreMounts n l
      → AreMounts n (remove r l)
  unfolding AreMounts remove
  AreMounts-remove n r [] h = tt
  AreMounts-remove n r ((q, m) ∷ l) (below, fresh, rest) = elim (Bool-cases (path_eq q r)) [
    | inl here ↦ rw here rest
    | inr there ↦ rw there (below, IsFresh-remove q r m.arc l fresh, AreMounts-remove n r l rest)
  ]

  -- A write to the state of a file system keeps its arc.
  store-arc :
      (i : ℕ) (fs : F) (m : Mounted F)
      → (if m.arc == i then record m { file_system = fs } else m).arc ≡ m.arc
  store-arc i fs m = elim (Bool-cases (m.arc == i)) [
    | inl here ↦ rw here refl
    | inr there ↦ rw there refl
  ]

  IsFresh-store :
      (i j : ℕ) (fs : F) (p : OwnedPath) (l : List (OwnedPath × Mounted F))
      → IsFresh p i l
      → IsFresh p i (store j fs l)
  unfolding IsFresh store
  IsFresh-store i j fs p [] h = tt
  IsFresh-store i j fs p ((q, m) ∷ l) (apart, other, rest) =
      (apart, subst (λ a. a ≢ i) (sym (store-arc j fs m)) other, IsFresh-store i j fs p l rest)

  pub AreMounts-store :
      (n j : ℕ) (fs : F) (l : List (OwnedPath × Mounted F))
      → AreMounts n l
      → AreMounts n (store j fs l)
  unfolding AreMounts store
  AreMounts-store n j fs [] h = tt
  AreMounts-store n j fs ((q, m) ∷ l) (below, fresh, rest) =
      let moved : AreMounts n (store j fs l) = AreMounts-store n j fs l rest in
      let apart = IsFresh-store m.arc j fs q l fresh in
      subst (λ a. (a < n) × IsFresh q a (store j fs l) × AreMounts n (store j fs l))
        (sym (store-arc j fs m)) (below, apart, moved)

  pub upgrade-store :
      (i j : ℕ) (fs : F) (l : List (OwnedPath × Mounted F))
      → upgrade i l ≡ none
      → upgrade i (store j fs l) ≡ none
  unfolding upgrade store
  upgrade-store i j fs [] h = refl
  upgrade-store i j fs ((q, m) ∷ l) h = elim (Bool-cases (m.arc == i)) [
    | inl here ↦ ground (arith, here, h)
    | inr there ↦
        let gone = upgrade-store i j fs l (ground (arith, there, h)) in
        rw (store-arc j fs m, there) gone
  ]

  pub upgrade-remove_other :
      (i : ℕ) (p : OwnedPath) (l : List (OwnedPath × Mounted F))
      → upgrade i l ≡ none
      → upgrade i (remove p l) ≡ none
  unfolding upgrade remove
  upgrade-remove_other i p [] h = refl
  upgrade-remove_other i p ((q, m) ∷ l) h = elim (Bool-cases (m.arc == i)) [
    | inl here ↦ ground (arith, here, h)
    | inr there ↦
        let gone : upgrade i l ≡ none = ground (arith, there, h) in
        elim (Bool-cases (path_eq q p)) [
          | inl here ↦ rw here gone
          | inr apart ↦ rw (apart, there) (upgrade-remove_other i p l gone)
        ]
  ]
