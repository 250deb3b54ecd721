-- ===== src/Vfs/Lookup.antt =====
-- kernel/vfs/src/vfs/mod.rs: the mount that `find_mount` finds, and the path that `open` hands to it.
use muffin.Base.{
  ℕ, zero, suc, ◌≤◌, ◌≡◌, ◌⊎◌, refl, ap, sym, ◌∙◌, Bool, true, none, some, [], ◌∷◌, ◌++◌, length,
  take, drop, all, arith, Option-cases, inl, inr,
}
use mathlib.Core.List.{append-nil}
use muffin.Vfs.Path.{OwnedPath, root, is_ascii, path_eq, is_absolute, parent}
use muffin.Vfs.Parents.{append-append, length-take}
use muffin.Vfs.Ancestors.{IsParent, parent-IsParent}
use muffin.Vfs.Mounts.{Mounted, Vfs, Search, found, get, strip_prefix, climb, find_mount}

pub path_eq_refl : (p : OwnedPath) → path_eq p p ≡ true
path_eq_refl [] = refl
path_eq_refl (c ∷ p) = ground (arith, path_eq_refl p)

pub path_eq_sound : (p q : OwnedPath) → path_eq p q ≡ true → p ≡ q
path_eq_sound [] [] h = refl
path_eq_sound [] (d ∷ q) h = ground arith
path_eq_sound (c ∷ p) [] h = ground arith
path_eq_sound (c ∷ p) (d ∷ q) h =
    let same : c ≡ d = ground arith in
    let rest : p ≡ q = path_eq_sound p q (ground arith) in cc (same, rest)

-- A path, the paths that repeated calls of `parent` reach, and the root, which stands above where they end.
pub data Above : OwnedPath → OwnedPath → Type 0 where
  same : {p : OwnedPath} → Above p p
  up : {p q r : OwnedPath} → parent p ≡ some (some q) → Above q r → Above p r
  over_root : {p : OwnedPath} → parent p ≡ some none → Above p root

pub all-take : (f : ℕ → Bool) (n : ℕ) (p : OwnedPath) → all f p ≡ true → all f (take n p) ≡ true
all-take f zero p h = refl
all-take f (suc n) [] h = refl
all-take f (suc n) (c ∷ p) h = ground (arith, all-take f n p (ground arith))

absolute-take :
    (n : ℕ) (p : OwnedPath) → 1 ≤ n → is_absolute p ≡ true → is_absolute (take n p) ≡ true
unfolding is_absolute
absolute-take zero p h a = absurd (omega arith)
absolute-take (suc n) [] h a = a
absolute-take (suc n) (c ∷ p) h a = a

-- Absolute, ASCII, and of at most `n` characters.
abbrev pub IsBelow : ℕ → OwnedPath → Type 0
IsBelow n p = (all is_ascii p ≡ true) × (is_absolute p ≡ true) × (length p ≤ n)

-- A parent is below a smaller bound.
parent-IsBelow :
    (n : ℕ) (p q : OwnedPath) → IsBelow (suc n) p → parent p ≡ some (some q) → IsBelow n q
unfolding IsParent
parent-IsBelow n p q (ascii, absolute, short) e = elim (parent-IsParent p ascii absolute) [
  | inl top ↦ ground (arith, top, e)
  | inr (k, least, less, there) ↦
      let here : q ≡ take k p = ground (arith, there, e) in
      rw here (
        all-take is_ascii k p ascii,
        absolute-take k p least absolute,
        omega (arith, length-take p k),
      )
]

-- A path of no characters is not absolute.
IsBelow-zero : (p : OwnedPath) → IsBelow 0 p → ⊥
unfolding is_absolute
IsBelow-zero [] (ascii, absolute, short) = ground (arith, absolute)
IsBelow-zero (c ∷ p) (ascii, absolute, short) = omega (arith, short)

take-drop : (n : ℕ) (p : OwnedPath) → take n p ++ drop n p ≡ p
take-drop zero p = refl
take-drop (suc n) [] = refl
take-drop (suc n) (c ∷ p) = ap (λ l. c ∷ l) (take-drop n p)

abbrev pub IsPrefix : OwnedPath → OwnedPath → Type 0
IsPrefix m p = (rest : OwnedPath) × (m ++ rest ≡ p)

IsPrefix-refl : (p : OwnedPath) → IsPrefix p p
IsPrefix-refl p = ([], append-nil p)

IsPrefix-trans : (p q r : OwnedPath) → IsPrefix p q → IsPrefix q r → IsPrefix p r
IsPrefix-trans p q r (s, e) (t, f) = (s ++ t, sym (append-append p s t) ∙ ap (λ l. l ++ t) e ∙ f)

parent-IsPrefix : (n : ℕ) (p q : OwnedPath) → IsBelow n p → parent p ≡ some (some q) → IsPrefix q p
unfolding IsParent
parent-IsPrefix n p q (ascii, absolute, short) e = elim (parent-IsParent p ascii absolute) [
  | inl top ↦ ground (arith, top, e)
  | inr (k, least, less, there) ↦
      let here : take k p ≡ q = ground (arith, there, e) in
      (drop k p, ap (λ l. l ++ drop k p) (sym here) ∙ take-drop k p)
]

pub strip_prefix-append : (m rest : OwnedPath) → strip_prefix m (m ++ rest) ≡ some rest
unfolding strip_prefix
strip_prefix-append [] rest = refl
strip_prefix-append (c ∷ m) rest = ground (arith, strip_prefix-append m rest)

module _ {F : Type 0} where
  -- What `find_mount` may answer: no mount, or one at the root or at a prefix of the path.
  abbrev pub IsAnswer : OwnedPath → Vfs F → Search F → Type 0
  IsAnswer p v s =
      (s ≡ found none)
      ⊎ ((m : OwnedPath) × (fs : Mounted F) × (s ≡ found (some (m, fs)))
          × (get m v.file_systems ≡ some fs)
          × ((m ≡ root) ⊎ IsPrefix m p))

  abbrev root_answer : OwnedPath → Vfs F → Search F
  root_answer p v = found (elim (get root v.file_systems) [ none ↦ none | some m ↦ some (root, m) ])

  root_answer-IsAnswer : (p : OwnedPath) (v : Vfs F) → IsAnswer p v (root_answer p v)
  root_answer-IsAnswer p v = elim (Option-cases (get root v.file_systems)) [
    | inl gone ↦ inl (rw gone refl)
    | inr (m, there) ↦ inr (root, m, rw there refl, there, inl refl)
  ]

  IsAnswer-wider :
      (q p : OwnedPath) (v : Vfs F) (s : Search F) → IsPrefix q p → IsAnswer q v s → IsAnswer p v s
  IsAnswer-wider q p v s inside (inl none_there) = inl none_there
  IsAnswer-wider q p v s inside (inr (m, fs, run, there, inl top)) =
      inr (m, fs, run, there, inl top)
  IsAnswer-wider q p v s inside (inr (m, fs, run, there, inr prefix)) =
      inr (m, fs, run, there, inr (IsPrefix-trans m q p prefix inside))

  climb-IsAnswer : (n : ℕ) (p : OwnedPath) (v : Vfs F) → IsBelow n p → IsAnswer p v (climb n p v)
  unfolding climb IsParent
  climb-IsAnswer zero p v below = absurd (IsBelow-zero p below)
  climb-IsAnswer (suc n) p v below =
      let (ascii, absolute, short) = below in
      elim (parent-IsParent p ascii absolute) [
        | inl top ↦ rw (climb, top) (root_answer-IsAnswer p v)
        | inr (k, least, less, there) ↦
            let inside = parent-IsPrefix (suc n) p (take k p) below there in
            elim (Option-cases (get (take k p) v.file_systems)) [
              | inr (fs, here) ↦ inr (take k p, fs, rw (climb, there, here) refl, here, inr inside)
              | inl gone ↦
                  let deeper =
                    climb-IsAnswer n (take k p) v (parent-IsBelow n p (take k p) below there) in
                  rw (climb, there, gone)
                    (IsAnswer-wider (take k p) p v (climb n (take k p) v) inside deeper)
            ]
      ]

  pub find_mount-IsAnswer :
      (p : OwnedPath) (v : Vfs F)
      → all is_ascii p ≡ true
      → is_absolute p ≡ true
      → IsAnswer p v (find_mount p v)
  unfolding find_mount
  find_mount-IsAnswer p v ascii absolute = elim (Option-cases (get p v.file_systems)) [
    | inr (fs, here) ↦ inr (p, fs, rw (find_mount, here) refl, here, inr (IsPrefix-refl p))
    | inl gone ↦
        rw (find_mount, gone) (climb-IsAnswer (length p) p v (ascii, absolute, omega arith))
  ]
