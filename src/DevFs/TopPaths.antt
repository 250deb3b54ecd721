-- ===== src/DevFs/TopPaths.antt =====
-- kernel/vfs/src/path: the parent, the last and the next name of a path of one name below the root.
use muffin.Base.{
  ℕ, suc, ◌+◌, ◌≡◌, refl, ap, ◌∙◌, true, false, none, some, [], ◌∷◌, length, take, drop, all, arith,
}
use muffin.Vfs.Path.{
  OwnedPath, filepath_separator, is_separator, is_name, is_ascii, rfind, through, parent,
  parent_end, file_name,
}
use muffin.Vfs.Parents.{
  rfind-is_separator, join-last, join-separator, join-through-all, parent-from,
}
use muffin.Vfs.Lookup.{all-take}
use muffin.DevFs.Files.{front_name, next_name}

-- A path of one name below the root.
abbrev pub top : ℕ → OwnedPath → OwnedPath
top c name = filepath_separator ∷ c ∷ name

pub parent-top :
    (c : ℕ) (name : OwnedPath)
    → all is_ascii (c ∷ name) ≡ true
    → all is_name (c ∷ name) ≡ true
    → parent (top c name) ≡ some none
parent-top c name ascii plain =
    parent-from (top c name) 0 (length {A = ℕ} [] + suc (length name)) (join-last [] c name plain)
      (join-through-all [] c name ascii) (join-separator [] (c ∷ name) plain)
    ∙ (unfold parent_end rfind in refl)

file_name-from :
    (p whole before : OwnedPath) (last : ℕ)
    → rfind is_name p ≡ some last
    → through p last ≡ some whole
    → take last p ≡ before
    → rfind is_separator before ≡ some 0
    → file_name p ≡ some (some (drop 1 whole))
unfolding file_name
file_name-from p whole before last found slice front sep =
    rw (file_name, found, slice, front, sep) refl

first_separator :
    (q : OwnedPath)
    → rfind is_separator q ≡ none
    → rfind is_separator (filepath_separator ∷ q) ≡ some 0
unfolding rfind
first_separator q h = rw h refl

pub file_name-top :
    (c : ℕ) (name : OwnedPath)
    → all is_ascii (c ∷ name) ≡ true
    → all is_name (c ∷ name) ≡ true
    → file_name (top c name) ≡ some (some (c ∷ name))
file_name-top c name ascii plain =
    let n : ℕ = length {A = ℕ} [] + suc (length name) in
    let at : n ≡ suc (length name) = omega arith in
    let none_there =
      rfind-is_separator (take (length name) (c ∷ name))
        (all-take is_name (length name) (c ∷ name) plain) in
    file_name-from (top c name) (top c name) (filepath_separator ∷ take (length name) (c ∷ name)) n
      (join-last [] c name plain) (join-through-all [] c name ascii)
      (ap (λ k. take k (top c name)) at)
      (first_separator (take (length name) (c ∷ name)) none_there)

front_name-plain : (p : OwnedPath) → all is_name p ≡ true → front_name p ≡ (p, [])
unfolding front_name
front_name-plain [] plain = refl
front_name-plain (c ∷ p) plain =
    let other : is_separator c ≡ false = ground arith in
    rw (front_name-plain p (ground arith), other) refl

pub next_name-top :
    (c : ℕ) (name : OwnedPath)
    → all is_ascii (c ∷ name) ≡ true
    → all is_name (c ∷ name) ≡ true
    → next_name (top c name) ≡ some (some (c ∷ name, []))
unfolding next_name
next_name-top c name ascii plain =
    let other : is_separator c ≡ false = ground arith in
    let small : is_ascii c ≡ true = ground arith in
    rw (other, small, front_name-plain name (ground arith)) refl
