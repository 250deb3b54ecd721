-- ===== src/Vfs/Parents.antt =====
-- kernel/vfs/src/path: the parent of a path.
use muffin.Base.{
  ℕ, zero, suc, ◌+◌, ◌≤◌, ◌<◌, ◌≡◌, refl, ap, ◌∙◌, Bool, true, false, none, some, [], ◌∷◌, ◌++◌,
  length, get_elem?, take, all, arith, Option-cases, inl, inr, length-append,
}
use muffin.Vfs.Path.{
  OwnedPath, filepath_separator, is_separator, is_name, is_ascii, rfind, through, parent_end,
  parent, ends_with_separator, push,
}

pub rfind-below : (f : ℕ → Bool) (p : OwnedPath) (i : ℕ) → rfind f p ≡ some i → i < length p
unfolding rfind
rfind-below f [] i e = ground arith
rfind-below f (c ∷ p) i e = elim (Option-cases (rfind f p)) [
  | inl gone ↦ ground (arith, gone)
  | inr (j, here) ↦
      let at : i ≡ suc j = ground (arith, here) in omega (arith, rfind-below f p j here)
]

-- A match in the second part of a path is the last one.
rfind-append_some :
    (f : ℕ → Bool) (p q : OwnedPath) (i : ℕ)
    → rfind f q ≡ some i
    → rfind f (p ++ q) ≡ some (length p + i)
unfolding rfind
rfind-append_some f [] q i e = rw e (ap some (omega arith))
rfind-append_some f (c ∷ p) q i e = rw (rfind-append_some f p q i e) (ap some (omega arith))

rfind-append_none :
    (f : ℕ → Bool) (p q : OwnedPath) → rfind f q ≡ none → rfind f (p ++ q) ≡ rfind f p
unfolding rfind
rfind-append_none f [] q e = e
rfind-append_none f (c ∷ p) q e = rw (rfind-append_none f p q e) refl

all_ascii-get :
    (p : OwnedPath) (i : ℕ)
    → all is_ascii p ≡ true
    → i < length p
    → (c : ℕ) × (get_elem? p i ≡ some c) × (is_ascii c ≡ true)
all_ascii-get [] i h lt = absurd (omega arith)
all_ascii-get (c ∷ p) zero h lt = (c, refl, ground arith)
all_ascii-get (c ∷ p) (suc i) h lt = all_ascii-get p i (ground arith) (omega arith)

-- No slice of an ASCII path panics.
pub through-ascii :
    (p : OwnedPath) (i : ℕ)
    → all is_ascii p ≡ true
    → i < length p
    → through p i ≡ some (take (i + 1) p)
unfolding through
through-ascii p i h lt =
    let (c, here, small) = all_ascii-get p i h lt in ground (arith, here, small)

take-append : (p q : OwnedPath) (n : ℕ) → n ≤ length p → take n (p ++ q) ≡ take n p
take-append p q zero h = refl
take-append [] q (suc n) h = absurd (omega arith)
take-append (c ∷ p) q (suc n) h = ap (λ l. c ∷ l) (take-append p q n (omega arith))

pub take-all : (p : OwnedPath) (n : ℕ) → length p ≤ n → take n p ≡ p
take-all [] zero h = refl
take-all [] (suc n) h = refl
take-all (c ∷ p) zero h = absurd (omega arith)
take-all (c ∷ p) (suc n) h = ap (λ l. c ∷ l) (take-all p n (omega arith))

pub length-take : (p : OwnedPath) (n : ℕ) → length (take n p) ≤ n
length-take p zero = omega arith
length-take [] (suc n) = omega arith
length-take (c ∷ p) (suc n) = omega (arith, length-take p n)

rfind-all :
    (f : ℕ → Bool) (c : ℕ) (q : OwnedPath)
    → all f (c ∷ q) ≡ true
    → rfind f (c ∷ q) ≡ some (length q)
unfolding rfind
rfind-all f c [] h = ground arith
rfind-all f c (d ∷ q) h = rw (rfind-all f d q (ground arith)) refl

pub rfind-is_separator : (q : OwnedPath) → all is_name q ≡ true → rfind is_separator q ≡ none
unfolding rfind
rfind-is_separator [] h = refl
rfind-is_separator (c ∷ q) h =
    let other : is_separator c ≡ false = ground arith in
    rw (rfind-is_separator q (ground arith), other) refl

rfind-is_name :
    (c : ℕ) (p : OwnedPath)
    → ends_with_separator (c ∷ p) ≡ false
    → rfind is_name (c ∷ p) ≡ some (length p)
unfolding rfind ends_with_separator
rfind-is_name c [] h = rw h refl
rfind-is_name c (d ∷ p) h = rw (rfind-is_name d p h) refl

all-append :
    (f : ℕ → Bool) (p q : OwnedPath) → all f p ≡ true → all f q ≡ true → all f (p ++ q) ≡ true
all-append f [] q hp hq = hq
all-append f (c ∷ p) q hp hq = ground (arith, all-append f p q (ground arith) hq)

pub append-append : (p q r : OwnedPath) → (p ++ q) ++ r ≡ p ++ (q ++ r)
append-append [] q r = refl
append-append (c ∷ p) q r = ap (λ l. c ∷ l) (append-append p q r)

pub push-append :
    (p q : OwnedPath) → ends_with_separator p ≡ false → push p q ≡ p ++ (filepath_separator ∷ q)
unfolding push
push-append p q h = rw h (append-append p (filepath_separator ∷ []) q)

pub join-last :
    (p : OwnedPath) (d : ℕ) (name : OwnedPath)
    → all is_name (d ∷ name) ≡ true
    → rfind is_name (p ++ (filepath_separator ∷ d ∷ name)) ≡ some (length p + suc (length name))
unfolding rfind
join-last p d name plain =
    rfind-append_some is_name p (filepath_separator ∷ d ∷ name) (suc (length name))
      (rw (rfind-all is_name d name plain) refl)

pub join-separator :
    (p name : OwnedPath)
    → all is_name name ≡ true
    → rfind is_separator (p ++ (filepath_separator ∷ name)) ≡ some (length p)
unfolding rfind
join-separator p name plain =
    let found : rfind is_separator (filepath_separator ∷ name) ≡ some 0 =
      rw (rfind-is_separator name plain) refl in
    rfind-append_some is_separator p (filepath_separator ∷ name) 0 found ∙ ap some (omega arith)

pub join-through-all :
    (p : OwnedPath) (d : ℕ) (name : OwnedPath)
    → all is_ascii (p ++ (filepath_separator ∷ d ∷ name)) ≡ true
    → through (p ++ (filepath_separator ∷ d ∷ name)) (length p + suc (length name))
      ≡ some (p ++ (filepath_separator ∷ d ∷ name))
join-through-all p d name ascii =
    let whole = p ++ (filepath_separator ∷ d ∷ name) in
    let size : length whole ≡ length p + suc (suc (length name)) =
      length-append p (filepath_separator ∷ d ∷ name) in
    through-ascii whole (length p + suc (length name)) ascii (omega (arith, size))
    ∙ ap some (take-all whole (length p + suc (length name) + 1) (omega (arith, size)))

join-through :
    (c : ℕ) (p q : OwnedPath)
    → all is_ascii ((c ∷ p) ++ q) ≡ true
    → through ((c ∷ p) ++ q) (length p) ≡ some (c ∷ p)
join-through c p q ascii =
    let size : length ((c ∷ p) ++ q) ≡ suc (length p) + length q = length-append (c ∷ p) q in
    let prefix : take (length p + 1) ((c ∷ p) ++ q) ≡ c ∷ p =
      take-append (c ∷ p) q (length p + 1) (omega arith)
      ∙ take-all (c ∷ p) (length p + 1) (omega arith) in
    through-ascii ((c ∷ p) ++ q) (length p) ascii (omega (arith, size)) ∙ ap some prefix

join-take : (p q : OwnedPath) → take (length p) (p ++ q) ≡ p
join-take p q = take-append p q (length p) (omega arith) ∙ take-all p (length p) (omega arith)

parent_end-from :
    (p head : OwnedPath) (sep last : ℕ)
    → take sep p ≡ head
    → rfind is_name head ≡ some last
    → through p last ≡ some head
    → parent_end p sep ≡ some (some head)
unfolding parent_end
parent_end-from p head sep last prefix found slice = rw (parent_end, prefix, found, slice) refl

pub parent-from :
    (p : OwnedPath) (sep last : ℕ)
    → rfind is_name p ≡ some last
    → through p last ≡ some p
    → rfind is_separator p ≡ some sep
    → parent p ≡ parent_end p sep
unfolding parent
parent-from p sep last found slice sep_found = rw (parent, found, slice, sep_found) refl

join-parent :
    (c : ℕ) (p : OwnedPath) (d : ℕ) (name : OwnedPath)
    → all is_ascii ((c ∷ p) ++ (filepath_separator ∷ d ∷ name)) ≡ true
    → ends_with_separator (c ∷ p) ≡ false
    → all is_name (d ∷ name) ≡ true
    → parent ((c ∷ p) ++ (filepath_separator ∷ d ∷ name)) ≡ some (some (c ∷ p))
join-parent c p d name ascii open_end plain =
    let rest = filepath_separator ∷ d ∷ name in
    let whole = (c ∷ p) ++ rest in
    let outer =
      parent-from whole (length (c ∷ p)) (length (c ∷ p) + suc (length name))
        (join-last (c ∷ p) d name plain) (join-through-all (c ∷ p) d name ascii)
        (join-separator (c ∷ p) (d ∷ name) plain) in
    outer
    ∙ parent_end-from whole (c ∷ p) (length (c ∷ p)) (length p) (join-take (c ∷ p) rest)
        (rfind-is_name c p open_end) (join-through c p rest ascii)

-- The parent of an ASCII path `p` that is not empty and does not end in a separator, with a name pushed
-- onto it that is ASCII, not empty and without a separator, is `p`.
pub parent-push :
    (c : ℕ) (p : OwnedPath) (d : ℕ) (name : OwnedPath)
    → all is_ascii (c ∷ p) ≡ true
    → ends_with_separator (c ∷ p) ≡ false
    → all is_ascii (d ∷ name) ≡ true
    → all is_name (d ∷ name) ≡ true
    → parent (push (c ∷ p) (d ∷ name)) ≡ some (some (c ∷ p))
parent-push c p d name hp open_end hn plain =
    let ascii = all-append is_ascii (c ∷ p) (filepath_separator ∷ d ∷ name) hp hn in
    ap parent (push-append (c ∷ p) (d ∷ name) open_end)
    ∙ join-parent c p d name ascii open_end plain
