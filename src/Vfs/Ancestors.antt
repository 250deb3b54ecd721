-- ===== src/Vfs/Ancestors.antt =====
-- kernel/vfs/src/path: the parents of an absolute path are its prefixes.
use muffin.Base.{
  ℕ, suc, ◌+◌, ◌≤◌, ◌<◌, ◌≡◌, ◌≢◌, ◌⊎◌, refl, ap, sym, ◌∙◌, Bool, true, false, Option, none, some,
  [], ◌∷◌, length, take, all, arith, Option-cases, inl, inr,
}
use muffin.Vfs.Path.{
  OwnedPath, is_separator, is_name, is_ascii, rfind, is_absolute, parent_end, parent,
}
use muffin.Vfs.Parents.{rfind-below, through-ascii, length-take}

-- What `parent` can answer on an absolute path.
unfoldable pub IsParent : OwnedPath → Option (Option OwnedPath) → Type 0
IsParent p r = (r ≡ some none) ⊎ ((n : ℕ) × (1 ≤ n) × (n < length p) × (r ≡ some (some (take n p))))

rfind-head : (f : ℕ → Bool) (c : ℕ) (q : OwnedPath) → rfind f (c ∷ q) ≡ none → f c ≡ false
unfolding rfind
rfind-head f c q h = elim (Option-cases (rfind f q)) [
  | inl gone ↦ ground (arith, gone)
  | inr (j, here) ↦ ground (arith, here)
]

head-separator :
    (p : OwnedPath) (last : ℕ)
    → is_absolute p ≡ true
    → rfind is_separator (take (last + 1) p) ≢ none
unfolding is_absolute
head-separator [] last h gone = ground arith
head-separator (c ∷ p) last h gone =
    let next : last + 1 ≡ suc last = omega arith in
    let here : is_separator c ≡ false =
      rfind-head is_separator c (take last p)
        (ap (λ n. rfind is_separator (take n (c ∷ p))) (sym next) ∙ gone) in
    ground (arith, here, h)

parent_end-IsParent :
    (p : OwnedPath) (sep : ℕ)
    → all is_ascii p ≡ true
    → sep < length p
    → IsParent p (parent_end p sep)
unfolding IsParent parent_end
parent_end-IsParent p sep ascii below = elim (Option-cases (rfind is_name (take sep p))) [
  | inl gone ↦ inl (rw (parent_end, gone) refl)
  | inr (i, here) ↦
      let inside = rfind-below is_name (take sep p) i here in
      let short = length-take p sep in
      let slice = through-ascii p i ascii (omega (arith, inside, short)) in
      inr (i + 1, omega arith, omega (arith, inside, short), rw (parent_end, here, slice) refl)
]

-- The parent of an absolute ASCII path is a shorter prefix of it, and not empty, if it has one.
pub parent-IsParent :
    (p : OwnedPath) → all is_ascii p ≡ true → is_absolute p ≡ true → IsParent p (parent p)
unfolding parent IsParent
parent-IsParent p ascii absolute = elim (Option-cases (rfind is_name p)) [
  | inl gone ↦ rw (parent, gone) (inl refl)
  | inr (last, here) ↦
      let inside = rfind-below is_name p last here in
      let slice = through-ascii p last ascii inside in
      elim (Option-cases (rfind is_separator (take (last + 1) p))) [
        | inl none_there ↦ absurd (head-separator p last absolute none_there)
        | inr (sep, there) ↦
            let before = rfind-below is_separator (take (last + 1) p) sep there in
            let short = length-take p (last + 1) in
            rw (parent, here, slice, there)
              (parent_end-IsParent p sep ascii (omega (arith, before, short, inside)))
      ]
]
