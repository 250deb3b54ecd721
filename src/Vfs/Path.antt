-- ===== src/Vfs/Path.antt =====
-- kernel/vfs/src/path: `Path`, `OwnedPath` and the two absolute types, as lists of code points. A slice that
-- ends one byte behind the start of a character panics, here `none`, unless the character is ASCII.
use muffin.Base.{
  ℕ, suc, ◌+◌, Bool, true, false, not, ◌&&◌, ◌||◌, Option, none, some, List, [], ◌∷◌, ◌++◌,
  get_elem?, take, drop, ltb, ◌==◌, if◌then◌else◌, Result, ok, err,
}

abbrev pub OwnedPath : Type 0
OwnedPath = List ℕ

-- `FILEPATH_SEPARATOR`.
abbrev pub filepath_separator : ℕ
filepath_separator = 47

-- `ROOT`.
abbrev pub root : OwnedPath
root = filepath_separator ∷ []

abbrev pub is_separator : ℕ → Bool
is_separator c = c == filepath_separator

abbrev pub is_name : ℕ → Bool
is_name c = not (is_separator c)

abbrev pub is_ascii : ℕ → Bool
is_ascii c = ltb c 128

abbrev pub path_eq : OwnedPath → OwnedPath → Bool
path_eq [] [] = true
path_eq (a ∷ p) (b ∷ q) = (a == b) && path_eq p q
path_eq _ _ = false

-- `rfind` of a character, as its index.
unfoldable pub rfind : (ℕ → Bool) → OwnedPath → Option ℕ
rfind f [] = none
rfind f (c ∷ p) = elim (rfind f p) [ some i ↦ some (suc i) | none ↦ if f c then some 0 else none ]

-- `&inner[..pos + 1]`, for the position of the character at index `i`.
unfoldable pub through : OwnedPath → ℕ → Option OwnedPath
through p i = elim (get_elem? p i) [
  | none ↦ none
  | some c ↦ if is_ascii c then some (take (i + 1) p) else none
]

unfoldable pub is_absolute : OwnedPath → Bool
is_absolute [] = false
is_absolute (c ∷ p) = is_separator c

abbrev pub is_relative : OwnedPath → Bool
is_relative p = not (is_absolute p)

-- `.` and `..`.
abbrev pub is_dots : OwnedPath → Bool
is_dots p = path_eq p (46 ∷ []) || path_eq p (46 ∷ 46 ∷ [])

-- The end of `parent`: `p` up to index `sep`, less the separators there.
unfoldable pub parent_end : OwnedPath → ℕ → Option (Option OwnedPath)
unfolding rfind through
parent_end p sep = elim (rfind is_name (take sep p)) [
  | none ↦ some none
  | some i ↦ elim (through p i) [ none ↦ none | some q ↦ some (some q) ]
]

-- `Path::parent`, and so that of an absolute path.
unfoldable pub parent : OwnedPath → Option (Option OwnedPath)
unfolding rfind through parent_end
parent p = elim (rfind is_name p) [
  | none ↦ some none
  | some last ↦ elim (through p last) [
    | none ↦ none
    | some head ↦ elim (rfind is_separator head) [
      | none ↦ some (if is_dots p then some p else none)
      | some sep ↦ parent_end p sep
    ]
  ]
]

-- `file_name`: the first `next_back` of the file names.
unfoldable pub file_name : OwnedPath → Option (Option OwnedPath)
unfolding rfind through
file_name p = elim (rfind is_name p) [
  | none ↦ some none
  | some last ↦ elim (through p last) [
    | none ↦ none
    | some head ↦
        some
          (some (drop (elim (rfind is_separator (take last p)) [ none ↦ 0 | some i ↦ i + 1 ]) head))
  ]
]

-- `OwnedPath::append_str`.
unfoldable pub append_str : OwnedPath → OwnedPath → OwnedPath
append_str p other = p ++ other

-- `ends_with(FILEPATH_SEPARATOR)`.
unfoldable pub ends_with_separator : OwnedPath → Bool
ends_with_separator [] = false
ends_with_separator (c ∷ []) = is_separator c
ends_with_separator (c ∷ d ∷ p) = ends_with_separator (d ∷ p)

abbrev pub is_empty : OwnedPath → Bool
is_empty [] = true
is_empty (c ∷ p) = false

-- `OwnedPath::push`.
unfoldable pub push : OwnedPath → OwnedPath → OwnedPath
unfolding ends_with_separator
push p other =
    if not (ends_with_separator p)
    then (p ++ (filepath_separator ∷ [])) ++ other
    else (if is_empty other then (p ++ (filepath_separator ∷ [])) ++ other else p ++ other)

pub data PathNotAbsoluteError : Type 0 where
  path_not_absolute : PathNotAbsoluteError

-- `AbsolutePath::try_new` and the conversions to it.
unfoldable pub try_new : OwnedPath → Result OwnedPath PathNotAbsoluteError
unfolding is_absolute
try_new p = if is_absolute p then ok p else err path_not_absolute

-- `make_absolute`.
unfoldable pub make_absolute : OwnedPath → OwnedPath
unfolding try_new push
make_absolute p = elim (try_new p) [ ok q ↦ q | err e ↦ if is_empty p then root else push root p ]
