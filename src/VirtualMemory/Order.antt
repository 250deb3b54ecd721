-- ===== src/VirtualMemory/Order.antt =====
-- kernel/virtual_memory/src/lib.rs: the set of segments stays ascending and disjoint.
use muffin.Base.{ℕ, ◌+◌, ◌≤◌, ◌≡◌, Bool, true, not, ◌&&◌, List, [], ◌∷◌, ltb, arith}
use muffin.VirtualMemory.Segments.{Segment, insert, remove}

-- Whether `n` addresses from `a` on meet segment `e`.
abbrev pub meets : ℕ → ℕ → Segment → Bool
meets a n e = ltb a (e.start + e.len) && ltb e.start (a + n)

-- Whether they meet no segment of the list.
unfoldable pub is_clear : List Segment → ℕ → ℕ → Bool
is_clear [] a n = true
is_clear (e ∷ es) a n = not (meets a n e) && is_clear es a n

-- Every segment starts at `b` or above.
unfoldable pub StartsAbove : ℕ → List Segment → Type 0
StartsAbove b [] = Unit
StartsAbove b (e ∷ es) = (b ≤ e.start) × StartsAbove b es

-- No segment is empty, and each ends before those behind it start.
unfoldable pub IsAscending : List Segment → Type 0
unfolding StartsAbove
IsAscending [] = Unit
IsAscending (e ∷ es) = (1 ≤ e.len) × StartsAbove (e.start + e.len) es × IsAscending es

StartsAbove-mono : (b c : ℕ) (es : List Segment) → b ≤ c → StartsAbove c es → StartsAbove b es
unfolding StartsAbove
StartsAbove-mono b c [] h k = tt
StartsAbove-mono b c (e ∷ es) h (k, ks) = (omega arith, StartsAbove-mono b c es h ks)

StartsAbove-insert :
    (b : ℕ) (s : Segment) (es : List Segment)
    → b ≤ s.start
    → StartsAbove b es
    → StartsAbove b (insert s es)
unfolding StartsAbove insert
StartsAbove-insert b s [] h k = (h, tt)
StartsAbove-insert b s (e ∷ es) h (k, ks) = ground (arith, StartsAbove-insert b s es h ks)

-- Inserting a segment that meets none keeps the set ascending and disjoint.
pub IsAscending-insert :
    (s : Segment) (es : List Segment)
    → 1 ≤ s.len
    → is_clear es s.start s.len ≡ true
    → IsAscending es
    → IsAscending (insert s es)
unfolding is_clear IsAscending insert StartsAbove
IsAscending-insert s [] h c v = (h, tt, tt)
IsAscending-insert s (e ∷ es) h c (l, above, v) = ground (
  arith,
  IsAscending-insert s es h,
  StartsAbove-insert (e.start + e.len) s es,
  StartsAbove-mono (s.start + s.len) (e.start + e.len) es,
)

StartsAbove-remove :
    (b : ℕ) (s : Segment) (es : List Segment) → StartsAbove b es → StartsAbove b (remove s es).1
unfolding StartsAbove remove
StartsAbove-remove b s [] k = tt
StartsAbove-remove b s (e ∷ es) (k, ks) = ground (arith, StartsAbove-remove b s es ks)

-- Removing any segment keeps it so.
pub IsAscending-remove :
    (s : Segment) (es : List Segment) → IsAscending es → IsAscending (remove s es).1
unfolding IsAscending remove
IsAscending-remove s [] v = tt
IsAscending-remove s (e ∷ es) (l, above, v) =
    ground (arith, IsAscending-remove s es v, StartsAbove-remove (e.start + e.len) s es above)

-- Removing a segment that was inserted where it meets none gives the set back.
pub remove-insert :
    (s : Segment) (es : List Segment)
    → 1 ≤ s.len
    → is_clear es s.start s.len ≡ true
    → IsAscending es
    → remove s (insert s es) ≡ (true, es)
unfolding is_clear IsAscending insert remove
remove-insert s [] h c v = ground arith
remove-insert s (e ∷ es) h c (l, above, v) = ground (arith, remove-insert s es h)
