-- ===== src/VirtualMemory/Segments.antt =====
-- kernel/virtual_memory/src/segment.rs, and the `BTreeSet<Segment>` as an ascending list: segments are
-- ordered by their start, then by their length.
use muffin.Base.{ℕ, Bool, true, false, ◌&&◌, ◌||◌, List, [], ◌∷◌, ltb, ◌==◌, if◌then◌else◌}

pub record Segment : Type 0 where
  pub start : ℕ
  pub len : ℕ

-- `Segment::new`.
abbrev pub new_segment : ℕ → ℕ → Segment
new_segment a n = record { start = a; len = n }

abbrev pub segment_eq : Segment → Segment → Bool
segment_eq s e = (s.start == e.start) && (s.len == e.len)

-- The derived order.
abbrev pub segment_lt : Segment → Segment → Bool
segment_lt s e = ltb s.start e.start || ((s.start == e.start) && ltb s.len e.len)

-- `BTreeSet::insert`: an equal element stays.
unfoldable pub insert : Segment → List Segment → List Segment
insert s [] = s ∷ []
insert s (e ∷ es) =
    let rest = insert s es in
    if segment_eq s e then e ∷ es else (if segment_lt s e then s ∷ e ∷ es else e ∷ rest)

-- `BTreeSet::remove`: whether the element was there, and the set without it.
unfoldable pub remove : Segment → List Segment → Bool × List Segment
remove s [] = (false, [])
remove s (e ∷ es) =
    let rest = remove s es in if segment_eq s e then (true, es) else (rest.0, e ∷ rest.1)
