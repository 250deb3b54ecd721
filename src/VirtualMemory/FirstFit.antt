-- ===== src/VirtualMemory/FirstFit.antt =====
-- kernel/virtual_memory/src/lib.rs: `reserve` is first fit.
use muffin.Base.{
  ℕ, zero, suc, ◌+◌, ◌≤◌, ◌<◌, ◌^◌, ◌≡◌, refl, true, false, none, some, List, [], ◌∷◌, ltb,
  if◌then◌else◌, arith, length, Bool-cases, inl, inr, ◌⊎◌, Option-cases,
}
use muffin.VirtualMemory.Segments.{Segment, new_segment}
use muffin.VirtualMemory.Manager.{AddrApi, IsAddrApi, Search, panicked, spent, found, search}
use muffin.VirtualMemory.Order.{meets, is_clear, IsAscending}
use muffin.VirtualMemory.Overlaps.{HasRoom, first_met, find_overlapping_lem}

-- How many segments end above `a`.
unfoldable pub ending_above : ℕ → List Segment → ℕ
ending_above a [] = 0
ending_above a (e ∷ es) = (if ltb a (e.start + e.len) then 1 else 0) + ending_above a es

pub ending_above-length : (a : ℕ) (es : List Segment) → ending_above a es ≤ length es
unfolding ending_above
ending_above-length a [] = omega arith
ending_above-length a (e ∷ es) = ground (arith, ending_above-length a es)

ending_above_mono : (a b : ℕ) (es : List Segment) → a ≤ b → ending_above b es ≤ ending_above a es
unfolding ending_above
ending_above_mono a b [] h = omega arith
ending_above_mono a b (e ∷ es) h = ground (arith, ending_above_mono a b es h)

-- Where a segment is met, going on behind it leaves fewer segments ahead, and skips no free place.
first_met_skips :
    (es : List Segment) (a n : ℕ) (e : Segment)
    → first_met es a n ≡ some e
    → (a < e.start + e.len) × (ending_above (e.start + e.len) es < ending_above a es)
unfolding first_met ending_above
first_met_skips [] a n e h = ground arith
first_met_skips (x ∷ es) a n e h = elim (Bool-cases (meets a n x)) [
  | inl met ↦ ground (arith, ending_above_mono a (e.start + e.len) es)
  | inr not_met ↦ ground (arith, first_met_skips es a n e)
]

pub first_met_blocks :
    (es : List Segment) (a n : ℕ) (e : Segment) (c : ℕ)
    → first_met es a n ≡ some e
    → a ≤ c
    → c < e.start + e.len
    → is_clear es c n ≡ false
unfolding first_met is_clear
first_met_blocks [] a n e c h l u = ground arith
first_met_blocks (x ∷ es) a n e c h l u = elim (Bool-cases (meets a n x)) [
  | inl met ↦ ground arith
  | inr not_met ↦ ground (arith, first_met_blocks es a n e c)
]

pub first_met-none :
    (es : List Segment) (a n : ℕ) → first_met es a n ≡ none → is_clear es a n ≡ true
unfolding first_met is_clear
first_met-none [] a n h = refl
first_met-none (x ∷ es) a n h = ground (arith, first_met-none es a n)

first_met_room :
    (es : List Segment) (a n : ℕ) (e : Segment)
    → first_met es a n ≡ some e
    → HasRoom n es
    → e.start + e.len + n < 2 ^ 47
unfolding first_met HasRoom
first_met_room [] a n e h r = ground arith
first_met_room (x ∷ es) a n e h (r, rs) = ground (arith, first_met_room es a n e)

-- The search ends at the first free place from `a` on.
unfoldable pub Finds : List Segment → ℕ → ℕ → Search → Type 0
Finds es a n (found s) =
    (s.len ≡ n)
    × (a ≤ s.start)
    × (is_clear es s.start n ≡ true)
    × (s.start + n < 2 ^ 47)
    × ((c : ℕ) → a ≤ c → c < s.start → is_clear es c n ≡ false)
Finds es a n _ = ⊥

pub under_or_over : (a b : ℕ) → (a < b) ⊎ (b ≤ a)
under_or_over a b = elim (Bool-cases (ltb a b)) [
  | inl lt ↦ inl (ground arith)
  | inr ge ↦ inr (ground arith)
]

module _ (api : AddrApi) (ok_api : IsAddrApi api) where
  moved-Finds :
      (es : List Segment) (a n : ℕ) (e : Segment) (out : Search)
      → first_met es a n ≡ some e
      → Finds es (e.start + e.len) n out
      → Finds es a n out
  unfolding Finds
  moved-Finds es a n e (found s) met (l, b, c, top, before) = (
    l,
    omega (arith, first_met_skips es a n e met),
    c,
    top,
    λ k lo hi. elim (under_or_over k (e.start + e.len)) [
      | inl under ↦ first_met_blocks es a n e k met lo under
      | inr over ↦ before k over hi
    ],
  )
  moved-Finds es a n e panicked met h = h
  moved-Finds es a n e spent met h = h

  pub search-Finds :
      (k a n : ℕ) (es : List Segment)
      → ending_above a es < k
      → 1 ≤ n
      → a + n < 2 ^ 47
      → IsAscending es
      → HasRoom n es
      → Finds es a n (search k api es (new_segment a n))
  unfolding search
  search-Finds zero a n es f h t v r = ground arith
  search-Finds (suc k) a n es f h t v r = elim (Option-cases (first_met es a n)) [
    | inl none_met ↦
        rw (search, find_overlapping_lem api ok_api es (new_segment a n) h t v r, none_met)
          (unfold Finds in
            (refl, omega arith, first_met-none es a n none_met, t, λ c lo hi. ground arith))
    | inr (e, met) ↦
        let room : e.start + e.len + n < 2 ^ 47 = first_met_room es a n e met r in
        rw
          (
            search,
            find_overlapping_lem api ok_api es (new_segment a n) h t v r,
            met,
            ok_api.add_low e.start e.len (omega arith),
          )
          (moved-Finds es a n e (search k api es (new_segment (e.start + e.len) n)) met (
            search-Finds k (e.start + e.len) n es (omega (arith, first_met_skips es a n e met)) h
              room v r))
  ]
