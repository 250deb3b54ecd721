-- ===== src/VirtualMemory/Reserving.antt =====
-- kernel/virtual_memory/src/lib.rs: what `reserve`, `mark_as_reserved` and `release` promise.
use muffin.Base.{
  ℕ, suc, ◌+◌, ◌-◌, ◌≤◌, ◌<◌, ◌^◌, ◌≡◌, refl, true, false, Option, none, some, List, [], ◌∷◌, ltb,
  arith, length, Bool-cases, inl, inr, ◌⊎◌, ne→==, Option-cases, ok, err,
}
use muffin.VirtualMemory.Segments.{Segment, new_segment, insert}
use muffin.VirtualMemory.Manager.{
  AddrApi, IsAddrApi, VirtualMemoryManager, already_reserved, Search, panicked, spent, found,
  search, grant, reserve, release, mark_as_reserved,
}
use muffin.VirtualMemory.Order.{is_clear, IsAscending, IsAscending-insert, remove-insert}
use muffin.VirtualMemory.Overlaps.{HasRoom, first_met, last_address_low, find_overlapping_lem}
use muffin.VirtualMemory.FirstFit.{
  ending_above-length, Finds, search-Finds, first_met-none, under_or_over,
}

-- The set is in order, and the sums of a reservation of `n` addresses stay in the lower half.
pub record IsReady (m : VirtualMemoryManager) (n : ℕ) : Type 0 where
  pub ascending : IsAscending m.segments
  pub has_room : HasRoom n m.segments
  pub some_memory : 1 ≤ m.mem_size
  pub memory_low : m.mem_start + m.mem_size < 2 ^ 47
  pub request_low : m.mem_start + n < 2 ^ 47

-- `n` addresses from `c` on are in the manager's memory and free.
abbrev pub Fits : VirtualMemoryManager → ℕ → ℕ → Type 0
Fits m n c =
    (m.mem_start ≤ c) × (c + n ≤ m.mem_start + m.mem_size) × (is_clear m.segments c n ≡ true)

-- Granted the lowest place that fits, with nothing but that segment added; or refused, with nothing
-- changed, when no place fits.
unfoldable pub Reserves :
    VirtualMemoryManager → ℕ → Option (Option Segment × VirtualMemoryManager) → Type 0
Reserves m n none = ⊥
Reserves m n (some (none, m')) = (m' ≡ m) × ((c : ℕ) → ¬ Fits m n c)
Reserves m n (some (some s, m')) =
    (s.len ≡ n)
    × Fits m n s.start
    × ((c : ℕ) → c < s.start → ¬ Fits m n c)
    × (m' ≡ record m { segments = insert s m.segments })
    × IsAscending m'.segments

module _ (api : AddrApi) (ok_api : IsAddrApi api) where
  grant-Reserves :
      (m : VirtualMemoryManager) (n : ℕ) (s : Segment)
      → 1 ≤ n
      → IsReady m n
      → Finds m.segments m.mem_start n (found s)
      → Reserves m n (grant api m s)
  unfolding grant Finds
  grant-Reserves m n s h ready (l, from, free, top, before) =
      let none_before : (c : ℕ) → c < s.start → ¬ Fits m n c =
        λ c lt (lo, hi, clear). ground (arith, before c lo lt) in
      let ordered : IsAscending (insert s m.segments) =
        IsAscending-insert s m.segments (omega arith) (rw l free) ready.ascending in
      elim (Bool-cases (ltb (m.mem_start + m.mem_size - 1) (s.start + s.len - 1))) [
        | inl over ↦
            rw
              (
                grant,
                last_address_low api ok_api m.mem_start m.mem_size ready.some_memory
                    ready.memory_low,
                last_address_low api ok_api s.start s.len (omega arith) (omega arith),
                over,
              )
              (unfold Reserves in
                (
                  refl,
                  λ c (lo, hi, clear). elim (under_or_over c s.start) [
                    | inl lt ↦ none_before c lt (lo, hi, clear)
                    | inr ge ↦ ground arith
                  ],
                ))
        | inr within ↦
            rw
              (
                grant,
                last_address_low api ok_api m.mem_start m.mem_size ready.some_memory
                    ready.memory_low,
                last_address_low api ok_api s.start s.len (omega arith) (omega arith),
                within,
              )
              (unfold Reserves in (l, (from, ground arith, free), none_before, refl, ordered))
      ]

  found-Reserves :
      (m : VirtualMemoryManager) (n : ℕ) (out : Search)
      → 1 ≤ n
      → IsReady m n
      → Finds m.segments m.mem_start n out
      → Reserves m n (elim out [ panicked ↦ none | spent ↦ none | found s ↦ grant api m s ])
  found-Reserves m n (found s) h ready f = grant-Reserves m n s h ready f
  found-Reserves m n panicked h ready f = absurd (unfold Finds in f)
  found-Reserves m n spent h ready f = absurd (unfold Finds in f)

  -- For a request that is not empty, on a manager whose sums stay in the lower half, `reserve` panics
  -- nowhere and ends: it grants the lowest place that fits and adds just that segment, or, when no
  -- place fits, returns `None` and changes nothing.
  pub reserve-Reserves :
      (m : VirtualMemoryManager) (n : ℕ) → 1 ≤ n → IsReady m n → Reserves m n (reserve api m n)
  unfolding reserve Reserves
  reserve-Reserves m n h ready =
      rw (reserve, ne→== n 0 (omega arith))
        (found-Reserves m n
          (search (suc (length m.segments)) api m.segments (new_segment m.mem_start n)) h ready
          (search-Finds api ok_api (suc (length m.segments)) m.mem_start n m.segments
            (omega (arith, ending_above-length m.mem_start m.segments)) h ready.request_low
            ready.ascending ready.has_room))

  -- Releasing a segment that `reserve` has just granted, on a manager whose sums stay in the lower half,
  -- finds it and gives the manager back as it was.
  pub release-reserve :
      (m m' : VirtualMemoryManager) (n : ℕ) (s : Segment)
      → 1 ≤ n
      → IsReady m n
      → reserve api m n ≡ some (some s, m')
      → release m' s ≡ (true, m)
  unfolding release Reserves
  release-reserve m m' n s h ready e =
      let (l, (from, hi, clear), lowest, same, ordered) = rw e at (reserve-Reserves m n h ready) in
      rw (same, remove-insert s m.segments (omega arith) (rw l clear) ready.ascending) refl

  first_met-some :
      (es : List Segment) (a n : ℕ) (e : Segment)
      → first_met es a n ≡ some e
      → is_clear es a n ≡ false
  unfolding first_met is_clear
  first_met-some [] a n e h = ground arith
  first_met-some (x ∷ es) a n e h = ground (arith, first_met-some es a n e)

  -- `mark_as_reserved`, for a segment that is not empty and sums in the lower half: a segment that meets
  -- a reserved one is refused and nothing changes; any other is added, and the set stays in order.
  mark_as_reserved_lem :
      (m : VirtualMemoryManager) (s : Segment)
      → 1 ≤ s.len
      → s.start + s.len < 2 ^ 47
      → IsAscending m.segments
      → HasRoom s.len m.segments
      → let m' = record m { segments = insert s m.segments } in
        ((is_clear m.segments s.start s.len ≡ false)
          × (mark_as_reserved api m s ≡ some (err already_reserved, m)))
        ⊎ ((is_clear m.segments s.start s.len ≡ true)
            × (mark_as_reserved api m s ≡ some (ok tt, m'))
            × IsAscending m'.segments)
  unfolding mark_as_reserved
  mark_as_reserved_lem m s h low v room = elim (Option-cases (first_met m.segments s.start s.len)) [
    | inl none_met ↦
        let clear = first_met-none m.segments s.start s.len none_met in
        inr (
          clear,
          rw (mark_as_reserved, find_overlapping_lem api ok_api m.segments s h low v room, none_met)
              refl,
          IsAscending-insert s m.segments h clear v,
        )
    | inr (e, met) ↦ inl (
      first_met-some m.segments s.start s.len e met,
      rw (mark_as_reserved, find_overlapping_lem api ok_api m.segments s h low v room, met) refl,
    )
  ]
