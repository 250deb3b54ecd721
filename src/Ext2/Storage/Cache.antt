-- ===== src/Ext2/Storage/Cache.antt =====
-- kernel/ext2/src/read.rs: the cache of indirect blocks, most recently used first.
use muffin.Base.{ℕ, Option, none, some, List, [], ◌∷◌, length, get_elem?, ◌==◌, if◌then◌else◌}

-- The address of a block and the pointers in it.
abbrev pub Entry : Type 0
Entry = ℕ × List (Option ℕ)

abbrev pub IndirectCache : Type 0
IndirectCache = List Entry

abbrev pub indirect_cache_capacity : ℕ
indirect_cache_capacity = 4

-- An entry passed over on the way to the one that is found.
unfoldable pub pass_over : Entry → Option (Entry × IndirectCache) → Option (Entry × IndirectCache)
pass_over e none = none
pass_over e (some (found, others)) = some (found, e ∷ others)

-- The first entry of a block, and the others in their order.
unfoldable pub extract : ℕ → IndirectCache → Option (Entry × IndirectCache)
unfolding pass_over
extract addr [] = none
extract addr (e ∷ es) =
    let rest = extract addr es in if e.0 == addr then some (e, es) else pass_over e rest

-- `lookup`: `rotate_right(1)` of the entries up to the one found brings that one to the front.
unfoldable pub lookup : ℕ → ℕ → IndirectCache → Option (Option ℕ) × IndirectCache
unfolding extract
lookup addr index es = elim (extract addr es) [
  | none ↦ (none, es)
  | some (found, others) ↦ (get_elem? found.1 index, found ∷ others)
]

-- `Vec::pop`.
unfoldable pub pop_last : IndirectCache → IndirectCache
pop_last [] = []
pop_last (e ∷ []) = []
pop_last (e ∷ (d ∷ es)) = e ∷ pop_last (d ∷ es)

unfoldable pub insert_table : ℕ → List (Option ℕ) → IndirectCache → IndirectCache
unfolding pop_last
insert_table addr table es =
    (addr, table) ∷ (if length es == indirect_cache_capacity then pop_last es else es)

unfoldable pub invalidate : ℕ → IndirectCache → IndirectCache
invalidate addr [] = []
invalidate addr (e ∷ es) = let rest = invalidate addr es in if e.0 == addr then rest else e ∷ rest
