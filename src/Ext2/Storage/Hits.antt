-- ===== src/Ext2/Storage/Hits.antt =====
-- kernel/ext2/src/read.rs: one pointer resolved through a cache that agrees with the device.
use muffin.Base.{
  ℕ, ◌≡◌, refl, Option, none, some, List, [], ◌∷◌, length, get_elem?, ◌==◌, ok, err, ok_or, arith,
  Bool-cases, Option-cases, inl, inr,
}
use muffin.Ext2.Storage.Cache.{
  IndirectCache, Entry, extract, pass_over, lookup, pop_last, insert_table,
}
use muffin.Ext2.Storage.Coherence.{table_at, pointer_at, Agrees, Follows}
use muffin.Ext2.Storage.Filesystem.{
  invalid_block_index, DiskApi, Ext2Fs, block_size, Fallible, outcome_then, read_block,
}
use muffin.Ext2.Storage.Pointers.{
  Cached, cached_then, table_of, resolve_in_table, resolve_from_disk, resolve_after_lookup,
  resolve_indirect_ptr,
}

module _ {D E : Type 0} (api : DiskApi D E) (fs : Ext2Fs D) where
  pop_last-Agrees : (es : IndirectCache) → Agrees api fs es → Agrees api fs (pop_last es)
  unfolding Agrees pop_last
  pop_last-Agrees [] h = tt
  pop_last-Agrees (e ∷ []) h = tt
  pop_last-Agrees (e ∷ (d ∷ es)) (h, hs) = (h, pop_last-Agrees (d ∷ es) hs)

  insert_table-Agrees :
      (addr : ℕ) (table : List (Option ℕ)) (es : IndirectCache)
      → table_at api fs addr ≡ some (ok table)
      → Agrees api fs es
      → Agrees api fs (insert_table addr table es)
  unfolding Agrees insert_table
  insert_table-Agrees addr table es h hs = elim (Bool-cases (length es == 4)) [
    | inl full ↦ rw (insert_table, full) (h, pop_last-Agrees es hs)
    | inr room ↦ rw (insert_table, room) (h, hs)
  ]

  -- What `extract` finds belongs to the address.
  Extracted : ℕ → Option (Entry × IndirectCache) → Type 0
  Extracted addr none = Unit {0}
  Extracted addr (some (found, others)) =
      (table_at api fs addr ≡ some (ok found.1)) × Agrees api fs (found ∷ others)

  pass_over-Extracted :
      (addr : ℕ) (e : Entry) (o : Option (Entry × IndirectCache))
      → table_at api fs e.0 ≡ some (ok e.1)
      → Extracted addr o
      → Extracted addr (pass_over e o)
  unfolding Extracted pass_over Agrees
  pass_over-Extracted addr e none h x = tt
  pass_over-Extracted addr e (some (found, others)) h (t, (a, as')) = (t, (a, (h, as')))

  extract-Extracted :
      (addr : ℕ) (es : IndirectCache) → Agrees api fs es → Extracted addr (extract addr es)
  unfolding Agrees extract Extracted
  extract-Extracted addr [] h = tt
  extract-Extracted addr (e ∷ es) (h, hs) = elim (Bool-cases (e.0 == addr)) [
    | inl here ↦ let same : e.0 ≡ addr = ground (arith, here) in rw here (rw same at h, (h, hs))
    | inr other ↦
        rw other (pass_over-Extracted addr e (extract addr es) h (extract-Extracted addr es hs))
  ]

  pub outcome-Follows :
      {A B : Type 0} (r : Cached A) (x : Fallible A) (k : IndirectCache → A → Cached B)
      (l : A → Fallible B)
      → Follows api fs r x
      → ((c : IndirectCache) (a : A) → Agrees api fs c → Follows api fs (k c a) (l a))
      → Follows api fs (cached_then r k) (outcome_then x l)
  unfolding Follows cached_then outcome_then
  outcome-Follows none x k l h f = rw h refl
  outcome-Follows (some (c, err e)) x k l (a, h) f = rw h (a, refl)
  outcome-Follows (some (c, ok v)) x k l (a, h) f = rw h (f c v a)

  resolve_in_table-Follows :
      (addr index : ℕ) (table : List (Option ℕ)) (c : IndirectCache)
      → table_at api fs addr ≡ some (ok table)
      → Agrees api fs c
      → Follows api fs
          (resolve_in_table addr index table c)
          (some (ok_or (get_elem? table index) (invalid_block_index index)))
  unfolding resolve_in_table Follows
  resolve_in_table-Follows addr index table c h hs = elim (Option-cases (get_elem? table index)) [
    | inl out ↦ rw (resolve_in_table, out) (hs, refl)
    | inr (resolved, found) ↦
        rw (resolve_in_table, found) (insert_table-Agrees addr table c h hs, refl)
  ]

  resolve_from_disk-Follows :
      (addr index : ℕ) (c : IndirectCache)
      → Agrees api fs c
      → Follows api fs (resolve_from_disk api fs addr index c) (pointer_at api fs (some addr) index)
  unfolding resolve_from_disk pointer_at table_at outcome_then Follows
  resolve_from_disk-Follows addr index c hs =
      let k : (r : Fallible (List ℕ))
          → read_block api fs addr (block_size fs.superblock) ≡ r
          → Follows api fs (resolve_from_disk api fs addr index c)
              (pointer_at api fs (some addr) index) =
        elim [
          | none ↦ λ e. rw (resolve_from_disk, pointer_at, table_at, e) refl
          | some (err x) ↦ λ e. rw (resolve_from_disk, pointer_at, table_at, e) (hs, refl)
          | some (ok bytes) ↦ λ e.
              rw (resolve_from_disk, pointer_at, table_at, e)
                (resolve_in_table-Follows addr index (table_of bytes) c (rw (table_at, e) refl) hs)
        ] in
      k (read_block api fs addr (block_size fs.superblock)) refl

  pub resolve_indirect_ptr-Follows :
      (ptr : Option ℕ) (index : ℕ) (c : IndirectCache)
      → Agrees api fs c
      → Follows api fs (resolve_indirect_ptr api fs ptr index c) (pointer_at api fs ptr index)
  unfolding resolve_indirect_ptr resolve_after_lookup pointer_at Follows lookup Extracted
  resolve_indirect_ptr-Follows none index c hs = (hs, refl)
  resolve_indirect_ptr-Follows (some addr) index c hs =
      let k : (o : Option (Entry × IndirectCache))
          → extract addr c ≡ o
          → Extracted addr o
          → Follows api fs (resolve_indirect_ptr api fs (some addr) index c)
              (pointer_at api fs (some addr) index) =
        elim [
          | none ↦ λ e x.
              let miss : lookup addr index c ≡ (none, c) = rw (lookup, e) refl in
              rw (resolve_indirect_ptr, miss) (resolve_from_disk-Follows addr index c hs)
          | some (found, others) ↦ λ e (same, agree).
              elim (Option-cases (get_elem? found.1 index)) [
                | inl out ↦
                    let miss : lookup addr index c ≡ (none, found ∷ others) =
                      rw (lookup, e, out) refl in
                    rw (resolve_indirect_ptr, miss)
                      (resolve_from_disk-Follows addr index (found ∷ others) agree)
                | inr (cached, hit) ↦
                    let there : lookup addr index c ≡ (some cached, found ∷ others) =
                      rw (lookup, e, hit) refl in
                    rw (resolve_indirect_ptr, there, pointer_at, same, hit) (agree, refl)
              ]
        ] in
      k (extract addr c) refl (extract-Extracted addr c hs)
