-- ===== src/Ext2/Storage/Transparent.antt =====
-- kernel/ext2/src/read.rs: the cache never changes what a read resolves to.
use mathlib.Core.Path.{subst}
use muffin.Base.{
  ℕ, ◌+◌, ◌-◌, ◌*◌, ◌/◌, ◌%◌, ◌^◌, ◌<◌, ◌≡◌, refl, sym, true, false, Option, none, some, [], ◌∷◌,
  ltb, leb, ◌==◌, ok, err, arith, Bool-cases, inl, inr,
}
use muffin.Ext2.Storage.Cache.{IndirectCache}
use muffin.Ext2.Storage.Coherence.{pointer_at, follow, block_pointer, Agrees, Follows}
use muffin.Ext2.Storage.Filesystem.{
  DiskApi, Ext2Fs, block_address, checked_u32, block_size, Fallible, outcome_then,
}
use muffin.Ext2.Records.InodeRecord.{Inode}
use muffin.Ext2.Storage.Pointers.{
  indirect_pointer_limits, resolve_indirect_ptr, resolve_double_indirect_ptr,
  resolve_triple_indirect_ptr, resolve_block_index,
}
use muffin.Ext2.Storage.Hits.{outcome-Follows, resolve_indirect_ptr-Follows}

module _ {D E : Type 0} (api : DiskApi D E) (fs : Ext2Fs D) where
  outcome_then_ok : {A : Type 0} (r : Fallible A) → outcome_then r (λ a. some (ok a)) ≡ r
  unfolding outcome_then
  outcome_then_ok none = refl
  outcome_then_ok (some (err e)) = refl
  outcome_then_ok (some (ok a)) = refl

  follow_one :
      (ptr : Option ℕ) (index : ℕ) (c : IndirectCache)
      → Agrees api fs c
      → Follows api fs (resolve_indirect_ptr api fs ptr index c) (follow api fs ptr (index ∷ []))
  unfolding follow
  follow_one ptr index c hs =
      subst (Follows api fs (resolve_indirect_ptr api fs ptr index c))
        (sym (outcome_then_ok (pointer_at api fs ptr index)))
        (resolve_indirect_ptr-Follows api fs ptr index c hs)

  resolve_double_indirect_ptr-Follows :
      (ptr : Option ℕ) (index : ℕ) (c : IndirectCache)
      → let size = block_size fs.superblock / 4 in
        0 < size
        → Agrees api fs c
        → Follows api fs
            (resolve_double_indirect_ptr api fs ptr index c)
            (follow api fs ptr ((index / size) ∷ (index % size) ∷ []))
  unfolding resolve_double_indirect_ptr follow
  resolve_double_indirect_ptr-Follows ptr index c pos hs =
      let size = block_size fs.superblock / 4 in
      let divides : (size == 0) ≡ false = ground arith in
      rw (resolve_double_indirect_ptr, divides)
        (outcome-Follows api fs (resolve_indirect_ptr api fs ptr (index / size) c)
          (pointer_at api fs ptr (index / size))
          (λ c' single. resolve_indirect_ptr api fs single (index % size) c')
          (λ single. follow api fs single ((index % size) ∷ []))
          (resolve_indirect_ptr-Follows api fs ptr (index / size) c hs)
          (λ c' single agree. follow_one single (index % size) c' agree))

  resolve_triple_indirect_ptr-Follows :
      (ptr : Option ℕ) (index : ℕ) (c : IndirectCache)
      → let size = block_size fs.superblock / 4 in
        let within = index % (size * size) in
        0 < size
        → size * size < 2 ^ 32
        → Agrees api fs c
        → Follows api fs
            (resolve_triple_indirect_ptr api fs ptr index c)
            (follow api fs ptr ((index / (size * size)) ∷ (within / size) ∷ (within % size) ∷ []))
  unfolding resolve_triple_indirect_ptr follow
  resolve_triple_indirect_ptr-Follows ptr index c pos small hs =
      let size = block_size fs.superblock / 4 in
      let checked : checked_u32 (size * size) ≡ some (size * size) =
        unfold checked_u32 in ground arith in
      let area : 0 < size * size = grind arith in
      let divides : (size * size == 0) ≡ false = ground arith in
      rw (resolve_triple_indirect_ptr, checked, divides)
        (outcome-Follows api fs (resolve_indirect_ptr api fs ptr (index / (size * size)) c)
          (pointer_at api fs ptr (index / (size * size)))
          (λ c' double. resolve_double_indirect_ptr api fs double (index % (size * size)) c')
          (λ double.
            follow api fs double
              ((index % (size * size) / size) ∷ (index % (size * size) % size) ∷ []))
          (resolve_indirect_ptr-Follows api fs ptr (index / (size * size)) c hs)
          (λ c' double agree.
            resolve_double_indirect_ptr-Follows double (index % (size * size)) c' pos agree))

  -- For every device, file and block index: a lookup through a cache that agrees with the device panics, fails or gives the address
  -- exactly as the format defines it without a cache, and leaves a cache that agrees with the device. The condition is that a block holds
  -- a pointer and the limits fit 32 bits.
  pub resolve_block_index-Follows :
      (inode : Inode) (index : ℕ) (c : IndirectCache)
      → let size = block_size fs.superblock / 4 in
        0 < size
        → 12 + size + size * size < 2 ^ 32
        → Agrees api fs c
        → Follows api fs
            (resolve_block_index api fs inode index c)
            (block_pointer api fs inode index)
  unfolding resolve_block_index block_pointer Follows
  resolve_block_index-Follows inode index c pos small hs =
      let size = block_size fs.superblock / 4 in
      let limits : indirect_pointer_limits fs.superblock
          ≡ some (12, (12 + size, 12 + size + size * size)) =
        unfold indirect_pointer_limits checked_u32 in ground arith in
      elim (Bool-cases (ltb index 12)) [
        | inl direct ↦ rw (resolve_block_index, limits, direct, block_pointer) (hs, refl)
        | inr beyond ↦ elim (Bool-cases (ltb index (12 + size))) [
          | inl single ↦
              let at : ltb (index - 12) size ≡ true = ground arith in
              rw (resolve_block_index, limits, beyond, single, block_pointer, at)
                (follow_one (block_address inode.singly_indirect_block_ptr) (index - 12) c hs)
          | inr beyond1 ↦
              let at1 : ltb (index - 12) size ≡ false = ground arith in
              let i2 : index - (12 + size) ≡ index - 12 - size = omega arith in
              elim (Bool-cases (ltb index (12 + size + size * size))) [
                | inl double ↦
                    let at : ltb (index - 12 - size) (size * size) ≡ true = ground arith in
                    rw
                      (
                        resolve_block_index, limits, beyond, beyond1, double, i2, block_pointer,
                        at1, at,
                      )
                      (resolve_double_indirect_ptr-Follows
                        (block_address inode.doubly_indirect_block_ptr) (index - 12 - size) c pos
                        hs)
                | inr beyond2 ↦
                    let at2 : ltb (index - 12 - size) (size * size) ≡ false = ground arith in
                    let i3 : index - (12 + size + size * size) ≡ index - 12 - size - size * size =
                      omega arith in
                    elim (Bool-cases (leb (12 + size + size * size + size * size * size) index)) [
                      | inl out ↦
                          let at : ltb (index - 12 - size - size * size) (size * size * size)
                              ≡ false =
                            ground arith in
                          rw
                            (
                              resolve_block_index, limits, beyond, beyond1, beyond2, out,
                              block_pointer, at1, at2, at,
                            )
                            (hs, refl)
                      | inr triple ↦
                          let at : ltb (index - 12 - size - size * size) (size * size * size)
                              ≡ true =
                            ground arith in
                          rw
                            (
                              resolve_block_index, limits, beyond, beyond1, beyond2, triple, i3,
                              block_pointer, at1, at2, at,
                            )
                            (resolve_triple_indirect_ptr-Follows
                              (block_address inode.triply_indirect_block_ptr)
                              (index - 12 - size - size * size) c pos (omega arith) hs)
                    ]
              ]
        ]
      ]
