-- ===== src/Ext2/Storage/Blocks.antt =====
-- kernel/ext2/src/lib.rs: writes of blocks, which drop the block from the cache.
use muffin.Base.{ℕ, Option, none, some, List, Result, ok, err}
use muffin.Ext2.Storage.Cache.{IndirectCache, invalidate}
use muffin.Ext2.Storage.Filesystem.{Error, device_write, DiskApi, Ext2Fs, resolve_block_offset}

-- The file system and its cache.
pub record MountedFs (D : Type 0) : Type 0 where
  pub fs : Ext2Fs D
  pub indirect_cache : IndirectCache

-- What a computation that changes the file system gives: the state after it, also when it fails.
abbrev pub Ran : Type 0 → Type 0 → Type 0
Ran D A = Option (MountedFs D × Result A Error)

module _ {D E : Type 0} (api : DiskApi D E) where
  -- A write to the device whose error is reported as `e`.
  unfoldable pub write_to_device : Error → ℕ → List ℕ → MountedFs D → Ran D ℕ
  write_to_device e offset bs s = elim (api.write_bytes offset bs s.fs.block_device) [
    | none ↦ none
    | some (d, err _) ↦ some (record s { fs = record s.fs { block_device = d } }, err e)
    | some (d, ok n) ↦ some (record s { fs = record s.fs { block_device = d } }, ok n)
  ]

  unfoldable pub write_block : ℕ → List ℕ → MountedFs D → Ran D ℕ
  unfolding invalidate resolve_block_offset write_to_device
  write_block addr bs s =
      let s' = record s { indirect_cache = invalidate addr s.indirect_cache } in
      elim (resolve_block_offset api s.fs addr) [
        | none ↦ none
        | some offset ↦ write_to_device device_write offset bs s'
      ]
