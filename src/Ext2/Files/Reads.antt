-- ===== src/Ext2/Files/Reads.antt =====
-- kernel/ext2/src/inode.rs, read.rs: reads of a file's bytes, in runs of blocks that follow each other on the device.
use Prim.Native.Nat.{bit_and, bit_or, min}
use muffin.Base.{
  ℕ, zero, suc, ◌+◌, ◌-◌, ◌*◌, ◌/◌, ◌%◌, ◌^◌, ◌&&◌, ◌||◌, Option, none, some, List, [], ◌∷◌, ◌++◌,
  length, drop, replicate, ltb, leb, ◌==◌, if◌then◌else◌, ok,
}
use muffin.BlockDevice.Sectors.{slice}
use muffin.Ext2.Storage.Cache.{IndirectCache}
use muffin.Ext2.Storage.Filesystem.{DiskApi, Ext2Fs, block_size, Fallible, outcome_then, read_block}
use muffin.Ext2.Records.InodeRecord.{Inode}
use muffin.Ext2.Storage.Pointers.{Cached, cached_then, resolve_block_index}

-- `Inode::typ`: the bits that `Type` names.
unfoldable pub inode_typ : Inode → ℕ
inode_typ inode = bit_and inode.type_and_perm 0xF000

abbrev pub type_directory : ℕ
type_directory = 0x4000

-- `Inode::len`: the bit or of the halves.
unfoldable pub file_len : Inode → ℕ
unfolding inode_typ
file_len inode =
    if inode_typ inode == type_directory
    then inode.byte_size_lower
    else bit_or inode.byte_size_lower (inode.byte_size_upper_or_dir_acl * 2 ^ 32)

-- How many holes the pointers start with.
unfoldable pub hole_length : List (Option ℕ) → ℕ
hole_length [] = 0
hole_length (none ∷ ps) = suc (hole_length ps)
hole_length (some a ∷ ps) = 0

-- How many pointers continue a run after `previous`, where the number after the last does not exist.
unfoldable pub run_length : ℕ → List (Option ℕ) → ℕ
run_length previous [] = 0
run_length previous (none ∷ ps) = 0
run_length previous (some next ∷ ps) =
    let rest = run_length next ps in
    if ltb (previous + 1) (2 ^ 32) && (previous + 1 == next) then suc rest else 0

-- The bytes of a run before those of the runs after it.
unfoldable pub before_rest : Fallible (List ℕ) → Fallible (List ℕ) → Fallible (List ℕ)
unfolding outcome_then
before_rest first rest =
    outcome_then first (λ bs. outcome_then rest (λ more. some (ok (bs ++ more))))

-- A read that leaves the cache alone.
unfoldable pub keep_cache : {A : Type 0} → IndirectCache → Fallible A → Cached A
keep_cache c none = none
keep_cache c (some x) = some (c, x)

-- The copy of the requested part out of the blocks.
unfoldable pub requested : ℕ → ℕ → ℕ → List ℕ → Fallible (List ℕ)
unfolding slice
requested relative left n bytes = elim (slice bytes relative (min (min (length bytes) left) n)) [
  | none ↦ none
  | some part ↦ some (ok part)
]

module _ {D E : Type 0} (api : DiskApi D E) where
  -- The read of `n` blocks from the address of the first on.
  unfoldable pub read_run : Ext2Fs D → ℕ → ℕ → Fallible (List ℕ)
  unfolding read_block block_size
  read_run fs first n = read_block api fs first (n * block_size fs.superblock)

  -- The loop over the runs, on fuel: what the buffer then holds for the pointers.
  unfoldable pub read_runs : ℕ → Ext2Fs D → List (Option ℕ) → Fallible (List ℕ)
  unfolding hole_length run_length read_run before_rest block_size
  read_runs fuel fs [] = some (ok [])
  read_runs zero fs (p ∷ ps) = none
  read_runs (suc fuel) fs (none ∷ ps) =
      let more = hole_length ps in
      before_rest (some (ok (replicate (suc more * block_size fs.superblock) 0)))
        (read_runs fuel fs (drop more ps))
  read_runs (suc fuel) fs (some first ∷ ps) =
      let more = run_length first ps in
      before_rest (read_run fs first (suc more)) (read_runs fuel fs (drop more ps))

  -- The pointers of `n` blocks from an index on.
  unfoldable pub resolve_blocks :
      Ext2Fs D → Inode → ℕ → ℕ → IndirectCache → Cached (List (Option ℕ))
  unfolding resolve_block_index cached_then
  resolve_blocks fs inode start zero c = some (c, ok [])
  resolve_blocks fs inode start (suc n) c =
      cached_then (resolve_block_index api fs inode start c) (λ c' p.
        cached_then (resolve_blocks fs inode (start + 1) n c') (λ c'' ps. some (c'', ok (p ∷ ps))))

  -- `read_blocks_from_inode` into a buffer of `n` blocks.
  unfoldable pub read_blocks_from_inode : Ext2Fs D → Inode → ℕ → ℕ → IndirectCache → Cached (List ℕ)
  unfolding resolve_blocks read_runs keep_cache cached_then
  read_blocks_from_inode fs inode start n c =
      cached_then (resolve_blocks fs inode start n c)
        (λ c' pointers. keep_cache c' (read_runs (length pointers) fs pointers))

  -- The read of the blocks from `start_block` to `end_block`, and the copy.
  unfoldable pub read_span : Ext2Fs D → Inode → ℕ → ℕ → ℕ → ℕ → ℕ → IndirectCache → Cached (List ℕ)
  unfolding read_blocks_from_inode requested keep_cache cached_then
  read_span fs inode start_block end_block relative left n c =
      if ltb end_block start_block
      then none
      else cached_then (read_blocks_from_inode fs inode start_block (end_block - start_block + 1) c)
          (λ c' bytes. keep_cache c' (requested relative left n bytes))

  -- `read_from_file` into a buffer of `n` bytes: the bytes that were put at its front.
  unfoldable pub read_from_file : Ext2Fs D → Inode → ℕ → ℕ → IndirectCache → Cached (List ℕ)
  unfolding file_len block_size read_span
  read_from_file fs inode offset n c =
      if leb (file_len inode) offset
      then some (c, ok [])
      else (let size = block_size fs.superblock in
          let at = offset % 2 ^ 32 in
          let stop = at + n % 2 ^ 32 in
          if (size == 0) || ((stop == 0) || leb (2 ^ 32) stop)
          then none
          else read_span fs inode (at / size) ((stop - 1) / size) (at % size) (file_len inode - at)
              n c)
