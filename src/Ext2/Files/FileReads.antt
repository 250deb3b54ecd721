-- ===== src/Ext2/Files/FileReads.antt =====
-- kernel/ext2/src/read.rs: a read of a file gives the bytes of the file at its offset.
use Prim.Native.Nat.{min}
use mathlib.Core.Path.{subst}
use native.Mathlib.Nat.{mod-lt, mod-add-div'}
use muffin.Base.{
  ℕ, zero, suc, ◌+◌, ◌-◌, ◌*◌, ◌/◌, ◌%◌, ◌^◌, ◌≤◌, ◌<◌, ◌≡◌, ◌∙◌, refl, ap, true, false, ◌||◌,
  Option, none, some, List, [], ◌∷◌, length, take, drop, ltb, leb, ◌==◌, ok, arith,
}
use muffin.BlockDevice.Reading.{times-lt, times-add}
use muffin.BlockDevice.Sectors.{slice}
use muffin.Ext2.Storage.Cache.{IndirectCache}
use muffin.Ext2.Storage.Coherence.{block_pointer, Agrees, Follows}
use muffin.Ext2.Files.FileBytes.{length-file_blocks, file_blocks_range}
use muffin.Ext2.Storage.Filesystem.{DiskApi, Ext2Fs, Fallible, block_size}
use muffin.Ext2.Storage.Flat.{FlatDisk}
use muffin.Ext2.Records.InodeRecord.{Inode}
use muffin.Ext2.Storage.Pointers.{Cached, cached_then, resolve_block_index}
use muffin.Ext2.Files.Reads.{
  file_len, resolve_blocks, keep_cache, read_blocks_from_inode, requested, read_span,
  read_from_file,
}
use muffin.Ext2.Files.Runs.{file_blocks, AllInDevice, drop-AllInDevice, read_runs_lem}
use muffin.Ext2.Storage.Transparent.{resolve_block_index-Follows}

length-take-drop :
    {A : Type 0} (start n : ℕ) (ps : List A)
    → start + n ≤ length ps
    → length (take n (drop start ps)) ≡ n
length-take-drop zero zero ps h = refl
length-take-drop zero (suc n) [] h = absurd (omega (arith, h))
length-take-drop zero (suc n) (p ∷ ps) h = ap suc (length-take-drop zero n ps (omega (arith, h)))
length-take-drop (suc start) zero ps h = refl
length-take-drop (suc start) (suc n) [] h = absurd (omega (arith, h))
length-take-drop (suc start) (suc n) (p ∷ ps) h =
    length-take-drop start (suc n) ps (omega (arith, h))

module _ {D E : Type 0} (api : DiskApi D E) (flat : FlatDisk api) (fs : Ext2Fs D) where
  -- The pointers of a file, one after the other from a block on.
  unfoldable pub Maps : Inode → ℕ → List (Option ℕ) → Type 0
  unfolding block_pointer
  Maps inode start [] = Unit {0}
  Maps inode start (p ∷ ps) =
      (block_pointer api fs inode start ≡ some (ok p)) × Maps inode (start + 1) ps

  drop-Maps :
      (inode : Inode) (at n : ℕ) (ps : List (Option ℕ))
      → Maps inode at ps
      → Maps inode (at + n) (drop n ps)
  unfolding Maps
  drop-Maps inode at zero ps h = subst (λ k. Maps inode k ps) {x = at} {y = at + 0} (omega arith) h
  drop-Maps inode at (suc n) [] h = tt
  drop-Maps inode at (suc n) (p ∷ ps) (_, h) =
      subst (λ k. Maps inode k (drop n ps)) {x = at + 1 + n} {y = at + suc n} (omega arith)
        (drop-Maps inode (at + 1) n ps h)

  take-Maps :
      (inode : Inode) (at n : ℕ) (ps : List (Option ℕ))
      → Maps inode at ps
      → Maps inode at (take n ps)
  unfolding Maps
  take-Maps inode at zero ps h = tt
  take-Maps inode at (suc n) [] h = tt
  take-Maps inode at (suc n) (p ∷ ps) (e, h) = (e, take-Maps inode (at + 1) n ps h)

  take-AllInDevice :
      (n : ℕ) (ps : List (Option ℕ))
      → AllInDevice api flat fs ps
      → AllInDevice api flat fs (take n ps)
  unfolding AllInDevice
  take-AllInDevice zero ps h = tt
  take-AllInDevice (suc n) [] h = tt
  take-AllInDevice (suc n) (none ∷ ps) h = take-AllInDevice n ps h
  take-AllInDevice (suc n) (some addr ∷ ps) (e, h) = (e, take-AllInDevice n ps h)

  -- A lookup that follows one that succeeds.
  Follows-ok :
      {A : Type 0} (r : Cached A) (x : Fallible A) (a : A)
      → Follows api fs r x
      → x ≡ some (ok a)
      → (c : IndirectCache) × ((r ≡ some (c, ok a)) × Agrees api fs c)
  unfolding Follows
  Follows-ok none x a h e = absurd (ground (arith, h, e))
  Follows-ok (some (c, y)) x a (agree, h) e = (c, (ground (arith, h, e), agree))

  resolve_blocks_lem :
      (inode : Inode) (start n : ℕ) (c : IndirectCache) (ps : List (Option ℕ))
      → let size = block_size fs.superblock / 4 in
        0 < size
        → 12 + size + size * size < 2 ^ 32
        → length ps ≡ n
        → Maps inode start ps
        → Agrees api fs c
        → (c' : IndirectCache) × ((resolve_blocks api fs inode start n c ≡ some (c', ok ps))
            × Agrees api fs c')
  unfolding resolve_blocks Maps cached_then
  resolve_blocks_lem inode start zero c [] pos limit size h agree = (c, (refl, agree))
  resolve_blocks_lem inode start zero c (p ∷ ps) pos limit size h agree =
      absurd (omega (arith, size))
  resolve_blocks_lem inode start (suc n) c [] pos limit size h agree = absurd (omega (arith, size))
  resolve_blocks_lem inode start (suc n) c (p ∷ ps) pos limit size (e, h) agree =
      let (c', (one, agree')) =
        Follows-ok (resolve_block_index api fs inode start c) (block_pointer api fs inode start) p
          (resolve_block_index-Follows api fs inode start c pos limit agree) e in
      let (c'', (rest, agree'')) =
        resolve_blocks_lem inode (start + 1) n c' ps pos limit (omega (arith, size)) h agree' in
      (c'', (rw (resolve_blocks, one, rest) refl, agree''))

  read_blocks_from_inode_lem :
      (inode : Inode) (start n : ℕ) (c : IndirectCache) (ps : List (Option ℕ))
      → let size = block_size fs.superblock / 4 in
        flat.IsSound fs.block_device
        → 0 < size
        → 12 + size + size * size < 2 ^ 32
        → length ps ≡ n
        → Maps inode start ps
        → AllInDevice api flat fs ps
        → Agrees api fs c
        → (c' : IndirectCache) × ((read_blocks_from_inode api fs inode start n c
              ≡ some (c', ok (file_blocks api flat fs ps)))
            × Agrees api fs c')
  unfolding read_blocks_from_inode keep_cache cached_then
  read_blocks_from_inode_lem inode start n c ps sound pos limit size h within agree =
      let (c', (all, agree')) = resolve_blocks_lem inode start n c ps pos limit size h agree in
      let bytes = read_runs_lem api flat fs (length ps) ps sound (omega arith) within in
      (c', (rw (read_blocks_from_inode, all, bytes) refl, agree'))

  requested-some :
      (relative left n : ℕ) (bytes : List ℕ)
      → relative + n ≤ length bytes
      → requested relative left n bytes ≡ some (ok (take (min left n) (drop relative bytes)))
  unfolding requested slice
  requested-some relative left n bytes room =
      let count : min (min (length bytes) left) n ≡ min left n = omega (arith, room) in
      let fits : leb (relative + min (min (length bytes) left) n) (length bytes) ≡ true =
        ground (arith, room, count) in
      rw (requested, slice, fits) (ap (λ k. some (ok (take k (drop relative bytes)))) count)

  -- A read that passes the guards of `read_from_file`.
  read_from_file_past_guards :
      (inode : Inode) (offset n : ℕ) (c : IndirectCache)
      → let size = block_size fs.superblock in
        0 < size
        → offset < file_len inode
        → 0 < n
        → offset + n < 2 ^ 32
        → read_from_file api fs inode offset n c
          ≡ read_span api fs inode
              (offset / size)
              ((offset + n - 1) / size)
              (offset % size)
              (file_len inode - offset)
              n
              c
  unfolding read_from_file
  read_from_file_past_guards inode offset n c positive inside some_bytes small =
      let size = block_size fs.superblock in
      let below : leb (file_len inode) offset ≡ false = ground arith in
      let at : offset % 2 ^ 32 ≡ offset = omega arith in
      let length_fits : n % 2 ^ 32 ≡ n = omega arith in
      let fits : (size == 0) || ((offset + n == 0) || leb (2 ^ 32) (offset + n)) ≡ false =
        ground arith in
      rw (read_from_file, below, at, length_fits, fits) refl

  -- On a flat device and with a cache that agrees with it, a read of at least one byte of a file, whose blocks up to the last it touches
  -- lie within the device and below 4 GiB, at an offset below the file's length and with an end below 4 GiB, returns the file's bytes
  -- at that offset, as many as were asked for and as are left, and leaves a cache that agrees. A block holds a pointer and the limits of the pointers fit 32 bits.
  pub read_from_file_lem :
      (inode : Inode) (offset n : ℕ) (c : IndirectCache) (ps : List (Option ℕ))
      → let size = block_size fs.superblock in
        flat.IsSound fs.block_device
        → 0 < size / 4
        → 12 + size / 4 + (size / 4) * (size / 4) < 2 ^ 32
        → offset < file_len inode
        → 0 < n
        → offset + n < 2 ^ 32
        → (offset + n - 1) / size < length ps
        → Maps inode 0 ps
        → AllInDevice api flat fs ps
        → Agrees api fs c
        → (c' : IndirectCache) × ((read_from_file api fs inode offset n c
              ≡ some (
                c',
                ok (
                    take
                      (min (file_len inode - offset) n)
                      (drop offset (file_blocks api flat fs ps))),
              ))
            × Agrees api fs c')
  unfolding read_span keep_cache cached_then
  read_from_file_lem inode offset n c ps sound pos limit inside some_bytes small reach maps within
        agree =
      let size = block_size fs.superblock in
      let start : ℕ = offset / size in
      let last : ℕ = (offset + n - 1) / size in
      let count : ℕ = last - start + 1 in
      let relative : ℕ = offset % size in
      let positive : 0 < size = omega arith in
      let begin : offset % size + start * size ≡ offset = mod-add-div' offset size in
      let end : (offset + n - 1) % size + last * size ≡ offset + n - 1 =
        mod-add-div' (offset + n - 1) size in
      let final = mod-lt (offset + n - 1) positive in
      let order : start < last + 1 =
        times-lt start (last + 1) size (omega (arith, begin, end, final)) in
      let span : (start + count) * size ≡ last * size + size =
        ap (λ k. k * size) {x = start + count} {y = last + 1} (omega (arith, order))
        ∙ omega arith in
      let qs = take count (drop start ps) in
      let many : length qs ≡ count =
        length-take-drop start count ps (omega (arith, reach, order)) in
      let (c', (all, agree')) =
        read_blocks_from_inode_lem inode start count c qs sound pos limit many
          (take-Maps inode start count (drop start ps) (
            subst (λ k. Maps inode k (drop start ps)) {x = 0 + start} {y = start} (omega arith)
              (drop-Maps inode 0 start ps maps)))
          (take-AllInDevice count (drop start ps) (drop-AllInDevice api flat fs start ps within))
          agree in
      let bytes = file_blocks api flat fs qs in
      let held : length bytes ≡ count * size =
        length-file_blocks api flat fs qs
          (take-AllInDevice count (drop start ps) (drop-AllInDevice api flat fs start ps within))
        ∙ ap (λ k. k * size) many in
      let room : relative + n ≤ count * size =
        omega (arith, span, begin, end, final, times-add start count size) in
      let part =
        requested-some relative (file_len inode - offset) n bytes (omega (arith, held, room)) in
      let whole =
        file_blocks_range api flat fs start count relative (min (file_len inode - offset) n) offset
          ps within (omega (arith, reach, order)) (omega (arith, room)) (omega (arith, begin)) in
      let ordered : ltb last start ≡ false = ground (arith, order) in
      (
        c',
        (
          read_from_file_past_guards inode offset n c positive inside some_bytes small
              ∙ rw (read_span, ordered, all, part) (ap (λ l. some (c', ok l)) whole),
          agree',
        ),
      )
