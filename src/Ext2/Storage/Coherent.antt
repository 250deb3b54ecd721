-- ===== src/Ext2/Storage/Coherent.antt =====
-- kernel/ext2/src/lib.rs: a write of a block leaves a cache that agrees with the device, and the other blocks.
use muffin.Base.{
  ℕ, ◌+◌, ◌*◌, ◌^◌, ◌≤◌, ◌<◌, ◌≡◌, ◌≢◌, ◌∙◌, refl, sym, ap, true, Option, none, some, List, [], ◌∷◌,
  length, take, drop, ltb, ◌==◌, Result, ok, err, arith, Bool-cases, inl, inr,
}
use muffin.BlockDevice.Splices.{take-drop-splice, length-splice}
use muffin.BlockDevice.Writes.{splice}
use muffin.Ext2.Storage.Apart.{other_block}
use muffin.Ext2.Storage.Blocks.{MountedFs, write_to_device, write_block}
use muffin.Ext2.Storage.Cache.{IndirectCache, invalidate}
use muffin.Ext2.Storage.Coherence.{table_at, Agrees}
use muffin.Ext2.Storage.Filesystem.{
  Error, device_read, DiskApi, Ext2Fs, block_size, checked_u32, Fallible, outcome_then, map_err,
  resolve_block_offset, read_block,
}
use muffin.Ext2.Storage.Flat.{FlatDisk}
use muffin.Ext2.Storage.Pointers.{table_of}

pub map_err_ok :
    {A E : Type 0} (e : Error) (r : Option (Result A E)) (a : A)
    → map_err e r ≡ some (ok a)
    → r ≡ some (ok a)
unfolding map_err
map_err_ok e none a h = absurd (ground (arith, h))
map_err_ok e (some (err x)) a h = absurd (ground (arith, h))
map_err_ok e (some (ok b)) a h = ground (arith, h)

pub then_ok :
    {A B : Type 0} (r : Fallible A) (k : A → Fallible B) (b : B)
    → outcome_then r k ≡ some (ok b)
    → (a : A) × (r ≡ some (ok a))
unfolding outcome_then
then_ok none k b h = absurd (ground (arith, h))
then_ok (some (err x)) k b h = absurd (ground (arith, h))
then_ok (some (ok a)) k b h = (a, refl)

module _ {D E : Type 0} (api : DiskApi D E) (flat : FlatDisk api) where
  -- The block lies within the device and below 4 GiB.
  unfoldable pub InDevice : Ext2Fs D → ℕ → ℕ → Type 0
  unfolding block_size
  InDevice fs addr n =
      (addr * block_size fs.superblock < 2 ^ 32)
      × (addr * block_size fs.superblock + n ≤ length (flat.contents fs.block_device))

  -- What is on the device from the start of a block.
  unfoldable pub block_bytes : Ext2Fs D → ℕ → ℕ → List ℕ
  unfolding block_size
  block_bytes fs addr n =
      take n (drop (addr * block_size fs.superblock) (flat.contents fs.block_device))

  pub read_block_within :
      (fs : Ext2Fs D) (addr n : ℕ)
      → flat.IsSound fs.block_device
      → InDevice fs addr n
      → read_block api fs addr n ≡ some (ok (block_bytes fs addr n))
  unfolding read_block resolve_block_offset checked_u32 map_err InDevice block_bytes
  read_block_within fs addr n sound (low, room) =
      let fits : ltb (addr * block_size fs.superblock) (2 ^ 32) ≡ true = ground arith in
      let got = flat.read_within fs.block_device (addr * block_size fs.superblock) n sound room in
      rw (read_block, resolve_block_offset, checked_u32, fits, got) refl

  read_block_low :
      (fs : Ext2Fs D) (addr n : ℕ)
      → ltb (addr * block_size fs.superblock) (2 ^ 32) ≡ true
      → read_block api fs addr n
        ≡ map_err device_read (api.read_bytes fs.block_device (addr * block_size fs.superblock) n)
  unfolding read_block resolve_block_offset checked_u32
  read_block_low fs addr n low = rw (read_block, resolve_block_offset, checked_u32, low) refl

  block_InDevice :
      (fs : Ext2Fs D) (addr n : ℕ) (bytes : List ℕ)
      → flat.IsSound fs.block_device
      → 0 < n
      → read_block api fs addr n ≡ some (ok bytes)
      → InDevice fs addr n
  unfolding InDevice
  block_InDevice fs addr n bytes sound pos e =
      elim (Bool-cases (ltb (addr * block_size fs.superblock) (2 ^ 32))) [
        | inl low ↦ (
          ground arith,
          flat.read_only_within fs.block_device (addr * block_size fs.superblock) n bytes sound pos
              (map_err_ok device_read
                (api.read_bytes fs.block_device (addr * block_size fs.superblock) n) bytes
                (sym (read_block_low fs addr n low) ∙ e)),
        )
        | inr high ↦
            let panics : read_block api fs addr n ≡ none =
              unfold read_block resolve_block_offset checked_u32 in
              rw (read_block, resolve_block_offset, checked_u32, high) refl in
            absurd (ground (arith, e, panics))
      ]

  table_at-same :
      (fs : Ext2Fs D) (d : D) (addr : ℕ)
      → read_block api (record fs { block_device = d }) addr (block_size fs.superblock)
        ≡ read_block api fs addr (block_size fs.superblock)
      → table_at api (record fs { block_device = d }) addr ≡ table_at api fs addr
  unfolding table_at
  table_at-same fs d addr e = ap (λ r. outcome_then r (λ bytes. some (ok (table_of bytes)))) e

  other_read :
      (fs : Ext2Fs D) (d : D) (addr b : ℕ) (bs : List ℕ)
      → flat.IsSound fs.block_device
      → flat.IsSound d
      → flat.contents d
        ≡ splice (addr * block_size fs.superblock) bs (flat.contents fs.block_device)
      → length bs ≤ block_size fs.superblock
      → addr ≢ b
      → InDevice fs b (block_size fs.superblock)
      → read_block api (record fs { block_device = d }) b (block_size fs.superblock)
        ≡ read_block api fs b (block_size fs.superblock)
  unfolding InDevice block_bytes
  other_read fs d addr b bs sound sound' e small ne (low, room) =
      let same =
        ap length e
        ∙ length-splice (addr * block_size fs.superblock) bs (flat.contents fs.block_device) in
      let here : block_bytes (record fs { block_device = d }) b (block_size fs.superblock)
          ≡ block_bytes fs b (block_size fs.superblock) =
        ap (λ l. take (block_size fs.superblock) (drop (b * block_size fs.superblock) l)) e
        ∙ other_block addr b (block_size fs.superblock) bs (flat.contents fs.block_device) ne
            small in
      read_block_within (record fs { block_device = d }) b (block_size fs.superblock) sound'
        (low, omega (arith, same, room))
      ∙ ap (λ l. some (ok l)) here
      ∙ sym (read_block_within fs b (block_size fs.superblock) sound (low, room))

  invalidate-Agrees :
      (fs : Ext2Fs D) (d : D) (addr : ℕ) (bs : List ℕ) (c : IndirectCache)
      → flat.IsSound fs.block_device
      → flat.IsSound d
      → flat.contents d
        ≡ splice (addr * block_size fs.superblock) bs (flat.contents fs.block_device)
      → length bs ≤ block_size fs.superblock
      → 0 < block_size fs.superblock
      → Agrees api fs c
      → Agrees api (record fs { block_device = d }) (invalidate addr c)
  unfolding Agrees invalidate
  invalidate-Agrees fs d addr bs [] sound sound' e small pos hs = tt
  invalidate-Agrees fs d addr bs (x ∷ xs) sound sound' e small pos (h, hs) =
      let rest = invalidate-Agrees fs d addr bs xs sound sound' e small pos hs in
      elim (Bool-cases (x.0 == addr)) [
        | inl dropped ↦ rw (invalidate, dropped) rest
        | inr kept ↦
            let ne : addr ≢ x.0 = λ q. ground (arith, kept, q) in
            let (bytes, got) =
              then_ok (read_block api fs x.0 (block_size fs.superblock))
                (λ bytes. some (ok (table_of bytes))) x.1 (unfold table_at in h) in
            let within = block_InDevice fs x.0 (block_size fs.superblock) bytes sound pos got in
            let same =
              table_at-same fs d x.0 (other_read fs d addr x.0 bs sound sound' e small ne within) in
            rw (invalidate, kept) (same ∙ h, rest)
      ]

  -- On a flat device, a write of at most one block's bytes to a block that lies within the device and below 4 GiB succeeds;
  -- the block then reads as what was written, another block within the device below 4 GiB as before, and a cache that agreed with the device
  -- agrees with it again.
  pub write_block-Agrees :
      (s : MountedFs D) (addr b : ℕ) (bs : List ℕ)
      → let fs = s.fs in
        let size = block_size fs.superblock in
        flat.IsSound fs.block_device
        → 0 < size
        → length bs ≤ size
        → InDevice fs addr (length bs)
        → addr ≢ b
        → InDevice fs b size
        → Agrees api fs s.indirect_cache
        → (s' : MountedFs D) × ((write_block api addr bs s ≡ some (s', ok (length bs)))
            × ((read_block api s'.fs addr (length bs) ≡ some (ok bs))
                × ((read_block api s'.fs b size ≡ read_block api fs b size)
                    × (Agrees api s'.fs s'.indirect_cache × flat.IsSound s'.fs.block_device))))
  unfolding write_block write_to_device resolve_block_offset checked_u32 InDevice block_bytes
  write_block-Agrees s addr b bs sound pos small (low, room) ne within hs =
      let fs = s.fs in
      let size = block_size fs.superblock in
      let (d, (wrote, (sound', e))) =
        flat.write_within fs.block_device (addr * size) bs sound room in
      let same = ap length e ∙ length-splice (addr * size) bs (flat.contents fs.block_device) in
      let fits : ltb (addr * size) (2 ^ 32) ≡ true = ground arith in
      let fs' : Ext2Fs D = record fs { block_device = d } in
      let back : read_block api fs' addr (length bs) ≡ some (ok bs) =
        read_block_within fs' addr (length bs) sound' (low, omega (arith, same, room))
        ∙ ap (λ l. some (ok (take (length bs) (drop (addr * size) l)))) e
        ∙ ap (λ l. some (ok l))
            (take-drop-splice (addr * size) bs (flat.contents fs.block_device) room) in
      (
        record { fs = fs'; indirect_cache = invalidate addr s.indirect_cache },
        (
          rw (write_block, write_to_device, resolve_block_offset, checked_u32, fits, wrote) refl,
          (
            back,
            (
              other_read fs d addr b bs sound sound' e small ne within,
              (invalidate-Agrees fs d addr bs s.indirect_cache sound sound' e small pos hs, sound'),
            ),
          ),
        ),
      )
