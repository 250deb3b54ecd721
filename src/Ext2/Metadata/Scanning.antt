-- ===== src/Ext2/Metadata/Scanning.antt =====
-- kernel/ext2/src/lib.rs: what a reservation finds and leaves behind.
use mathlib.Core.Path.{subst}
use muffin.Base.{ℕ, ◌≡◌, refl, sym, Option, none, some, List, ok, err, arith}
use muffin.Ext2.Metadata.Allocation.{
  first_free_bit, ran_then, unchanged, after_scan, try_reserve_in_group_with_bitmap,
}
use muffin.Ext2.Storage.Blocks.{MountedFs, Ran, write_block}
use muffin.Ext2.Storage.Filesystem.{DiskApi, Fallible, block_size, read_block}
use muffin.Ext2.Metadata.Bitmaps.{IsFirstFree, Scanned, first_free_bit-Scanned}

none_found :
    {D : Type 0} (r : Ran D ℕ) (s' : MountedFs D) (i : ℕ)
    → ran_then r (λ s _. some (s, ok none)) ≡ some (s', ok (some i))
    → ⊥
unfolding ran_then
none_found none s' i e = ground (arith, e)
none_found (some (s, err x)) s' i e = ground (arith, e)
none_found (some (s, ok n)) s' i e = ground (arith, e)

module _ {D E : Type 0} (api : DiskApi D E) where
  after_scan-some :
      (addr : ℕ) (bitmap : List ℕ) (s s' : MountedFs D) (i : ℕ) (found : Option ℕ)
      → after_scan api addr bitmap s found ≡ some (s', ok (some i))
      → (found ≡ some i) × (s' ≡ s)
  unfolding after_scan
  after_scan-some addr bitmap s s' i none e =
      absurd (none_found (write_block api addr bitmap s) s' i e)
  after_scan-some addr bitmap s s' i (some index) e = (ground (arith, e), ground (arith, e))

  scan_of_read :
      (addr i : ℕ) (s s' : MountedFs D) (r : Fallible (List ℕ))
      → ran_then
          (unchanged s r)
          (λ s'' bitmap. after_scan api addr bitmap s'' (first_free_bit 0 bitmap))
        ≡ some (s', ok (some i))
      → (bitmap : List ℕ) × ((r ≡ some (ok bitmap))
          × ((first_free_bit 0 bitmap ≡ some i) × (s' ≡ s)))
  unfolding unchanged ran_then
  scan_of_read addr i s s' none e = absurd (ground (arith, e))
  scan_of_read addr i s s' (some (err x)) e = absurd (ground (arith, e))
  scan_of_read addr i s s' (some (ok bitmap)) e =
      (bitmap, (refl, after_scan-some addr bitmap s s' i (first_free_bit 0 bitmap) e))

  -- A reservation that succeeds, on any device: the index is that of the first clear bit of the bitmap on the device, but the file system
  -- and its device are left as they were, so the bit stays clear and a second reservation gives the same index.
  pub try_reserve_in_group_with_bitmap_lem :
      (addr i : ℕ) (s s' : MountedFs D)
      → try_reserve_in_group_with_bitmap api addr s ≡ some (s', ok (some i))
      → (bitmap : List ℕ) × ((read_block api s.fs addr (block_size s.fs.superblock)
            ≡ some (ok bitmap))
          × (IsFirstFree bitmap i
              × ((s' ≡ s)
                  × (try_reserve_in_group_with_bitmap api addr s' ≡ some (s', ok (some i))))))
  unfolding Scanned
  try_reserve_in_group_with_bitmap_lem addr i s s' e =
      let (bitmap, (got, (found, same))) =
        scan_of_read addr i s s' (read_block api s.fs addr (block_size s.fs.superblock))
          (unfold try_reserve_in_group_with_bitmap in e) in
      let (own, (at, is_first)) = rw found at (first_free_bit-Scanned 0 bitmap) in
      let here : own ≡ i = omega (arith, at) in
      (
        bitmap,
        (
          got,
          (
            subst (IsFirstFree bitmap) here is_first,
            (
              same,
              subst (λ t. try_reserve_in_group_with_bitmap api addr t ≡ some (s', ok (some i)))
                  (sym same) e,
            ),
          ),
        ),
      )
