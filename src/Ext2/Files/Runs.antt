-- ===== src/Ext2/Files/Runs.antt =====
-- kernel/ext2/src/read.rs: reading in runs gives the same bytes as reading each block alone.
use mathlib.Core.List.{append_assoc}
use muffin.Base.{
  ℕ, zero, suc, ◌+◌, ◌*◌, ◌^◌, ◌≤◌, ◌≡◌, ◌∙◌, refl, sym, ap, ◌&&◌, Option, none, some, List, [],
  ◌∷◌, ◌++◌, length, take, drop, replicate, ltb, ◌==◌, ok, arith, Bool-cases, inl, inr,
}
use muffin.BlockDevice.Reading.{drop-drop, take_then, times-suc}
use muffin.Ext2.Storage.Coherent.{InDevice, block_bytes, read_block_within}
use muffin.Ext2.Storage.Filesystem.{DiskApi, Ext2Fs, outcome_then, block_size}
use muffin.Ext2.Storage.Flat.{FlatDisk}
use muffin.Ext2.Files.Reads.{hole_length, run_length, before_rest, read_run, read_runs}

replicate-add : (a b : ℕ) → replicate {A = ℕ} (a + b) 0 ≡ replicate a 0 ++ replicate b 0
replicate-add zero b = ap (λ n. replicate {A = ℕ} n 0) (omega arith)
replicate-add (suc a) b =
    ap (λ n. replicate {A = ℕ} n 0) {x = suc a + b} {y = suc (a + b)} (omega arith)
    ∙ ap (λ l. 0 ∷ l) (replicate-add a b)

module _ {D E : Type 0} (api : DiskApi D E) (flat : FlatDisk api) (fs : Ext2Fs D) where
  -- The bytes of the blocks of a file, one block after the other; a hole has zeros.
  unfoldable pub file_blocks : List (Option ℕ) → List ℕ
  unfolding block_size block_bytes
  file_blocks [] = []
  file_blocks (none ∷ ps) = replicate (block_size fs.superblock) 0 ++ file_blocks ps
  file_blocks (some addr ∷ ps) =
      block_bytes api flat fs addr (block_size fs.superblock) ++ file_blocks ps

  unfoldable pub AllInDevice : List (Option ℕ) → Type 0
  unfolding InDevice block_size
  AllInDevice [] = Unit {0}
  AllInDevice (none ∷ ps) = AllInDevice ps
  AllInDevice (some addr ∷ ps) =
      InDevice api flat fs addr (block_size fs.superblock) × AllInDevice ps

  none_more : (ys : List ℕ) → ys ≡ replicate (0 * block_size fs.superblock) 0 ++ ys
  none_more ys =
      ap (λ n. replicate {A = ℕ} n 0 ++ ys) {x = 0} {y = 0 * block_size fs.superblock} (omega arith)

  holes :
      (ps : List (Option ℕ))
      → file_blocks ps
        ≡ replicate (hole_length ps * block_size fs.superblock) 0
          ++ file_blocks (drop (hole_length ps) ps)
  unfolding hole_length file_blocks
  holes [] = none_more []
  holes (some addr ∷ ps) = none_more (file_blocks (some addr ∷ ps))
  holes (none ∷ ps) =
      let size = block_size fs.superblock in
      let more = hole_length ps in
      let total : suc more * size ≡ size + more * size = times-suc more size in
      ap (λ l. replicate size 0 ++ l) (holes ps)
      ∙ sym
          (append_assoc (replicate size 0) (replicate (more * size) 0) (file_blocks (drop more ps)))
      ∙ ap (λ l. l ++ file_blocks (drop more ps)) (sym (replicate-add size (more * size)))
      ∙ ap (λ n. replicate {A = ℕ} n 0 ++ file_blocks (drop more ps)) (sym total)

  -- The bytes of a run of `n` blocks after `previous`.
  after_block : ℕ → ℕ → List ℕ
  after_block previous n =
      take (n * block_size fs.superblock)
        (drop ((previous + 1) * block_size fs.superblock) (flat.contents fs.block_device))

  after_block-zero : (previous : ℕ) (ys : List ℕ) → ys ≡ after_block previous 0 ++ ys
  unfolding after_block
  after_block-zero previous ys =
      ap
        (λ n.
          take n (drop ((previous + 1) * block_size fs.superblock) (flat.contents fs.block_device))
          ++ ys)
        {x = 0} {y = 0 * block_size fs.superblock} (omega arith)

  after_block-suc :
      (previous n : ℕ)
      → block_bytes api flat fs (previous + 1) (block_size fs.superblock)
          ++ after_block (previous + 1) n
        ≡ after_block previous (suc n)
  unfolding after_block block_bytes
  after_block-suc previous n =
      let size = block_size fs.superblock in
      let all = flat.contents fs.block_device in
      let here = drop ((previous + 1) * size) all in
      ap (λ l. take size here ++ take (n * size) l)
        (sym (drop-drop ((previous + 1) * size) size ((previous + 1 + 1) * size) all (omega arith)))
      ∙ take_then size (n * size) (suc n * size) here (times-suc n size)

  runs :
      (previous : ℕ) (ps : List (Option ℕ))
      → let n = run_length previous ps in
        file_blocks ps ≡ after_block previous n ++ file_blocks (drop n ps)
  unfolding run_length file_blocks
  runs previous [] = after_block-zero previous []
  runs previous (none ∷ ps) = after_block-zero previous (file_blocks (none ∷ ps))
  runs previous (some next ∷ ps) =
      let size = block_size fs.superblock in
      let n = run_length next ps in
      elim (Bool-cases (ltb (previous + 1) (2 ^ 32) && (previous + 1 == next))) [
        | inl goes_on ↦
            let same : next ≡ previous + 1 = ground (arith, goes_on) in
            rw (goes_on, run_length)
              (ap (λ l. block_bytes api flat fs next size ++ l) (runs next ps)
                ∙ sym (
                    append_assoc (block_bytes api flat fs next size) (after_block next n)
                      (file_blocks (drop n ps)))
                ∙ ap (λ l. l ++ file_blocks (drop n ps))
                    (ap (λ a. block_bytes api flat fs a size ++ after_block a n) same
                      ∙ after_block-suc previous n))
        | inr ends ↦
            rw (ends, run_length) (after_block-zero previous (file_blocks (some next ∷ ps)))
      ]

  pub drop-AllInDevice : (n : ℕ) (ps : List (Option ℕ)) → AllInDevice ps → AllInDevice (drop n ps)
  unfolding AllInDevice
  drop-AllInDevice zero ps h = h
  drop-AllInDevice (suc n) [] h = tt
  drop-AllInDevice (suc n) (none ∷ ps) h = drop-AllInDevice n ps h
  drop-AllInDevice (suc n) (some addr ∷ ps) (_, h) = drop-AllInDevice n ps h

  length-drop_le : (n : ℕ) (ps : List (Option ℕ)) → length (drop n ps) ≤ length ps
  length-drop_le zero ps = omega arith
  length-drop_le (suc n) [] = omega arith
  length-drop_le (suc n) (p ∷ ps) = omega (arith, length-drop_le n ps)

  -- The run reaches no further than the last block in it.
  run-InDevice :
      (first : ℕ) (ps : List (Option ℕ))
      → InDevice api flat fs first (block_size fs.superblock)
      → AllInDevice ps
      → InDevice api flat fs first (suc (run_length first ps) * block_size fs.superblock)
  unfolding InDevice AllInDevice run_length
  run-InDevice first [] (low, room) h = (low, omega (arith, room))
  run-InDevice first (none ∷ ps) (low, room) h = (low, omega (arith, room))
  run-InDevice first (some next ∷ ps) (low, room) (within, h) =
      elim (Bool-cases (ltb (first + 1) (2 ^ 32) && (first + 1 == next))) [
        | inl goes_on ↦
            let same : next ≡ first + 1 = ground (arith, goes_on) in
            let (_, rest) = run-InDevice next ps within h in
            let start : next * block_size fs.superblock
                ≡ first * block_size fs.superblock + block_size fs.superblock =
              ap (λ a. a * block_size fs.superblock) same ∙ omega arith in
            rw (goes_on, run_length)
              (
                low,
                omega (
                  arith,
                  rest,
                  start,
                  times-suc (suc (run_length next ps)) (block_size fs.superblock),
                ),
              )
        | inr ends ↦ rw (ends, run_length) (low, omega (arith, room))
      ]

  run_front :
      (first n : ℕ)
      → block_bytes api flat fs first (block_size fs.superblock) ++ after_block first n
        ≡ block_bytes api flat fs first (suc n * block_size fs.superblock)
  unfolding after_block block_bytes
  run_front first n =
      let size = block_size fs.superblock in
      let all = flat.contents fs.block_device in
      ap (λ l. take size (drop (first * size) all) ++ take (n * size) l)
        (sym (drop-drop (first * size) size ((first + 1) * size) all (omega arith)))
      ∙ take_then size (n * size) (suc n * size) (drop (first * size) all) (times-suc n size)

  run_bytes :
      (first : ℕ) (ps : List (Option ℕ))
      → block_bytes api flat fs first (suc (run_length first ps) * block_size fs.superblock)
          ++ file_blocks (drop (run_length first ps) ps)
        ≡ file_blocks (some first ∷ ps)
  unfolding file_blocks
  run_bytes first ps =
      let n = run_length first ps in
      let head = block_bytes api flat fs first (block_size fs.superblock) in
      ap (λ l. l ++ file_blocks (drop n ps)) (sym (run_front first n))
      ∙ append_assoc head (after_block first n) (file_blocks (drop n ps))
      ∙ ap (λ l. head ++ l) (sym (runs first ps))

  hole_bytes :
      (ps : List (Option ℕ))
      → replicate (suc (hole_length ps) * block_size fs.superblock) 0
          ++ file_blocks (drop (hole_length ps) ps)
        ≡ file_blocks (none ∷ ps)
  unfolding file_blocks hole_length
  hole_bytes ps = sym (holes (none ∷ ps))

  -- Reading the pointers of a file run by run gives the bytes of the blocks one after the other, a hole as zeros, when
  -- all blocks lie within a flat device and below 4 GiB; as many rounds of the loop as there are pointers are enough.
  pub read_runs_lem :
      (fuel : ℕ) (ps : List (Option ℕ))
      → flat.IsSound fs.block_device
      → length ps ≤ fuel
      → AllInDevice ps
      → read_runs api fuel fs ps ≡ some (ok (file_blocks ps))
  unfolding read_runs read_run AllInDevice before_rest outcome_then file_blocks
  read_runs_lem fuel [] sound enough h = refl
  read_runs_lem zero (p ∷ ps) sound enough h = absurd (omega (arith, enough))
  read_runs_lem (suc fuel) (none ∷ ps) sound enough h =
      let more = hole_length ps in
      let rest =
        read_runs_lem fuel (drop more ps) sound (omega (arith, length-drop_le more ps, enough))
          (drop-AllInDevice more ps h) in
      rw (read_runs, rest) (ap (λ l. some (ok l)) (hole_bytes ps))
  read_runs_lem (suc fuel) (some first ∷ ps) sound enough (within, h) =
      let more = run_length first ps in
      let rest =
        read_runs_lem fuel (drop more ps) sound (omega (arith, length-drop_le more ps, enough))
          (drop-AllInDevice more ps h) in
      let run =
        read_block_within api flat fs first (suc more * block_size fs.superblock) sound
          (run-InDevice first ps within h) in
      rw (read_runs, read_run, run, rest) (ap (λ l. some (ok l)) (run_bytes first ps))
