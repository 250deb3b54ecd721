-- ===== src/Ext2/Files/FileBytes.antt =====
-- kernel/ext2/src/read.rs: the bytes of a file as its blocks hold them, cut at block and byte boundaries.
use muffin.Base.{
  ℕ, zero, suc, ◌+◌, ◌*◌, ◌≤◌, ◌≡◌, ◌∙◌, refl, sym, ap, Option, none, some, List, [], ◌∷◌, ◌++◌,
  length, take, drop, replicate, length-append, length-replicate, arith,
}
use muffin.BlockDevice.Reading.{length-take, length-drop, drop-drop, take-drop-take, times-suc}
use muffin.Ext2.Storage.Coherent.{InDevice, block_bytes}
use muffin.Ext2.Storage.Filesystem.{DiskApi, Ext2Fs, block_size}
use muffin.Ext2.Storage.Flat.{FlatDisk}
use muffin.Ext2.Files.Runs.{file_blocks, AllInDevice, drop-AllInDevice}

pub take-append : (n : ℕ) (xs ys : List ℕ) → length xs ≡ n → take n (xs ++ ys) ≡ xs
take-append zero [] ys e = refl
take-append zero (x ∷ xs) ys e = absurd (omega (arith, e))
take-append (suc n) [] ys e = absurd (omega (arith, e))
take-append (suc n) (x ∷ xs) ys e = ap (λ l. x ∷ l) (take-append n xs ys (omega (arith, e)))

pub drop-append : (n m : ℕ) (xs ys : List ℕ) → length xs ≡ n → drop (n + m) (xs ++ ys) ≡ drop m ys
drop-append zero m [] ys e = ap (λ k. drop k ys) {x = 0 + m} {y = m} (omega arith)
drop-append zero m (x ∷ xs) ys e = absurd (omega (arith, e))
drop-append (suc n) m [] ys e = absurd (omega (arith, e))
drop-append (suc n) m (x ∷ xs) ys e =
    ap (λ k. drop k (x ∷ (xs ++ ys))) {x = suc n + m} {y = suc (n + m)} (omega arith)
    ∙ drop-append n m xs ys (omega (arith, e))

take_past : (n m : ℕ) (xs ys : List ℕ) → length xs ≡ n → take (n + m) (xs ++ ys) ≡ xs ++ take m ys
take_past zero m [] ys e = ap (λ k. take k ys) {x = 0 + m} {y = m} (omega arith)
take_past zero m (x ∷ xs) ys e = absurd (omega (arith, e))
take_past (suc n) m [] ys e = absurd (omega (arith, e))
take_past (suc n) m (x ∷ xs) ys e =
    ap (λ k. take k (x ∷ (xs ++ ys))) {x = suc n + m} {y = suc (n + m)} (omega arith)
    ∙ ap (λ l. x ∷ l) (take_past n m xs ys (omega (arith, e)))

take_none : (n : ℕ) → take {A = ℕ} n [] ≡ []
take_none zero = refl
take_none (suc n) = refl

module _ {D E : Type 0} (api : DiskApi D E) (flat : FlatDisk api) (fs : Ext2Fs D) where
  -- The bytes of one block of a file.
  one_block : Option ℕ → List ℕ
  one_block none = replicate (block_size fs.superblock) 0
  one_block (some addr) = block_bytes api flat fs addr (block_size fs.superblock)

  file_blocks_cons :
      (p : Option ℕ) (ps : List (Option ℕ))
      → file_blocks api flat fs (p ∷ ps) ≡ one_block p ++ file_blocks api flat fs ps
  unfolding file_blocks one_block
  file_blocks_cons none ps = refl
  file_blocks_cons (some addr) ps = refl

  OneInDevice : Option ℕ → Type 0
  OneInDevice none = Unit {0}
  OneInDevice (some addr) = InDevice api flat fs addr (block_size fs.superblock)

  split-AllInDevice :
      (p : Option ℕ) (ps : List (Option ℕ))
      → AllInDevice api flat fs (p ∷ ps)
      → OneInDevice p × AllInDevice api flat fs ps
  unfolding AllInDevice OneInDevice
  split-AllInDevice none ps h = (tt, h)
  split-AllInDevice (some addr) ps h = h

  length-one_block :
      (p : Option ℕ) → OneInDevice p → length (one_block p) ≡ block_size fs.superblock
  unfolding one_block OneInDevice InDevice block_bytes
  length-one_block none h = length-replicate (block_size fs.superblock) 0
  length-one_block (some addr) (low, room) =
      let all = flat.contents fs.block_device in
      length-take (block_size fs.superblock) (drop (addr * block_size fs.superblock) all)
        (omega (arith, room, length-drop (addr * block_size fs.superblock) all))

  pub length-file_blocks :
      (ps : List (Option ℕ))
      → AllInDevice api flat fs ps
      → length (file_blocks api flat fs ps) ≡ length ps * block_size fs.superblock
  length-file_blocks [] h = unfold file_blocks in omega arith
  length-file_blocks (p ∷ ps) h =
      let (one, more) = split-AllInDevice p ps h in
      ap length (file_blocks_cons p ps)
      ∙ omega (
        arith,
        length-append (one_block p) (file_blocks api flat fs ps),
        length-one_block p one,
        length-file_blocks ps more,
        times-suc (length ps) (block_size fs.superblock),
      )

  file_blocks-drop :
      (n : ℕ) (ps : List (Option ℕ))
      → AllInDevice api flat fs ps
      → n ≤ length ps
      → file_blocks api flat fs (drop n ps)
        ≡ drop (n * block_size fs.superblock) (file_blocks api flat fs ps)
  file_blocks-drop zero ps h le =
      ap (λ k. drop k (file_blocks api flat fs ps)) {x = 0} {y = 0 * block_size fs.superblock}
        (omega arith)
  file_blocks-drop (suc n) [] h le = absurd (omega (arith, le))
  file_blocks-drop (suc n) (p ∷ ps) h le =
      let (one, more) = split-AllInDevice p ps h in
      let size = block_size fs.superblock in
      file_blocks-drop n ps more (omega (arith, le))
      ∙ sym (
          drop-append size (n * size) (one_block p) (file_blocks api flat fs ps)
            (length-one_block p one))
      ∙ ap (λ l. drop (size + n * size) l) (sym (file_blocks_cons p ps))
      ∙ ap (λ k. drop k (file_blocks api flat fs (p ∷ ps))) (sym (times-suc n size))

  file_blocks-take :
      (n : ℕ) (ps : List (Option ℕ))
      → AllInDevice api flat fs ps
      → file_blocks api flat fs (take n ps)
        ≡ take (n * block_size fs.superblock) (file_blocks api flat fs ps)
  file_blocks-take zero ps h =
      unfold file_blocks in
      ap (λ k. take k (file_blocks api flat fs ps)) {x = 0} {y = 0 * block_size fs.superblock}
        (omega arith)
  file_blocks-take (suc n) [] h =
      unfold file_blocks in sym (take_none (suc n * block_size fs.superblock))
  file_blocks-take (suc n) (p ∷ ps) h =
      let (one, more) = split-AllInDevice p ps h in
      let size = block_size fs.superblock in
      file_blocks_cons p (take n ps)
      ∙ ap (λ l. one_block p ++ l) (file_blocks-take n ps more)
      ∙ sym (
          take_past size (n * size) (one_block p) (file_blocks api flat fs ps)
            (length-one_block p one))
      ∙ ap (λ l. take (size + n * size) l) (sym (file_blocks_cons p ps))
      ∙ ap (λ k. take k (file_blocks api flat fs (p ∷ ps))) (sym (times-suc n size))

  -- A range within some blocks of a file is that range of the file.
  pub file_blocks_range :
      (start n relative count offset : ℕ) (ps : List (Option ℕ))
      → AllInDevice api flat fs ps
      → start ≤ length ps
      → relative + count ≤ n * block_size fs.superblock
      → offset ≡ start * block_size fs.superblock + relative
      → take count (drop relative (file_blocks api flat fs (take n (drop start ps))))
        ≡ take count (drop offset (file_blocks api flat fs ps))
  file_blocks_range start n relative count offset ps h le room at =
      let size = block_size fs.superblock in
      let all = file_blocks api flat fs ps in
      ap (λ l. take count (drop relative l))
        (file_blocks-take n (drop start ps) (drop-AllInDevice api flat fs start ps h))
      ∙ take-drop-take relative count (n * size) (file_blocks api flat fs (drop start ps)) room
      ∙ ap (λ l. take count (drop relative l)) (file_blocks-drop start ps h le)
      ∙ ap (λ l. take count l) (drop-drop (start * size) relative offset all at)
