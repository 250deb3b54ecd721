-- ===== src/Ext2/Records/Fields.antt =====
-- kernel/ext2/src/bytefield.rs: the fields that a struct writes are those it reads back.
use native.Mathlib.Nat.{pow-suc}
use muffin.Base.{
  ℕ, zero, suc, ◌+◌, ◌*◌, ◌/◌, ◌^◌, ◌≤◌, ◌<◌, ◌≡◌, ◌∙◌, refl, ap, true, List, [], ◌∷◌, length, take,
  drop, arith, length-append,
}
use muffin.BlockDevice.Splices.{length-splice, take-drop-splice}
use muffin.BlockDevice.Writes.{splice}
use muffin.Ext2.Records.Bytefield.{
  FieldType, integer, byte_array, word_array, Field, size_of, Value, to_le_bytes, from_le_bytes,
  words_of_bytes, bytes_of_words, value_of_bytes, bytes_of_value, field_read, field_write, Values,
  from_bytes, write_fields, in_order, AreWords, Fits, AllFit,
}

pub length-to_le_bytes : (n a : ℕ) → length (to_le_bytes n a) ≡ n
unfolding to_le_bytes
length-to_le_bytes zero a = refl
length-to_le_bytes (suc n) a = ap suc (length-to_le_bytes n (a / 256))

pub from_le_bytes-to_le_bytes : (n a : ℕ) → a < 256 ^ n → from_le_bytes (to_le_bytes n a) ≡ a
unfolding from_le_bytes to_le_bytes
from_le_bytes-to_le_bytes zero a h = omega arith
from_le_bytes-to_le_bytes (suc n) a h =
    omega (arith, from_le_bytes-to_le_bytes n (a / 256) (omega (arith, pow-suc 256 n, h)))

words_of_bytes-bytes_of_words :
    (n : ℕ) (ws : List ℕ) → length ws ≡ n → AreWords ws → words_of_bytes n (bytes_of_words ws) ≡ ws
unfolding words_of_bytes bytes_of_words AreWords
words_of_bytes-bytes_of_words zero [] e h = refl
words_of_bytes-bytes_of_words (suc n) [] e h = absurd (omega (arith, e))
words_of_bytes-bytes_of_words zero (w ∷ ws) e h = absurd (omega (arith, e))
words_of_bytes-bytes_of_words (suc n) (w ∷ ws) e (h, hs) =
    ap (λ a. a ∷ words_of_bytes n (bytes_of_words ws)) (from_le_bytes-to_le_bytes 4 w h)
    ∙ ap (λ l. w ∷ l) (words_of_bytes-bytes_of_words n ws (omega (arith, e)) hs)

length-bytes_of_words : (ws : List ℕ) → length (bytes_of_words ws) ≡ length ws * 4
unfolding bytes_of_words
length-bytes_of_words [] = refl
length-bytes_of_words (w ∷ ws) = omega (
  arith,
  length-append (to_le_bytes 4 w) (bytes_of_words ws),
  length-to_le_bytes 4 w,
  length-bytes_of_words ws,
)

length-bytes_of_value :
    (t : FieldType) (v : Value t) → Fits t v → length (bytes_of_value t v) ≡ size_of t
unfolding Value Fits bytes_of_value size_of
length-bytes_of_value (integer n) v h = length-to_le_bytes n v
length-bytes_of_value (byte_array n) v h = h
length-bytes_of_value (word_array n) v (h, hs) = length-bytes_of_words v ∙ ap (λ k. k * 4) h

value_of_bytes-bytes_of_value :
    (t : FieldType) (v : Value t) → Fits t v → value_of_bytes t (bytes_of_value t v) ≡ v
unfolding Value Fits bytes_of_value value_of_bytes
value_of_bytes-bytes_of_value (integer n) v h = from_le_bytes-to_le_bytes n v h
value_of_bytes-bytes_of_value (byte_array n) v h = refl
value_of_bytes-bytes_of_value (word_array n) v (h, hs) = words_of_bytes-bytes_of_words n v h hs

-- A replacement does not reach what lies before it.
pub take-drop-splice_before :
    (o p n : ℕ) (bs ys : List ℕ) → p + n ≤ o → take n (drop p (splice o bs ys)) ≡ take n (drop p ys)
unfolding splice
take-drop-splice_before o p n bs [] h = refl
take-drop-splice_before zero zero zero [] (y ∷ ys) h = refl
take-drop-splice_before zero zero zero (b ∷ bs) (y ∷ ys) h = refl
take-drop-splice_before zero zero (suc n) bs (y ∷ ys) h = absurd (omega (arith, h))
take-drop-splice_before zero (suc p) n bs (y ∷ ys) h = absurd (omega (arith, h))
take-drop-splice_before (suc o) zero zero bs (y ∷ ys) h = refl
take-drop-splice_before (suc o) zero (suc n) bs (y ∷ ys) h =
    ap (λ l. y ∷ l) (take-drop-splice_before o zero n bs ys (omega (arith, h)))
take-drop-splice_before (suc o) (suc p) n bs (y ∷ ys) h =
    take-drop-splice_before o p n bs ys (omega (arith, h))

-- Later fields leave earlier bytes.
write_fields_before :
    (fs : List Field) (vs : Values fs) (raw : List ℕ) (p n low high : ℕ)
    → in_order fs low high ≡ true
    → p + n ≤ low
    → take n (drop p (write_fields fs vs raw)) ≡ take n (drop p raw)
unfolding write_fields in_order field_write Values
write_fields_before [] vs raw p n low high h k = refl
write_fields_before (f ∷ fs) (v, vs) raw p n low high h k =
    write_fields_before fs vs (splice f.offset (bytes_of_value f.typ v) raw) p n
      (f.offset + size_of f.typ) high (ground (arith, h)) (ground (arith, h, k))
    ∙ take-drop-splice_before f.offset p n (bytes_of_value f.typ v) raw (ground (arith, h, k))

in_order_le : (fs : List Field) (low high : ℕ) → in_order fs low high ≡ true → low ≤ high
unfolding in_order
in_order_le [] low high h = ground (arith, h)
in_order_le (f ∷ fs) low high h =
    ground (arith, h, in_order_le fs (f.offset + size_of f.typ) high (ground (arith, h)))

-- For every struct whose fields lie one after the other within its record on disk, and all values of the fields' Rust types,
-- writing all fields into a record of that length and reading them gives the values back.
pub from_bytes-write_fields :
    (fs : List Field) (vs : Values fs) (raw : List ℕ) (low : ℕ)
    → in_order fs low (length raw) ≡ true
    → AllFit fs vs
    → from_bytes fs (write_fields fs vs raw) ≡ vs
unfolding from_bytes write_fields in_order AllFit Values
from_bytes-write_fields [] vs raw low h fit = refl
from_bytes-write_fields (f ∷ fs) (v, vs) raw low h (fit, fits) =
    let next : List ℕ = splice f.offset (bytes_of_value f.typ v) raw in
    let start = f.offset + size_of f.typ in
    let same = length-splice f.offset (bytes_of_value f.typ v) raw in
    let size = length-bytes_of_value f.typ v fit in
    let order : in_order fs start (length raw) ≡ true = ground (arith, h) in
    let within = in_order_le fs start (length raw) order in
    let first : field_read f (write_fields fs vs next) ≡ v =
      ap (λ l. value_of_bytes f.typ l)
        (write_fields_before fs vs next f.offset (size_of f.typ) start (length raw) order
            (omega arith)
          ∙ rw size at (
              take-drop-splice f.offset (bytes_of_value f.typ v) raw (omega (arith, size, within))))
      ∙ value_of_bytes-bytes_of_value f.typ v fit in
    let rest : from_bytes fs (write_fields fs vs next) ≡ vs =
      from_bytes-write_fields fs vs next start (rw same order) fits in
    rw (first, rest) refl
