-- ===== src/Ext2/Records/Bytefield.antt =====
-- kernel/ext2/src/bytefield.rs: the macro that reads the fields of a struct from the bytes of a record on
-- disk and writes them into one. A struct is here the list of its fields and the tuple of their values.
use muffin.Base.{
  ℕ, zero, suc, ◌+◌, ◌*◌, ◌/◌, ◌%◌, ◌^◌, ◌<◌, ◌≡◌, Bool, ◌&&◌, List, [], ◌∷◌, ◌++◌, length, take,
  drop, leb,
}
use muffin.BlockDevice.Writes.{splice}

-- The types a field can have: an integer of some bytes, `[u8; n]` and `[u32; n]`.
pub data FieldType : Type 0 where
  integer : ℕ → FieldType
  byte_array : ℕ → FieldType
  word_array : ℕ → FieldType

pub record Field : Type 0 where
  pub typ : FieldType
  pub offset : ℕ

-- `size_of`.
unfoldable pub size_of : FieldType → ℕ
size_of (integer n) = n
size_of (byte_array n) = n
size_of (word_array n) = n * 4

unfoldable pub Value : FieldType → Type 0
Value (integer n) = ℕ
Value (byte_array n) = List ℕ
Value (word_array n) = List ℕ

-- `to_le_bytes` of an integer of `n` bytes.
unfoldable pub to_le_bytes : ℕ → ℕ → List ℕ
to_le_bytes zero a = []
to_le_bytes (suc n) a = (a % 256) ∷ to_le_bytes n (a / 256)

-- `from_le_bytes`.
unfoldable pub from_le_bytes : List ℕ → ℕ
from_le_bytes [] = 0
from_le_bytes (b ∷ bs) = b + 256 * from_le_bytes bs

-- The words of `n` chunks of four bytes.
unfoldable pub words_of_bytes : ℕ → List ℕ → List ℕ
unfolding from_le_bytes
words_of_bytes zero bs = []
words_of_bytes (suc n) bs = from_le_bytes (take 4 bs) ∷ words_of_bytes n (drop 4 bs)

unfoldable pub bytes_of_words : List ℕ → List ℕ
unfolding to_le_bytes
bytes_of_words [] = []
bytes_of_words (w ∷ ws) = to_le_bytes 4 w ++ bytes_of_words ws

-- The value that the bytes of a field hold.
unfoldable pub value_of_bytes : (t : FieldType) → List ℕ → Value t
unfolding Value from_le_bytes words_of_bytes
value_of_bytes (integer n) bs = from_le_bytes bs
value_of_bytes (byte_array n) bs = bs
value_of_bytes (word_array n) bs = words_of_bytes n bs

unfoldable pub bytes_of_value : (t : FieldType) → Value t → List ℕ
unfolding Value to_le_bytes bytes_of_words
bytes_of_value (integer n) v = to_le_bytes n v
bytes_of_value (byte_array n) v = v
bytes_of_value (word_array n) v = bytes_of_words v

-- `bytefield_field_read`.
unfoldable pub field_read : (f : Field) → List ℕ → Value f.typ
unfolding value_of_bytes size_of
field_read f source = value_of_bytes f.typ (take (size_of f.typ) (drop f.offset source))

-- `bytefield_field_write`.
unfoldable pub field_write : (f : Field) → Value f.typ → List ℕ → List ℕ
unfolding bytes_of_value splice
field_write f v target = splice f.offset (bytes_of_value f.typ v) target

-- The values of the fields of a struct.
unfoldable pub Values : List Field → Type 0
unfolding Value
Values [] = Unit {0}
Values (f ∷ fs) = Value f.typ × Values fs

-- A field's value before those of the others.
infixr 45 ◌&◌
abbrev pub ◌&◌ : {A B : Type 0} → A → B → A × B
a & b = (a, b)

-- What makes an `A` of the fields' values, one after the other.
unfoldable pub Builder : List Field → Type 0 → Type 0
unfolding Value
Builder [] A = A
Builder (f ∷ fs) A = Value f.typ → Builder fs A

unfoldable pub build : {A : Type 0} (fs : List Field) → Builder fs A → Values fs → A
unfolding Builder Values
build [] b vs = b
build (f ∷ fs) b (v, vs) = build fs (b v) vs

-- `try_from` the bytes.
unfoldable pub from_bytes : (fs : List Field) → List ℕ → Values fs
unfolding Values field_read
from_bytes [] source = tt
from_bytes (f ∷ fs) source = (field_read f source, from_bytes fs source)

-- The writes of all the fields, in their order.
unfoldable pub write_fields : (fs : List Field) → Values fs → List ℕ → List ℕ
unfolding Values field_write
write_fields [] vs target = target
write_fields (f ∷ fs) (v, vs) target = write_fields fs vs (field_write f v target)

-- The fields lie one after the other from byte `low` on, and end by byte `high`.
unfoldable pub in_order : List Field → ℕ → ℕ → Bool
unfolding size_of
in_order [] low high = leb low high
in_order (f ∷ fs) low high = leb low f.offset && in_order fs (f.offset + size_of f.typ) high

-- All words are of 32 bits.
unfoldable pub AreWords : List ℕ → Type 0
AreWords [] = Unit {0}
AreWords (w ∷ ws) = (w < 2 ^ 32) × AreWords ws

-- The value is one of the field's type in Rust.
unfoldable pub Fits : (t : FieldType) → Value t → Type 0
unfolding Value AreWords
Fits (integer n) v = v < 256 ^ n
Fits (byte_array n) v = length v ≡ n
Fits (word_array n) v = (length v ≡ n) × AreWords v

unfoldable pub AllFit : (fs : List Field) → Values fs → Type 0
unfolding Values Fits
AllFit [] vs = Unit {0}
AllFit (f ∷ fs) (v, vs) = Fits f.typ v × AllFit fs vs
