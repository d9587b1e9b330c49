-- ===== src/Storage.antt =====
-- storage/Relation.h and Relation.cpp: columns, and the loading of rows from text.
--
-- A text is the list of its bytes. The conversions of the standard library and of the date library
-- are the fields of the parameter `k`.
pub mod Fields
pub mod Rows
pub mod Lengths
pub mod Missing
pub mod Schema
use inkfuse.Base.{
  ℕ, zero, suc, ◌+◌, ◌-◌, ◌*◌, ◌/◌, ◌%◌, ◌^◌, ◌≡◌, refl, ◌⊎◌, inl, inr, Bool, true, false, ◌||◌,
  Option, none, some, List, [], ◌∷◌, ◌++◌, ltb, leb, ◌==◌, if◌then◌else◌, length, take, drop,
  get_elem?,
}
use mathlib.Core.Option
use inkfuse.Runtime.Comparator.{same_bytes}

abbrev pub Bytes : Type 0
Bytes = List ℕ

-- `codegen/Type.h`, as far as columns tell types apart; a width is a number of bytes
pub data ColumnType : Type 0 where
  date : ColumnType
  signed_int : ℕ → ColumnType
  unsigned_int : ℕ → ColumnType
  float : ℕ → ColumnType
  char : ColumnType
  other : ℕ → ColumnType

unfoldable pub num_bytes : ColumnType → ℕ
num_bytes date = 4
num_bytes (signed_int w) = w
num_bytes (unsigned_int w) = w
num_bytes (float w) = w
num_bytes char = 1
num_bytes (other w) = w

-- the functions of which `load_val` is one
pub data Loader : Type 0 where
  load_date : Loader
  load_int : ℕ → Loader
  load_uint : ℕ → Loader
  load_float : Loader
  load_double : Loader
  load_char : Loader

-- A call ends normally, in an exception or a failed assertion, or in an access outside of the text or
-- of the memory for it, which is undefined.
pub data Ending : Type 0 where
  done threw out_of_bounds : Ending

pub Ending-cases : (e : Ending) → (e ≡ done) ⊎ (e ≡ threw) ⊎ (e ≡ out_of_bounds)
Ending-cases done = inl refl
Ending-cases threw = inr (inl refl)
Ending-cases out_of_bounds = inr (inr refl)

unfoldable pub int_loader : (ℕ → Loader) → ℕ → Option Loader
int_loader load w =
    if w == 1
    then some (load 1)
    else if w == 2
    then some (load 2)
    else if w == 4
    then some (load 4)
    else if w == 8
    then some (load 8)
    else none

-- the constructor of `PODColumn`, which throws where this is `none`
unfoldable pub resolve_loader : ColumnType → Option Loader
unfolding int_loader
resolve_loader date = some load_date
resolve_loader (signed_int w) = int_loader load_int w
resolve_loader (unsigned_int w) = int_loader load_uint w
resolve_loader (float w) =
    if w == 4 then some load_float else if w == 8 then some load_double else none
resolve_loader char = some load_char
resolve_loader (other w) = none

pub record PodColumn : Type 0 where
  pub type_ : ColumnType
  pub loader : Loader
  pub storage : Bytes
  pub storage_offset : ℕ

-- The strings to which `offsets` points, without their terminating zero.
pub record StringColumn : Type 0 where
  pub strings : List Bytes

pub data Column : Type 0 where
  pod : PodColumn → Column
  str : StringColumn → Column

unfoldable pub column_length : Column → ℕ
unfolding num_bytes
column_length (pod c) = length c.storage / num_bytes c.type_
column_length (str c) = length c.strings

-- `storage.resize(n)`
unfoldable pub resize : ℕ → Bytes → Bytes
resize zero xs = []
resize (suc n) [] = 0 ∷ resize n []
resize (suc n) (x ∷ xs) = x ∷ resize n xs

-- `str.find('|', pos)`
unfoldable pub index_of_bar : Bytes → Option ℕ
index_of_bar [] = none
index_of_bar (b ∷ bs) = if b == b'|' then some 0 else Option.map suc (index_of_bar bs)

unfoldable pub field_end : Bytes → ℕ → ℕ
unfolding index_of_bar
field_end line pos = elim (index_of_bar (drop pos line)) [ none ↦ length line | some k ↦ pos + k ]

-- `str.data() + pos`
unfoldable pub text_at : Bytes → ℕ → Option Bytes
text_at line pos = if leb pos (length line) then some (drop pos line) else none

-- `end - currPos`, a `size_t` that is passed as a `uint32_t`
unfoldable pub field_length : ℕ → ℕ → ℕ
field_length end pos = (end + 2 ^ 64 - pos) % 2 ^ 32

-- The results of `stoll` and `stoull` modulo 2^64, of `stof` and `stod` as bits, and of
-- `date::from_stream` modulo 2^32; `none` is an exception.
pub record Conversions : Type 0 where
  pub stoll : Bytes → Option ℕ
  pub stoull : Bytes → Option ℕ
  pub stof : Bytes → Option ℕ
  pub stod : Bytes → Option ℕ
  pub from_stream : Bytes → ℕ

-- a number of `w` bytes in memory, least byte first; higher bits are cut off
unfoldable pub le_bytes : ℕ → ℕ → Bytes
le_bytes zero n = []
le_bytes (suc w) n = n % 2 ^ 8 ∷ le_bytes w (n / 2 ^ 8)

-- `*str`; behind the text stands a zero
unfoldable pub first_byte : Bytes → ℕ
first_byte [] = 0
first_byte (b ∷ bs) = b

-- the bytes that the loading function writes for the text from `str` on
unfoldable pub load_val : Conversions → Loader → Bytes → Option Bytes
unfolding le_bytes first_byte
load_val k load_date text = some (le_bytes 4 (k.from_stream text))
load_val k (load_int w) text = Option.map (le_bytes w) (k.stoll text)
load_val k (load_uint w) text = Option.map (le_bytes w) (k.stoull text)
load_val k load_float text = Option.map (le_bytes 4) (k.stof text)
load_val k load_double text = Option.map (le_bytes 8) (k.stod text)
load_val k load_char text = some (first_byte text ∷ [])

-- `REGION_SIZE` of `MemoryRegion`
abbrev pub max_alloc : ℕ
max_alloc = 8 * 512

module _ (k : Conversions) where
  -- `loadValue` on the text from the value's first byte to the end of the line; `none` is a position
  -- behind the terminating zero. A string is copied to `alloc(strLen + 1)`, of which the argument is
  -- a `uint32_t` that `alloc` asserts to be less than a region.
  unfoldable pub load_value : Column → Option Bytes → ℕ → Column × Ending
  unfolding resize num_bytes load_val
  load_value (pod c) none str_len = (pod c, out_of_bounds)
  load_value (pod c) (some text) str_len =
      let room = resize (c.storage_offset + num_bytes c.type_) c.storage in
      elim (load_val k c.loader text) [
        | none ↦ (pod (record c { storage = room }), threw)
        | some value ↦ (
          pod (record c {
            storage = take c.storage_offset room ++ value;
            storage_offset = c.storage_offset + num_bytes c.type_;
          }),
          done,
        )
      ]
  load_value (str c) text str_len =
      if leb max_alloc ((str_len + 1) % 2 ^ 32) then (str c, threw) else elim text [
        | none ↦ (str c, out_of_bounds)
        | some bytes ↦
            if leb max_alloc str_len || ltb (length bytes + 1) str_len
            then (str c, out_of_bounds)
            else (str (record { strings = c.strings ++ take str_len bytes ∷ [] }), done)
      ]

  -- the columns that were loaded before an exception keep their new value
  unfoldable pub load_columns : Bytes → ℕ → List (Bytes × Column) → List (Bytes × Column) × Ending
  load_columns line pos [] = ([], done)
  load_columns line pos ((name, c) ∷ cs) =
      let end = field_end line pos in
      let loaded = load_value c (text_at line pos) (field_length end pos) in
      let rest = load_columns line (end + 1) cs in
      if pos == length line then ((name, c) ∷ cs, threw) else elim loaded.1 [
        | done ↦ ((name, loaded.0) ∷ rest.0, rest.1)
        | threw ↦ ((name, loaded.0) ∷ cs, threw)
        | out_of_bounds ↦ ((name, loaded.0) ∷ cs, out_of_bounds)
      ]

  -- `loadRow`; the test for text behind the last column is switched off in the source
  unfoldable pub load_row : List (Bytes × Column) → Bytes → List (Bytes × Column) × Ending
  load_row columns line = load_columns line 0 columns

  -- `loadRows`, on the lines of the stream
  unfoldable pub load_rows : List (Bytes × Column) → List Bytes → List (Bytes × Column) × Ending
  load_rows columns [] = (columns, done)
  load_rows columns (line ∷ lines) =
      let row = load_row columns line in
      let rest = load_rows row.0 lines in
      elim row.1 [ done ↦ rest | threw ↦ (row.0, threw) | out_of_bounds ↦ (row.0, out_of_bounds) ]
