-- ===== src/Tests/Relations.antt =====
-- storage/Relation.cpp: a relation with a character column and a string column.
use inkfuse.Base.{
  ℕ, ◌+◌, ◌-◌, ◌++◌, ◌||◌, ap, ltb, if◌then◌else◌, Bool-cases, ◌*◌, ◌≡◌, ◌⊎◌, refl, inl, inr, true,
  none, some, List, [], ◌∷◌, arith,
}
use inkfuse.Runtime.Comparator.{same_bytes}
use inkfuse.Storage.{
  Bytes, char, signed_int, done, threw, load_int, int_loader, resolve_loader, PodColumn, Column,
  pod, str, num_bytes, column_length, resize, index_of_bar, field_end, text_at, field_length,
  Conversions, le_bytes, first_byte, load_val, load_value, load_columns, load_row, load_rows,
}
use inkfuse.Storage.Fields.{
  StopsAtBar, AllAligned, IsAligned, AllFields, line_of, feed, feed_all, zeros,
}
use inkfuse.Storage.Rows.{load_row-feed_all}
use inkfuse.Storage.Lengths.{AllTyped, IsTyped, Grown, load_rows-Grown}
use inkfuse.Storage.Schema.{
  get_column, get_column_id, get_column_at, has_name, attach_pod_column, attach_string_column,
}
use inkfuse.Storage.Schema.Names.{
  AreUnique, Attached, attach_pod_column-Attached, get_column_at-get_column_id,
}

-- the digits in front of the first other byte
abbrev number : ℕ → Bytes → ℕ
number n [] = n
number n (b ∷ bs) = if ltb b b'0' || ltb b'9' b then n else number (10 * n + (b - b'0')) bs

-- conversions that read digits
abbrev digits : Conversions
digits = record {
  stoll = λ text. some (number 0 text);
  stoull = λ text. some (number 0 text);
  stof = λ text. some (number 0 text);
  stod = λ text. some (number 0 text);
  from_stream = λ text. number 0 text;
}

number_stops : (n : ℕ) (f more : Bytes) → number n (f ++ b'|' ∷ more) ≡ number n (f ++ b'|' ∷ [])
number_stops n [] more = refl
number_stops n (b ∷ f) more = elim (Bool-cases (ltb b b'0' || ltb b'9' b)) [
  | inl stop ↦ rw stop refl
  | inr on ↦ rw on (number_stops (10 * n + (b - b'0')) f more)
]

digits-StopsAtBar : StopsAtBar digits
digits-StopsAtBar = record {
  stoll_stops = λ f more. ap some (number_stops 0 f more);
  stoull_stops = λ f more. ap some (number_stops 0 f more);
  stof_stops = λ f more. ap some (number_stops 0 f more);
  stod_stops = λ f more. ap some (number_stops 0 f more);
  from_stream_stops = λ f more. number_stops 0 f more;
}

abbrev number_column : Column
number_column =
    pod (record { type_ = signed_int 2; loader = load_int 2; storage = []; storage_offset = 0 })

abbrev id : Bytes
id = b'i' ∷ b'd' ∷ []

abbrev name : Bytes
name = b'n' ∷ []

abbrev columns : List (Bytes × Column)
columns = (id, number_column) ∷ (name, str (record { strings = [] })) ∷ []

program : Unit {0}
unfolding same_bytes int_loader resolve_loader num_bytes column_length resize index_of_bar field_end
    text_at field_length le_bytes first_byte load_val load_value load_columns load_row load_rows
    IsAligned AllAligned AllFields line_of feed feed_all zeros IsTyped AllTyped Grown get_column
    get_column_id get_column_at has_name attach_pod_column attach_string_column AreUnique
program = tt

abbrev twelve : Bytes
twelve = b'1' ∷ b'2' ∷ []

abbrev letters : Bytes
letters = b'a' ∷ b'b' ∷ []

-- the fields `12` and `ab`
row_is_loaded : load_row digits columns (b'1' ∷ b'2' ∷ b'|' ∷ b'a' ∷ b'b' ∷ b'|' ∷ []) ≡ (
  (
    id,
    pod (record {
      type_ = signed_int 2;
      loader = load_int 2;
      storage = 12 ∷ 0 ∷ [];
      storage_offset = 2;
    }),
  )
      ∷ (name, str (record { strings = letters ∷ [] }))
      ∷ [],
  done,
)
unfolding program
row_is_loaded = refl

-- a row of one field ends in the exception
row_is_short : (load_row digits columns (b'1' ∷ b'2' ∷ b'|' ∷ [])).1 ≡ threw
unfolding program
row_is_short = refl

-- a string of 4095 bytes does not fit into a region, and one of 4094 does
long_string_fails : (load_value digits (str (record { strings = [] })) (some []) 4095).1 ≡ threw
unfolding program
long_string_fails = refl

load_row-feed_all_example :
    load_row digits columns (line_of (twelve ∷ letters ∷ []))
    ≡ feed_all digits columns (twelve ∷ letters ∷ [])
unfolding program
load_row-feed_all_example =
    load_row-feed_all digits columns (twelve ∷ letters ∷ []) digits-StopsAtBar (omega arith)
      (refl, (tt, tt)) (refl, (refl, tt))

load_rows-Grown_example :
    AllTyped (load_rows digits columns (line_of (twelve ∷ letters ∷ []) ∷ [])).0
    × Grown 1 columns (load_rows digits columns (line_of (twelve ∷ letters ∷ []) ∷ [])).0
unfolding program
load_rows-Grown_example =
    load_rows-Grown digits (line_of (twelve ∷ letters ∷ []) ∷ []) columns ((refl, refl), (tt, tt))
      refl

columns-AreUnique : AreUnique columns
unfolding program
columns-AreUnique = (refl, (refl, tt))

attach_pod_column-Attached_example :
    ((attach_pod_column columns letters char ≡ none)
      × ((has_name letters columns ≡ true) ⊎ (resolve_loader char ≡ none)))
    ⊎ ((c : PodColumn) × (columns' : List (Bytes × Column)) × (attach_pod_column columns letters
            char
          ≡ some columns')
        × (resolve_loader char ≡ some c.loader)
        × (c.storage ≡ [])
        × Attached columns letters (pod c) columns')
attach_pod_column-Attached_example =
    attach_pod_column-Attached columns letters char columns-AreUnique

get_column_at-get_column_id_example :
    (n : Bytes) × (c : Column) × (same_bytes n name ≡ true)
    × (get_column_at columns 1 ≡ some (n, c))
    × (get_column name columns ≡ some c)
unfolding program
get_column_at-get_column_id_example = get_column_at-get_column_id name columns 1 refl
