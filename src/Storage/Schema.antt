-- ===== src/Storage/Schema.antt =====
-- storage/Relation.cpp: the columns of a `StoredRelation` by name and by index.
pub mod Names
use inkfuse.Base.{
  ℕ, zero, suc, ◌+◌, ◌-◌, ◌*◌, ◌/◌, ◌%◌, ◌^◌, Bool, true, false, Option, none, some, List, [], ◌∷◌,
  ◌++◌, ltb, leb, ◌==◌, if◌then◌else◌, length, take, drop, get_elem?,
}
use mathlib.Core.Option
use inkfuse.Runtime.Comparator.{same_bytes}
use inkfuse.Storage.{Bytes, ColumnType, resolve_loader, Column, pod, str, PodColumn, StringColumn}

-- the columns of a relation by name and by index; `none` is an exception
unfoldable pub get_column : Bytes → List (Bytes × Column) → Option Column
get_column name [] = none
get_column name ((n, c) ∷ cs) = if same_bytes n name then some c else get_column name cs

unfoldable pub get_column_id : Bytes → List (Bytes × Column) → Option ℕ
get_column_id name [] = none
get_column_id name ((n, c) ∷ cs) =
    if same_bytes n name then some 0 else Option.map suc (get_column_id name cs)

unfoldable pub get_column_at : List (Bytes × Column) → ℕ → Option (Bytes × Column)
get_column_at columns index = if leb (length columns) index then none else get_elem? columns index

unfoldable pub column_count : List (Bytes × Column) → ℕ
column_count columns = length columns

unfoldable pub has_name : Bytes → List (Bytes × Column) → Bool
has_name name [] = false
has_name name ((n, c) ∷ cs) = if same_bytes n name then true else has_name name cs

unfoldable pub attach_pod_column :
    List (Bytes × Column) → Bytes → ColumnType → Option (List (Bytes × Column))
unfolding has_name
attach_pod_column columns name type_ =
    if has_name name columns
    then none
    else Option.map
        (λ loader.
          columns
          ++ (
            name,
            pod (record { type_ = type_; loader = loader; storage = []; storage_offset = 0 }),
          )
            ∷ [])
        (resolve_loader type_)

unfoldable pub attach_string_column : List (Bytes × Column) → Bytes → Option (List (Bytes × Column))
unfolding has_name
attach_string_column columns name =
    if has_name name columns
    then none
    else some (columns ++ (name, str (record { strings = [] })) ∷ [])
