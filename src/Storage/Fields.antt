-- ===== src/Storage/Fields.antt =====
-- storage/Relation.cpp: what a row is to do to the columns, told by its fields.
use inkfuse.Base.{
  ℕ, zero, suc, ◌+◌, ◌≡◌, none, some, List, [], ◌∷◌, ◌++◌, length, ltb, if◌then◌else◌,
}
use inkfuse.Storage.{
  Bytes, num_bytes, Ending, done, threw, out_of_bounds, Column, pod, str, index_of_bar, Conversions,
  load_val,
}

-- The conversions of the libraries ignore a '|' and what follows it.
pub record StopsAtBar (k : Conversions) : Type 0 where
  pub stoll_stops : (f more : Bytes) → k.stoll (f ++ b'|' ∷ more) ≡ k.stoll (f ++ b'|' ∷ [])
  pub stoull_stops : (f more : Bytes) → k.stoull (f ++ b'|' ∷ more) ≡ k.stoull (f ++ b'|' ∷ [])
  pub stof_stops : (f more : Bytes) → k.stof (f ++ b'|' ∷ more) ≡ k.stof (f ++ b'|' ∷ [])
  pub stod_stops : (f more : Bytes) → k.stod (f ++ b'|' ∷ more) ≡ k.stod (f ++ b'|' ∷ [])
  pub from_stream_stops :
      (f more : Bytes) → k.from_stream (f ++ b'|' ∷ more) ≡ k.from_stream (f ++ b'|' ∷ [])

unfoldable pub IsAligned : Column → Type 0
IsAligned (pod c) = length c.storage ≡ c.storage_offset
IsAligned (str c) = Unit

unfoldable pub AllAligned : List (Bytes × Column) → Type 0
unfolding IsAligned
AllAligned [] = Unit
AllAligned ((name, c) ∷ cs) = IsAligned c × AllAligned cs

-- The fields hold no '|'.
unfoldable pub AllFields : List Bytes → Type 0
AllFields [] = Unit
AllFields (f ∷ fs) = (index_of_bar f ≡ none) × AllFields fs

-- The text of a row in which each field is closed by a '|'.
unfoldable pub line_of : List Bytes → Bytes
line_of [] = []
line_of (f ∷ fs) = f ++ b'|' ∷ line_of fs

unfoldable pub zeros : ℕ → Bytes
zeros zero = []
zeros (suc n) = 0 ∷ zeros n

-- What a column becomes by one more field, told without positions. A string and its terminating
-- zero are to be shorter than 4096 bytes.
unfoldable pub feed : Conversions → Column → Bytes → Column × Ending
unfolding zeros
feed k (pod c) field = elim (load_val k c.loader (field ++ b'|' ∷ [])) [
  | none ↦ (pod (record c { storage = c.storage ++ zeros (num_bytes c.type_) }), threw)
  | some value ↦ (
    pod (record c {
      storage = c.storage ++ value;
      storage_offset = c.storage_offset + num_bytes c.type_;
    }),
    done,
  )
]
feed k (str c) field =
    if ltb (length field + 1) 4096
    then (str (record { strings = c.strings ++ field ∷ [] }), done)
    else (str c, threw)

-- What the columns become by the fields of a row: each takes one field, a missing field ends the
-- row in an exception, and fields behind the last column are ignored.
unfoldable pub feed_all :
    Conversions → List (Bytes × Column) → List Bytes → List (Bytes × Column) × Ending
unfolding feed
feed_all k [] fields = ([], done)
feed_all k ((name, c) ∷ cs) [] = ((name, c) ∷ cs, threw)
feed_all k ((name, c) ∷ cs) (f ∷ fs) =
    let fed = feed k c f in
    let rest = feed_all k cs fs in
    elim fed.1 [
      | done ↦ ((name, fed.0) ∷ rest.0, rest.1)
      | threw ↦ ((name, fed.0) ∷ cs, threw)
      | out_of_bounds ↦ ((name, fed.0) ∷ cs, out_of_bounds)
    ]
