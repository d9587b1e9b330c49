-- ===== src/Storage/Schema/Names.antt =====
-- storage/Relation.cpp: the names of the columns stay unique, and the ways to reach a column agree.
use inkfuse.Base.{
  ℕ, suc, ◌+◌, ◌≡◌, refl, sym, subst, ◌∙◌, ◌⊎◌, inl, inr, true, false, none, some, List, [], ◌∷◌,
  ◌++◌, arith, leb, ◌==◌, ==→eq, eq→==, Bool-cases, Option-cases, length, length-append, get_elem?,
  get_elem?-none,
}
use inkfuse.Runtime.Comparator.{same_bytes}
use inkfuse.Storage.{Bytes, Column, pod, str, ColumnType, resolve_loader, PodColumn}
use inkfuse.Storage.Schema.{
  get_column, get_column_id, get_column_at, column_count, has_name, attach_pod_column,
  attach_string_column,
}

-- No two columns have one name.
unfoldable pub AreUnique : List (Bytes × Column) → Type 0
AreUnique [] = Unit
AreUnique ((n, c) ∷ cs) = (has_name n cs ≡ false) × AreUnique cs

same_bytes_refl : (xs : Bytes) → same_bytes xs xs ≡ true
unfolding same_bytes
same_bytes_refl [] = refl
same_bytes_refl (x ∷ xs) = rw (eq→== x x refl) (same_bytes_refl xs)

same_bytes-false_sym : (xs ys : Bytes) → same_bytes xs ys ≡ false → same_bytes ys xs ≡ false
unfolding same_bytes
same_bytes-false_sym [] [] h = h
same_bytes-false_sym [] (y ∷ ys) h = refl
same_bytes-false_sym (x ∷ xs) [] h = refl
same_bytes-false_sym (x ∷ xs) (y ∷ ys) h = elim (Bool-cases (x == y)) [
  | inl here ↦
      let tails = (rw here at h) in
      rw (eq→== y x (sym (==→eq x y here)), same_bytes-false_sym xs ys tails) refl
  | inr apart ↦ let apart' : y == x ≡ false = ground (arith, apart) in rw apart' refl
]

-- The head of a list without the name has another name.
has_name-cons :
    (m n : Bytes) (c : Column) (cs : List (Bytes × Column))
    → has_name m ((n, c) ∷ cs) ≡ false
    → (same_bytes n m ≡ false) × (has_name m cs ≡ false)
unfolding has_name
has_name-cons m n c cs h = elim (Bool-cases (same_bytes n m)) [
  | inl here ↦ let bad = (rw here at h) in cc
  | inr other ↦ (other, rw other at h)
]

-- A column attached at the end.
has_name-append :
    (m n : Bytes) (c : Column) (cs : List (Bytes × Column))
    → has_name m cs ≡ false
    → same_bytes n m ≡ false
    → has_name m (cs ++ (n, c) ∷ []) ≡ false
unfolding has_name
has_name-append m n c [] h apart = rw apart refl
has_name-append m n c ((n', c') ∷ cs) h apart =
    let (other, rest) = has_name-cons m n' c' cs h in
    rw (other, has_name-append m n c cs rest apart) refl

AreUnique-append :
    (n : Bytes) (c : Column) (cs : List (Bytes × Column))
    → has_name n cs ≡ false
    → AreUnique cs
    → AreUnique (cs ++ (n, c) ∷ [])
unfolding AreUnique has_name
AreUnique-append n c [] h u = (refl, tt)
AreUnique-append n c ((n', c') ∷ cs) h u =
    let (other, rest) = has_name-cons n n' c' cs h in
    (
      has_name-append n' n c cs u.0 (same_bytes-false_sym n' n other),
      AreUnique-append n c cs rest u.1,
    )

get_column-append :
    (n : Bytes) (c : Column) (cs : List (Bytes × Column))
    → has_name n cs ≡ false
    → get_column n (cs ++ (n, c) ∷ []) ≡ some c
unfolding get_column
get_column-append n c [] h = rw (same_bytes_refl n) refl
get_column-append n c ((n', c') ∷ cs) h =
    let (other, rest) = has_name-cons n n' c' cs h in rw other (get_column-append n c cs rest)

get_column_id-append :
    (n : Bytes) (c : Column) (cs : List (Bytes × Column))
    → has_name n cs ≡ false
    → get_column_id n (cs ++ (n, c) ∷ []) ≡ some (length cs)
unfolding get_column_id
get_column_id-append n c [] h = rw (same_bytes_refl n) refl
get_column_id-append n c ((n', c') ∷ cs) h =
    let (other, rest) = has_name-cons n n' c' cs h in
    rw (other, get_column_id-append n c cs rest) refl

get_column-others :
    (m n : Bytes) (c : Column) (cs : List (Bytes × Column))
    → same_bytes n m ≡ false
    → get_column m (cs ++ (n, c) ∷ []) ≡ get_column m cs
unfolding get_column
get_column-others m n c [] apart = rw apart refl
get_column-others m n c ((n', c') ∷ cs) apart = rw (get_column-others m n c cs apart) refl

-- `columns'` is `columns` with the column `c` attached under `name`.
pub record Attached (columns : List (Bytes × Column)) (name : Bytes) (c : Column)
    (columns' : List (Bytes × Column)) : Type 0 where
  pub unique : AreUnique columns'
  pub count : column_count columns' ≡ column_count columns + 1
  pub found : get_column name columns' ≡ some c
  pub id : get_column_id name columns' ≡ some (column_count columns)
  pub others :
      (m : Bytes) → same_bytes name m ≡ false → get_column m columns' ≡ get_column m columns

appended-Attached :
    (n : Bytes) (c : Column) (cs : List (Bytes × Column))
    → has_name n cs ≡ false
    → AreUnique cs
    → Attached cs n c (cs ++ (n, c) ∷ [])
unfolding column_count
appended-Attached n c cs h u = record {
  unique = AreUnique-append n c cs h u;
  count = omega (arith, length-append cs ((n, c) ∷ []));
  found = get_column-append n c cs h;
  id = get_column_id-append n c cs h;
  others = λ m apart. get_column-others m n c cs apart;
}

-- `attachPODColumn`, if the names of the columns are unique, throws if the name is taken or the
-- type has no loading function. Otherwise it attaches an empty column under the name: names stay
-- unique, the column is found by its name and has the last index, and each other name finds what
-- it found before.
pub attach_pod_column-Attached :
    (columns : List (Bytes × Column)) (name : Bytes) (type_ : ColumnType)
    → AreUnique columns
    → ((attach_pod_column columns name type_ ≡ none)
        × ((has_name name columns ≡ true) ⊎ (resolve_loader type_ ≡ none)))
      ⊎ ((c : PodColumn) × (columns' : List (Bytes × Column)) × (attach_pod_column columns name
              type_
            ≡ some columns')
          × (resolve_loader type_ ≡ some c.loader)
          × (c.storage ≡ [])
          × Attached columns name (pod c) columns')
unfolding attach_pod_column
attach_pod_column-Attached columns name type_ u = elim (Bool-cases (has_name name columns)) [
  | inl taken ↦ inl (rw taken refl, inl taken)
  | inr new ↦ elim (Option-cases (resolve_loader type_)) [
    | inl unsupported ↦ inl (rw (new, unsupported) refl, inr unsupported)
    | inr (l, e) ↦ inr (
      record { type_ = type_; loader = l; storage = []; storage_offset = 0 },
      _,
      rw (new, e) refl,
      e,
      refl,
      appended-Attached name _ columns new u,
    )
  ]
]

-- `attachStringColumn`, if the names of the columns are unique, throws if the name is taken.
-- Otherwise it attaches an empty column: names stay unique, the column is found by its name and
-- has the last index, and each other name finds what it found before.
attach_string_column-Attached :
    (columns : List (Bytes × Column)) (name : Bytes)
    → AreUnique columns
    → ((attach_string_column columns name ≡ none) × (has_name name columns ≡ true))
      ⊎ ((columns' : List (Bytes × Column)) × (attach_string_column columns name ≡ some columns')
          × Attached columns name (str (record { strings = [] })) columns')
unfolding attach_string_column
attach_string_column-Attached columns name u = elim (Bool-cases (has_name name columns)) [
  | inl taken ↦ inl (rw taken refl, taken)
  | inr new ↦ inr (_, rw new refl, appended-Attached name _ columns new u)
]

get_column_at_lem :
    (columns : List (Bytes × Column)) (i : ℕ) → get_column_at columns i ≡ get_elem? columns i
unfolding get_column_at
get_column_at_lem columns i = elim (Bool-cases (leb (length columns) i)) [
  | inl past ↦ rw past (sym (get_elem?-none columns i (ground (arith, past))))
  | inr inside ↦ rw inside refl
]

at_zero :
    (cs : List (Bytes × Column)) (e : Bytes × Column) (i : ℕ)
    → some 0 ≡ some i
    → get_elem? (e ∷ cs) i ≡ some e
at_zero cs e i h = let same : 0 ≡ i = cc in subst (λ j. get_elem? (e ∷ cs) j ≡ some e) same refl

at_suc :
    (cs : List (Bytes × Column)) (e d : Bytes × Column) (i j : ℕ)
    → some (suc j) ≡ some i
    → get_elem? cs j ≡ some e
    → get_elem? (d ∷ cs) i ≡ some e
at_suc cs e d i j h g =
    let same : suc j ≡ i = cc in subst (λ j'. get_elem? (d ∷ cs) j' ≡ some e) same g

elem_of_id :
    (name : Bytes) (columns : List (Bytes × Column)) (i : ℕ)
    → get_column_id name columns ≡ some i
    → (n : Bytes) × (c : Column) × (same_bytes n name ≡ true)
      × (get_elem? columns i ≡ some (n, c))
      × (get_column name columns ≡ some c)
unfolding get_column_id get_column
elem_of_id name [] i h = cc
elem_of_id name ((n, c) ∷ cs) i h = elim (Bool-cases (same_bytes n name)) [
  | inl here ↦ let first = (rw here at h) in (n, c, here, at_zero cs (n, c) i first, rw here refl)
  | inr other ↦
      let rest = (rw other at h) in
      elim (Option-cases (get_column_id name cs)) [
        | inl missing ↦ let bad = (rw missing at rest) in cc
        | inr (j, e) ↦
            let (m, d, same, at_, found) = elem_of_id name cs j e in
            let next = (rw e at rest) in
            (m, d, same, at_suc cs (m, d) (n, c) i j next at_, rw other found)
      ]
]

-- The index that `getColumnId` returns for a name leads `getColumn` to a column of that name,
-- which is the one that `getColumn` returns for the name.
pub get_column_at-get_column_id :
    (name : Bytes) (columns : List (Bytes × Column)) (i : ℕ)
    → get_column_id name columns ≡ some i
    → (n : Bytes) × (c : Column) × (same_bytes n name ≡ true)
      × (get_column_at columns i ≡ some (n, c))
      × (get_column name columns ≡ some c)
get_column_at-get_column_id name columns i h =
    let (n, c, same, at_, found) = elem_of_id name columns i h in
    (n, c, same, get_column_at_lem columns i ∙ at_, found)
