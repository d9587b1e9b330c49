-- ===== src/Storage/Lengths.antt =====
-- storage/Relation.cpp: the lengths of the columns through `loadRow` and `loadRows`.
use inkfuse.Base.{
  leb, ◌||◌, ◌%◌, ◌^◌, ℕ, zero, suc, ◌+◌, ◌/◌, ◌<◌, ◌≡◌, refl, sym, ap, subst, ◌∙◌, inl, inr, true,
  Option, none, some, List, [], ◌∷◌, ◌++◌, arith, ltb, ◌==◌, ==→eq, Bool-cases, Option-cases,
  length, length-append, length-take, take,
}
use mathlib.Core.Option
use native.Mathlib.Nat.{add-div_right}
use inkfuse.Storage.{
  Bytes, ColumnType, date, signed_int, unsigned_int, float, char, other, num_bytes, Loader,
  load_date, load_int, load_uint, load_float, load_double, load_char, int_loader, resolve_loader,
  le_bytes, first_byte, done, Column, pod, str, column_length, resize, Conversions, Ending-cases,
  load_val, max_alloc, load_value, load_columns, load_row, load_rows, text_at, field_end,
  field_length,
}

-- A column of plain values has its type's loading function, and its storage ends at its offset.
unfoldable pub IsTyped : Column → Type 0
IsTyped (pod c) = (resolve_loader c.type_ ≡ some c.loader) × (length c.storage ≡ c.storage_offset)
IsTyped (str c) = Unit

unfoldable pub AllTyped : List (Bytes × Column) → Type 0
unfolding IsTyped
AllTyped [] = Unit
AllTyped ((name, c) ∷ cs) = IsTyped c × AllTyped cs

-- The columns have kept their names and have become longer by `rows`.
unfoldable pub Grown : ℕ → List (Bytes × Column) → List (Bytes × Column) → Type 0
Grown rows [] [] = Unit
Grown rows ((n, c) ∷ cs) ((n', c') ∷ cs') =
    (n' ≡ n) × (column_length c' ≡ column_length c + rows) × Grown rows cs cs'
Grown rows _ _ = ⊥

of_width :
    (load : ℕ → Loader) (w n : ℕ) (l : Loader)
    → (w == n) ≡ true
    → 0 < n
    → some (load n) ≡ some l
    → (l ≡ load w) × (0 < w)
of_width load w n l here pos h =
    let same : n ≡ w = ground (arith, here) in
    let l_eq : load n ≡ l = cc in (sym l_eq ∙ ap load same, omega (arith, same, pos))

int_loader_lem :
    (load : ℕ → Loader) (w : ℕ) (l : Loader) → int_loader load w ≡ some l → (l ≡ load w) × (0 < w)
unfolding int_loader
int_loader_lem load w l h = elim (Bool-cases (w == 1)) [
  | inl w₁ ↦ of_width load w 1 l w₁ (omega arith) (rw w₁ at h)
  | inr n₁ ↦
      let h₁ = (rw n₁ at h) in
      elim (Bool-cases (w == 2)) [
        | inl w₂ ↦ of_width load w 2 l w₂ (omega arith) (rw w₂ at h₁)
        | inr n₂ ↦
            let h₂ = (rw n₂ at h₁) in
            elim (Bool-cases (w == 4)) [
              | inl w₄ ↦ of_width load w 4 l w₄ (omega arith) (rw w₄ at h₂)
              | inr n₄ ↦
                  let h₄ = (rw n₄ at h₂) in
                  elim (Bool-cases (w == 8)) [
                    | inl w₈ ↦ of_width load w 8 l w₈ (omega arith) (rw w₈ at h₄)
                    | inr n₈ ↦ let bad = (rw n₈ at h₄) in cc
                  ]
            ]
      ]
]

==→eq' : (w n : ℕ) → (w == n) ≡ true → n ≡ w
==→eq' w n h = sym (==→eq w n h)

length-le_bytes : (w n : ℕ) → length (le_bytes w n) ≡ w
unfolding le_bytes
length-le_bytes zero n = refl
length-le_bytes (suc w) n = omega (arith, length-le_bytes w (n / 2 ^ 8))

map-some : (w : ℕ) (o : Option ℕ) (v : Bytes) → Option.map (le_bytes w) o ≡ some v → length v ≡ w
map-some w none v h = cc
map-some w (some n) v h = let e : le_bytes w n ≡ v = cc in ap length (sym e) ∙ length-le_bytes w n

-- How many bytes a loading function writes.
loader_size : Loader → ℕ
loader_size load_date = 4
loader_size (load_int w) = w
loader_size (load_uint w) = w
loader_size load_float = 4
loader_size load_double = 8
loader_size load_char = 1

load_val-length :
    (k : Conversions) (l : Loader) (text v : Bytes)
    → load_val k l text ≡ some v
    → length v ≡ loader_size l
unfolding loader_size load_val
load_val-length k load_date text v h = map-some 4 (some (k.from_stream text)) v h
load_val-length k (load_int w) text v h = map-some w (k.stoll text) v h
load_val-length k (load_uint w) text v h = map-some w (k.stoull text) v h
load_val-length k load_float text v h = map-some 4 (k.stof text) v h
load_val-length k load_double text v h = map-some 8 (k.stod text) v h
load_val-length k load_char text v h = let e : (first_byte text ∷ []) ≡ v = cc in ap length (sym e)

-- A type that can be loaded is loaded in as many bytes as it takes, which are not none.
resolve_loader-size :
    (t : ColumnType) (l : Loader)
    → resolve_loader t ≡ some l
    → (loader_size l ≡ num_bytes t) × (0 < num_bytes t)
unfolding resolve_loader num_bytes loader_size
resolve_loader-size date l r = let e : load_date ≡ l = cc in (ap loader_size (sym e), omega arith)
resolve_loader-size (signed_int w) l r =
    let (e, pos) = int_loader_lem load_int w l r in (ap loader_size e, pos)
resolve_loader-size (unsigned_int w) l r =
    let (e, pos) = int_loader_lem load_uint w l r in (ap loader_size e, pos)
resolve_loader-size (float w) l r = elim (Bool-cases (w == 4)) [
  | inl w₄ ↦
      let (e, pos) = of_width (λ _. load_float) w 4 l w₄ (omega arith) (rw w₄ at r) in
      (ap loader_size e ∙ ==→eq' w 4 w₄, pos)
  | inr n₄ ↦
      let r' = (rw n₄ at r) in
      elim (Bool-cases (w == 8)) [
        | inl w₈ ↦
            let (e, pos) = of_width (λ _. load_double) w 8 l w₈ (omega arith) (rw w₈ at r') in
            (ap loader_size e ∙ ==→eq' w 8 w₈, pos)
        | inr n₈ ↦ let bad = (rw n₈ at r') in cc
      ]
]
resolve_loader-size char l r = let e : load_char ≡ l = cc in (ap loader_size (sym e), omega arith)
resolve_loader-size (other w) l r = cc

length-resize : (n : ℕ) (xs : Bytes) → length (resize n xs) ≡ n
unfolding resize
length-resize zero xs = refl
length-resize (suc n) [] = omega (arith, length-resize n [])
length-resize (suc n) (x ∷ xs) = omega (arith, length-resize n xs)

-- A call of `loadValue` that ends normally makes the column longer by one.
load_value-grows :
    (k : Conversions) (c : Column) (text : Option Bytes) (n : ℕ)
    → IsTyped c
    → (load_value k c text n).1 ≡ done
    → IsTyped (load_value k c text n).0
      × (column_length (load_value k c text n).0 ≡ column_length c + 1)
unfolding load_value IsTyped column_length
load_value-grows k (pod c) none n ty h = cc
load_value-grows k (str c) none n ty h = elim (Bool-cases (leb max_alloc ((n + 1) % 2 ^ 32))) [
  | inl long ↦ let bad = (rw long at h) in cc
  | inr fits ↦ let bad = (rw fits at h) in cc
]
load_value-grows k (str c) (some text) n ty h =
    elim (Bool-cases (leb max_alloc ((n + 1) % 2 ^ 32))) [
      | inl long ↦ let bad = (rw long at h) in cc
      | inr fits ↦ elim (Bool-cases (leb max_alloc n || ltb (length text + 1) n)) [
        | inl past ↦ let bad = (rw (fits, past) at h) in cc
        | inr inside ↦ rw (fits, inside) (tt, length-append c.strings (take n text ∷ []))
      ]
    ]
load_value-grows k (pod c) (some text) n (ty, al) h =
    elim (Option-cases (load_val k c.loader text)) [
      | inl fails ↦ let bad = (rw (fails, load_value) at h) in cc
      | inr (v, e) ↦
          let room = resize (c.storage_offset + num_bytes c.type_) c.storage in
          let (size, pos) = resolve_loader-size c.type_ c.loader ty in
          let wrote : length (take c.storage_offset room ++ v)
              ≡ length c.storage + num_bytes c.type_ =
            omega (
              arith,
              length-append (take c.storage_offset room) v,
              length-take c.storage_offset room,
              length-resize (c.storage_offset + num_bytes c.type_) c.storage,
              load_val-length k c.loader text v e,
              size,
              al,
            ) in
          rw (e, load_value)
            (
              (ty, omega (arith, wrote, al)),
              ap (λ m. m / num_bytes c.type_) wrote ∙ add-div_right (length c.storage) pos,
            )
    ]

Grown-refl : (cs : List (Bytes × Column)) → Grown 0 cs cs
unfolding Grown
Grown-refl [] = tt
Grown-refl ((n, c) ∷ cs) = (refl, omega arith, Grown-refl cs)

Grown-trans :
    (r s : ℕ) (xs ys zs : List (Bytes × Column))
    → Grown r xs ys
    → Grown s ys zs
    → Grown (r + s) xs zs
unfolding Grown
Grown-trans r s [] [] [] g h = tt
Grown-trans r s ((n, c) ∷ xs) ((n', c') ∷ ys) ((n'', c'') ∷ zs) (e, l, g) (e', l', h) =
    (e' ∙ e, omega (arith, l, l'), Grown-trans r s xs ys zs g h)
Grown-trans r s [] [] (z ∷ zs) g h = elim h [ ]
Grown-trans r s [] (y ∷ ys) zs g h = elim g [ ]
Grown-trans r s (x ∷ xs) [] zs g h = elim g [ ]
Grown-trans r s (x ∷ xs) (y ∷ ys) [] g h = elim h [ ]

pub load_columns-Grown :
    (k : Conversions) (line : Bytes) (cs : List (Bytes × Column)) (pos : ℕ)
    → AllTyped cs
    → (load_columns k line pos cs).1 ≡ done
    → AllTyped (load_columns k line pos cs).0 × Grown 1 cs (load_columns k line pos cs).0
unfolding load_columns AllTyped Grown
load_columns-Grown k line [] pos ty h = (tt, tt)
load_columns-Grown k line ((name, c) ∷ cs) pos ty h = elim (Bool-cases (pos == length line)) [
  | inl over ↦ let bad = (rw over at h) in cc
  | inr more ↦
      let end = field_end line pos in
      let text = text_at line pos in
      let n = field_length end pos in
      let h' = (rw more at h) in
      elim (Ending-cases (load_value k c text n).1) [
        | inl e ↦
            let h'' : (load_columns k line (end + 1) cs).1 ≡ done = (rw e at h') in
            let (typed, grown) = load_columns-Grown k line cs (end + 1) ty.1 h'' in
            let (one_typed, one_grown) = load_value-grows k c text n ty.0 e in
            rw (more, e) ((one_typed, typed), (refl, one_grown, grown))
        | inr (inl e) ↦ let bad = (rw e at h') in cc
        | inr (inr e) ↦ let bad = (rw e at h') in cc
      ]
]

load_row-Grown :
    (k : Conversions) (line : Bytes) (cs : List (Bytes × Column))
    → AllTyped cs
    → (load_row k cs line).1 ≡ done
    → AllTyped (load_row k cs line).0 × Grown 1 cs (load_row k cs line).0
unfolding load_row
load_row-Grown k line cs ty h = load_columns-Grown k line cs 0 ty h

-- `loadRows`, on columns that were attached or loaded without an exception, makes every column
-- longer by the number of lines if no line ends in an exception or outside of its text.
pub load_rows-Grown :
    (k : Conversions) (lines : List Bytes) (cs : List (Bytes × Column))
    → AllTyped cs
    → (load_rows k cs lines).1 ≡ done
    → AllTyped (load_rows k cs lines).0 × Grown (length lines) cs (load_rows k cs lines).0
unfolding load_rows
load_rows-Grown k [] cs ty h = (ty, Grown-refl cs)
load_rows-Grown k (line ∷ lines) cs ty h = elim (Ending-cases (load_row k cs line).1) [
  | inl e ↦
      let (typed, grown) = load_row-Grown k line cs ty e in
      let cs' = (load_row k cs line).0 in
      let h' : (load_rows k cs' lines).1 ≡ done = (rw (e, load_rows) at h) in
      let (typed', grown') = load_rows-Grown k lines cs' typed h' in
      rw (e, load_rows)
        (
          typed',
          subst (λ n. Grown n cs (load_rows k cs' lines).0) (omega arith)
              (Grown-trans 1 (length lines) cs cs' (load_rows k cs' lines).0 grown grown'),
        )
  | inr (inl e) ↦ let bad = (rw (e, load_rows) at h) in cc
  | inr (inr e) ↦ let bad = (rw (e, load_rows) at h) in cc
]
