-- ===== src/Storage/Rows.antt =====
-- storage/Relation.cpp: `loadRow` against a description by the fields of the row.
use inkfuse.Base.{
  ℕ, zero, suc, ◌+◌, ◌-◌, ◌%◌, ◌^◌, ◌<◌, ◌≡◌, refl, ap, subst, ◌∙◌, inl, inr, true, false, none,
  some, List, [], ◌∷◌, ◌++◌, arith, ltb, leb, ◌==◌, eq→==, Bool-cases, Option-cases, length,
  length-append, take, drop, drop-drop, drop-append, take-append,
}
use mathlib.Core.Option
use inkfuse.Storage.{
  Bytes, num_bytes, Loader, load_date, load_int, load_uint, load_float, load_double, load_char,
  le_bytes, first_byte, Column, pod, str, resize, index_of_bar, field_end, text_at, field_length,
  Ending-cases, Conversions, load_val, max_alloc, load_value, load_columns, load_row,
}
use inkfuse.Storage.Fields.{
  StopsAtBar, IsAligned, AllAligned, AllFields, line_of, zeros, feed, feed_all,
}

resize_empty : (w : ℕ) → resize w [] ≡ zeros w
unfolding resize zeros
resize_empty zero = refl
resize_empty (suc w) = ap (◌∷◌ 0) (resize_empty w)

resize_lem : (xs : Bytes) (w n : ℕ) → n ≡ length xs + w → resize n xs ≡ xs ++ zeros w
unfolding resize
resize_lem [] w n h = ap (λ m. resize m []) (omega arith) ∙ resize_empty w
resize_lem (x ∷ xs) w zero h = absurd (omega arith)
resize_lem (x ∷ xs) w (suc n) h = ap (◌∷◌ x) (resize_lem xs w n (omega arith))

no_bar_tail :
    (b : ℕ) (f : Bytes)
    → index_of_bar (b ∷ f) ≡ none
    → ((b == b'|') ≡ false) × (index_of_bar f ≡ none)
unfolding index_of_bar
no_bar_tail b f h = elim (Bool-cases (b == b'|')) [
  | inl bar ↦ let bad = (rw bar at h) in cc
  | inr other ↦
      let rest = (rw other at h) in
      elim (Option-cases (index_of_bar f)) [
        | inl n ↦ (other, n)
        | inr (x, e) ↦ let bad = (rw e at rest) in cc
      ]
]

index_of_bar-field :
    (f more : Bytes) → index_of_bar f ≡ none → index_of_bar (f ++ b'|' ∷ more) ≡ some (length f)
unfolding index_of_bar
index_of_bar-field [] more h = refl
index_of_bar-field (b ∷ f) more h =
    let (other, rest) = no_bar_tail b f h in rw (other, index_of_bar-field f more rest) refl

-- The columns' text from `pos` on is `rest`.
record At (line : Bytes) (pos : ℕ) (rest : Bytes) : Type 0 where
  text : drop pos line ≡ rest
  inside : pos + length rest ≡ length line

At-next :
    (line : Bytes) (pos : ℕ) (f more : Bytes)
    → At line pos (f ++ b'|' ∷ more)
    → At line (pos + length f + 1) more
At-next line pos f more at_ = record {
  text =
      drop-drop pos (length f + 1) (pos + length f + 1) line (omega arith)
      ∙ ap (drop (length f + 1)) at_.text
      ∙ drop-drop (length f) 1 (length f + 1) (f ++ b'|' ∷ more) (omega arith)
      ∙ ap (drop 1) (drop-append f (b'|' ∷ more));
  inside = omega (arith, at_.inside, length-append f (b'|' ∷ more));
}

At-text : (line : Bytes) (pos : ℕ) (rest : Bytes) → At line pos rest → text_at line pos ≡ some rest
unfolding text_at
At-text line pos rest at_ =
    let inside : leb pos (length line) ≡ true = ground (arith, at_.inside) in
    rw inside (ap some at_.text)

At-field_end :
    (line : Bytes) (pos : ℕ) (f more : Bytes)
    → At line pos (f ++ b'|' ∷ more)
    → index_of_bar f ≡ none
    → field_end line pos ≡ pos + length f
unfolding field_end
At-field_end line pos f more at_ h = rw (at_.text, index_of_bar-field f more h, field_end) refl

field_length_lem : (pos n : ℕ) → pos + n < 2 ^ 32 → field_length (pos + n) pos ≡ n
unfolding field_length
field_length_lem pos n h = omega arith

load_val_stops :
    (k : Conversions) (l : Loader) (f more : Bytes)
    → StopsAtBar k
    → load_val k l (f ++ b'|' ∷ more) ≡ load_val k l (f ++ b'|' ∷ [])
unfolding load_val first_byte
load_val_stops k load_date f more st = ap (λ n. some (le_bytes 4 n)) (st.from_stream_stops f more)
load_val_stops k (load_int w) f more st = ap (Option.map (le_bytes w)) (st.stoll_stops f more)
load_val_stops k (load_uint w) f more st = ap (Option.map (le_bytes w)) (st.stoull_stops f more)
load_val_stops k load_float f more st = ap (Option.map (le_bytes 4)) (st.stof_stops f more)
load_val_stops k load_double f more st = ap (Option.map (le_bytes 8)) (st.stod_stops f more)
load_val_stops k load_char [] more st = refl
load_val_stops k load_char (b ∷ f) more st = refl

load_value-feed :
    (k : Conversions) (c : Column) (f more : Bytes)
    → StopsAtBar k
    → IsAligned c
    → length f < 2 ^ 32 - 1
    → load_value k c (some (f ++ b'|' ∷ more)) (length f) ≡ feed k c f
unfolding load_value feed IsAligned
load_value-feed k (str c) f more st al l =
    let short : ltb (length (f ++ b'|' ∷ more) + 1) (length f) ≡ false =
      ground (arith, length-append f (b'|' ∷ more)) in
    let same : (length f + 1) % 2 ^ 32 ≡ length f + 1 = omega (arith, l) in
    elim (Bool-cases (leb max_alloc (length f + 1))) [
      | inl long ↦
          let long' : ltb (length f + 1) 4096 ≡ false = ground (arith, long) in
          rw (same, long, long') refl
      | inr fits ↦
          let fits' : ltb (length f + 1) 4096 ≡ true = ground (arith, fits) in
          let fits'' : leb max_alloc (length f) ≡ false = ground (arith, fits) in
          rw (same, fits, fits', fits'', short, take-append f (b'|' ∷ more)) refl
    ]
load_value-feed k (pod c) f more st al l =
    let room : resize (c.storage_offset + num_bytes c.type_) c.storage
        ≡ c.storage ++ zeros (num_bytes c.type_) =
      resize_lem c.storage (num_bytes c.type_) (c.storage_offset + num_bytes c.type_)
        (omega (arith, al)) in
    let kept : take c.storage_offset (c.storage ++ zeros (num_bytes c.type_)) ≡ c.storage =
      subst (λ n. take n (c.storage ++ zeros (num_bytes c.type_)) ≡ c.storage) al
        (take-append c.storage (zeros (num_bytes c.type_))) in
    elim (Option-cases (load_val k c.loader (f ++ b'|' ∷ []))) [
      | inl fails ↦ rw (load_val_stops k c.loader f more st, load_value, fails, room, feed) refl
      | inr (value, e) ↦
          rw (load_val_stops k c.loader f more st, load_value, e, room, kept, feed) refl
    ]

-- From a position on, the columns become what the fields of the rest make of them.
load_columns-feed_all :
    (k : Conversions) (line : Bytes) (cs : List (Bytes × Column)) (fs : List Bytes) (pos : ℕ)
    → StopsAtBar k
    → length line < 2 ^ 32
    → AllAligned cs
    → AllFields fs
    → At line pos (line_of fs)
    → load_columns k line pos cs ≡ feed_all k cs fs
unfolding load_columns feed_all AllAligned AllFields line_of
load_columns-feed_all k line [] fs pos st short al ok_ at_ = refl
load_columns-feed_all k line ((name, c) ∷ cs) [] pos st short al ok_ at_ =
    rw (eq→== pos (length line) (omega (arith, at_.inside))) refl
load_columns-feed_all k line ((name, c) ∷ cs) (f ∷ fs) pos st short al ok_ at_ =
    let more = line_of fs in
    let size = length-append f (b'|' ∷ more) in
    let before : pos == length line ≡ false = ground (arith, at_.inside, size) in
    let fits : pos + length f < 2 ^ 32 = omega (arith, at_.inside, size) in
    let next =
      load_columns-feed_all k line cs fs (pos + length f + 1) st short al.1 ok_.1
        (At-next line pos f more at_) in
    let end = At-field_end line pos f more at_ ok_.0 in
    let text = At-text line pos (f ++ b'|' ∷ more) at_ in
    let size' = field_length_lem pos (length f) fits in
    let loaded = load_value-feed k c f more st al.0 (omega (arith, at_.inside, size, short)) in
    elim (Ending-cases (feed k c f).1) [
      | inl e ↦
          rw (before, end, text, size', loaded, e, end, text, size', loaded, next, feed_all) refl
      | inr (inl e) ↦
          rw (before, end, text, size', loaded, e, end, text, size', loaded, feed_all) refl
      | inr (inr e) ↦
          rw (before, end, text, size', loaded, e, end, text, size', loaded, feed_all) refl
    ]

-- `loadRow` on a line in which each field is closed by a '|' makes of the columns what `feed_all`
-- says: each column takes the field at its index, a missing field ends the row in the exception
-- "Not enough columns" after the columns before it were loaded, a failed conversion or a string of
-- 4095 bytes or more ends it there, and fields behind the last column are ignored. The line is shorter than 2^32 bytes and each
-- column's storage ends at its offset.
pub load_row-feed_all :
    (k : Conversions) (cs : List (Bytes × Column)) (fs : List Bytes)
    → StopsAtBar k
    → length (line_of fs) < 2 ^ 32
    → AllAligned cs
    → AllFields fs
    → load_row k cs (line_of fs) ≡ feed_all k cs fs
unfolding load_row
load_row-feed_all k cs fs st short al ok_ =
    load_columns-feed_all k (line_of fs) cs fs 0 st short al ok_
      (record { text = refl; inside = omega arith })
