-- ===== src/Tests/HashTables.antt =====
-- runtime/HashTables.cpp: `HashTableSimpleKey` with keys of one byte, and `HashTableDirectLookup`.
use inkfuse.Base.{
  Bool-cases, inl, inr, ℕ, ◌+◌, ◌-◌, ◌%◌, ◌*◌, ◌^◌, ◌≤◌, ◌<◌, ◌≡◌, ◌≢◌, ◌⊎◌, refl, Bool, true,
  false, Option, none, some, [], ◌∷◌, arith, if◌then◌else◌, ◌==◌, bit_and,
}
use inkfuse.Runtime.Run.{Run, ok, throws}
use inkfuse.Runtime.Tags.{is_filled, hash_byte, fill_tag, tag_hash, target_tag, invert_tag}
use inkfuse.Runtime.Probe.{probe, advance}
use inkfuse.Runtime.Scan.{Iterator, IsAt}
use inkfuse.Runtime.Comparator.{
  Comparator, Row, simple_key, simple_key_of, same_bytes, eq, hash, copy_bytes,
}
use inkfuse.Runtime.SimpleKey.{
  State, Thread, new_state, new_table, home, stops, find_slot_or_empty, find_first_empty_slot,
  lookup, lookup_disable, move_slot, move_slots, reserve_slot, fill_slot, lookup_or_insert, insert,
  raise, capacity, iterator_start, iterator_advance,
}
use inkfuse.Runtime.SimpleKey.Chain.{IsValid, Entry, lookup-Entry}
use inkfuse.Runtime.SimpleKey.Fill.{fill_slot-IsValid}
use inkfuse.Runtime.SimpleKey.Reserve.{
  fresh, fresh-IsValid, no_fresh_Entry, row_of, Reserved, new_table_lem, reserve_slot-Reserved,
}
use inkfuse.Runtime.SimpleKey.Map.{Stores, lookup_or_insert-Stores, insert-Stores}
use inkfuse.Runtime.SimpleKey.Disable.{lookup_disable_hit, lookup_disable_miss}
use inkfuse.Runtime.SimpleKey.Iterate.{filled, iterator_visits_filled}
use inkfuse.Runtime.Tags.{is_filled-zero}
use inkfuse.Runtime.Comparator.{pointer}
use inkfuse.Runtime.StringKey.{indirection, lookup_string, lookup_or_insert_string}
use inkfuse.Runtime.StringKey.Refine.{HasPointers, string_keys, string_table_refines}

-- a hash with the key's byte at both ends
abbrev sample_hash : Row → ℕ
sample_hash [] = 0
sample_hash (b ∷ bs) = b * 2 ^ 56 + b

abbrev one_byte : Comparator
unfolding simple_key
one_byte = simple_key 1

abbrev empty_table : State
empty_table = fresh 3 2

abbrev table_of_one : State
unfolding fill_slot
table_of_one = fill_slot sample_hash one_byte empty_table 1 (5 ∷ [])

empty_table-IsValid : IsValid sample_hash one_byte empty_table
empty_table-IsValid = fresh-IsValid sample_hash one_byte 3 2 (omega arith) refl

program : Unit {0}
unfolding simple_key simple_key_of same_bytes eq hash copy_bytes is_filled hash_byte fill_tag
    tag_hash target_tag invert_tag probe advance new_state new_table home stops find_slot_or_empty
    find_first_empty_slot lookup lookup_disable move_slot move_slots reserve_slot fill_slot
    lookup_or_insert insert raise capacity iterator_start iterator_advance row_of
program = tt

table_of_one-IsValid : IsValid sample_hash one_byte table_of_one
unfolding program
table_of_one-IsValid =
    fill_slot-IsValid sample_hash one_byte empty_table 1 (5 ∷ []) empty_table-IsValid (omega arith)
      refl (omega arith) (λ _. true) (λ x l h. cc) refl
      (λ x n. no_fresh_Entry sample_hash one_byte 3 2 x (5 ∷ []) n) (omega arith)

-- the first lookup finds the key, the second does not
lookup_run : lookup sample_hash one_byte table_of_one (5 ∷ []) ≡ ok (some 1)
unfolding program
lookup_run = refl

lookup_other : lookup sample_hash one_byte table_of_one (6 ∷ []) ≡ ok none
unfolding program
lookup_other = refl

abbrev thread : Thread
thread = record { state = table_of_one; flag = some false }

abbrev summary : Run (ℕ × Bool × Thread) → Option (ℕ × Bool × ℕ × ℕ × Option Bool)
summary (ok (slot, new, t)) = some (slot, new, t.state.mod_mask, t.state.inserted, t.flag)
summary _ = none

-- the table is full, so that a new key doubles it and raises the flag
insert_doubles :
    summary (lookup_or_insert sample_hash one_byte thread (6 ∷ []))
    ≡ some (2, true, 3, 2, some true)
unfolding program
insert_doubles = refl

-- a known key in a full table doubles it all the same
known_key_doubles :
    summary (lookup_or_insert sample_hash one_byte thread (5 ∷ []))
    ≡ some (1, false, 3, 1, some true)
unfolding program
known_key_doubles = refl

lookup_or_insert-Stores_example :
    (slot : ℕ) × (is_new : Bool) × (r : Thread) × (lookup_or_insert sample_hash one_byte thread
        (6 ∷ [])
      ≡ ok (slot, is_new, r))
    × Stores sample_hash one_byte thread (6 ∷ []) slot is_new r
unfolding simple_key
lookup_or_insert-Stores_example =
    lookup_or_insert-Stores sample_hash one_byte thread (6 ∷ []) table_of_one-IsValid (omega arith)

reserve_slot-Reserved_example :
    (r : Thread) × (reserve_slot sample_hash one_byte thread ≡ ok r)
    × Reserved sample_hash one_byte thread r
reserve_slot-Reserved_example =
    reserve_slot-Reserved sample_hash one_byte thread table_of_one-IsValid

lookup-Entry_example :
    ((j : ℕ) × Entry sample_hash one_byte table_of_one j (5 ∷ [])
      × (lookup sample_hash one_byte table_of_one (5 ∷ []) ≡ ok (some j)))
    ⊎ (((j : ℕ) → ¬ Entry sample_hash one_byte table_of_one j (5 ∷ []))
        × (lookup sample_hash one_byte table_of_one (5 ∷ []) ≡ ok none))
lookup-Entry_example = lookup-Entry sample_hash one_byte table_of_one (5 ∷ []) table_of_one-IsValid

insert-Stores_example :
    (slot : ℕ) × (r : Thread) × (insert sample_hash one_byte thread (6 ∷ []) ≡ ok (slot, r))
    × Stores sample_hash one_byte thread (6 ∷ []) slot true r
unfolding program
insert-Stores_example =
    insert-Stores sample_hash one_byte thread (6 ∷ []) table_of_one-IsValid (omega arith) refl

new_table_lem_example :
    ((2 < 2) ⊎ (bit_and 2 (2 - 1) ≢ 0) → new_table 1 2 2 ≡ throws)
    × (2 ≤ 2
        → bit_and 2 (2 - 1) ≡ 0
        → (s : State) × (new_table 1 2 2 ≡ ok s)
          × IsValid sample_hash one_byte s
          × ((k : Row) → row_of sample_hash one_byte s k ≡ none)
          × (capacity s ≡ (if 1 == 0 then 4 else 2))
          × (s.total_slot_size ≡ (1 + 2) % 2 ^ 16))
new_table_lem_example = new_table_lem sample_hash one_byte 1 2 2

lookup_disable_hit_example :
    (s' : State) × (lookup_disable sample_hash one_byte table_of_one (5 ∷ []) ≡ ok (some 1, s'))
    × IsValid sample_hash one_byte s'
    × (lookup sample_hash one_byte s' (5 ∷ []) ≡ ok none)
    × ((k : Row)
        → one_byte.key_of k ≢ one_byte.key_of (5 ∷ [])
        → row_of sample_hash one_byte s' k ≡ row_of sample_hash one_byte table_of_one k)
lookup_disable_hit_example =
    lookup_disable_hit sample_hash one_byte table_of_one (5 ∷ []) 1 table_of_one-IsValid lookup_run

abbrev roomy_table : State
roomy_table = fresh 3 4

abbrev roomy_thread : Thread
roomy_thread = record { state = roomy_table; flag = none }

lookup_disable_miss_example :
    (slot : ℕ) × (s' : State) × (lookup_disable sample_hash one_byte roomy_table (6 ∷ [])
      ≡ ok (none, s'))
    × (s'.tags slot ≢ 0)
    × (is_filled (s'.tags slot) ≡ false)
    × (lookup_or_insert sample_hash one_byte (record roomy_thread { state = s' }) (6 ∷ [])
        ≡ ok (slot, false, record roomy_thread { state = s' }))
    × (lookup sample_hash one_byte s' (6 ∷ []) ≡ ok none)
unfolding program
lookup_disable_miss_example =
    lookup_disable_miss sample_hash one_byte roomy_thread (6 ∷ [])
      (fresh-IsValid sample_hash one_byte 3 4 (omega arith) refl) (omega arith) refl

iterator_visits_filled_example :
    ((it : Iterator) × (iterator_start table_of_one ≡ ok it) × IsAt (filled table_of_one) 1 0 it)
    × ((i : ℕ)
        → i ≤ 1
        → (it : Iterator) × (iterator_advance table_of_one (some i, i) ≡ ok it)
          × IsAt (filled table_of_one) 1 (i + 1) it)
unfolding fill_slot
iterator_visits_filled_example = iterator_visits_filled table_of_one

-- the string behind the pointer `n` is the byte `n`
abbrev sample_strings : ℕ → Row
sample_strings n = n ∷ []

abbrev string_table : State
string_table = record {
  tags = λ i. if i == 1 then fill_tag (5 * 2 ^ 56 + 5) else 0;
  rows = λ i. if i == 1 then 5 ∷ 0 ∷ 0 ∷ 0 ∷ 0 ∷ 0 ∷ 0 ∷ 0 ∷ [] else [];
  mod_mask = 3;
  inserted = 1;
  max_fill = 2;
  total_slot_size = 8;
}

string_table-HasPointers : HasPointers string_table
unfolding HasPointers indirection pointer
string_table-HasPointers i = elim (Bool-cases (i == 1)) [
  | inl here ↦ rw here (inr refl)
  | inr apart ↦ rw apart (inl is_filled-zero)
]

string_table_refines_example :
    (lookup_string sample_hash sample_strings string_table (5 ∷ 0 ∷ 0 ∷ 0 ∷ 0 ∷ 0 ∷ 0 ∷ 0 ∷ [])
      ≡ lookup sample_hash
          (string_keys sample_strings)
          string_table
          (5 ∷ 0 ∷ 0 ∷ 0 ∷ 0 ∷ 0 ∷ 0 ∷ 0 ∷ []))
    × (lookup_or_insert_string sample_hash sample_strings
          (record { state = string_table; flag = none })
          (5 ∷ 0 ∷ 0 ∷ 0 ∷ 0 ∷ 0 ∷ 0 ∷ 0 ∷ [])
        ≡ lookup_or_insert sample_hash
            (string_keys sample_strings)
            (record { state = string_table; flag = none })
            (5 ∷ 0 ∷ 0 ∷ 0 ∷ 0 ∷ 0 ∷ 0 ∷ 0 ∷ []))
string_table_refines_example =
    string_table_refines sample_hash sample_strings (record { state = string_table; flag = none })
      (5 ∷ 0 ∷ 0 ∷ 0 ∷ 0 ∷ 0 ∷ 0 ∷ 0 ∷ []) string_table-HasPointers
