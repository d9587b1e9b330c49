-- ===== src/Tests/AtomicTable.antt =====
-- runtime/NewHashTables.cpp and the direct lookup table of runtime/HashTables.cpp.
use inkfuse.Base.{
  ℕ, ◌+◌, ◌*◌, ◌^◌, ◌≤◌, ◌<◌, ◌≡◌, ◌≢◌, refl, inl, inr, true, false, Option, none, some, List, [],
  ◌∷◌, arith, ◌==◌, if◌then◌else◌, Bool-cases, length, update,
}
use inkfuse.Runtime.Run.{ok}
use inkfuse.Runtime.Tags.{
  is_filled, hash_byte, fill_tag, tag_hash, target_tag, is_marked, outer_fill_tag, outer_marked_tag,
  outer_target, outer_fingerprint,
}
use inkfuse.Runtime.Probe.{probe, advance}
use inkfuse.Runtime.Scan.{Iterator, IsAt, scan, advance_no_wrap}
use inkfuse.Runtime.Comparator.{
  Comparator, Row, simple_key, simple_key_of, same_bytes, eq, hash, copy_bytes,
}
use inkfuse.Runtime.Atomic.{
  Table, slot_id, chain, lookup, insert_outer, lookup_outer, ends_outer, iterator_start,
  iterator_advance, it_start, is_unmatched,
}
use inkfuse.Runtime.Atomic.Concurrent.{returned, System, start, act, step, run}
use inkfuse.Runtime.Atomic.Build.{lookup-run, run_slots_apart}
use inkfuse.Runtime.Atomic.Outer.{
  has_no_partner, AllBytes, iterator_visits_unmatched, it_start_null, Joined, lookup_outer-Joined,
}
use inkfuse.Runtime.DirectLookup.{
  Direct, TwoBytes, new_direct, insert_direct, lookup_direct, size_direct, start_direct,
  advance_direct, capacity_direct,
}
use inkfuse.Runtime.DirectLookup.Map.{IsCounted, Holds, insert_direct-Holds, new_direct_lem}
use inkfuse.Runtime.DirectLookup.Iterate.{IsNext, direct_visits_tagged}

abbrev one_byte : Comparator
unfolding simple_key
one_byte = simple_key 1

abbrev empty_table : Table
empty_table = record {
  tags = λ _. 0;
  rows = λ _. 0 ∷ 0 ∷ [];
  num_slots = 4;
  mod_mask = 3;
  total_slot_size = 2;
}

-- thread 0 inserts the key 7 and thread 1 the key 9; the hashes lead both to slot 1
abbrev keys : ℕ → Row
keys i = if i == 0 then 7 ∷ [] else 9 ∷ []

abbrev hashes : ℕ → ℕ
hashes i = if i == 0 then 5 * 2 ^ 56 + 1 else 6 * 2 ^ 56 + 1

abbrev schedule : List ℕ
schedule = 0 ∷ 1 ∷ 0 ∷ 1 ∷ 0 ∷ 1 ∷ 1 ∷ 1 ∷ []

program : Unit {0}
unfolding simple_key simple_key_of same_bytes eq hash copy_bytes is_filled hash_byte fill_tag
    tag_hash target_tag is_marked outer_fill_tag outer_marked_tag outer_target outer_fingerprint
    probe advance scan advance_no_wrap slot_id chain lookup insert_outer lookup_outer ends_outer
    iterator_start iterator_advance it_start is_unmatched start act step run
program = tt

abbrev built : System
unfolding start run
built = run one_byte keys hashes (start one_byte keys hashes empty_table) schedule

-- thread 0 wins slot 1, and thread 1 goes on to slot 2
first_returns : built.phases 0 ≡ returned 1
unfolding program
first_returns = refl

second_returns : built.phases 1 ≡ returned 2
unfolding program
second_returns = refl

long : (j : ℕ) → 1 ≤ length (keys j)
long j = elim (Bool-cases (j == 0)) [
  | inl zero_ ↦ rw zero_ (omega arith)
  | inr other ↦ rw other (omega arith)
]

lookup-run_example :
    (y : ℕ) × (lookup one_byte built.table (keys 1) (hashes 1) ≡ ok (some y))
    × (is_filled (built.table.tags y) ≡ true)
    × (one_byte.key_of (built.table.rows y) ≡ one_byte.key_of (keys 1))
unfolding one_byte run built
lookup-run_example = lookup-run one_byte keys hashes empty_table schedule 1 2 long second_returns

run_slots_apart_example : ◌≢◌ {A = ℕ} 1 2
unfolding one_byte run built
run_slots_apart_example =
    run_slots_apart one_byte keys hashes empty_table schedule 0 1 1 2 long first_returns
      second_returns (λ e. omega (arith, e))

-- slot 1 holds the key 7 without a mark
abbrev outer_table : Table
outer_table = record empty_table {
  tags = update empty_table.tags 1 (outer_fill_tag (hashes 0));
  rows = update empty_table.rows 1 (7 ∷ 0 ∷ []);
}

lookup_outer-Joined_example :
    (r : Option ℕ) × (t' : Table) × (lookup_outer one_byte outer_table (7 ∷ []) (hashes 0)
      ≡ ok (r, t'))
    × Joined one_byte outer_table (7 ∷ []) (hashes 0) r t'
unfolding program
lookup_outer-Joined_example =
    lookup_outer-Joined one_byte outer_table (7 ∷ []) (hashes 0) 2 (omega arith) refl

outer_table-AllBytes : AllBytes outer_table
unfolding program
outer_table-AllBytes x = elim (Bool-cases (x == 1)) [
  | inl here ↦ rw here (omega arith)
  | inr other ↦ rw other (omega arith)
]

iterator_visits_unmatched_example :
    ((it : Iterator) × (iterator_start outer_table ≡ ok it)
      × IsAt (has_no_partner outer_table) 3 0 it)
    × ((i : ℕ)
        → i ≤ 3
        → (it : Iterator) × (iterator_advance outer_table (some i, i) ≡ ok it)
          × IsAt (has_no_partner outer_table) 3 (i + 1) it)
    × ((x h : ℕ)
        → (outer_table.tags x ≡ outer_fill_tag h → has_no_partner outer_table x ≡ true)
          × (outer_table.tags x ≡ outer_marked_tag h → has_no_partner outer_table x ≡ false))
iterator_visits_unmatched_example = iterator_visits_unmatched outer_table outer_table-AllBytes

-- the table has a row, in slot 1
it_start_null_example : it_start outer_table ≡ ok (none, 3)
unfolding program
it_start_null_example = it_start_null outer_table refl

abbrev direct : Direct
unfolding new_direct
direct = new_direct 4

direct-IsCounted : IsCounted direct
unfolding direct new_direct
direct-IsCounted = (new_direct_lem 4).0

insert_direct-Holds_example :
    (idx : ℕ) × (u : Direct) × (insert_direct direct (3, 1) ≡ (idx, u)) × Holds direct (3, 1) idx u
insert_direct-Holds_example =
    insert_direct-Holds direct 3 1 (omega arith) (omega arith) direct-IsCounted

new_direct_lem_example :
    IsCounted (new_direct 4)
    × (size_direct (new_direct 4) ≡ 0)
    × ((key : TwoBytes) → lookup_direct (new_direct 4) key ≡ none)
    × (start_direct (new_direct 4) ≡ ok (none, capacity_direct))
new_direct_lem_example = new_direct_lem 4

abbrev tagged : Direct
tagged = record direct { tags = λ i. i == 259 }

direct_visits_tagged_example :
    ((it : Iterator) × (start_direct tagged ≡ ok it) × IsNext tagged.tags 0 it)
    × ((i : ℕ)
        → i < capacity_direct
        → (it : Iterator) × (advance_direct tagged i ≡ ok it) × IsNext tagged.tags (i + 1) it)
direct_visits_tagged_example = direct_visits_tagged tagged
