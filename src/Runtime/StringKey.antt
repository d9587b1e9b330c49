-- ===== src/Runtime/StringKey.antt =====
-- runtime/HashTables.cpp: `HashTableComplexKey`, whose rows begin with a pointer to a string.
--
-- It repeats `HashTableSimpleKey` on its own, and so do the definitions here; the state, the
-- iterators and the search for an empty slot are the same. `strings` are the strings that pointers
-- lead to.
pub mod Refine
use inkfuse.Base.{
  ℕ, zero, suc, ◌+◌, ◌*◌, ◌^◌, Bool, true, false, not, ◌&&◌, ◌||◌, Option, none, some, List, ltb,
  ◌==◌, if◌then◌else◌, take, update,
}
use inkfuse.Runtime.Run.{Run, ok, throws, ◌>>=◌}
use inkfuse.Runtime.Tags.{is_filled, fill_tag, tag_hash, target_tag}
use inkfuse.Runtime.Probe.{probe}
use inkfuse.Runtime.Scan.{Iterator, advance_no_wrap, scan}
use inkfuse.Runtime.Comparator.{Row, same_bytes, copy_bytes, pointer}
use inkfuse.Runtime.SimpleKey.{State, Thread, new_state, raise, home}

-- `HashTableComplexKey::HashTableComplexKey`
unfoldable pub new_string_table : ℕ → ℕ → ℕ → ℕ → Run State
new_string_table simple_key_size complex_key_slots payload_size start_slots = do
  state ← new_state (simple_key_size + 8 * complex_key_slots + payload_size) start_slots
  if not (simple_key_size == 0) || not (complex_key_slots == 1) then throws else ok state

-- the pointer at the beginning of a row
unfoldable pub indirection : Row → ℕ
indirection row = pointer (take 8 row)

unfoldable pub find_empty_for_string : State → ℕ → Run ℕ
find_empty_for_string s h = probe (λ idx. s.tags idx == 0) s.mod_mask (s.mod_mask + 1) (home s h)

module _ (xxh3 : Row → ℕ) (strings : ℕ → Row) where
  unfoldable pub compute_string_hash : Row → ℕ
  compute_string_hash key = xxh3 (strings (indirection key))

  -- the test of `findSlotOrEmpty`
  unfoldable pub stops_string : State → ℕ → Row → ℕ → Bool
  stops_string s h string idx =
      not (is_filled (s.tags idx))
      || (tag_hash (s.tags idx) == target_tag h
          && (not (indirection (s.rows idx) == 0)
              && same_bytes (strings (indirection (s.rows idx))) string))

  unfoldable pub find_string : State → ℕ → Row → Run ℕ
  find_string s h string = probe (stops_string s h string) s.mod_mask (s.mod_mask + 1) (home s h)

  unfoldable pub lookup_string : State → Row → Run (Option ℕ)
  lookup_string s key = do
    let string = strings (indirection key)
    slot ← find_string s (xxh3 string) string
    ok (if is_filled (s.tags slot) then some slot else none)

  -- the body of the loop in `reserveSlot`
  unfoldable pub move_string : State → ℕ → State → Run State
  move_string old idx s = if old.tags idx == 0 then ok s else do
    slot ← find_empty_for_string s (xxh3 (strings (indirection (old.rows idx))))
    ok (record s {
      tags = update s.tags slot (old.tags idx);
      rows = update s.rows slot (old.rows idx);
    })

  unfoldable pub move_strings : State → ℕ → ℕ → State → Run State
  move_strings old zero idx s = ok s
  move_strings old (suc rounds) idx s = move_string old idx s >>= move_strings old rounds (idx + 1)

  unfoldable pub reserve_string_slot : Thread → Run Thread
  reserve_string_slot t = if ltb t.state.inserted t.state.max_fill then ok t else do
    new ← new_state t.state.total_slot_size (2 * (t.state.mod_mask + 1))
    moved ← move_strings t.state (t.state.mod_mask + 1) 0 new
    ok (record { state = record moved { inserted = t.state.inserted }; flag = raise t.flag })

  unfoldable pub lookup_or_insert_string : Thread → Row → Run (ℕ × Bool × Thread)
  lookup_or_insert_string t key = do
    r ← reserve_string_slot t
    let string = strings (indirection key)
    slot ← find_string r.state (xxh3 string) string
    ok (
        if r.state.tags slot == 0
        then (
          slot,
          true,
          record r {
            state = record r.state {
              tags = update r.state.tags slot (fill_tag (xxh3 string));
              rows = update r.state.rows slot (copy_bytes 8 key (r.state.rows slot));
              inserted = r.state.inserted + 1;
            };
          },
        )
        else (slot, false, r))

unfoldable pub string_iterator_start : State → Run Iterator
string_iterator_start s =
    scan (λ idx. is_filled (s.tags idx)) s.mod_mask (s.mod_mask + 2) (some 0, 0)

unfoldable pub string_iterator_advance : State → Iterator → Run Iterator
string_iterator_advance s it =
    scan (λ idx. is_filled (s.tags idx)) s.mod_mask (s.mod_mask + 2)
      (advance_no_wrap s.mod_mask it.1)

unfoldable pub string_size : State → ℕ
string_size s = s.inserted

unfoldable pub string_capacity : State → ℕ
string_capacity s = s.mod_mask + 1
