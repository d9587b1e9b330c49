-- ===== src/Runtime/SimpleKey.antt =====
-- runtime/HashTables.h and HashTables.cpp: `SharedHashTableState` and `HashTableSimpleKey`.
--
-- The arrays `tags` and `data` are functions of the slot's index; a `char*` into `data` is the
-- index of its slot. `run.flag` is the restart flag of the execution context that is installed in
-- the thread, `none` if there is none.
pub mod Chain
pub mod Write
pub mod Fill
pub mod Resize
pub mod Reserve
pub mod Map
pub mod Disable
pub mod Iterate
use inkfuse.Base.{
  ℕ, zero, suc, ◌+◌, ◌-◌, ◌*◌, ◌/◌, ◌%◌, ◌^◌, Bool, true, false, not, ◌||◌, ◌&&◌, Option, none,
  some, List, [], ◌∷◌, ltb, ◌==◌, if◌then◌else◌, update, count_below, bit_and,
}
use inkfuse.Runtime.Run.{Run, ok, throws, diverges, ◌>>=◌}
use inkfuse.Runtime.Tags.{is_filled, fill_tag, tag_hash, target_tag, invert_tag, tag_fill_mask}
use inkfuse.Runtime.Probe.{probe}
use inkfuse.Runtime.Scan.{Iterator, advance_no_wrap, scan}
use inkfuse.Runtime.Comparator.{Comparator, Row, eq, hash, copy_bytes}

pub record State : Type 0 where
  pub tags : ℕ → ℕ
  pub rows : ℕ → Row
  pub mod_mask : ℕ
  pub inserted : ℕ
  pub max_fill : ℕ
  pub total_slot_size : ℕ

-- the bytes of a slot of a new array
unfoldable pub zero_row : ℕ → Row
zero_row zero = []
zero_row (suc n) = 0 ∷ zero_row n

-- `SharedHashTableState::SharedHashTableState`; the slot size is a `uint16_t`
unfoldable pub new_state : ℕ → ℕ → Run State
new_state total_slot_size start_slots =
    if ltb start_slots 2 || not (bit_and start_slots (start_slots - 1) == 0)
    then throws
    else ok (record {
      tags = λ _. 0;
      rows = λ _. zero_row (total_slot_size % 2 ^ 16);
      mod_mask = start_slots - 1;
      inserted = 0;
      max_fill = start_slots / 2;
      total_slot_size = total_slot_size % 2 ^ 16;
    })

-- `HashTableSimpleKey::HashTableSimpleKey`: a table for the empty key gets four slots
unfoldable pub new_table : ℕ → ℕ → ℕ → Run State
unfolding new_state
new_table key_size payload_size start_slots = do
  first ← new_state (key_size + payload_size) start_slots
  if key_size == 0 then new_state (key_size + payload_size) 4 else ok first

-- the state of the table and the restart flag of the thread
pub record Thread : Type 0 where
  pub state : State
  pub flag : Option Bool

-- `if (try_restart_flag) *try_restart_flag = true`
unfoldable pub raise : Option Bool → Option Bool
raise none = none
raise (some b) = some true

-- the slot at which a key's chain begins
unfoldable pub home : State → ℕ → ℕ
home s h = bit_and h s.mod_mask

unfoldable pub find_first_empty_slot : State → ℕ → Run ℕ
find_first_empty_slot s h = probe (λ idx. s.tags idx == 0) s.mod_mask (s.mod_mask + 1) (home s h)

module _ (xxh3 : Row → ℕ) (c : Comparator) where
  -- the test of `findSlotOrEmpty`
  unfoldable pub stops : State → ℕ → Row → ℕ → Bool
  stops s h key idx =
      not (is_filled (s.tags idx))
      || (tag_hash (s.tags idx) == target_tag h && eq c (s.rows idx) key)

  unfoldable pub find_slot_or_empty : State → ℕ → Row → Run ℕ
  find_slot_or_empty s h key = probe (stops s h key) s.mod_mask (s.mod_mask + 1) (home s h)

  unfoldable pub compute_hash : Row → ℕ
  compute_hash key = hash xxh3 c key

  unfoldable pub lookup : State → Row → Run (Option ℕ)
  lookup s key = do
    slot ← find_slot_or_empty s (hash xxh3 c key) key
    ok (if is_filled (s.tags slot) then some slot else none)

  unfoldable pub lookup_disable : State → Row → Run (Option ℕ × State)
  lookup_disable s key = do
    slot ← find_slot_or_empty s (hash xxh3 c key) key
    let tag_before = s.tags slot
    ok (
      if is_filled tag_before then some slot else none,
      record s { tags = update s.tags slot (invert_tag tag_before) },
    )

  -- the body of the loop in `reserveSlot`
  unfoldable pub move_slot : State → ℕ → State → Run State
  move_slot old idx s = if old.tags idx == 0 then ok s else do
    slot ← find_first_empty_slot s (hash xxh3 c (old.rows idx))
    ok (record s {
      tags = update s.tags slot (old.tags idx);
      rows = update s.rows slot (old.rows idx);
    })

  -- the loop, `rounds` slots from `idx` on
  unfoldable pub move_slots : State → ℕ → ℕ → State → Run State
  move_slots old zero idx s = ok s
  move_slots old (suc rounds) idx s = move_slot old idx s >>= move_slots old rounds (idx + 1)

  unfoldable pub reserve_slot : Thread → Run Thread
  reserve_slot t = if ltb t.state.inserted t.state.max_fill then ok t else do
    new ← new_state t.state.total_slot_size (2 * (t.state.mod_mask + 1))
    moved ← move_slots t.state (t.state.mod_mask + 1) 0 new
    ok (record { state = record moved { inserted = t.state.inserted }; flag = raise t.flag })

  -- the writes to an empty slot
  unfoldable pub fill_slot : State → ℕ → Row → State
  fill_slot s slot key = record s {
    tags = update s.tags slot (fill_tag (hash xxh3 c key));
    rows = update s.rows slot (copy_bytes c.key_size key (s.rows slot));
    inserted = s.inserted + 1;
  }

  -- the slot, and whether the key is new
  unfoldable pub lookup_or_insert : Thread → Row → Run (ℕ × Bool × Thread)
  lookup_or_insert t key = do
    r ← reserve_slot t
    slot ← find_slot_or_empty r.state (hash xxh3 c key) key
    ok (
        if r.state.tags slot == 0
        then (slot, true, record r { state = fill_slot r.state slot key })
        else (slot, false, r))

  unfoldable pub insert : Thread → Row → Run (ℕ × Thread)
  insert t key = do
    r ← reserve_slot t
    slot ←
        probe (λ idx. not (is_filled (r.state.tags idx))) r.state.mod_mask (r.state.mod_mask + 1)
          (home r.state (hash xxh3 c key))
    ok (slot, record r { state = fill_slot r.state slot key })

-- `lookupOrInsertSingleKey`
unfoldable pub lookup_or_insert_single_key : State → ℕ × State
lookup_or_insert_single_key s =
    if s.tags 0 == 0
    then (0, record s { tags = update s.tags 0 tag_fill_mask; inserted = s.inserted + 1 })
    else (0, s)

unfoldable pub size : State → ℕ
size s = s.inserted

unfoldable pub capacity : State → ℕ
capacity s = s.mod_mask + 1

unfoldable pub iterator_start : State → Run Iterator
iterator_start s = scan (λ idx. is_filled (s.tags idx)) s.mod_mask (s.mod_mask + 2) (some 0, 0)

unfoldable pub iterator_advance : State → Iterator → Run Iterator
iterator_advance s it =
    scan (λ idx. is_filled (s.tags idx)) s.mod_mask (s.mod_mask + 2)
      (advance_no_wrap s.mod_mask it.1)
