-- ===== src/Runtime/Atomic.antt =====
-- runtime/NewHashTables.h and NewHashTables.cpp: `AtomicHashTable`, for one thread at a time.
-- `Concurrent` runs `insert` on several threads.
--
-- As in `SimpleKey` the arrays are functions of the slot's index, and an `IteratorState` is its
-- `idx`: the pointers `data_ptr` and `tag_ptr` of the source go with it.
pub mod Concurrent
pub mod Safety
pub mod Build
pub mod Outer
use inkfuse.Base.{
  ℕ, zero, suc, ◌+◌, ◌-◌, ◌*◌, ◌/◌, ◌%◌, ◌^◌, Bool, true, false, not, ◌||◌, ◌&&◌, Option, none,
  some, ltb, ◌==◌, if◌then◌else◌, update, take, bit_and,
}
use inkfuse.Runtime.Run.{Run, ok, throws, ◌>>=◌}
use inkfuse.Runtime.Tags.{
  is_filled, fill_tag, invert_tag, is_marked, outer_target, outer_fingerprint, outer_fill_tag,
  outer_marked_tag,
}
use inkfuse.Runtime.Probe.{probe}
use inkfuse.Runtime.Comparator.{Comparator, Row, eq, hash, copy_bytes}
use inkfuse.Runtime.Scan.{Iterator, advance_no_wrap, scan}
use inkfuse.Runtime.SimpleKey.{zero_row}

pub record Table : Type 0 where
  pub tags : ℕ → ℕ
  pub rows : ℕ → Row
  pub num_slots : ℕ
  pub mod_mask : ℕ
  pub total_slot_size : ℕ

unfoldable pub new_table : ℕ → ℕ → Run Table
new_table total_slot_size num_slots =
    if ltb num_slots 2 || not (bit_and num_slots (num_slots - 1) == 0)
    then throws
    else ok (record {
      tags = λ _. 0;
      rows = λ _. zero_row total_slot_size;
      num_slots = num_slots;
      mod_mask = num_slots - 1;
      total_slot_size = total_slot_size;
    })

unfoldable pub capacity : Table → ℕ
capacity t = t.num_slots

-- `hash & mod_mask`, the slot at which the chain begins
unfoldable pub slot_id : Table → ℕ → ℕ
slot_id t h = bit_and h t.mod_mask

unfoldable pub chain : Table → (ℕ → Bool) → ℕ → Run ℕ
chain t stop h = probe stop t.mod_mask (t.mod_mask + 1) (slot_id t h)

-- the bytes that `insert` copies: the key, or the whole packed row
unfoldable pub copied_size : Bool → ℕ → Table → ℕ
copied_size copy_only_key key_size t = if copy_only_key then key_size else t.total_slot_size

module _ (c : Comparator) where
  -- the two ways out of the loop of `lookup` and `lookupDisable`
  unfoldable pub ends_lookup : Table → Row → ℕ → ℕ → Bool
  ends_lookup t key h idx =
      not (is_filled (t.tags idx)) || (t.tags idx == fill_tag h && eq c key (t.rows idx))

  unfoldable pub lookup : Table → Row → ℕ → Run (Option ℕ)
  lookup t key h = do
    slot ← chain t (ends_lookup t key h) h
    ok (if is_filled (t.tags slot) then some slot else none)

  -- `compare_exchange_strong` succeeds if no other thread steps in between
  unfoldable pub lookup_disable : Table → Row → ℕ → Run (Option ℕ × Table)
  lookup_disable t key h = do
    slot ← chain t (ends_lookup t key h) h
    ok (
        if is_filled (t.tags slot)
        then (some slot, record t { tags = update t.tags slot (invert_tag (fill_tag h)) })
        else (none, t))

  unfoldable pub ends_outer : Table → Row → ℕ → ℕ → Bool
  ends_outer t key h idx =
      not (is_filled (t.tags idx))
      || (outer_fingerprint (t.tags idx) == outer_target h && eq c key (t.rows idx))

  unfoldable pub lookup_outer : Table → Row → ℕ → Run (Option ℕ × Table)
  lookup_outer t key h = do
    slot ← chain t (ends_outer t key h) h
    ok (
        if is_filled (t.tags slot)
        then (
          some slot,
          if t.tags slot == outer_marked_tag h
              then t
              else record t { tags = update t.tags slot (outer_marked_tag h) },
        )
        else (none, t))

  -- the loop of `insert` and `insertOuter`, which differ in the tag
  unfoldable pub insert_tagged : Bool → ℕ → Table → Row → ℕ → Run (ℕ × Table)
  insert_tagged copy_only_key tag t key h = do
    slot ← chain t (λ idx. not (is_filled (t.tags idx))) h
    let n = copied_size copy_only_key c.key_size t
    ok (
      slot,
      record t {
        tags = update t.tags slot tag;
        rows = update t.rows slot (copy_bytes n key (t.rows slot));
      },
    )

  unfoldable pub insert : Bool → Table → Row → ℕ → Run (ℕ × Table)
  insert copy_only_key t key h = insert_tagged copy_only_key (fill_tag h) t key h

  unfoldable pub insert_outer : Bool → Table → Row → ℕ → Run (ℕ × Table)
  insert_outer copy_only_key t key h = insert_tagged copy_only_key (outer_fill_tag h) t key h

  module _ (xxh3 : Row → ℕ) where
    -- the prefetches have no effect on the state
    unfoldable pub compute_hash_and_prefetch : Row → ℕ
    compute_hash_and_prefetch key = hash xxh3 c key

    unfoldable pub lookup_key : Table → Row → Run (Option ℕ)
    lookup_key t key = lookup t key (hash xxh3 c key)

    unfoldable pub lookup_disable_key : Table → Row → Run (Option ℕ × Table)
    lookup_disable_key t key = lookup_disable t key (hash xxh3 c key)

    unfoldable pub insert_key : Bool → Table → Row → Run (ℕ × Table)
    insert_key copy_only_key t key = insert copy_only_key t key (hash xxh3 c key)

-- for keys of four or eight bytes
unfoldable pub compute_hash_and_prefetch_fixed : (Row → ℕ) → ℕ → Row → ℕ
compute_hash_and_prefetch_fixed xxh3 key_width key = xxh3 (take key_width key)

-- the outer iterator goes on past slots that are empty or marked
unfoldable pub is_unmatched : Table → ℕ → Bool
is_unmatched t idx = not (not (is_filled (t.tags idx)) || is_marked (t.tags idx))

unfoldable pub iterator_start : Table → Run Iterator
iterator_start t = scan (is_unmatched t) t.mod_mask (t.mod_mask + 2) (some 0, 0)

unfoldable pub iterator_advance : Table → Iterator → Run Iterator
iterator_advance t it =
    scan (is_unmatched t) t.mod_mask (t.mod_mask + 2) (advance_no_wrap t.mod_mask it.1)

-- `itStart`, as it is written: the loop tests the tag of slot 0 in every round
unfoldable pub it_start : Table → Run Iterator
it_start t = scan (λ _. is_filled (t.tags 0)) t.mod_mask (t.mod_mask + 2) (some 0, 0)
