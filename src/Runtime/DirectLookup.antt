-- ===== src/Runtime/DirectLookup.antt =====
-- runtime/HashTables.cpp: `HashTableDirectLookup`, whose keys are two bytes that index the slots.
--
-- A slot size is at most 2^15 - 1 here: from there on `(1 << 16) * slot_size` overflows an `int`.
pub mod Iterate
pub mod Map
use inkfuse.Base.{
  ℕ, zero, suc, ◌+◌, ◌-◌, ◌*◌, ◌/◌, ◌%◌, ◌^◌, ◌≤◌, ◌<◌, ◌≡◌, refl, sym, ap, subst, ◌∙◌, fun_ext,
  ◌≢◌, inl, inr, Bool, true, false, Option, none, some, List, [], ◌∷◌, arith, ltb, ◌==◌, ==→eq,
  eq→==, if◌then◌else◌, Bool-cases, update, count_below, count_below-add, count_below-none,
  count_below-le,
}
use inkfuse.Runtime.Run.{Run, ok, diverges}
use inkfuse.Runtime.Scan.{Iterator}
use inkfuse.Runtime.Comparator.{Row, copy_bytes}

pub record Direct : Type 0 where
  pub tags : ℕ → Bool
  pub rows : ℕ → Row
  pub num_inserted : ℕ
  pub slot_size : ℕ

-- the two bytes behind a `char*`
abbrev pub TwoBytes : Type 0
TwoBytes = ℕ × ℕ

-- `*reinterpret_cast<const uint16_t*>(key)`, least byte first
unfoldable pub read_index : TwoBytes → ℕ
read_index (low, high) = low + 2 ^ 8 * high

-- the two bytes of an index
unfoldable pub index_bytes : ℕ → Row
index_bytes idx = idx % 2 ^ 8 ∷ idx / 2 ^ 8 ∷ []

unfoldable pub zeros : ℕ → Row
zeros zero = []
zeros (suc n) = 0 ∷ zeros n

unfoldable pub new_direct : ℕ → Direct
unfolding zeros
new_direct payload_size = record {
  tags = λ _. false;
  rows = λ _. zeros ((2 + payload_size) % 2 ^ 16);
  num_inserted = 0;
  slot_size = (2 + payload_size) % 2 ^ 16;
}

-- `buildMergeTables`: one empty table of the first table's payload for each thread
unfoldable pub build_merge_tables : Direct → ℕ → List Direct
build_merge_tables first zero = []
build_merge_tables first (suc k) = new_direct (first.slot_size - 2) ∷ build_merge_tables first k

unfoldable pub hash_direct : TwoBytes → ℕ
hash_direct key = read_index key

unfoldable pub lookup_direct : Direct → TwoBytes → Option ℕ
lookup_direct t key = if t.tags (read_index key) then some (read_index key) else none

unfoldable pub insert_direct : Direct → TwoBytes → ℕ × Direct
unfolding index_bytes
insert_direct t key =
    let idx = read_index key in
    (
      idx,
      record t {
        tags = update t.tags idx true;
        rows = update t.rows idx (copy_bytes 2 (index_bytes idx) (t.rows idx));
        num_inserted = if t.tags idx then t.num_inserted else t.num_inserted + 1;
      },
    )

-- the loop of `iteratorAdvance`, with fuel for the rounds
unfoldable pub seek : (ℕ → Bool) → ℕ → ℕ → Run Iterator
seek tags zero idx = diverges
seek tags (suc fuel) idx =
    let rest = seek tags fuel (idx + 1) in
    if ltb idx (2 ^ 16) then if tags idx then ok (some idx, idx) else rest else ok (none, idx)

unfoldable pub advance_direct : Direct → ℕ → Run Iterator
advance_direct t idx = seek t.tags (2 ^ 16 + 1) (idx + 1)

unfoldable pub start_direct : Direct → Run Iterator
unfolding advance_direct
start_direct t = let next = advance_direct t 0 in if t.tags 0 then ok (some 0, 0) else next

unfoldable pub size_direct : Direct → ℕ
size_direct t = t.num_inserted

abbrev pub capacity_direct : ℕ
capacity_direct = 2 ^ 16
