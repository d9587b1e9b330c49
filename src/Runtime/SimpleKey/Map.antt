-- ===== src/Runtime/SimpleKey/Map.antt =====
-- runtime/HashTables.cpp: `HashTableSimpleKey` as a map from keys to rows.
use inkfuse.Base.{
  ℕ, ◌+◌, ◌≤◌, ◌≡◌, refl, ◌∙◌, ap, inl, inr, ◌≢◌, Bool, true, false, not, none, some, arith, ltb,
  eq→==, if◌then◌else◌, length,
}
use inkfuse.Runtime.Run.{ok, ◌>>=◌}
use inkfuse.Runtime.Tags.{is_filled}
use inkfuse.Runtime.Probe.{probe, probe_total, probe-le, probe-stop, rounds-lt}
use inkfuse.Runtime.Comparator.{Comparator, Row, hash}
use inkfuse.Runtime.SimpleKey.{
  State, Thread, home, stops, find_slot_or_empty, lookup, fill_slot, lookup_or_insert, insert,
  raise,
}
use inkfuse.Runtime.SimpleKey.Chain.{
  home-le, empty_slot, Entry, IsValid, find_cases, find-Entry, empty-Entry, stops-false,
}
use inkfuse.Runtime.SimpleKey.Fill.{
  fill_slot-Entry, fill_slot-IsValid, inserted-fill_slot, fill_slot-Agree,
}
use inkfuse.Runtime.SimpleKey.Resize.{filled_ne_zero}
use inkfuse.Runtime.SimpleKey.Reserve.{
  row_of, row_of-Entry, row_of-none, row_of-Agree, Reserved, reserve_slot-Reserved,
}

not-false : (b : Bool) → not b ≡ false → b ≡ true
not-false true h = refl
not-false false h = cc

not-true : (b : Bool) → not b ≡ true → b ≡ false
not-true false h = refl
not-true true h = cc

module _ (xxh3 : Row → ℕ) (c : Comparator) where
  -- A call that stored `key`, found or new, in `slot`, and left the thread in state `r`.
  pub record Stores (t : Thread) (key : Row) (slot : ℕ) (is_new : Bool) (r : Thread) : Type 0 where
    pub valid : IsValid xxh3 c r.state
    pub returned : lookup xxh3 c r.state key ≡ ok (some slot)
    pub counted : r.state.inserted ≡ t.state.inserted + (if is_new then 1 else 0)
    pub old_row :
        (row : Row)
        → row_of xxh3 c t.state key ≡ some row
        → (is_new ≡ false) × (r.state.rows slot ≡ row)
    pub new_row :
        row_of xxh3 c t.state key ≡ none
        → (is_new ≡ true) × (c.key_of (r.state.rows slot) ≡ c.key_of key)
    pub others :
        (k : Row) → c.key_of k ≢ c.key_of key → row_of xxh3 c r.state k ≡ row_of xxh3 c t.state k
    pub flag : r.flag ≡ (if ltb t.state.inserted t.state.max_fill then t.flag else raise t.flag)

  lookup_of_find :
      (s : State) (j : ℕ) (key : Row)
      → IsValid xxh3 c s
      → Entry xxh3 c s j key
      → lookup xxh3 c s key ≡ ok (some j)
  unfolding lookup
  lookup_of_find s j key v e = rw (find-Entry xxh3 c s j key v e, ◌>>=◌, e.filled)

  module _ (t r : Thread) (key : Row) (slot : ℕ) (res : Reserved xxh3 c t r) where
    same_rows :
        (k : Row) → IsValid xxh3 c t.state → row_of xxh3 c r.state k ≡ row_of xxh3 c t.state k
    same_rows k v = row_of-Agree xxh3 c t.state r.state k v res.valid (res.same k)

    -- the key was there
    Stores-old : IsValid xxh3 c t.state → Entry xxh3 c r.state slot key → Stores t key slot false r
    Stores-old v e =
        let held = row_of-Entry xxh3 c r.state slot key res.valid e in
        let same = same_rows key v in
        record {
          valid = res.valid;
          returned = lookup_of_find r.state slot key res.valid e;
          counted = omega (arith, res.kept);
          old_row = λ row h. (refl, cc);
          new_row = λ h. absurd (cc);
          others = λ k _. same_rows k v;
          flag = res.flag;
        }

    -- the key is put into an empty slot at the end of its chain
    Stores-new :
        IsValid xxh3 c t.state
        → (p : ℕ → Bool)
        → ((x : ℕ) → x ≤ r.state.mod_mask → p x ≡ false → is_filled (r.state.tags x) ≡ true)
        → probe p r.state.mod_mask (r.state.mod_mask + 1) (home r.state (hash xxh3 c key)) ≡ ok slot
        → ((x : ℕ) → ¬ Entry xxh3 c r.state x key)
        → slot ≤ r.state.mod_mask
        → is_filled (r.state.tags slot) ≡ false
        → c.key_size ≤ length key
        → Stores t key slot true (record r { state = fill_slot xxh3 c r.state slot key })
    Stores-new v p through ends free inside empty long =
        let s = r.state in
        let v' =
          fill_slot-IsValid xxh3 c s slot key res.valid inside empty long p through ends free
            res.room in
        let e = fill_slot-Entry xxh3 c s slot key res.valid inside empty long in
        let gone = row_of-none xxh3 c s key res.valid free in
        let same = same_rows key v in
        record {
          valid = v';
          returned = lookup_of_find (fill_slot xxh3 c s slot key) slot key v' e;
          counted =
              inserted-fill_slot xxh3 c s slot key res.valid inside empty long
              ∙ ap (λ n. n + 1) res.kept;
          old_row = λ row h. absurd (cc);
          new_row = λ h. (refl, e.holds);
          others = λ k n.
              row_of-Agree xxh3 c s (fill_slot xxh3 c s slot key) k res.valid v'
                (fill_slot-Agree xxh3 c s slot key res.valid inside empty long k n)
              ∙ same_rows k v;
          flag = res.flag;
        }

  empty_zero : (s : State) (j : ℕ) → IsValid xxh3 c s → is_filled (s.tags j) ≡ false → s.tags j ≡ 0
  empty_zero s j v empty = ground (arith, v.clean j)

  absent_Entry :
      (t r : Thread) (key : Row)
      → Reserved xxh3 c t r
      → IsValid xxh3 c t.state
      → row_of xxh3 c t.state key ≡ none
      → (j : ℕ) → ¬ Entry xxh3 c r.state j key
  absent_Entry t r key res v absent j e =
      let held = row_of-Entry xxh3 c r.state j key res.valid e in
      let same = row_of-Agree xxh3 c t.state r.state key v res.valid (res.same key) in cc

  -- On a valid table, for bytes that are at least as long as a key, `lookupOrInsert` ends. It
  -- returns the key's slot and whether the key is new. A key that was there keeps its row, a new
  -- key gets a row that starts with it and counts one more, no other key sees a change, and the
  -- table stays valid. The restart flag is raised if the table was full.
  pub lookup_or_insert-Stores :
      (t : Thread) (key : Row)
      → IsValid xxh3 c t.state
      → c.key_size ≤ length key
      → (slot : ℕ) × (is_new : Bool) × (r : Thread) × (lookup_or_insert xxh3 c t key
          ≡ ok (slot, is_new, r))
        × Stores t key slot is_new r
  unfolding lookup_or_insert find_slot_or_empty
  lookup_or_insert-Stores t key v long =
      let (r, reserved, res) = reserve_slot-Reserved xxh3 c t v in
      let s = r.state in
      let (slot, found, inside, what) = find_cases xxh3 c s key res.valid in
      elim what [
        | inr e ↦ (
          slot,
          false,
          r,
          rw (reserved, ◌>>=◌, found, filled_ne_zero (s.tags slot) e.filled),
          Stores-old t r key slot res v e,
        )
        | inl empty ↦
            let zero_tag = empty_zero s slot res.valid empty in
            (
              slot,
              true,
              record r { state = fill_slot xxh3 c s slot key },
              rw (reserved, ◌>>=◌, found, eq→== (s.tags slot) 0 zero_tag),
              Stores-new t r key slot res v (stops xxh3 c s (hash xxh3 c key) key)
                  (λ x _ f. stops-false xxh3 c s (hash xxh3 c key) key x f) found
                  (empty-Entry xxh3 c s slot key res.valid found empty) inside empty long,
            )
      ]

  -- On a valid table, for bytes that are at least as long as a key and a key that is not in the
  -- table, `insert` ends with the effects of `lookupOrInsert` for a new key.
  pub insert-Stores :
      (t : Thread) (key : Row)
      → IsValid xxh3 c t.state
      → c.key_size ≤ length key
      → row_of xxh3 c t.state key ≡ none
      → (slot : ℕ) × (r : Thread) × (insert xxh3 c t key ≡ ok (slot, r)) × Stores t key slot true r
  unfolding insert
  insert-Stores t key v long absent =
      let (r, reserved, res) = reserve_slot-Reserved xxh3 c t v in
      let s = r.state in
      let p = λ (idx : ℕ). not (is_filled (s.tags idx)) in
      let h = home s (hash xxh3 c key) in
      let (x, l, u) = empty_slot xxh3 c s res.valid in
      let hl = home-le s (hash xxh3 c key) in
      let (slot, ends) =
        probe_total p s.mod_mask (s.mod_mask + 1) h x hl l (rw u) (rounds-lt s.mod_mask h x hl l) in
      let inside = probe-le p s.mod_mask (s.mod_mask + 1) h slot hl ends in
      let stopped = probe-stop p s.mod_mask (s.mod_mask + 1) h slot ends in
      (
        slot,
        record r { state = fill_slot xxh3 c s slot key },
        rw (reserved, ◌>>=◌, ends),
        Stores-new t r key slot res v p (λ y _ f. not-false (is_filled (s.tags y)) f) ends
            (λ y e. absent_Entry t r key res v absent y e) inside
            (not-true (is_filled (s.tags slot)) stopped) long,
      )
