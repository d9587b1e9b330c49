-- ===== src/Runtime/SimpleKey/Fill.antt =====
-- runtime/HashTables.cpp: the writes of `lookupOrInsert` and `insert` to an empty slot.
use inkfuse.Base.{
  ℕ, ◌+◌, ◌≤◌, ◌<◌, ◌≡◌, refl, sym, ◌∙◌, ap, subst, ◌⊎◌, inl, inr, ◌≢◌, Bool, true, false, arith,
  eq→==, length,
}
use inkfuse.Runtime.Run.{ok}
use inkfuse.Runtime.Tags.{is_filled, fill_tag, fill_tag_lem}
use inkfuse.Runtime.Probe.{probe}
use inkfuse.Runtime.Comparator.{Comparator, Row, hash, copy_bytes}
use inkfuse.Runtime.SimpleKey.{State, home, fill_slot}
use inkfuse.Runtime.SimpleKey.Chain.{
  find, Entry, IsValid, hash_congr, Entry_congr, Entry-inserted, Entry_of_inserted,
  HasChains-inserted,
}
use inkfuse.Runtime.SimpleKey.Write.{
  put, count-put, Entry-put, rows-put, Entry_of_put, find-put_new, put-HasChains,
}
use inkfuse.Runtime.SimpleKey.Reserve.{Agree}

module _ (xxh3 : Row → ℕ) (c : Comparator) (s : State) (e : ℕ) (key : Row)
    (valid : IsValid xxh3 c s) (inside : e ≤ s.mod_mask) (empty : is_filled (s.tags e) ≡ false)
    (long : c.key_size ≤ length key) where
  abbrev tag : ℕ
  tag = fill_tag (hash xxh3 c key)

  abbrev row : Row
  row = copy_bytes c.key_size key (s.rows e)

  full : is_filled tag ≡ true
  full = (fill_tag_lem (hash xxh3 c key)).0

  row-key : c.key_of row ≡ c.key_of key
  row-key = c.key_of-copy key (s.rows e) long

  new_Entry : Entry xxh3 c (put s e tag row) e key
  new_Entry = record {
    inside = inside;
    filled = rw (eq→== e e refl) full;
    tagged = rw (eq→== e e refl) (fill_tag_lem (hash xxh3 c key)).1;
    holds = rw (eq→== e e refl) row-key;
  }

  -- The written slot is the key's entry, every other entry stays, and there is no further one.
  pub fill_slot-Entry : Entry xxh3 c (fill_slot xxh3 c s e key) e key
  unfolding fill_slot
  fill_slot-Entry = Entry-inserted xxh3 c (put s e tag row) (s.inserted + 1) e key new_Entry

  pub Entry-fill_slot :
      (j : ℕ) (k : Row) → Entry xxh3 c s j k → Entry xxh3 c (fill_slot xxh3 c s e key) j k
  unfolding fill_slot
  Entry-fill_slot j k n =
      Entry-inserted xxh3 c (put s e tag row) (s.inserted + 1) j k
        (Entry-put xxh3 c s e tag row empty full j k n)

  pub Entry_of_fill_slot :
      (j : ℕ) (k : Row) → Entry xxh3 c (fill_slot xxh3 c s e key) j k → (j ≡ e) ⊎ Entry xxh3 c s j k
  unfolding fill_slot
  Entry_of_fill_slot j k n =
      Entry_of_put xxh3 c s e tag row empty full j k
        (Entry_of_inserted xxh3 c (put s e tag row) (s.inserted + 1) j k n)

  pub inserted-fill_slot : (fill_slot xxh3 c s e key).inserted ≡ s.inserted + 1
  unfolding fill_slot
  inserted-fill_slot = refl

  rows-fill_slot :
      (j : ℕ) → is_filled (s.tags j) ≡ true → (fill_slot xxh3 c s e key).rows j ≡ s.rows j
  unfolding fill_slot
  rows-fill_slot j f = rows-put xxh3 c s e tag row empty full j f

  -- Under every other key the table holds what it held.
  pub fill_slot-Agree :
      (k : Row) → c.key_of k ≢ c.key_of key → Agree xxh3 c s (fill_slot xxh3 c s e key) k
  fill_slot-Agree k other = record {
    forth = λ j n. (j, Entry-fill_slot j k n, rows-fill_slot j n.filled);
    back = λ i n. elim (Entry_of_fill_slot i k n) [
      | inr old ↦ (i, old)
      | inl here ↦
          let there = subst (λ x. Entry xxh3 c (fill_slot xxh3 c s e key) x k) here n in
          absurd (other (sym there.holds ∙ fill_slot-Entry.holds))
    ];
  }

  module _ (p : ℕ → Bool)
      (through : (x : ℕ) → x ≤ s.mod_mask → p x ≡ false → is_filled (s.tags x) ≡ true)
      (ends : probe p s.mod_mask (s.mod_mask + 1) (home s (hash xxh3 c key)) ≡ ok e)
      (free : (x : ℕ) → ¬ Entry xxh3 c s x key) where
    found_new : find xxh3 c (put s e tag row) row ≡ ok e
    found_new =
        find-put_new xxh3 c s e tag row empty full p through
          (rw (hash_congr xxh3 c row key row-key) ends)
          (λ x n. free x (Entry_congr xxh3 c s x row key row-key n))
          (Entry_congr xxh3 c (put s e tag row) e key row (sym row-key) new_Entry)

    -- A new key keeps the invariant, as long as the table has room for it.
    pub fill_slot-IsValid : s.inserted < s.max_fill → IsValid xxh3 c (fill_slot xxh3 c s e key)
    unfolding fill_slot
    fill_slot-IsValid room =
        let ch =
          put-HasChains xxh3 c s e tag row empty full valid.chains
            (fill_tag_lem (hash xxh3 c key)).2 (λ _. found_new) in
        record {
          chains = HasChains-inserted xxh3 c (put s e tag row) (s.inserted + 1) ch;
          power = valid.power;
          wide = valid.wide;
          limit = valid.limit;
          counted = count-put s e tag row inside empty full ∙ ap (λ n. n + 1) valid.counted;
          roomy = omega arith;
        }
