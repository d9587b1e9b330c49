-- ===== src/Runtime/SimpleKey/Write.antt =====
-- runtime/HashTables.cpp: what a write of a tag and a row to an empty slot does to the chains of
-- `HashTableSimpleKey`. Both `lookupOrInsert` and the copy in `reserveSlot` write so.
use inkfuse.Base.{
  ℕ, ◌+◌, ◌≤◌, ◌<◌, ◌≡◌, refl, sym, subst, ◌⊎◌, inl, inr, Bool, true, false, arith, ◌==◌, ==→eq,
  eq→==, Bool-cases, update, count_below, count_below-add,
}
use inkfuse.Runtime.Run.{ok}
use inkfuse.Runtime.Tags.{is_filled}
use inkfuse.Runtime.Probe.{probe, probe_agree}
use inkfuse.Runtime.Comparator.{Comparator, Row, hash, eq_of_key, key_of_eq}
use inkfuse.Runtime.SimpleKey.{State, home, stops, find_slot_or_empty}
use inkfuse.Runtime.SimpleKey.Chain.{home-le, find, Entry, HasChains, stops_cases}

abbrev pub put : State → ℕ → ℕ → Row → State
put s e tag row = record s { tags = update s.tags e tag; rows = update s.rows e row }

pub count-put :
    (s : State) (e tag : ℕ) (row : Row)
    → e ≤ s.mod_mask
    → is_filled (s.tags e) ≡ false
    → is_filled tag ≡ true
    → count_below (s.mod_mask + 1) (λ i. is_filled ((put s e tag row).tags i))
      ≡ count_below (s.mod_mask + 1) (λ i. is_filled (s.tags i)) + 1
count-put s e tag row l u f =
    count_below-add (s.mod_mask + 1) _ _ e (omega arith) u (ground (arith, eq→== e e refl))
      (λ i n. ground arith)

module _ (xxh3 : Row → ℕ) (c : Comparator) where
  pub Entry-stops :
      (s : State) (j : ℕ) (key : Row)
      → Entry xxh3 c s j key
      → stops xxh3 c s (hash xxh3 c key) key j ≡ true
  unfolding stops
  Entry-stops s j key e =
      let same = eq_of_key c (s.rows j) key e.holds in rw (e.filled, eq→== _ _ e.tagged, same)

  module _ (s : State) (e tag : ℕ) (row : Row) (empty : is_filled (s.tags e) ≡ false)
      (full : is_filled tag ≡ true) where
    -- The entries of the new state are the old ones, and perhaps the slot that was written.
    pub Entry-put :
        (j : ℕ) (key : Row) → Entry xxh3 c s j key → Entry xxh3 c (put s e tag row) j key
    Entry-put j key n = elim (Bool-cases (j == e)) [
      | inl here ↦
          let absurd_tag : is_filled (s.tags e) ≡ true =
            subst (λ k. is_filled (s.tags k) ≡ true) (==→eq j e here) n.filled in
          absurd (cc)
      | inr apart ↦ record {
        inside = n.inside;
        filled = rw apart n.filled;
        tagged = rw apart n.tagged;
        holds = rw apart n.holds;
      }
    ]

    pub rows-put : (j : ℕ) → is_filled (s.tags j) ≡ true → (put s e tag row).rows j ≡ s.rows j
    rows-put j f = elim (Bool-cases (j == e)) [
      | inl here ↦
          let empty_j = subst (λ k. is_filled (s.tags k) ≡ false) (sym (==→eq j e here)) empty in
          absurd (cc)
      | inr apart ↦ rw apart
    ]

    pub Entry_of_put :
        (j : ℕ) (key : Row) → Entry xxh3 c (put s e tag row) j key → (j ≡ e) ⊎ Entry xxh3 c s j key
    Entry_of_put j key n = elim (Bool-cases (j == e)) [
      | inl here ↦ inl (==→eq j e here)
      | inr apart ↦ inr (record {
        inside = n.inside;
        filled = rw apart at n.filled;
        tagged = rw apart at n.tagged;
        holds = rw apart at n.holds;
      })
    ]

    stops-put :
        (h : ℕ) (key : Row) (x : ℕ)
        → stops xxh3 c s h key x ≡ false
        → stops xxh3 c (put s e tag row) h key x ≡ false
    unfolding stops
    stops-put h key x n = elim (Bool-cases (x == e)) [
      | inl here ↦
          let there : is_filled (s.tags x) ≡ false =
            subst (λ k. is_filled (s.tags k) ≡ false) (sym (==→eq x e here)) empty in
          ground (arith)
      | inr apart ↦ rw apart n
    ]

    passes :
        (h x : ℕ)
        → h ≡ hash xxh3 c row
        → is_filled (s.tags x) ≡ true
        → (stops xxh3 c s h row x ≡ true → is_filled (s.tags x) ≡ false)
        → stops xxh3 c (put s e tag row) h row x ≡ false
    passes h x same f only = elim (Bool-cases (stops xxh3 c s h row x)) [
      | inl stopped ↦ let u = only stopped in absurd (cc)
      | inr passed ↦ stops-put h row x passed
    ]

    no_entry_stops :
        (x : ℕ)
        → x ≤ s.mod_mask
        → ¬ Entry xxh3 c s x row
        → stops xxh3 c s (hash xxh3 c row) row x ≡ true
        → is_filled (s.tags x) ≡ false
    no_entry_stops x l free stopped = elim (stops_cases xxh3 c s (hash xxh3 c row) row x stopped) [
      | inl u ↦ u
      | inr (p, q, t) ↦ absurd (
          free
            (record { inside = l; filled = p; tagged = q; holds = key_of_eq c (s.rows x) row t }))
    ]

    -- A probe that ended at an entry still does.
    pub find-put :
        (j : ℕ) (key : Row)
        → Entry xxh3 c s j key
        → find xxh3 c s key ≡ ok j
        → find xxh3 c (put s e tag row) key ≡ ok j
    unfolding find_slot_or_empty stops home
    find-put j key n r =
        probe_agree (stops xxh3 c s (hash xxh3 c key) key) _ s.mod_mask (s.mod_mask + 1) _ j
          (λ x _. stops-put (hash xxh3 c key) key x)
          (Entry-stops (put s e tag row) j key (Entry-put j key n)) (home-le s _) r

    -- A chain that leads to the slot through filled slots makes it the slot of its key.
    pub find-put_new :
        (p : ℕ → Bool)
        → ((x : ℕ) → x ≤ s.mod_mask → p x ≡ false → is_filled (s.tags x) ≡ true)
        → probe p s.mod_mask (s.mod_mask + 1) (home s (hash xxh3 c row)) ≡ ok e
        → ((x : ℕ) → ¬ Entry xxh3 c s x row)
        → Entry xxh3 c (put s e tag row) e row
        → find xxh3 c (put s e tag row) row ≡ ok e
    unfolding find_slot_or_empty stops home
    find-put_new p through r free n =
        probe_agree p _ s.mod_mask (s.mod_mask + 1) _ e
          (λ x l f. passes (hash xxh3 c row) x refl (through x l f) (no_entry_stops x l (free x)))
          (Entry-stops (put s e tag row) e row n) (home-le s _) r

    put_found_new :
        {j : ℕ}
        → j ≡ e
        → (Entry xxh3 c (put s e tag row) e row → find xxh3 c (put s e tag row) row ≡ ok e)
        → Entry xxh3 c (put s e tag row) j ((put s e tag row).rows j)
        → find xxh3 c (put s e tag row) ((put s e tag row).rows j) ≡ ok j
    put_found_new {j} same new n =
        let there : (put s e tag row).rows e ≡ row = ground (arith, eq→== e e refl) in
        rw (same, there) (new (rw (same, there) at n))

    put_found_old :
        HasChains xxh3 c s
        → (j : ℕ) → (j == e) ≡ false
        → Entry xxh3 c (put s e tag row) j ((put s e tag row).rows j)
        → find xxh3 c (put s e tag row) ((put s e tag row).rows j) ≡ ok j
    put_found_old v j apart n =
        let there : (put s e tag row).rows j ≡ s.rows j = (rw apart) in
        let m : Entry xxh3 c (put s e tag row) j (s.rows j) = (rw there at n) in
        elim (Entry_of_put j (s.rows j) m) [
          | inl same ↦ absurd (ground arith)
          | inr old ↦ rw there (find-put j (s.rows j) old (v.found j old))
        ]

    pub put-HasChains :
        HasChains xxh3 c s
        → tag < 256
        → (Entry xxh3 c (put s e tag row) e row → find xxh3 c (put s e tag row) row ≡ ok e)
        → HasChains xxh3 c (put s e tag row)
    put-HasChains v small new = record {
      bytes = λ i. ground (arith, v.bytes i);
      clean = λ i. ground (arith, v.clean i);
      found = λ j n. elim (Bool-cases (j == e)) [
        | inl here ↦ put_found_new (==→eq j e here) new n
        | inr apart ↦ put_found_old v j apart n
      ];
    }
