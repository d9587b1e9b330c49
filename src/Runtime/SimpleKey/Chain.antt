-- ===== src/Runtime/SimpleKey/Chain.antt =====
-- runtime/HashTables.cpp: where the keys of `HashTableSimpleKey` stand, and what a probe finds.
use inkfuse.Base.{
  ℕ, ◌+◌, ◌/◌, ◌≤◌, ◌<◌, ◌≡◌, refl, sym, ◌∙◌, ap, subst, fun_ext, ◌⊎◌, inl, inr, true, false, none,
  some, arith, bit_and, count_below, count_below-lt,
}
use inkfuse.Base.Bits.{bit_and-le}
use inkfuse.Runtime.Run.{Run, ok, ◌>>=◌}
use inkfuse.Runtime.Tags.{is_filled, tag_hash, target_tag}
use inkfuse.Runtime.Probe.{probe-stop, probe-le, probe_total, rounds-lt}
use inkfuse.Runtime.Comparator.{Comparator, Row, eq, hash, key_of_eq}
use inkfuse.Runtime.SimpleKey.{State, home, stops, find_slot_or_empty, lookup}

pub home-le : (s : State) (h : ℕ) → home s h ≤ s.mod_mask
unfolding home
home-le s h = bit_and-le h s.mod_mask

module _ (xxh3 : Row → ℕ) (c : Comparator) where
  -- `findSlotOrEmpty` for a key and its hash
  abbrev pub find : State → Row → Run ℕ
  find s key = find_slot_or_empty xxh3 c s (hash xxh3 c key) key

  -- Slot `j` holds `key` under its fingerprint.
  pub record Entry (s : State) (j : ℕ) (key : Row) : Type 0 where
    pub inside : j ≤ s.mod_mask
    pub filled : is_filled (s.tags j) ≡ true
    pub tagged : tag_hash (s.tags j) ≡ target_tag (hash xxh3 c key)
    pub holds : c.key_of (s.rows j) ≡ c.key_of key

  -- `clean`: a slot is filled or has the tag 0. `found`: the probe for the key of an enabled slot
  -- ends there.
  pub record HasChains (s : State) : Type 0 where
    pub bytes : (i : ℕ) → s.tags i < 256
    pub clean : (i : ℕ) → (s.tags i ≡ 0) ⊎ (is_filled (s.tags i) ≡ true)
    pub found : (i : ℕ) → Entry s i (s.rows i) → find s (s.rows i) ≡ ok i

  -- The invariant.
  pub record IsValid (s : State) : Type 0 where
    pub chains : HasChains s
    pub open chains use *
    pub power : bit_and (s.mod_mask + 1) s.mod_mask ≡ 0
    pub wide : 1 ≤ s.mod_mask
    pub limit : s.max_fill ≡ (s.mod_mask + 1) / 2
    pub counted : count_below (s.mod_mask + 1) (λ i. is_filled (s.tags i)) ≡ s.inserted
    pub roomy : s.inserted ≤ s.max_fill

  pub hash_congr : (a b : Row) → c.key_of a ≡ c.key_of b → hash xxh3 c a ≡ hash xxh3 c b
  unfolding hash
  hash_congr a b e = rw e

  pub stops_congr :
      (s : State) (h : ℕ) (a b : Row)
      → c.key_of a ≡ c.key_of b
      → (i : ℕ) → stops xxh3 c s h a i ≡ stops xxh3 c s h b i
  unfolding stops eq
  stops_congr s h a b e i = rw e

  pub stops_empty :
      (s : State) (h : ℕ) (key : Row) (i : ℕ)
      → is_filled (s.tags i) ≡ false
      → stops xxh3 c s h key i ≡ true
  unfolding stops
  stops_empty s h key i e = rw e

  pub stops-false :
      (s : State) (h : ℕ) (key : Row) (i : ℕ)
      → stops xxh3 c s h key i ≡ false
      → is_filled (s.tags i) ≡ true
  unfolding stops
  stops-false s h key i e = ground arith

  pub find_congr : (s : State) (a b : Row) → c.key_of a ≡ c.key_of b → find s a ≡ find s b
  unfolding find_slot_or_empty
  find_congr s a b e = rw (hash_congr a b e, fun_ext (stops_congr s (hash xxh3 c b) a b e))

  pub stops_cases :
      (s : State) (h : ℕ) (key : Row) (i : ℕ)
      → stops xxh3 c s h key i ≡ true
      → (is_filled (s.tags i) ≡ false)
        ⊎ ((is_filled (s.tags i) ≡ true)
            × (tag_hash (s.tags i) ≡ target_tag h)
            × (eq c (s.rows i) key ≡ true))
  unfolding stops
  stops_cases s h key i e = ground arith

  pub Entry-self : (s : State) (j : ℕ) (key : Row) → Entry s j key → Entry s j (s.rows j)
  Entry-self s j key e = record {
    inside = e.inside;
    filled = e.filled;
    tagged = e.tagged ∙ ap target_tag (hash_congr key (s.rows j) (sym e.holds));
    holds = refl;
  }

  pub Entry_congr :
      (s : State) (j : ℕ) (a b : Row) → c.key_of a ≡ c.key_of b → Entry s j a → Entry s j b
  Entry_congr s j a b k e = record {
    inside = e.inside;
    filled = e.filled;
    tagged = e.tagged ∙ ap target_tag (hash_congr a b k);
    holds = e.holds ∙ k;
  }

  -- A table that has room has an empty slot.
  pub empty_slot :
      (s : State) → IsValid s → (e : ℕ) × (e ≤ s.mod_mask) × (is_filled (s.tags e) ≡ false)
  empty_slot s v =
      let (e, l, f) =
        count_below-lt (s.mod_mask + 1) (λ i. is_filled (s.tags i))
          (omega (arith, v.counted, v.roomy, v.limit, v.wide)) in
      (e, omega arith, f)

  found_Entry :
      (s : State) (key : Row) (j : ℕ)
      → j ≤ s.mod_mask
      → ((is_filled (s.tags j) ≡ false)
          ⊎ ((is_filled (s.tags j) ≡ true)
              × (tag_hash (s.tags j) ≡ target_tag (hash xxh3 c key))
              × (eq c (s.rows j) key ≡ true)))
      → (is_filled (s.tags j) ≡ false) ⊎ Entry s j key
  found_Entry s key j inside (inl u) = inl u
  found_Entry s key j inside (inr (p, q, t)) =
      inr (record { inside = inside; filled = p; tagged = q; holds = key_of_eq c (s.rows j) key t })

  -- A probe ends, at an empty slot or at the key's entry.
  pub find_cases :
      (s : State) (key : Row)
      → IsValid s
      → (j : ℕ) × (find s key ≡ ok j)
        × (j ≤ s.mod_mask)
        × ((is_filled (s.tags j) ≡ false) ⊎ Entry s j key)
  unfolding find_slot_or_empty
  find_cases s key v =
      let h = hash xxh3 c key in
      let stop = stops xxh3 c s h key in
      let (e, l, f) = empty_slot s v in
      let (j, r) =
        probe_total stop s.mod_mask (s.mod_mask + 1) (home s h) e (home-le s h) l
          (stops_empty s h key e f) (rounds-lt s.mod_mask (home s h) e (home-le s h) l) in
      let inside = probe-le stop s.mod_mask (s.mod_mask + 1) (home s h) j (home-le s h) r in
      let stopped = probe-stop stop s.mod_mask (s.mod_mask + 1) (home s h) j r in
      (j, r, inside, found_Entry s key j inside (stops_cases s h key j stopped))

  -- The probe for a key that has an entry ends there, so that no key has two.
  pub find-Entry : (s : State) (j : ℕ) (key : Row) → IsValid s → Entry s j key → find s key ≡ ok j
  find-Entry s j key v e =
      find_congr s key (s.rows j) (sym e.holds) ∙ v.found j (Entry-self s j key e)

  pub Entry-unique :
      (s : State) (i j : ℕ) (key : Row) → IsValid s → Entry s i key → Entry s j key → i ≡ j
  Entry-unique s i j key v p q = cc (find-Entry s i key v p, find-Entry s j key v q)

  -- A probe that ends at an empty slot shows that the key has no entry.
  pub empty-Entry :
      (s : State) (j : ℕ) (key : Row)
      → IsValid s
      → find s key ≡ ok j
      → is_filled (s.tags j) ≡ false
      → (i : ℕ) → ¬ Entry s i key
  empty-Entry s j key v r u i e =
      let same : i ≡ j = cc (find-Entry s i key v e) in
      let full : is_filled (s.tags j) ≡ true =
        subst (λ k. is_filled (s.tags k) ≡ true) same e.filled in
      cc

  -- In a valid table `lookup` ends: it returns the slot that holds the key, and null exactly when
  -- there is none.
  pub lookup-Entry :
      (s : State) (key : Row)
      → IsValid s
      → ((j : ℕ) × Entry s j key × (lookup xxh3 c s key ≡ ok (some j)))
        ⊎ (((j : ℕ) → ¬ Entry s j key) × (lookup xxh3 c s key ≡ ok none))
  unfolding lookup
  lookup-Entry s key v =
      let (j, r, inside, what) = find_cases s key v in
      elim what [
        | inl u ↦ inr (empty-Entry s j key v r u, rw (r, ◌>>=◌, u))
        | inr e ↦ inl (j, e, rw (r, ◌>>=◌, e.filled))
      ]

  -- The number of entries plays no part in the chains.
  pub Entry-inserted :
      (s : State) (n j : ℕ) (key : Row) → Entry s j key → Entry (record s { inserted = n }) j key
  Entry-inserted s n j key e = record {
    inside = e.inside;
    filled = e.filled;
    tagged = e.tagged;
    holds = e.holds;
  }

  pub Entry_of_inserted :
      (s : State) (n j : ℕ) (key : Row) → Entry (record s { inserted = n }) j key → Entry s j key
  Entry_of_inserted s n j key e = record {
    inside = e.inside;
    filled = e.filled;
    tagged = e.tagged;
    holds = e.holds;
  }

  pub find-inserted :
      (s : State) (n : ℕ) (key : Row) → find (record s { inserted = n }) key ≡ find s key
  unfolding find_slot_or_empty stops home
  find-inserted s n key = refl

  pub HasChains-inserted : (s : State) (n : ℕ) → HasChains s → HasChains (record s { inserted = n })
  HasChains-inserted s n v = record {
    bytes = v.bytes;
    clean = v.clean;
    found = λ i e. find-inserted s n (s.rows i) ∙ v.found i (Entry_of_inserted s n i (s.rows i) e);
  }
