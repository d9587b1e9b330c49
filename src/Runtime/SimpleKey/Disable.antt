-- ===== src/Runtime/SimpleKey/Disable.antt =====
-- runtime/HashTables.cpp: `HashTableSimpleKey::lookupDisable`, which keeps the slot filled and
-- inverts its fingerprint.
use inkfuse.Base.{
  ℕ, ◌+◌, ◌≤◌, ◌<◌, ◌≡◌, refl, sym, ◌∙◌, ap, subst, fun_ext, inl, inr, ◌≢◌, true, false, none, some,
  arith, ltb, ◌==◌, ==→eq, eq→==, Bool-cases, update, count_below-congr,
}
use inkfuse.Runtime.Run.{ok, ◌>>=◌}
use inkfuse.Runtime.Tags.{is_filled, tag_hash, target_tag, invert_tag, invert_tag_lem}
use inkfuse.Runtime.Probe.{probe_agree}
use inkfuse.Runtime.Comparator.{Comparator, Row, hash, key_of_eq}
use inkfuse.Runtime.SimpleKey.{
  State, Thread, home, stops, find_slot_or_empty, lookup, lookup_disable, reserve_slot,
  lookup_or_insert,
}
use inkfuse.Runtime.SimpleKey.Chain.{
  find, home-le, Entry, IsValid, find_cases, hash_congr, stops_cases, stops-false, Entry-unique,
  find-Entry, lookup-Entry,
}
use inkfuse.Runtime.SimpleKey.Write.{Entry-stops}
use inkfuse.Runtime.SimpleKey.Reserve.{row_of, row_of-Agree, Agree}

abbrev pub disabled : State → ℕ → State
disabled s j = record s { tags = update s.tags j (invert_tag (s.tags j)) }

invert_tag-zero : (invert_tag 0 == 0) ≡ false
unfolding invert_tag
invert_tag-zero = refl

-- The fill bits stay.
filled-disabled :
    (s : State) (j : ℕ)
    → ((i : ℕ) → s.tags i < 256)
    → (i : ℕ) → is_filled ((disabled s j).tags i) ≡ is_filled (s.tags i)
filled-disabled s j bytes i = elim (Bool-cases (i == j)) [
  | inl here ↦
      let at_j : i ≡ j = ==→eq i j here in rw (here, at_j) (invert_tag_lem (s.tags j) (bytes j)).1
  | inr apart ↦ rw apart
]

module _ (xxh3 : Row → ℕ) (c : Comparator) where
  module _ (s : State) (j : ℕ) (key : Row) (v : IsValid xxh3 c s) (e : Entry xxh3 c s j key) where
    -- the disabled slot is no entry of any key
    not_Entry : (k : Row) → ¬ Entry xxh3 c (disabled s j) j k
    not_Entry k n =
        let same : c.key_of k ≡ c.key_of key = sym n.holds ∙ e.holds in
        let tag : tag_hash (invert_tag (s.tags j)) ≡ tag_hash (s.tags j) =
          (rw (eq→== j j refl) at n.tagged)
          ∙ ap target_tag (hash_congr xxh3 c k key same)
          ∙ sym e.tagged in
        let other = (invert_tag_lem (s.tags j) (v.bytes j)).2 in let eq = eq→== _ _ tag in cc

    Entry_of_disabled :
        (i : ℕ) (k : Row)
        → Entry xxh3 c (disabled s j) i k
        → Entry xxh3 c s i k × ((i == j) ≡ false)
    Entry_of_disabled i k n = elim (Bool-cases (i == j)) [
      | inl here ↦
          absurd (not_Entry k (subst (λ x. Entry xxh3 c (disabled s j) x k) (==→eq i j here) n))
      | inr apart ↦ (
        record {
          inside = n.inside;
          filled = rw apart at n.filled;
          tagged = rw apart at n.tagged;
          holds = n.holds;
        },
        apart,
      )
    ]

    Entry-disabled :
        (i : ℕ) (k : Row) → (i == j) ≡ false → Entry xxh3 c s i k → Entry xxh3 c (disabled s j) i k
    Entry-disabled i k apart n = record {
      inside = n.inside;
      filled = rw apart n.filled;
      tagged = rw apart n.tagged;
      holds = n.holds;
    }

    stops-disabled :
        (k : Row) (x : ℕ)
        → x ≤ s.mod_mask
        → stops xxh3 c s (hash xxh3 c k) k x ≡ false
        → stops xxh3 c (disabled s j) (hash xxh3 c k) k x ≡ false
    stops-disabled k x l f = elim (Bool-cases (stops xxh3 c (disabled s j) (hash xxh3 c k) k x)) [
      | inr g ↦ g
      | inl t ↦ elim (stops_cases xxh3 c (disabled s j) (hash xxh3 c k) k x t) [
        | inl u ↦
            let f' = stops-false xxh3 c s (hash xxh3 c k) k x f in
            let same = filled-disabled s j v.bytes x in absurd (cc)
        | inr (p, q, r) ↦
            let n : Entry xxh3 c (disabled s j) x k = record {
              inside = l;
              filled = p;
              tagged = q;
              holds = key_of_eq c (s.rows x) k r;
            } in
            let stopped = Entry-stops xxh3 c s x k (Entry_of_disabled x k n).0 in absurd (cc)
      ]
    ]

    disabled-IsValid : IsValid xxh3 c (disabled s j)
    unfolding find_slot_or_empty stops home
    disabled-IsValid = record {
      chains = record {
        bytes = λ i. ground (arith, v.bytes i, (invert_tag_lem (s.tags j) (v.bytes j)).0);
        clean = λ i. elim (Bool-cases (i == j)) [
          | inl here ↦ inr (rw here ((invert_tag_lem (s.tags j) (v.bytes j)).1 ∙ e.filled))
          | inr apart ↦ rw apart (v.clean i)
        ];
        found = λ i n.
            let (m, apart) = Entry_of_disabled i (s.rows i) n in
            probe_agree (stops xxh3 c s (hash xxh3 c (s.rows i)) (s.rows i)) _ s.mod_mask
              (s.mod_mask + 1) _ i (stops-disabled (s.rows i))
              (Entry-stops xxh3 c (disabled s j) i (s.rows i) n) (home-le s _) (v.found i m);
      };
      power = v.power;
      wide = v.wide;
      limit = v.limit;
      counted =
          count_below-congr (s.mod_mask + 1) _ _ (λ i _. filled-disabled s j v.bytes i) ∙ v.counted;
      roomy = v.roomy;
    }

    disabled-Agree : (k : Row) → c.key_of k ≢ c.key_of key → Agree xxh3 c s (disabled s j) k
    disabled-Agree k other = record {
      forth = λ i n. (
        i,
        Entry-disabled i k
            (elim (Bool-cases (i == j)) [
              | inl here ↦
                  let there = subst (λ x. Entry xxh3 c s x k) (==→eq i j here) n in
                  absurd (other (sym there.holds ∙ e.holds))
              | inr apart ↦ apart
            ])
            n,
        refl,
      );
      back = λ i n. (i, (Entry_of_disabled i k n).0);
    }

    gone : (i : ℕ) → ¬ Entry xxh3 c (disabled s j) i key
    gone i n =
        let (m, apart) = Entry_of_disabled i key n in
        let same = Entry-unique xxh3 c s i j key v m e in ground arith

  lookup-none :
      (s : State) (key : Row)
      → IsValid xxh3 c s
      → ((i : ℕ) → ¬ Entry xxh3 c s i key)
      → lookup xxh3 c s key ≡ ok none
  lookup-none s key v n = elim (lookup-Entry xxh3 c s key v) [
    | inl (i, e, _) ↦ absurd (n i e)
    | inr (_, r) ↦ r
  ]

  stops-marked :
      (s : State) (j : ℕ)
      → is_filled (s.tags j) ≡ false
      → is_filled (invert_tag (s.tags j)) ≡ false
      → (h : ℕ) (key : Row) (x : ℕ) → stops xxh3 c (disabled s j) h key x ≡ stops xxh3 c s h key x
  unfolding stops
  stops-marked s j empty marked h key x = elim (Bool-cases (x == j)) [
    | inr apart ↦ rw apart
    | inl here ↦ let at_j : x ≡ j = ==→eq x j here in rw (here, at_j, empty, marked)
  ]

  -- a probe does not see the mark
  find-marked :
      (s : State) (j : ℕ)
      → is_filled (s.tags j) ≡ false
      → is_filled (invert_tag (s.tags j)) ≡ false
      → (key : Row) → find xxh3 c (disabled s j) key ≡ find xxh3 c s key
  unfolding find_slot_or_empty home
  find-marked s j empty marked key =
      rw (fun_ext (stops-marked s j empty marked (hash xxh3 c key) key))

  -- `lookupDisable` of a key that `lookup` finds in a valid table returns its slot and hides the
  -- key. The table stays valid, and every other key keeps its row.
  pub lookup_disable_hit :
      (s : State) (key : Row) (j : ℕ)
      → IsValid xxh3 c s
      → lookup xxh3 c s key ≡ ok (some j)
      → (s' : State) × (lookup_disable xxh3 c s key ≡ ok (some j, s'))
        × IsValid xxh3 c s'
        × (lookup xxh3 c s' key ≡ ok none)
        × ((k : Row) → c.key_of k ≢ c.key_of key → row_of xxh3 c s' k ≡ row_of xxh3 c s k)
  unfolding lookup_disable
  lookup_disable_hit s key j v found = elim (lookup-Entry xxh3 c s key v) [
    | inr (_, r) ↦ absurd (cc)
    | inl (i, e_i, r) ↦
        let same : i ≡ j = cc in
        let e = subst (λ x. Entry xxh3 c s x key) same e_i in
        let v' = disabled-IsValid s j key v e in
        (
          disabled s j,
          rw (find-Entry xxh3 c s j key v e, ◌>>=◌, e.filled),
          v',
          lookup-none (disabled s j) key v' (gone s j key v e),
          λ k n. row_of-Agree xxh3 c s (disabled s j) k v v' (disabled-Agree s j key v e k n),
        )
  ]

  -- In a valid table that is not full, a miss of `lookupDisable` leaves a slot with a tag that is
  -- not 0 and not filled. `lookupOrInsert` of the key takes this slot for that of a known key: it
  -- reports an old key and changes nothing, and `lookup` still does not find the key.
  pub lookup_disable_miss :
      (t : Thread) (key : Row)
      → IsValid xxh3 c t.state
      → t.state.inserted < t.state.max_fill
      → lookup xxh3 c t.state key ≡ ok none
      → (slot : ℕ) × (s' : State) × (lookup_disable xxh3 c t.state key ≡ ok (none, s'))
        × (s'.tags slot ≢ 0)
        × (is_filled (s'.tags slot) ≡ false)
        × (lookup_or_insert xxh3 c (record t { state = s' }) key
            ≡ ok (slot, false, record t { state = s' }))
        × (lookup xxh3 c s' key ≡ ok none)
  unfolding lookup_disable lookup_or_insert lookup reserve_slot
  lookup_disable_miss t key v room absent =
      let s = t.state in
      let (j, found, inside, what) = find_cases xxh3 c s key v in
      elim what [
        | inr e ↦
            let held : lookup xxh3 c s key ≡ ok (some j) = rw (found, ◌>>=◌, e.filled) in
            absurd (cc)
        | inl empty ↦
            let zero_tag : s.tags j ≡ 0 = ground (arith, v.clean j) in
            let marked = (invert_tag_lem (s.tags j) (v.bytes j)).1 ∙ empty in
            let nonzero : (invert_tag (s.tags j) == 0) ≡ false = rw zero_tag invert_tag-zero in
            let same = find-marked s j empty marked key ∙ found in
            (
              j,
              disabled s j,
              rw (found, ◌>>=◌, empty),
              rw (eq→== j j refl) (λ e. ground (arith, nonzero)),
              rw (eq→== j j refl, marked),
              let fits : ltb s.inserted s.max_fill ≡ true = ground arith in
                  rw (fits, ◌>>=◌, same, eq→== j j refl, nonzero),
              rw (same, ◌>>=◌, eq→== j j refl, marked),
            )
      ]
