-- ===== src/Runtime/SimpleKey/Reserve.antt =====
-- runtime/HashTables.cpp: `HashTableSimpleKey::reserveSlot` makes room and keeps the contents.
use inkfuse.Base.{
  ℕ, ◌+◌, ◌-◌, ◌*◌, ◌/◌, ◌%◌, ◌^◌, ◌≤◌, ◌<◌, ◌≡◌, refl, sym, ◌∙◌, ap, ◌⊎◌, inl, inr, ◌≢◌, false,
  Option, none, some, arith, ltb, ◌==◌, ==→eq, eq→==, if◌then◌else◌, Bool-cases, bit_and,
  count_below-none, count_below-zero,
}
use inkfuse.Base.Bits.{bit_and-double}
use inkfuse.Runtime.Run.{ok, throws, ◌>>=◌}
use inkfuse.Runtime.Tags.{is_filled, is_filled-zero}
use inkfuse.Runtime.Comparator.{Comparator, Row}
use inkfuse.Runtime.SimpleKey.{
  State, Thread, new_state, new_table, capacity, zero_row, lookup, raise, reserve_slot,
}
use inkfuse.Runtime.SimpleKey.Chain.{
  find, Entry, IsValid, lookup-Entry, Entry-unique, Entry-inserted, Entry_of_inserted,
  HasChains-inserted,
}
use inkfuse.Runtime.SimpleKey.Resize.{Moved, Alike, move_slots-Moved}

-- A new state whose size is a power of two.
abbrev pub fresh : ℕ → ℕ → State
fresh total slots = record {
  tags = λ _. 0;
  rows = λ _. zero_row (total % 2 ^ 16);
  mod_mask = slots - 1;
  inserted = 0;
  max_fill = slots / 2;
  total_slot_size = total % 2 ^ 16;
}

pub new_state-fresh :
    (total slots : ℕ)
    → 2 ≤ slots
    → bit_and slots (slots - 1) ≡ 0
    → new_state total slots ≡ ok (fresh total slots)
unfolding new_state
new_state-fresh total slots l z = rw (eq→== _ _ z) (ground arith)

new_state-throws :
    (total slots : ℕ)
    → (slots < 2) ⊎ (bit_and slots (slots - 1) ≢ 0)
    → new_state total slots ≡ throws
unfolding new_state
new_state-throws total slots (inl l) = ground arith
new_state-throws total slots (inr n) = elim (Bool-cases (bit_and slots (slots - 1) == 0)) [
  | inl z ↦ absurd (n (==→eq _ _ z))
  | inr e ↦ rw e (ground arith)
]

module _ (xxh3 : Row → ℕ) (c : Comparator) where
  -- The row that `lookup` finds, and nothing if it returns null.
  unfoldable pub row_of : State → Row → Option Row
  row_of s key = elim (lookup xxh3 c s key) [ ok (some j) ↦ some (s.rows j) | _ ↦ none ]

  -- The two tables hold the same row under the key.
  pub record Agree (s s' : State) (k : Row) : Type 0 where
    pub forth :
        (j : ℕ) → Entry xxh3 c s j k → (i : ℕ) × Entry xxh3 c s' i k × (s'.rows i ≡ s.rows j)
    pub back : (i : ℕ) → Entry xxh3 c s' i k → (j : ℕ) × Entry xxh3 c s j k

  pub row_of-Entry :
      (s : State) (j : ℕ) (k : Row)
      → IsValid xxh3 c s
      → Entry xxh3 c s j k
      → row_of s k ≡ some (s.rows j)
  unfolding row_of
  row_of-Entry s j k v e = elim (lookup-Entry xxh3 c s k v) [
    | inl (i, f, r) ↦ rw (r, row_of, Entry-unique xxh3 c s i j k v f e)
    | inr (n, r) ↦ absurd (n j e)
  ]

  pub row_of-none :
      (s : State) (k : Row)
      → IsValid xxh3 c s
      → ((j : ℕ) → ¬ Entry xxh3 c s j k)
      → row_of s k ≡ none
  unfolding row_of
  row_of-none s k v n = elim (lookup-Entry xxh3 c s k v) [
    | inl (i, f, r) ↦ absurd (n i f)
    | inr (_, r) ↦ rw (r, row_of)
  ]

  pub row_of-Agree :
      (s s' : State) (k : Row)
      → IsValid xxh3 c s
      → IsValid xxh3 c s'
      → Agree s s' k
      → row_of s' k ≡ row_of s k
  row_of-Agree s s' k v v' a = elim (lookup-Entry xxh3 c s k v) [
    | inl (j, e, _) ↦
        let (i, f, r) = a.forth j e in
        row_of-Entry s' i k v' f ∙ ap some r ∙ sym (row_of-Entry s j k v e)
    | inr (n, _) ↦
        row_of-none s' k v' (λ i f. n (a.back i f).0 (a.back i f).1) ∙ sym (row_of-none s k v n)
  ]

  pub no_fresh_Entry : (total slots j : ℕ) (k : Row) → ¬ Entry xxh3 c (fresh total slots) j k
  no_fresh_Entry total slots j k e = let f = e.filled in let z = is_filled-zero in cc

  fresh-Moved : (old : State) (total slots : ℕ) → Moved xxh3 c old 0 (fresh total slots)
  fresh-Moved old total slots = record {
    chains = record {
      bytes = λ _. omega arith;
      clean = λ _. inl refl;
      found = λ i e. absurd (no_fresh_Entry total slots i _ e);
    };
    count = count_below-none _ (λ _. is_filled 0) (λ _. is_filled-zero) ∙ sym (count_below-zero _);
    copied = λ i k l e. elim l [ ];
    origin = λ j k e. absurd (no_fresh_Entry total slots j k e);
  }

  fresh_found :
      (total slots j : ℕ) (k : Row)
      → Entry xxh3 c (fresh total slots) j k
      → find xxh3 c (fresh total slots) k ≡ ok j
  fresh_found total slots j k e = absurd (no_fresh_Entry total slots j k e)

  pub fresh-IsValid :
      (total slots : ℕ)
      → 2 ≤ slots
      → bit_and slots (slots - 1) ≡ 0
      → IsValid xxh3 c (fresh total slots)
  fresh-IsValid total slots l power =
      let all : slots - 1 + 1 ≡ slots = omega arith in
      record {
        chains = record {
          bytes = λ _. omega arith;
          clean = λ _. inl refl;
          found = λ i e. fresh_found total slots i _ e;
        };
        power = rw all power;
        wide = omega arith;
        limit = rw all;
        counted = count_below-none _ (λ _. is_filled 0) (λ _. is_filled-zero);
        roomy = omega arith;
      }

  -- The constructor throws unless the number of slots is a power of two and at least 2. A table
  -- that it builds is valid and holds no key; it has the slots that were asked for, or 4 if the
  -- key is empty.
  pub new_table_lem :
      (key_size payload_size start_slots : ℕ)
      → ((start_slots < 2) ⊎ (bit_and start_slots (start_slots - 1) ≢ 0)
          → new_table key_size payload_size start_slots ≡ throws)
        × (2 ≤ start_slots
            → bit_and start_slots (start_slots - 1) ≡ 0
            → (s : State) × (new_table key_size payload_size start_slots ≡ ok s)
              × IsValid xxh3 c s
              × ((k : Row) → row_of s k ≡ none)
              × (capacity s ≡ (if key_size == 0 then 4 else start_slots))
              × (s.total_slot_size ≡ (key_size + payload_size) % 2 ^ 16))
  unfolding new_table capacity
  new_table_lem key_size payload_size start_slots = (refuses, builds)
    where
      total : ℕ
      total = key_size + payload_size

      empty_table :
          (slots : ℕ)
          → 2 ≤ slots
          → bit_and slots (slots - 1) ≡ 0
          → (k : Row) → row_of (fresh total slots) k ≡ none
      empty_table slots l power k =
          row_of-none (fresh total slots) k (fresh-IsValid total slots l power)
            (λ j. no_fresh_Entry total slots j k)

      refuses :
          (start_slots < 2) ⊎ (bit_and start_slots (start_slots - 1) ≢ 0)
          → new_table key_size payload_size start_slots ≡ throws
      refuses h = rw (new_state-throws total start_slots h)

      builds :
          2 ≤ start_slots
          → bit_and start_slots (start_slots - 1) ≡ 0
          → (s : State) × (new_table key_size payload_size start_slots ≡ ok s)
            × IsValid xxh3 c s
            × ((k : Row) → row_of s k ≡ none)
            × (capacity s ≡ (if key_size == 0 then 4 else start_slots))
            × (s.total_slot_size ≡ (key_size + payload_size) % 2 ^ 16)
      builds l power = elim (Bool-cases (key_size == 0)) [
        | inl no_key ↦ (
          fresh total 4,
          rw (
            new_state-fresh total start_slots l power,
            no_key,
            new_state-fresh total 4 (omega arith) refl,
          ),
          fresh-IsValid total 4 (omega arith) refl,
          empty_table 4 (omega arith) refl,
          rw no_key,
          refl,
        )
        | inr key ↦ (
          fresh total start_slots,
          rw (new_state-fresh total start_slots l power, key),
          fresh-IsValid total start_slots l power,
          empty_table start_slots l power,
          rw key (omega arith),
          refl,
        )
      ]

  -- What `reserveSlot` does.
  pub record Reserved (t r : Thread) : Type 0 where
    pub valid : IsValid xxh3 c r.state
    pub room : r.state.inserted < r.state.max_fill
    pub kept : r.state.inserted ≡ t.state.inserted
    pub same : (k : Row) → Agree t.state r.state k
    pub flag : r.flag ≡ (if ltb t.state.inserted t.state.max_fill then t.flag else raise t.flag)
    pub still : t.state.inserted < t.state.max_fill → r ≡ t

  grown_power :
      (s : State) → IsValid xxh3 c s → bit_and (2 * (s.mod_mask + 1)) (2 * (s.mod_mask + 1) - 1) ≡ 0
  grown_power s v =
      let back : s.mod_mask + 1 - 1 ≡ s.mod_mask = omega arith in
      bit_and-double (s.mod_mask + 1) (omega arith) (rw back v.power)

  -- The state after the copy loop is a valid table of twice the size.
  grown-IsValid :
      (s m : State)
      → IsValid xxh3 c s
      → Moved xxh3 c s (s.mod_mask + 1) m
      → Alike (fresh s.total_slot_size (2 * (s.mod_mask + 1))) m
      → IsValid xxh3 c (record m { inserted = s.inserted })
  grown-IsValid s m v moved (a, b, _) =
      let mask : m.mod_mask + 1 ≡ 2 * (s.mod_mask + 1) = omega arith in
      let mask' : m.mod_mask ≡ 2 * (s.mod_mask + 1) - 1 = a in
      record {
        chains = HasChains-inserted xxh3 c m s.inserted moved.chains;
        power = rw (mask, mask') (grown_power s v);
        wide = omega (arith, v.wide);
        limit = b ∙ omega arith;
        counted = moved.count ∙ v.counted;
        roomy = omega (arith, v.roomy, v.limit);
      }

  grown-Agree :
      (s m : State) (k : Row)
      → Moved xxh3 c s (s.mod_mask + 1) m
      → Agree s (record m { inserted = s.inserted }) k
  grown-Agree s m k moved = record {
    forth = λ j e.
        let (i, f, r) = moved.copied j k (omega (arith, e.inside)) e in
        (i, Entry-inserted xxh3 c m s.inserted i k f, r);
    back = λ i f.
        let (j, _, e, _) = moved.origin i k (Entry_of_inserted xxh3 c m s.inserted i k f) in (j, e);
  }

  grow-Reserved :
      (t : Thread)
      → IsValid xxh3 c t.state
      → ltb t.state.inserted t.state.max_fill ≡ false
      → (r : Thread) × (reserve_slot xxh3 c t ≡ ok r) × Reserved t r
  unfolding reserve_slot
  grow-Reserved t v tight =
      let s = t.state in
      let new = fresh s.total_slot_size (2 * (s.mod_mask + 1)) in
      let made =
        new_state-fresh s.total_slot_size (2 * (s.mod_mask + 1)) (omega arith) (grown_power s v) in
      let (m, r, moved, alike) =
        move_slots-Moved xxh3 c s (s.mod_mask + 1) 0 new v (omega arith) (omega arith)
          (fresh-Moved s s.total_slot_size (2 * (s.mod_mask + 1))) in
      (
        record { state = record m { inserted = s.inserted }; flag = raise t.flag },
        rw (tight, made, ◌>>=◌, r),
        record {
          valid = grown-IsValid s m v moved alike;
          room = omega (arith, alike.1, v.roomy, v.limit, v.wide);
          kept = refl;
          same = λ k. grown-Agree s m k moved;
          flag = rw tight;
          still = λ room. absurd (ground arith);
        },
      )

  -- On a valid table `reserveSlot` ends, on a valid table with room for one more key. With room to
  -- begin with it changes nothing; otherwise it raises the restart flag, if there is one. The
  -- count stays, and so does the row under each key.
  pub reserve_slot-Reserved :
      (t : Thread)
      → IsValid xxh3 c t.state
      → (r : Thread) × (reserve_slot xxh3 c t ≡ ok r) × Reserved t r
  unfolding reserve_slot
  reserve_slot-Reserved t v = elim (Bool-cases (ltb t.state.inserted t.state.max_fill)) [
    | inl room ↦ (
      t,
      rw room,
      record {
        valid = v;
        room = ground arith;
        kept = refl;
        same = λ k. record { forth = λ j e. (j, e, refl); back = λ i e. (i, e) };
        flag = rw room;
        still = λ _. refl;
      },
    )
    | inr tight ↦ grow-Reserved t v tight
  ]
