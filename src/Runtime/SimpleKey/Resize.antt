-- ===== src/Runtime/SimpleKey/Resize.antt =====
-- runtime/HashTables.cpp: the copy loop of `HashTableSimpleKey::reserveSlot`.
use inkfuse.Base.{
  ℕ, zero, suc, ◌+◌, ◌≤◌, ◌<◌, ◌≡◌, refl, sym, ◌∙◌, subst, inl, inr, true, false, arith, ◌==◌,
  ==→eq, eq→==, Bool-cases, count_below, count_below-le, count_below-lt, count_below-step,
}
use inkfuse.Runtime.Run.{ok, ◌>>=◌}
use inkfuse.Runtime.Tags.{is_filled, is_filled-zero}
use inkfuse.Runtime.Probe.{probe_total, probe-stop, probe-le, rounds-lt}
use inkfuse.Runtime.Comparator.{Comparator, Row, hash}
use inkfuse.Runtime.SimpleKey.{State, home, find_first_empty_slot, move_slot, move_slots}
use inkfuse.Runtime.SimpleKey.Chain.{home-le, find, Entry, HasChains, IsValid, Entry-unique}
use inkfuse.Runtime.SimpleKey.Write.{
  put, count-put, Entry-put, rows-put, Entry_of_put, find-put_new, put-HasChains,
}

pub filled_ne_zero : (tag : ℕ) → is_filled tag ≡ true → (tag == 0) ≡ false
filled_ne_zero tag full = elim (Bool-cases (tag == 0)) [
  | inl z ↦
      let empty = subst (λ t. is_filled t ≡ false) (sym (==→eq tag 0 z)) is_filled-zero in
      absurd (cc)
  | inr n ↦ n
]

-- The fields that the loop leaves alone.
abbrev pub Alike : State → State → Type 0
Alike s s' =
    (s'.mod_mask ≡ s.mod_mask)
    × (s'.max_fill ≡ s.max_fill)
    × (s'.total_slot_size ≡ s.total_slot_size)

module _ (xxh3 : Row → ℕ) (c : Comparator) where
  -- The state of the new table when the slots below `n` of the old one are copied.
  pub record Moved (old : State) (n : ℕ) (s : State) : Type 0 where
    pub chains : HasChains xxh3 c s
    pub count :
        count_below (s.mod_mask + 1) (λ i. is_filled (s.tags i))
        ≡ count_below n (λ i. is_filled (old.tags i))
    pub copied :
        (i : ℕ) (k : Row)
        → i < n
        → Entry xxh3 c old i k
        → (j : ℕ) × Entry xxh3 c s j k × (s.rows j ≡ old.rows i)
    pub origin :
        (j : ℕ) (k : Row)
        → Entry xxh3 c s j k
        → (i : ℕ) × (i < n) × Entry xxh3 c old i k × (s.rows j ≡ old.rows i)

  -- A slot with the tag 0 exists as long as not every slot is filled, and the probe finds one.
  find_first_empty_slot_total :
      (s : State) (h : ℕ)
      → HasChains xxh3 c s
      → count_below (s.mod_mask + 1) (λ i. is_filled (s.tags i)) < s.mod_mask + 1
      → (e : ℕ) × (find_first_empty_slot s h ≡ ok e) × (e ≤ s.mod_mask) × (s.tags e ≡ 0)
  unfolding find_first_empty_slot
  find_first_empty_slot_total s h v room =
      let (x, l, u) = count_below-lt (s.mod_mask + 1) (λ i. is_filled (s.tags i)) room in
      let zero_tag : s.tags x ≡ 0 = ground (arith, v.clean x) in
      let (e, r) =
        probe_total (λ i. s.tags i == 0) s.mod_mask (s.mod_mask + 1) (home s h) x (home-le s h)
          (omega arith) (eq→== _ _ zero_tag)
          (rounds-lt s.mod_mask (home s h) x (home-le s h) (omega arith)) in
      (
        e,
        r,
        probe-le (λ i. s.tags i == 0) s.mod_mask (s.mod_mask + 1) (home s h) e (home-le s h) r,
        ==→eq _ _ (probe-stop (λ i. s.tags i == 0) s.mod_mask (s.mod_mask + 1) (home s h) e r),
      )

  module _ (old : State) (valid : IsValid xxh3 c old) (n : ℕ) (s : State) (m : Moved old n s) where
    -- an empty slot is skipped
    skipped : old.tags n ≡ 0 → Moved old (n + 1) s
    skipped z =
        let u : is_filled (old.tags n) ≡ false = rw z is_filled-zero in
        record {
          chains = m.chains;
          count = rw (count_below-step n (λ i. is_filled (old.tags i)), u) (omega (arith, m.count));
          copied = λ i k l e. elim (Bool-cases (i == n)) [
            | inl here ↦
                let f = subst (λ x. is_filled (old.tags x) ≡ true) (==→eq i n here) e.filled in
                absurd (cc)
            | inr apart ↦ m.copied i k (ground arith) e
          ];
          origin = λ j k e. let (i, l, o, r) = m.origin j k e in (i, omega arith, o, r);
        }

    module _ (slot : ℕ) (inside : slot ≤ s.mod_mask) (zero_tag : s.tags slot ≡ 0)
        (full : is_filled (old.tags n) ≡ true) (here : n ≤ old.mod_mask)
        (ends : find_first_empty_slot s (hash xxh3 c (old.rows n)) ≡ ok slot) where
      abbrev tag : ℕ
      tag = old.tags n

      abbrev row : Row
      row = old.rows n

      empty : is_filled (s.tags slot) ≡ false
      empty = rw zero_tag is_filled-zero

      -- the copied slot is an entry if the old one is
      old_Entry : (k : Row) → Entry xxh3 c (put s slot tag row) slot k → Entry xxh3 c old n k
      old_Entry k e = record {
        inside = here;
        filled = full;
        tagged = rw (eq→== slot slot refl) at e.tagged;
        holds = rw (eq→== slot slot refl) at e.holds;
      }

      new_Entry : (k : Row) → Entry xxh3 c old n k → Entry xxh3 c (put s slot tag row) slot k
      new_Entry k e = record {
        inside = inside;
        filled = rw (eq→== slot slot refl) full;
        tagged = rw (eq→== slot slot refl) e.tagged;
        holds = rw (eq→== slot slot refl) e.holds;
      }

      -- no slot copied before holds the key of this one
      free : Entry xxh3 c old n row → (x : ℕ) → ¬ Entry xxh3 c s x row
      free e x f =
          let (i, l, o, _) = m.origin x row f in
          let same = Entry-unique xxh3 c old i n row valid o e in absurd (omega arith)

      found_new :
          Entry xxh3 c (put s slot tag row) slot row
          → find xxh3 c (put s slot tag row) row ≡ ok slot
      unfolding find_first_empty_slot
      found_new e =
          find-put_new xxh3 c s slot tag row empty full (λ i. s.tags i == 0)
            (λ x _ f. ground (arith, m.chains.clean x)) ends (free (old_Entry row e)) e

      copied_here :
          (i : ℕ) (k : Row)
          → i ≡ n
          → Entry xxh3 c old i k
          → (j : ℕ) × Entry xxh3 c (put s slot tag row) j k
            × ((put s slot tag row).rows j ≡ old.rows i)
      copied_here i k at_n e = (
        slot,
        new_Entry k (subst (λ x. Entry xxh3 c old x k) at_n e),
        rw (eq→== slot slot refl, at_n),
      )

      copied_before :
          (i : ℕ) (k : Row)
          → i < n
          → Entry xxh3 c old i k
          → (j : ℕ) × Entry xxh3 c (put s slot tag row) j k
            × ((put s slot tag row).rows j ≡ old.rows i)
      copied_before i k l e =
          let (j, f, r) = m.copied i k l e in
          (
            j,
            Entry-put xxh3 c s slot tag row empty full j k f,
            rows-put xxh3 c s slot tag row empty full j f.filled ∙ r,
          )

      origin_here :
          (j : ℕ) (k : Row)
          → j ≡ slot
          → Entry xxh3 c (put s slot tag row) j k
          → (i : ℕ) × (i < n + 1)
            × Entry xxh3 c old i k
            × ((put s slot tag row).rows j ≡ old.rows i)
      origin_here j k at_slot e = (
        n,
        omega arith,
        old_Entry k (subst (λ x. Entry xxh3 c (put s slot tag row) x k) at_slot e),
        rw (at_slot, eq→== slot slot refl),
      )

      pub copies : Moved old (n + 1) (put s slot tag row)
      copies = record {
        chains = put-HasChains xxh3 c s slot tag row empty full m.chains (valid.bytes n) found_new;
        count =
            count-put s slot tag row inside empty full
            ∙ rw (count_below-step n (λ i. is_filled (old.tags i)), full) (omega (arith, m.count));
        copied = λ i k l e. elim (Bool-cases (i == n)) [
          | inl at_n ↦ copied_here i k (==→eq i n at_n) e
          | inr apart ↦ copied_before i k (ground arith) e
        ];
        origin = λ j k e. elim (Entry_of_put xxh3 c s slot tag row empty full j k e) [
          | inl at_slot ↦ origin_here j k at_slot e
          | inr before ↦
              let (i, l, o, r) = m.origin j k before in
              (i, omega arith, o, rows-put xxh3 c s slot tag row empty full j before.filled ∙ r)
        ];
      }

  -- One round of the loop.
  move_slot-Moved :
      (old : State) (n : ℕ) (s : State)
      → IsValid xxh3 c old
      → n ≤ old.mod_mask
      → old.mod_mask < s.mod_mask
      → Moved old n s
      → (s' : State) × (move_slot xxh3 c old n s ≡ ok s') × Moved old (n + 1) s' × Alike s s'
  unfolding move_slot
  move_slot-Moved old n s valid here wider m = elim (valid.clean n) [
    | inl z ↦ (s, rw (eq→== _ _ z), skipped old valid n s m z, (refl, refl, refl))
    | inr full ↦
        let (slot, r, inside, z) =
          find_first_empty_slot_total s (hash xxh3 c (old.rows n)) m.chains
            (omega (arith, m.count, count_below-le n (λ i. is_filled (old.tags i)))) in
        (
          put s slot (old.tags n) (old.rows n),
          rw (filled_ne_zero (old.tags n) full, r),
          copies old valid n s m slot inside z full here r,
          (refl, refl, refl),
        )
  ]

  -- The loop ends, and copies every slot that is left.
  pub move_slots-Moved :
      (old : State) (rounds n : ℕ) (s : State)
      → IsValid xxh3 c old
      → n + rounds ≡ old.mod_mask + 1
      → old.mod_mask < s.mod_mask
      → Moved old n s
      → (s' : State) × (move_slots xxh3 c old rounds n s ≡ ok s')
        × Moved old (old.mod_mask + 1) s'
        × Alike s s'
  unfolding move_slots
  move_slots-Moved old zero n s valid left wider m =
      let done : n ≡ old.mod_mask + 1 = omega arith in
      (s, refl, subst (λ k. Moved old k s) done m, (refl, refl, refl))
  move_slots-Moved old (suc rounds) n s valid left wider m =
      let (s₁, r₁, m₁, (a₁, b₁, c₁)) = move_slot-Moved old n s valid (omega arith) wider m in
      let (s₂, r₂, m₂, (a₂, b₂, c₂)) =
        move_slots-Moved old rounds (n + 1) s₁ valid (omega arith) (omega arith) m₁ in
      (s₂, rw (r₁, ◌>>=◌) r₂, m₂, (a₂ ∙ a₁, b₂ ∙ b₁, c₂ ∙ c₁))
