-- ===== src/Runtime/Atomic/Outer.antt =====
-- runtime/NewHashTables.cpp: `insertOuter`, `lookupOuter` and the iterator of `AtomicHashTable`,
-- which together find the rows of an outer join that have no partner.
use inkfuse.Base.{
  ℕ, ◌+◌, ◌%◌, ◌≤◌, ◌<◌, ◌⊎◌, Bool, ◌&&◌, ltb, leb, ◌≡◌, refl, sym, ◌∙◌, ap, subst, fun_ext, inl,
  inr, ◌≢◌, true, false, Option, none, some, arith, ◌==◌, ==→eq, eq→==, Bool-cases, update,
}
use inkfuse.Runtime.Run.{ok, ◌>>=◌}
use inkfuse.Runtime.Tags.{
  is_filled, outer_fill_tag, outer_marked_tag, outer_target, outer_tag_lem, unmatched_tag_lem,
}
use inkfuse.Runtime.Probe.{
  probe, rounds, probe_total, probe-stop, probe-le, probe_first, rounds-lt, rounds-lt_of_ne,
}
use inkfuse.Runtime.Scan.{Iterator, IsAt, at_slot, at_end, scan_start, scan_next}
use inkfuse.Runtime.Comparator.{Comparator, Row, key_of_eq, eq_of_key}
use inkfuse.Runtime.Atomic.{
  Table, slot_id, chain, ends_outer, lookup_outer, is_unmatched, iterator_start, iterator_advance,
  it_start,
}
use inkfuse.Runtime.Atomic.Safety.{slot_id-le}

-- The row of a slot is there and has found no partner: of its tag the highest bit is set and the
-- next one is clear.
abbrev pub has_no_partner : Table → ℕ → Bool
has_no_partner t x = leb 128 (t.tags x) && ltb (t.tags x % 128) 64

abbrev pub AllBytes : Table → Type 0
AllBytes t = (x : ℕ) → t.tags x < 256

is_unmatched_lem : (t : Table) → AllBytes t → is_unmatched t ≡ has_no_partner t
unfolding is_unmatched
is_unmatched_lem t bytes = fun_ext (λ x. unmatched_tag_lem (t.tags x) (bytes x))

fresh_lem : (t : Table) (x h : ℕ) → t.tags x ≡ outer_fill_tag h → is_unmatched t x ≡ true
unfolding is_unmatched
fresh_lem t x h e = let tag = outer_tag_lem h in rw (e, tag.0, tag.1) refl

found_lem : (t : Table) (x h : ℕ) → t.tags x ≡ outer_marked_tag h → is_unmatched t x ≡ false
unfolding is_unmatched
found_lem t x h e = let tag = outer_tag_lem h in rw (e, tag.2, tag.3) refl

-- The tags are bytes. `iteratorStart` ends at the first slot whose tag has the highest bit and not
-- the next one, which is that of a row without a partner, or is null if there is none.
-- `iteratorAdvance` ends at the first such slot behind the one it is called at or is null. The tag
-- that `insertOuter` writes is of this kind, and the one that `lookupOuter` writes is not.
pub iterator_visits_unmatched :
    (t : Table)
    → AllBytes t
    → ((it : Iterator) × (iterator_start t ≡ ok it) × IsAt (has_no_partner t) t.mod_mask 0 it)
      × ((i : ℕ)
          → i ≤ t.mod_mask
          → (it : Iterator) × (iterator_advance t (some i, i) ≡ ok it)
            × IsAt (has_no_partner t) t.mod_mask (i + 1) it)
      × ((x h : ℕ)
          → (t.tags x ≡ outer_fill_tag h → has_no_partner t x ≡ true)
            × (t.tags x ≡ outer_marked_tag h → has_no_partner t x ≡ false))
unfolding iterator_start iterator_advance
iterator_visits_unmatched t bytes =
    let same = is_unmatched_lem t bytes in
    (
      rw same (scan_start (has_no_partner t) t.mod_mask),
      λ i l. rw same (scan_next (has_no_partner t) t.mod_mask i l),
      λ x h. (
        λ e. sym (ap (λ p. p x) same) ∙ fresh_lem t x h e,
        λ e. sym (ap (λ p. p x) same) ∙ found_lem t x h e,
      ),
    )

-- `itStart` is null whenever slot 0 is empty.
pub it_start_null : (t : Table) → is_filled (t.tags 0) ≡ false → it_start t ≡ ok (none, t.mod_mask)
unfolding it_start
it_start_null t empty =
    let (it, r, a) = scan_start (λ _. is_filled (t.tags 0)) t.mod_mask in r ∙ ap ok (at_null it a)
  where
    at_null :
        (it : Iterator) → IsAt (λ _. is_filled (t.tags 0)) t.mod_mask 0 it → it ≡ (none, t.mod_mask)
    at_null it (at_slot i e l k f b) = absurd (cc)
    at_null it (at_end e b) = e

-- On the way from the first slot of the hash to `x` there is an empty slot.
abbrev pub IsBehindGap : Table → ℕ → ℕ → Type 0
IsBehindGap t h x =
    (y : ℕ) × (y ≤ t.mod_mask)
    × (is_filled (t.tags y) ≡ false)
    × (rounds t.mod_mask (slot_id t h) y < rounds t.mod_mask (slot_id t h) x)

-- What a call of `lookupOuter` for `key` with hash `h` may have done.
pub data Joined (c : Comparator) (t : Table) (key : Row) (h : ℕ) (r : Option ℕ) (t' : Table)
    : Type 0 where
  partner :
      (j : ℕ)
      → r ≡ some j
      → j ≤ t.mod_mask
      → c.key_of (t.rows j) ≡ c.key_of key
      → t' ≡ record t { tags = update t.tags j (outer_marked_tag h) }
      → is_unmatched t' j ≡ false
      → ((x : ℕ) → x ≢ j → is_unmatched t' x ≡ is_unmatched t x)
      → Joined c t key h r t'
  no_partner :
      r ≡ none
      → t' ≡ t
      → ((x : ℕ)
          → x ≤ t.mod_mask
          → (t.tags x ≡ outer_fill_tag h) ⊎ (t.tags x ≡ outer_marked_tag h)
          → c.key_of (t.rows x) ≡ c.key_of key
          → IsBehindGap t h x)
      → Joined c t key h r t'

module _ (c : Comparator) (t : Table) (key : Row) (h : ℕ) where
  ends_outer_empty : (x : ℕ) → is_filled (t.tags x) ≡ false → ends_outer c t key h x ≡ true
  unfolding ends_outer
  ends_outer_empty x e = rw e

  ends_outer_key :
      (x : ℕ)
      → is_filled (t.tags x) ≡ true
      → ends_outer c t key h x ≡ true
      → c.key_of (t.rows x) ≡ c.key_of key
  unfolding ends_outer
  ends_outer_key x f e = sym (key_of_eq c key (t.rows x) (ground arith))

  -- a row with the key ends the loop, whether it is marked or not
  ends_outer_row :
      (x : ℕ)
      → (t.tags x ≡ outer_fill_tag h) ⊎ (t.tags x ≡ outer_marked_tag h)
      → c.key_of (t.rows x) ≡ c.key_of key
      → (is_filled (t.tags x) ≡ true) × (ends_outer c t key h x ≡ true)
  unfolding ends_outer
  ends_outer_row x (inl e) same =
      let tag = outer_tag_lem h in
      let equal = eq_of_key c key (t.rows x) (sym same) in
      rw e (tag.0, rw (tag.0, tag.4, eq→== (outer_target h) (outer_target h) refl, equal) refl)
  ends_outer_row x (inr e) same =
      let tag = outer_tag_lem h in
      let equal = eq_of_key c key (t.rows x) (sym same) in
      rw e (tag.2, rw (tag.2, tag.5, eq→== (outer_target h) (outer_target h) refl, equal) refl)

  -- where the loop ends at an empty slot, each row with the key is behind it
  gap_lem :
      (j x : ℕ)
      → probe (ends_outer c t key h) t.mod_mask (t.mod_mask + 1) (slot_id t h) ≡ ok j
      → j ≤ t.mod_mask
      → is_filled (t.tags j) ≡ false
      → x ≤ t.mod_mask
      → (t.tags x ≡ outer_fill_tag h) ⊎ (t.tags x ≡ outer_marked_tag h)
      → c.key_of (t.rows x) ≡ c.key_of key
      → IsBehindGap t h x
  gap_lem j x r inside empty l tagged same =
      let m = t.mod_mask in
      let home = slot_id t h in
      let hl = slot_id-le t h in
      let (full, stopped) = ends_outer_row x tagged same in
      let (i, r', near) =
        probe_first (λ i. rounds m home i ≤ rounds m home x) (ends_outer c t key h) m (m + 1) home x
          hl l (rounds-lt m home x hl l) stopped (λ y k close s. close) in
      let here : i ≡ j = cc in
      let near' = subst (λ y. rounds m home y ≤ rounds m home x) here near in
      let apart : j ≢ x =
        λ e. let empty' = subst (λ y. is_filled (t.tags y) ≡ false) e empty in cc in
      (j, inside, empty, rounds-lt_of_ne m home j x hl inside l apart near')

  abbrev marked : ℕ → Table
  marked j = record t { tags = update t.tags j (outer_marked_tag h) }

  -- a slot that has the marked tag already
  marked_self : (j : ℕ) → (t.tags j == outer_marked_tag h) ≡ true → marked j ≡ t
  marked_self j e =
      ap (λ (f : ℕ → ℕ). record t { tags = f })
        (fun_ext (λ x. elim (Bool-cases (x == j)) [
          | inl here ↦ rw (here, ==→eq x j here) (sym (==→eq _ _ e))
          | inr other ↦ rw other
        ]))

  marked_unmatched :
      (j : ℕ)
      → (is_unmatched (marked j) j ≡ false)
        × ((x : ℕ) → x ≢ j → is_unmatched (marked j) x ≡ is_unmatched t x)
  unfolding is_unmatched
  marked_unmatched j =
      let tag = outer_tag_lem h in
      (
        rw (eq→== j j refl, tag.2, tag.3),
        λ x n. elim (Bool-cases (x == j)) [
          | inl here ↦ absurd (n (==→eq x j here))
          | inr other ↦ rw other
        ],
      )

  -- `lookupOuter` ends as long as a slot is empty. It returns a row with the key, whose mark is set
  -- from then on while every other slot keeps its own, or it returns null and changes nothing. It
  -- returns null only if each slot with the key and one of the two tags of its hash, marked or not,
  -- is behind an empty slot on the way from the first slot of the hash.
  pub lookup_outer-Joined :
      (e : ℕ)
      → e ≤ t.mod_mask
      → is_filled (t.tags e) ≡ false
      → (r : Option ℕ) × (t' : Table) × (lookup_outer c t key h ≡ ok (r, t'))
        × Joined c t key h r t'
  unfolding lookup_outer chain
  lookup_outer-Joined e l u =
      let stop = ends_outer c t key h in
      let begin = slot_id t h in
      let hl = slot_id-le t h in
      let (j, r) =
        probe_total stop t.mod_mask (t.mod_mask + 1) begin e hl l (ends_outer_empty e u)
          (rounds-lt t.mod_mask begin e hl l) in
      let inside = probe-le stop t.mod_mask (t.mod_mask + 1) begin j hl r in
      let stopped = probe-stop stop t.mod_mask (t.mod_mask + 1) begin j r in
      elim (Bool-cases (is_filled (t.tags j))) [
        | inr empty ↦
            (none, t, rw (r, ◌>>=◌, empty), no_partner refl refl (λ x. gap_lem j x r inside empty))
        | inl full ↦
            let key_there = ends_outer_key j full stopped in
            let (off, rest) = marked_unmatched j in
            elim (Bool-cases (t.tags j == outer_marked_tag h)) [
              | inr fresh ↦ (
                some j,
                marked j,
                rw (r, ◌>>=◌, full, fresh),
                partner j refl inside key_there refl off rest,
              )
              | inl again ↦ (
                some j,
                t,
                rw (r, ◌>>=◌, full, again),
                partner j refl inside key_there (sym (marked_self j again))
                    (subst (λ t'. is_unmatched t' j ≡ false) (marked_self j again) off)
                    (λ x n. refl),
              )
            ]
      ]
