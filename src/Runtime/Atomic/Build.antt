-- ===== src/Runtime/Atomic/Build.antt =====
-- runtime/NewHashTables.cpp: a table that several threads build with `AtomicHashTable::insert`, as
-- `AtomicHashTable::lookup` sees it afterwards.
use inkfuse.Base.{
  ℕ, ◌+◌, ◌≤◌, ◌≡◌, refl, sym, ◌∙◌, ap, subst, inl, inr, ◌≢◌, true, List, some, arith, ◌==◌, ==→eq,
  eq→==, Bool-cases, length,
}
use inkfuse.Runtime.Run.{ok, ◌>>=◌}
use inkfuse.Runtime.Tags.{is_filled, fill_tag, fill_tag_lem}
use inkfuse.Runtime.Probe.{probe_first, rounds, rounds-lt, rounds-lt_of_ne}
use inkfuse.Runtime.Comparator.{Comparator, Row, eq_of_key, key_of_eq}
use inkfuse.Runtime.Atomic.{Table, slot_id, chain, ends_lookup, lookup}
use inkfuse.Runtime.Atomic.Concurrent.{returned, System, start, run, at, owns, IsSafe}
use inkfuse.Runtime.Atomic.Safety.{slot_id-le, run-IsSafe, start-IsSafe}

module _ (c : Comparator) (keys : ℕ → Row) (hashes : ℕ → ℕ) where
  ends_lookup_at :
      (t : Table) (key : Row) (h x : ℕ)
      → t.tags x ≡ fill_tag h
      → c.key_of (t.rows x) ≡ c.key_of key
      → ends_lookup c t key h x ≡ true
  unfolding ends_lookup
  ends_lookup_at t key h x e k =
      let f = (fill_tag_lem h).0 in
      let same = eq_of_key c key (t.rows x) (sym k) in
      rw (e, f, eq→== (fill_tag h) (fill_tag h) refl, same)

  holds_of_ends :
      (t : Table) (key : Row) (h x : ℕ)
      → is_filled (t.tags x) ≡ true
      → ends_lookup c t key h x ≡ true
      → c.key_of (t.rows x) ≡ c.key_of key
  unfolding ends_lookup
  holds_of_ends t key h x f e = sym (key_of_eq c key (t.rows x) (ground arith))

  module _ (s : System) (v : IsSafe c keys hashes s.table.mod_mask s) (i x : ℕ)
      (e : s.phases i ≡ returned x) where
    inside : x ≤ s.table.mod_mask
    inside = let here : at (s.phases i) ≡ x = ap at e in rw here at (v.inside i)

    tagged : s.table.tags x ≡ fill_tag (hashes i)
    tagged =
        let here : at (s.phases i) ≡ x = ap at e in
        ap s.table.tags (sym here) ∙ v.mine i (ap owns e)

    filled_up_to :
        (y : ℕ)
        → y ≤ s.table.mod_mask
        → rounds s.table.mod_mask (slot_id s.table (hashes i)) y
          ≤ rounds s.table.mod_mask (slot_id s.table (hashes i)) x
        → is_filled (s.table.tags y) ≡ true
    filled_up_to y l near = elim (Bool-cases (y == x)) [
      | inl here ↦ rw (==→eq y x here, tagged) (fill_tag_lem (hashes i)).0
      | inr other ↦
          let at_x : at (s.phases i) ≡ x = ap at e in
          let nearer =
            rounds-lt_of_ne s.table.mod_mask (slot_id s.table (hashes i)) y x
              (slot_id-le s.table (hashes i)) l inside (λ same. ground arith) near in
          v.passed i y l (rw at_x nearer)
    ]

    lookup_of_returned :
        (y : ℕ) × (lookup c s.table (keys i) (hashes i) ≡ ok (some y))
        × (is_filled (s.table.tags y) ≡ true)
        × (c.key_of (s.table.rows y) ≡ c.key_of (keys i))
    unfolding lookup chain
    lookup_of_returned =
        let t = s.table in
        let stop = ends_lookup c t (keys i) (hashes i) in
        let h = slot_id t (hashes i) in
        let (y, r, (f, k)) =
          probe_first
            (λ y. (is_filled (t.tags y) ≡ true) × (c.key_of (t.rows y) ≡ c.key_of (keys i))) stop
            t.mod_mask (t.mod_mask + 1) h x (slot_id-le t (hashes i)) inside
            (rounds-lt t.mod_mask h x (slot_id-le t (hashes i)) inside)
            (ends_lookup_at t (keys i) (hashes i) x tagged (v.copied i x e))
            (λ y l near w.
              let f = filled_up_to y l near in (f, holds_of_ends t (keys i) (hashes i) y f w)) in
        (y, rw (r, ◌>>=◌, f), f, k)

  -- Whatever the schedule, and whatever the table held, a key whose `insert` has returned is found
  -- by `lookup`: the slot that `lookup` returns is filled and holds the key. The rows are at least
  -- as long as a key.
  pub lookup-run :
      (t : Table) (schedule : List ℕ) (i x : ℕ)
      → ((j : ℕ) → c.key_size ≤ length (keys j))
      → (run c keys hashes (start c keys hashes t) schedule).phases i ≡ returned x
      → let t' = (run c keys hashes (start c keys hashes t) schedule).table in
        (y : ℕ) × (lookup c t' (keys i) (hashes i) ≡ ok (some y))
        × (is_filled (t'.tags y) ≡ true)
        × (c.key_of (t'.rows y) ≡ c.key_of (keys i))
  lookup-run t schedule i x long e =
      let s = run c keys hashes (start c keys hashes t) schedule in
      let v =
        run-IsSafe c keys hashes t.mod_mask _ schedule long
          (start-IsSafe c keys hashes t.mod_mask t refl) in
      lookup_of_returned s (subst (λ m. IsSafe c keys hashes m s) (sym v.mask) v) i x e

  -- Whatever the schedule, and whatever the table held, two threads whose `insert` has returned
  -- have two slots. The rows are at least as long as a key.
  pub run_slots_apart :
      (t : Table) (schedule : List ℕ) (i j x y : ℕ)
      → ((k : ℕ) → c.key_size ≤ length (keys k))
      → (run c keys hashes (start c keys hashes t) schedule).phases i ≡ returned x
      → (run c keys hashes (start c keys hashes t) schedule).phases j ≡ returned y
      → i ≢ j
      → x ≢ y
  run_slots_apart t schedule i j x y long e f n same =
      let v =
        run-IsSafe c keys hashes t.mod_mask _ schedule long
          (start-IsSafe c keys hashes t.mod_mask t refl) in
      n (v.apart i j (ap owns e) (ap owns f) (ap at e ∙ same ∙ sym (ap at f)))
