-- ===== src/Runtime/Atomic/Safety.antt =====
-- runtime/NewHashTables.cpp: threads that run `AtomicHashTable::insert` do not disturb one another.
use inkfuse.Base.{
  ℕ, ◌≤◌, ◌<◌, ◌≡◌, refl, sym, ◌∙◌, ap, subst, fun_ext, ◌⊎◌, inl, inr, ◌≢◌, true, false, not, ◌&&◌,
  List, [], ◌∷◌, arith, ◌==◌, ==→eq, eq→==, Bool-cases, update, length,
}
use inkfuse.Base.Bits.{bit_and-le}
use inkfuse.Runtime.Tags.{is_filled, fill_tag, fill_tag_lem}
use inkfuse.Runtime.Probe.{advance, rounds, rounds-advance, advance-le}
use inkfuse.Runtime.Comparator.{Comparator, Row, copy_bytes}
use inkfuse.Runtime.Atomic.{Table, slot_id}
use inkfuse.Runtime.Atomic.Concurrent.{
  Phase, loading, loaded, claimed, returned, System, start, act, step, run, at, owns, IsSafe,
}

pub slot_id-le : (t : Table) (h : ℕ) → slot_id t h ≤ t.mod_mask
unfolding slot_id
slot_id-le t h = bit_and-le h t.mod_mask

rounds_self : (m h : ℕ) → rounds m h h ≡ 0
rounds_self m h = ground arith

module _ (c : Comparator) (keys : ℕ → Row) (hashes : ℕ → ℕ) (m : ℕ) where
  module _ (s : System) (v : IsSafe c keys hashes m s) (i : ℕ) where
    -- a thread that claims nothing moves
    moved-IsSafe :
        (p : Phase)
        → at p ≤ m
        → owns p ≡ false
        → ((x : ℕ)
            → x ≤ m
            → rounds m (slot_id s.table (hashes i)) x < rounds m (slot_id s.table (hashes i)) (at p)
            → is_filled (s.table.tags x) ≡ true)
        → ((x tag : ℕ)
            → p ≡ loaded x tag
            → (s.table.tags x ≡ tag) ⊎ (is_filled (s.table.tags x) ≡ true))
        → IsSafe c keys hashes m (record { table = s.table; phases = update s.phases i p })
    moved-IsSafe p within free before view = record {
      mask = v.mask;
      inside = λ k. elim (Bool-cases (k == i)) [
        | inl here ↦ rw here within
        | inr other ↦ rw other (v.inside k)
      ];
      passed = λ k x l h. elim (Bool-cases (k == i)) [
        | inl here ↦ before x l (rw (here, ==→eq k i here) at h)
        | inr other ↦ v.passed k x l (rw other at h)
      ];
      seen = λ k x tag e. elim (Bool-cases (k == i)) [
        | inl here ↦ view x tag (rw here at e)
        | inr other ↦ v.seen k x tag (rw other at e)
      ];
      mine = λ k o. elim (Bool-cases (k == i)) [
        | inl here ↦ let o' = rw here at o in absurd (cc)
        | inr other ↦ rw other (v.mine k (rw other at o))
      ];
      apart = λ k j o q e. elim (Bool-cases (k == i)) [
        | inl here ↦ let o' = rw here at o in absurd (cc)
        | inr other ↦ elim (Bool-cases (j == i)) [
          | inl here ↦ let q' = rw here at q in absurd (cc)
          | inr other' ↦ v.apart k j (rw other at o) (rw other' at q) (rw (other, other') at e)
        ]
      ];
      copied = λ k x e. elim (Bool-cases (k == i)) [
        | inl here ↦
            let e' : p ≡ returned x = rw here at e in
            let o : owns p ≡ true = ap owns e' in absurd (cc)
        | inr other ↦ v.copied k x (rw other at e)
      ];
    }

    -- the slot of a thread that owns it is filled
    owned_filled :
        (k : ℕ) → owns (s.phases k) ≡ true → is_filled (s.table.tags (at (s.phases k))) ≡ true
    owned_filled k o = rw (v.mine k o) (fill_tag_lem (hashes k)).0

    module _ (x : ℕ) (before : at (s.phases i) ≡ x)
        (empty : is_filled (s.table.tags x) ≡ false) where
      not_owned : (k : ℕ) → owns (s.phases k) ≡ true → (at (s.phases k) == x) ≡ false
      not_owned k o = elim (Bool-cases (at (s.phases k) == x)) [
        | inr n ↦ n
        | inl here ↦
            let f =
              subst (λ y. is_filled (s.table.tags y) ≡ true) (==→eq _ x here) (owned_filled k o) in
            absurd (cc)
      ]

      abbrev tags' : ℕ → ℕ
      tags' = update s.table.tags x (fill_tag (hashes i))

      stays_filled : (y : ℕ) → is_filled (s.table.tags y) ≡ true → is_filled (tags' y) ≡ true
      stays_filled y f = elim (Bool-cases (y == x)) [
        | inl here ↦ rw here (fill_tag_lem (hashes i)).0
        | inr other ↦ rw other f
      ]

      -- the compare-and-exchange succeeds
      claimed-IsSafe : IsSafe c keys hashes m (record {
        table = record s.table { tags = tags' };
        phases = update s.phases i (claimed x);
      })
      unfolding slot_id
      claimed-IsSafe = record {
        mask = v.mask;
        inside = λ k. elim (Bool-cases (k == i)) [
          | inl here ↦ rw here (rw before at (v.inside i))
          | inr other ↦ rw other (v.inside k)
        ];
        passed = λ k y l h. elim (Bool-cases (k == i)) [
          | inl here ↦
              let h' = rw (here, ==→eq k i here) at h in
              stays_filled y (v.passed i y l (rw before h'))
          | inr other ↦ stays_filled y (v.passed k y l (rw other at h))
        ];
        seen = λ k y tag e. elim (Bool-cases (k == i)) [
          | inl here ↦ let e' : claimed x ≡ loaded y tag = rw here at e in absurd (cc)
          | inr other ↦ elim (v.seen k y tag (rw other at e)) [
            | inr f ↦ inr (stays_filled y f)
            | inl t ↦ elim (Bool-cases (y == x)) [
              | inl here ↦ inr (rw here (fill_tag_lem (hashes i)).0)
              | inr there ↦ inl (rw there t)
            ]
          ]
        ];
        mine = λ k o. elim (Bool-cases (k == i)) [
          | inl here ↦ rw (here, eq→== x x refl, ==→eq k i here)
          | inr other ↦ let o' = rw other at o in rw (other, not_owned k o') (v.mine k o')
        ];
        apart = λ k j o q e. elim (Bool-cases (k == i)) [
          | inl here ↦ elim (Bool-cases (j == i)) [
            | inl here' ↦ ==→eq k i here ∙ sym (==→eq j i here')
            | inr other' ↦
                let n = not_owned j (rw other' at q) in
                let e' : x ≡ at (s.phases j) = rw (here, other') at e in absurd (ground arith)
          ]
          | inr other ↦ elim (Bool-cases (j == i)) [
            | inl here' ↦
                let n = not_owned k (rw other at o) in
                let e' : at (s.phases k) ≡ x = rw (other, here') at e in absurd (ground arith)
            | inr other' ↦ v.apart k j (rw other at o) (rw other' at q) (rw (other, other') at e)
          ]
        ];
        copied = λ k y e. elim (Bool-cases (k == i)) [
          | inl here ↦ let e' : claimed x ≡ returned y = rw here at e in absurd (cc)
          | inr other ↦ v.copied k y (rw other at e)
        ];
      }

    -- a thread copies its key into the slot that it claimed
    returned-IsSafe :
        (x : ℕ)
        → s.phases i ≡ claimed x
        → c.key_size ≤ length (keys i)
        → IsSafe c keys hashes m (record {
          table = record s.table {
            rows = update s.table.rows x (copy_bytes c.key_size (keys i) (s.table.rows x));
          };
          phases = update s.phases i (returned x);
        })
    unfolding slot_id
    returned-IsSafe x e long =
        let before : at (s.phases i) ≡ x = ap at e in
        let owner : owns (s.phases i) ≡ true = ap owns e in
        record {
          mask = v.mask;
          inside = λ k. elim (Bool-cases (k == i)) [
            | inl here ↦ rw here (rw before at (v.inside i))
            | inr other ↦ rw other (v.inside k)
          ];
          passed = λ k y l h. elim (Bool-cases (k == i)) [
            | inl here ↦ let h' = rw (here, ==→eq k i here) at h in v.passed i y l (rw before h')
            | inr other ↦ v.passed k y l (rw other at h)
          ];
          seen = λ k y tag f. elim (Bool-cases (k == i)) [
            | inl here ↦ let f' : returned x ≡ loaded y tag = rw here at f in absurd (cc)
            | inr other ↦ v.seen k y tag (rw other at f)
          ];
          mine = λ k o. elim (Bool-cases (k == i)) [
            | inl here ↦ rw (here, ==→eq k i here) (ap s.table.tags (sym before) ∙ v.mine i owner)
            | inr other ↦ rw other (v.mine k (rw other at o))
          ];
          apart = λ k j o q f.
              v.apart k j (owns_before k owner o) (owns_before j owner q)
                (at_before k before ∙ f ∙ sym (at_before j before));
          copied = λ k y f. elim (Bool-cases (k == i)) [
            | inl here ↦
                let f' : returned x ≡ returned y = rw here at f in
                let same : x ≡ y = ap at f' in
                rw (eq→== y x (sym same), ==→eq k i here)
                  (c.key_of-copy (keys i) (s.table.rows x) long)
            | inr other ↦
                let f' : s.phases k ≡ returned y = rw other at f in
                let n = slots_apart k y (ground arith) owner before f' in rw n (v.copied k y f')
          ];
        }
      where
        owns_before :
            (k : ℕ)
            → owns (s.phases i) ≡ true
            → owns (update s.phases i (returned x) k) ≡ true
            → owns (s.phases k) ≡ true
        owns_before k owner o = elim (Bool-cases (k == i)) [
          | inl here ↦ rw (==→eq k i here) owner
          | inr other ↦ rw other at o
        ]

        at_before :
            (k : ℕ) → at (s.phases i) ≡ x → at (s.phases k) ≡ at (update s.phases i (returned x) k)
        at_before k before = elim (Bool-cases (k == i)) [
          | inl here ↦ rw (here, ==→eq k i here) before
          | inr other ↦ rw other
        ]

        slots_apart :
            (k y : ℕ)
            → k ≢ i
            → owns (s.phases i) ≡ true
            → at (s.phases i) ≡ x
            → s.phases k ≡ returned y
            → (y == x) ≡ false
        slots_apart k y n owner before f = elim (Bool-cases (y == x)) [
          | inr other ↦ other
          | inl here ↦
              absurd (n (v.apart k i (ap owns f) owner (ap at f ∙ ==→eq y x here ∙ sym before)))
        ]

    -- the slots behind the next one are those behind the current one, and the current one
    advanced :
        (x : ℕ)
        → at (s.phases i) ≡ x
        → is_filled (s.table.tags x) ≡ true
        → (y : ℕ) → y ≤ m
        → rounds m (slot_id s.table (hashes i)) y
          < rounds m (slot_id s.table (hashes i)) (advance m x)
        → is_filled (s.table.tags y) ≡ true
    advanced x before full y l h = elim (Bool-cases (y == x)) [
      | inl here ↦ rw (==→eq y x here) full
      | inr other ↦
          let first = slot_id-le s.table (hashes i) in
          let start_le : slot_id s.table (hashes i) ≤ m = omega (arith, v.mask) in
          let x_le : x ≤ m = rw before at (v.inside i) in
          let nearer = rounds-advance m _ x y start_le x_le l (λ e. ground arith) h in
          v.passed i y l (rw before nearer)
    ]

    next_IsSafe :
        (x : ℕ)
        → at (s.phases i) ≡ x
        → is_filled (s.table.tags x) ≡ true
        → IsSafe c keys hashes m (record {
          table = s.table;
          phases = update s.phases i (loading (advance s.table.mod_mask x));
        })
    next_IsSafe x before full =
        subst
          (λ n.
            IsSafe c keys hashes m
              (record { table = s.table; phases = update s.phases i (loading (advance n x)) }))
          (sym v.mask)
          (moved-IsSafe (loading (advance m x)) (advance-le m x (rw before at (v.inside i))) refl
            (advanced x before full) (λ y tag f. absurd (cc)))

    -- a slot whose exchange fails is filled
    full_of_fail :
        (x tag : ℕ)
        → (not (is_filled tag) && s.table.tags x == tag) ≡ false
        → (s.table.tags x ≡ tag) ⊎ (is_filled (s.table.tags x) ≡ true)
        → is_filled (s.table.tags x) ≡ true
    full_of_fail x tag fails (inr f) = f
    full_of_fail x tag fails (inl t) = rw t (ground arith)

    act-IsSafe :
        (p : Phase)
        → s.phases i ≡ p
        → c.key_size ≤ length (keys i)
        → let r = act c keys hashes s.table i p in
          IsSafe c keys hashes m (record { table = r.0; phases = update s.phases i r.1 })
    unfolding act
    act-IsSafe (loading x) e long =
        let before : at (s.phases i) ≡ x = ap at e in
        moved-IsSafe (loaded x (s.table.tags x)) (rw before at (v.inside i)) refl
          (λ y l h. v.passed i y l (rw before h)) (λ y tag f. inl (ground arith))
    act-IsSafe (loaded x tag) e long =
        let before : at (s.phases i) ≡ x = ap at e in
        elim (Bool-cases (not (is_filled tag) && s.table.tags x == tag)) [
          | inl wins ↦
              let there : s.table.tags x ≡ tag = ground arith in
              let empty : is_filled (s.table.tags x) ≡ false = rw there (ground arith) in
              rw wins (claimed-IsSafe x before empty)
          | inr fails ↦
              rw fails (next_IsSafe x before (full_of_fail x tag fails (v.seen i x tag e)))
        ]
    act-IsSafe (claimed x) e long = returned-IsSafe x e long
    act-IsSafe (returned x) e long =
        let same : update s.phases i (returned x) ≡ s.phases = fun_ext (λ k.
          elim (Bool-cases (k == i)) [
            | inl here ↦ rw (here, ==→eq k i here, e)
            | inr other ↦ rw other
          ]) in
        rw same v

  step-IsSafe :
      (s : System) (i : ℕ)
      → ((j : ℕ) → c.key_size ≤ length (keys j))
      → IsSafe c keys hashes m s
      → IsSafe c keys hashes m (step c keys hashes s i)
  unfolding step
  step-IsSafe s i long v = act-IsSafe s v i (s.phases i) refl (long i)

  -- No schedule breaks the invariant.
  pub run-IsSafe :
      (s : System) (is : List ℕ)
      → ((j : ℕ) → c.key_size ≤ length (keys j))
      → IsSafe c keys hashes m s
      → IsSafe c keys hashes m (run c keys hashes s is)
  unfolding run
  run-IsSafe s [] long v = v
  run-IsSafe s (i ∷ is) long v =
      run-IsSafe (step c keys hashes s i) is long (step-IsSafe s i long v)

  -- It holds at the beginning, whatever the table holds.
  pub start-IsSafe : (t : Table) → t.mod_mask ≡ m → IsSafe c keys hashes m (start c keys hashes t)
  unfolding start
  start-IsSafe t e = record {
    mask = e;
    inside = λ i. rw (← e) (slot_id-le t (hashes i));
    passed =
        λ i x l h. let none_before = rounds_self m (slot_id t (hashes i)) in absurd (omega arith);
    seen = λ i x tag f. absurd (cc);
    mine = λ i o. absurd (cc);
    apart = λ i j o q f. absurd (cc);
    copied = λ i x f. absurd (cc);
  }
