-- ===== src/Algebra/Repipe/Outputs.antt =====
-- algebra/Pipeline.cpp: what `repipeAll` and `repipeRequired` materialize.
use inkfuse.Base.{
  ℕ, ◌≡◌, refl, sym, ap, subst, ◌∙◌, inl, inr, Bool, true, false, not, ◌&&◌, ◌||◌, List, [], ◌∷◌,
  ◌==◌, ==→eq, Bool-cases, drop,
}
use inkfuse.Algebra.{Subop, Pipeline}
use inkfuse.Algebra.Repipe.{
  occurs, insert_iu, range, repipe, repipe_all, repipe_required, insert_outputs,
  outputs_without_strong, all_outputs, insert_required, outputs_required,
}
use inkfuse.Algebra.Repipe.Inputs.{occurs-append}

-- One of the suboperators produces the IU, respectively reads it.
unfoldable pub produced : List Subop → ℕ → Bool
produced [] x = false
produced (s ∷ ss) x = occurs x s.ius || produced ss x

unfoldable pub read : List Subop → ℕ → Bool
read [] x = false
read (s ∷ ss) x = occurs x s.source_ius || read ss x

-- One without outgoing strong links produces the IU.
unfoldable pub released : List Subop → ℕ → Bool
released [] x = false
released (s ∷ ss) x = (not s.outgoing_strong_links && occurs x s.ius) || released ss x

or_false : (a : Bool) → (a || false) ≡ a
or_false true = refl
or_false false = refl

occurs-insert_iu : (x y : ℕ) (xs : List ℕ) → occurs x (insert_iu y xs) ≡ (occurs x xs || (y == x))
unfolding insert_iu occurs
occurs-insert_iu x y xs = elim (Bool-cases (occurs y xs)) [
  | inr new ↦ rw new (occurs-append x xs (y ∷ []) ∙ ap (λ b. occurs x xs || b) (or_false (y == x)))
  | inl old ↦ elim (Bool-cases (y == x)) [
    | inl here ↦
        let there : occurs x xs ≡ true = subst (λ z. occurs z xs ≡ true) (==→eq y x here) old in
        rw (old, there) refl
    | inr apart ↦ rw (old, apart) (sym (or_false (occurs x xs)))
  ]
]

-- An IU that is inserted, and one that is not.
inserted_lem :
    (o v e i : Bool) → (e ≡ true → v ≡ true) → ((o || e) || (v && i)) ≡ (o || (v && (e || i)))
inserted_lem true v e i h = refl
inserted_lem false v false i h = refl
inserted_lem false true true i h = refl
inserted_lem false false true i h = absurd (let bad = h refl in cc)

skipped_lem : (o v e i : Bool) → (e ≡ true → v ≡ false) → (o || (v && i)) ≡ (o || (v && (e || i)))
skipped_lem true v e i h = refl
skipped_lem false false e i h = refl
skipped_lem false true false i h = refl
skipped_lem false true true i h = absurd (let bad = h refl in cc)

unchanged : (o v : Bool) → o ≡ (o || (v && false))
unchanged true v = refl
unchanged false true = refl
unchanged false false = refl

gathered : (o v a b : Bool) → ((o || (v && a)) || (v && b)) ≡ (o || (v && (a || b)))
gathered true v a b = refl
gathered false true a b = refl
gathered false false a b = refl

module _ (x : ℕ) where
  occurs-insert_required :
      (provided ius out : List ℕ)
      → occurs x (insert_required provided ius out)
        ≡ (occurs x out || (occurs x provided && occurs x ius))
  unfolding insert_required occurs
  occurs-insert_required provided [] out = unchanged (occurs x out) (occurs x provided)
  occurs-insert_required provided (iu ∷ ius) out = elim (Bool-cases (occurs iu provided)) [
    | inl here ↦ rw here (
        occurs-insert_required provided ius (insert_iu iu out)
        ∙ ap (λ b. b || (occurs x provided && occurs x ius)) (occurs-insert_iu x iu out)
        ∙ inserted_lem (occurs x out) (occurs x provided) (iu == x) (occurs x ius)
            (λ e. subst (λ y. occurs y provided ≡ true) (==→eq iu x e) here))
    | inr away ↦ rw away (
        occurs-insert_required provided ius out
        ∙ skipped_lem (occurs x out) (occurs x provided) (iu == x) (occurs x ius)
            (λ e. subst (λ y. occurs y provided ≡ false) (==→eq iu x e) away))
  ]

  occurs-outputs_required :
      (provided : List ℕ) (ss : List Subop) (out : List ℕ)
      → occurs x (outputs_required provided ss out)
        ≡ (occurs x out || (occurs x provided && read ss x))
  unfolding outputs_required read
  occurs-outputs_required provided [] out = unchanged (occurs x out) (occurs x provided)
  occurs-outputs_required provided (s ∷ ss) out =
      occurs-outputs_required provided ss (insert_required provided s.source_ius out)
      ∙ ap (λ b. b || (occurs x provided && read ss x))
          (occurs-insert_required provided s.source_ius out)
      ∙ gathered (occurs x out) (occurs x provided) (occurs x s.source_ius) (read ss x)

  module _ (is_void : ℕ → Bool) where
    occurs-insert_outputs :
        (ius out : List ℕ)
        → occurs x (insert_outputs is_void ius out)
          ≡ (occurs x out || (not (is_void x) && occurs x ius))
    unfolding insert_outputs occurs
    occurs-insert_outputs [] out = unchanged (occurs x out) (not (is_void x))
    occurs-insert_outputs (iu ∷ ius) out = elim (Bool-cases (is_void iu)) [
      | inr plain ↦ rw plain (
          occurs-insert_outputs ius (insert_iu iu out)
          ∙ ap (λ b. b || (not (is_void x) && occurs x ius)) (occurs-insert_iu x iu out)
          ∙ inserted_lem (occurs x out) (not (is_void x)) (iu == x) (occurs x ius)
              (λ e. subst (λ y. not (is_void y) ≡ true) (==→eq iu x e) (ap not plain)))
      | inl void ↦ rw void (
          occurs-insert_outputs ius out
          ∙ skipped_lem (occurs x out) (not (is_void x)) (iu == x) (occurs x ius)
              (λ e. subst (λ y. not (is_void y) ≡ false) (==→eq iu x e) (ap not void)))
    ]

    occurs-all_outputs :
        (ss : List Subop) (out : List ℕ)
        → occurs x (all_outputs is_void ss out)
          ≡ (occurs x out || (not (is_void x) && produced ss x))
    unfolding all_outputs produced
    occurs-all_outputs [] out = unchanged (occurs x out) (not (is_void x))
    occurs-all_outputs (s ∷ ss) out =
        occurs-all_outputs ss (insert_outputs is_void s.ius out)
        ∙ ap (λ b. b || (not (is_void x) && produced ss x)) (occurs-insert_outputs s.ius out)
        ∙ gathered (occurs x out) (not (is_void x)) (occurs x s.ius) (produced ss x)

    occurs-outputs_without_strong :
        (ss : List Subop) (out : List ℕ)
        → occurs x (outputs_without_strong is_void ss out)
          ≡ (occurs x out || (not (is_void x) && released ss x))
    unfolding outputs_without_strong released
    occurs-outputs_without_strong [] out = unchanged (occurs x out) (not (is_void x))
    occurs-outputs_without_strong (s ∷ ss) out = elim (Bool-cases s.outgoing_strong_links) [
      | inl strong ↦ rw strong (occurs-outputs_without_strong ss out)
      | inr weak ↦ rw weak (
          occurs-outputs_without_strong ss (insert_outputs is_void s.ius out)
          ∙ ap (λ b. b || (not (is_void x) && released ss x)) (occurs-insert_outputs s.ius out)
          ∙ gathered (occurs x out) (not (is_void x)) (occurs x s.ius) (released ss x))
    ]

-- `repipeRequired` materializes the IUs, other than those without a value, that the range produces
-- and a suboperator behind the range reads. `repipeAll` materializes those that a suboperator of
-- the range without outgoing strong links produces.
pub repipe_outputs :
    (is_void : ℕ → Bool) (new_id : ℕ → ℕ) (driver_iu : ℕ) (p : Pipeline) (start end : ℕ)
    → ((m : List ℕ) × (repipe_required is_void new_id driver_iu p start end
          ≡ repipe is_void new_id driver_iu p start end m)
        × ((x : ℕ)
            → occurs x m ≡ (
                (not (is_void x) && produced (range p start end) x)
                && read (drop end p.suboperators) x)))
      × ((m : List ℕ) × (repipe_all is_void new_id driver_iu p start end
            ≡ repipe is_void new_id driver_iu p start end m)
          × ((x : ℕ) → occurs x m ≡ (not (is_void x) && released (range p start end) x)))
unfolding repipe_required repipe_all occurs
repipe_outputs is_void new_id driver_iu p start end =
    let out = all_outputs is_void (range p start end) [] in
    (
      (
        outputs_required out (drop end p.suboperators) [],
        refl,
        λ x.
            occurs-outputs_required x out (drop end p.suboperators) []
            ∙ ap (λ b. b && read (drop end p.suboperators) x)
                (occurs-all_outputs x is_void (range p start end) []),
      ),
      (
        outputs_without_strong is_void (range p start end) [],
        refl,
        λ x. occurs-outputs_without_strong x is_void (range p start end) [],
      ),
    )
