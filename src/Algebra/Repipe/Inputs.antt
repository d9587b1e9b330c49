-- ===== src/Algebra/Repipe/Inputs.antt =====
-- algebra/Pipeline.cpp: the inputs and outputs of a repiped range.
use inkfuse.Base.{
  ℕ, ◌+◌, ◌-◌, ◌≤◌, ◌≡◌, refl, ap, subst, ◌∙◌, inl, inr, Bool, true, false, not, ◌&&◌, ◌||◌, none,
  some, List, [], ◌∷◌, ◌++◌, arith, ◌==◌, ==→eq, if◌then◌else◌, Bool-cases, Option-cases, length,
  get_elem?,
}
use inkfuse.Algebra.{
  Subop, Pipeline, new_pipeline, attach_all, attach_suboperator, add_edges, add_edge,
  try_get_provider,
}
use inkfuse.Algebra.Graph.{occurrences, occurrences-append}
use inkfuse.Algebra.Continuations.{suboperators-attach_all}
use inkfuse.Algebra.Repipe.Sources.{
  AreSources, AreSinks, build_sources-AreSources, build_sinks-AreSinks,
}
use inkfuse.Algebra.Repipe.{
  repipe, prepend, connect, inputs, range, build_sources, build_sinks, occurs, read_ius,
  required_ius,
}

-- A list of suboperators reads an IU from outside: one of them does, and neither itself nor one
-- before it produces it.
unfoldable pub reads : List Subop → ℕ → Bool
reads [] iu = false
reads (s ∷ ss) iu =
    if occurs iu s.ius then false else if occurs iu s.source_ius then true else reads ss iu

pub occurs-append : (x : ℕ) (xs ys : List ℕ) → occurs x (xs ++ ys) ≡ (occurs x xs || occurs x ys)
unfolding occurs
occurs-append x [] ys = refl
occurs-append x (z ∷ xs) ys =
    rw (occurs-append x xs ys) (or_assoc (z == x) (occurs x xs) (occurs x ys))
  where
    or_assoc : (a b c : Bool) → (a || (b || c)) ≡ ((a || b) || c)
    or_assoc true b c = refl
    or_assoc false b c = refl

or_nothing : (r p : Bool) → r ≡ (r || (not p && false))
or_nothing true p = refl
or_nothing false true = refl
or_nothing false false = refl

-- An IU that is added, and one that is not.
added_lem :
    (r p e i : Bool)
    → (e ≡ true → p ≡ false)
    → ((r || (e || false)) || (not p && i)) ≡ (r || (not p && (e || i)))
added_lem true p e i h = refl
added_lem false p false i h = refl
added_lem false false true i h = refl
added_lem false true true i h = absurd (let bad = h refl in cc)

kept_lem :
    (r p e i : Bool)
    → (e ≡ true → (p || r) ≡ true)
    → (r || (not p && i)) ≡ (r || (not p && (e || i)))
kept_lem true p e i h = refl
kept_lem false true e i h = refl
kept_lem false false false i h = refl
kept_lem false false true i h = absurd (let bad = h refl in cc)

both_new : (a b : Bool) → (not a && not b) ≡ true → (a ≡ false) × (b ≡ false)
both_new false false h = (refl, refl)
both_new false true h = cc
both_new true b h = cc

some_old : (a b : Bool) → (not a && not b) ≡ false → (a || b) ≡ true
some_old true b h = refl
some_old false true h = refl
some_old false false h = cc

-- Reading the source IUs of a suboperator requires those that are not provided.
occurs-read_ius :
    (x : ℕ) (provided ius required : List ℕ)
    → occurs x (read_ius provided ius required)
      ≡ (occurs x required || (not (occurs x provided) && occurs x ius))
unfolding read_ius occurs
occurs-read_ius x provided [] required = or_nothing (occurs x required) (occurs x provided)
occurs-read_ius x provided (iu ∷ ius) required =
    elim (Bool-cases (not (occurs iu provided) && not (occurs iu required))) [
      | inl new ↦
          let (fresh, _) = both_new (occurs iu provided) (occurs iu required) new in
          rw new (
            occurs-read_ius x provided ius (required ++ iu ∷ [])
            ∙ ap (λ b. b || (not (occurs x provided) && occurs x ius))
                (occurs-append x required (iu ∷ []))
            ∙ added_lem (occurs x required) (occurs x provided) (iu == x) (occurs x ius)
                (λ e. subst (λ y. occurs y provided ≡ false) (==→eq iu x e) fresh))
      | inr old ↦
          let known = some_old (occurs iu provided) (occurs iu required) old in
          rw old (
            occurs-read_ius x provided ius required
            ∙ kept_lem (occurs x required) (occurs x provided) (iu == x) (occurs x ius) (λ e.
              subst (λ y. (occurs y provided || occurs y required) ≡ true) (==→eq iu x e) known))
    ]

occurs-required_ius :
    (x : ℕ) (provided required : List ℕ) (ss : List Subop)
    → occurs x (required_ius provided required ss)
      ≡ (occurs x required || (not (occurs x provided) && reads ss x))
unfolding required_ius reads
occurs-required_ius x provided required [] = or_nothing (occurs x required) (occurs x provided)
occurs-required_ius x provided required (s ∷ ss) =
    occurs-required_ius x (provided ++ s.ius) (read_ius (provided ++ s.ius) s.source_ius required)
      ss
    ∙ ap (λ b. b || (not (occurs x (provided ++ s.ius)) && reads ss x))
        (occurs-read_ius x (provided ++ s.ius) s.source_ius required)
    ∙ ap (λ q. (occurs x required || (not q && occurs x s.source_ius)) || (not q && reads ss x))
        (occurs-append x provided s.ius)
    ∙ step_lem (occurs x required) (occurs x provided) (occurs x s.ius) (occurs x s.source_ius)
        (reads ss x)
  where
    step_lem :
        (r p u i n : Bool)
        → ((r || (not (p || u) && i)) || (not (p || u) && n))
          ≡ (r || (not p && (if u then false else if i then true else n)))
    step_lem true p u i n = refl
    step_lem false true u i n = refl
    step_lem false false true i n = refl
    step_lem false false false true n = refl
    step_lem false false false false n = refl

-- An IU at most once.
pub HasNoRepeats : List ℕ → Type 0
HasNoRepeats xs = (x : ℕ) → occurrences x xs ≤ 1

occurrences_zero : (x : ℕ) (xs : List ℕ) → occurs x xs ≡ false → occurrences x xs ≡ 0
unfolding occurs occurrences
occurrences_zero x [] h = refl
occurrences_zero x (y ∷ ys) h = elim (Bool-cases (y == x)) [
  | inl here ↦ let bad = (rw here at h) in cc
  | inr apart ↦
      let rest : occurs x ys ≡ false = (rw apart at h) in
      rw apart (omega (arith, occurrences_zero x ys rest))
]

occurrences_positive : (x : ℕ) (xs : List ℕ) → occurs x xs ≡ true → 1 ≤ occurrences x xs
unfolding occurs occurrences
occurrences_positive x [] h = cc
occurrences_positive x (y ∷ ys) h = elim (Bool-cases (y == x)) [
  | inl here ↦ rw here (omega arith)
  | inr apart ↦
      let rest : occurs x ys ≡ true = (rw apart at h) in
      rw apart (omega (arith, occurrences_positive x ys rest))
]

parallel-add_edges :
    (s : ℕ) (ius : List ℕ) (p : Pipeline)
    → (add_edges s ius p).parallel_codegen ≡ p.parallel_codegen
unfolding add_edges try_get_provider add_edge
parallel-add_edges s [] p = refl
parallel-add_edges s (iu ∷ ius) p = elim (Option-cases (p.iu_providers iu)) [
  | inl missing ↦ rw (missing, add_edges) (parallel-add_edges s ius p)
  | inr (q, e) ↦ rw (e, add_edges) (parallel-add_edges s ius (add_edge q s p) ∙ kept q)
]
  where
    kept : (q : ℕ) → (add_edge q s p).parallel_codegen ≡ p.parallel_codegen
    kept q = refl

parallel-attach_all :
    (ss : List Subop) (p : Pipeline) → (attach_all ss p).parallel_codegen ≡ p.parallel_codegen
unfolding attach_all attach_suboperator
parallel-attach_all [] p = refl
parallel-attach_all (s ∷ ss) p =
    parallel-attach_all ss (attach_suboperator s p) ∙ parallel-add_edges s.id s.source_ius p

HasNoRepeats-read_ius :
    (provided ius required : List ℕ)
    → HasNoRepeats required
    → HasNoRepeats (read_ius provided ius required)
unfolding read_ius HasNoRepeats
HasNoRepeats-read_ius provided [] required h = h
HasNoRepeats-read_ius provided (iu ∷ ius) required h =
    elim (Bool-cases (not (occurs iu provided) && not (occurs iu required))) [
      | inr old ↦ rw old (HasNoRepeats-read_ius provided ius required h)
      | inl new ↦
          let (_, fresh) = both_new (occurs iu provided) (occurs iu required) new in
          rw new (
            HasNoRepeats-read_ius provided ius (required ++ iu ∷ []) (λ x.
              let more = occurrences-append x iu required in
              elim (Bool-cases (iu == x)) [
                | inl here ↦
                    let none_ : occurrences x required ≡ 0 =
                      subst (λ y. occurrences y required ≡ 0) (==→eq iu x here)
                        (occurrences_zero iu required fresh) in
                    ground (arith, more, none_)
                | inr apart ↦ ground (arith, more, apart, h x)
              ]))
    ]

HasNoRepeats-required_ius :
    (provided required : List ℕ) (ss : List Subop)
    → HasNoRepeats required
    → HasNoRepeats (required_ius provided required ss)
unfolding required_ius
HasNoRepeats-required_ius provided required [] h = h
HasNoRepeats-required_ius provided required (s ∷ ss) h =
    HasNoRepeats-required_ius (provided ++ s.ius)
      (read_ius (provided ++ s.ius) s.source_ius required) ss
      (HasNoRepeats-read_ius (provided ++ s.ius) s.source_ius required h)

module _ (is_void : ℕ → Bool) (new_id : ℕ → ℕ) (driver_iu : ℕ) where
  inputs_lem :
      (first : Subop) (subops : List Subop)
      → first.is_tuple_materializer ≡ false
      → inputs is_void new_id driver_iu first none subops ≡ required_ius [] [] subops
  unfolding inputs
  inputs_lem first subops plain = rw plain refl

  connect_lem :
      (first : Subop) (subops : List Subop) (materialize : List ℕ)
      → first.is_tuple_materializer ≡ false
      → connect is_void new_id driver_iu first none none subops materialize
        ≡ build_sources is_void new_id driver_iu (required_ius [] [] subops)
          ++ (subops
              ++ build_sinks is_void new_id driver_iu
                  (length (required_ius [] [] subops) + 1)
                  materialize)
  unfolding connect prepend
  connect_lem first subops materialize plain =
      ap
        (λ required.
          build_sources is_void new_id driver_iu required
          ++ (subops ++ build_sinks is_void new_id driver_iu (length required + 1) materialize))
        (inputs_lem first subops plain)

  counts_lem :
      (ss : List Subop) (x : ℕ)
      → occurrences x (required_ius [] [] ss) ≡ (if reads ss x then 1 else 0)
  unfolding HasNoRepeats occurs occurrences
  counts_lem ss x =
      let found = occurs-required_ius x [] [] ss in
      let most = HasNoRepeats-required_ius [] [] ss (λ y. omega arith) x in
      elim (Bool-cases (reads ss x)) [
        | inl yes_ ↦
            let least = occurrences_positive x (required_ius [] [] ss) (found ∙ yes_) in
            rw yes_ (omega (arith, most, least))
        | inr no_ ↦ rw no_ (occurrences_zero x (required_ius [] [] ss) (found ∙ no_))
      ]

  -- A nonempty range from `first` to `last`, without strong links at its ends, that does not begin
  -- with a tuple materializer is repiped into sources, the range itself, and sinks, in this order.
  -- The sources are those for the IUs that the range reads from outside: one provider for each that
  -- has a value, behind a driver, and nothing if it reads none. There is one sink for each IU that
  -- is to be materialized, in order. The new pipeline supports parallel code generation if and only
  -- if the old one does.
  pub repipe_lem :
      (p : Pipeline) (start end : ℕ) (materialize : List ℕ) (first last : Subop)
      → (start == end) ≡ false
      → get_elem? p.suboperators start ≡ some first
      → get_elem? p.suboperators (end - 1) ≡ some last
      → first.incoming_strong_links ≡ false
      → last.outgoing_strong_links ≡ false
      → first.is_tuple_materializer ≡ false
      → (q : Pipeline) × (sources : List Subop) × (sinks : List Subop) × (repipe is_void new_id
            driver_iu p start end materialize
          ≡ some q)
        × (q.suboperators ≡ sources ++ (range p start end ++ sinks))
        × AreSources is_void driver_iu (reads (range p start end)) sources
        × AreSinks materialize sinks
        × (q.parallel_codegen ≡ p.parallel_codegen)
  unfolding repipe new_pipeline
  repipe_lem p start end materialize first last apart at_start at_end no_in no_out plain =
      let subops = range p start end in
      let parts = connect is_void new_id driver_iu first none none subops materialize in
      let base : Pipeline = record new_pipeline { parallel_codegen = p.parallel_codegen } in
      let required = required_ius [] [] subops in
      (
        attach_all parts base,
        build_sources is_void new_id driver_iu required,
        build_sinks is_void new_id driver_iu (length required + 1) materialize,
        rw (apart, at_start, at_end, no_in, no_out) refl,
        suboperators-attach_all parts base ∙ connect_lem first subops materialize plain,
        build_sources-AreSources is_void new_id driver_iu (reads subops) required
            (counts_lem subops),
        build_sinks-AreSinks is_void new_id driver_iu (length required + 1) materialize,
        parallel-attach_all parts base,
      )
