-- ===== src/Codegen/Compile.antt =====
-- algebra/CompilationContext.cpp: `compile`, which opens and closes the sinks.
use inkfuse.Base.{
  ℕ, ◌<◌, ◌≡◌, ◌⊎◌, inl, inr, refl, sym, ap, subst, ◌∙◌, true, false, none, List, [], ◌∷◌, ◌++◌,
  map, arith, ◌==◌, length, Bool-cases, ==→eq, eq→==,
}
use inkfuse.Runtime.Run.{ok}
use inkfuse.Algebra.{Subop}
use inkfuse.Algebra.Repipe.{occurs}
use inkfuse.Codegen.{
  Context, State, Task, open_, close, is_sink, requested, producing_no_request, select, sinks,
  compile,
}
use inkfuse.Codegen.Steps.{Reaches, Reaches-refl, Reaches-trans, Reaches-run}
use inkfuse.Codegen.Orderly.{AllBelow, IsOrderly, InOrder, Asks}
use inkfuse.Codegen.Progress.{IsGood, is_top}
use inkfuse.Codegen.Tops.{
  IsDistinct, IsDistinct-append, occurs-select, IsDistinct-select, AllBelow-occurs, TopOpened,
  top_opened,
}
use inkfuse.Codegen.Closing.{all_closed}

module _ (c : Context) (size : ℕ) (o : IsOrderly c size) where
  record AllOpened (is : List ℕ) (rest : List Task) (s : State) : Type 0 where
    after : State
    reaches : Reaches c (map open_ is ++ rest) s rest after
    ordered : InOrder c after.code
    have_code : (j : ℕ) → occurs j is ≡ true → occurs j after.code ≡ true
    grows : (j : ℕ) → occurs j s.code ≡ true → occurs j after.code ≡ true

  all_opened :
      (is : List ℕ) (rest : List Task) (s : State)
      → IsDistinct is
      → ((j : ℕ)
          → occurs j is ≡ true
          → (j < size) × (is_top c size o j ≡ true) × (occurs j s.code ≡ false))
      → IsGood c size o s (λ _. 0) size
      → AllOpened is rest s
  unfolding occurs
  all_opened [] rest s d fit g = record {
    after = s;
    reaches = Reaches-refl c rest s;
    ordered = g.ordered;
    have_code = λ j e. absurd cc;
    grows = λ j e. e;
  }
  all_opened (i ∷ is) rest s (n, d) fit g =
      let here : (i == i) ≡ true = eq→== i i refl in
      let (b, top, gone) = fit i (rw here refl) in
      let others = map open_ is ++ rest in
      let t = top_opened c size o i others s b top gone g in
      let more =
        all_opened is rest t.after d (λ j e. still s t j e (fit j (ground (arith, e)))) t.good in
      record {
        after = more.after;
        reaches =
            Reaches-trans c (open_ i ∷ others) others rest s t.after more.after t.reaches
              more.reaches;
        ordered = more.ordered;
        have_code = λ j e. elim (Bool-cases (i == j)) [
          | inl same ↦
              subst (λ k. occurs k more.after.code ≡ true) (==→eq i j same)
                (more.grows i t.has_code)
          | inr differ ↦ more.have_code j (ground (arith, e, differ))
        ];
        grows = λ j e. more.grows j (t.grows j e);
      }
    where
      still :
          (s : State) (t : TopOpened c size o i (map open_ is ++ rest) s) (j : ℕ)
          → occurs j is ≡ true
          → (j < size) × (is_top c size o j ≡ true) × (occurs j s.code ≡ false)
          → (j < size) × (is_top c size o j ≡ true) × (occurs j t.after.code ≡ false)
      still s t j e (b, top, gone) =
          let differ : (i == j) ≡ false = elim (Bool-cases (i == j)) [
            | inr e' ↦ e'
            | inl e' ↦
                let there : occurs i is ≡ true =
                  subst (λ k. occurs k is ≡ true) (sym (==→eq i j e')) e in
                absurd cc
          ] in
          (b, top, t.tops_same j top differ ∙ gone)

  abbrev start : State
  start = record {
    upstream_requests = λ _. 0;
    serviced_requests = λ _. 0;
    requests = λ _. none;
    computed = λ _. false;
    code = [];
    closed = [];
  }

  length-Asks : (q i : ℕ) (ius : List ℕ) → Asks c q i ius → 0 < length ius
  length-Asks q i [] a = absurd a
  length-Asks q i (iu ∷ ius) a = omega arith

  start-IsGood : IsGood c size o start (λ _. 0) size
  unfolding occurs
  start-IsGood = record {
    counts = λ r l n. omega arith;
    fresh = λ j l n. refl;
    bounded = λ r l low t n n'. elim (o.owned r l) [
      | inl none_ ↦ absurd (omega (arith, none_, t))
      | inr (_, a) ↦
          let some_ = length-Asks (o.owner r) r (requested c r) a in
          omega (arith, o.counted r l, some_)
    ];
    computed_same = λ j e. refl;
    ordered = tt;
  }

  -- The ids of the pipeline are distinct, and below `size`.
  abbrev pub HasIds : Type 0
  HasIds =
      let ids = map (λ (s : Subop). s.id) c.pipeline.suboperators in
      AllBelow size ids × IsDistinct ids

  sinks-IsDistinct : HasIds → IsDistinct (sinks c)
  unfolding sinks producing_no_request
  sinks-IsDistinct (b, d) =
      IsDistinct-append (select (producing_no_request c) c.pipeline.suboperators)
        (select (is_sink c) c.pipeline.suboperators)
        (IsDistinct-select (producing_no_request c) c.pipeline.suboperators d)
        (IsDistinct-select (is_sink c) c.pipeline.suboperators d)
        (λ j e. apart j (occurs-select (producing_no_request c) c.pipeline.suboperators j e).0)
    where
      apart :
          (j : ℕ)
          → producing_no_request c j ≡ true
          → occurs j (select (is_sink c) c.pipeline.suboperators) ≡ false
      apart j e = elim (Bool-cases (occurs j (select (is_sink c) c.pipeline.suboperators))) [
        | inr n ↦ n
        | inl y ↦
            let (sink, _) = occurs-select (is_sink c) c.pipeline.suboperators j y in
            absurd (ground (arith, e, sink))
      ]

  occurs_either :
      (j : ℕ) (xs ys : List ℕ)
      → occurs j (xs ++ ys) ≡ true
      → (occurs j xs ≡ true) ⊎ (occurs j ys ≡ true)
  unfolding occurs
  occurs_either j [] ys e = inr e
  occurs_either j (x ∷ xs) ys e = elim (Bool-cases (x == j)) [
    | inl here ↦ inl (rw here refl)
    | inr there ↦ elim (occurs_either j xs ys (ground (arith, e, there))) [
      | inl l ↦ inl (ground (arith, l))
      | inr r ↦ inr r
    ]
  ]

  occurs-sinks :
      (j : ℕ) → HasIds → occurs j (sinks c) ≡ true → (j < size) × (is_top c size o j ≡ true)
  unfolding sinks
  occurs-sinks j (b, d) e =
      let ss = c.pipeline.suboperators in
      let ids = map (λ (s : Subop). s.id) ss in
      elim (occurs_either j (select (producing_no_request c) ss) (select (is_sink c) ss) e) [
        | inl l ↦
            let (root, there) = occurs-select (producing_no_request c) ss j l in
            (AllBelow-occurs size j ids b there, ground (arith, root))
        | inr r ↦
            let (sink, there) = occurs-select (is_sink c) ss j r in
            (AllBelow-occurs size j ids b there, ground (arith, sink))
      ]

  -- For a pipeline in which every request can be met, `compile` ends without an exception. The code of each
  -- suboperator then stands once, behind the code of those that provide what it requested, and each sink
  -- and each suboperator without consumers has its code.
  pub compile_ends :
      HasIds
      → (fuel : ℕ) × (s : State) × (compile c fuel ≡ ok s)
        × InOrder c s.code
        × ((j : ℕ) → occurs j (sinks c) ≡ true → occurs j s.code ≡ true)
  unfolding compile occurs
  compile_ends ids =
      let w =
        all_opened (sinks c) (map close (sinks c)) start (sinks-IsDistinct ids)
          (λ j e. let (b, top) = occurs-sinks j ids e in (b, top, refl)) start-IsGood in
      let (s, r, same) = all_closed c size o (sinks c) w.after (λ j e. (occurs-sinks j ids e).0) in
      let calls = map open_ (sinks c) ++ map close (sinks c) in
      let (fuel, ends) =
        Reaches-run c calls start s
          (Reaches-trans c calls (map close (sinks c)) [] start w.after s w.reaches r) in
      (
        fuel,
        s,
        ends,
        subst (InOrder c) (sym same) w.ordered,
        λ j e. ap (occurs j) same ∙ w.have_code j e,
      )
