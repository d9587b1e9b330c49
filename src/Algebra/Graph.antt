-- ===== src/Algebra/Graph.antt =====
-- algebra/Pipeline.cpp: the graph and the providers that `attachSuboperator` keeps.
use inkfuse.Base.{
  ℕ, ◌+◌, ◌≡◌, refl, sym, ap, ◌∙◌, fun_ext, inl, inr, Bool, true, false, Option, none, some, List,
  [], ◌∷◌, ◌++◌, arith, ◌==◌, ==→eq, eq→==, if◌then◌else◌, Bool-cases, Option-cases, update,
}
use mathlib.Core.List.{append-nil, append_assoc}
use inkfuse.Algebra.{
  Subop, Pipeline, new_pipeline, get_consumers, get_producers, try_get_provider, add_edge,
  add_edges, provide, attach_suboperator, attach_all,
}

-- How often a number stands in a list.
unfoldable pub occurrences : ℕ → List ℕ → ℕ
occurrences x [] = 0
occurrences x (y ∷ ys) = (if y == x then 1 else 0) + occurrences x ys

pub occurrences-append :
    (x y : ℕ) (ys : List ℕ)
    → occurrences x (ys ++ y ∷ []) ≡ occurrences x ys + (if y == x then 1 else 0)
unfolding occurrences
occurrences-append x y [] = omega arith
occurrences-append x y (z ∷ ys) = omega (arith, occurrences-append x y ys)

-- The two maps of the graph hold the same edges.
pub IsMirrored : Pipeline → Type 0
IsMirrored p = (u v : ℕ) → occurrences v (get_consumers p u) ≡ occurrences u (get_producers p v)

-- A write at a key adds one element to its list.
update-occurrences :
    (f : ℕ → List ℕ) (k y j x : ℕ)
    → occurrences x (update f k (f k ++ y ∷ []) j)
      ≡ occurrences x (f j) + (if j == k then if y == x then 1 else 0 else 0)
update-occurrences f k y j x = elim (Bool-cases (j == k)) [
  | inl here ↦
      let e : occurrences x (f k) ≡ occurrences x (f j) =
        ap (λ i. occurrences x (f i)) (sym (==→eq j k here)) in
      rw here (omega (arith, occurrences-append x y (f k), e))
  | inr apart ↦ rw apart (omega arith)
]

add_edge-IsMirrored : (q s : ℕ) (p : Pipeline) → IsMirrored p → IsMirrored (add_edge q s p)
unfolding IsMirrored add_edge get_consumers get_producers
add_edge-IsMirrored q s p m u v =
    let out = update-occurrences p.outgoing_edges q s u v in
    let in_ = update-occurrences p.incoming_edges s q v u in ground (arith, m u v, out, in_)

add_edges-IsMirrored :
    (s : ℕ) (ius : List ℕ) (p : Pipeline) → IsMirrored p → IsMirrored (add_edges s ius p)
unfolding add_edges
add_edges-IsMirrored s [] p m = m
add_edges-IsMirrored s (iu ∷ ius) p m = elim (Option-cases (try_get_provider p iu)) [
  | inl missing ↦ rw (missing, add_edges) (add_edges-IsMirrored s ius p m)
  | inr (q, e) ↦
      rw (e, add_edges) (add_edges-IsMirrored s ius (add_edge q s p) (add_edge-IsMirrored q s p m))
]

attach_suboperator-IsMirrored :
    (s : Subop) (p : Pipeline) → IsMirrored p → IsMirrored (attach_suboperator s p)
unfolding attach_suboperator IsMirrored get_consumers get_producers
attach_suboperator-IsMirrored s p m = add_edges-IsMirrored s.id s.source_ius p m

pub attach_all-IsMirrored :
    (ss : List Subop) (p : Pipeline) → IsMirrored p → IsMirrored (attach_all ss p)
unfolding attach_all
attach_all-IsMirrored [] p m = m
attach_all-IsMirrored (s ∷ ss) p m =
    attach_all-IsMirrored ss (attach_suboperator s p) (attach_suboperator-IsMirrored s p m)

-- Every pipeline that `attachSuboperator` builds holds the same edges in both maps of its graph: a
-- suboperator stands among the consumers of another as often as that one stands among its
-- producers.
pub built_pipeline-IsMirrored : (ss : List Subop) → IsMirrored (attach_all ss new_pipeline)
unfolding IsMirrored get_consumers get_producers new_pipeline occurrences
built_pipeline-IsMirrored ss = attach_all-IsMirrored ss new_pipeline (λ u v. refl)

-- The providers that the pipeline has for a list of IUs, in their order.
unfoldable pub providers_of : (ℕ → Option ℕ) → List ℕ → List ℕ
providers_of f [] = []
providers_of f (iu ∷ ius) = elim (f iu) [
  | none ↦ providers_of f ius
  | some q ↦ q ∷ providers_of f ius
]

pub add_edges_lem :
    (s : ℕ) (ius : List ℕ) (p : Pipeline)
    → ((add_edges s ius p).iu_providers ≡ p.iu_providers)
      × ((add_edges s ius p).suboperators ≡ p.suboperators)
      × ((add_edges s ius p).incoming_edges s
          ≡ p.incoming_edges s ++ providers_of p.iu_providers ius)
unfolding add_edges providers_of try_get_provider add_edge
add_edges_lem s [] p = (refl, refl, sym (append-nil (p.incoming_edges s)))
add_edges_lem s (iu ∷ ius) p = elim (Option-cases (p.iu_providers iu)) [
  | inl missing ↦ rw (missing, add_edges, providers_of) (add_edges_lem s ius p)
  | inr (q, e) ↦
      let (same, kept, more) = add_edges_lem s ius (add_edge q s p) in
      rw (e, add_edges, providers_of)
        (
          same,
          kept,
          more
              ∙ ap (λ xs. xs ++ providers_of p.iu_providers ius) (update_here p.incoming_edges s q)
              ∙ append_assoc (p.incoming_edges s) (q ∷ []) (providers_of p.iu_providers ius),
        )
]
  where
    update_here : (f : ℕ → List ℕ) (k q : ℕ) → update f k (f k ++ q ∷ []) k ≡ f k ++ q ∷ []
    update_here f k q = rw (eq→== k k refl) refl

unfoldable pub produces : List ℕ → ℕ → Bool
produces [] iu = false
produces (i ∷ ius) iu = if i == iu then true else produces ius iu

-- The last suboperator of a list that produces an IU.
unfoldable pub last_producer : List Subop → ℕ → Option ℕ
unfolding produces
last_producer [] iu = none
last_producer (s ∷ ss) iu = elim (last_producer ss iu) [
  | some q ↦ some q
  | none ↦ if produces s.ius iu then some s.id else none
]

-- A later provider in place of an earlier one.
abbrev or_else : Option ℕ → Option ℕ → Option ℕ
or_else (some q) o = some q
or_else none o = o

provide_lem :
    (s : ℕ) (ius : List ℕ) (f : ℕ → Option ℕ) (iu : ℕ)
    → provide s ius f iu ≡ (if produces ius iu then some s else f iu)
unfolding provide produces
provide_lem s [] f iu = refl
provide_lem s (i ∷ ius) f iu = elim (Bool-cases (i == iu)) [
  | inl here ↦
      let here' : iu == i ≡ true = eq→== iu i (sym (==→eq i iu here)) in
      elim (Bool-cases (produces ius iu)) [
        | inl again ↦ provide_lem s ius (update f i (some s)) iu ∙ rw (here, again) refl
        | inr last ↦ provide_lem s ius (update f i (some s)) iu ∙ rw (here, last, here') refl
      ]
  | inr apart ↦
      let apart' : iu == i ≡ false = ground (arith, apart) in
      provide_lem s ius (update f i (some s)) iu ∙ rw (apart, apart') refl
]

attach_all-providers :
    (ss : List Subop) (p : Pipeline) (iu : ℕ)
    → try_get_provider (attach_all ss p) iu ≡ or_else (last_producer ss iu) (try_get_provider p iu)
unfolding attach_all last_producer attach_suboperator try_get_provider
attach_all-providers [] p iu = refl
attach_all-providers (s ∷ ss) p iu =
    let (same, kept, more) = add_edges_lem s.id s.source_ius p in
    let one : (attach_suboperator s p).iu_providers iu
        ≡ (if produces s.ius iu then some s.id else p.iu_providers iu) =
      provide_lem s.id s.ius ((add_edges s.id s.source_ius p).iu_providers) iu
      ∙ ap (λ f. if produces s.ius iu then some s.id else f iu) same in
    let rest = attach_all-providers ss (attach_suboperator s p) iu in
    elim (Option-cases (last_producer ss iu)) [
      | inr (q, e) ↦ rest ∙ rw e refl
      | inl missing ↦
          rest ∙ rw missing (one ∙ by_cases (produces s.ius iu) s.id (p.iu_providers iu))
    ]
  where
    by_cases :
        (b : Bool) (q : ℕ) (y : Option ℕ)
        → (if b then some q else y) ≡ or_else (if b then some q else none) y
    by_cases true q y = refl
    by_cases false q y = refl

-- A pipeline knows as the provider of an IU the last suboperator attached that produces it, and
-- has none exactly where no suboperator does. A suboperator that is attached next, if no edge
-- leads to it yet, gets as its producers the providers of its source IUs in their order, so that
-- the provider of its first source IU, if there is one, stands at index 0.
pub built_pipeline_providers :
    (ss : List Subop) (s : Subop)
    → ((iu : ℕ) → try_get_provider (attach_all ss new_pipeline) iu ≡ last_producer ss iu)
      × (get_producers (attach_all ss new_pipeline) s.id ≡ []
          → get_producers (attach_suboperator s (attach_all ss new_pipeline)) s.id
            ≡ providers_of (last_producer ss) s.source_ius)
unfolding get_producers attach_suboperator try_get_provider new_pipeline
built_pipeline_providers ss s = (provider, producers)
  where
    p : Pipeline
    p = attach_all ss new_pipeline

    provider : (iu : ℕ) → p.iu_providers iu ≡ last_producer ss iu
    provider iu = attach_all-providers ss new_pipeline iu ∙ no_else (last_producer ss iu)
      where
        no_else : (o : Option ℕ) → or_else o none ≡ o
        no_else none = refl
        no_else (some q) = refl

    producers :
        p.incoming_edges s.id ≡ []
        → (add_edges s.id s.source_ius p).incoming_edges s.id
          ≡ providers_of (last_producer ss) s.source_ius
    producers fresh =
        let (_, _, more) = add_edges_lem s.id s.source_ius p in
        more
        ∙ ap (λ xs. xs ++ providers_of p.iu_providers s.source_ius) fresh
        ∙ ap (λ f. providers_of f s.source_ius) (fun_ext provider)
