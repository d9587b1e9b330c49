-- ===== src/Codegen/Opening.antt =====
-- algebra/CompilationContext.cpp: a suboperator that is opened gets its code.
use inkfuse.Base.{
  ℕ, ◌+◌, ◌<◌, ◌≡◌, inl, inr, refl, sym, ap, subst, ◌∙◌, true, false, List, [], ◌∷◌, ◌++◌, map,
  arith, ltb, length, Bool-cases,
}
use mathlib.Core.List.{append_assoc}
use inkfuse.Algebra.Repipe.{occurs}
use inkfuse.Codegen.{
  Context, State, Task, open_, request, service, num_source_ius, requested_for_filters, requested,
  generates_in_open, generates_in_consume, ready, open_requests,
}
use inkfuse.Codegen.Steps.{
  Reaches, Reaches-trans, Reaches-step, coded, marked, step-open_source, step-open_requests,
}
use inkfuse.Codegen.Orderly.{
  times, IsOrderly, Asks, AreMet, AreAnswered, FiltersAreAnswered, times_behind,
}
use inkfuse.Codegen.Progress.{
  IsGood, IsGood-le, Progresses, Progresses-refl, Progresses-trans, AllCounted, owner-occurs,
}
use inkfuse.Codegen.Requests.{Serves, filters_served}
use inkfuse.Codegen.Own.{OwnServed, own_served, own_consumed, HasOwner}
use inkfuse.Codegen.Coded.{IsGood-coded}

module _ (c : Context) (size : ℕ) (o : IsOrderly c size) where
  -- `i` has its code, and is about to tell so.
  pub record Opened (i : ℕ) (rest : List Task) (s : State) (h : ℕ → ℕ) (m : ℕ) : Type 0 where
    pub after : State
    pub counted : List ℕ
    pub reaches :
        Reaches c (open_ i ∷ rest) s (ready c i ++ (map service counted ++ rest)) (coded c i after)
    pub progresses : Progresses c size o s after i
    pub good : IsGood c size o (marked c i (coded c i after)) h m
    pub all_counted : AllCounted c size o (i ∷ after.code) counted

  -- What `open` requests for the suboperator itself.
  own_requests :
      (i : ℕ) (rest : List Task) (s : State) (h : ℕ → ℕ)
      → Serves c size o i
      → i < size
      → occurs i s.code ≡ false
      → generates_in_open c i ≡ false
      → h i ≡ 0
      → IsGood c size o s h i
      → OwnServed c size o i (requested c i) rest s h
  own_requests i rest s h serves b n other zero_ g = go (requested c i) refl
    where
      owner : (ius : List ℕ) → requested c i ≡ ius → HasOwner c size o i s.code ius
      owner ius e = elim (o.owned i b) [
        | inl none_ ↦ inl none_
        | inr (_, a) ↦ inr (inr (subst (Asks c (o.owner i) i) e a))
      ]

      go : (ius : List ℕ) → requested c i ≡ ius → OwnServed c size o i ius rest s h
      go [] e = absurd (o.others i b other e)
      go (iu ∷ ius) e = elim (Bool-cases (generates_in_consume c i)) [
        | inr plain ↦
            own_served c size o i iu ius rest s h serves b n plain
              (subst (AreMet c i i) e (o.own_met i b))
              (omega (arith, o.counted i b, ap length e, zero_)) (owner (iu ∷ ius) e) g
        | inl in_consume ↦ one ius e in_consume
      ]
        where
          one :
              (ius : List ℕ)
              → requested c i ≡ iu ∷ ius
              → generates_in_consume c i ≡ true
              → OwnServed c size o i (iu ∷ ius) rest s h
          one [] e in_consume =
              own_consumed c size o i iu rest s h serves b n in_consume
                (subst (AreMet c i i) e (o.own_met i b)) g
          one (iu' ∷ ius) e in_consume =
              let (_, single, _) = o.by_consume i b in_consume in
              absurd (omega (arith, single, ap length e))

  FiltersAreAnswered-grows :
      (f g : List ℕ) (ds : List (ℕ × ℕ))
      → ((j : ℕ) → occurs j f ≡ true → occurs j g ≡ true)
      → FiltersAreAnswered c f ds
      → FiltersAreAnswered c g ds
  FiltersAreAnswered-grows f g [] more a = tt
  FiltersAreAnswered-grows f g (d ∷ ds) more ((q, e, there), a) =
      ((q, e, more q there), FiltersAreAnswered-grows f g ds more a)

  -- There is room for what a scope requests for its filters.
  has_room :
      (i m : ℕ) (s : State) (h : ℕ → ℕ)
      → i < size
      → i < m
      → occurs i s.code ≡ false
      → IsGood c size o s h m
      → (r : ℕ) → r < size
      → o.owner r ≡ i
      → 0 < times r (requested_for_filters c i)
      → (i < r)
        × (occurs r s.code ≡ false)
        × (h r + times r (requested_for_filters c i) < num_source_ius c r)
  has_room i m s h b l n g r b' own some_ =
      let some' = subst (λ x. 0 < times r (requested_for_filters c x)) (sym own) some_ in
      let gone' = subst (λ x. occurs x s.code ≡ false) (sym own) n in
      let gone = owner-occurs c size o s.code r g.ordered b' some' gone' in
      (
        elim (Bool-cases (ltb i r)) [
          | inl e ↦ ground (arith, e)
          | inr e ↦ absurd (omega (arith, times_behind c size o i r b (ground (arith, e)), some_))
        ],
        gone,
        subst (λ x. h r + times r (requested_for_filters c x) < num_source_ius c r) own
            (g.bounded r b' (subst (λ x. x < m) (sym own) l) some' gone gone'),
      )

  pub opened :
      (i : ℕ) (rest : List Task) (s : State) (h : ℕ → ℕ) (m : ℕ)
      → Serves c size o i
      → i < size
      → i < m
      → occurs i s.code ≡ false
      → IsGood c size o s h m
      → Opened i rest s h m
  unfolding open_requests requested_for_filters
  opened i rest s h m serves b l n g = elim (Bool-cases (generates_in_open c i)) [
    | inl src ↦
        let (none_, no_filters) = o.sources i b src in
        record {
          after = s;
          counted = [];
          reaches =
              Reaches-step c (open_ i) rest (ready c i) s (coded c i s)
                (step-open_source c i s (o.with_filters i b) src);
          progresses = Progresses-refl c size o s i;
          good =
              IsGood-coded c size o s s h h i m b n g (Progresses-refl c size o s i)
                (IsGood-le c size o s h i m (omega (arith, l)) g)
                (λ k out. rw no_filters (omega arith))
                (subst (AreAnswered c s.code i) (sym none_) tt)
                (subst (FiltersAreAnswered c s.code) (sym no_filters) tt);
          all_counted = tt;
        }
    | inr other ↦
        let others = map (request i) (requested c i) ++ rest in
        let asked = map (λ d. request d.0 d.1) (requested_for_filters c i) in
        let f =
          filters_served c size o i (requested_for_filters c i) others s h serves b n
            (o.filters_met i b) (has_room i m s h b l n g)
            (IsGood-le c size o s h i m (omega (arith, l)) g) in
        let zero_ = times_behind c size o i i b (omega arith) in
        let w =
          own_requests i rest f.after (λ k. times k (requested_for_filters c i) + h k) serves b
            (f.progresses.code_same i (omega arith) ∙ n) other (omega (arith, zero_, g.fresh i l n))
            f.good in
        let p = Progresses-trans c size o s f.after w.after i f.progresses w.progresses in
        let start : Reaches c (open_ i ∷ rest) s (asked ++ others) s =
          subst (λ ts. Reaches c (open_ i ∷ rest) s ts s)
            (append_assoc asked (map (request i) (requested c i)) rest)
            (Reaches-step c (open_ i) rest (open_requests c i) s s
              (step-open_requests c i s (o.with_filters i b) other)) in
        let end = ready c i ++ (map service w.counted ++ rest) in
        record {
          after = w.after;
          counted = w.counted;
          reaches =
              Reaches-trans c (open_ i ∷ rest) (asked ++ others) end s s (coded c i w.after) start (
                Reaches-trans c (asked ++ others) others end s f.after (coded c i w.after) f.reaches
                  w.reaches);
          progresses = p;
          good = IsGood-coded c size o s w.after h w.own i m b n g p w.good w.own_same w.answered (
              FiltersAreAnswered-grows f.after.code w.after.code (requested_for_filters c i)
                w.progresses.grows f.answered);
          all_counted = w.all_counted;
        }
  ]
