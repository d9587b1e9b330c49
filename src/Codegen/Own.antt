-- ===== src/Codegen/Own.antt =====
-- algebra/CompilationContext.cpp: the requests that a suboperator makes for itself, up to its code.
use inkfuse.Base.{
  ℕ, ◌+◌, ◌<◌, ◌≤◌, ◌≡◌, ◌≢◌, ◌⊎◌, inl, inr, refl, sym, ap, subst, ◌∙◌, true, false, some, List, [],
  ◌∷◌, ◌++◌, map, arith, ◌==◌, if◌then◌else◌, length, Bool-cases, eq→==,
}
use inkfuse.Algebra.Repipe.{occurs}
use inkfuse.Codegen.{
  Context, State, Task, request, consume, service, num_source_ius, provider, requested_for_filters,
  generates_in_consume, ready,
}
use inkfuse.Codegen.Steps.{
  Reaches, Reaches-trans, Reaches-step, served, step-consume, coded, step-consume_coded,
  step-service_coded,
}
use inkfuse.Codegen.Orderly.{times, IsOrderly, Asks, AreMet, AreAnswered}
use inkfuse.Codegen.Progress.{
  by_scope, IsGood, bumped, IsGood-served, Progresses, Progresses-trans, Progresses-le, AllCounted,
  AllCounted-grows,
}
use inkfuse.Codegen.Requests.{Serves, Served-Counted}

module _ (c : Context) (size : ℕ) (o : IsOrderly c size) where
  by_scope-le :
      (code : List ℕ) (r : ℕ)
      → by_scope c size o code r ≤ times r (requested_for_filters c (o.owner r))
  by_scope-le code r = elim (Bool-cases (occurs (o.owner r) code)) [
    | inl e ↦ rw e (omega arith)
    | inr e ↦ rw e (omega arith)
  ]

  -- All requests were counted, and the code of `i` stands.
  pub record OwnServed (i : ℕ) (ius : List ℕ) (rest : List Task) (s : State) (h : ℕ → ℕ)
      : Type 0 where
    pub after : State
    pub counted : List ℕ
    pub reaches :
        Reaches c
          (map (request i) ius ++ rest)
          s
          (ready c i ++ (map service counted ++ rest))
          (coded c i after)
    pub progresses : Progresses c size o s after i
    pub answered : AreAnswered c after.code i ius
    pub own : ℕ → ℕ
    pub own_same : (k : ℕ) → k ≢ i → own k ≡ h k
    pub good : IsGood c size o after own i
    pub all_counted : AllCounted c size o (i ∷ after.code) counted

  occurs-behind : (i j : ℕ) (code : List ℕ) → occurs j code ≡ true → occurs j (i ∷ code) ≡ true
  unfolding occurs
  occurs-behind i j code e = ground (arith, e)

  -- A scope that `i` depends on has code, or is still to be asked.
  abbrev pub HasOwner : ℕ → List ℕ → List ℕ → Type 0
  HasOwner i code ius =
      (times i (requested_for_filters c (o.owner i)) ≡ 0)
      ⊎ ((occurs (o.owner i) code ≡ true) ⊎ Asks c (o.owner i) i ius)

  asked_now :
      (i iu q : ℕ) (ius : List ℕ) (s s' : State)
      → provider c i iu ≡ some q
      → occurs q s'.code ≡ true
      → Progresses c size o s s' i
      → HasOwner i s.code (iu ∷ ius)
      → HasOwner i s'.code ius
  asked_now i iu q ius s s' e has_code p (inl none_) = inl none_
  asked_now i iu q ius s s' e has_code p (inr (inl there)) = inr (inl (p.grows (o.owner i) there))
  asked_now i iu q ius s s' e has_code p (inr (inr (inl e'))) =
      let both : some q ≡ some (o.owner i) = sym e ∙ e' in
      let same : q ≡ o.owner i = cc both in
      inr (inl (subst (λ k. occurs k s'.code ≡ true) same has_code))
  asked_now i iu q ius s s' e has_code p (inr (inr (inr a))) = inr (inr a)

  -- After the last request all that a scope asks for is there.
  by_scope-all :
      (i : ℕ) (code : List ℕ)
      → HasOwner i code []
      → by_scope c size o code i ≡ times i (requested_for_filters c (o.owner i))
  by_scope-all i code (inl none_) = elim (Bool-cases (occurs (o.owner i) code)) [
    | inl e ↦ rw e refl
    | inr e ↦ rw e (sym none_)
  ]
  by_scope-all i code (inr (inl e)) = rw e refl
  by_scope-all i code (inr (inr a)) = absurd a

  pub own_served :
      (i iu : ℕ) (ius : List ℕ) (rest : List Task) (s : State) (h : ℕ → ℕ)
      → Serves c size o i
      → i < size
      → occurs i s.code ≡ false
      → generates_in_consume c i ≡ false
      → AreMet c i i (iu ∷ ius)
      → h i + length (iu ∷ ius) + times i (requested_for_filters c (o.owner i)) ≡ num_source_ius c i
      → HasOwner i s.code (iu ∷ ius)
      → IsGood c size o s h i
      → OwnServed i (iu ∷ ius) rest s h
  own_served i iu [] rest s h serves b n plain ((q, e, l, not_sink, asked), _) all own g =
      let v = serves q i iu rest s h i l l (omega (arith, l, b)) e not_sink asked g in
      let s₁ = v.after in
      let s₂ = served c i s₁ in
      let tail = map service v.counted ++ rest in
      let p = Progresses-le c size o s s₁ (q + 1) i (omega (arith, l)) v.progresses in
      let n₁ : occurs i s₁.code ≡ false = p.code_same i (omega arith) ∙ n in
      let own₁ : HasOwner i s₁.code [] = asked_now i iu q [] s s₁ e v.has_code p own in
      let full = by_scope-all i s₁.code own₁ in
      let k = v.good.counts i b n₁ in
      let last : s₁.serviced_requests i + 1 ≡ num_source_ius c i = omega (arith, k, full, all) in
      let one =
        Reaches-step c (consume i iu) (service i ∷ tail) [] s₁ s₁ (step-consume c i iu s₁ plain) in
      let two =
        Reaches-step c (service i) tail (ready c i) s₁ (coded c i s₂)
          (step-service_coded c i s₁ last (o.vectorized i b) plain) in
      record {
        after = s₂;
        counted = v.counted;
        reaches =
            Reaches-trans c (request i iu ∷ rest) (consume i iu ∷ service i ∷ tail)
              (ready c i ++ tail) s s₁ (coded c i s₂) v.reaches
              (Reaches-trans c (consume i iu ∷ service i ∷ tail) (service i ∷ tail)
                (ready c i ++ tail) s₁ s₁ (coded c i s₂) one two);
        progresses = Progresses-trans c size o s s₁ s₂ i p (record {
          grows = λ j e. e;
          code_same = λ k l. refl;
          requests_same = λ k l. refl;
          tops_same = λ j e. refl;
        });
        answered = ((q, e, v.has_code), tt);
        own = bumped c size o i h;
        own_same = λ k out. let e : (i == k) ≡ false = ground (arith, out) in rw e (omega arith);
        good =
            IsGood-served c size o s₁ h i i (omega arith)
              (λ low some_ gone.
                let zero_ : by_scope c size o s₁.code i ≡ 0 =
                  ap (λ b. if b then times i (requested_for_filters c (o.owner i)) else 0) gone in
                absurd (omega (arith, zero_, full, some_)))
              v.good;
        all_counted =
            AllCounted-grows c size o s₁.code (i ∷ s₁.code) v.counted
              (λ j e. occurs-behind i j s₁.code e) v.all_counted;
      }
  own_served i iu (iu' ∷ ius) rest s h serves b n plain ((q, e, l, not_sink, asked), met) all own
        g =
      let others = map (request i) (iu' ∷ ius) ++ rest in
      let v = serves q i iu others s h i l l (omega (arith, l, b)) e not_sink asked g in
      let k =
        Served-Counted c size o q i iu others s h i (omega arith) l b n plain
          (λ low some_. omega (arith, all))
          (λ code same stop. omega (arith, by_scope-le code i, all, stop)) v in
      let s₁ = k.after in
      let p = Progresses-le c size o s s₁ (q + 1) i (omega (arith, l)) k.progresses in
      let here : (i == i) ≡ true = eq→== i i refl in
      let one : bumped c size o i h i ≡ 1 + h i = rw here refl in
      let more =
        own_served i iu' ius rest s₁ (bumped c size o i h) serves b
          (p.code_same i (omega arith) ∙ n) plain met (omega (arith, all, one))
          (asked_now i iu q (iu' ∷ ius) s s₁ e k.has_code p own) k.good in
      record {
        after = more.after;
        counted = more.counted;
        reaches =
            Reaches-trans c (request i iu ∷ others) others
              (ready c i ++ (map service more.counted ++ rest)) s s₁ (coded c i more.after)
              k.reaches more.reaches;
        progresses = Progresses-trans c size o s s₁ more.after i p more.progresses;
        answered = ((q, e, more.progresses.grows q k.has_code), more.answered);
        own = more.own;
        own_same = λ k out.
            let e : (i == k) ≡ false = ground (arith, out) in
            more.own_same k out ∙ rw e (omega arith);
        good = more.good;
        all_counted = more.all_counted;
      }

  -- Code is generated in `consume`.
  pub own_consumed :
      (i iu : ℕ) (rest : List Task) (s : State) (h : ℕ → ℕ)
      → Serves c size o i
      → i < size
      → occurs i s.code ≡ false
      → generates_in_consume c i ≡ true
      → AreMet c i i (iu ∷ [])
      → IsGood c size o s h i
      → OwnServed i (iu ∷ []) rest s h
  unfolding occurs
  own_consumed i iu rest s h serves b n in_consume ((q, e, l, not_sink, asked), _) g =
      let v = serves q i iu rest s h i l l (omega (arith, l, b)) e not_sink asked g in
      let s₁ = v.after in
      let tail = map service v.counted ++ rest in
      let one =
        Reaches-step c (consume i iu) (service i ∷ tail) (ready c i) s₁ (coded c i s₁)
          (step-consume_coded c i iu s₁ in_consume) in
      let here : (i == i) ≡ true = eq→== i i refl in
      record {
        after = s₁;
        counted = i ∷ v.counted;
        reaches =
            Reaches-trans c (request i iu ∷ rest) (consume i iu ∷ service i ∷ tail)
              (ready c i ++ (service i ∷ tail)) s s₁ (coded c i s₁) v.reaches one;
        progresses = Progresses-le c size o s s₁ (q + 1) i (omega (arith, l)) v.progresses;
        answered = ((q, e, v.has_code), tt);
        own = h;
        own_same = λ k out. refl;
        good = v.good;
        all_counted = (
          b,
          rw here refl,
          in_consume,
          AllCounted-grows c size o s₁.code (i ∷ s₁.code) v.counted
              (λ j e. occurs-behind i j s₁.code e) v.all_counted,
        );
      }
