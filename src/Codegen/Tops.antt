-- ===== src/Codegen/Tops.antt =====
-- algebra/CompilationContext.cpp: the sinks that `compile` collects, and how one of them is opened.
use inkfuse.Base.{
  ℕ, ◌<◌, ◌≡◌, inl, inr, refl, sym, subst, ◌∙◌, Bool, true, false, ◌||◌, List, [], ◌∷◌, ◌++◌, map,
  arith, ◌==◌, Bool-cases, ==→eq, eq→==,
}
use inkfuse.Algebra.{Subop}
use inkfuse.Algebra.Repipe.{occurs}
use inkfuse.Codegen.{
  Context, State, Task, open_, notify, service, is_sink, producing_no_request, ready, select,
}
use inkfuse.Codegen.Steps.{Reaches, Reaches-trans, Reaches-step, coded, marked, step-notify_none}
use inkfuse.Codegen.Orderly.{AllBelow, IsOrderly}
use inkfuse.Codegen.Progress.{IsGood, IsGood-Alike, is_top, AllCounted, AllCounted-Reaches}
use inkfuse.Codegen.Opening.{Opened, opened}
use inkfuse.Codegen.Serving.{serves, ready-not_sink}

abbrev pub IsDistinct : List ℕ → Type 0
IsDistinct [] = Unit
IsDistinct (x ∷ xs) = (occurs x xs ≡ false) × IsDistinct xs

occurs-append :
    (j : ℕ) (xs ys : List ℕ)
    → occurs j xs ≡ false
    → occurs j ys ≡ false
    → occurs j (xs ++ ys) ≡ false
unfolding occurs
occurs-append j [] ys a b = b
occurs-append j (x ∷ xs) ys a b = elim (Bool-cases (x == j)) [
  | inl e ↦ absurd (ground (arith, a, e))
  | inr e ↦ let a' : occurs j xs ≡ false = ground (arith, a, e) in rw e (occurs-append j xs ys a' b)
]

pub IsDistinct-append :
    (xs ys : List ℕ)
    → IsDistinct xs
    → IsDistinct ys
    → ((j : ℕ) → occurs j xs ≡ true → occurs j ys ≡ false)
    → IsDistinct (xs ++ ys)
unfolding occurs
IsDistinct-append [] ys d d' apart = d'
IsDistinct-append (x ∷ xs) ys (n, d) d' apart =
    let here : (x == x) ≡ true = eq→== x x refl in
    (
      occurs-append x xs ys n (apart x (rw here refl)),
      IsDistinct-append xs ys d d' (λ j e. apart j (ground (arith, e))),
    )

pub occurs-select :
    (p : ℕ → Bool) (ss : List Subop) (j : ℕ)
    → occurs j (select p ss) ≡ true
    → (p j ≡ true) × (occurs j (map (λ s. s.id) ss) ≡ true)
unfolding occurs select
occurs-select p [] j e = absurd cc
occurs-select p (s ∷ ss) j e = elim (Bool-cases (p s.id)) [
  | inr out ↦
      let (yes_, there) = occurs-select p ss j (rw out at e) in (yes_, ground (arith, there))
  | inl in_ ↦
      let e' : (s.id == j || occurs j (select p ss)) ≡ true = (rw in_ at e) in
      elim (Bool-cases (s.id == j)) [
        | inl here ↦ (subst (λ k. p k ≡ true) (==→eq s.id j here) in_, rw here refl)
        | inr there ↦
            let e'' : occurs j (select p ss) ≡ true = ground (arith, e', there) in
            let (yes_, found) = occurs-select p ss j e'' in (yes_, rw there found)
      ]
]

pub IsDistinct-select :
    (p : ℕ → Bool) (ss : List Subop) → IsDistinct (map (λ s. s.id) ss) → IsDistinct (select p ss)
unfolding select
IsDistinct-select p [] d = tt
IsDistinct-select p (s ∷ ss) (n, d) = elim (Bool-cases (p s.id)) [
  | inr out ↦ rw out (IsDistinct-select p ss d)
  | inl in_ ↦ rw in_ (gone, IsDistinct-select p ss d)
]
  where
    gone : occurs s.id (select p ss) ≡ false
    gone = elim (Bool-cases (occurs s.id (select p ss))) [
      | inr e ↦ e
      | inl e ↦ let (_, there) = occurs-select p ss s.id e in cc
    ]

pub AllBelow-occurs : (m j : ℕ) (xs : List ℕ) → AllBelow m xs → occurs j xs ≡ true → j < m
unfolding occurs
AllBelow-occurs m j [] a e = absurd cc
AllBelow-occurs m j (x ∷ xs) (l, a) e = elim (Bool-cases (x == j)) [
  | inl here ↦ subst (λ k. k < m) (==→eq x j here) l
  | inr there ↦ AllBelow-occurs m j xs a (ground (arith, e, there))
]

module _ (c : Context) (size : ℕ) (o : IsOrderly c size) where
  -- A sink is opened, or a suboperator without consumers.
  pub record TopOpened (i : ℕ) (rest : List Task) (s : State) : Type 0 where
    pub after : State
    pub reaches : Reaches c (open_ i ∷ rest) s rest after
    pub good : IsGood c size o after (λ _. 0) size
    pub has_code : occurs i after.code ≡ true
    pub grows : (j : ℕ) → occurs j s.code ≡ true → occurs j after.code ≡ true
    pub tops_same :
        (j : ℕ)
        → is_top c size o j ≡ true
        → (i == j) ≡ false
        → occurs j after.code ≡ occurs j s.code

  -- The calls behind the code of such a suboperator.
  Opened-TopOpened :
      (i : ℕ) (rest : List Task) (s s' : State) (w : Opened c size o i rest s (λ _. 0) size)
      → Reaches c (open_ i ∷ rest) s (map service w.counted ++ rest) s'
      → s'.code ≡ i ∷ w.after.code
      → IsGood c size o s' (λ _. 0) size
      → TopOpened i rest s
  unfolding occurs
  Opened-TopOpened i rest s s' w r e g =
      let all = subst (λ code. AllCounted c size o code w.counted) (sym e) w.all_counted in
      let (s'', r', k) = AllCounted-Reaches c size o w.counted rest s' all in
      let same = k.code_same ∙ e in
      let here : (i == i) ≡ true = eq→== i i refl in
      record {
        after = s'';
        reaches =
            Reaches-trans c (open_ i ∷ rest) (map service w.counted ++ rest) rest s s' s'' r r';
        good = IsGood-Alike c size o s' s'' (λ _. 0) size k g;
        has_code = rw (same, here) refl;
        grows = λ j e. let more = w.progresses.grows j e in rw same (ground (arith, more));
        tops_same = λ j top differ. rw (same, differ) (w.progresses.tops_same j top);
      }

  pub top_opened :
      (i : ℕ) (rest : List Task) (s : State)
      → i < size
      → is_top c size o i ≡ true
      → occurs i s.code ≡ false
      → IsGood c size o s (λ _. 0) size
      → TopOpened i rest s
  unfolding ready
  top_opened i rest s b top n g =
      let w = opened c size o i rest s (λ _. 0) size (serves c size o i) b b n g in
      let tail = map service w.counted ++ rest in
      elim (Bool-cases (is_sink c i)) [
        | inl sink ↦
            let none_ : ready c i ≡ [] = rw sink refl in
            Opened-TopOpened i rest s (coded c i w.after) w
              (subst (λ ts. Reaches c (open_ i ∷ rest) s (ts ++ tail) (coded c i w.after)) none_
                w.reaches)
              refl
              (record {
                counts = w.good.counts;
                fresh = w.good.fresh;
                bounded = w.good.bounded;
                computed_same = λ j not_sink.
                    let differ : (j == i) ≡ false = elim (Bool-cases (j == i)) [
                      | inr e ↦ e
                      | inl e ↦
                          let same : is_sink c i ≡ false =
                            subst (λ k. is_sink c k ≡ false) (==→eq j i e) not_sink in
                          absurd cc
                    ] in
                    let old : (marked c i (coded c i w.after)).computed j ≡ w.after.computed j =
                      rw differ refl in
                    sym old ∙ w.good.computed_same j not_sink;
                ordered = w.good.ordered;
              })
        | inr not_sink ↦
            let root : producing_no_request c i ≡ true = (rw not_sink at top) in
            let told : Reaches c (open_ i ∷ rest) s (notify i ∷ tail) (coded c i w.after) =
              subst (λ ts. Reaches c (open_ i ∷ rest) s (ts ++ tail) (coded c i w.after))
                (ready-not_sink c size o i not_sink) w.reaches in
            let last =
              Reaches-step c (notify i) tail [] (coded c i w.after) (marked c i (coded c i w.after))
                (step-notify_none c i (coded c i w.after) root) in
            Opened-TopOpened i rest s (marked c i (coded c i w.after)) w
              (Reaches-trans c (open_ i ∷ rest) (notify i ∷ tail) tail s (coded c i w.after)
                (marked c i (coded c i w.after)) told last)
              refl w.good
      ]
