-- ===== src/Codegen/Steps.antt =====
-- algebra/CompilationContext.cpp: single calls, and what is taken for granted of a pipeline.
use inkfuse.Base.{
  ℕ, zero, suc, ◌+◌, ◌≡◌, ◌≢◌, inl, inr, refl, ap, ◌∙◌, true, false, none, some, List, [], ◌∷◌,
  ◌++◌, arith, ◌==◌, if◌then◌else◌, update, Bool-cases,
}
use inkfuse.Runtime.Run.{ok, throws, ◌>>=◌}
use inkfuse.Codegen.{
  Context, State, Task, open_, notify, request, consume, service, num_source_ius, provider,
  lacks_filters, generates_in_open, generates_in_consume, producing_no_request, ready, generate,
  open_requests, step, run,
}

pub more : ℕ → ℕ → ℕ
more zero n = n
more (suc k) n = suc (more k n)

more_assoc : (k l n : ℕ) → more (more k l) n ≡ more k (more l n)
unfolding more
more_assoc zero l n = refl
more_assoc (suc k) l n = ap suc (more_assoc k l n)

module _ (c : Context) where
  -- From one list of calls and state to another, in some number of calls.
  abbrev pub Reaches : List Task → State → List Task → State → Type 0
  Reaches ts s us s' = (n : ℕ) × ((fuel : ℕ) → run c (more n fuel) ts s ≡ run c fuel us s')

  pub Reaches-refl : (ts : List Task) (s : State) → Reaches ts s ts s
  unfolding more
  Reaches-refl ts s = (0, λ fuel. refl)

  pub Reaches-trans :
      (ts us vs : List Task) (s s' s'' : State)
      → Reaches ts s us s'
      → Reaches us s' vs s''
      → Reaches ts s vs s''
  Reaches-trans ts us vs s s' s'' (n, f) (m, g) =
      (more n m, λ fuel. ap (λ k. run c k ts s) (more_assoc n m fuel) ∙ f (more m fuel) ∙ g fuel)

  pub Reaches-step :
      (t : Task) (ts new : List Task) (s s' : State)
      → step c t s ≡ ok (new, s')
      → Reaches (t ∷ ts) s (new ++ ts) s'
  unfolding run more
  Reaches-step t ts new s s' e = (1, λ fuel. rw (e, ◌>>=◌) refl)

  pub Reaches-run :
      (ts : List Task) (s s' : State) → Reaches ts s [] s' → (fuel : ℕ) × (run c fuel ts s ≡ ok s')
  unfolding run
  Reaches-run ts s s' (n, f) = (more n 1, f 1)

  -- The state in which the code of a suboperator stands.
  abbrev pub coded : ℕ → State → State
  coded i s = record s { code = i ∷ s.code }

  pub step-open_source :
      (i : ℕ) (s : State)
      → lacks_filters c i ≡ false
      → generates_in_open c i ≡ true
      → step c (open_ i) s ≡ ok (ready c i, coded i s)
  unfolding step generate
  step-open_source i s f e = rw (f, e) refl

  pub step-open_requests :
      (i : ℕ) (s : State)
      → lacks_filters c i ≡ false
      → generates_in_open c i ≡ false
      → step c (open_ i) s ≡ ok (open_requests c i, s)
  unfolding step
  step-open_requests i s f e = rw (f, e) refl

  -- The state in which a request has been noted.
  abbrev pub noted : ℕ → ℕ → ℕ → State → State
  noted q op iu s = record s {
    upstream_requests = update s.upstream_requests q (s.upstream_requests q + 1);
    requests = update s.requests q (some (op, iu));
  }

  pub step-request :
      (op iu q : ℕ) (s : State)
      → provider c op iu ≡ some q
      → step c (request op iu) s
        ≡ ok ((if s.computed q then notify q else open_ q) ∷ [], noted q op iu s)
  unfolding step
  step-request op iu q s e =
      ap
        (λ o. elim o [
          | none ↦ throws
          | some q ↦ ok ((if s.computed q then notify q else open_ q) ∷ [], noted q op iu s)
        ])
        e

  abbrev pub marked : ℕ → State → State
  marked op s = record s { computed = update s.computed op true }

  pub step-notify_none :
      (op : ℕ) (s : State)
      → producing_no_request c op ≡ true
      → step c (notify op) s ≡ ok ([], marked op s)
  unfolding step
  step-notify_none op s e = rw e refl

  pub step-notify :
      (op r iu : ℕ) (s : State)
      → producing_no_request c op ≡ false
      → s.requests op ≡ some (r, iu)
      → step c (notify op) s
        ≡ ok (
          consume r iu ∷ service r ∷ [],
          record (marked op s) { requests = update s.requests op none },
        )
  unfolding step
  step-notify op r iu s e e' =
      let both : step c (notify op) s ≡ (elim (s.requests op) [
        | none ↦ throws
        | some (r, iu) ↦ ok (
          consume r iu ∷ service r ∷ [],
          record (marked op s) { requests = update s.requests op none },
        )
      ]) =
        rw e refl in
      both
      ∙ ap
          (λ o. elim o [
            | none ↦ throws
            | some (r, iu) ↦ ok (
              consume r iu ∷ service r ∷ [],
              record (marked op s) { requests = update s.requests op none },
            )
          ])
          e'

  pub step-consume :
      (r iu : ℕ) (s : State)
      → generates_in_consume c r ≡ false
      → step c (consume r iu) s ≡ ok ([], s)
  unfolding step
  step-consume r iu s e = rw e refl

  pub step-consume_coded :
      (r iu : ℕ) (s : State)
      → generates_in_consume c r ≡ true
      → step c (consume r iu) s ≡ ok (ready c r, coded r s)
  unfolding step generate
  step-consume_coded r iu s e = rw e refl

  abbrev pub served : ℕ → State → State
  served op s = record s {
    serviced_requests = update s.serviced_requests op (s.serviced_requests op + 1);
  }

  -- Requests are outstanding.
  pub step-service :
      (op : ℕ) (s : State)
      → s.serviced_requests op + 1 ≢ num_source_ius c op
      → step c (service op) s ≡ ok ([], served op s)
  unfolding step
  step-service op s h =
      let e : (s.serviced_requests op + 1 == num_source_ius c op) ≡ false = ground (arith, h) in
      rw e refl

  -- All requests are serviced.
  pub step-service_coded :
      (op : ℕ) (s : State)
      → s.serviced_requests op + 1 ≡ num_source_ius c op
      → c.only_vectorized op ≡ false
      → generates_in_consume c op ≡ false
      → step c (service op) s ≡ ok (ready c op, coded op (served op s))
  unfolding step generate
  step-service_coded op s h v g =
      let e : (s.serviced_requests op + 1 == num_source_ius c op) ≡ true = ground (arith, h) in
      rw (e, v, g) refl

  -- Code was generated in `consume`.
  pub step-service_code :
      (op : ℕ) (s : State)
      → c.only_vectorized op ≡ false
      → generates_in_consume c op ≡ true
      → step c (service op) s ≡ ok ([], served op s)
  unfolding step
  step-service_code op s v g =
      elim (Bool-cases (s.serviced_requests op + 1 == num_source_ius c op)) [
        | inl e ↦ rw (e, v, g) refl
        | inr e ↦ rw e refl
      ]
