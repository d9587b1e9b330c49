-- ===== src/Runtime/StringKey/Refine.antt =====
-- runtime/HashTables.cpp: `HashTableComplexKey` does what `HashTableSimpleKey` does on rows whose
-- key is the string behind their pointer.
use inkfuse.Base.{
  ℕ, zero, suc, ◌+◌, ◌*◌, ◌≡◌, refl, ap, subst, ◌∙◌, fun_ext, ◌⊎◌, inl, inr, false, not, ◌||◌, none,
  some, ltb, ◌==◌, if◌then◌else◌, Bool-cases, update, bit_and, ◌-◌,
}
use inkfuse.Runtime.Run.{Run, ok, throws, diverges, ◌>>=◌}
use inkfuse.Runtime.Tags.{is_filled, is_filled-zero}
use inkfuse.Runtime.Probe.{probe}
use inkfuse.Runtime.Comparator.{Comparator, Row, complex_key_of, complex_key_of-copy, eq, hash}
use inkfuse.Runtime.SimpleKey.{
  State, Thread, new_state, home, stops, find_slot_or_empty, find_first_empty_slot, lookup,
  lookup_or_insert, reserve_slot, move_slot, move_slots, fill_slot,
}
use inkfuse.Runtime.StringKey.{
  indirection, stops_string, find_string, lookup_string, move_string, move_strings,
  reserve_string_slot, lookup_or_insert_string, find_empty_for_string,
}

-- The comparator of a table whose key is one string.
abbrev pub string_keys : (ℕ → Row) → Comparator
string_keys strings = record {
  key_of = complex_key_of strings;
  key_size = 8;
  key_of-copy = complex_key_of-copy strings;
}

-- A slot in use has a pointer that is not null.
unfoldable pub HasPointers : State → Type 0
HasPointers s = (i : ℕ) → (is_filled (s.tags i) ≡ false) ⊎ ((indirection (s.rows i) == 0) ≡ false)

Run-cases {ℓ} : {A : Type ℓ} (r : Run A) → ((a : A) × (r ≡ ok a)) ⊎ ((r ≡ throws) ⊎ (r ≡ diverges))
Run-cases (ok a) = inl (a, refl)
Run-cases throws = inr (inl refl)
Run-cases diverges = inr (inr refl)

of_ok {ℓ} : {A : Type ℓ} {a b : A} → ok a ≡ ok b → a ≡ b
of_ok h = cc

-- A slot that gets a tag and a row that may stand together.
update-HasPointers :
    (s : State) (slot tag n : ℕ) (row : Row)
    → HasPointers s
    → (is_filled tag ≡ false) ⊎ ((indirection row == 0) ≡ false)
    → HasPointers
        (record s { tags = update s.tags slot tag; rows = update s.rows slot row; inserted = n })
unfolding HasPointers
update-HasPointers s slot tag n row p new i = elim (Bool-cases (i == slot)) [
  | inl here ↦ rw here new
  | inr apart ↦ rw apart (p i)
]

module _ (xxh3 : Row → ℕ) (strings : ℕ → Row) where
  stops_string-stops :
      (s : State) (h : ℕ) (key : Row) (i : ℕ)
      → HasPointers s
      → stops_string xxh3 strings s h (strings (indirection key)) i
        ≡ stops xxh3 (string_keys strings) s h key i
  unfolding stops_string stops eq complex_key_of indirection HasPointers
  stops_string-stops s h key i p = elim (p i) [
    | inl empty ↦ rw empty refl
    | inr there ↦ rw there refl
  ]

  -- `lookup` of the string table is that of the table with the comparator.
  pub lookup_string-lookup :
      (s : State) (key : Row)
      → HasPointers s
      → lookup_string xxh3 strings s key ≡ lookup xxh3 (string_keys strings) s key
  unfolding lookup_string lookup find_string find_slot_or_empty hash complex_key_of indirection
  lookup_string-lookup s key p =
      let h = xxh3 (strings (indirection key)) in
      ap
        (λ stop.
          probe stop s.mod_mask (s.mod_mask + 1) (home s h)
          >>= (λ slot. ok (if is_filled (s.tags slot) then some slot else none)))
        (fun_ext (λ i. stops_string-stops s h key i p))

  reserve_string_slot-reserve_slot :
      (t : Thread) → reserve_string_slot xxh3 strings t ≡ reserve_slot xxh3 (string_keys strings) t
  unfolding reserve_string_slot reserve_slot move_string move_strings move_slot move_slots
      find_empty_for_string find_first_empty_slot hash complex_key_of indirection
  reserve_string_slot-reserve_slot t = refl

  move_slot-HasPointers :
      (old s s' : State) (idx : ℕ)
      → HasPointers old
      → HasPointers s
      → move_slot xxh3 (string_keys strings) old idx s ≡ ok s'
      → HasPointers s'
  unfolding move_slot HasPointers
  move_slot-HasPointers old s s' idx po p e = elim (Bool-cases (old.tags idx == 0)) [
    | inl empty ↦ let same : ok s ≡ ok s' = (rw empty at e) in subst HasPointers (of_ok same) p
    | inr used ↦
        let e' = (rw used at e) in
        elim (Run-cases
          (find_first_empty_slot s (hash xxh3 (string_keys strings) (old.rows idx)))) [
            | inl (slot, r) ↦
                let moved = (rw (r, ◌>>=◌) at e') in
                subst HasPointers (of_ok moved)
                  (update-HasPointers s slot (old.tags idx) s.inserted (old.rows idx) p (po idx))
            | inr (inl r) ↦ let bad = (rw (r, ◌>>=◌) at e') in cc
            | inr (inr r) ↦ let bad = (rw (r, ◌>>=◌) at e') in cc
          ]
  ]

  move_slots-HasPointers :
      (old : State) (rounds idx : ℕ) (s s' : State)
      → HasPointers old
      → HasPointers s
      → move_slots xxh3 (string_keys strings) old rounds idx s ≡ ok s'
      → HasPointers s'
  unfolding move_slots
  move_slots-HasPointers old zero idx s s' po p e = subst HasPointers (of_ok e) p
  move_slots-HasPointers old (suc rounds) idx s s' po p e =
      elim (Run-cases (move_slot xxh3 (string_keys strings) old idx s)) [
        | inl (s₁, r) ↦
            move_slots-HasPointers old rounds (idx + 1) s₁ s' po
              (move_slot-HasPointers old s s₁ idx po p r) (rw (r, ◌>>=◌) at e)
        | inr (inl r) ↦ let bad = (rw (r, ◌>>=◌) at e) in cc
        | inr (inr r) ↦ let bad = (rw (r, ◌>>=◌) at e) in cc
      ]

  new_state-HasPointers :
      (total slots : ℕ) (s : State) → new_state total slots ≡ ok s → HasPointers s
  unfolding new_state HasPointers
  new_state-HasPointers total slots s e i =
      elim (Bool-cases (ltb slots 2 || not (bit_and slots (slots - 1) == 0))) [
        | inl bad ↦ let no = (rw bad at e) in cc
        | inr good ↦
            let made = (rw good at e) in
            let tags : 0 ≡ s.tags i = ap (λ (u : State). u.tags i) (of_ok made) in
            inl (subst (λ tag. is_filled tag ≡ false) tags is_filled-zero)
      ]

  reserve_slot-HasPointers :
      (t r : Thread)
      → HasPointers t.state
      → reserve_slot xxh3 (string_keys strings) t ≡ ok r
      → HasPointers r.state
  unfolding reserve_slot HasPointers
  reserve_slot-HasPointers t r p e = elim (Bool-cases (ltb t.state.inserted t.state.max_fill)) [
    | inl room ↦
        let same = (rw room at e) in subst (λ (u : Thread). HasPointers u.state) (of_ok same) p
    | inr full ↦
        let e₁ = (rw full at e) in
        elim (Run-cases (new_state t.state.total_slot_size (2 * (t.state.mod_mask + 1)))) [
          | inr (inl f) ↦ let bad = (rw (f, ◌>>=◌) at e₁) in cc
          | inr (inr f) ↦ let bad = (rw (f, ◌>>=◌) at e₁) in cc
          | inl (new, n) ↦
              let e₂ = (rw (n, ◌>>=◌) at e₁) in
              elim (Run-cases
                (move_slots xxh3 (string_keys strings) t.state (t.state.mod_mask + 1) 0 new)) [
                  | inr (inl f) ↦ let bad = (rw (f, ◌>>=◌) at e₂) in cc
                  | inr (inr f) ↦ let bad = (rw (f, ◌>>=◌) at e₂) in cc
                  | inl (moved, m) ↦
                      let e₃ = (rw (m, ◌>>=◌) at e₂) in
                      let kept =
                        move_slots-HasPointers t.state (t.state.mod_mask + 1) 0 new moved p
                          (new_state-HasPointers t.state.total_slot_size
                            (2 * (t.state.mod_mask + 1)) new n)
                          m in
                      subst (λ (u : Thread). HasPointers u.state) (of_ok e₃) kept
                ]
        ]
  ]

  -- On a table whose slots in use have pointers, the string table does what the table with memcmp
  -- keys does for a comparator that reads the string behind the pointer: `lookup` and
  -- `lookupOrInsert` end alike, in the same slot and the same state.
  pub string_table_refines :
      (t : Thread) (key : Row)
      → HasPointers t.state
      → (lookup_string xxh3 strings t.state key ≡ lookup xxh3 (string_keys strings) t.state key)
        × (lookup_or_insert_string xxh3 strings t key
            ≡ lookup_or_insert xxh3 (string_keys strings) t key)
  unfolding lookup_or_insert_string lookup_or_insert fill_slot find_string find_slot_or_empty hash
      complex_key_of indirection
  string_table_refines t key p = (
    lookup_string-lookup t.state key p,
    elim (Run-cases (reserve_slot xxh3 (string_keys strings) t)) [
      | inl (r, e) ↦
          let p' = reserve_slot-HasPointers t r p e in
          let e' = reserve_string_slot-reserve_slot t ∙ e in
          let h = xxh3 (strings (indirection key)) in
          let same = fun_ext (λ i. stops_string-stops r.state h key i p') in
          rw (e, e', ◌>>=◌, same) refl
      | inr (inl e) ↦ let e' = reserve_string_slot-reserve_slot t ∙ e in rw (e, e', ◌>>=◌) refl
      | inr (inr e) ↦ let e' = reserve_string_slot-reserve_slot t ∙ e in rw (e, e', ◌>>=◌) refl
    ],
  )
