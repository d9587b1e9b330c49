-- ===== src/Runtime/DirectLookup/Map.antt =====
-- runtime/HashTables.cpp: `HashTableDirectLookup` as a map from two bytes to rows.
use inkfuse.Base.{
  ℕ, ◌+◌, ◌*◌, ◌/◌, ◌%◌, ◌^◌, ◌<◌, ◌≡◌, refl, sym, ap, subst, ◌∙◌, fun_ext, ◌≢◌, inl, inr, Bool,
  true, false, none, some, [], ◌∷◌, arith, ◌==◌, ==→eq, eq→==, if◌then◌else◌, Bool-cases, update,
  count_below, count_below-add, count_below-none,
}
use inkfuse.Runtime.Run.{ok}
use inkfuse.Runtime.Comparator.{copy_bytes}
use inkfuse.Runtime.DirectLookup.{
  Direct, TwoBytes, read_index, index_bytes, new_direct, lookup_direct, insert_direct, start_direct,
  size_direct, capacity_direct,
}
use inkfuse.Runtime.DirectLookup.Iterate.{next_slot, no_slot, direct_visits_tagged}

-- The count is the number of tagged slots.
pub IsCounted : Direct → Type 0
IsCounted t = t.num_inserted ≡ count_below capacity_direct t.tags

-- A lookup or insertion of `key` led from `t` to the slot `idx` and the table `u`.
pub record Holds (t : Direct) (key : TwoBytes) (idx : ℕ) (u : Direct) : Type 0 where
  pub found : lookup_direct u key ≡ some idx
  pub counted : IsCounted u
  pub written : u.rows idx ≡ copy_bytes 2 (key.0 ∷ key.1 ∷ []) (t.rows idx)
  pub others :
      (k : TwoBytes)
      → read_index k ≢ idx
      → (lookup_direct u k ≡ lookup_direct t k) × (u.rows (read_index k) ≡ t.rows (read_index k))
  pub size : size_direct u ≡ (if t.tags idx then size_direct t else size_direct t + 1)

index_bytes-read_index :
    (low high : ℕ) → low < 2 ^ 8 → index_bytes (read_index (low, high)) ≡ low ∷ high ∷ []
unfolding index_bytes read_index
index_bytes-read_index low high l =
    let first : (low + 2 ^ 8 * high) % 2 ^ 8 ≡ low = omega arith in
    let second : (low + 2 ^ 8 * high) / 2 ^ 8 ≡ high = omega arith in rw (first, second) refl

index-lt : (low high : ℕ) → low < 2 ^ 8 → high < 2 ^ 8 → read_index (low, high) < capacity_direct
unfolding read_index
index-lt low high l h = omega arith

update-here : (tags : ℕ → Bool) (idx : ℕ) → update tags idx true idx ≡ true
update-here tags idx = rw (eq→== idx idx refl) refl

update-apart {ℓ} :
    {A : Type ℓ} (f : ℕ → A) (idx : ℕ) (v : A) (j : ℕ) → j ≢ idx → update f idx v j ≡ f j
update-apart f idx v j apart = elim (Bool-cases (j == idx)) [
  | inl here ↦ absurd (apart (==→eq j idx here))
  | inr other ↦ rw other refl
]

same_count :
    (n : ℕ) (tags : ℕ → Bool) (idx : ℕ)
    → tags idx ≡ true
    → (j : ℕ) → update tags idx true j ≡ tags j
same_count n tags idx full j = elim (Bool-cases (j == idx)) [
  | inl here ↦ rw here (sym (subst (λ y. tags y ≡ true) (sym (==→eq j idx here)) full))
  | inr other ↦ rw other refl
]

counted_after :
    (tags : ℕ → Bool) (n m idx : ℕ)
    → idx < n
    → m ≡ count_below n tags
    → (if tags idx then m else m + 1) ≡ count_below n (update tags idx true)
counted_after tags n m idx l c = elim (Bool-cases (tags idx)) [
  | inl full ↦ rw full (c ∙ ap (count_below n) (sym (fun_ext (same_count n tags idx full))))
  | inr empty ↦
      let more =
        count_below-add n tags (update tags idx true) idx l empty (update-here tags idx)
          (λ j apart. sym (update-apart tags idx true j apart)) in
      rw empty (omega (arith, c, more))
]

-- `lookupOrInsert` of two bytes, on a table whose count is that of its tagged slots, returns the
-- slot that `lookup` of them finds from then on, which starts with these bytes and keeps the rest
-- of its row. It changes no other key's slot or row, and it counts one row more if and only if the
-- slot had no tag.
pub insert_direct-Holds :
    (t : Direct) (low high : ℕ)
    → low < 2 ^ 8
    → high < 2 ^ 8
    → IsCounted t
    → (idx : ℕ) × (u : Direct) × (insert_direct t (low, high) ≡ (idx, u))
      × Holds t (low, high) idx u
unfolding insert_direct lookup_direct size_direct IsCounted
insert_direct-Holds t low high l h c =
    let idx = read_index (low, high) in
    let inside : idx < capacity_direct = index-lt low high l h in
    (
      idx,
      (insert_direct t (low, high)).1,
      refl,
      record {
        found = rw (update-here t.tags idx) refl;
        counted = counted_after t.tags capacity_direct t.num_inserted idx inside c;
        written = rw (eq→== idx idx refl, index_bytes-read_index low high l) refl;
        others = λ k apart. (
          rw (update-apart t.tags idx true (read_index k) apart) refl,
          update-apart t.rows idx _ (read_index k) apart,
        );
        size = refl;
      },
    )

-- A new table is empty: every lookup fails, `size` is 0 and counts the tags, and the iterator is
-- null at once.
pub new_direct_lem :
    (payload_size : ℕ)
    → IsCounted (new_direct payload_size)
      × (size_direct (new_direct payload_size) ≡ 0)
      × ((key : TwoBytes) → lookup_direct (new_direct payload_size) key ≡ none)
      × (start_direct (new_direct payload_size) ≡ ok (none, capacity_direct))
unfolding new_direct IsCounted size_direct lookup_direct
new_direct_lem p =
    (sym (count_below-none capacity_direct (λ _. false) (λ i. refl)), refl, λ key. refl, nothing)
  where
    nothing : start_direct (new_direct p) ≡ ok (none, capacity_direct)
    nothing =
        let ((it, r, a), _) = direct_visits_tagged (new_direct p) in
        elim a [ next_slot i e f q t b ↦ absurd (cc) | no_slot e b ↦ r ∙ ap ok e ]
