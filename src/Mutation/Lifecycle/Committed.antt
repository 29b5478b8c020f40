-- ===== src/Mutation/Lifecycle/Committed.antt =====
-- src/db/repositories/content_mutations.py: a commit keeps the invariant, and under it is never
-- refused for its revision.
use discord_fediverse_bridge.Base.{
  ℕ, ◌≡◌, ◌≢◌, ◌⊎◌, refl, sym, ◌∙◌, String, true, Option, none, some, List, In, arith, ◌==◌, ◌!=◌,
  nat_eq, string_eq, option_eq, subst, inl, inr, Bool-cases, Option-cases, find, Result, ok,
  bind-ok,
}
use discord_fediverse_bridge.Base.Distinct.{Distinct-Rows}
use discord_fediverse_bridge.Base.Table.{Rows-update_where, update_where, In-of_update, get}
use discord_fediverse_bridge.Delivery.{source_kind_eq, Store}
use discord_fediverse_bridge.Mutation.{
  Published, Mutation, MutationStore, Library, is_active, canonical_ready, mutation_state_eq,
}
use discord_fediverse_bridge.Mutation.Reports.{owns}
use discord_fediverse_bridge.Mutation.Commit.{
  apply_canonical, finish, commit, commit_canonical, source_for, committed_store,
}
use discord_fediverse_bridge.Mutation.Lifecycle.{IsConsistent}
use discord_fediverse_bridge.Mutation.Lifecycle.Rows.{Ages, IsConsistent-update}

apply_canonical-id : (now : ℕ) (m : Mutation) (p : Published) → (apply_canonical now m p).id ≡ p.id
unfolding apply_canonical
apply_canonical-id now m p = ground arith

finish-Ages : (m : Mutation) → Ages m (finish m)
finish-Ages m = record {
  same_id = refl;
  same_object = refl;
  same_expected = refl;
  same_next = refl;
  active = λ h. cc;
}

module _ (now : ℕ) (s : MutationStore) (m : Mutation) (p : Published) (stored : In m s.mutations)
    (is_ready : is_active m.state ≡ true) (of_p : p.id ≡ m.published_object_id)
    (c : IsConsistent s) where
  finished :
      IsConsistent
        (record s { mutations = update_where (λ (n : Mutation). n.id == m.id) finish s.mutations })
  finished =
      IsConsistent-update s (λ (n : Mutation). n.id == m.id) finish (λ n i e. finish-Ages n) c

  -- the other open reservations are of other objects
  elsewhere :
      (x : Mutation)
      → In x (update_where (λ (n : Mutation). n.id == m.id) finish s.mutations)
      → is_active x.state ≡ true
      → x.published_object_id ≢ p.id
  elsewhere x hx ax e =
      let (y, hy, h) = In-of_update (λ (n : Mutation). n.id == m.id) finish s.mutations x hx in
      elim h [
        | inl (same, x_is) ↦ ground arith
        | inr (other, x_is) ↦ ground (arith, c.single y m hy stored)
      ]

  pub IsConsistent-commit :
      (t : MutationStore)
      → t.published
        ≡ update_where (λ (q : Published). q.id == p.id) (apply_canonical now m) s.published
      → t.mutations ≡ update_where (λ (n : Mutation). n.id == m.id) finish s.mutations
      → IsConsistent t
  IsConsistent-commit t ps ms =
      subst (λ (l : List Published). IsConsistent (record t { published = l })) (sym ps)
        (subst
          (λ (l : List Mutation). IsConsistent (record t {
            published =
                update_where (λ (q : Published). q.id == p.id) (apply_canonical now m) s.published;
            mutations = l;
          }))
          (sym ms)
          (record {
            published_keys =
                Distinct-Rows (λ (q : Published). q.id) (λ q r. r.id ≡ q.id) (λ q r h. h)
                  s.published _
                  (Rows-update_where (λ q r. r.id ≡ q.id) (λ (q : Published). q.id == p.id)
                    (apply_canonical now m) s.published (λ q. refl)
                    (λ q i e. apply_canonical-id now m q))
                  c.published_keys;
            mutation_keys = finished.mutation_keys;
            single = finished.single;
            current = λ x q hx hq ax e.
                let (r, hr, h) =
                  In-of_update (λ (q : Published). q.id == p.id) (apply_canonical now m) s.published
                    q hq in
                elim h [
                  | inl (same, q_is) ↦
                      absurd (elsewhere x hx ax (ground (arith, apply_canonical-id now m r)))
                  | inr (other, q_is) ↦
                      finished.current x q hx (subst (λ z. In z s.published) (sym q_is) hr) ax e
                ];
            successor = finished.successor;
          }))

-- what `commit_canonical` may give: nothing, or a commit of the reservation that the claim owns
pub commit_canonical-cases :
    (lib : Library) (now id : ℕ) (token activity_json : String) (s : MutationStore)
    (r : Option (ℕ × String)) (t : MutationStore)
    → commit_canonical lib now id token activity_json s ≡ ok (r, t)
    → (t ≡ s)
      ⊎ ((m : Mutation) × (p : Published) × (find (owns canonical_ready id token) s.mutations
            ≡ some m)
          × (get (λ (p : Published). p.id) m.published_object_id s.published ≡ some p)
          × (p.content_revision ≡ m.expected_revision)
          × (commit lib now activity_json m p s ≡ ok (r, t)))
unfolding commit_canonical
commit_canonical-cases lib now id token activity_json s r t e =
    elim (Option-cases (find (owns canonical_ready id token) s.mutations)) [
      | inl gone ↦
          let same : commit_canonical lib now id token activity_json s ≡ ok (none, s) =
            rw (commit_canonical, gone) refl in
          let both : ◌≡◌ {A = Result (Option (ℕ × String) × MutationStore)} (ok (none, s))
              (ok (r, t)) =
            sym same ∙ e in
          inl cc
      | inr (m, held) ↦
          elim (Option-cases (get (λ (p : Published). p.id) m.published_object_id s.published)) [
            | inl lost ↦
                let same : commit_canonical lib now id token activity_json s ≡ ok (none, s) =
                  rw (commit_canonical, held) rw lost refl in
                let both : ◌≡◌ {A = Result (Option (ℕ × String) × MutationStore)} (ok (none, s))
                    (ok (r, t)) =
                  sym same ∙ e in
                inl cc
            | inr (p, at_id) ↦ elim (Bool-cases (p.content_revision != m.expected_revision)) [
              | inl other ↦
                  let same : commit_canonical lib now id token activity_json s ≡ ok (none, s) =
                    rw (commit_canonical, held) rw at_id rw other refl in
                  let both : ◌≡◌ {A = Result (Option (ℕ × String) × MutationStore)} (ok (none, s))
                      (ok (r, t)) =
                    sym same ∙ e in
                  inl cc
              | inr current ↦
                  let same : commit_canonical lib now id token activity_json s
                      ≡ commit lib now activity_json m p s =
                    rw (commit_canonical, held) rw at_id rw current refl in
                  inr (m, p, held, at_id, ground arith, sym same ∙ e)
            ]
          ]
    ]

pub commit-ok :
    (lib : Library) (now : ℕ) (activity_json : String) (m : Mutation) (p : Published)
    (s : MutationStore) (r : Option (ℕ × String)) (t : MutationStore)
    → commit lib now activity_json m p s ≡ ok (r, t)
    → (outbound : Store) × (t ≡ committed_store now m p outbound s)
unfolding commit
commit-ok lib now activity_json m p s r t e =
    let (made, inserted, result) =
      bind-ok (source_for lib activity_json m p s)
        (λ made. ok (some (made.0.id, p.object_id), committed_store now m p made.1 s)) (r, t) e in
    (made.1, cc)
