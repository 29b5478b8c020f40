-- ===== src/Mutation/Lifecycle/Reservation.antt =====
-- src/db/repositories/content_mutations.py: a reservation is for the present revision of its object,
-- and is made only when there is no other.
use discord_fediverse_bridge.Base.{
  ℕ, suc, ◌≡◌, ◌≢◌, ◌⊎◌, refl, sym, ap, ◌∙◌, String, true, Option, none, some, List, [], ◌∷◌, ◌++◌,
  In, arith, ◌==◌, nat_eq, string_eq, inl, inr, Bool-cases, Option-cases, find, Result, ok, bind-ok,
  In-concat,
}
use discord_fediverse_bridge.Base.Distinct.{Distinct-concat, Distinct-unique}
use discord_fediverse_bridge.Base.Table.{next_id, next_id-fresh, In-find-none}
use discord_fediverse_bridge.Delivery.{User}
use discord_fediverse_bridge.Mutation.{
  Published, Mutation, MutationStore, Library, is_active, desired_kind_eq, unchanged,
}
use discord_fediverse_bridge.Mutation.Reserve.{
  active_mutation, new_mutation, insert_mutation, reserve_new, reserve_next_in_session,
  activity_id_of, mutation_kind, identity_of,
}
use discord_fediverse_bridge.Mutation.Lifecycle.{IsConsistent}

abbrev pub with_new : MutationStore → Mutation → MutationStore
with_new s m = record s { mutations = s.mutations ++ m ∷ [] }

pub insert_mutation-ok :
    (m : Mutation) (s : MutationStore) (k : Option ℕ) (t : MutationStore)
    → insert_mutation m s ≡ ok (k, t)
    → (k ≡ some m.id) × (t ≡ with_new s m)
unfolding insert_mutation
insert_mutation-ok m s k t e = ground arith

-- a new row for an object without an open reservation
module _ (s : MutationStore) (p : Published) (m : Mutation)
    (fresh : m.id ≡ next_id (λ (n : Mutation). n.id) s.mutations)
    (of_p : m.published_object_id ≡ p.id) (expected : m.expected_revision ≡ p.content_revision)
    (successor : m.next_revision ≡ suc m.expected_revision) (stored : In p s.published)
    (free : active_mutation p.id s ≡ none) (c : IsConsistent s) where
  older : (n : Mutation) → In n s.mutations → n.id ≢ m.id
  older n h e = ground (arith, next_id-fresh (λ (n : Mutation). n.id) s.mutations n h)

  closed :
      (n : Mutation) → In n s.mutations → is_active n.state ≡ true → n.published_object_id ≢ p.id
  unfolding active_mutation
  closed n h a e = ground (arith, In-find-none _ s.mutations n free h)

  IsConsistent-with_new : IsConsistent (with_new s m)
  IsConsistent-with_new = record {
    published_keys = c.published_keys;
    mutation_keys = Distinct-concat (λ (n : Mutation). n.id) s.mutations m c.mutation_keys older;
    single = λ x y hx hy ax ay e. elim (In-concat s.mutations m x hx) [
      | inl ox ↦ elim (In-concat s.mutations m y hy) [
        | inl oy ↦ c.single x y ox oy ax ay e
        | inr ey ↦
            absurd (closed x ox ax (e ∙ ap (λ (n : Mutation). n.published_object_id) ey ∙ of_p))
      ]
      | inr ex ↦ elim (In-concat s.mutations m y hy) [
        | inl oy ↦
            absurd (closed y oy ay (sym e ∙ ap (λ (n : Mutation). n.published_object_id) ex ∙ of_p))
        | inr ey ↦ ap (λ (n : Mutation). n.id) (ex ∙ sym ey)
      ]
    ];
    current = λ x q hx hq ax e. elim (In-concat s.mutations m x hx) [
      | inl ox ↦ c.current x q ox hq ax e
      | inr ex ↦
          let same : q ≡ p =
            Distinct-unique (λ (r : Published). r.id) q p s.published c.published_keys hq stored
              (e ∙ ap (λ (n : Mutation). n.published_object_id) ex ∙ of_p) in
          ap (λ (r : Published). r.content_revision) same
          ∙ sym expected
          ∙ sym (ap (λ (n : Mutation). n.expected_revision) ex)
    ];
    successor = λ x hx. elim (In-concat s.mutations m x hx) [
      | inl ox ↦ c.successor x ox
      | inr ex ↦ rw ex successor
    ];
  }

module _ (lib : Library) (p : Published) (targets : Option (List String)) (s : MutationStore)
    (k : Option ℕ) (t : MutationStore) where
  -- the row that a successful insertion makes
  pub reserve_new-ok :
      (user : Option User)
      → reserve_new lib p targets user s ≡ ok (k, t)
      → (u : User) × (a : String) × (k ≡ some (next_id (λ (n : Mutation). n.id) s.mutations))
        × (t
            ≡ with_new s (
                new_mutation lib p targets
                  (next_id (λ (n : Mutation). n.id) s.mutations)
                  u.id
                  (lib.operation_digest (identity_of p targets))
                  a))
  unfolding reserve_new
  reserve_new-ok none e = cc
  reserve_new-ok (some u) e =
      let (a, made, inserted) =
        bind-ok
          (activity_id_of lib.urllib p (mutation_kind p.desired_kind)
            (lib.operation_digest (identity_of p targets)))
          (λ a.
            insert_mutation
              (new_mutation lib p targets (next_id (λ (n : Mutation). n.id) s.mutations) u.id
                (lib.operation_digest (identity_of p targets)) a)
              s)
          (k, t) e in
      let (same_id, same) = insert_mutation-ok _ s k t inserted in (u, a, same_id, same)

  -- what `_reserve_next_in_session` may give: nothing, the open reservation, or a new one
  pub reserve_next_in_session-cases :
      reserve_next_in_session lib p targets s ≡ ok (k, t)
      → (k ≡ none) × (t ≡ s)
        ⊎ ((m : Mutation) × (active_mutation p.id s ≡ some m) × (k ≡ some m.id) × (t ≡ s))
        ⊎ ((user : Option User) × (active_mutation p.id s ≡ none)
            × (reserve_new lib p targets user s ≡ ok (k, t)))
  unfolding reserve_next_in_session
  reserve_next_in_session-cases e = elim (Bool-cases (p.desired_kind == unchanged)) [
    | inl h ↦
        let r : reserve_next_in_session lib p targets s ≡ ok (none, s) = rw h refl in
        let same : ◌≡◌ {A = Result (Option ℕ × MutationStore)} (ok (none, s)) (ok (k, t)) =
          sym r ∙ e in
        inl (cc, cc)
    | inr h ↦ elim (Option-cases (active_mutation p.id s)) [
      | inl free ↦
          let r : reserve_next_in_session lib p targets s
              ≡ reserve_new lib p targets (find (λ u. u.actor_url == p.actor_url) s.outbound.users)
                  s =
            rw h rw free refl in
          inr (inr (find (λ u. u.actor_url == p.actor_url) s.outbound.users, free, sym r ∙ e))
      | inr (m, held) ↦
          let r : reserve_next_in_session lib p targets s ≡ ok (some m.id, s) = rw h rw held refl in
          let same : ◌≡◌ {A = Result (Option ℕ × MutationStore)} (ok (some m.id, s)) (ok (k, t)) =
            sym r ∙ e in
          inr (inl (m, held, cc, cc))
    ]
  ]

pub reserve_next_in_session-IsConsistent :
    (lib : Library) (p : Published) (targets : Option (List String)) (s : MutationStore)
    (k : Option ℕ) (t : MutationStore)
    → In p s.published
    → reserve_next_in_session lib p targets s ≡ ok (k, t)
    → IsConsistent s
    → IsConsistent t
reserve_next_in_session-IsConsistent lib p targets s k t stored e c =
    elim (reserve_next_in_session-cases lib p targets s k t e) [
      | inl (_, same) ↦ rw same c
      | inr (inl (m, held, _, same)) ↦ rw same c
      | inr (inr (user, free, made)) ↦
          let (u, a, _, same) = reserve_new-ok lib p targets s k t user made in
          rw same (IsConsistent-with_new s p _ refl refl refl (omega arith) stored free c)
    ]

pub reserve_next_in_session-published :
    (lib : Library) (p : Published) (targets : Option (List String)) (s : MutationStore)
    (k : Option ℕ) (t : MutationStore)
    → reserve_next_in_session lib p targets s ≡ ok (k, t)
    → t.published ≡ s.published
reserve_next_in_session-published lib p targets s k t e =
    elim (reserve_next_in_session-cases lib p targets s k t e) [
      | inl (_, same) ↦ rw same refl
      | inr (inl (m, held, _, same)) ↦ rw same refl
      | inr (inr (user, free, made)) ↦
          let (u, a, _, same) = reserve_new-ok lib p targets s k t user made in rw same refl
    ]
