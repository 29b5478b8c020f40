-- ===== src/Mutation/Lifecycle/Aborted.antt =====
-- src/db/repositories/content_mutations.py: what an aborted deletion leaves behind.
use discord_fediverse_bridge.Base.{
  ℕ, ◌≡◌, ◌≢◌, ◌⊎◌, refl, sym, ap, ◌∙◌, String, true, false, ◌&&◌, ◌||◌, Option, none, some, List,
  [], ◌∷◌, ◌++◌, arith, ◌==◌, nat_eq, string_eq, option_eq, inl, inr, any, find, In, In-find,
  In-concat, In-last, any-none, any-false, ok, raised, integrity_error, Bool-cases, Option-cases,
  bind-ok,
}
use discord_fediverse_bridge.Base.Distinct.{Distinct, Distinct-unique}
use discord_fediverse_bridge.Base.Table.{
  next_id, next_id-fresh, get, update_where, In-of_update, In-update_hit, In-find-none, find-none,
}
use discord_fediverse_bridge.Delivery.{User}
use discord_fediverse_bridge.Mutation.{
  Published, Mutation, MutationStore, Library, is_active, delete, unchanged, desired_kind_eq,
  dispatching, reserved, mutation_state_eq,
}
use discord_fediverse_bridge.Mutation.Desired.{published_of}
use discord_fediverse_bridge.Mutation.Claims.{lease, set_mutation}
use discord_fediverse_bridge.Mutation.Reports.{
  owns, abort, abort_local_validation, withdraw_desired, with_mutations, is_desired_update,
}
use discord_fediverse_bridge.Mutation.Reserve.{
  active_mutation, identity_of, reserve_next, reserve_next_in_session, reserve_new, new_mutation,
  insert_mutation, activity_id_of, mutation_kind,
}
use discord_fediverse_bridge.Mutation.Lifecycle.{IsConsistent}
use discord_fediverse_bridge.Mutation.Lifecycle.Reservation.{with_new, insert_mutation-ok}
use discord_fediverse_bridge.Mutation.Lifecycle.Repeats.{any-weaken}

-- what a reservation that was made is made of
record Made (lib : Library) (p : Published) (targets : Option (List String)) (user : Option User)
    (s : MutationStore) (k : ℕ) (t : MutationStore) : Type 0 where
  author : User
  activity_id : String
  is_author : user ≡ some author
  named :
      activity_id_of lib.urllib p
        (mutation_kind p.desired_kind)
        (lib.operation_digest (identity_of p targets))
      ≡ ok activity_id
  is_next : k ≡ next_id (λ (n : Mutation). n.id) s.mutations
  stored :
      t
      ≡ with_new s (
          new_mutation lib p targets k author.id
            (lib.operation_digest (identity_of p targets))
            activity_id)

reserve_new-Made :
    (lib : Library) (p : Published) (targets : Option (List String)) (user : Option User)
    (s : MutationStore) (k : ℕ) (t : MutationStore)
    → reserve_new lib p targets user s ≡ ok (some k, t)
    → Made lib p targets user s k t
unfolding reserve_new
reserve_new-Made lib p targets none s k t e = cc
reserve_new-Made lib p targets (some u) s k t e =
    let operation_id = lib.operation_digest (identity_of p targets) in
    let (a, named, inserted) =
      bind-ok (activity_id_of lib.urllib p (mutation_kind p.desired_kind) operation_id)
        (λ a.
          insert_mutation
            (new_mutation lib p targets (next_id (λ (n : Mutation). n.id) s.mutations) u.id
              operation_id a)
            s)
        (some k, t) e in
    let (same_id, same) = insert_mutation-ok _ s (some k) t inserted in
    let is_next : k ≡ next_id (λ (n : Mutation). n.id) s.mutations = cc in
    record {
      author = u;
      activity_id = a;
      is_author = refl;
      named = named;
      is_next = is_next;
      stored = rw is_next same;
    }

-- the same call on a table that already has the operation
reserve_new-clashes :
    (lib : Library) (p : Published) (targets : Option (List String)) (u : User) (a : String)
    (s : MutationStore)
    → activity_id_of lib.urllib p
        (mutation_kind p.desired_kind)
        (lib.operation_digest (identity_of p targets))
      ≡ ok a
    → any
        (λ (n : Mutation). n.operation_id == lib.operation_digest (identity_of p targets))
        s.mutations
      ≡ true
    → reserve_new lib p targets (some u) s ≡ raised integrity_error
unfolding reserve_new insert_mutation
reserve_new-clashes lib p targets u a s named known =
    let operation_id = lib.operation_digest (identity_of p targets) in
    let clash =
      any-weaken (λ n. n.operation_id == operation_id)
        (λ n. n.operation_id == operation_id || n.activity_id == a) s.mutations
        (λ n h. ground arith) known in
    rw named rw clash refl

-- a deletion is not withdrawn
withdraw_desired-delete :
    (m : Mutation) (p : Published) (s : MutationStore)
    → Distinct (λ (q : Published). q.id) s.published
    → In p s.published
    → p.desired_kind ≡ delete
    → m.published_object_id ≡ p.id
    → withdraw_desired m s ≡ s
unfolding withdraw_desired get desired_kind_eq
withdraw_desired-delete m p s keys stored deleting of_p =
    elim (Option-cases (get (λ (q : Published). q.id) m.published_object_id s.published)) [
      | inl gone ↦ rw (withdraw_desired, gone) refl
      | inr (q, found) ↦
          let (there, e) =
            In-find (λ (r : Published). r.id == m.published_object_id) s.published q found in
          let same : q ≡ p =
            Distinct-unique (λ (r : Published). r.id) q p s.published keys there stored
              (ground arith) in
          let kept : is_desired_update m.request_fingerprint q ≡ false = rw same rw deleting refl in
          rw (withdraw_desired, found) rw kept refl
    ]

-- A reservation `m` that is new in `s`, is claimed, and is aborted.
module _ (s : MutationStore) (p : Published) (m : Mutation) (token error : String)
    (now stale_after : ℕ) (c : IsConsistent s) (stored : In p s.published)
    (deleting : p.desired_kind ≡ delete)
    (fresh : m.id ≡ next_id (λ (n : Mutation). n.id) s.mutations)
    (of_p : m.published_object_id ≡ p.id) (is_open : m.state ≡ reserved)
    (free : active_mutation p.id s ≡ none) where
  abbrev claimed : MutationStore
  claimed = set_mutation m.id (lease token now stale_after) (with_new s m)

  abbrev ended : MutationStore
  ended =
      with_mutations claimed
        (update_where (owns dispatching m.id token) (abort error) claimed.mutations)

  -- the rows of the claimed table: an older one, or the new one with its lease
  rows :
      (x : Mutation)
      → In x claimed.mutations
      → (In x s.mutations × (x.id ≢ m.id)) ⊎ (x ≡ lease token now stale_after m)
  unfolding set_mutation
  rows x there =
      let (z, before, from) =
        In-of_update (λ (n : Mutation). n.id == m.id) (lease token now stale_after)
          (s.mutations ++ m ∷ []) x there in
      elim (In-concat s.mutations m z before) [
        | inl old ↦
            let young = next_id-fresh (λ (n : Mutation). n.id) s.mutations z old in
            elim from [
              | inl (hit, same) ↦ absurd (ground (arith, young, hit, fresh))
              | inr (miss, same) ↦ rw same (inl (old, λ e. ground (arith, young, e, fresh)))
            ]
        | inr new ↦ elim from [
          | inl (hit, same) ↦ inr (same ∙ ap (lease token now stale_after) new)
          | inr (miss, same) ↦ absurd (ground (arith, miss, new))
        ]
      ]

  leased-In : In (lease token now stale_after m) claimed.mutations
  unfolding set_mutation
  leased-In =
      In-update_hit (λ (n : Mutation). n.id == m.id) (lease token now stale_after)
        (s.mutations ++ m ∷ []) m (In-last s.mutations m) (ground arith)

  leased-owns : owns dispatching m.id token (lease token now stale_after m) ≡ true
  unfolding mutation_state_eq
  leased-owns = rw is_open ground arith

  aborts : abort_local_validation m.id token error claimed ≡ ended
  unfolding abort_local_validation set_mutation
  aborts = elim (Option-cases (find (owns dispatching m.id token) claimed.mutations)) [
    | inl gone ↦
        let missed =
          In-find-none (owns dispatching m.id token) claimed.mutations
            (lease token now stale_after m) gone leased-In in
        let held = leased-owns in cc
    | inr (n, found) ↦
        let (there, held) = In-find (owns dispatching m.id token) claimed.mutations n found in
        let for_p : n.published_object_id ≡ p.id = elim (rows n there) [
          | inl (old, other) ↦ absurd (ground (arith, held, other))
          | inr same ↦ rw same ground (arith, of_p)
        ] in
        rw (abort_local_validation, found)
          (withdraw_desired-delete n p ended c.published_keys stored deleting for_p)
  ]

  none_open : active_mutation p.id ended ≡ none
  unfolding active_mutation set_mutation
  none_open =
      find-none (λ (n : Mutation). n.published_object_id == p.id && is_active n.state)
        ended.mutations
        (any-none _ ended.mutations λ x there.
          let (y, before, from) =
            In-of_update (owns dispatching m.id token) (abort error) claimed.mutations x there in
          elim from [
            | inl (hit, same) ↦ rw same ground arith
            | inr (miss, same) ↦ elim (rows y before) [
              | inl (old, other) ↦ rw same (In-find-none _ s.mutations y free old)
              | inr leased ↦
                  let held = leased-owns in
                  absurd (ground (arith, miss, held, ap (owns dispatching m.id token) leased))
            ]
          ])

  remembered : any (λ (n : Mutation). n.operation_id == m.operation_id) ended.mutations ≡ true
  remembered =
      let there =
        In-update_hit (owns dispatching m.id token) (abort error) claimed.mutations
          (lease token now stale_after m) leased-In leased-owns in
      elim (Bool-cases (any (λ (n : Mutation). n.operation_id == m.operation_id) ended.mutations)) [
        | inl known ↦ known
        | inr unknown ↦ absurd (
            ground (
              arith,
              any-false (λ (n : Mutation). n.operation_id == m.operation_id) ended.mutations _
                  unknown there,
            ))
      ]

refused_again :
    (lib : Library) (object_id : String) (targets : Option (List String)) (s t : MutationStore)
    (p : Published) (k : ℕ)
    → IsConsistent s
    → published_of object_id s ≡ some p
    → p.desired_kind ≡ delete
    → active_mutation p.id s ≡ none
    → Made lib p targets (find (λ u. u.actor_url == p.actor_url) s.outbound.users) s k t
    → (token error : String) (now stale_after : ℕ)
    → reserve_next lib object_id targets
        (abort_local_validation k token error (set_mutation k (lease token now stale_after) t))
      ≡ raised integrity_error
unfolding reserve_next published_of reserve_next_in_session set_mutation desired_kind_eq
refused_again lib object_id targets s t p k c there deleting free made token error now stale_after =
    let m =
      new_mutation lib p targets k made.author.id (lib.operation_digest (identity_of p targets))
        made.activity_id in
    let stored = (In-find (λ (q : Published). q.object_id == object_id) s.published p there).0 in
    let differs : (p.desired_kind == unchanged) ≡ false = rw deleting refl in
    rw made.stored rw
      (aborts s p m token error now stale_after c stored deleting made.is_next refl refl free) rw
      (reserve_next, there) rw (reserve_next_in_session, differs) rw
      (none_open s p m token error now stale_after c stored deleting made.is_next refl refl free) rw
      made.is_author
      (reserve_new-clashes lib p targets made.author made.activity_id _ made.named (
        remembered s p m token error now stale_after c stored deleting made.is_next refl refl free))

-- In consistent tables, a deletion that was reserved, claimed, and aborted before it was sent can not be
-- reserved again: with the same targets the call raises IntegrityError, since the abort leaves the
-- desired deletion and the revision as they were, so the operation id is the one of the aborted row.
pub aborted_deletion_refused :
    (lib : Library) (object_id : String) (targets : Option (List String)) (s t : MutationStore)
    (p : Published) (k : ℕ)
    → IsConsistent s
    → published_of object_id s ≡ some p
    → p.desired_kind ≡ delete
    → active_mutation p.id s ≡ none
    → reserve_next lib object_id targets s ≡ ok (some k, t)
    → (token error : String) (now stale_after : ℕ)
    → reserve_next lib object_id targets
        (abort_local_validation k token error (set_mutation k (lease token now stale_after) t))
      ≡ raised integrity_error
unfolding reserve_next published_of reserve_next_in_session set_mutation desired_kind_eq
aborted_deletion_refused lib object_id targets s t p k c there deleting free e token error now
      stale_after =
    let user = find (λ (u : User). u.actor_url == p.actor_url) s.outbound.users in
    let differs : (p.desired_kind == unchanged) ≡ false = rw deleting refl in
    let inside : reserve_next lib object_id targets s ≡ reserve_new lib p targets user s =
      rw (reserve_next, there) rw (reserve_next_in_session, differs) rw free refl in
    refused_again lib object_id targets s t p k c there deleting free
      (reserve_new-Made lib p targets user s k t (sym inside ∙ e)) token error now stale_after
