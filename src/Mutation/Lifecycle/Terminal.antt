-- ===== src/Mutation/Lifecycle/Terminal.antt =====
-- src/db/repositories/content_mutations.py: revisions only grow, and nothing reopens an object that
-- is deleted or whose deletion is desired.
use discord_fediverse_bridge.Base.{
  ℕ, suc, ◌≤◌, ◌≡◌, refl, sym, String, true, Option, some, List, [], ◌∷◌, In, arith, ◌==◌, nat_eq,
  string_eq, option_eq, subst, inl, inr, Bool-cases, Option-cases, ok, ◌>>=◌, bind-ok, transaction,
  transaction-cases, not, is_some,
}
use discord_fediverse_bridge.Base.Table.{Rows, Rows-trans, Rows-update_where, In-Rows}
use discord_fediverse_bridge.Delivery.{User, source_kind_eq}
use discord_fediverse_bridge.Mutation.{
  Published, Mutation, MutationStore, Library, mutation_state_eq, Answer, missing, deleted, stale,
  duplicate, conflict, accepted, not_needed, answer_eq, update, desired_kind_eq,
}
use discord_fediverse_bridge.Mutation.Desired.{published_of, set_published, is_terminal}
use discord_fediverse_bridge.Mutation.Reserve.{reserve_next_in_session}
use discord_fediverse_bridge.Mutation.Claims.{set_mutation, claim_rows, claim_due}
use discord_fediverse_bridge.Mutation.Reports.{
  mark_send_possible, record_canonical_result, record_retryable_failure,
}
use discord_fediverse_bridge.Mutation.Reconcile.{
  fetched_answer, converged, settle, reconcile_authoritative_update_and_reserve,
}
use discord_fediverse_bridge.Mutation.Lifecycle.{
  MutationStep, MutationReach, here, next, IsConsistent,
}
use discord_fediverse_bridge.Mutation.Lifecycle.Invariant.{reach-IsConsistent}
use discord_fediverse_bridge.Mutation.Lifecycle.Reservation.{reserve_next_in_session-published}
use discord_fediverse_bridge.Mutation.Lifecycle.Advances.{
  Advances, Advances-refl, Advances-trans, same, changed, found, edits-Advance, deletes-Advance,
  reserves-Advance, aborts-Advance, commits-Advance, asks-Advance, misses-Advance, clears-Advance,
  Advance,
}

claim_rows-published :
    (token_hex : ℕ → String) (now stale_after n : ℕ) (rows : List (Mutation × User))
    (s : MutationStore)
    → (claim_rows token_hex now stale_after n rows s).1.published ≡ s.published
unfolding claim_rows set_mutation
claim_rows-published token_hex now stale_after n [] s = refl
claim_rows-published token_hex now stale_after n ((m, user) ∷ rows) s =
    claim_rows-published token_hex now stale_after (suc n) rows _

-- a fetched state is taken over only by an object that is not terminal
converged-Advances :
    (answer : Answer) (fingerprint : String) (title : Option String) (body : String) (edited : ℕ)
    (p : Published)
    → fetched_answer fingerprint edited p ≡ answer
    → Advances p (converged answer fingerprint title body edited p)
unfolding fetched_answer
converged-Advances accepted fingerprint title body edited p e = ground arith
converged-Advances missing fingerprint title body edited p e = Advances-refl p
converged-Advances deleted fingerprint title body edited p e = Advances-refl p
converged-Advances stale fingerprint title body edited p e = Advances-refl p
converged-Advances duplicate fingerprint title body edited p e = Advances-refl p
converged-Advances conflict fingerprint title body edited p e = Advances-refl p
converged-Advances not_needed fingerprint title body edited p e = Advances-refl p

settle-Advance : (k : ℕ) (s : MutationStore) → Advance s (set_published k settle s)
unfolding set_published
settle-Advance k s =
    Rows-update_where Advances (λ q. q.id == k) settle s.published Advances-refl
      (λ q i e. ground arith)

module _ (lib : Library) (s : MutationStore) (c : IsConsistent s) where
  reconciled-Advance :
      (answer : Answer) (f : Published → Published) (p : Published) (targets : Option (List String))
      → In p s.published
      → Advances p (f p)
      → Advance s
          (transaction s (
            reserve_next_in_session lib (f p) targets (set_published p.id f s) >>= λ r.
            ok (answer, set_published p.id settle r.1))).1
  reconciled-Advance answer f p targets stored h =
      transaction-cases (Advance s) s _ (same s c) λ a t e.
        let (r, made, settled) =
          bind-ok (reserve_next_in_session lib (f p) targets (set_published p.id f s))
            (λ r. ok (answer, set_published p.id settle r.1)) (a, t) e in
        let kept =
          reserve_next_in_session-published lib (f p) targets (set_published p.id f s) r.0 r.1
            made in
        let first : Advance s r.1 =
          subst (λ l. Rows Advances s.published l) (sym kept) (changed s c p f stored h) in
        let is_t : set_published p.id settle r.1 ≡ t = cc in
        subst (Advance s) is_t (
          Rows-trans Advances Advances-trans s.published r.1.published
            (set_published p.id settle r.1).published first (settle-Advance p.id r.1))

  reconciles-Advance :
      (object_id : String) (title : Option String) (body : String) (edited : ℕ)
      (targets : Option (List String))
      → Advance s
          (transaction s (
            reconcile_authoritative_update_and_reserve lib object_id title body edited targets s)).1
  unfolding reconcile_authoritative_update_and_reserve
  reconciles-Advance object_id title body edited targets =
      elim (Option-cases (published_of object_id s)) [
        | inl gone ↦ rw (reconcile_authoritative_update_and_reserve, gone) (same s c)
        | inr (p, there) ↦
            let fingerprint = lib.content_digest update title (some body) in
            let answer = fetched_answer fingerprint edited p in
            elim (Bool-cases (not p.reconciliation_needed)) [
              | inl idle ↦ rw (reconcile_authoritative_update_and_reserve, there) rw idle (same s c)
              | inr needed ↦ elim (Bool-cases (answer == deleted)) [
                | inl gone ↦
                    rw (reconcile_authoritative_update_and_reserve, there) rw needed rw gone
                      (settle-Advance p.id s)
                | inr alive ↦ elim (Bool-cases (answer == stale)) [
                  | inl old ↦
                      rw (reconcile_authoritative_update_and_reserve, there) rw needed rw alive rw
                        old (same s c)
                  | inr fresh ↦
                      rw (reconcile_authoritative_update_and_reserve, there) rw needed rw alive rw
                        fresh
                        (reconciled-Advance answer (converged answer fingerprint title body edited)
                          p targets (found s c object_id p there)
                          (converged-Advances answer fingerprint title body edited p refl))
                ]
              ]
            ]
      ]

step-Advance :
    (lib : Library) {s t : MutationStore} → IsConsistent s → MutationStep lib s t → Advance s t
unfolding mark_send_possible record_canonical_result record_retryable_failure claim_due
step-Advance lib {s} c (MutationStep.edits object_id title body edited) =
    edits-Advance s c lib object_id title body edited
step-Advance lib {s} c (MutationStep.deletes object_id) = deletes-Advance s c lib object_id
step-Advance lib {s} c (MutationStep.reserves object_id targets) =
    reserves-Advance s c lib object_id targets
step-Advance lib {s} c (MutationStep.reconciles object_id title body edited targets) =
    reconciles-Advance lib s c object_id title body edited targets
step-Advance lib {s} c (MutationStep.claims token_hex now stale_after limit) =
    rw (claim_rows-published token_hex now stale_after 0 _ s) (same s c)
step-Advance lib {s} c (MutationStep.sends id token) = same s c
step-Advance lib {s} c (MutationStep.receives id token activity_json) = same s c
step-Advance lib {s} c (MutationStep.fails now id token error) = same s c
step-Advance lib {s} c (MutationStep.aborts id token error) = aborts-Advance s c id token error
step-Advance lib {s} c (MutationStep.commits now id token activity_json) =
    commits-Advance s c lib now id token activity_json
step-Advance lib {s} c (MutationStep.asks now channel_id message_id error) =
    asks-Advance s c now channel_id message_id error
step-Advance lib {s} c (MutationStep.misses now object_id error) =
    misses-Advance s c now object_id error
step-Advance lib {s} c (MutationStep.clears object_id) = clears-Advance s c object_id

reach-Advance :
    (lib : Library) (s z : MutationStore) → IsConsistent s → MutationReach lib s z → Advance s z
reach-Advance lib s z c here = same s c
reach-Advance lib s z c (next {t} {u} path last) =
    Rows-trans Advances Advances-trans s.published t.published u.published
      (reach-Advance lib s t c path) (step-Advance lib (reach-IsConsistent lib s t c path) last)

-- From consistent tables, any sequence of calls keeps each published object; its revision never
-- falls; if it was deleted it stays deleted, and if its deletion was desired it is still desired or done.
pub reach-terminal :
    (lib : Library) (s t : MutationStore)
    → IsConsistent s
    → MutationReach lib s t
    → (p : Published) → In p s.published
    → (q : Published) × In q t.published
      × (q.id ≡ p.id)
      × (p.content_revision ≤ q.content_revision)
      × (is_terminal p ≡ true → is_terminal q ≡ true)
      × (is_some p.deleted_at ≡ true → is_some q.deleted_at ≡ true)
reach-terminal lib s t c path p stored =
    let (q, there, a) =
      In-Rows Advances s.published t.published p (reach-Advance lib s t c path) stored in
    (q, there, a.same_id, a.revision, a.terminal, a.deleted)
