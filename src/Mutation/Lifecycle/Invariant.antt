-- ===== src/Mutation/Lifecycle/Invariant.antt =====
-- src/db/repositories/content_mutations.py: every call of the repository keeps the invariant, so a
-- commit is never turned away for its revision.
use discord_fediverse_bridge.Base.{
  ℕ, ◌≡◌, refl, ap, String, true, false, ◌&&◌, some, arith, ◌==◌, ◌!=◌, nat_eq, string_eq,
  option_eq, inl, inr, Bool-cases, Option-cases, find, In-find, transaction, transaction-cases,
}
use discord_fediverse_bridge.Base.Table.{update_where, get}
use discord_fediverse_bridge.Mutation.{
  Published, Mutation, MutationStore, Library, canonical_ready, dispatching, mutation_state_eq,
  answer_eq, desired_kind_eq,
}
use discord_fediverse_bridge.Mutation.Desired.{published_of, set_published, is_terminal}
use discord_fediverse_bridge.Mutation.Reports.{
  owns, mark_send_possible, record_canonical_result, record_retryable_failure,
  abort_local_validation, abort, receive, retry_later, with_mutations,
}
use discord_fediverse_bridge.Mutation.Commit.{commit, commit_canonical}
use discord_fediverse_bridge.Mutation.Reconcile.{
  settle, request_reconciliation, request_discord_reconciliation, reconciliation_failure,
  record_reconciliation_failure, clear_reconciliation,
}
use discord_fediverse_bridge.Mutation.Lifecycle.{
  MutationStep, MutationReach, here, next, IsConsistent,
}
use discord_fediverse_bridge.Mutation.Lifecycle.Rows.{
  SameRevision, Ages, IsConsistent-set_published, IsConsistent-update,
}
use discord_fediverse_bridge.Mutation.Lifecycle.Leases.{claim_due-IsConsistent}
use discord_fediverse_bridge.Mutation.Lifecycle.Committed.{
  IsConsistent-commit, commit_canonical-cases, commit-ok,
}
use discord_fediverse_bridge.Mutation.Lifecycle.Desires.{
  record_desired_update-IsConsistent, record_desired_delete-IsConsistent, reserve_next-IsConsistent,
  withdraw_desired-IsConsistent, reconcile-IsConsistent,
}

module _ (s : MutationStore) (c : IsConsistent s) where
  -- an UPDATE of the mutation that a claim owns
  owned-IsConsistent :
      (id : ℕ) (token : String) (f : Mutation → Mutation)
      → ((m : Mutation) → owns dispatching id token m ≡ true → Ages m (f m))
      → IsConsistent (with_mutations s (update_where (owns dispatching id token) f s.mutations))
  owned-IsConsistent id token f h =
      IsConsistent-update s (owns dispatching id token) f (λ m i e. h m e) c

  abort-IsConsistent :
      (id : ℕ) (token error : String) → IsConsistent (abort_local_validation id token error s)
  unfolding abort_local_validation
  abort-IsConsistent id token error =
      elim (Option-cases (find (owns dispatching id token) s.mutations)) [
        | inl gone ↦ rw (abort_local_validation, gone) c
        | inr (m, held) ↦
            rw (abort_local_validation, held)
              (withdraw_desired-IsConsistent _
                (owned-IsConsistent id token (abort error) (λ k e. ground arith)) m)
      ]

  commit-IsConsistent :
      (lib : Library) (now id : ℕ) (token activity_json : String)
      → IsConsistent (transaction s (commit_canonical lib now id token activity_json s)).1
  unfolding get
  commit-IsConsistent lib now id token activity_json =
      transaction-cases IsConsistent s (commit_canonical lib now id token activity_json s) c
        λ r t e. elim (commit_canonical-cases lib now id token activity_json s r t e) [
          | inl same ↦ rw same c
          | inr (m, p, held, at_id, current, done) ↦
              let (stored, owned) = In-find (owns canonical_ready id token) s.mutations m held in
              let (there, same_id) =
                In-find (λ q. q.id == m.published_object_id) s.published p at_id in
              let (outbound, result) = commit-ok lib now activity_json m p s r t done in
              IsConsistent-commit now s m p stored (ground arith) (ground arith) c t
                (ap (λ (u : MutationStore). u.published) result)
                (ap (λ (u : MutationStore). u.mutations) result)
        ]

  -- a change of the row of one object that leaves its revision
  published-IsConsistent :
      (k : ℕ) (f : Published → Published)
      → ((p : Published) → SameRevision p (f p))
      → IsConsistent (set_published k f s)
  published-IsConsistent k f h = IsConsistent-set_published s k f h c

  request-IsConsistent :
      (now channel_id message_id : ℕ) (error : String)
      → IsConsistent (request_discord_reconciliation now channel_id message_id error s).1
  unfolding request_discord_reconciliation
  request-IsConsistent now channel_id message_id error =
      elim (Option-cases (
        find
          (λ p. p.discord_channel_id == some channel_id && p.discord_message_id == some message_id)
          s.published)) [
            | inl gone ↦ rw (request_discord_reconciliation, gone) c
            | inr (p, there) ↦ elim (Bool-cases (is_terminal p)) [
              | inl e ↦ rw (request_discord_reconciliation, there) rw e c
              | inr e ↦
                  rw (request_discord_reconciliation, there) rw e
                    (published-IsConsistent p.id (request_reconciliation now error)
                      (λ q. record { same_id = refl; same_revision = refl }))
            ]
          ]

  failure-IsConsistent :
      (now : ℕ) (object_id error : String)
      → IsConsistent (record_reconciliation_failure now object_id error s)
  unfolding record_reconciliation_failure
  failure-IsConsistent now object_id error = elim (Option-cases (published_of object_id s)) [
    | inl gone ↦ rw (record_reconciliation_failure, gone) c
    | inr (p, there) ↦
        rw (record_reconciliation_failure, there)
          (published-IsConsistent p.id (reconciliation_failure now error)
            (λ q. record { same_id = refl; same_revision = refl }))
  ]

  clear-IsConsistent : (object_id : String) → IsConsistent (clear_reconciliation object_id s)
  unfolding clear_reconciliation
  clear-IsConsistent object_id = elim (Option-cases (published_of object_id s)) [
    | inl gone ↦ rw (clear_reconciliation, gone) c
    | inr (p, there) ↦
        rw (clear_reconciliation, there)
          (published-IsConsistent p.id settle
            (λ q. record { same_id = refl; same_revision = refl }))
  ]

step-IsConsistent :
    (lib : Library) {s t : MutationStore} → IsConsistent s → MutationStep lib s t → IsConsistent t
unfolding mark_send_possible record_canonical_result record_retryable_failure
step-IsConsistent lib {s} c (MutationStep.edits object_id title body edited) =
    record_desired_update-IsConsistent s c lib object_id title body edited
step-IsConsistent lib {s} c (MutationStep.deletes object_id) =
    record_desired_delete-IsConsistent s c lib object_id
step-IsConsistent lib {s} c (MutationStep.reserves object_id targets) =
    reserve_next-IsConsistent s c lib object_id targets
step-IsConsistent lib {s} c (MutationStep.reconciles object_id title body edited targets) =
    reconcile-IsConsistent lib s c object_id title body edited targets
step-IsConsistent lib {s} c (MutationStep.claims token_hex now stale_after limit) =
    claim_due-IsConsistent token_hex now stale_after limit s c
step-IsConsistent lib {s} c (MutationStep.sends id token) =
    owned-IsConsistent s c id token _ (λ m e. ground arith)
step-IsConsistent lib {s} c (MutationStep.receives id token activity_json) =
    owned-IsConsistent s c id token (receive activity_json) (λ m e. ground arith)
step-IsConsistent lib {s} c (MutationStep.fails now id token error) =
    owned-IsConsistent s c id token (retry_later now error) (λ m e. ground arith)
step-IsConsistent lib {s} c (MutationStep.aborts id token error) =
    abort-IsConsistent s c id token error
step-IsConsistent lib {s} c (MutationStep.commits now id token activity_json) =
    commit-IsConsistent s c lib now id token activity_json
step-IsConsistent lib {s} c (MutationStep.asks now channel_id message_id error) =
    request-IsConsistent s c now channel_id message_id error
step-IsConsistent lib {s} c (MutationStep.misses now object_id error) =
    failure-IsConsistent s c now object_id error
step-IsConsistent lib {s} c (MutationStep.clears object_id) = clear-IsConsistent s c object_id

-- Any sequence of calls keeps the tables consistent: the ids are keys, each object has at most one
-- open reservation, and that is for the step from the object's present revision to the next.
pub reach-IsConsistent :
    (lib : Library) (s t : MutationStore) → IsConsistent s → MutationReach lib s t → IsConsistent t
reach-IsConsistent lib s z c here = c
reach-IsConsistent lib s z c (next {t} {u} path last) =
    step-IsConsistent lib (reach-IsConsistent lib s t c path) last

-- In consistent tables, a claim that owns a reservation with a canonical result commits it or raises:
-- it is not turned away, as long as the published object exists.
pub commit_canonical_accepts :
    (lib : Library) (now id : ℕ) (token activity_json : String) (s : MutationStore) (m : Mutation)
    (p : Published)
    → IsConsistent s
    → find (owns canonical_ready id token) s.mutations ≡ some m
    → get (λ (q : Published). q.id) m.published_object_id s.published ≡ some p
    → commit_canonical lib now id token activity_json s ≡ commit lib now activity_json m p s
unfolding commit_canonical get
commit_canonical_accepts lib now id token activity_json s m p c held at_id =
    let (stored, owned) = In-find (owns canonical_ready id token) s.mutations m held in
    let (there, same_id) = In-find (λ q. q.id == m.published_object_id) s.published p at_id in
    let current : (p.content_revision != m.expected_revision) ≡ false =
      ground (arith, c.current m p stored there (ground arith) (ground arith)) in
    rw (commit_canonical, held) rw at_id rw current refl
