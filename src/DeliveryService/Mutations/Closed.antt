-- ===== src/DeliveryService/Mutations/Closed.antt =====
-- src/user_actor_delivery.py: what the calls of the repository keep, the treatment of a claim keeps.
use discord_fediverse_bridge.DeliveryService.Requests.{
  Outside, Exception, invalid, cancelled, failure, Attempt, returns, raises,
  validate_mutation_request, send_content,
}
use discord_fediverse_bridge.Base.{
  ℕ, String, Bool, true, false, Option, none, some, Result, ok, raised, transaction, Option-cases,
  inl, inr,
}
use discord_fediverse_bridge.Mutation.{MutationStore, Library}
use discord_fediverse_bridge.Mutation.Claims.{MutationClaim}
use discord_fediverse_bridge.Mutation.Reserve.{reserve_next}
use discord_fediverse_bridge.Mutation.Commit.{commit_canonical}
use discord_fediverse_bridge.Mutation.Reports.{
  mark_send_possible, record_canonical_result, record_retryable_failure, abort_local_validation,
  load_canonical_ready,
}
use discord_fediverse_bridge.DeliveryService.Mutations.{
  after_commit, commit_and_reserve, when_recorded, after_sending, when_marked, dispatch, try_claim,
  has_raised, handle_exception,
}

-- a property of the tables that the calls after an answer of the gateway, and those of the handlers, keep
pub record IsClosed (lib : Library) (w : Outside) (c : MutationClaim) (Q : MutationStore → Type 0)
    : Type 0 where
  pub commits :
      (s : MutationStore) (canonical : String)
      → Q s
      → Q
          (transaction s
            (commit_canonical lib (w.committed_at c) c.mutation_id c.claim_token canonical s)).1
  pub reserves :
      (s : MutationStore) (object_id : String)
      → Q s
      → Q (transaction s (reserve_next lib object_id c.request.target_inbox_urls s)).1
  pub aborts :
      (s : MutationStore) (text : String)
      → Q s
      → Q (abort_local_validation c.mutation_id c.claim_token text s)
  pub fails :
      (s : MutationStore) (text : String)
      → Q s
      → Q (record_retryable_failure (w.failed_at c) c.mutation_id c.claim_token text s)

module _ (lib : Library) (w : Outside) (c : MutationClaim) (Q : MutationStore → Type 0)
    (q : IsClosed lib w c Q) where
  after_commit-IsClosed :
      (r : Result (Option (ℕ × String)) × MutationStore) → Q r.1 → Q (after_commit lib w c r).1
  after_commit-IsClosed (ok (some (source_id, object_id)), t) path = q.reserves t object_id path
  after_commit-IsClosed (ok none, t) path = path
  after_commit-IsClosed (raised e, t) path = path

  pub commit_and_reserve-IsClosed :
      (canonical : String) (t : MutationStore) → Q t → Q (commit_and_reserve lib w c canonical t).1
  unfolding commit_and_reserve
  commit_and_reserve-IsClosed canonical t path =
      after_commit-IsClosed _ (q.commits t canonical path)

  pub when_recorded-IsClosed :
      (canonical : String) (r : Bool × MutationStore)
      → Q r.1
      → Q (when_recorded lib w c canonical r).1
  when_recorded-IsClosed canonical (true, t) path = commit_and_reserve-IsClosed canonical t path
  when_recorded-IsClosed canonical (false, t) path = path

  pub has_raised-IsClosed :
      {A : Type 0} (r : Result A × MutationStore) → Q r.1 → Q (has_raised lib w c r).1
  has_raised-IsClosed (ok a, t) path = path
  has_raised-IsClosed (raised e, t) path = path

  pub handle_exception-IsClosed :
      (r : Option Exception × MutationStore) → Q r.1 → Q (handle_exception lib w c r).1
  unfolding handle_exception
  handle_exception-IsClosed (none, t) path = path
  handle_exception-IsClosed (some (invalid text), t) path =
      has_raised-IsClosed _ (q.reserves _ c.request.ap_object_id (q.aborts t text path))
  handle_exception-IsClosed (some cancelled, t) path = q.fails t _ path
  handle_exception-IsClosed (some (failure text), t) path = q.fails t text path

  module _
      (sends : (s : MutationStore) → Q s → Q (mark_send_possible c.mutation_id c.claim_token s).1)
      (waits : (s : MutationStore) → Q s → Q (w.meanwhile c s))
      (receives : (s : MutationStore) (canonical : String)
        → Q s
        → Q (record_canonical_result c.mutation_id c.claim_token canonical s).1) where
    after_sending-IsClosed :
        (a : Attempt String) (t : MutationStore) → Q t → Q (after_sending lib w c a t).1
    after_sending-IsClosed (raises e) t path = path
    after_sending-IsClosed (returns canonical) t path =
        when_recorded-IsClosed canonical _ (receives t canonical path)

    when_marked-IsClosed : (r : Bool × MutationStore) → Q r.1 → Q (when_marked lib w c r).1
    when_marked-IsClosed (true, t) path = after_sending-IsClosed (send_content w c) _ (waits t path)
    when_marked-IsClosed (false, t) path = path

    dispatch-IsClosed : (t : MutationStore) → Q t → Q (dispatch lib w c t).1
    unfolding dispatch
    dispatch-IsClosed t path = elim (Option-cases (validate_mutation_request c)) [
      | inl valid ↦ rw (dispatch, valid) (when_marked-IsClosed _ (sends t path))
      | inr (text, e) ↦ rw (dispatch, e) path
    ]

    pub try_claim-IsClosed : (t : MutationStore) → Q t → Q (try_claim lib w c t).1
    unfolding try_claim
    try_claim-IsClosed t path =
        elim (Option-cases (load_canonical_ready c.mutation_id c.claim_token t)) [
          | inl absent ↦ rw (try_claim, absent) (dispatch-IsClosed t path)
          | inr (canonical, e) ↦ rw (try_claim, e) (commit_and_reserve-IsClosed canonical t path)
        ]
