-- ===== src/DeliveryService/Mutations.antt =====
-- src/user_actor_delivery.py: the drain of reserved edits and deletions. The gateway, the clock and
-- what other tasks do while the gateway is awaited are arguments.
pub mod Calls
mod Kept
mod Freeing
mod Closed
mod Settled
mod Batch
mod Unsent
mod Sent
mod Tests
use discord_fediverse_bridge.DeliveryService.Requests.{
  Exception, invalid, cancelled, failure, Attempt, returns, raises, DeleteContentRequest,
  UpdateContentRequest, Outside, exception_of, is_community, is_personal_feed, is_empty,
  has_object_kind, validate_mutation_request, delete_request, update_request, send_content,
}
use discord_fediverse_bridge.Base.{
  ℕ, String, Bool, true, false, ◌&&◌, ◌||◌, not, Option, none, some, List, [], ◌∷◌, length, is_some,
  if◌then◌else◌, ◌==◌, ◌!=◌, string_eq, option_eq, Result, ok, raised, Error, value_error,
  transaction,
}
use discord_fediverse_bridge.Delivery.{content_update, content_delete, source_kind_eq}
use discord_fediverse_bridge.Mutation.{MutationStore, Library, Answer, accepted}
use discord_fediverse_bridge.Mutation.Desired.{record_desired_update, record_desired_delete}
use discord_fediverse_bridge.Mutation.Reserve.{reserve_next}
use discord_fediverse_bridge.Mutation.Claims.{MutationClaim, claim_due}
use discord_fediverse_bridge.Mutation.Commit.{body_or_empty, commit_canonical}
use discord_fediverse_bridge.Mutation.Reports.{
  mark_send_possible, record_canonical_result, record_retryable_failure, abort_local_validation,
  load_canonical_ready,
}

-- Each call of the tables is a transaction of its own. The first part of a pair is the exception
-- that the handlers of the claim see.
module _ (lib : Library) (w : Outside) (c : MutationClaim) where
  abbrev pub reserve_for : String → MutationStore → Result (Option ℕ) × MutationStore
  reserve_for object_id s = transaction s (reserve_next lib object_id c.request.target_inbox_urls s)

  abbrev pub after_reserving : Result (Option ℕ) × MutationStore → Option Exception × MutationStore
  after_reserving (r, s) = (exception_of w.error_text r, s)

  abbrev pub after_commit :
      Result (Option (ℕ × String)) × MutationStore → Option Exception × MutationStore
  after_commit (ok (some (source_id, object_id)), s) = after_reserving (reserve_for object_id s)
  after_commit (r, s) = (exception_of w.error_text r, s)

  unfoldable pub commit_and_reserve : String → MutationStore → Option Exception × MutationStore
  commit_and_reserve canonical s = after_commit (
      transaction s
        (commit_canonical lib (w.committed_at c) c.mutation_id c.claim_token canonical s))

  -- `continue` when the claim has lost its row
  abbrev pub when_recorded : String → Bool × MutationStore → Option Exception × MutationStore
  when_recorded canonical (true, s) = commit_and_reserve canonical s
  when_recorded canonical (false, s) = (none, s)

  abbrev pub after_sending : Attempt String → MutationStore → Option Exception × MutationStore
  after_sending (raises e) s = (some e, s)
  after_sending (returns canonical) s =
      when_recorded canonical (record_canonical_result c.mutation_id c.claim_token canonical s)

  abbrev pub when_marked : Bool × MutationStore → Option Exception × MutationStore
  when_marked (true, s) = after_sending (send_content w c) (w.meanwhile c s)
  when_marked (false, s) = (none, s)

  unfoldable pub dispatch : MutationStore → Option Exception × MutationStore
  dispatch s = elim (validate_mutation_request c) [
    | some text ↦ (some (invalid text), s)
    | none ↦ when_marked (mark_send_possible c.mutation_id c.claim_token s)
  ]

  -- the body of the `try`
  unfoldable pub try_claim : MutationStore → Option Exception × MutationStore
  try_claim s = elim (load_canonical_ready c.mutation_id c.claim_token s) [
    | some canonical ↦ commit_and_reserve canonical s
    | none ↦ dispatch s
  ]

  abbrev pub has_raised : {A : Type 0} → Result A × MutationStore → Bool × MutationStore
  has_raised (ok a, s) = (false, s)
  has_raised (raised e, s) = (true, s)

  -- the three handlers; the first part tells whether an exception leaves the loop
  unfoldable pub handle_exception : Option Exception × MutationStore → Bool × MutationStore
  handle_exception (none, s) = (false, s)
  handle_exception (some (invalid text), s) = has_raised (
      reserve_for c.request.ap_object_id
        (abort_local_validation c.mutation_id c.claim_token text s))
  handle_exception (some cancelled, s) = (
    true,
    record_retryable_failure (w.failed_at c) c.mutation_id c.claim_token
        "worker cancelled after dispatch boundary" s,
  )
  handle_exception (some (failure text), s) =
      (false, record_retryable_failure (w.failed_at c) c.mutation_id c.claim_token text s)

-- the number of the rows of a loop, or an exception that has left it
abbrev pub count_or_raise : ℕ → Bool × MutationStore → Option ℕ × MutationStore
count_or_raise n (true, s) = (none, s)
count_or_raise n (false, s) = (some n, s)

module _ (lib : Library) (w : Outside) where
  unfoldable pub drain_claims : List MutationClaim → MutationStore → Bool × MutationStore
  drain_claims [] s = (false, s)
  drain_claims (c ∷ cs) s =
      let (stop, t) = handle_exception lib w c (try_claim lib w c s) in
      let rest = drain_claims cs t in if stop then (true, t) else rest

module _ (lib : Library) (w : Outside) (token_hex : ℕ → String) (now : ℕ) where
  -- the number of claims, or an exception; a claim is stale after 300 seconds
  unfoldable pub drain_mutations : ℕ → MutationStore → Option ℕ × MutationStore
  drain_mutations limit s =
      let (batch, t) = claim_due token_hex now 300 limit s in
      count_or_raise (length batch) (drain_claims lib w batch t)

  abbrev pub answer_drained : Answer → Option ℕ × MutationStore → Option Answer × MutationStore
  answer_drained answer (none, s) = (none, s)
  answer_drained answer (some n, s) = (some answer, s)

  abbrev pub after_admission :
      Answer → Result (Option ℕ) × MutationStore → Option Answer × MutationStore
  after_admission answer (raised e, s) = (none, s)
  after_admission answer (ok reserved, s) = answer_drained answer (drain_mutations 1 s)

  -- what an edit and a deletion have in common; `none` is an exception
  unfoldable pub admit_desired :
      String → Option (List String) → Answer × MutationStore → Option Answer × MutationStore
  admit_desired object_id targets (accepted, s) =
      after_admission accepted (transaction s (reserve_next lib object_id targets s))
  admit_desired object_id targets (answer, s) = (some answer, s)

  unfoldable pub submit_update :
      String
      → Option String
      → String
      → ℕ
      → Option (List String)
      → MutationStore
      → Option Answer × MutationStore
  submit_update object_id title body edited targets s =
      admit_desired object_id targets (record_desired_update lib object_id title body edited s)

  unfoldable pub submit_delete :
      String → Option (List String) → MutationStore → Option Answer × MutationStore
  submit_delete object_id targets s =
      admit_desired object_id targets (record_desired_delete lib object_id s)
