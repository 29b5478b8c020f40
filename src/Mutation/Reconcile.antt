-- ===== src/Mutation/Reconcile.antt =====
-- src/db/repositories/content_mutations.py: convergence to the message that Discord has now.
use discord_fediverse_bridge.Base.{
  ℕ, ◌+◌, String, true, false, ◌&&◌, not, Option, none, some, List, [], ◌∷◌, ltb, leb, ◌==◌, nat_eq,
  string_eq, option_eq, filter, find, take, sort_by, if◌then◌else◌, Result, ok, ◌>>=◌,
}
use discord_fediverse_bridge.Delivery.Outcomes.{backoff_seconds}
use discord_fediverse_bridge.Mutation.{
  update, desired_kind_eq, Answer, missing, deleted, stale, duplicate, accepted, not_needed,
  answer_eq, Published, MutationStore, Library,
}
use discord_fediverse_bridge.Mutation.Desired.{
  published_of, set_published, is_terminal, desire_update,
}
use discord_fediverse_bridge.Mutation.Reserve.{reserve_next_in_session}
use discord_fediverse_bridge.Mutation.Reports.{error_prefix}
use discord_fediverse_bridge.Mutation.Claims.{has_come}

abbrev pub settle : Published → Published
settle p = record p {
  reconciliation_needed = false;
  reconciliation_next_attempt_at = none;
  reconciliation_last_error = none;
}

-- the answer to a fetched state, by the tests of the method in their order
unfoldable pub fetched_answer : String → ℕ → Published → Answer
fetched_answer fingerprint edited p =
    let converge =
      if p.desired_edited_timestamp == some edited && p.desired_fingerprint == some fingerprint
      then duplicate
      else accepted in
    if is_terminal p then deleted else (elim p.desired_edited_timestamp [
      | none ↦ converge
      | some current ↦ if ltb edited current then stale else converge
    ])

-- the row that the reservation is made from: the desired state is written before it
abbrev pub converged : Answer → String → Option String → String → ℕ → Published → Published
converged accepted fingerprint title body edited p = desire_update fingerprint title body edited p
converged _ fingerprint title body edited p = p

unfoldable pub reconcile_authoritative_update_and_reserve :
    Library
    → String
    → Option String
    → String
    → ℕ
    → Option (List String)
    → MutationStore
    → Result (Answer × MutationStore)
reconcile_authoritative_update_and_reserve lib object_id title body edited targets s =
    elim (published_of object_id s) [
      | none ↦ ok (missing, s)
      | some p ↦
          let fingerprint = lib.content_digest update title (some body) in
          let answer = fetched_answer fingerprint edited p in
          let q = converged answer fingerprint title body edited p in
          let t = set_published p.id (converged answer fingerprint title body edited) s in
          let done = reserve_next_in_session lib q targets t >>= λ r.
          ok (answer, set_published p.id settle r.1) in
          if not p.reconciliation_needed
          then ok (not_needed, s)
          else if answer == deleted
          then ok (deleted, set_published p.id settle s)
          else if answer == stale
          then ok (stale, s)
          else done
    ]

abbrev pub request_reconciliation : ℕ → String → Published → Published
request_reconciliation now error p = record p {
  reconciliation_needed = true;
  reconciliation_last_error = some (error_prefix error);
  reconciliation_next_attempt_at = some now;
}

unfoldable pub request_discord_reconciliation :
    ℕ → ℕ → ℕ → String → MutationStore → Answer × MutationStore
request_discord_reconciliation now channel_id message_id error s =
    elim (find
      (λ p. p.discord_channel_id == some channel_id && p.discord_message_id == some message_id)
      s.published) [
        | none ↦ (missing, s)
        | some p ↦
            if is_terminal p
            then (deleted, s)
            else (accepted, set_published p.id (request_reconciliation now error) s)
      ]

-- the rows whose channel or message is not known take a place in the batch, and are left out of it
with_message : List Published → List (ℕ × ℕ × String × Option String)
with_message [] = []
with_message (p ∷ ps) =
    let rest = with_message ps in
    elim p.discord_channel_id [
      | none ↦ rest
      | some channel_id ↦ elim p.discord_message_id [
        | none ↦ rest
        | some message_id ↦ (channel_id, message_id, p.object_id, p.title) ∷ rest
      ]
    ]

unfoldable pub due_reconciliations : ℕ → ℕ → MutationStore → List (ℕ × ℕ × String × Option String)
unfolding with_message
due_reconciliations now limit s = with_message (
    take limit (
      sort_by (λ p q. leb p.id q.id)
        (filter (λ p. p.reconciliation_needed && has_come true now p.reconciliation_next_attempt_at)
          s.published)))

abbrev pub reconciliation_failure : ℕ → String → Published → Published
reconciliation_failure now error p = record p {
  reconciliation_attempt_count = p.reconciliation_attempt_count + 1;
  reconciliation_last_error = some (error_prefix error);
  reconciliation_next_attempt_at =
      some (now + backoff_seconds (p.reconciliation_attempt_count + 1));
}

unfoldable pub record_reconciliation_failure : ℕ → String → String → MutationStore → MutationStore
record_reconciliation_failure now object_id error s = elim (published_of object_id s) [
  | none ↦ s
  | some p ↦ set_published p.id (reconciliation_failure now error) s
]

unfoldable pub clear_reconciliation : String → MutationStore → MutationStore
clear_reconciliation object_id s = elim (published_of object_id s) [
  | none ↦ s
  | some p ↦ set_published p.id settle s
]
