-- ===== src/Mutation/Reports.antt =====
-- src/db/repositories/content_mutations.py: what a recovery owner reports of its claims. Each
-- method finds the row that its claim owns; an id is a primary key, so there is one at most.
use discord_fediverse_bridge.Base.{
  ℕ, ◌+◌, String, Bool, ◌&&◌, Option, none, some, List, ◌==◌, nat_eq, string_eq, option_eq, any,
  find, if◌then◌else◌,
}
use discord_fediverse_bridge.Base.Table.{update_where, get}
use discord_fediverse_bridge.Delivery.Diagnostics.{take_chars}
use discord_fediverse_bridge.Delivery.Outcomes.{backoff_seconds}
use discord_fediverse_bridge.Mutation.{
  unchanged, update, desired_kind_eq, MutationState, dispatching, ambiguous, canonical_ready,
  aborted_pre_send, mutation_state_eq, not_dispatched, send_possible, canonical_received, Published,
  Mutation, MutationStore,
}
use discord_fediverse_bridge.Mutation.Desired.{set_published}

-- WHERE id = … AND claim_token = … AND state = …
abbrev pub owns : MutationState → ℕ → String → Mutation → Bool
owns st mutation_id token m = m.id == mutation_id && m.claim_token == some token && m.state == st

abbrev pub with_mutations : MutationStore → List Mutation → MutationStore
with_mutations s ms = record s { mutations = ms }

-- `error[:500]`
abbrev pub error_prefix : String → String
error_prefix error = take_chars 500 error

unfoldable pub mark_send_possible : ℕ → String → MutationStore → Bool × MutationStore
mark_send_possible mutation_id token s = (
  any (owns dispatching mutation_id token) s.mutations,
  with_mutations s (
      update_where (owns dispatching mutation_id token)
        (λ m. record m { side_effect_classification = send_possible }) s.mutations),
)

abbrev pub receive : String → Mutation → Mutation
receive activity_json m = record m {
  canonical_activity_json = some activity_json;
  state = canonical_ready;
  side_effect_classification = canonical_received;
  last_error = none;
  next_attempt_at = none;
}

-- `activity_json` is the canonical text of the activity
unfoldable pub record_canonical_result : ℕ → String → String → MutationStore → Bool × MutationStore
record_canonical_result mutation_id token activity_json s = (
  any (owns dispatching mutation_id token) s.mutations,
  with_mutations s
      (update_where (owns dispatching mutation_id token) (receive activity_json) s.mutations),
)

abbrev pub retry_later : ℕ → String → Mutation → Mutation
retry_later now error m = record m {
  state = ambiguous;
  side_effect_classification = send_possible;
  claim_token = none;
  claimed_at = none;
  lease_expires_at = none;
  last_error = some (error_prefix error);
  next_attempt_at = some (now + backoff_seconds m.attempt_count);
}

unfoldable pub record_retryable_failure : ℕ → ℕ → String → String → MutationStore → MutationStore
record_retryable_failure now mutation_id token error s =
    with_mutations s
      (update_where (owns dispatching mutation_id token) (retry_later now error) s.mutations)

abbrev pub abort : String → Mutation → Mutation
abort error m = record m {
  state = aborted_pre_send;
  side_effect_classification = not_dispatched;
  claim_token = none;
  claimed_at = none;
  lease_expires_at = none;
  last_error = some (error_prefix error);
  next_attempt_at = none;
}

-- the published row still desires what the mutation was to carry out
abbrev pub is_desired_update : String → Published → Bool
is_desired_update fingerprint p =
    p.desired_kind == update && p.desired_fingerprint == some fingerprint

abbrev pub clear_desired : Published → Published
clear_desired p = record p {
  desired_kind = unchanged;
  desired_title = none;
  desired_body_markdown = none;
  desired_edited_timestamp = none;
  desired_fingerprint = none;
}

unfoldable pub withdraw_desired : Mutation → MutationStore → MutationStore
withdraw_desired m s = elim (get (λ (p : Published). p.id) m.published_object_id s.published) [
  | none ↦ s
  | some p ↦
      if is_desired_update m.request_fingerprint p then set_published p.id clear_desired s else s
]

unfoldable pub abort_local_validation : ℕ → String → String → MutationStore → MutationStore
abort_local_validation mutation_id token error s =
    elim (find (owns dispatching mutation_id token) s.mutations) [
      | none ↦ s
      | some m ↦ withdraw_desired m (
          with_mutations s
            (update_where (owns dispatching mutation_id token) (abort error) s.mutations))
    ]

unfoldable pub load_canonical_ready : ℕ → String → MutationStore → Option String
load_canonical_ready mutation_id token s =
    elim (find (owns canonical_ready mutation_id token) s.mutations) [
      | none ↦ none
      | some m ↦ m.canonical_activity_json
    ]
