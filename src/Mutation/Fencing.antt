-- ===== src/Mutation/Fencing.antt =====
-- src/db/repositories/content_mutations.py: a report on a claim that has gone.
use discord_fediverse_bridge.Base.{ℕ, ◌≡◌, refl, String, false, any}
use discord_fediverse_bridge.Base.Table.{update_where_none, find-none}
use discord_fediverse_bridge.Mutation.{dispatching, MutationStore}
use discord_fediverse_bridge.Mutation.Reports.{
  owns, receive, retry_later, mark_send_possible, record_canonical_result, record_retryable_failure,
  abort_local_validation,
}

-- When no dispatching mutation has the id and the token, none of the four reports changes any table,
-- and the two that answer say false.
pub mutation_reports_stale :
    (now id : ℕ) (token text : String) (s : MutationStore)
    → any (owns dispatching id token) s.mutations ≡ false
    → (mark_send_possible id token s ≡ (false, s))
      × (record_canonical_result id token text s ≡ (false, s))
      × (record_retryable_failure now id token text s ≡ s)
      × (abort_local_validation id token text s ≡ s)
unfolding mark_send_possible record_canonical_result record_retryable_failure abort_local_validation
mutation_reports_stale now id token text s h = (
  rw h rw (update_where_none (owns dispatching id token) _ s.mutations h) refl,
  rw h rw (update_where_none (owns dispatching id token) (receive text) s.mutations h) refl,
  rw (update_where_none (owns dispatching id token) (retry_later now text) s.mutations h) refl,
  rw (abort_local_validation, find-none (owns dispatching id token) s.mutations h) refl,
)
