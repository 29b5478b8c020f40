-- ===== src/Delivery/Outcomes.antt =====
-- src/db/repositories/user_actor_delivery_outcomes.py: what a worker reports of its claims. Each
-- method finds the row that its claim owns; an id is a primary key, so there is one at most.
pub mod Stale
pub mod Deletes
pub mod Media
pub mod Backoff
use discord_fediverse_bridge.Base.{
  ℕ, ◌+◌, ◌^◌, min, String, Bool, true, false, ◌&&◌, ◌||◌, Option, none, some, List, ltb,
  if◌then◌else◌, ◌==◌, ◌!=◌, nat_eq, string_eq, option_eq, filter, any, find, length,
}
use discord_fediverse_bridge.Base.Table.{update_where}
use discord_fediverse_bridge.Delivery.{
  content_delete, SourceState, Status, pending, sending, delivered, failed, ineligible, superseded,
  source_kind_eq, source_state_eq, status_eq, Source, Delivery, SourceMedia, Store, is_unfinished,
}
use discord_fediverse_bridge.Delivery.Diagnostics.{bound_delivery_error}
use discord_fediverse_bridge.Delivery.Claims.{source_of}

-- WHERE id = … AND status = 'sending' AND claim_token = …
abbrev pub owns : ℕ → String → Delivery → Bool
owns delivery_id token d = d.id == delivery_id && d.status == sending && d.claim_token == some token

abbrev pub with_deliveries : Store → List Delivery → Store
with_deliveries s ds = record s { deliveries = ds }

abbrev pub suppress : String → Delivery → Delivery
suppress reason d = record d {
  status = ineligible;
  claim_token = none;
  claimed_at = none;
  last_error = some (bound_delivery_error reason);
  next_attempt_at = none;
}

unfoldable pub mark_ineligible : ℕ → String → String → Store → Store
mark_ineligible delivery_id token reason s =
    with_deliveries s (update_where (owns delivery_id token) (suppress reason) s.deliveries)

abbrev pub release : ℕ → String → Delivery → Delivery
release now error d = record d {
  status = failed;
  claim_token = none;
  claimed_at = none;
  last_error = some (bound_delivery_error error);
  next_attempt_at = some (now + 15);
}

unfoldable pub release_unsubmitted_claim : ℕ → ℕ → String → String → Store → Store
release_unsubmitted_claim now delivery_id token error s =
    with_deliveries s (update_where (owns delivery_id token) (release now error) s.deliveries)

abbrev pub count_attempt : ℕ → Delivery → Delivery
count_attempt now d = record d { attempt_count = d.attempt_count + 1; last_attempted_at = some now }

-- the result is `rowcount == 1`
unfoldable pub mark_submitted : ℕ → ℕ → String → Store → Bool × Store
mark_submitted now delivery_id token s = (
  length (filter (owns delivery_id token) s.deliveries) == 1,
  with_deliveries s (update_where (owns delivery_id token) (count_attempt now) s.deliveries),
)

abbrev pub complete : ℕ → Delivery → Delivery
complete now d = record d {
  claim_token = none;
  claimed_at = none;
  status = delivered;
  delivered_at = some now;
  last_error = none;
  next_attempt_at = none;
}

-- `min(300, 2 ** min(attempt_count, 8))` seconds
unfoldable pub backoff_seconds : ℕ → ℕ
backoff_seconds attempts = min 300 (2 ^ min attempts 8)

-- `error or "delivery failed"`
unfoldable pub error_text : Option String → String
error_text none = "delivery failed"
error_text (some e) = if e == "" then "delivery failed" else e

abbrev pub fail : ℕ → Option String → Delivery → Delivery
fail now error d = record d {
  claim_token = none;
  claimed_at = none;
  status = failed;
  last_error = some (bound_delivery_error (error_text error));
  next_attempt_at = some (now + backoff_seconds d.attempt_count);
}

-- an unsent row of the object at the endpoint, older than the Delete
unfoldable pub is_older_unsent : Store → Delivery → Source → Delivery → Bool
is_older_unsent s d src o = elim (source_of s o.source_id) [
  | none ↦ false
  | some t ↦
      t.ordering_key == src.ordering_key
      && ltb t.logical_version src.logical_version
      && o.target_endpoint_url == d.target_endpoint_url
      && (o.status == pending || o.status == failed)
]

abbrev pub supersede : Delivery → Delivery
supersede d = record d {
  status = superseded;
  claim_token = none;
  claimed_at = none;
  next_attempt_at = none;
  last_error = none;
}

unfoldable pub supersede_older : Delivery → Option Source → Store → Store
supersede_older d none s = s
supersede_older d (some src) s =
    if src.source_kind == content_delete
    then with_deliveries s (update_where (is_older_unsent s d src) supersede s.deliveries)
    else s

-- the rest of `record_outcome`, with the row that the claim owns
unfoldable pub complete_claim :
    ℕ → ℕ → String → Bool → Option String → Option Delivery → Store → Store
complete_claim now delivery_id token ok error none s = s
complete_claim now delivery_id token true error (some d) s =
    supersede_older d (source_of s d.source_id)
      (with_deliveries s (update_where (owns delivery_id token) (complete now) s.deliveries))
complete_claim now delivery_id token false error (some d) s =
    with_deliveries s (update_where (owns delivery_id token) (fail now error) s.deliveries)

unfoldable pub record_outcome : ℕ → ℕ → String → Bool → Option String → Store → Store
record_outcome now delivery_id token ok error s =
    complete_claim now delivery_id token ok error (find (owns delivery_id token) s.deliveries) s

-- the result is the number of media references that were deleted
unfoldable pub release_terminal_source_media : ℕ → Store → ℕ × Store
release_terminal_source_media source_id s = elim (source_of s source_id) [
  | none ↦ (0, s)
  | some src ↦
      if src.state == SourceState.ready
      then (if any (λ (d : Delivery). d.source_id == source_id && is_unfinished d.status)
            s.deliveries
          then (0, s)
          else (
            length (filter (λ (m : SourceMedia). m.source_id == source_id) s.media),
            record s { media = filter (λ (m : SourceMedia). m.source_id != source_id) s.media },
          ))
      else (0, s)
]

abbrev count_of : (Status → Bool) → ℕ → List Delivery → ℕ
count_of p source_id ds =
    length (filter (λ (d : Delivery). d.source_id == source_id && p d.status) ds)

-- delivered, outstanding and all rows of one source
unfoldable pub source_summary : ℕ → Store → ℕ × ℕ × ℕ
source_summary source_id s = (
  count_of (λ st. st == delivered) source_id s.deliveries,
  count_of is_unfinished source_id s.deliveries,
  count_of (λ _. true) source_id s.deliveries,
)
