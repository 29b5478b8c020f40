-- ===== src/DeliveryService/Reconciliations.antt =====
-- src/user_actor_delivery.py: convergence of the published objects to the messages of Discord. The
-- reader of messages, the tables of communities and subscribers, the policy and the clock are
-- arguments.
mod Targets
mod Tests
use discord_fediverse_bridge.DeliveryService.Requests.{
  Exception, invalid, cancelled, failure, Attempt, returns, raises, exception_of,
}
use discord_fediverse_bridge.Base.{
  ℕ, String, ◌<>◌, Bool, true, false, Option, none, some, List, [], ◌∷◌, length, if◌then◌else◌,
  Result, ok, raised, Error, runtime_error, transaction,
}
use discord_fediverse_bridge.Relay.Subscribers.{RemoteSubscriber, accepted, list_remote_subscribers}
use discord_fediverse_bridge.Mutation
use discord_fediverse_bridge.Mutation.{
  MutationStore, Library, Answer, missing, deleted, stale, duplicate, conflict, not_needed,
  Published,
}
use discord_fediverse_bridge.Mutation.Desired.{published_of, record_desired_delete}
use discord_fediverse_bridge.Mutation.Reserve.{reserve_next}
use discord_fediverse_bridge.Mutation.Reconcile.{
  due_reconciliations, reconcile_authoritative_update_and_reserve, record_reconciliation_failure,
  clear_reconciliation,
}
use discord_fediverse_bridge.DeliveryService.Mutations.{count_or_raise}

-- what the reader finds: no message, or one with the time of its last edit and its text
pub data FetchedMessage : Type 0 where
  gone : FetchedMessage
  present : Option ℕ → Option String → FetchedMessage

-- `meanwhile` is the change that other tasks make to the tables while the message of an object is
-- awaited; `subscribers` are the rows that are there when the targets of an object are put together.
pub record Surroundings : Type 0 where
  pub discord_message_reader : Option (ℕ → ℕ → Attempt FetchedMessage)
  pub meanwhile : String → MutationStore → MutationStore
  pub local_community_by_actor_url : String → Option ℕ
  pub subscribers : String → List RemoteSubscriber
  pub federation_decision : String → Attempt Bool
  pub error_text : Error → String
  pub failed_at : String → ℕ

-- the reader is attached once
unfoldable pub bind_discord_message_reader :
    (ℕ → ℕ → Attempt FetchedMessage) → Surroundings → Result Surroundings
bind_discord_message_reader reader d = elim d.discord_message_reader [
  | none ↦ ok (record d { discord_message_reader = some reader })
  | some configured ↦ raised runtime_error
]

abbrev pub when_allowed : String → Attempt Bool → Attempt (List String) → Attempt (List String)
when_allowed inbox (raises e) rest = raises e
when_allowed inbox (returns false) rest = rest
when_allowed inbox (returns true) (raises e) = raises e
when_allowed inbox (returns true) (returns inboxes) = returns (inbox ∷ inboxes)

unfoldable pub allowed_inboxes :
    (String → Attempt Bool) → List RemoteSubscriber → Attempt (List String)
allowed_inboxes decision [] = returns []
allowed_inboxes decision (r ∷ rows) =
    when_allowed r.remote_inbox_url (decision r.remote_inbox_url) (allowed_inboxes decision rows)

abbrev pub listed : Attempt (List String) → Attempt (Option (List String))
listed (raises e) = raises e
listed (returns inboxes) = returns (some inboxes)

abbrev pub community_inboxes : Surroundings → String → Option ℕ → Attempt (Option (List String))
community_inboxes d object_id none = returns none
community_inboxes d object_id (some community) = listed (
    allowed_inboxes d.federation_decision
      (list_remote_subscribers community (some accepted) (d.subscribers object_id)))

-- `none` leaves the choice of the targets to the gateway
abbrev pub target_inboxes :
    Surroundings → String → Option Published → Attempt (Option (List String))
target_inboxes d object_id none = returns (some [])
target_inboxes d object_id (some p) = elim p.community_actor_url [
  | none ↦ returns none
  | some url ↦ community_inboxes d object_id (d.local_community_by_actor_url url)
]

unfoldable pub replay_target_inboxes :
    Surroundings → String → MutationStore → Attempt (Option (List String))
replay_target_inboxes d object_id s = target_inboxes d object_id (published_of object_id s)

abbrev pub answer_text : Answer → String
answer_text missing = "missing"
answer_text deleted = "deleted"
answer_text stale = "stale"
answer_text duplicate = "duplicate"
answer_text conflict = "conflict"
answer_text Answer.accepted = "accepted"
answer_text not_needed = "not_needed"

abbrev pub unresolved : Answer → Option Exception
unresolved answer = some (invalid ("Discord reconciliation unresolved: " <> answer_text answer))

abbrev pub unresolved_delete : Answer → Option Exception
unresolved_delete Answer.accepted = none
unresolved_delete duplicate = none
unresolved_delete deleted = none
unresolved_delete answer = unresolved answer

abbrev pub unresolved_update : Answer → Option Exception
unresolved_update not_needed = none
unresolved_update answer = unresolved_delete answer

-- The exception that the handler of a row sees, and the tables.
module _ (lib : Library) (d : Surroundings) (object_id : String) (title : Option String) where
  abbrev pub after_reserving : Result (Option ℕ) × MutationStore → Option Exception × MutationStore
  after_reserving (raised e, s) = (exception_of {A = Option ℕ} d.error_text (raised e), s)
  after_reserving (ok reserved, s) = (none, clear_reconciliation object_id s)

  abbrev pub reserve_delete :
      Attempt (Option (List String)) → MutationStore → Option Exception × MutationStore
  reserve_delete (raises e) s = (some e, s)
  reserve_delete (returns targets) s =
      after_reserving (transaction s (reserve_next lib object_id targets s))

  abbrev pub when_resolved : Option Exception → MutationStore → Option Exception × MutationStore
  when_resolved (some e) s = (some e, s)
  when_resolved none s = reserve_delete (replay_target_inboxes d object_id s) s

  unfoldable pub reconcile_gone : MutationStore → Option Exception × MutationStore
  reconcile_gone s =
      let (answer, t) = record_desired_delete lib object_id s in
      when_resolved (unresolved_delete answer) t

  abbrev pub after_reconciling : Result Answer × MutationStore → Option Exception × MutationStore
  after_reconciling (raised e, s) = (exception_of {A = Answer} d.error_text (raised e), s)
  after_reconciling (ok answer, s) = (unresolved_update answer, s)

  abbrev pub reconcile_update :
      String → ℕ → Attempt (Option (List String)) → MutationStore → Option Exception × MutationStore
  reconcile_update content edited_at (raises e) s = (some e, s)
  reconcile_update content edited_at (returns targets) s = after_reconciling (
      transaction s (
        reconcile_authoritative_update_and_reserve lib object_id title content edited_at targets s))

  abbrev pub lacks_state : Option Exception
  lacks_state = some (invalid "Discord message state lacks edited timestamp or content")

  unfoldable pub reconcile_present :
      Option ℕ → Option String → MutationStore → Option Exception × MutationStore
  reconcile_present none content s = (lacks_state, s)
  reconcile_present (some edited_at) none s = (lacks_state, s)
  reconcile_present (some edited_at) (some content) s =
      reconcile_update content edited_at (replay_target_inboxes d object_id s) s

  -- the body of the `try`, behind the call of the reader
  unfoldable pub reconcile_fetched :
      Attempt FetchedMessage → MutationStore → Option Exception × MutationStore
  reconcile_fetched (raises e) s = (some e, s)
  reconcile_fetched (returns gone) s = reconcile_gone s
  reconcile_fetched (returns (present edited_at content)) s = reconcile_present edited_at content s

  -- the handler, which does not catch a cancellation
  abbrev pub handle_reconciliation : Option Exception × MutationStore → Bool × MutationStore
  handle_reconciliation (none, s) = (false, s)
  handle_reconciliation (some cancelled, s) = (true, s)
  handle_reconciliation (some (invalid text), s) =
      (false, record_reconciliation_failure (d.failed_at object_id) object_id text s)
  handle_reconciliation (some (failure text), s) =
      (false, record_reconciliation_failure (d.failed_at object_id) object_id text s)

module _ (lib : Library) (d : Surroundings) (fetch : ℕ → ℕ → Attempt FetchedMessage) where
  unfoldable pub drain_rows :
      List (ℕ × ℕ × String × Option String) → MutationStore → Bool × MutationStore
  drain_rows [] s = (false, s)
  drain_rows ((channel_id, message_id, object_id, title) ∷ rows) s =
      let (stop, t) = handle_reconciliation lib d object_id title (
        reconcile_fetched lib d object_id title (fetch channel_id message_id)
          (d.meanwhile object_id s)) in
      let rest = drain_rows rows t in if stop then (true, t) else rest

-- the number of rows, or an exception
unfoldable pub drain_reconciliations :
    Library → Surroundings → ℕ → ℕ → MutationStore → Option ℕ × MutationStore
drain_reconciliations lib d now limit s = elim d.discord_message_reader [
  | none ↦ (some 0, s)
  | some fetch ↦
      let rows = due_reconciliations now limit s in
      count_or_raise (length rows) (drain_rows lib d fetch rows s)
]
