-- ===== src/Delivery/Lifecycle.antt =====
-- src/db/repositories/user_actor_deliveries.py: the facade's operations as steps of the tables, and
-- what every step keeps of a delivery row.
pub mod Settled
pub mod Inserted
pub mod Sourced
pub mod History
use discord_fediverse_bridge.Base.{
  transaction, List, ℕ, ◌≤◌, ◌≡◌, String, Bool, true, false, Option, none, some, arith, is_some,
  ◌==◌,
}
use discord_fediverse_bridge.IdentityUrls.{Urllib}
use discord_fediverse_bridge.Delivery.{
  sending, status_eq, Delivery, Store, is_unfinished, SourceKind, Follower,
}
use discord_fediverse_bridge.Delivery.Sources.{insert_source_graph, insert_ready_content_source}
use discord_fediverse_bridge.Delivery.Lease.{IsLeased}
use discord_fediverse_bridge.Delivery.Claims.Batch.{claim_due}
use discord_fediverse_bridge.Delivery.Outcomes.{
  mark_ineligible, release_unsubmitted_claim, mark_submitted, record_outcome,
  release_terminal_source_media,
}
use discord_fediverse_bridge.Delivery.Admin.{retry_failed, retry_failed_batch}
use discord_fediverse_bridge.Delivery.Render.{record_rendered, record_render_failure}

-- One call on the sources and deliveries that are there, with any arguments: a worker may report at any
-- time, also on a claim that has gone to another.
pub data Step (s : Store) : Store → Type 0 where
  claims :
      (token_hex : ℕ → String) (now per_user_limit limit stale_after : ℕ)
      → Step s (claim_due token_hex now per_user_limit limit stale_after s).1
  ineligible : (id : ℕ) (token reason : String) → Step s (mark_ineligible id token reason s)
  release :
      (now id : ℕ) (token error : String) → Step s (release_unsubmitted_claim now id token error s)
  submit : (now id : ℕ) (token : String) → Step s (mark_submitted now id token s).1
  outcome :
      (now id : ℕ) (token : String) (ok : Bool) (error : Option String)
      → Step s (record_outcome now id token ok error s)
  free_media : (source_id : ℕ) → Step s (release_terminal_source_media source_id s).1
  retry :
      (delivery_id source_id : Option ℕ) (username : Option String)
      → Step s (retry_failed delivery_id source_id username s).1
  retry_batch :
      (username : String) (limit : ℕ)
      → Step s (transaction s (retry_failed_batch username limit s)).1
  render :
      (now source_id : ℕ) (encoded : String) → Step s (record_rendered now source_id encoded s).1
  render_fails :
      (now source_id : ℕ) (error : String) → Step s (record_render_failure now source_id error s)

pub data Reach (s : Store) : Store → Type 0 where
  here : Reach s s
  next : {t u : Store} → Reach s t → Step t u → Reach s u

-- One writing call of the facade: on what is there, or one that makes a source with its deliveries. One
-- that raises leaves the tables as they were.
pub data Call (s : Store) : Store → Type 0 where
  steps : {t : Store} → Step s t → Call s t
  makes_profile :
      (lib : Urllib) (profile_key : String) (user_id version : ℕ) (activity_id snapshot : String)
      (followers : List Follower) (media_refs : List (String × ℕ))
      → Call s
          (transaction s (
            insert_source_graph lib profile_key user_id version activity_id snapshot followers
              media_refs s)).1
  makes_content :
      (lib : Urllib) (user_id : ℕ) (kind : SourceKind) (version : ℕ) (activity_id : String)
      (published_id : ℕ) (object_id activity_json snapshot : String) (followers : List Follower)
      (direct : Option (List String))
      → Call s
          (transaction s (
            insert_ready_content_source lib user_id kind version activity_id published_id object_id
              activity_json snapshot followers direct s)).1

pub data Run (s : Store) : Store → Type 0 where
  start : Run s s
  then_call : {t u : Store} → Run s t → Call t u → Run s u

-- What a step may do to a row.
pub record Moves (d e : Delivery) : Type 0 where
  pub same_id : e.id ≡ d.id
  pub same_source : e.source_id ≡ d.source_id
  pub same_endpoint : e.target_endpoint_url ≡ d.target_endpoint_url
  pub attempts : d.attempt_count ≤ e.attempt_count
  pub settled : is_unfinished d.status ≡ false → e ≡ d
  pub leased : IsLeased d → IsLeased e
