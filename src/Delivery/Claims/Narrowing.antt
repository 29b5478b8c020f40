-- ===== src/Delivery/Claims/Narrowing.antt =====
-- src/db/repositories/user_actor_delivery_claims.py: what a batch may do to the rows of the table.
-- No row becomes unfinished or delivered by a batch, and a settled row stays as it is.
use discord_fediverse_bridge.Base.{
  ℕ, ◌≡◌, ◌≢◌, String, true, false, some, List, [], arith, nat_eq, ◌⊎◌,
}
use discord_fediverse_bridge.Base.Table.{get}
use discord_fediverse_bridge.Delivery.{
  Status, ineligible, superseded, is_unfinished, delivered, Source, Delivery, User,
}
use discord_fediverse_bridge.Delivery.Lease.{IsLeased}
use discord_fediverse_bridge.Delivery.Claims.{
  is_visible_delete_status, is_candidate, within_claim_limits, newer_delete_status,
  has_newer_delivered, has_lower_unfinished, eligible_actor_ids,
}
use discord_fediverse_bridge.Delivery.Claims.Batch.{
  finish, claim, Batch, decide, is_waiting_delete, mark_terminal, mark_sending,
}

pub record Narrows (d e : Delivery) : Type 0 where
  pub same_id : e.id ≡ d.id
  pub same_source : e.source_id ≡ d.source_id
  pub same_endpoint : e.target_endpoint_url ≡ d.target_endpoint_url
  pub same_attempts : e.attempt_count ≡ d.attempt_count
  pub leased : IsLeased d → IsLeased e
  pub unfinished : is_unfinished e.status ≡ true → is_unfinished d.status ≡ true
  pub visible : is_visible_delete_status e.status ≡ true → is_visible_delete_status d.status ≡ true
  pub settled : is_unfinished d.status ≡ false → e ≡ d

pub Narrows-refl : (d : Delivery) → Narrows d d
Narrows-refl d = ground arith

pub decide-finish :
    (limit : ℕ) (b : Batch) (d : Delivery) (src : Source) (st : Status)
    → decide limit b d src ≡ finish st
    → (st ≡ superseded) ⊎ (st ≡ ineligible)
unfolding decide
decide-finish limit b d src st h = ground arith

pub candidate-unfinished :
    (now stale_after : ℕ) (d : Delivery) (src : Source)
    → is_candidate now stale_after d src ≡ true
    → is_unfinished d.status ≡ true
unfolding is_candidate
candidate-unfinished now stale_after d src h = ground arith

pub mark_terminal-Narrows :
    (st : Status) (x y : Delivery)
    → is_unfinished x.status ≡ true
    → (st ≡ superseded) ⊎ (st ≡ ineligible)
    → Narrows x y
    → Narrows x (mark_terminal st y)
mark_terminal-Narrows st x y u h n = ground arith

pub mark_sending-Narrows :
    (token : String) (now : ℕ) (x y : Delivery)
    → is_unfinished x.status ≡ true
    → Narrows x y
    → Narrows x (mark_sending token now y)
mark_sending-Narrows token now x y u n = ground arith

-- What `decide` has tested where it claims.
pub record Admitted (limit : ℕ) (b : Batch) (d : Delivery) (src : Source) (user : User)
    (ids : List String) : Type 0 where
  pub room :
      within_claim_limits src.user_id d.target_endpoint_url b.seen_endpoints b.claimed_per_user
        limit
      ≡ true
  pub no_delivered_delete : newer_delete_status b.store d src ≢ some delivered
  pub no_waiting_delete : is_waiting_delete (newer_delete_status b.store d src) ≡ false
  pub no_newer_delivered : has_newer_delivered b.store d src ≡ false
  pub no_lower_unfinished : has_lower_unfinished b.store d src ≡ false
  pub owner : get (λ (u : User). u.id) src.user_id b.store.users ≡ some user
  pub audience : eligible_actor_ids b.store d.id src.user_id ≡ ids
  pub someone : ids ≢ []

pub decide-claim :
    (limit : ℕ) (b : Batch) (d : Delivery) (src : Source) (user : User) (ids : List String)
    → decide limit b d src ≡ claim user ids
    → Admitted limit b d src user ids
unfolding decide
decide-claim limit b d src user ids h = ground arith
