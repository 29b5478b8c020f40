-- ===== src/DeliveryService/Tests.antt =====
-- src/user_actor_delivery.py: a drain of one claim, which the policy allows and the gateway leaves out
-- of its answer.
use discord_fediverse_bridge.Base.{
  ◌≡◌, refl, true, false, [], ◌∷◌, In, inl, arith, any, find, option_eq, nat_eq, string_eq, filter,
  insert_by, sort_by,
}
use discord_fediverse_bridge.Base.Distinct.{Distinct}
use discord_fediverse_bridge.Base.Table.{update_where, get}
use discord_fediverse_bridge.Delivery.{
  delivered, content_update, source_kind_eq, source_state_eq, status_eq, Delivery,
}
use discord_fediverse_bridge.Delivery.Claims.{
  source_of, load_due_candidates, is_candidate, within_claim_limits, newer_delete_status,
  has_newer_delivered, has_lower_unfinished, eligible_actor_ids,
}
use discord_fediverse_bridge.Delivery.Claims.Batch.{
  claim_due, claim_loop, step, apply, decide, set_delivery,
}
use discord_fediverse_bridge.Delivery.Outcomes.{owns, mark_submitted}
use discord_fediverse_bridge.Delivery.Tests.{edited, claim, claimed, store, delivery, token_hex}
use discord_fediverse_bridge.DeliveryService.{
  World, answers, Group, admit_claims, admit_claim, any_allowed, add_group, drain_deliveries,
}
use discord_fediverse_bridge.DeliveryService.Settling.{drain_deliveries-Settled}
use discord_fediverse_bridge.DeliveryService.Admitted.{Sent, drain_deliveries-Sent}

abbrev pub silent : World
silent = record {
  federation_decision = λ c text. answers true;
  send_user_actor_deliveries = λ url name payloads. answers [];
  admitted_at = λ c. 101;
  reported_at = λ c. 102;
}

edited_keys : Distinct (λ (d : Delivery). d.id) edited.deliveries
edited_keys = ground arith

claims_second :
    claim_due token_hex 100 5 10 300 edited
    ≡ (claim ∷ [], store content_update (delivery 1 delivered ∷ claimed ∷ []))
unfolding claim_due claim_loop step apply decide load_due_candidates is_candidate sort_by insert_by
    source_of get find update_where set_delivery newer_delete_status has_newer_delivered
    has_lower_unfinished any filter eligible_actor_ids within_claim_limits nat_eq string_eq
    option_eq source_kind_eq source_state_eq status_eq
claims_second = refl

In-second : In claim (claim_due token_hex 100 5 10 300 edited).0
In-second = rw claims_second (inl refl)

abbrev bobs : Group
bobs = record {
  actor_url = claim.actor_url;
  actor_username = claim.actor_username;
  claims = claim ∷ [];
}

sends_second : In bobs (drain_deliveries silent token_hex 100 10 edited).groups
unfolding drain_deliveries admit_claims admit_claim any_allowed add_group mark_submitted claim_due
    claim_loop step apply decide load_due_candidates is_candidate sort_by insert_by source_of get
    find update_where set_delivery newer_delete_status has_newer_delivered has_lower_unfinished any
    filter eligible_actor_ids within_claim_limits nat_eq string_eq option_eq source_kind_eq
    source_state_eq status_eq
sends_second = inl refl

drain_deliveries-Settled_example :
    any
      (owns claim.delivery_id claim.claim_token)
      (drain_deliveries silent token_hex 100 10 edited).store.deliveries
    ≡ false
drain_deliveries-Settled_example =
    drain_deliveries-Settled silent token_hex 100 10 edited edited_keys claim In-second

drain_deliveries-Sent_example :
    Sent silent (claim_due token_hex 100 5 10 300 edited).0 bobs.actor_url bobs.actor_username claim
drain_deliveries-Sent_example =
    drain_deliveries-Sent silent token_hex 100 10 edited bobs claim sends_second (inl refl)
