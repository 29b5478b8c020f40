-- ===== src/Delivery/Outcomes/Stale.antt =====
-- src/db/repositories/user_actor_delivery_outcomes.py: a report on a claim that has gone.
use discord_fediverse_bridge.Base.{ℕ, ◌≡◌, refl, String, Bool, false, Option, any, nat_eq}
use discord_fediverse_bridge.Base.Table.{update_where_none, filter_none, find-none}
use discord_fediverse_bridge.Delivery.{Store}
use discord_fediverse_bridge.Delivery.Outcomes.{
  owns, suppress, release, count_attempt, mark_ineligible, release_unsubmitted_claim,
  mark_submitted, record_outcome, complete_claim,
}

-- When no row with the id is sending under the token, none of the four reports of a worker changes
-- any table, and `mark_submitted` answers false.
pub reports_stale :
    (now id : ℕ) (token reason : String) (ok : Bool) (error : Option String) (s : Store)
    → any (owns id token) s.deliveries ≡ false
    → (mark_ineligible id token reason s ≡ s)
      × (release_unsubmitted_claim now id token reason s ≡ s)
      × (mark_submitted now id token s ≡ (false, s))
      × (record_outcome now id token ok error s ≡ s)
unfolding mark_ineligible release_unsubmitted_claim mark_submitted record_outcome complete_claim
    nat_eq
reports_stale now id token reason ok error s h = (
  rw (update_where_none (owns id token) (suppress reason) s.deliveries h) refl,
  rw (update_where_none (owns id token) (release now reason) s.deliveries h) refl,
  rw (update_where_none (owns id token) (count_attempt now) s.deliveries h) rw
      (filter_none (owns id token) s.deliveries h) refl,
  rw (find-none (owns id token) s.deliveries h) refl,
)
