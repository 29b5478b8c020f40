-- ===== src/DeliveryService/Calls.antt =====
-- src/user_actor_delivery.py: the admission of a claim is a sequence of calls of the repository.
use discord_fediverse_bridge.Base.{ℕ, Bool, true, false}
use discord_fediverse_bridge.Delivery.{Store, Claim}
use discord_fediverse_bridge.Delivery.Outcomes.{mark_submitted}
use discord_fediverse_bridge.Delivery.Lifecycle.{Reach, next, Step}
use discord_fediverse_bridge.DeliveryService.{Reply, answers, fails, Session, admit_claim, submit}

submit-Reach :
    {s : Store} (c : Claim) (t : Session) (r : Bool × Store)
    → Reach s r.1
    → Reach s (submit c t r).store
submit-Reach c t (true, u) path = path
submit-Reach c t (false, u) path = path

pub admit_claim-Reach :
    {s : Store} (now : ℕ) (c : Claim) (r : Reply Bool) (t : Session)
    → Reach s t.store
    → Reach s (admit_claim now c r t).store
unfolding admit_claim
admit_claim-Reach now c (fails e) t path =
    next path (Step.release now c.delivery_id c.claim_token e)
admit_claim-Reach now c (answers false) t path =
    next
      (next path (Step.ineligible c.delivery_id c.claim_token "federation policy denied endpoint"))
      (Step.free_media c.source_id)
admit_claim-Reach now c (answers true) t path =
    submit-Reach c t (mark_submitted now c.delivery_id c.claim_token t.store)
      (next path (Step.submit now c.delivery_id c.claim_token))
