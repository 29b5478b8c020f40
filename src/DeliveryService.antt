-- ===== src/DeliveryService.antt =====
-- src/user_actor_delivery.py: the orchestration that claims deliveries, asks the policy, hands them to
-- the gateway and records what it says. The gateway, the policy and the clock are arguments.
mod Calls
mod Freeing
mod Settling
mod Admitted
mod Requests
mod Mutations
mod Reconciliations
mod Rounds
mod Tests
use discord_fediverse_bridge.Base.{
  ℕ, String, Bool, true, false, ◌&&◌, not, Option, none, some, List, [], ◌∷◌, ◌++◌, map, find,
  length, if◌then◌else◌, ◌==◌, nat_eq, string_eq,
}
use discord_fediverse_bridge.Delivery.{Store, Claim, Source}
use discord_fediverse_bridge.Delivery.Claims.Batch.{claim_due}
use discord_fediverse_bridge.Delivery.Outcomes.{
  mark_ineligible, release_unsubmitted_claim, mark_submitted, record_outcome,
  release_terminal_source_media,
}

-- What a call of another part gives: its answer, or the text of the exception that it raises.
pub data Reply (A : Type 0) : Type 0 where
  answers : A → Reply A
  fails : String → Reply A

-- one entry of the `deliveries` of a gateway call
pub record Payload : Type 0 where
  pub delivery_id : ℕ
  pub target_endpoint_url : String
  pub activity_json : Option String

-- one outcome of the gateway
pub record Outcome : Type 0 where
  pub delivery_id : ℕ
  pub ok : Bool
  pub error : Option String

pub record Group : Type 0 where
  pub actor_url : String
  pub actor_username : String
  pub claims : List Claim

-- The answers of the policy while a claim is looked at, and the times at which a claim is admitted
-- and reported.
pub record World : Type 0 where
  pub federation_decision : Claim → String → Reply Bool
  pub send_user_actor_deliveries : String → String → List Payload → Reply (List Outcome)
  pub admitted_at : Claim → ℕ
  pub reported_at : Claim → ℕ

-- the state of the first loop
pub record Session : Type 0 where
  pub store : Store
  pub groups : List Group

abbrev pub or_allowed : Reply Bool → Reply Bool → Reply Bool
or_allowed (fails e) rest = fails e
or_allowed (answers true) rest = answers true
or_allowed (answers false) rest = rest

-- `any(… for actor_id in …)`, which stops at the first answer true and at an exception
unfoldable pub any_allowed : (String → Reply Bool) → List String → Reply Bool
any_allowed decision [] = answers false
any_allowed decision (a ∷ ids) = or_allowed (decision a) (any_allowed decision ids)

abbrev pub both_allowed : Reply Bool → Reply Bool → Reply Bool
both_allowed (fails e) actors = fails e
both_allowed (answers endpoint) (fails e) = fails e
both_allowed (answers endpoint) (answers actors) = answers (endpoint && actors)

abbrev pub decide_claim : (String → Reply Bool) → Claim → Reply Bool
decide_claim decision c =
    both_allowed (decision c.target_endpoint_url) (any_allowed decision c.represented_actor_ids)

-- `groups.setdefault(key, []).append(claim)`
unfoldable pub add_group : Claim → List Group → List Group
add_group c [] =
    record { actor_url = c.actor_url; actor_username = c.actor_username; claims = c ∷ [] } ∷ []
add_group c (g ∷ gs) =
    let rest = add_group c gs in
    if g.actor_url == c.actor_url && g.actor_username == c.actor_username
    then record g { claims = g.claims ++ c ∷ [] } ∷ gs
    else g ∷ rest

abbrev pub submit : Claim → Session → Bool × Store → Session
submit c t (true, s) = record { store = s; groups = add_group c t.groups }
submit c t (false, s) = record { store = s; groups = t.groups }

-- the rest of a round of the first loop, with the answer of the policy
unfoldable pub admit_claim : ℕ → Claim → Reply Bool → Session → Session
admit_claim now c (fails e) t = record t {
  store = release_unsubmitted_claim now c.delivery_id c.claim_token e t.store;
}
admit_claim now c (answers false) t = record t {
  store =
      (release_terminal_source_media c.source_id (
        mark_ineligible c.delivery_id c.claim_token "federation policy denied endpoint" t.store)).1;
}
admit_claim now c (answers true) t =
    submit c t (mark_submitted now c.delivery_id c.claim_token t.store)

unfoldable pub admit_claims : World → List Claim → Session → Session
admit_claims w [] t = t
admit_claims w (c ∷ cs) t =
    admit_claims w cs (admit_claim (w.admitted_at c) c (decide_claim (w.federation_decision c) c) t)

abbrev pub payload : Claim → Payload
payload c = record {
  delivery_id = c.delivery_id;
  target_endpoint_url = c.target_endpoint_url;
  activity_json = c.activity_json;
}

-- the entry of the dict of outcomes for an id: the last one of that id
unfoldable pub outcome_of : ℕ → List Outcome → Option Outcome
outcome_of id [] = none
outcome_of id (o ∷ os) = elim (outcome_of id os) [
  | some later ↦ some later
  | none ↦ if o.delivery_id == id then some o else none
]

abbrev pub reported_ok : Option Outcome → Bool
reported_ok none = false
reported_ok (some o) = o.ok

abbrev pub reported_error : Option Outcome → Option String
reported_error none = some "gateway omitted outcome"
reported_error (some o) = if o.ok then none else o.error

unfoldable pub report_claim : ℕ → Bool → Option String → Claim → Store → Store
report_claim now ok error c s =
    (release_terminal_source_media c.source_id
      (record_outcome now c.delivery_id c.claim_token ok error s)).1

-- the loop over a group, on success and in the handler of an exception
unfoldable pub report_claims : World → Reply (List Outcome) → List Claim → Store → Store
report_claims w r [] s = s
report_claims w (answers os) (c ∷ cs) s =
    let o = outcome_of c.delivery_id os in
    report_claims w (answers os) cs
      (report_claim (w.reported_at c) (reported_ok o) (reported_error o) c s)
report_claims w (fails e) (c ∷ cs) s =
    report_claims w (fails e) cs (report_claim (w.reported_at c) false (some e) c s)

abbrev pub send_group : World → Group → Reply (List Outcome)
send_group w g = w.send_user_actor_deliveries g.actor_url g.actor_username (map payload g.claims)

unfoldable pub report_groups : World → List Group → Store → Store
report_groups w [] s = s
report_groups w (g ∷ gs) s = report_groups w gs (report_claims w (send_group w g) g.claims s)

-- What a drain does: the number of claims, the groups that the gateway is called with, the tables.
pub record Drained : Type 0 where
  pub processed : ℕ
  pub groups : List Group
  pub store : Store

-- `drain_deliveries`, with its limits: 5 claims for a user, stale after 300 seconds
unfoldable pub drain_deliveries : World → (ℕ → String) → ℕ → ℕ → Store → Drained
drain_deliveries w token_hex now limit s =
    let batch = claim_due token_hex now 5 limit 300 s in
    let t = admit_claims w batch.0 (record { store = batch.1; groups = [] }) in
    record {
      processed = length batch.0;
      groups = t.groups;
      store = report_groups w t.groups t.store;
    }
