-- ===== src/Delivery/Claims/Batch.antt =====
-- src/db/repositories/user_actor_delivery_claims.py: the loop of `claim_due` over the candidates.
use discord_fediverse_bridge.Base.{
  ℕ, ◌≡◌, String, Bool, true, false, ◌&&◌, not, Option, none, some, List, [], ◌∷◌, ◌++◌, leb,
  if◌then◌else◌, ◌==◌, nat_eq, option_eq, inr, inl, refl, length, Bool-cases,
}
use discord_fediverse_bridge.Base.Table.{update_where, get}
use discord_fediverse_bridge.Delivery.{
  Status, pending, sending, delivered, failed, ineligible, superseded, status_eq, Source, Delivery,
  User, Store, Claim,
}
use discord_fediverse_bridge.Delivery.Claims.{
  load_due_candidates, count_claim, within_claim_limits, newer_delete_status, has_newer_delivered,
  has_lower_unfinished, eligible_actor_ids,
}

-- What one round of the loop does with its candidate: `continue`, `_mark_terminal_without_claim`
-- or `_claim_delivery`.
pub data Verdict : Type 0 where
  skip : Verdict
  finish : Status → Verdict
  claim : User → List String → Verdict

-- The state of the loop: the tables and the three collections of the batch.
pub record Batch : Type 0 where
  pub store : Store
  pub claimed : List Claim
  pub seen_endpoints : List (ℕ × String)
  pub claimed_per_user : List (ℕ × ℕ)

abbrev pub is_waiting_delete : Option Status → Bool
is_waiting_delete (some pending) = true
is_waiting_delete (some failed) = true
is_waiting_delete (some sending) = true
is_waiting_delete _ = false

abbrev admit : Option User → List String → Verdict
admit none ids = finish ineligible
admit (some user) [] = finish ineligible
admit (some user) (a ∷ ids) = claim user (a ∷ ids)

unfoldable pub decide : ℕ → Batch → Delivery → Source → Verdict
decide per_user_limit b d src =
    let newer = newer_delete_status b.store d src in
    if not (
      within_claim_limits src.user_id d.target_endpoint_url b.seen_endpoints b.claimed_per_user
        per_user_limit)
    then skip
    else if newer == some delivered
    then finish superseded
    else if is_waiting_delete newer
    then skip
    else if has_newer_delivered b.store d src
    then finish superseded
    else if has_lower_unfinished b.store d src
    then skip
    else admit (get (λ u. u.id) src.user_id b.store.users)
        (eligible_actor_ids b.store d.id src.user_id)

-- a change of the one delivery row with an id
unfoldable pub set_delivery : ℕ → (Delivery → Delivery) → Store → Store
set_delivery k f s = record s { deliveries = update_where (λ d. d.id == k) f s.deliveries }

abbrev pub mark_terminal : Status → Delivery → Delivery
mark_terminal st d = record d { status = st; claim_token = none; claimed_at = none }

abbrev pub mark_sending : String → ℕ → Delivery → Delivery
mark_sending token now d = record d {
  status = sending;
  claim_token = some token;
  claimed_at = some now;
}

abbrev pub claim_of : Delivery → Source → User → List String → String → Claim
claim_of d src user ids token = record {
  delivery_id = d.id;
  source_id = src.id;
  user_id = src.user_id;
  logical_version = src.logical_version;
  activity_id = src.activity_id;
  actor_username = user.activitypub_username;
  actor_url = user.actor_url;
  target_endpoint_url = d.target_endpoint_url;
  represented_actor_ids = ids;
  activity_json = src.activity_json;
  claim_token = token;
}

abbrev pub is_claim : Verdict → Bool
is_claim (claim _ _) = true
is_claim _ = false

-- `token_hex n` is the n-th draw of `secrets.token_hex(16)` in this batch.
module _ (token_hex : ℕ → String) (now per_user_limit : ℕ) where
  unfoldable pub apply : Verdict → Delivery → Source → Batch → Batch
  unfolding set_delivery
  apply skip d src b = b
  apply (finish st) d src b = record b { store = set_delivery d.id (mark_terminal st) b.store }
  apply (claim user ids) d src b =
      let token = token_hex (length b.claimed) in
      record {
        store = set_delivery d.id (mark_sending token now) b.store;
        claimed = b.claimed ++ claim_of d src user ids token ∷ [];
        seen_endpoints = (src.user_id, d.target_endpoint_url) ∷ b.seen_endpoints;
        claimed_per_user = count_claim src.user_id b.claimed_per_user;
      }

  unfoldable pub step : Batch → Delivery × Source → Batch
  step b (d, src) = apply (decide per_user_limit b d src) d src b

  -- the `break` stands behind the append, so the limit is tested only after a claim
  unfoldable pub claim_loop : ℕ → List (Delivery × Source) → Batch → Batch
  claim_loop limit [] b = b
  claim_loop limit (c ∷ rest) b =
      let b' = step b c in
      let more = claim_loop limit rest b' in
      if is_claim (decide per_user_limit b c.0 c.1) && leb limit (length b'.claimed)
      then b'
      else more

  unfoldable pub claim_due : ℕ → ℕ → Store → List Claim × Store
  claim_due limit stale_after s =
      let b =
        claim_loop limit (load_due_candidates now stale_after s)
          (record { store = s; claimed = []; seen_endpoints = []; claimed_per_user = [] }) in
      (b.claimed, b.store)

  -- What holds of a round follows from the three things that it may do.
  pub step_cases :
      (P : Batch → Type 0) (b : Batch) (d : Delivery) (src : Source)
      → P b
      → ((st : Status) → decide per_user_limit b d src ≡ finish st → P (apply (finish st) d src b))
      → ((user : User) (ids : List String)
          → decide per_user_limit b d src ≡ claim user ids
          → P (apply (claim user ids) d src b))
      → P (step b (d, src))
  unfolding step
  step_cases P b d src same done taken = go (decide per_user_limit b d src) refl
    where
      go : (v : Verdict) → decide per_user_limit b d src ≡ v → P (apply v d src b)
      go skip e = unfold apply in same
      go (finish st) e = done st e
      go (claim user ids) e = taken user ids e

  -- An invariant of the candidates left and of the batch so far holds where the loop ends.
  pub claim_loop_induction :
      (P : List (Delivery × Source) → Batch → Type 0) (limit : ℕ)
      → ((c : Delivery × Source) (rest : List (Delivery × Source)) (b : Batch)
          → P (c ∷ rest) b
          → P rest (step b c))
      → (cs : List (Delivery × Source)) (b : Batch) → P cs b
      → (rest : List (Delivery × Source)) × P rest (claim_loop limit cs b)
  unfolding claim_loop
  claim_loop_induction P limit h [] b p = ([], p)
  claim_loop_induction P limit h (c ∷ cs) b p =
      let more = claim_loop_induction P limit h cs (step b c) (h c cs b p) in
      elim (Bool-cases
        (is_claim (decide per_user_limit b c.0 c.1) && leb limit (length (step b c).claimed))) [
          | inl e ↦ rw e (cs, h c cs b p)
          | inr e ↦ rw e more
        ]
