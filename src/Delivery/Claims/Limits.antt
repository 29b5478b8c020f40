-- ===== src/Delivery/Claims/Limits.antt =====
-- src/db/repositories/user_actor_delivery_claims.py: the bounds of one batch.
use discord_fediverse_bridge.Base.{
  ℕ, suc, ◌+◌, ◌≤◌, ◌<◌, max, ◌≡◌, ◌≢◌, refl, ap, String, true, false, List, [], ◌∷◌, ◌++◌, In, inl,
  inr, In-concat, arith, length, ◌==◌, nat_eq, string_eq, if◌then◌else◌,
}
use discord_fediverse_bridge.Base.Distinct.{Distinct, Distinct-concat}
use discord_fediverse_bridge.Delivery.{Source, Delivery, Store, Claim, User}
use discord_fediverse_bridge.Delivery.Claims.{
  within_claim_limits, seen_endpoint, claimed_count, load_due_candidates,
}
use discord_fediverse_bridge.Delivery.Claims.Batch.{
  Verdict, skip, finish, claim, Batch, decide, apply, step, step_cases, is_claim, claim_loop,
  claim_loop_induction, claim_due, claim_of,
}
use discord_fediverse_bridge.Delivery.Claims.Narrowing.{decide-claim}
use discord_fediverse_bridge.Delivery.Claims.Progress.{start}

abbrev pub endpoint_key : Claim → ℕ × String
endpoint_key k = (k.user_id, k.target_endpoint_url)

-- how many of the claims are of one user's deliveries
abbrev pub claims_of_user : ℕ → List Claim → ℕ
claims_of_user u [] = 0
claims_of_user u (k ∷ ks) =
    let rest = claims_of_user u ks in if k.user_id == u then suc rest else rest

claims_of_user-concat :
    (u : ℕ) (ks : List Claim) (k : Claim)
    → claims_of_user u (ks ++ k ∷ []) ≡ claims_of_user u ks + (if k.user_id == u then 1 else 0)
claims_of_user-concat u [] k = ground arith
claims_of_user-concat u (j ∷ ks) k = ground (arith, claims_of_user-concat u ks k)

length-concat : (ks : List Claim) (k : Claim) → length (ks ++ k ∷ []) ≡ length ks + 1
length-concat [] k = omega arith
length-concat (j ∷ ks) k = omega (arith, length-concat ks k)

module _ (token_hex : ℕ → String) (now per_user_limit : ℕ) where
  length-apply :
      (v : Verdict) (d : Delivery) (src : Source) (b : Batch)
      → length (apply token_hex now per_user_limit v d src b).claimed
        ≡ length b.claimed + (if is_claim v then 1 else 0)
  unfolding apply
  length-apply skip d src b = omega arith
  length-apply (finish st) d src b = omega arith
  length-apply (claim user ids) d src b =
      length-concat b.claimed (claim_of d src user ids (token_hex (length b.claimed)))

  length-step :
      (b : Batch) (c : Delivery × Source)
      → length (step token_hex now per_user_limit b c).claimed
        ≡ length b.claimed + (if is_claim (decide per_user_limit b c.0 c.1) then 1 else 0)
  unfolding step
  length-step b c = length-apply (decide per_user_limit b c.0 c.1) c.0 c.1 b

  length-claim_loop :
      (limit : ℕ) (cs : List (Delivery × Source)) (b : Batch)
      → length b.claimed < max 1 limit
      → length (claim_loop token_hex now per_user_limit limit cs b).claimed ≤ max 1 limit
  unfolding claim_loop
  length-claim_loop limit [] b h = omega arith
  length-claim_loop limit (c ∷ cs) b h =
      ground
        (arith, length-step b c, length-claim_loop limit cs (step token_hex now per_user_limit b c))

record Bounded (per_user_limit : ℕ) (b : Batch) : Type 0 where
  pub keys : Distinct endpoint_key b.claimed
  pub seen :
      (k : Claim)
      → In k b.claimed
      → seen_endpoint k.user_id k.target_endpoint_url b.seen_endpoints ≡ true
  pub counted : (u : ℕ) → claims_of_user u b.claimed ≡ claimed_count u b.claimed_per_user
  pub within : (u : ℕ) → claims_of_user u b.claimed ≤ per_user_limit

-- an endpoint that is free is no claim's yet
key-ne :
    (u : ℕ) (url : String) (seen : List (ℕ × String)) (k : Claim)
    → seen_endpoint k.user_id k.target_endpoint_url seen ≡ true
    → seen_endpoint u url seen ≡ false
    → endpoint_key k ≢ (u, url)
key-ne u url seen k h free e =
    let user : k.user_id ≡ u = ap (λ (p : ℕ × String). p.0) e in
    let endpoint : k.target_endpoint_url ≡ url = ap (λ (p : ℕ × String). p.1) e in
    cc (rw (user, endpoint) at h, free)

module _ (per_user_limit : ℕ) (b : Batch) (h : Bounded per_user_limit b) (d : Delivery)
    (src : Source)
    (room : within_claim_limits src.user_id d.target_endpoint_url b.seen_endpoints
        b.claimed_per_user per_user_limit
      ≡ true) where
  keys_after :
      (user : User) (ids : List String) (token : String)
      → Distinct endpoint_key (b.claimed ++ claim_of d src user ids token ∷ [])
  unfolding within_claim_limits
  keys_after user ids token =
      Distinct-concat endpoint_key b.claimed (claim_of d src user ids token) h.keys λ k m.
        key-ne src.user_id d.target_endpoint_url b.seen_endpoints k (h.seen k m) (ground arith)

  within_after :
      (user : User) (ids : List String) (token : String) (u : ℕ)
      → claims_of_user u (b.claimed ++ claim_of d src user ids token ∷ []) ≤ per_user_limit
  unfolding within_claim_limits
  within_after user ids token u = ground (
    arith,
    claims_of_user-concat u b.claimed (claim_of d src user ids token),
    h.counted u,
    h.within u,
  )

  claimed_after :
      (user : User) (ids : List String) (token_hex : ℕ → String) (now : ℕ)
      → Bounded per_user_limit (apply token_hex now per_user_limit (claim user ids) d src b)
  unfolding apply
  claimed_after user ids token_hex now =
      let k = claim_of d src user ids (token_hex (length b.claimed)) in
      record {
        keys = keys_after user ids (token_hex (length b.claimed));
        seen = λ j m. elim (In-concat b.claimed k j m) [
          | inl old ↦ ground (arith, h.seen j old)
          | inr e ↦ ground arith
        ];
        counted = λ u. ground (arith, claims_of_user-concat u b.claimed k, h.counted u);
        within = within_after user ids (token_hex (length b.claimed));
      }

module _ (token_hex : ℕ → String) (now per_user_limit : ℕ) where
  step-Bounded :
      (c : Delivery × Source) (b : Batch)
      → Bounded per_user_limit b
      → Bounded per_user_limit (step token_hex now per_user_limit b c)
  step-Bounded c b h =
      step_cases token_hex now per_user_limit (Bounded per_user_limit) b c.0 c.1 h
        (λ st e.
          unfold apply in
          record { keys = h.keys; seen = h.seen; counted = h.counted; within = h.within })
        (λ user ids e.
          claimed_after per_user_limit b h c.0 c.1
            (decide-claim per_user_limit b c.0 c.1 user ids e).room user ids token_hex now)

  -- A batch has at most `limit` claims (one, if the limit is 0), at most `per_user_limit` of any
  -- one user, and no two of one user's deliveries to one endpoint.
  pub claim_due_limits :
      (limit stale_after : ℕ) (s : Store)
      → let claims = (claim_due token_hex now per_user_limit limit stale_after s).0 in
        (length claims ≤ max 1 limit)
        × Distinct endpoint_key claims
        × ((u : ℕ) → claims_of_user u claims ≤ per_user_limit)
  unfolding claim_due
  claim_due_limits limit stale_after s =
      let (rest, h) =
        claim_loop_induction token_hex now per_user_limit (λ _ b. Bounded per_user_limit b) limit
          (λ c rest b p. step-Bounded c b p) (load_due_candidates now stale_after s) (start s)
          (record {
            keys = tt;
            seen = λ k m. absurd m;
            counted = λ u. refl;
            within = λ u. omega arith;
          }) in
      (
        length-claim_loop token_hex now per_user_limit limit (load_due_candidates now stale_after s)
            (start s) (omega arith),
        h.keys,
        h.within,
      )
