-- ===== src/Delivery/Claims/Ownership.antt =====
-- src/db/repositories/user_actor_delivery_claims.py: a claim owns its row.
use discord_fediverse_bridge.Base.{
  ℕ, ◌≡◌, ◌≢◌, refl, String, some, List, ◌∷◌, ◌==◌, ==_self, ==_ne, nat_eq, In, All-In, length,
}
use discord_fediverse_bridge.Base.Distinct.{Distinct}
use discord_fediverse_bridge.Base.Table.{In-update_hit, In-update_miss}
use discord_fediverse_bridge.Delivery.{sending, Source, Delivery, Store, Claim, User}
use discord_fediverse_bridge.Delivery.Claims.Batch.{
  Batch, set_delivery, mark_sending, claim_due, claim_of,
}
use discord_fediverse_bridge.Delivery.Claims.Progress.{Progress, In-at_turn}
use discord_fediverse_bridge.Delivery.Claims.Induction.{claims_induction}

-- The row of `t` that a claim made at the time `now` stands for.
pub record Owned (now : ℕ) (t : Store) (k : Claim) : Type 0 where
  pub row : Delivery
  pub stored : In row t.deliveries
  pub same_id : row.id ≡ k.delivery_id
  pub same_endpoint : row.target_endpoint_url ≡ k.target_endpoint_url
  pub is_sending : row.status ≡ sending
  pub token : row.claim_token ≡ some k.claim_token
  pub claimed : row.claimed_at ≡ some now

module _ (now stale_after : ℕ) (s : Store) (c : Delivery × Source) (rest : List (Delivery × Source))
    (b : Batch) where
  made :
      (user : User) (ids : List String) (token : String)
      → Progress now stale_after s (c ∷ rest) b
      → Owned now
          (set_delivery c.0.id (mark_sending token now) b.store)
          (claim_of c.0 c.1 user ids token)
  unfolding set_delivery
  made user ids token p = record {
    row = mark_sending token now c.0;
    stored =
        In-update_hit (λ r. r.id == c.0.id) (mark_sending token now) b.store.deliveries c.0
          (In-at_turn now stale_after s p) (==_self c.0.id);
    same_id = refl;
    same_endpoint = refl;
    is_sending = refl;
    token = refl;
    claimed = refl;
  }

  kept :
      (k : Claim)
      → k.delivery_id ≢ c.0.id
      → (f : Delivery → Delivery) → Owned now b.store k
      → Owned now (set_delivery c.0.id f b.store) k
  unfolding set_delivery
  kept k other f o = record {
    row = o.row;
    stored =
        In-update_miss (λ r. r.id == c.0.id) f b.store.deliveries o.row o.stored
          (==_ne o.row.id c.0.id (rw o.same_id other));
    same_id = o.same_id;
    same_endpoint = o.same_endpoint;
    is_sending = o.is_sending;
    token = o.token;
    claimed = o.claimed;
  }

-- In a table with distinct ids, each claim that `claim_due` returns has a row of the new table with
-- its id and endpoint, in status `sending`, under exactly its token and the time of the batch.
pub claim_due-Owned :
    (token_hex : ℕ → String) (now per_user_limit limit stale_after : ℕ) (s : Store)
    → Distinct (λ (d : Delivery). d.id) s.deliveries
    → (k : Claim) → In k (claim_due token_hex now per_user_limit limit stale_after s).0
    → Owned now (claim_due token_hex now per_user_limit limit stale_after s).1 k
claim_due-Owned token_hex now per_user_limit limit stale_after s unique k m =
    All-In (Owned now (claim_due token_hex now per_user_limit limit stale_after s).1)
      (claim_due token_hex now per_user_limit limit stale_after s).0
      (claims_induction token_hex now per_user_limit stale_after s (Owned now)
        (λ c rest b user ids p e.
          made now stale_after s c rest b user ids (token_hex (length b.claimed)) p)
        (λ c rest b k p other f narrow o. kept now stale_after s c rest b k other f o) unique limit)
      m
