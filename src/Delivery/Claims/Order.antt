-- ===== src/Delivery/Claims/Order.antt =====
-- src/db/repositories/user_actor_delivery_claims.py: the order of the versions of one object at one
-- endpoint, and the barrier that a newer Delete is.
use discord_fediverse_bridge.Base.{
  ℕ, ◌<◌, ◌≡◌, ◌≢◌, String, true, false, some, List, ◌∷◌, In, All-In, any-false, In-find, arith,
  length, ◌==◌, nat_eq, string_eq,
}
use discord_fediverse_bridge.Base.Distinct.{Distinct}
use discord_fediverse_bridge.Base.Table.{Rows-In, get}
use discord_fediverse_bridge.Delivery.{
  content_delete, is_unfinished, Source, Delivery, Store, Claim, User, source_kind_eq,
}
use discord_fediverse_bridge.Delivery.Claims.{source_of, blocks, has_lower_unfinished}
use discord_fediverse_bridge.Delivery.Claims.Batch.{
  Batch, set_delivery, mark_sending, claim_due, claim_of,
}
use discord_fediverse_bridge.Delivery.Claims.Narrowing.{
  Narrows, Narrows-refl, Admitted, decide-claim, mark_sending-Narrows,
}
use discord_fediverse_bridge.Delivery.Claims.Progress.{Progress}
use discord_fediverse_bridge.Delivery.Claims.Induction.{claims_induction, narrowed_by_turn}

pub source_of-id : (s : Store) (k : ℕ) (src : Source) → source_of s k ≡ some src → src.id ≡ k
unfolding source_of get
source_of-id s k src h = ground (arith, In-find (λ r. r.id == k) s.sources src h)

-- Two versions of one object or profile at one endpoint, the lower first.
pub record IsLower (s : Store) (low : Delivery) (low_src : Source) (k : Claim) (src : Source)
    : Type 0 where
  pub low_source : source_of s low.source_id ≡ some low_src
  pub source : source_of s k.source_id ≡ some src
  pub same_key : low_src.ordering_key ≡ src.ordering_key
  pub same_endpoint : low.target_endpoint_url ≡ k.target_endpoint_url
  pub lower : low_src.logical_version < src.logical_version

IsLower-narrow :
    (s : Store) (x low : Delivery) (low_src : Source) (k : Claim) (src : Source)
    → Narrows x low
    → IsLower s low low_src k src
    → IsLower s x low_src k src
IsLower-narrow s x low low_src k src n l = record {
  low_source = rw n.same_source at l.low_source;
  source = l.source;
  same_key = l.same_key;
  same_endpoint = rw n.same_endpoint at l.same_endpoint;
  lower = l.lower;
}

-- no row of `t` below the claim is unfinished
abbrev InOrder : Store → Store → Claim → Type 0
InOrder s t k =
    (low : Delivery) (low_src src : Source)
    → In low t.deliveries
    → IsLower s low low_src k src
    → src.source_kind ≢ content_delete
    → is_unfinished low.status ≡ false

lower-blocks :
    (s t : Store) (d low : Delivery) (src low_src : Source)
    → t.sources ≡ s.sources
    → source_of s low.source_id ≡ some low_src
    → low_src.ordering_key ≡ src.ordering_key
    → low.target_endpoint_url ≡ d.target_endpoint_url
    → low_src.logical_version < src.logical_version
    → src.source_kind ≢ content_delete
    → blocks t d src low ≡ false
    → is_unfinished low.status ≡ false
unfolding source_of
lower-blocks s t d low src low_src e1 e2 e3 e4 e5 e6 h = ground arith

module _ (now stale_after : ℕ) (s : Store) (c : Delivery × Source) (rest : List (Delivery × Source))
    (b : Batch) (p : Progress now stale_after s (c ∷ rest) b) where
  -- a later round leaves no row unfinished that was not
  kept :
      (k : Claim) (f : Delivery → Delivery)
      → ((y : Delivery) → is_unfinished y.status ≡ true → Narrows y (f y))
      → InOrder s b.store k
      → InOrder s (set_delivery c.0.id f b.store) k
  kept k f narrow h low low_src src m l other =
      let (x, here, n) =
        Rows-In Narrows b.store.deliveries (set_delivery c.0.id f b.store).deliveries low
          (narrowed_by_turn now stale_after s c rest b p f narrow) m in
      ground
        (arith, h x low_src src here (IsLower-narrow s x low low_src k src n l) other, n.unfinished)

  -- what `_has_lower_unfinished` has tested, of the table that the claim leaves
  made :
      (user : User) (ids : List String) (token : String) (limit : ℕ)
      → Admitted limit b c.0 c.1 user ids
      → InOrder s
          (set_delivery c.0.id (mark_sending token now) b.store)
          (claim_of c.0 c.1 user ids token)
  unfolding has_lower_unfinished
  made user ids token limit a low low_src src m l other =
      let narrow = λ (y : Delivery) (u : is_unfinished y.status ≡ true).
        mark_sending-Narrows token now y y u (Narrows-refl y) in
      let (x, here, n) =
        Rows-In Narrows b.store.deliveries
          (set_delivery c.0.id (mark_sending token now) b.store).deliveries low
          (narrowed_by_turn now stale_after s c rest b p (mark_sending token now) narrow) m in
      let free =
        any-false (blocks b.store c.0 c.1) b.store.deliveries x a.no_lower_unfinished here in
      let l' = IsLower-narrow s x low low_src (claim_of c.0 c.1 user ids token) src n l in
      let at_id = source_of-id s c.0.source_id c.1 p.candidates.0.joined in
      let same : src ≡ c.1 = cc (at_id, l.source, p.candidates.0.joined) in
      ground (
        arith,
        lower-blocks s b.store c.0 x c.1 low_src p.same_sources l'.low_source
            (rw same at l'.same_key) l'.same_endpoint (rw same at l'.lower) (rw same at other) free,
        n.unfinished,
      )

-- FIFO: in a table with distinct ids, when a batch ends no lower version of what it claimed, in the
-- same ordering key and endpoint, is pending, failed or sending, if the claim is not of a Delete.
pub claim_due_fifo :
    (token_hex : ℕ → String) (now per_user_limit limit stale_after : ℕ) (s : Store)
    → Distinct (λ (d : Delivery). d.id) s.deliveries
    → (k : Claim) (low : Delivery) (low_src src : Source)
    → In k (claim_due token_hex now per_user_limit limit stale_after s).0
    → In low (claim_due token_hex now per_user_limit limit stale_after s).1.deliveries
    → IsLower s low low_src k src
    → src.source_kind ≢ content_delete
    → is_unfinished low.status ≡ false
claim_due_fifo token_hex now per_user_limit limit stale_after s unique k low low_src src m l below
      kind =
    All-In (InOrder s (claim_due token_hex now per_user_limit limit stale_after s).1)
      (claim_due token_hex now per_user_limit limit stale_after s).0
      (claims_induction token_hex now per_user_limit stale_after s (InOrder s)
        (λ c rest b user ids p e.
          made now stale_after s c rest b p user ids (token_hex (length b.claimed)) per_user_limit
            (decide-claim per_user_limit b c.0 c.1 user ids e))
        (λ c rest b k p other f narrow o. kept now stale_after s c rest b p k f narrow o) unique
        limit)
      m low low_src src l below kind
