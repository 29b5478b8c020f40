-- ===== src/Delivery/Claims/Barrier.antt =====
-- src/db/repositories/user_actor_delivery_claims.py: the barrier that a newer Delete is
-- for the older versions of an object.
use discord_fediverse_bridge.Base.{
  ℕ, ◌<◌, ◌≡◌, ◌⊎◌, inl, inr, String, true, false, none, some, List, [], ◌∷◌, In, All-In, arith,
  length, nat_eq, string_eq, Option-cases,
}
use discord_fediverse_bridge.Base.Distinct.{Distinct}
use discord_fediverse_bridge.Base.Table.{Rows-In}
use discord_fediverse_bridge.Delivery.{
  content_create, content_update, content_delete, Status, ineligible, superseded, is_unfinished,
  Source, Delivery, Store, Claim, User, source_kind_eq,
}
use discord_fediverse_bridge.Delivery.Claims.{
  source_of, is_visible_delete_status, newest_delete, newer_delete_status,
}
use discord_fediverse_bridge.Delivery.Claims.Batch.{
  Batch, set_delivery, mark_sending, claim_due, claim_of,
}
use discord_fediverse_bridge.Delivery.Claims.Narrowing.{
  Narrows, Narrows-refl, Admitted, decide-claim, mark_sending-Narrows,
}
use discord_fediverse_bridge.Delivery.Claims.Progress.{Progress}
use discord_fediverse_bridge.Delivery.Claims.Induction.{claims_induction, narrowed_by_turn}
use discord_fediverse_bridge.Delivery.Claims.Order.{source_of-id}

-- A Delete of a higher version of the claimed object at the same endpoint.
pub record IsNewerDelete (s : Store) (high : Delivery) (high_src : Source) (k : Claim)
    (src : Source) : Type 0 where
  pub high_source : source_of s high.source_id ≡ some high_src
  pub source : source_of s k.source_id ≡ some src
  pub same_key : high_src.ordering_key ≡ src.ordering_key
  pub same_endpoint : high.target_endpoint_url ≡ k.target_endpoint_url
  pub higher : src.logical_version < high_src.logical_version
  pub is_delete : high_src.source_kind ≡ content_delete
  pub is_content : (src.source_kind ≡ content_create) ⊎ (src.source_kind ≡ content_update)

-- the query returns only what its `IN` list names
newest_delete-visible :
    (s : Store) (src : Source) (d : Delivery) (os : List Delivery) (v : ℕ) (st : Status)
    → newest_delete s src d os ≡ some (v, st)
    → is_visible_delete_status st ≡ true
unfolding newest_delete
newest_delete-visible s src d [] v st h = cc
newest_delete-visible s src d (o ∷ os) v st h =
    ground (arith, newest_delete-visible s src d os v st)

newest_delete-none :
    (s : Store) (src : Source) (d : Delivery) (os : List Delivery) (o : Delivery) (t : Source)
    → newest_delete s src d os ≡ none
    → In o os
    → source_of s o.source_id ≡ some t
    → t.ordering_key ≡ src.ordering_key
    → o.target_endpoint_url ≡ d.target_endpoint_url
    → src.logical_version < t.logical_version
    → t.source_kind ≡ content_delete
    → is_visible_delete_status o.status ≡ false
unfolding newest_delete
newest_delete-none s src d [] o t h m e1 e2 e3 e4 e5 = absurd m
newest_delete-none s src d (q ∷ os) o t h m e1 e2 e3 e4 e5 =
    ground (arith, newest_delete-none s src d os o t)

newer_delete_status-none :
    (limit : ℕ) (b : Batch) (d : Delivery) (src : Source) (user : User) (ids : List String)
    → Admitted limit b d src user ids
    → (src.source_kind ≡ content_create) ⊎ (src.source_kind ≡ content_update)
    → newest_delete b.store src d b.store.deliveries ≡ none
unfolding newer_delete_status
newer_delete_status-none limit b d src user ids a kind =
    elim (Option-cases (newest_delete b.store src d b.store.deliveries)) [
      | inl e ↦ e
      | inr w ↦ absurd (
          ground (
            arith,
            newest_delete-visible b.store src d b.store.deliveries w.0.0 w.0.1,
            a.no_delivered_delete,
            a.no_waiting_delete,
          ))
    ]

IsNewerDelete-narrow :
    (s : Store) (x high : Delivery) (high_src : Source) (k : Claim) (src : Source)
    → Narrows x high
    → IsNewerDelete s high high_src k src
    → IsNewerDelete s x high_src k src
IsNewerDelete-narrow s x high high_src k src n l = record {
  high_source = rw n.same_source at l.high_source;
  source = l.source;
  same_key = l.same_key;
  same_endpoint = rw n.same_endpoint at l.same_endpoint;
  higher = l.higher;
  is_delete = l.is_delete;
  is_content = l.is_content;
}

abbrev NoDelete : Store → Store → Claim → Type 0
NoDelete s t k =
    (high : Delivery) (high_src src : Source)
    → In high t.deliveries
    → IsNewerDelete s high high_src k src
    → is_visible_delete_status high.status ≡ false

module _ (now stale_after : ℕ) (s : Store) (c : Delivery × Source) (rest : List (Delivery × Source))
    (b : Batch) (p : Progress now stale_after s (c ∷ rest) b) where
  kept :
      (k : Claim) (f : Delivery → Delivery)
      → ((y : Delivery) → is_unfinished y.status ≡ true → Narrows y (f y))
      → NoDelete s b.store k
      → NoDelete s (set_delivery c.0.id f b.store) k
  kept k f narrow h high high_src src m l =
      let (x, here, n) =
        Rows-In Narrows b.store.deliveries (set_delivery c.0.id f b.store).deliveries high
          (narrowed_by_turn now stale_after s c rest b p f narrow) m in
      ground
        (arith, h x high_src src here (IsNewerDelete-narrow s x high high_src k src n l), n.visible)

  made :
      (user : User) (ids : List String) (token : String) (limit : ℕ)
      → Admitted limit b c.0 c.1 user ids
      → NoDelete s
          (set_delivery c.0.id (mark_sending token now) b.store)
          (claim_of c.0 c.1 user ids token)
  unfolding source_of
  made user ids token limit a high high_src src m l =
      let narrow = λ (y : Delivery) (u : is_unfinished y.status ≡ true).
        mark_sending-Narrows token now y y u (Narrows-refl y) in
      let (x, here, n) =
        Rows-In Narrows b.store.deliveries
          (set_delivery c.0.id (mark_sending token now) b.store).deliveries high
          (narrowed_by_turn now stale_after s c rest b p (mark_sending token now) narrow) m in
      let l' = IsNewerDelete-narrow s x high high_src (claim_of c.0 c.1 user ids token) src n l in
      let at_id = source_of-id s c.0.source_id c.1 p.candidates.0.joined in
      let same : src ≡ c.1 = cc (at_id, l.source, p.candidates.0.joined) in
      let free = newer_delete_status-none limit b c.0 c.1 user ids a (rw same at l'.is_content) in
      ground (
        arith,
        newest_delete-none b.store c.1 c.0 b.store.deliveries x high_src free here
            (rw p.same_sources l'.high_source) (rw same at l'.same_key) l'.same_endpoint
            (rw same at l'.higher) l'.is_delete,
        n.visible,
      )

-- In a table with distinct ids, when a batch ends with a claim of a Create or an Update, each newer
-- Delete of that object at that endpoint is ineligible or superseded: none is waiting or delivered.
pub claim_due_barrier :
    (token_hex : ℕ → String) (now per_user_limit limit stale_after : ℕ) (s : Store)
    → Distinct (λ (d : Delivery). d.id) s.deliveries
    → (k : Claim) (high : Delivery) (high_src src : Source)
    → In k (claim_due token_hex now per_user_limit limit stale_after s).0
    → In high (claim_due token_hex now per_user_limit limit stale_after s).1.deliveries
    → IsNewerDelete s high high_src k src
    → (high.status ≡ ineligible) ⊎ (high.status ≡ superseded)
claim_due_barrier token_hex now per_user_limit limit stale_after s unique k high high_src src m h
      l =
    let hidden =
      All-In (NoDelete s (claim_due token_hex now per_user_limit limit stale_after s).1)
        (claim_due token_hex now per_user_limit limit stale_after s).0
        (claims_induction token_hex now per_user_limit stale_after s (NoDelete s)
          (λ c rest b user ids p e.
            made now stale_after s c rest b p user ids (token_hex (length b.claimed)) per_user_limit
              (decide-claim per_user_limit b c.0 c.1 user ids e))
          (λ c rest b k p other f narrow o. kept now stale_after s c rest b p k f narrow o) unique
          limit)
        m high high_src src h l in
    ground arith
