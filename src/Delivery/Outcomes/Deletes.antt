-- ===== src/Delivery/Outcomes/Deletes.antt =====
-- src/db/repositories/user_actor_delivery_outcomes.py: what a delivered Delete makes obsolete.
use discord_fediverse_bridge.Base.{
  ℕ, ◌<◌, ◌≡◌, ◌≢◌, List, subst, refl, String, true, some, Option, In, find, arith, ◌==◌,
}
use discord_fediverse_bridge.Base.Table.{In-of_update, update_where}
use discord_fediverse_bridge.Delivery.{
  content_delete, source_kind_eq, status_eq, pending, failed, Source, Delivery, Store,
}
use discord_fediverse_bridge.Delivery.Claims.{source_of}
use discord_fediverse_bridge.Delivery.Outcomes.{
  owns, complete, supersede, is_older_unsent, supersede_older, record_outcome, complete_claim,
  with_deliveries,
}

-- An older version, at the same endpoint, of the object that a Delete names.
pub record IsOlder (s : Store) (d : Delivery) (src : Source) (e : Delivery) (t : Source)
    : Type 0 where
  pub source : source_of s e.source_id ≡ some t
  pub same_key : t.ordering_key ≡ src.ordering_key
  pub same_endpoint : e.target_endpoint_url ≡ d.target_endpoint_url
  pub older : t.logical_version < src.logical_version

-- After a Delete is reported as delivered, no older version of its object at its endpoint waits to
-- be sent: none is pending or failed.
pub record_outcome_obsoletes :
    (now id : ℕ) (token : String) (error : Option String) (s : Store) (d : Delivery) (src : Source)
    → find (owns id token) s.deliveries ≡ some d
    → source_of s d.source_id ≡ some src
    → src.source_kind ≡ content_delete
    → (e : Delivery) (t : Source) → In e (record_outcome now id token true error s).deliveries
    → IsOlder s d src e t
    → (e.status ≢ pending) × (e.status ≢ failed)
unfolding record_outcome complete_claim supersede_older is_older_unsent source_of
record_outcome_obsoletes now id token error s d src found at_id kind e t m h =
    let is_delete : (src.source_kind == content_delete) ≡ true = ground arith in
    let stored : record_outcome now id token true error s
        ≡ with_deliveries s (update_where (is_older_unsent s d src) supersede done) =
      rw found rw at_id rw is_delete refl in
    conclude (subst (λ w. In e w.deliveries) stored m)
  where
    done : List Delivery
    done = update_where (owns id token) (complete now) s.deliveries

    conclude :
        In e (update_where (is_older_unsent s d src) supersede done)
        → (e.status ≢ pending) × (e.status ≢ failed)
    conclude m' =
        let (o, here, written) = In-of_update (is_older_unsent s d src) supersede done e m' in
        ground arith
