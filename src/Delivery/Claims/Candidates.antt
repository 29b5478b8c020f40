-- ===== src/Delivery/Claims/Candidates.antt =====
-- src/db/repositories/user_actor_delivery_claims.py: what `_load_due_candidates` hands to the loop.
use discord_fediverse_bridge.Base.{ℕ, ◌≡◌, true, some, List, [], ◌∷◌, In, arith, In-sort_by}
use discord_fediverse_bridge.Base.Distinct.{Absent, Distinct, Distinct-sort_by}
use discord_fediverse_bridge.Delivery.{Source, Delivery, Store}
use discord_fediverse_bridge.Delivery.Claims.{
  source_of, is_candidate, joined_candidates, candidate_leb, load_due_candidates,
}

pub record IsCandidate (now stale_after : ℕ) (s : Store) (ds : List Delivery)
    (c : Delivery × Source) : Type 0 where
  pub row : In c.0 ds
  pub joined : source_of s c.0.source_id ≡ some c.1
  pub due : is_candidate now stale_after c.0 c.1 ≡ true

module _ (now stale_after : ℕ) (s : Store) where
  joined_candidates-IsCandidate :
      (ds : List Delivery) (c : Delivery × Source)
      → In c (joined_candidates now stale_after s ds)
      → IsCandidate now stale_after s ds c
  unfolding joined_candidates
  joined_candidates-IsCandidate [] c m = elim m [ ]
  joined_candidates-IsCandidate (d ∷ ds) c m = ground (arith, joined_candidates-IsCandidate ds c)

  pub candidates-IsCandidate :
      (c : Delivery × Source)
      → In c (load_due_candidates now stale_after s)
      → IsCandidate now stale_after s s.deliveries c
  unfolding load_due_candidates
  candidates-IsCandidate c m =
      joined_candidates-IsCandidate s.deliveries c
        (In-sort_by candidate_leb (joined_candidates now stale_after s s.deliveries) c m)

  joined_candidates-Absent :
      (k : ℕ) (ds : List Delivery)
      → Absent (λ d. d.id) k ds
      → Absent (λ c. c.0.id) k (joined_candidates now stale_after s ds)
  unfolding joined_candidates
  joined_candidates-Absent k [] a = tt
  joined_candidates-Absent k (d ∷ ds) a = ground (arith, joined_candidates-Absent k ds a.1)

  joined_candidates-Distinct :
      (ds : List Delivery)
      → Distinct (λ d. d.id) ds
      → Distinct (λ c. c.0.id) (joined_candidates now stale_after s ds)
  unfolding joined_candidates
  joined_candidates-Distinct [] a = tt
  joined_candidates-Distinct (d ∷ ds) a =
      ground (arith, joined_candidates-Distinct ds a.1, joined_candidates-Absent d.id ds a.0)

  -- no delivery is a candidate twice
  pub candidates-Distinct :
      Distinct (λ (d : Delivery). d.id) s.deliveries
      → Distinct (λ (c : Delivery × Source). c.0.id) (load_due_candidates now stale_after s)
  unfolding load_due_candidates
  candidates-Distinct a =
      Distinct-sort_by (λ c. c.0.id) candidate_leb
        (joined_candidates now stale_after s s.deliveries)
        (joined_candidates-Distinct s.deliveries a)
