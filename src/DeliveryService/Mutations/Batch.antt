-- ===== src/DeliveryService/Mutations/Batch.antt =====
-- src/user_actor_delivery.py: the batch of a drain of reservations.
use discord_fediverse_bridge.DeliveryService.Requests.{Outside}
use discord_fediverse_bridge.Base.{
  ℕ, ◌≡◌, refl, sym, ap, ◌∙◌, String, Bool, true, false, Option, none, some, List, [], ◌∷◌, In, any,
  any-none, Bool-cases, inl, inr, length,
}
use discord_fediverse_bridge.Mutation.{MutationStore, Library, dispatching}
use discord_fediverse_bridge.Mutation.Claims.{MutationClaim, claim_due}
use discord_fediverse_bridge.Mutation.Reports.{owns}
use discord_fediverse_bridge.Mutation.Lifecycle.{MutationReach, here, IsConsistent}
use discord_fediverse_bridge.Mutation.Lifecycle.Invariant.{reach-IsConsistent}
use discord_fediverse_bridge.Mutation.Lifecycle.Leases.{claim_due-IsConsistent}
use discord_fediverse_bridge.DeliveryService.Mutations.{
  count_or_raise, try_claim, handle_exception, drain_claims, drain_mutations,
}
use discord_fediverse_bridge.DeliveryService.Mutations.Calls.{handled-Reach}
use discord_fediverse_bridge.DeliveryService.Mutations.Settled.{
  IsDone, handled-IsDone, try_claim-frees, handle_exception-frees,
}

count_or_raise-ok :
    (n : ℕ) (r : Bool × MutationStore) (k : ℕ) (t : MutationStore)
    → count_or_raise n r ≡ (some k, t)
    → r ≡ (false, t)
count_or_raise-ok n (true, u) k t e =
    let wrong : none ≡ some k = ap (λ (x : Option ℕ × MutationStore). x.0) e in cc
count_or_raise-ok n (false, u) k t e =
    ap (λ (v : MutationStore). (false, v)) (ap (λ (x : Option ℕ × MutationStore). x.1) e)

module _ (lib : Library) (w : Outside) where
  drain_claims-IsDone :
      (d : MutationClaim)
      → ((c : MutationClaim) (t : MutationStore) → IsDone d t → IsDone d (w.meanwhile c t))
      → (cs : List MutationClaim) (s : MutationStore) → IsDone d s
      → IsDone d (drain_claims lib w cs s).1
  unfolding drain_claims
  drain_claims-IsDone d fresh [] s free = free
  drain_claims-IsDone d fresh (c ∷ cs) s free =
      let done = handle_exception lib w c (try_claim lib w c s) in
      let free' = handled-IsDone lib w c d (fresh c) s free in
      elim (Bool-cases done.0) [
        | inl stop ↦ rw (drain_claims, stop) free'
        | inr go ↦ rw (drain_claims, go) (drain_claims-IsDone d fresh cs done.1 free')
      ]

  module _
      (others : (c : MutationClaim) (t : MutationStore) → MutationReach lib t (w.meanwhile c t))
      (bs : List MutationClaim)
      (fresh : (d c : MutationClaim) (t : MutationStore)
        → In d bs
        → IsDone d t
        → IsDone d (w.meanwhile c t)) where
    drain_claims-frees :
        (cs : List MutationClaim) (s : MutationStore)
        → ((d : MutationClaim) → In d cs → In d bs)
        → IsConsistent s
        → (drain_claims lib w cs s).0 ≡ false
        → (d : MutationClaim) → In d cs
        → IsDone d (drain_claims lib w cs s).1
    unfolding drain_claims
    drain_claims-frees [] s part k e d m = absurd m
    drain_claims-frees (c ∷ cs) s part k e d m =
        let done = handle_exception lib w c (try_claim lib w c s) in
        elim (Bool-cases done.0) [
          | inl stop ↦
              let same : drain_claims lib w (c ∷ cs) s ≡ (true, done.1) =
                rw (drain_claims, stop) refl in
              let wrong : true ≡ false = sym (ap (λ (r : Bool × MutationStore). r.0) same) ∙ e in cc
          | inr go ↦
              let same : drain_claims lib w (c ∷ cs) s ≡ drain_claims lib w cs done.1 =
                rw (drain_claims, go) refl in
              rw same (elim m [
                | inl is_c ↦ rw is_c (
                    drain_claims-IsDone c (λ x t. fresh c x t (part c (inl refl))) cs done.1
                      (handle_exception-frees lib w c (try_claim lib w c s)
                        (try_claim-frees lib w c s k)))
                | inr later ↦
                    drain_claims-frees cs done.1 (λ x i. part x (inr i))
                      (reach-IsConsistent lib s done.1 k (handled-Reach lib w others c s here))
                      (sym (ap (λ (r : Bool × MutationStore). r.0) same) ∙ e) d later
              ])
        ]

-- A drain that no exception leaves settles its batch, in consistent tables and if no other task takes
-- a claim with a token of the batch while the gateway is awaited: of each claim that it has taken, no
-- row is left dispatching, whatever the gateway answers or raises.
pub drain_mutations-IsDone :
    (lib : Library) (w : Outside) (token_hex : ℕ → String) (now limit n : ℕ) (s t : MutationStore)
    → ((c : MutationClaim) (u : MutationStore) → MutationReach lib u (w.meanwhile c u))
    → ((d c : MutationClaim) (u : MutationStore)
        → In d (claim_due token_hex now 300 limit s).0
        → IsDone d u
        → IsDone d (w.meanwhile c u))
    → IsConsistent s
    → drain_mutations lib w token_hex now limit s ≡ (some n, t)
    → (d : MutationClaim) → In d (claim_due token_hex now 300 limit s).0
    → any (owns dispatching d.mutation_id d.claim_token) t.mutations ≡ false
unfolding drain_mutations
drain_mutations-IsDone lib w token_hex now limit n s t others fresh k e d m =
    let (batch, u) = claim_due token_hex now 300 limit s in
    let run = drain_claims lib w batch u in
    let ended : run ≡ (false, t) = count_or_raise-ok (length batch) run n t e in
    let done =
      drain_claims-frees lib w others batch fresh batch u (λ x i. i)
        (claim_due-IsConsistent token_hex now 300 limit s k)
        (ap (λ (r : Bool × MutationStore). r.0) ended) d m in
    any-none (owns dispatching d.mutation_id d.claim_token) t.mutations λ x i. done x (rw ended i)
