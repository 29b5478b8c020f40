-- ===== src/DeliveryService/Mutations/Calls.antt =====
-- src/user_actor_delivery.py: the treatment of a claim is a sequence of calls of the repository.
use discord_fediverse_bridge.DeliveryService.Requests.{Outside}
use discord_fediverse_bridge.Mutation.{MutationStore, Library}
use discord_fediverse_bridge.Mutation.Claims.{MutationClaim}
use discord_fediverse_bridge.Mutation.Lifecycle.{MutationStep, MutationReach, here, next}
use discord_fediverse_bridge.DeliveryService.Mutations.{try_claim, handle_exception}
use discord_fediverse_bridge.DeliveryService.Mutations.Closed.{
  IsClosed, try_claim-IsClosed, handle_exception-IsClosed,
}

pub MutationReach-trans :
    (lib : Library) {s t u : MutationStore}
    → MutationReach lib s t
    → MutationReach lib t u
    → MutationReach lib s u
MutationReach-trans lib first here = first
MutationReach-trans lib first (next second last) = next (MutationReach-trans lib first second) last

module _ (lib : Library) (w : Outside)
    (others : (c : MutationClaim) (t : MutationStore) → MutationReach lib t (w.meanwhile c t))
    {s : MutationStore} where
  MutationReach-IsClosed : (c : MutationClaim) → IsClosed lib w c (MutationReach lib s)
  MutationReach-IsClosed c = record {
    commits = λ t canonical path.
        next path (MutationStep.commits (w.committed_at c) c.mutation_id c.claim_token canonical);
    reserves =
        λ t object_id path. next path (MutationStep.reserves object_id c.request.target_inbox_urls);
    aborts = λ t text path. next path (MutationStep.aborts c.mutation_id c.claim_token text);
    fails = λ t text path.
        next path (MutationStep.fails (w.failed_at c) c.mutation_id c.claim_token text);
  }

  pub handled-Reach :
      (c : MutationClaim) (t : MutationStore)
      → MutationReach lib s t
      → MutationReach lib s (handle_exception lib w c (try_claim lib w c t)).1
  handled-Reach c t path =
      handle_exception-IsClosed lib w c (MutationReach lib s) (MutationReach-IsClosed c)
        (try_claim lib w c t)
        (try_claim-IsClosed lib w c (MutationReach lib s) (MutationReach-IsClosed c)
          (λ u path. next path (MutationStep.sends c.mutation_id c.claim_token))
          (λ u path. MutationReach-trans lib path (others c u))
          (λ u canonical path.
            next path (MutationStep.receives c.mutation_id c.claim_token canonical))
          t path)
