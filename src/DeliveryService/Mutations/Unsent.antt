-- ===== src/DeliveryService/Mutations/Unsent.antt =====
-- src/user_actor_delivery.py: the claims that are not handed to the gateway.
use discord_fediverse_bridge.Base.{
  ◌≡◌, refl, String, Bool, true, false, ◌||◌, not, Option, none, some, arith, is_some, any,
  Option-cases, inl, inr,
}
use discord_fediverse_bridge.Mutation.{MutationStore, Library, dispatching}
use discord_fediverse_bridge.Mutation.Claims.{MutationClaim}
use discord_fediverse_bridge.Mutation.Reports.{owns, mark_send_possible, load_canonical_ready}
use discord_fediverse_bridge.DeliveryService.Requests.{
  Outside, Attempt, Exception, invalid, cancelled, failure, DeleteContentRequest,
  UpdateContentRequest, validate_mutation_request,
}
use discord_fediverse_bridge.DeliveryService.Mutations.{
  commit_and_reserve, dispatch, try_claim, handle_exception,
}

-- the outside with another gateway, and other changes while it is awaited
abbrev pub with_gateway :
    (DeleteContentRequest → Attempt String)
    → (UpdateContentRequest → Attempt String)
    → (MutationClaim → MutationStore → MutationStore)
    → Outside
    → Outside
with_gateway delete_content update_content meanwhile w = record w {
  delete_content = delete_content;
  update_content = update_content;
  meanwhile = meanwhile;
}

-- what keeps a claim from the gateway: a canonical result, a request that is not valid, or no row that
-- it may dispatch
abbrev pub is_unsent : MutationClaim → MutationStore → Bool
is_unsent c s =
    is_some (load_canonical_ready c.mutation_id c.claim_token s)
    || is_some (validate_mutation_request c)
    || not (any (owns dispatching c.mutation_id c.claim_token) s.mutations)

module _ (lib : Library) (w : Outside) (delete_content : DeleteContentRequest → Attempt String)
    (update_content : UpdateContentRequest → Attempt String)
    (meanwhile : MutationClaim → MutationStore → MutationStore) (c : MutationClaim)
    (s : MutationStore) where
  dispatch_unsent :
      (is_some (validate_mutation_request c)
          || not (any (owns dispatching c.mutation_id c.claim_token) s.mutations))
        ≡ true
      → dispatch lib (with_gateway delete_content update_content meanwhile w) c s
        ≡ dispatch lib w c s
  unfolding dispatch mark_send_possible
  dispatch_unsent h = elim (Option-cases (validate_mutation_request c)) [
    | inr (text, e) ↦ rw (dispatch, e) refl
    | inl valid ↦
        let lost : any (owns dispatching c.mutation_id c.claim_token) s.mutations ≡ false =
          ground (arith, valid, h) in
        rw (dispatch, valid) rw lost refl
  ]

  attempt_unsent :
      is_unsent c s ≡ true
      → try_claim lib (with_gateway delete_content update_content meanwhile w) c s
        ≡ try_claim lib w c s
  unfolding try_claim commit_and_reserve
  attempt_unsent h = elim (Option-cases (load_canonical_ready c.mutation_id c.claim_token s)) [
    | inr (canonical, e) ↦ rw (try_claim, e) refl
    | inl absent ↦ rw (try_claim, absent) (dispatch_unsent (ground (arith, absent, h)))
  ]

  -- the handlers do not call the gateway
  handles_alike :
      (r : Option Exception × MutationStore)
      → handle_exception lib (with_gateway delete_content update_content meanwhile w) c r
        ≡ handle_exception lib w c r
  unfolding handle_exception
  handles_alike (none, t) = refl
  handles_alike (some (invalid text), t) = refl
  handles_alike (some cancelled, t) = refl
  handles_alike (some (failure text), t) = refl

-- A claim that has a canonical result, whose request is not valid, or that has no row to dispatch is
-- never handed to the gateway: what becomes of it, and of every table, is the same for any gateway, any
-- answer or exception, and any changes that others would make while it is awaited.
pub try_claim_unsent :
    (lib : Library) (w : Outside) (delete_content : DeleteContentRequest → Attempt String)
    (update_content : UpdateContentRequest → Attempt String)
    (meanwhile : MutationClaim → MutationStore → MutationStore) (c : MutationClaim)
    (s : MutationStore)
    → is_unsent c s ≡ true
    → let other = with_gateway delete_content update_content meanwhile w in
      handle_exception lib other c (try_claim lib other c s)
      ≡ handle_exception lib w c (try_claim lib w c s)
unfolding handle_exception
try_claim_unsent lib w delete_content update_content meanwhile c s h =
    rw (attempt_unsent lib w delete_content update_content meanwhile c s h)
      (handles_alike lib w delete_content update_content meanwhile c s (try_claim lib w c s))
