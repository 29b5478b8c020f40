-- ===== src/DeliveryService/Mutations/Tests.antt =====
-- src/user_actor_delivery.py: a deletion that is handed to the gateway, whose answer cannot be read.
use discord_fediverse_bridge.DeliveryService.Mutations.Unsent.{
  with_gateway, is_unsent, try_claim_unsent,
}
use discord_fediverse_bridge.DeliveryService.Requests.{
  Outside, invalid, raises, validate_mutation_request, send_content, failure,
}
use discord_fediverse_bridge.Base.{
  ℕ, ◌≡◌, refl, String, none, some, [], In, any, find, nat_eq, string_eq, option_eq, true, ◌∷◌, inl,
  sort_by, insert_by, take, false,
}
use discord_fediverse_bridge.Base.Table.{update_where, get}
use discord_fediverse_bridge.Delivery.{content_delete, source_kind_eq}
use discord_fediverse_bridge.Mutation.{
  delete, dispatching, send_possible, mutation_state_eq, Mutation, reserved, MutationStore,
}
use discord_fediverse_bridge.Mutation.Claims.{
  MutationClaim, claim_due, claim_rows, claimable_rows, claimable_row, is_claimable, set_mutation,
}
use discord_fediverse_bridge.Mutation.Reserve.{request_of}
use discord_fediverse_bridge.Mutation.Reports.{owns, mark_send_possible, load_canonical_ready}
use discord_fediverse_bridge.Mutation.Lifecycle.{here}
use discord_fediverse_bridge.Mutation.Tests.{
  lib, post, mutation, dispatched, single-IsConsistent, with_mutation,
}
use discord_fediverse_bridge.DeliveryService.Mutations.{
  try_claim, handle_exception, drain_mutations, drain_claims, dispatch,
}
use discord_fediverse_bridge.DeliveryService.Mutations.Sent.{Ends, handle_exception-Ends}
use discord_fediverse_bridge.DeliveryService.Mutations.Batch.{drain_mutations-IsDone}

abbrev claim : MutationClaim
claim = record {
  mutation_id = 1;
  claim_token = "token";
  operation_id = "op-delete";
  activity_id = "https://bridge.example/actors/users/bob/activities/delete/posts/op-delete";
  published_object_id = 1;
  user_id = 1;
  actor_username = "bob";
  actor_url = "https://bridge.example/actors/users/bob";
  kind = content_delete;
  expected_revision = 1;
  next_revision = 2;
  request = request_of (post delete) none;
}

-- nothing that the gateway answers can be read, and no other task runs
abbrev garbled : Outside
garbled = record {
  delete_content = λ request. raises (invalid "Expecting value");
  update_content = λ request. raises (invalid "Expecting value");
  meanwhile = λ c s. s;
  error_text = λ e. "error";
  committed_at = λ c. 102;
  failed_at = λ c. 103;
}

abbrev sent : Mutation
sent = record (mutation dispatching (some "token")) { side_effect_classification = send_possible }

not_ready : load_canonical_ready 1 "token" dispatched ≡ none
unfolding load_canonical_ready find nat_eq string_eq option_eq mutation_state_eq
not_ready = refl

is_valid : validate_mutation_request claim ≡ none
unfolding validate_mutation_request string_eq source_kind_eq
is_valid = refl

owns_dispatched : any (owns dispatching 1 "token") dispatched.mutations ≡ true
unfolding any nat_eq string_eq option_eq mutation_state_eq
owns_dispatched = refl

owns-sent :
    find (owns dispatching 1 "token") (mark_send_possible 1 "token" dispatched).1.mutations
    ≡ some sent
unfolding mark_send_possible update_where find nat_eq string_eq option_eq mutation_state_eq
owns-sent = refl

handle_exception-Ends_example :
    (k : Mutation) × In k
      (handle_exception lib garbled claim (try_claim lib garbled claim dispatched)).1.mutations
    × (k.id ≡ 1)
    × Ends (send_content garbled claim) k
handle_exception-Ends_example =
    handle_exception-Ends lib garbled claim dispatched sent not_ready is_valid owns_dispatched
      owns-sent

abbrev token_hex : ℕ → String
token_hex n = "another token"

-- the gateway does not answer
abbrev silenced : Outside
silenced = record garbled {
  delete_content = λ request. raises (failure "timeout");
  update_content = λ request. raises (failure "timeout");
}

abbrev open_store : MutationStore
open_store = with_mutation reserved none

abbrev open_claim : MutationClaim
open_claim = record claim { claim_token = "another token" }

takes_open :
    claim_due token_hex 400 300 10 open_store
    ≡ (open_claim ∷ [], (claim_due token_hex 400 300 10 open_store).1)
unfolding claim_due claim_rows claimable_rows claimable_row is_claimable sort_by insert_by take get
    find nat_eq mutation_state_eq
takes_open = refl

In-open : In open_claim (claim_due token_hex 400 300 10 open_store).0
In-open = rw takes_open (inl refl)

drains_open :
    drain_mutations lib silenced token_hex 400 10 open_store
    ≡ (some 1, (drain_mutations lib silenced token_hex 400 10 open_store).1)
unfolding drain_mutations drain_claims try_claim dispatch handle_exception send_content
    validate_mutation_request mark_send_possible load_canonical_ready claim_due claim_rows
    claimable_rows claimable_row is_claimable sort_by insert_by take get find any set_mutation
    update_where nat_eq string_eq option_eq mutation_state_eq source_kind_eq
drains_open = refl

drain_mutations-IsDone_example :
    any
      (owns dispatching open_claim.mutation_id open_claim.claim_token)
      (drain_mutations lib silenced token_hex 400 10 open_store).1.mutations
    ≡ false
drain_mutations-IsDone_example =
    drain_mutations-IsDone lib silenced token_hex 400 10 1 open_store
      (drain_mutations lib silenced token_hex 400 10 open_store).1 (λ c u. here) (λ d c u i h. h)
      (single-IsConsistent reserved none) drains_open open_claim In-open

-- a claim whose row has gone to another token
abbrev lost_claim : MutationClaim
lost_claim = record claim { claim_token = "old" }

is_unsent_lost : is_unsent lost_claim dispatched ≡ true
unfolding load_canonical_ready validate_mutation_request any find nat_eq string_eq option_eq
    mutation_state_eq source_kind_eq
is_unsent_lost = refl

try_claim_unsent_example :
    let other =
      with_gateway silenced.delete_content silenced.update_content silenced.meanwhile garbled in
    handle_exception lib other lost_claim (try_claim lib other lost_claim dispatched)
    ≡ handle_exception lib garbled lost_claim (try_claim lib garbled lost_claim dispatched)
try_claim_unsent_example =
    try_claim_unsent lib garbled silenced.delete_content silenced.update_content silenced.meanwhile
      lost_claim dispatched is_unsent_lost
