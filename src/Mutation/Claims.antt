-- ===== src/Mutation/Claims.antt =====
-- src/db/repositories/content_mutations.py: the claims on reservations.
use discord_fediverse_bridge.Base.{
  ℕ, ◌+◌, suc, String, Bool, true, false, ◌&&◌, ◌||◌, Option, none, some, List, [], ◌∷◌, leb, ◌==◌,
  nat_eq, is_some, take, sort_by, if◌then◌else◌,
}
use discord_fediverse_bridge.Base.Table.{update_where, get}
use discord_fediverse_bridge.Delivery.{SourceKind, User}
use discord_fediverse_bridge.Mutation.{
  MutationState, reserved, dispatching, ambiguous, canonical_ready, mutation_state_eq,
  not_dispatched, Published, Request, Mutation, MutationStore,
}

-- `ClaimedContentMutation`
pub record MutationClaim : Type 0 where
  pub mutation_id : ℕ
  pub claim_token : String
  pub operation_id : String
  pub activity_id : String
  pub published_object_id : ℕ
  pub user_id : ℕ
  pub actor_username : String
  pub actor_url : String
  pub kind : SourceKind
  pub expected_revision : ℕ
  pub next_revision : ℕ
  pub request : Request

-- a change of the mutation with an id
unfoldable pub set_mutation : ℕ → (Mutation → Mutation) → MutationStore → MutationStore
set_mutation k f s = record s { mutations = update_where (λ m. m.id == k) f s.mutations }

abbrev waits : MutationState → Bool
waits reserved = true
waits ambiguous = true
waits canonical_ready = true
waits _ = false

-- a time that has come; NULL is `if_null`
abbrev pub has_come : Bool → ℕ → Option ℕ → Bool
has_come if_null now none = if_null
has_come if_null now (some t) = leb t now

unfoldable pub is_claimable : ℕ → Mutation → Bool
is_claimable now m =
    waits m.state && has_come true now m.next_attempt_at
    || m.state == dispatching && has_come false now m.lease_expires_at

-- the joins of a mutation on its user and on its published object
unfoldable pub claimable_row :
    ℕ → MutationStore → Mutation → Option User → List (Mutation × User) → List (Mutation × User)
claimable_row now s m none rest = rest
claimable_row now s m (some user) rest =
    if is_claimable now m
      && is_some (get (λ (p : Published). p.id) m.published_object_id s.published)
    then (m, user) ∷ rest
    else rest

unfoldable pub claimable_rows : ℕ → MutationStore → List Mutation → List (Mutation × User)
claimable_rows now s [] = []
claimable_rows now s (m ∷ ms) =
    claimable_row now s m (get (λ (u : User). u.id) m.user_id s.outbound.users)
      (claimable_rows now s ms)

abbrev pub lease : String → ℕ → ℕ → Mutation → Mutation
lease token now stale_after m =
    let held = record m {
      claim_token = some token;
      claimed_at = some now;
      lease_expires_at = some (now + stale_after);
    } in
    if m.state == canonical_ready then held else record held {
      state = dispatching;
      side_effect_classification = not_dispatched;
      attempt_count = m.attempt_count + 1;
    }

abbrev pub mutation_claim : String → Mutation → User → MutationClaim
mutation_claim token m user = record {
  mutation_id = m.id;
  claim_token = token;
  operation_id = m.operation_id;
  activity_id = m.activity_id;
  published_object_id = m.published_object_id;
  user_id = m.user_id;
  actor_username = user.activitypub_username;
  actor_url = user.actor_url;
  kind = m.kind;
  expected_revision = m.expected_revision;
  next_revision = m.next_revision;
  request = m.request;
}

-- `token_hex n` is the n-th draw of `secrets.token_hex(16)` in this batch.
module _ (token_hex : ℕ → String) (now stale_after : ℕ) where
  unfoldable pub claim_rows :
      ℕ → List (Mutation × User) → MutationStore → List MutationClaim × MutationStore
  claim_rows n [] s = ([], s)
  claim_rows n ((m, user) ∷ rows) s =
      let rest =
        claim_rows (suc n) rows (set_mutation m.id (lease (token_hex n) now stale_after) s) in
      (mutation_claim (token_hex n) m user ∷ rest.0, rest.1)

  unfoldable pub claim_due : ℕ → MutationStore → List MutationClaim × MutationStore
  claim_due limit s =
      claim_rows 0
        (take limit (sort_by (λ a b. leb a.0.id b.0.id) (claimable_rows now s s.mutations))) s
