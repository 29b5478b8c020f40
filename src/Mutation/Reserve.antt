-- ===== src/Mutation/Reserve.antt =====
-- src/db/repositories/content_mutations.py: the reservation of the next transition of an object.
use discord_fediverse_bridge.Base.{
  ℕ, ◌+◌, String, ◌<>◌, Bool, ◌&&◌, ◌||◌, Option, none, some, List, [], ◌∷◌, ◌++◌, ◌==◌, nat_eq,
  string_eq, any, find, has_text, if◌then◌else◌, Result, ok, raised, integrity_error, value_error,
  ◌>>=◌,
}
use discord_fediverse_bridge.Base.Table.{next_id}
use discord_fediverse_bridge.IdentityUrls.{
  Urllib, build_user_update_post_activity_id, build_user_update_comment_activity_id,
  build_user_delete_post_activity_id, build_user_delete_comment_activity_id,
}
use discord_fediverse_bridge.Delivery.{
  SourceKind, content_update, content_delete, source_kind_eq, User,
}
use discord_fediverse_bridge.Mutation.{
  DesiredKind, unchanged, delete, desired_kind_eq, reserved, not_dispatched, Published, Request,
  Identity, Mutation, MutationStore, Library, is_active,
}
use discord_fediverse_bridge.Mutation.Desired.{published_of}

-- the reservation of an object that is still open
unfoldable pub active_mutation : ℕ → MutationStore → Option Mutation
active_mutation published_id s =
    find (λ m. m.published_object_id == published_id && is_active m.state) s.mutations

abbrev pub mutation_kind : DesiredKind → SourceKind
mutation_kind delete = content_delete
mutation_kind _ = content_update

abbrev pub request_of : Published → Option (List String) → Request
request_of p targets = record {
  actor_username = p.actor_username;
  publication_context = p.publication_context;
  community_actor_url = p.community_actor_url;
  conversation_root_object_id = p.conversation_root_object_id;
  ap_object_id = p.object_id;
  kind = some p.kind;
  title = p.desired_title;
  body_markdown = p.desired_body_markdown;
  in_reply_to_object_id = p.in_reply_to_object_id;
  target_inbox_urls = targets;
  mutation_timestamp = p.desired_edited_timestamp;
}

-- what of the request is part of the identity
abbrev pub identity_request : SourceKind → Request → Request
identity_request content_update r = r
identity_request _ r = record r {
  kind = none;
  title = none;
  body_markdown = none;
  in_reply_to_object_id = none;
}

unfoldable pub identity_of : Published → Option (List String) → Identity
identity_of p targets =
    let kind = mutation_kind p.desired_kind in
    record {
      object_id = p.object_id;
      kind = kind;
      expected_revision = p.content_revision;
      next_revision = p.content_revision + 1;
      request = identity_request kind (request_of p targets);
    }

abbrev pub is_comment : String → Bool
is_comment object_id = has_text "/comments/" object_id || has_text "/comment/" object_id

unfoldable pub activity_id_of : Urllib → Published → SourceKind → String → Result String
activity_id_of lib p kind operation_id = lib.urlsplit p.actor_url >>= λ parts.
    let origin = parts.scheme <> "://" <> parts.netloc in
    if kind == content_delete
    then (if is_comment p.object_id
        then build_user_delete_comment_activity_id lib origin p.actor_username operation_id
        else build_user_delete_post_activity_id lib origin p.actor_username operation_id)
    else if is_comment p.object_id
    then build_user_update_comment_activity_id lib origin p.actor_username operation_id
    else build_user_update_post_activity_id lib origin p.actor_username operation_id

-- `fingerprint or digest`
abbrev pub fingerprint_or : Option String → String → String
fingerprint_or none digest = digest
fingerprint_or (some f) digest = if f == "" then digest else f

abbrev pub new_mutation :
    Library → Published → Option (List String) → ℕ → ℕ → String → String → Mutation
new_mutation lib p targets k user_id operation_id activity_id = record {
  id = k;
  published_object_id = p.id;
  user_id = user_id;
  kind = mutation_kind p.desired_kind;
  expected_revision = p.content_revision;
  next_revision = p.content_revision + 1;
  operation_id = operation_id;
  activity_id = activity_id;
  request = request_of p targets;
  request_fingerprint =
      fingerprint_or p.desired_fingerprint
        (lib.request_digest (request_of p targets) operation_id activity_id);
  state = reserved;
  canonical_activity_json = none;
  claim_token = none;
  side_effect_classification = not_dispatched;
  lease_expires_at = none;
  claimed_at = none;
  attempt_count = 0;
  next_attempt_at = none;
  last_error = none;
}

-- INSERT under UNIQUE(operation_id) and UNIQUE(activity_id)
unfoldable pub insert_mutation : Mutation → MutationStore → Result (Option ℕ × MutationStore)
insert_mutation m s =
    if any (λ n. n.operation_id == m.operation_id || n.activity_id == m.activity_id) s.mutations
    then raised integrity_error
    else ok (some m.id, record s { mutations = s.mutations ++ m ∷ [] })

-- the part of `_reserve_next_in_session` that makes a reservation
unfoldable pub reserve_new :
    Library
    → Published
    → Option (List String)
    → Option User
    → MutationStore
    → Result (Option ℕ × MutationStore)
reserve_new lib p targets none s = raised value_error
reserve_new lib p targets (some user) s =
    let operation_id = lib.operation_digest (identity_of p targets) in
    activity_id_of lib.urllib p (mutation_kind p.desired_kind) operation_id >>= λ activity_id.
    insert_mutation
      (new_mutation lib p targets (next_id (λ (m : Mutation). m.id) s.mutations) user.id
        operation_id activity_id)
      s

unfoldable pub reserve_next_in_session :
    Library → Published → Option (List String) → MutationStore → Result (Option ℕ × MutationStore)
reserve_next_in_session lib p targets s =
    let made =
      reserve_new lib p targets (find (λ u. u.actor_url == p.actor_url) s.outbound.users) s in
    if p.desired_kind == unchanged
    then ok (none, s)
    else (elim (active_mutation p.id s) [ some m ↦ ok (some m.id, s) | none ↦ made ])

unfoldable pub reserve_next :
    Library → String → Option (List String) → MutationStore → Result (Option ℕ × MutationStore)
reserve_next lib object_id targets s = elim (published_of object_id s) [
  | none ↦ ok (none, s)
  | some p ↦ reserve_next_in_session lib p targets s
]
