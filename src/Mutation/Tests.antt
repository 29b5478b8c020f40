-- ===== src/Mutation/Tests.antt =====
-- src/db/repositories/content_mutations.py: one published post and its author, for the runs of the
-- repository.
use discord_fediverse_bridge.Base.{
  ◌≤◌, ◌≡◌, refl, String, ◌<>◌, true, false, Option, none, some, [], ◌∷◌, In, inl, inr, any, find,
  ok, raised, Error, integrity_error, ◌⊎◌, is_some, string_eq, nat_eq, option_eq, sym, ap, ◌∙◌,
}
use discord_fediverse_bridge.Base.Table.{get, next_id}
use discord_fediverse_bridge.IdentityUrls.{
  Url, build_user_delete_post_activity_id, user_root, actor_root, validate_identifier, is_origin,
  url_origin, normalize_origin, validate_user_identifier, segment,
}
use discord_fediverse_bridge.Delivery.{Source, SourceKind, content_delete, source_kind_eq, Store}
use discord_fediverse_bridge.Mutation.{
  DesiredKind, delete, desired_kind_eq, MutationState, reserved, dispatching, canonical_ready,
  not_dispatched, mutation_state_eq, Published, Mutation, MutationStore, Library,
}
use discord_fediverse_bridge.Mutation.Desired.{published_of, is_terminal}
use discord_fediverse_bridge.Mutation.Reserve.{
  reserve_next, reserve_next_in_session, reserve_new, activity_id_of, insert_mutation,
  active_mutation, identity_of, request_of,
}
use discord_fediverse_bridge.Mutation.Reports.{owns, mark_send_possible, abort_local_validation}
use discord_fediverse_bridge.Mutation.Commit.{source_for, commit_canonical}
use discord_fediverse_bridge.Mutation.Lifecycle.{
  MutationStep, MutationReach, here, next, IsConsistent,
}
use discord_fediverse_bridge.Mutation.Lifecycle.Invariant.{reach-IsConsistent}
use discord_fediverse_bridge.Mutation.Lifecycle.Terminal.{reach-terminal}
use discord_fediverse_bridge.Mutation.Lifecycle.Repeats.{reserve_next_repeats}
use discord_fediverse_bridge.Mutation.Lifecycle.Aborted.{aborted_deletion_refused}
use discord_fediverse_bridge.Mutation.Lifecycle.Commits.{IsCommitted, commit_canonical_commits}
use discord_fediverse_bridge.Mutation.Claims.{lease, set_mutation}

abbrev pub url : Url
url = record {
  scheme = "https";
  netloc = "bridge.example";
  username = none;
  password = none;
  path = "";
  query = "";
  fragment = "";
  hostname = some "bridge.example";
  port = ok none;
}

abbrev pub kind_text : SourceKind → String
kind_text content_delete = "delete"
kind_text _ = "other"

-- every text is read as the one URL; a digest names what it is of
abbrev pub lib : Library
lib = record {
  urllib = record { urlsplit = λ text. ok url; quote = λ text. text; unquote = λ text. text };
  content_digest = λ kind title body. "content";
  operation_digest = λ identity. "op-" <> kind_text identity.kind;
  request_digest = λ request operation_id activity_id. "request";
  snapshot_json = λ object_id kind revision. "{}";
}

abbrev pub post_id : String
post_id = "https://bridge.example/actors/users/bob/objects/posts/1"

abbrev pub post : DesiredKind → Published
post desired = record {
  id = 1;
  actor_username = "bob";
  actor_url = "https://bridge.example/actors/users/bob";
  publication_context = "community";
  community_actor_url = some "https://lemmy.example/c/cats";
  object_id = post_id;
  kind = "post";
  title = some "cats";
  body_markdown = "two cats";
  in_reply_to_object_id = none;
  conversation_root_object_id = none;
  discord_channel_id = some 5;
  discord_message_id = some 6;
  content_revision = 1;
  deleted_at = none;
  desired_kind = desired;
  desired_title = none;
  desired_body_markdown = none;
  desired_edited_timestamp = none;
  desired_fingerprint = none;
  reconciliation_needed = false;
  reconciliation_attempt_count = 0;
  reconciliation_next_attempt_at = none;
  reconciliation_last_error = none;
}

abbrev pub users : Store
users = record {
  sources = [];
  deliveries = [];
  audience = [];
  media = [];
  followers = [];
  users =
      record {
        id = 1;
        activitypub_username = "bob";
        actor_url = "https://bridge.example/actors/users/bob";
      }
      ∷ [];
}

abbrev pub mutation : MutationState → Option String → Mutation
mutation st token = record {
  id = 1;
  published_object_id = 1;
  user_id = 1;
  kind = content_delete;
  expected_revision = 1;
  next_revision = 2;
  operation_id = "op-delete";
  activity_id = "https://bridge.example/actors/users/bob/activities/delete/posts/op-delete";
  request = request_of (post delete) none;
  request_fingerprint = "request";
  state = st;
  canonical_activity_json = none;
  claim_token = token;
  side_effect_classification = not_dispatched;
  lease_expires_at = none;
  claimed_at = none;
  attempt_count = 0;
  next_attempt_at = none;
  last_error = none;
}

abbrev pub before : MutationStore
before = record { published = post delete ∷ []; mutations = []; outbound = users }

abbrev pub with_mutation : MutationState → Option String → MutationStore
with_mutation st token = record before { mutations = mutation st token ∷ [] }

reserves_delete : reserve_next lib post_id none before ≡ ok (some 1, with_mutation reserved none)
unfolding reserve_next published_of find string_eq nat_eq desired_kind_eq source_kind_eq
    reserve_next_in_session active_mutation reserve_new activity_id_of
    build_user_delete_post_activity_id user_root actor_root validate_identifier normalize_origin
    is_origin url_origin validate_user_identifier segment identity_of insert_mutation any next_id
reserves_delete = refl

pub single-IsConsistent :
    (st : MutationState) (token : Option String) → IsConsistent (with_mutation st token)
single-IsConsistent st token = record {
  published_keys = (tt, tt);
  mutation_keys = (tt, tt);
  single = λ m n hm hn am an e. elim hm [
    | inl a ↦ elim hn [ inl b ↦ ap (λ (x : Mutation). x.id) (a ∙ sym b) | inr b ↦ absurd b ]
    | inr a ↦ absurd a
  ];
  current = λ m p hm hp am e. elim hm [
    | inl a ↦ elim hp [ inl b ↦ rw a rw b refl | inr b ↦ absurd b ]
    | inr a ↦ absurd a
  ];
  successor = λ m hm. elim hm [ inl a ↦ rw a refl | inr a ↦ absurd a ];
}

abbrev pub dispatched : MutationStore
dispatched = with_mutation dispatching (some "token")

abbrev path : MutationReach lib dispatched (mark_send_possible 1 "token" dispatched).1
path = next here (MutationStep.sends 1 "token")

reach-IsConsistent_example : IsConsistent (mark_send_possible 1 "token" dispatched).1
reach-IsConsistent_example =
    reach-IsConsistent lib dispatched (mark_send_possible 1 "token" dispatched).1
      (single-IsConsistent dispatching (some "token")) path

reach-terminal_example :
    (q : Published) × In q (mark_send_possible 1 "token" dispatched).1.published
    × (q.id ≡ 1)
    × (1 ≤ q.content_revision)
    × (is_terminal (post delete) ≡ true → is_terminal q ≡ true)
    × (is_some (post delete).deleted_at ≡ true → is_some q.deleted_at ≡ true)
reach-terminal_example =
    reach-terminal lib dispatched (mark_send_possible 1 "token" dispatched).1
      (single-IsConsistent dispatching (some "token")) path (post delete) (inl refl)

abbrev ready_store : MutationStore
ready_store = with_mutation canonical_ready (some "token")

owned :
    find (owns canonical_ready 1 "token") ready_store.mutations
    ≡ some (mutation canonical_ready (some "token"))
unfolding find nat_eq string_eq option_eq mutation_state_eq
owned = refl

stored : get (λ (q : Published). q.id) 1 ready_store.published ≡ some (post delete)
unfolding get find nat_eq
stored = refl

commit_canonical_commits_example :
    ((e : Error) × (source_for lib "{}"
          (mutation canonical_ready (some "token"))
          (post delete)
          ready_store
        ≡ raised e)
      × (commit_canonical lib 100 1 "token" "{}" ready_store ≡ raised e))
    ⊎ ((src : Source) × (t : MutationStore) × (commit_canonical lib 100 1 "token" "{}" ready_store
          ≡ ok (some (src.id, post_id), t))
        × IsCommitted 100 "{}"
            (mutation canonical_ready (some "token"))
            (post delete)
            ready_store
            t
            src)
commit_canonical_commits_example =
    commit_canonical_commits lib 100 1 "token" "{}" ready_store
      (mutation canonical_ready (some "token")) (post delete)
      (single-IsConsistent canonical_ready (some "token")) owned stored

reserve_next_repeats_example :
    reserve_next lib post_id (some []) (with_mutation reserved none)
    ≡ ok (some 1, with_mutation reserved none)
reserve_next_repeats_example =
    reserve_next_repeats lib post_id none (some []) before (with_mutation reserved none) 1
      reserves_delete

found_before : published_of post_id before ≡ some (post delete)
unfolding published_of find string_eq
found_before = refl

none_open_before : active_mutation 1 before ≡ none
unfolding active_mutation find
none_open_before = refl

before-IsConsistent : IsConsistent before
before-IsConsistent = record {
  published_keys = (tt, tt);
  mutation_keys = tt;
  single = λ m n hm hn am an e. absurd hm;
  current = λ m p hm hp am e. absurd hm;
  successor = λ m hm. absurd hm;
}

aborted_deletion_refused_example :
    reserve_next lib post_id none (
      abort_local_validation 1 "token" "no JSON"
        (set_mutation 1 (lease "token" 100 300) (with_mutation reserved none)))
    ≡ raised integrity_error
aborted_deletion_refused_example =
    aborted_deletion_refused lib post_id none before (with_mutation reserved none) (post delete) 1
      before-IsConsistent found_before refl none_open_before reserves_delete "token" "no JSON" 100
      300
