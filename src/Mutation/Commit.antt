-- ===== src/Mutation/Commit.antt =====
-- src/db/repositories/content_mutations.py: the commit of a canonical result, which applies it to
-- the published object and makes the source that its followers are sent.
use discord_fediverse_bridge.Base.{
  ℕ, String, Option, none, some, ◌==◌, ◌!=◌, nat_eq, find, filter, if◌then◌else◌, Result, ok, ◌>>=◌,
}
use discord_fediverse_bridge.Base.Table.{update_where, get}
use discord_fediverse_bridge.Delivery.{content_delete, source_kind_eq, Source, Follower, Store}
use discord_fediverse_bridge.Delivery.Sources.{insert_ready_content_source}
use discord_fediverse_bridge.Mutation.{
  unchanged, desired_kind_eq, canonical_ready, committed, mutation_state_eq, Published, Mutation,
  MutationStore, Library,
}
use discord_fediverse_bridge.Mutation.Reports.{owns, is_desired_update}

-- `str(request.get("bodyMarkdown") or "")`
abbrev pub body_or_empty : Option String → String
body_or_empty none = ""
body_or_empty (some body) = body

-- the canonical state, and the end of the desire that it fulfils
unfoldable pub apply_canonical : ℕ → Mutation → Published → Published
apply_canonical now m p =
    if m.kind == content_delete
    then record p {
      deleted_at = some now;
      content_revision = m.next_revision;
      desired_kind = unchanged;
    }
    else record p {
      title = m.request.title;
      body_markdown = body_or_empty m.request.body_markdown;
      content_revision = m.next_revision;
      desired_kind =
          (if is_desired_update m.request_fingerprint p then unchanged else p.desired_kind);
    }

abbrev pub finish : Mutation → Mutation
finish m = record m {
  state = committed;
  claim_token = none;
  claimed_at = none;
  lease_expires_at = none;
  next_attempt_at = none;
}

-- the source of the followers
unfoldable pub source_for :
    Library → String → Mutation → Published → MutationStore → Result (Source × Store)
source_for lib activity_json m p s =
    insert_ready_content_source lib.urllib m.user_id m.kind m.next_revision m.activity_id p.id
      p.object_id activity_json (lib.snapshot_json p.object_id m.kind m.next_revision)
      (filter (λ (f : Follower). f.user_id == m.user_id) s.outbound.followers) none s.outbound

abbrev pub committed_store : ℕ → Mutation → Published → Store → MutationStore → MutationStore
committed_store now m p outbound s = record {
  published = update_where (λ (q : Published). q.id == p.id) (apply_canonical now m) s.published;
  mutations = update_where (λ (n : Mutation). n.id == m.id) finish s.mutations;
  outbound = outbound;
}

-- the part of `commit_canonical` behind its checks
unfoldable pub commit :
    Library
    → ℕ
    → String
    → Mutation
    → Published
    → MutationStore
    → Result (Option (ℕ × String) × MutationStore)
commit lib now activity_json m p s = source_for lib activity_json m p s >>= λ made.
    ok (some (made.0.id, p.object_id), committed_store now m p made.1 s)

unfoldable pub commit_canonical :
    Library → ℕ → ℕ → String → String → MutationStore → Result (Option (ℕ × String) × MutationStore)
commit_canonical lib now mutation_id token activity_json s =
    elim (find (owns canonical_ready mutation_id token) s.mutations) [
      | none ↦ ok (none, s)
      | some m ↦ elim (get (λ (p : Published). p.id) m.published_object_id s.published) [
        | none ↦ ok (none, s)
        | some p ↦
            let done = commit lib now activity_json m p s in
            if p.content_revision != m.expected_revision then ok (none, s) else done
      ]
    ]
