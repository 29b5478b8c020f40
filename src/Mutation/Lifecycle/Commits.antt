-- ===== src/Mutation/Lifecycle/Commits.antt =====
-- src/db/repositories/content_mutations.py: what a commit that is accepted leaves in the tables.
use discord_fediverse_bridge.Base.{
  ℕ, ◌≡◌, ◌≢◌, ◌⊎◌, refl, String, none, some, arith, ◌==◌, nat_eq, string_eq, option_eq, In,
  In-find, inl, inr, find, if◌then◌else◌, Result, ok, raised, Error,
}
use discord_fediverse_bridge.Base.Table.{get, In-update_hit, In-update_miss}
use discord_fediverse_bridge.Delivery.{Source, Store, content_delete, source_kind_eq}
use discord_fediverse_bridge.Delivery.Lifecycle.Sourced.{
  IsSource, insert_ready_content_source-IsSource,
}
use discord_fediverse_bridge.Mutation.{
  Published, Mutation, MutationStore, Library, canonical_ready, committed, mutation_state_eq,
}
use discord_fediverse_bridge.Mutation.Reports.{owns}
use discord_fediverse_bridge.Mutation.Commit.{
  body_or_empty, apply_canonical, finish, commit, commit_canonical, source_for, committed_store,
}
use discord_fediverse_bridge.Mutation.Lifecycle.{IsConsistent}
use discord_fediverse_bridge.Mutation.Lifecycle.Invariant.{commit_canonical_accepts}

-- The mutation `m` of the object `p` has been carried out: its row is committed and given back, the
-- object is at the next revision with the requested content or the deletion, other objects are as they
-- were, and the source `src` of the followers stands in the table with the canonical activity.
pub record IsCommitted (now : ℕ) (activity_json : String) (m : Mutation) (p : Published)
    (s t : MutationStore) (src : Source) : Type 0 where
  pub row : Mutation
  pub row_stored : In row t.mutations
  pub same_row : row.id ≡ m.id
  pub is_committed : row.state ≡ committed
  pub given_back : row.claim_token ≡ none
  pub object : Published
  pub object_stored : In object t.published
  pub same_object : object.id ≡ p.id
  pub revision : object.content_revision ≡ m.next_revision
  pub deletion : object.deleted_at ≡ (if m.kind == content_delete then some now else p.deleted_at)
  pub title : object.title ≡ (if m.kind == content_delete then p.title else m.request.title)
  pub body : object.body_markdown ≡ (
      if m.kind == content_delete then p.body_markdown else body_or_empty m.request.body_markdown)
  pub others : (q : Published) → In q s.published → q.id ≢ p.id → In q t.published
  pub source :
      IsSource m.user_id m.kind m.next_revision m.activity_id p.id activity_json src t.outbound

module _ (now : ℕ) (activity_json : String) (m : Mutation) (p : Published) (s : MutationStore)
    (held : In m s.mutations) (stored : In p s.published) where
  committed_store-IsCommitted :
      (src : Source) (outbound : Store)
      → IsSource m.user_id m.kind m.next_revision m.activity_id p.id activity_json src outbound
      → IsCommitted now activity_json m p s (committed_store now m p outbound s) src
  unfolding apply_canonical
  committed_store-IsCommitted src outbound made = record {
    row = finish m;
    row_stored =
        In-update_hit (λ (n : Mutation). n.id == m.id) finish s.mutations m held (ground arith);
    same_row = refl;
    is_committed = refl;
    given_back = refl;
    object = apply_canonical now m p;
    object_stored =
        In-update_hit (λ (q : Published). q.id == p.id) (apply_canonical now m) s.published p stored
          (ground arith);
    same_object = ground arith;
    revision = ground arith;
    deletion = ground arith;
    title = ground arith;
    body = ground arith;
    others = λ q there differs.
        In-update_miss (λ (r : Published). r.id == p.id) (apply_canonical now m) s.published q there
          (ground (arith, differs));
    source = made;
  }

-- a commit raises exactly as the making of its source does, or carries the mutation out
commit-IsCommitted :
    (lib : Library) (now : ℕ) (activity_json : String) (m : Mutation) (p : Published)
    (s : MutationStore)
    → In m s.mutations
    → In p s.published
    → (made : Result (Source × Store)) → source_for lib activity_json m p s ≡ made
    → ((e : Error) × (made ≡ raised e) × (commit lib now activity_json m p s ≡ raised e))
      ⊎ ((src : Source) × (t : MutationStore) × (commit lib now activity_json m p s
            ≡ ok (some (src.id, p.object_id), t))
          × IsCommitted now activity_json m p s t src)
unfolding commit source_for
commit-IsCommitted lib now activity_json m p s held stored (raised e) h = inl (e, refl, rw h refl)
commit-IsCommitted lib now activity_json m p s held stored (ok (src, outbound)) h = inr (
  src,
  committed_store now m p outbound s,
  rw h refl,
  committed_store-IsCommitted now activity_json m p s held stored src outbound (
      insert_ready_content_source-IsSource lib.urllib m.user_id m.kind m.next_revision m.activity_id
        p.id p.object_id activity_json _ _ none s.outbound src outbound h),
)

-- In consistent tables, a claim that owns a reservation with a canonical result and whose object exists
-- carries it out: the row is committed, the object is at the next revision with the requested content
-- or its deletion, other objects stay, and the source of the followers stands in the table with the
-- canonical activity. It raises only when the making of that source does, and is never turned away.
pub commit_canonical_commits :
    (lib : Library) (now id : ℕ) (token activity_json : String) (s : MutationStore) (m : Mutation)
    (p : Published)
    → IsConsistent s
    → find (owns canonical_ready id token) s.mutations ≡ some m
    → get (λ (q : Published). q.id) m.published_object_id s.published ≡ some p
    → ((e : Error) × (source_for lib activity_json m p s ≡ raised e)
        × (commit_canonical lib now id token activity_json s ≡ raised e))
      ⊎ ((src : Source) × (t : MutationStore) × (commit_canonical lib now id token activity_json s
            ≡ ok (some (src.id, p.object_id), t))
          × IsCommitted now activity_json m p s t src)
unfolding get
commit_canonical_commits lib now id token activity_json s m p c held at_id =
    let (stored, owned) = In-find (owns canonical_ready id token) s.mutations m held in
    let (there, same_id) = In-find (λ q. q.id == m.published_object_id) s.published p at_id in
    rw (commit_canonical_accepts lib now id token activity_json s m p c held at_id)
      (commit-IsCommitted lib now activity_json m p s stored there _ refl)
