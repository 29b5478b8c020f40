-- ===== src/Mutation/Desired.antt =====
-- src/db/repositories/content_mutations.py: what the edits and deletions on Discord ask for.
use discord_fediverse_bridge.Base.{
  ℕ, String, Bool, ◌&&◌, ◌||◌, Option, none, some, ltb, ◌==◌, nat_eq, string_eq, option_eq, is_some,
  find, if◌then◌else◌,
}
use discord_fediverse_bridge.Base.Table.{update_where}
use discord_fediverse_bridge.Mutation.{
  unchanged, update, delete, Answer, missing, deleted, stale, duplicate, conflict, accepted,
  desired_kind_eq, answer_eq, Published, MutationStore, Library,
}

-- the row with an ActivityPub id, which is UNIQUE
unfoldable pub published_of : String → MutationStore → Option Published
published_of object_id s = find (λ p. p.object_id == object_id) s.published

-- a change of the published row with an id
unfoldable pub set_published : ℕ → (Published → Published) → MutationStore → MutationStore
set_published k f s = record s { published = update_where (λ p. p.id == k) f s.published }

-- nothing reopens an object that is deleted, or whose deletion is desired
abbrev pub is_terminal : Published → Bool
is_terminal p = is_some p.deleted_at || p.desired_kind == delete

-- the answer to an edit, by the tests of `record_desired_update` in their order
unfoldable pub update_answer : String → Option String → String → ℕ → Published → Answer
update_answer fingerprint title body edited p =
    let same_content =
      if p.title == title && p.body_markdown == body && p.desired_kind == unchanged
      then duplicate
      else accepted in
    if is_terminal p then deleted else (elim p.desired_edited_timestamp [
      | none ↦ same_content
      | some current ↦
          if ltb edited current
          then stale
          else if edited == current
          then (if p.desired_fingerprint == some fingerprint then duplicate else conflict)
          else same_content
    ])

abbrev pub desire_update : String → Option String → String → ℕ → Published → Published
desire_update fingerprint title body edited p = record p {
  desired_kind = update;
  desired_title = title;
  desired_body_markdown = some body;
  desired_edited_timestamp = some edited;
  desired_fingerprint = some fingerprint;
}

unfoldable pub record_desired_update :
    Library → String → Option String → String → ℕ → MutationStore → Answer × MutationStore
record_desired_update lib object_id title body edited s =
    let fingerprint = lib.content_digest update title (some body) in
    elim (published_of object_id s) [
      | none ↦ (missing, s)
      | some p ↦
          let answer = update_answer fingerprint title body edited p in
          if answer == accepted
          then (accepted, set_published p.id (desire_update fingerprint title body edited) s)
          else (answer, s)
    ]

abbrev pub desire_delete : String → Published → Published
desire_delete fingerprint p = record p {
  desired_kind = delete;
  desired_title = none;
  desired_body_markdown = none;
  desired_fingerprint = some fingerprint;
}

unfoldable pub record_desired_delete : Library → String → MutationStore → Answer × MutationStore
record_desired_delete lib object_id s = elim (published_of object_id s) [
  | none ↦ (missing, s)
  | some p ↦
      if is_terminal p
      then (duplicate, s)
      else (accepted, set_published p.id (desire_delete (lib.content_digest delete none none)) s)
]
