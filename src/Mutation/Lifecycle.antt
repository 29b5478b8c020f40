-- ===== src/Mutation/Lifecycle.antt =====
-- src/db/repositories/content_mutations.py: the repository's calls as steps of the tables, and the
-- invariant that they keep.
pub mod Rows
pub mod Reservation
pub mod Committed
pub mod Leases
pub mod Desires
pub mod Invariant
pub mod Advances
pub mod Terminal
pub mod Repeats
pub mod Aborted
pub mod Commits
use discord_fediverse_bridge.Base.{ℕ, suc, ◌≡◌, String, true, false, Option, List, In, transaction}
use discord_fediverse_bridge.Base.Distinct.{Distinct}
use discord_fediverse_bridge.Mutation.{Published, Mutation, MutationStore, Library, is_active}
use discord_fediverse_bridge.Mutation.Desired.{record_desired_update, record_desired_delete}
use discord_fediverse_bridge.Mutation.Reserve.{reserve_next}
use discord_fediverse_bridge.Mutation.Claims.{claim_due}
use discord_fediverse_bridge.Mutation.Reports.{
  mark_send_possible, record_canonical_result, record_retryable_failure, abort_local_validation,
}
use discord_fediverse_bridge.Mutation.Commit.{commit_canonical}
use discord_fediverse_bridge.Mutation.Reconcile.{
  reconcile_authoritative_update_and_reserve, request_discord_reconciliation,
  record_reconciliation_failure, clear_reconciliation,
}

-- One call of the repository, with any arguments; one that raises leaves the tables as they were.
pub data MutationStep (lib : Library) (s : MutationStore) : MutationStore → Type 0 where
  edits :
      (object_id : String) (title : Option String) (body : String) (edited : ℕ)
      → MutationStep lib s (record_desired_update lib object_id title body edited s).1
  deletes : (object_id : String) → MutationStep lib s (record_desired_delete lib object_id s).1
  reserves :
      (object_id : String) (targets : Option (List String))
      → MutationStep lib s (transaction s (reserve_next lib object_id targets s)).1
  reconciles :
      (object_id : String) (title : Option String) (body : String) (edited : ℕ)
      (targets : Option (List String))
      → MutationStep lib s
          (transaction s (
            reconcile_authoritative_update_and_reserve lib object_id title body edited targets s)).1
  claims :
      (token_hex : ℕ → String) (now stale_after limit : ℕ)
      → MutationStep lib s (claim_due token_hex now stale_after limit s).1
  sends : (id : ℕ) (token : String) → MutationStep lib s (mark_send_possible id token s).1
  receives :
      (id : ℕ) (token activity_json : String)
      → MutationStep lib s (record_canonical_result id token activity_json s).1
  fails :
      (now id : ℕ) (token error : String)
      → MutationStep lib s (record_retryable_failure now id token error s)
  aborts :
      (id : ℕ) (token error : String) → MutationStep lib s (abort_local_validation id token error s)
  commits :
      (now id : ℕ) (token activity_json : String)
      → MutationStep lib s (transaction s (commit_canonical lib now id token activity_json s)).1
  asks :
      (now channel_id message_id : ℕ) (error : String)
      → MutationStep lib s (request_discord_reconciliation now channel_id message_id error s).1
  misses :
      (now : ℕ) (object_id error : String)
      → MutationStep lib s (record_reconciliation_failure now object_id error s)
  clears : (object_id : String) → MutationStep lib s (clear_reconciliation object_id s)

pub data MutationReach (lib : Library) (s : MutationStore) : MutationStore → Type 0 where
  here : MutationReach lib s s
  next :
      {t u : MutationStore} → MutationReach lib s t → MutationStep lib t u → MutationReach lib s u

-- The ids are primary keys; an object has one open reservation at most, which is for the transition
-- from the object's present revision to the next one.
pub record IsConsistent (s : MutationStore) : Type 0 where
  pub published_keys : Distinct (λ (p : Published). p.id) s.published
  pub mutation_keys : Distinct (λ (m : Mutation). m.id) s.mutations
  pub single :
      (m n : Mutation)
      → In m s.mutations
      → In n s.mutations
      → is_active m.state ≡ true
      → is_active n.state ≡ true
      → m.published_object_id ≡ n.published_object_id
      → m.id ≡ n.id
  pub current :
      (m : Mutation) (p : Published)
      → In m s.mutations
      → In p s.published
      → is_active m.state ≡ true
      → p.id ≡ m.published_object_id
      → p.content_revision ≡ m.expected_revision
  pub successor : (m : Mutation) → In m s.mutations → m.next_revision ≡ suc m.expected_revision
