-- ===== src/DeliveryService/Mutations/Kept.antt =====
-- src/db/repositories/content_mutations.py: the rows that the calls of a claim leave in the table.
use discord_fediverse_bridge.Base.{
  ℕ, ◌≡◌, refl, ap, String, Bool, true, false, ◌||◌, ◌==◌, nat_eq, Option, some, List, arith, In,
  In-before, In-find, find, Bool-cases, Option-cases, inl, inr, transaction, transaction-cases,
}
use discord_fediverse_bridge.Base.Table.{update_where, get, In-update_hit, In-update_miss}
use discord_fediverse_bridge.Mutation.{
  Mutation, MutationStore, MutationState, Library, Published, dispatching, canonical_ready,
  committed, mutation_state_eq,
}
use discord_fediverse_bridge.Mutation.Desired.{published_of, set_published}
use discord_fediverse_bridge.Mutation.Reserve.{reserve_next, reserve_next_in_session}
use discord_fediverse_bridge.Mutation.Reports.{
  owns, abort, abort_local_validation, withdraw_desired, is_desired_update, retry_later,
  record_retryable_failure,
}
use discord_fediverse_bridge.Mutation.Commit.{commit_canonical, finish}
use discord_fediverse_bridge.Mutation.Lifecycle.Reservation.{
  reserve_next_in_session-cases, reserve_new-ok,
}
use discord_fediverse_bridge.Mutation.Lifecycle.Committed.{commit_canonical-cases, commit-ok}

module _ (k : Mutation) (s : MutationStore) where
  -- a reservation only adds rows
  pub reserve_next-In :
      (lib : Library) (object_id : String) (targets : Option (List String))
      → In k s.mutations
      → In k (transaction s (reserve_next lib object_id targets s)).1.mutations
  unfolding reserve_next
  reserve_next-In lib object_id targets stored = elim (Option-cases (published_of object_id s)) [
    | inl gone ↦ rw (reserve_next, gone) stored
    | inr (p, found) ↦
        rw (reserve_next, found)
          (transaction-cases (λ t. In k t.mutations) s (reserve_next_in_session lib p targets s)
            stored
            λ r t e. elim (reserve_next_in_session-cases lib p targets s r t e) [
              | inl (_, same) ↦ rw same stored
              | inr (inl (m, _, _, same)) ↦ rw same stored
              | inr (inr (user, free, made)) ↦
                  let (u, a, _, same) = reserve_new-ok lib p targets s r t user made in
                  rw same (In-before s.mutations _ k stored)
            ])
  ]

  pub withdraw_desired-In :
      (m : Mutation) → In k s.mutations → In k (withdraw_desired m s).mutations
  unfolding withdraw_desired set_published
  withdraw_desired-In m stored =
      elim (Option-cases (get (λ (p : Published). p.id) m.published_object_id s.published)) [
        | inl gone ↦ rw (withdraw_desired, gone) stored
        | inr (p, found) ↦ elim (Bool-cases (is_desired_update m.request_fingerprint p)) [
          | inl on ↦ rw (withdraw_desired, found) rw on stored
          | inr off ↦ rw (withdraw_desired, found) rw off stored
        ]
      ]

module _ (id : ℕ) (token text : String) (m : Mutation) (s : MutationStore)
    (held : find (owns dispatching id token) s.mutations ≡ some m) where
  pub abort-In : In (abort text m) (abort_local_validation id token text s).mutations
  unfolding abort_local_validation
  abort-In =
      let (stored, owned) = In-find (owns dispatching id token) s.mutations m held in
      rw (abort_local_validation, held)
        (withdraw_desired-In (abort text m) _ m (In-update_hit _ (abort text) _ m stored owned))

  pub retry-In :
      (now : ℕ)
      → In (retry_later now text m) (record_retryable_failure now id token text s).mutations
  unfolding record_retryable_failure
  retry-In now =
      let (stored, owned) = In-find (owns dispatching id token) s.mutations m held in
      In-update_hit _ (retry_later now text) _ m stored owned

-- the states of a row that has its canonical result
abbrev pub is_received : MutationState → Bool
is_received st = st == canonical_ready || st == committed

-- the row of an id has the result
pub record IsKept (id : ℕ) (activity_json : String) (s : MutationStore) : Type 0 where
  pub row : Mutation
  pub stored : In row s.mutations
  pub same_id : row.id ≡ id
  pub same_json : row.canonical_activity_json ≡ some activity_json
  pub received : is_received row.state ≡ true

is_received-owns :
    (k : ℕ) (token : String) (m : Mutation)
    → is_received m.state ≡ true
    → owns dispatching k token m ≡ false
unfolding mutation_state_eq
is_received-owns k token m h = ground arith

module _ (id : ℕ) (activity_json : String) (s : MutationStore)
    (kept : IsKept id activity_json s) where
  IsKept-of_In : (t : MutationStore) → In kept.row t.mutations → IsKept id activity_json t
  IsKept-of_In t there = record {
    row = kept.row;
    stored = there;
    same_id = kept.same_id;
    same_json = kept.same_json;
    received = kept.received;
  }

  not_dispatching : (k : ℕ) (token : String) → owns dispatching k token kept.row ≡ false
  not_dispatching k token = is_received-owns k token kept.row kept.received

  pub reserve_next-IsKept :
      (lib : Library) (object_id : String) (targets : Option (List String))
      → IsKept id activity_json (transaction s (reserve_next lib object_id targets s)).1
  reserve_next-IsKept lib object_id targets =
      IsKept-of_In _ (reserve_next-In kept.row s lib object_id targets kept.stored)

  pub abort_local_validation-IsKept :
      (k : ℕ) (token text : String)
      → IsKept id activity_json (abort_local_validation k token text s)
  unfolding abort_local_validation
  abort_local_validation-IsKept k token text =
      elim (Option-cases (find (owns dispatching k token) s.mutations)) [
        | inl gone ↦ rw (abort_local_validation, gone) kept
        | inr (m, held) ↦
            rw (abort_local_validation, held)
              (IsKept-of_In _ (
                withdraw_desired-In kept.row _ m
                  (In-update_miss _ (abort text) _ kept.row kept.stored (not_dispatching k token))))
      ]

  pub record_retryable_failure-IsKept :
      (now k : ℕ) (token text : String)
      → IsKept id activity_json (record_retryable_failure now k token text s)
  unfolding record_retryable_failure
  record_retryable_failure-IsKept now k token text =
      IsKept-of_In _
        (In-update_miss _ (retry_later now text) _ kept.row kept.stored (not_dispatching k token))

  -- a commit leaves the row as it is or finishes it
  finish-IsKept :
      (k : ℕ) (t : MutationStore)
      → t.mutations ≡ update_where (λ (n : Mutation). n.id == k) finish s.mutations
      → IsKept id activity_json t
  unfolding mutation_state_eq
  finish-IsKept k t result = elim (Bool-cases (kept.row.id == k)) [
    | inl hit ↦ record {
      row = finish kept.row;
      stored =
          rw result (
            In-update_hit (λ (n : Mutation). n.id == k) finish s.mutations kept.row kept.stored
              hit);
      same_id = kept.same_id;
      same_json = kept.same_json;
      received = refl;
    }
    | inr miss ↦ IsKept-of_In t (
        rw result (
          In-update_miss (λ (n : Mutation). n.id == k) finish s.mutations kept.row kept.stored
            miss))
  ]

  pub commit_canonical-IsKept :
      (lib : Library) (now k : ℕ) (token text : String)
      → IsKept id activity_json (transaction s (commit_canonical lib now k token text s)).1
  commit_canonical-IsKept lib now k token text =
      transaction-cases (IsKept id activity_json) s (commit_canonical lib now k token text s) kept
        λ r t e. elim (commit_canonical-cases lib now k token text s r t e) [
          | inl same ↦ rw same kept
          | inr (m, p, held, at_id, current, done) ↦
              let (outbound, result) = commit-ok lib now text m p s r t done in
              finish-IsKept m.id t (ap (λ (u : MutationStore). u.mutations) result)
        ]
