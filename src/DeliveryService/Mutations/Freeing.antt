-- ===== src/DeliveryService/Mutations/Freeing.antt =====
-- src/db/repositories/content_mutations.py: when no row is held under the token of a claim.
use discord_fediverse_bridge.Base.{
  ℕ, ◌≡◌, refl, ap, String, Bool, true, false, ◌==◌, nat_eq, string_eq, option_eq, Option, none,
  some, List, arith, In, In-concat, In-find, find, Bool-cases, Option-cases, inl, inr, transaction,
  transaction-cases,
}
use discord_fediverse_bridge.Base.Table.{update_where, get, In-of_update, In-find-none}
use discord_fediverse_bridge.Base.Distinct.{Distinct-unique}
use discord_fediverse_bridge.Mutation.{
  Mutation, MutationStore, Library, Published, dispatching, canonical_ready, mutation_state_eq,
}
use discord_fediverse_bridge.Mutation.Desired.{published_of, set_published}
use discord_fediverse_bridge.Mutation.Reserve.{reserve_next, reserve_next_in_session}
use discord_fediverse_bridge.Mutation.Reports.{
  owns, abort, receive, retry_later, withdraw_desired, is_desired_update, with_mutations,
  mark_send_possible, record_canonical_result, record_retryable_failure, abort_local_validation,
  load_canonical_ready,
}
use discord_fediverse_bridge.Mutation.Commit.{commit_canonical, finish}
use discord_fediverse_bridge.Mutation.Lifecycle.{IsConsistent}
use discord_fediverse_bridge.Mutation.Lifecycle.Reservation.{
  reserve_next_in_session-cases, reserve_new-ok,
}
use discord_fediverse_bridge.Mutation.Lifecycle.Committed.{commit_canonical-cases, commit-ok}

-- no row is being dispatched for the claim
abbrev pub IsFree : ℕ → String → MutationStore → Type 0
IsFree k token s = (m : Mutation) → In m s.mutations → owns dispatching k token m ≡ false

freed :
    (q p : Mutation → Bool) (f : Mutation → Mutation) (xs : List Mutation)
    → ((m : Mutation) → In m xs → p m ≡ true → q (f m) ≡ false)
    → ((m : Mutation) → In m xs → p m ≡ false → q m ≡ false)
    → (m : Mutation) → In m (update_where p f xs)
    → q m ≡ false
freed q p f xs hit miss m there =
    let (x, stored, from) = In-of_update p f xs m there in
    elim from [
      | inl (e, same) ↦ rw same (hit x stored e)
      | inr (e, same) ↦ rw same (miss x stored e)
    ]

module _ (k : ℕ) (token : String) (s : MutationStore) where
  module _ (free : IsFree k token s) where
    -- an UPDATE of rows that it does not give to the claim
    update-IsFree :
        (p : Mutation → Bool) (f : Mutation → Mutation)
        → ((m : Mutation)
            → owns dispatching k token m ≡ false
            → owns dispatching k token (f m) ≡ false)
        → IsFree k token (with_mutations s (update_where p f s.mutations))
    update-IsFree p f h =
        freed (owns dispatching k token) p f s.mutations (λ m stored e. h m (free m stored))
          (λ m stored e. free m stored)

    pub mark_send_possible-IsFree :
        (id : ℕ) (other : String) → IsFree k token (mark_send_possible id other s).1
    unfolding mark_send_possible
    mark_send_possible-IsFree id other = update-IsFree (owns dispatching id other) _ (λ m h. h)

    pub record_canonical_result-IsFree :
        (id : ℕ) (other text : String) → IsFree k token (record_canonical_result id other text s).1
    unfolding record_canonical_result mutation_state_eq
    record_canonical_result-IsFree id other text =
        update-IsFree (owns dispatching id other) (receive text) (λ m h. ground arith)

    pub record_retryable_failure-IsFree :
        (now id : ℕ) (other text : String)
        → IsFree k token (record_retryable_failure now id other text s)
    unfolding record_retryable_failure mutation_state_eq
    record_retryable_failure-IsFree now id other text =
        update-IsFree (owns dispatching id other) (retry_later now text) (λ m h. ground arith)

    pub withdraw_desired-IsFree : (m : Mutation) → IsFree k token (withdraw_desired m s)
    unfolding withdraw_desired set_published
    withdraw_desired-IsFree m =
        elim (Option-cases (get (λ (p : Published). p.id) m.published_object_id s.published)) [
          | inl gone ↦ rw (withdraw_desired, gone) free
          | inr (p, found) ↦ elim (Bool-cases (is_desired_update m.request_fingerprint p)) [
            | inl on ↦ rw (withdraw_desired, found) rw on free
            | inr off ↦ rw (withdraw_desired, found) rw off free
          ]
        ]

    pub reserve_next-IsFree :
        (lib : Library) (object_id : String) (targets : Option (List String))
        → IsFree k token (transaction s (reserve_next lib object_id targets s)).1
    unfolding reserve_next mutation_state_eq
    reserve_next-IsFree lib object_id targets = elim (Option-cases (published_of object_id s)) [
      | inl gone ↦ rw (reserve_next, gone) free
      | inr (p, found) ↦
          rw (reserve_next, found)
            (transaction-cases (IsFree k token) s (reserve_next_in_session lib p targets s) free
              λ r t e. elim (reserve_next_in_session-cases lib p targets s r t e) [
                | inl (_, same) ↦ rw same free
                | inr (inl (m, _, _, same)) ↦ rw same free
                | inr (inr (user, unheld, made)) ↦
                    let (u, a, _, same) = reserve_new-ok lib p targets s r t user made in
                    rw same λ m there. elim (In-concat s.mutations _ m there) [
                      | inl stored ↦ free m stored
                      | inr new ↦ rw new ground arith
                    ]
              ])
    ]

    pub commit_canonical-IsFree :
        (lib : Library) (now id : ℕ) (other text : String)
        → IsFree k token (transaction s (commit_canonical lib now id other text s)).1
    unfolding mutation_state_eq
    commit_canonical-IsFree lib now id other text =
        transaction-cases (IsFree k token) s (commit_canonical lib now id other text s) free
          λ r t e. elim (commit_canonical-cases lib now id other text s r t e) [
            | inl same ↦ rw same free
            | inr (m, p, held, at_id, current, done) ↦
                let (outbound, result) = commit-ok lib now text m p s r t done in
                rw result (
                  freed (owns dispatching k token) (λ (n : Mutation). n.id == m.id) finish
                    s.mutations (λ n stored hit. ground arith) (λ n stored miss. free n stored))
          ]

module _ (k : ℕ) (token : String) (s : MutationStore) where
  pub abort_local_validation-IsFree :
      (id : ℕ) (other text : String)
      → IsFree k token s
      → IsFree k token (abort_local_validation id other text s)
  unfolding abort_local_validation mutation_state_eq
  abort_local_validation-IsFree id other text free =
      elim (Option-cases (find (owns dispatching id other) s.mutations)) [
        | inl gone ↦ rw (abort_local_validation, gone) free
        | inr (m, held) ↦
            rw (abort_local_validation, held)
              (withdraw_desired-IsFree k token _
                (update-IsFree k token s free (owns dispatching id other) (abort text)
                  (λ n h. ground arith))
                m)
      ]

  -- what frees the rows of the claim itself
  rewritten :
      (f : Mutation → Mutation)
      → ((m : Mutation) → owns dispatching k token (f m) ≡ false)
      → IsFree k token (with_mutations s (update_where (owns dispatching k token) f s.mutations))
  rewritten f h =
      freed (owns dispatching k token) (owns dispatching k token) f s.mutations (λ m stored e. h m)
        (λ m stored e. e)

  pub record_canonical_result-frees :
      (text : String) → IsFree k token (record_canonical_result k token text s).1
  unfolding record_canonical_result mutation_state_eq
  record_canonical_result-frees text = rewritten (receive text) (λ m. ground arith)

  pub record_retryable_failure-frees :
      (now : ℕ) (text : String) → IsFree k token (record_retryable_failure now k token text s)
  unfolding record_retryable_failure mutation_state_eq
  record_retryable_failure-frees now text = rewritten (retry_later now text) (λ m. ground arith)

  pub abort_local_validation-frees :
      (text : String) → IsFree k token (abort_local_validation k token text s)
  unfolding abort_local_validation mutation_state_eq
  abort_local_validation-frees text =
      elim (Option-cases (find (owns dispatching k token) s.mutations)) [
        | inl gone ↦
            rw (abort_local_validation, gone)
              λ m stored. In-find-none (owns dispatching k token) s.mutations m gone stored
        | inr (m, held) ↦
            rw (abort_local_validation, held)
              (withdraw_desired-IsFree k token _ (rewritten (abort text) (λ n. ground arith)) m)
      ]

  -- a claim with a canonical result dispatches nothing: the ids are keys
  pub load_canonical_ready-IsFree :
      (json : String)
      → IsConsistent s
      → load_canonical_ready k token s ≡ some json
      → IsFree k token s
  unfolding load_canonical_ready mutation_state_eq
  load_canonical_ready-IsFree json c e m stored =
      elim (Option-cases (find (owns canonical_ready k token) s.mutations)) [
        | inl gone ↦
            let nothing : load_canonical_ready k token s ≡ none =
              rw (load_canonical_ready, gone) refl in
            cc
        | inr (n, held) ↦
            let (there, owned) = In-find (owns canonical_ready k token) s.mutations n held in
            elim (Bool-cases (owns dispatching k token m)) [
              | inr e ↦ e
              | inl e ↦
                  let same =
                    Distinct-unique (λ (x : Mutation). x.id) m n s.mutations c.mutation_keys stored
                      there (ground arith) in
                  ground (arith, ap (λ (x : Mutation). x.state) same)
            ]
      ]
