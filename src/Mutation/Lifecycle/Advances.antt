-- ===== src/Mutation/Lifecycle/Advances.antt =====
-- src/db/repositories/content_mutations.py: what each call may do to a published object.
use discord_fediverse_bridge.Base.{
  ℕ, ◌≤◌, ◌≡◌, refl, ◌∙◌, String, Bool, true, ◌&&◌, Option, none, some, List, In, arith, ◌==◌,
  nat_eq, string_eq, option_eq, inl, inr, Bool-cases, Option-cases, find, In-find, transaction,
  transaction-cases, is_some,
}
use discord_fediverse_bridge.Base.Distinct.{Distinct-unique}
use discord_fediverse_bridge.Base.Table.{Rows, Rows-refl, Rows-update_where, get}
use discord_fediverse_bridge.Delivery.{source_kind_eq}
use discord_fediverse_bridge.Mutation.{
  Published, MutationStore, Library, canonical_ready, dispatching, mutation_state_eq, accepted,
  answer_eq, update, delete, desired_kind_eq,
}
use discord_fediverse_bridge.Mutation.Desired.{
  published_of, set_published, is_terminal, update_answer, desire_update, desire_delete,
  record_desired_update, record_desired_delete,
}
use discord_fediverse_bridge.Mutation.Reserve.{reserve_next, reserve_next_in_session}
use discord_fediverse_bridge.Mutation.Reports.{
  owns, abort_local_validation, withdraw_desired, clear_desired, is_desired_update,
}
use discord_fediverse_bridge.Mutation.Commit.{apply_canonical, commit_canonical}
use discord_fediverse_bridge.Mutation.Reconcile.{
  settle, request_reconciliation, request_discord_reconciliation, reconciliation_failure,
  record_reconciliation_failure, clear_reconciliation,
}
use discord_fediverse_bridge.Mutation.Lifecycle.{IsConsistent}
use discord_fediverse_bridge.Mutation.Lifecycle.Reservation.{reserve_next_in_session-published}
use discord_fediverse_bridge.Mutation.Lifecycle.Committed.{commit_canonical-cases, commit-ok}

-- What calls may do to a published object.
pub record Advances (p q : Published) : Type 0 where
  pub same_id : q.id ≡ p.id
  pub same_object : q.object_id ≡ p.object_id
  pub revision : p.content_revision ≤ q.content_revision
  pub terminal : is_terminal p ≡ true → is_terminal q ≡ true
  pub deleted : is_some p.deleted_at ≡ true → is_some q.deleted_at ≡ true

pub Advances-refl : (p : Published) → Advances p p
Advances-refl p = record {
  same_id = refl;
  same_object = refl;
  revision = omega arith;
  terminal = λ h. h;
  deleted = λ h. h;
}

pub Advances-trans : (p q r : Published) → Advances p q → Advances q r → Advances p r
Advances-trans p q r a b = record {
  same_id = b.same_id ∙ a.same_id;
  same_object = b.same_object ∙ a.same_object;
  revision = omega (arith, a.revision, b.revision);
  terminal = λ h. b.terminal (a.terminal h);
  deleted = λ h. b.deleted (a.deleted h);
}

abbrev pub Advance : MutationStore → MutationStore → Type 0
Advance s t = Rows Advances s.published t.published

module _ (s : MutationStore) (c : IsConsistent s) where
  pub same : Advance s s
  same = Rows-refl Advances Advances-refl s.published

  -- the change of one row
  pub changed :
      (p : Published) (f : Published → Published)
      → In p s.published
      → Advances p (f p)
      → Advance s (set_published p.id f s)
  unfolding set_published
  changed p f stored h =
      Rows-update_where Advances (λ q. q.id == p.id) f s.published Advances-refl
        λ q i e.
          let is_p : q ≡ p =
            Distinct-unique (λ (x : Published). x.id) q p s.published c.published_keys i stored
              (ground arith) in
          rw is_p h

  pub found :
      (object_id : String) (p : Published) → published_of object_id s ≡ some p → In p s.published
  unfolding published_of
  found object_id p e = (In-find (λ q. q.object_id == object_id) s.published p e).0

  pub edits-Advance :
      (lib : Library) (object_id : String) (title : Option String) (body : String) (edited : ℕ)
      → Advance s (record_desired_update lib object_id title body edited s).1
  unfolding record_desired_update update_answer
  edits-Advance lib object_id title body edited = elim (Option-cases (published_of object_id s)) [
    | inl gone ↦ rw (record_desired_update, gone) same
    | inr (p, there) ↦
        let fingerprint = lib.content_digest update title (some body) in
        elim (Bool-cases (update_answer fingerprint title body edited p == accepted)) [
          | inl on ↦
              rw (record_desired_update, there) rw on
                (changed p (desire_update fingerprint title body edited) (found object_id p there)
                  (ground arith))
          | inr off ↦ rw (record_desired_update, there) rw off same
        ]
  ]

  pub deletes-Advance :
      (lib : Library) (object_id : String) → Advance s (record_desired_delete lib object_id s).1
  unfolding record_desired_delete
  deletes-Advance lib object_id = elim (Option-cases (published_of object_id s)) [
    | inl gone ↦ rw (record_desired_delete, gone) same
    | inr (p, there) ↦ elim (Bool-cases (is_terminal p)) [
      | inl on ↦ rw (record_desired_delete, there) rw on same
      | inr off ↦
          rw (record_desired_delete, there) rw off
            (changed p (desire_delete (lib.content_digest delete none none))
              (found object_id p there) (ground arith))
    ]
  ]

  pub reserves-Advance :
      (lib : Library) (object_id : String) (targets : Option (List String))
      → Advance s (transaction s (reserve_next lib object_id targets s)).1
  unfolding reserve_next
  reserves-Advance lib object_id targets = elim (Option-cases (published_of object_id s)) [
    | inl gone ↦ rw (reserve_next, gone) same
    | inr (p, there) ↦
        rw (reserve_next, there)
          (transaction-cases (Advance s) s (reserve_next_in_session lib p targets s) same
            λ k t e. rw (reserve_next_in_session-published lib p targets s k t e) same)
  ]

  pub aborts-Advance :
      (id : ℕ) (token error : String) → Advance s (abort_local_validation id token error s)
  unfolding abort_local_validation withdraw_desired get set_published
  aborts-Advance id token error =
      elim (Option-cases (find (owns dispatching id token) s.mutations)) [
        | inl gone ↦ rw (abort_local_validation, gone) same
        | inr (m, held) ↦
            elim (Option-cases (get (λ (p : Published). p.id) m.published_object_id s.published)) [
              | inl gone ↦ rw (abort_local_validation, held) rw (withdraw_desired, gone) same
              | inr (p, there) ↦ elim (Bool-cases (is_desired_update m.request_fingerprint p)) [
                | inl on ↦
                    rw (abort_local_validation, held) rw (withdraw_desired, there) rw on
                      (changed p clear_desired
                        (In-find (λ q. q.id == m.published_object_id) s.published p there).0
                        (ground arith))
                | inr off ↦
                    rw (abort_local_validation, held) rw (withdraw_desired, there) rw off same
              ]
            ]
      ]

  pub commits-Advance :
      (lib : Library) (now id : ℕ) (token activity_json : String)
      → Advance s (transaction s (commit_canonical lib now id token activity_json s)).1
  unfolding get set_published apply_canonical
  commits-Advance lib now id token activity_json =
      transaction-cases (Advance s) s (commit_canonical lib now id token activity_json s) same
        λ r t e. elim (commit_canonical-cases lib now id token activity_json s r t e) [
          | inl stays ↦ rw stays same
          | inr (m, p, held, at_id, current, done) ↦
              let (outbound, result) = commit-ok lib now activity_json m p s r t done in
              let step =
                c.successor m (In-find (owns canonical_ready id token) s.mutations m held).0 in
              rw result (
                changed p (apply_canonical now m)
                  (In-find (λ q. q.id == m.published_object_id) s.published p at_id).0
                  (ground (arith, step)))
        ]

  pub asks-Advance :
      (now channel_id message_id : ℕ) (error : String)
      → Advance s (request_discord_reconciliation now channel_id message_id error s).1
  unfolding request_discord_reconciliation
  asks-Advance now channel_id message_id error =
      let matches : Published → Bool =
        λ p. p.discord_channel_id == some channel_id && p.discord_message_id == some message_id in
      elim (Option-cases (find matches s.published)) [
        | inl gone ↦ rw (request_discord_reconciliation, gone) same
        | inr (p, there) ↦ elim (Bool-cases (is_terminal p)) [
          | inl on ↦ rw (request_discord_reconciliation, there) rw on same
          | inr off ↦
              rw (request_discord_reconciliation, there) rw off
                (changed p (request_reconciliation now error)
                  (In-find matches s.published p there).0 (ground arith))
        ]
      ]

  pub misses-Advance :
      (now : ℕ) (object_id error : String)
      → Advance s (record_reconciliation_failure now object_id error s)
  unfolding record_reconciliation_failure
  misses-Advance now object_id error = elim (Option-cases (published_of object_id s)) [
    | inl gone ↦ rw (record_reconciliation_failure, gone) same
    | inr (p, there) ↦
        rw (record_reconciliation_failure, there)
          (changed p (reconciliation_failure now error) (found object_id p there) (ground arith))
  ]

  pub clears-Advance : (object_id : String) → Advance s (clear_reconciliation object_id s)
  unfolding clear_reconciliation
  clears-Advance object_id = elim (Option-cases (published_of object_id s)) [
    | inl gone ↦ rw (clear_reconciliation, gone) same
    | inr (p, there) ↦
        rw (clear_reconciliation, there) (changed p settle (found object_id p there) (ground arith))
  ]
