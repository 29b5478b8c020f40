-- ===== src/Mutation/Lifecycle/Desires.antt =====
-- src/db/repositories/content_mutations.py: what is asked for, and what reserves it, keep the
-- invariant.
use discord_fediverse_bridge.Base.{
  ℕ, ◌≡◌, refl, String, Option, none, some, List, In, ◌==◌, ==_self, nat_eq, string_eq, option_eq,
  subst, inl, inr, Bool-cases, Option-cases, In-find, ok, ◌>>=◌, bind-ok, transaction,
  transaction-cases, not,
}
use discord_fediverse_bridge.Base.Table.{In-update_hit, get}
use discord_fediverse_bridge.Mutation.{
  Published, Mutation, MutationStore, Library, mutation_state_eq, Answer, missing, deleted, stale,
  duplicate, conflict, accepted, not_needed, answer_eq, update, delete, desired_kind_eq,
}
use discord_fediverse_bridge.Mutation.Desired.{
  published_of, set_published, is_terminal, update_answer, desire_update, desire_delete,
  record_desired_update, record_desired_delete,
}
use discord_fediverse_bridge.Mutation.Reserve.{reserve_next, reserve_next_in_session}
use discord_fediverse_bridge.Mutation.Reports.{withdraw_desired, clear_desired, is_desired_update}
use discord_fediverse_bridge.Mutation.Reconcile.{
  fetched_answer, converged, settle, reconcile_authoritative_update_and_reserve,
}
use discord_fediverse_bridge.Mutation.Lifecycle.{IsConsistent}
use discord_fediverse_bridge.Mutation.Lifecycle.Rows.{SameRevision, IsConsistent-set_published}
use discord_fediverse_bridge.Mutation.Lifecycle.Reservation.{reserve_next_in_session-IsConsistent}

module _ (s : MutationStore) (c : IsConsistent s) where
  pub record_desired_update-IsConsistent :
      (lib : Library) (object_id : String) (title : Option String) (body : String) (edited : ℕ)
      → IsConsistent (record_desired_update lib object_id title body edited s).1
  unfolding record_desired_update
  record_desired_update-IsConsistent lib object_id title body edited =
      elim (Option-cases (published_of object_id s)) [
        | inl gone ↦ rw (record_desired_update, gone) c
        | inr (p, here_p) ↦
            elim (Bool-cases (
              update_answer (lib.content_digest update title (some body)) title body edited p
              == accepted)) [
                | inl on ↦
                    rw (record_desired_update, here_p) rw on
                      (IsConsistent-set_published s p.id
                        (desire_update (lib.content_digest update title (some body)) title body
                          edited)
                        (λ q. record { same_id = refl; same_revision = refl }) c)
                | inr off ↦ rw (record_desired_update, here_p) rw off c
              ]
      ]

  pub record_desired_delete-IsConsistent :
      (lib : Library) (object_id : String) → IsConsistent (record_desired_delete lib object_id s).1
  unfolding record_desired_delete
  record_desired_delete-IsConsistent lib object_id =
      elim (Option-cases (published_of object_id s)) [
        | inl gone ↦ rw (record_desired_delete, gone) c
        | inr (p, here_p) ↦ elim (Bool-cases (is_terminal p)) [
          | inl on ↦ rw (record_desired_delete, here_p) rw on c
          | inr off ↦
              rw (record_desired_delete, here_p) rw off
                (IsConsistent-set_published s p.id
                  (desire_delete (lib.content_digest delete none none))
                  (λ q. record { same_id = refl; same_revision = refl }) c)
        ]
      ]

  pub reserve_next-IsConsistent :
      (lib : Library) (object_id : String) (targets : Option (List String))
      → IsConsistent (transaction s (reserve_next lib object_id targets s)).1
  unfolding reserve_next published_of
  reserve_next-IsConsistent lib object_id targets = elim (Option-cases (published_of object_id s)) [
    | inl gone ↦ rw (reserve_next, gone) c
    | inr (p, here_p) ↦
        rw (reserve_next, here_p)
          (transaction-cases IsConsistent s (reserve_next_in_session lib p targets s) c λ k t e.
            reserve_next_in_session-IsConsistent lib p targets s k t
              (In-find (λ q. q.object_id == object_id) s.published p here_p).0 e c)
  ]

  pub withdraw_desired-IsConsistent : (m : Mutation) → IsConsistent (withdraw_desired m s)
  unfolding withdraw_desired
  withdraw_desired-IsConsistent m =
      elim (Option-cases (get (λ (p : Published). p.id) m.published_object_id s.published)) [
        | inl gone ↦ rw (withdraw_desired, gone) c
        | inr (p, here_p) ↦ elim (Bool-cases (is_desired_update m.request_fingerprint p)) [
          | inl on ↦
              rw (withdraw_desired, here_p) rw on
                (IsConsistent-set_published s p.id clear_desired
                  (λ q. record { same_id = refl; same_revision = refl }) c)
          | inr off ↦ rw (withdraw_desired, here_p) rw off c
        ]
      ]

-- the calls that reconcile
module _ (lib : Library) (s : MutationStore) (c : IsConsistent s) where
  pub converged-SameRevision :
      (answer : Answer) (fingerprint : String) (title : Option String) (body : String) (edited : ℕ)
      (p : Published)
      → SameRevision p (converged answer fingerprint title body edited p)
  converged-SameRevision accepted fingerprint title body edited p = record {
    same_id = refl;
    same_revision = refl;
  }
  converged-SameRevision missing fingerprint title body edited p = record {
    same_id = refl;
    same_revision = refl;
  }
  converged-SameRevision deleted fingerprint title body edited p = record {
    same_id = refl;
    same_revision = refl;
  }
  converged-SameRevision stale fingerprint title body edited p = record {
    same_id = refl;
    same_revision = refl;
  }
  converged-SameRevision duplicate fingerprint title body edited p = record {
    same_id = refl;
    same_revision = refl;
  }
  converged-SameRevision conflict fingerprint title body edited p = record {
    same_id = refl;
    same_revision = refl;
  }
  converged-SameRevision not_needed fingerprint title body edited p = record {
    same_id = refl;
    same_revision = refl;
  }

  -- the reservation behind a fetched state, and the end of the request for it
  pub reconciled :
      (answer : Answer) (f : Published → Published) (p : Published) (targets : Option (List String))
      → ((q : Published) → SameRevision q (f q))
      → In p s.published
      → IsConsistent
          (transaction s (
            reserve_next_in_session lib (f p) targets (set_published p.id f s) >>= λ r.
            ok (answer, set_published p.id settle r.1))).1
  unfolding set_published
  reconciled answer f p targets keeps stored = transaction-cases IsConsistent s _ c λ a t e.
      let (r, made, settled) =
        bind-ok (reserve_next_in_session lib (f p) targets (set_published p.id f s))
          (λ r. ok (answer, set_published p.id settle r.1)) (a, t) e in
      let before =
        reserve_next_in_session-IsConsistent lib (f p) targets (set_published p.id f s) r.0 r.1
          (In-update_hit (λ q. q.id == p.id) f s.published p stored (==_self p.id)) made
          (IsConsistent-set_published s p.id f keeps c) in
      let after =
        IsConsistent-set_published r.1 p.id settle
          (λ q. record { same_id = refl; same_revision = refl }) before in
      let same : set_published p.id settle r.1 ≡ t = cc in subst IsConsistent same after

  pub reconcile-IsConsistent :
      (object_id : String) (title : Option String) (body : String) (edited : ℕ)
      (targets : Option (List String))
      → IsConsistent
          (transaction s (
            reconcile_authoritative_update_and_reserve lib object_id title body edited targets s)).1
  unfolding reconcile_authoritative_update_and_reserve published_of
  reconcile-IsConsistent object_id title body edited targets =
      elim (Option-cases (published_of object_id s)) [
        | inl gone ↦ rw (reconcile_authoritative_update_and_reserve, gone) c
        | inr (p, here_p) ↦
            let fingerprint = lib.content_digest update title (some body) in
            let answer = fetched_answer fingerprint edited p in
            elim (Bool-cases (not p.reconciliation_needed)) [
              | inl idle ↦ rw (reconcile_authoritative_update_and_reserve, here_p) rw idle c
              | inr needed ↦ elim (Bool-cases (answer == deleted)) [
                | inl gone ↦
                    rw (reconcile_authoritative_update_and_reserve, here_p) rw needed rw gone
                      (IsConsistent-set_published s p.id settle
                        (λ q. record { same_id = refl; same_revision = refl }) c)
                | inr there ↦ elim (Bool-cases (answer == stale)) [
                  | inl old ↦
                      rw (reconcile_authoritative_update_and_reserve, here_p) rw needed rw there rw
                        old c
                  | inr fresh ↦
                      rw (reconcile_authoritative_update_and_reserve, here_p) rw needed rw there rw
                        fresh
                        (reconciled answer (converged answer fingerprint title body edited) p
                          targets (converged-SameRevision answer fingerprint title body edited)
                          (In-find (λ q. q.object_id == object_id) s.published p here_p).0)
                ]
              ]
            ]
      ]
