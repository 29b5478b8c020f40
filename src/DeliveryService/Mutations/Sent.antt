-- ===== src/DeliveryService/Mutations/Sent.antt =====
-- src/user_actor_delivery.py: what becomes of a reservation that was handed to the gateway.
use discord_fediverse_bridge.DeliveryService.Requests.{
  Outside, invalid, cancelled, failure, Attempt, returns, raises, validate_mutation_request,
  send_content,
}
use discord_fediverse_bridge.Base.{
  ◌≡◌, refl, String, Bool, true, false, nat_eq, string_eq, option_eq, none, some, arith, In,
  In-find, find, any, Bool-cases, inl, inr, Result, ok, raised,
}
use discord_fediverse_bridge.Base.Table.{In-update_hit, find-none}
use discord_fediverse_bridge.Mutation.{
  Mutation, MutationStore, Library, dispatching, ambiguous, aborted_pre_send, not_dispatched,
  send_possible, mutation_state_eq,
}
use discord_fediverse_bridge.Mutation.Claims.{MutationClaim}
use discord_fediverse_bridge.Mutation.Reports.{
  owns, mark_send_possible, record_canonical_result, receive, load_canonical_ready, abort,
  retry_later,
}
use discord_fediverse_bridge.DeliveryService.Mutations.{
  when_recorded, after_sending, dispatch, try_claim, has_raised, handle_exception,
}
use discord_fediverse_bridge.DeliveryService.Mutations.Kept.{
  reserve_next-In, abort-In, retry-In, is_received, IsKept, reserve_next-IsKept,
  abort_local_validation-IsKept, record_retryable_failure-IsKept, commit_canonical-IsKept,
}
use discord_fediverse_bridge.DeliveryService.Mutations.Closed.{
  IsClosed, commit_and_reserve-IsClosed, handle_exception-IsClosed,
}

-- the end of a row for what the gateway did
abbrev pub Ends : Attempt String → Mutation → Type 0
Ends (returns activity_json) m =
    (m.canonical_activity_json ≡ some activity_json) × (is_received m.state ≡ true)
Ends (raises (invalid text)) m =
    (m.state ≡ aborted_pre_send) × (m.side_effect_classification ≡ not_dispatched)
Ends (raises cancelled) m = (m.state ≡ ambiguous) × (m.side_effect_classification ≡ send_possible)
Ends (raises (failure text)) m =
    (m.state ≡ ambiguous) × (m.side_effect_classification ≡ send_possible)

module _ (lib : Library) (w : Outside) (c : MutationClaim) where
  IsKept-IsClosed : (activity_json : String) → IsClosed lib w c (IsKept c.mutation_id activity_json)
  IsKept-IsClosed activity_json = record {
    commits = λ s canonical kept.
        commit_canonical-IsKept c.mutation_id activity_json s kept lib (w.committed_at c)
          c.mutation_id c.claim_token canonical;
    reserves = λ s object_id kept.
        reserve_next-IsKept c.mutation_id activity_json s kept lib object_id
          c.request.target_inbox_urls;
    aborts = λ s text kept.
        abort_local_validation-IsKept c.mutation_id activity_json s kept c.mutation_id c.claim_token
          text;
    fails = λ s text kept.
        record_retryable_failure-IsKept c.mutation_id activity_json s kept (w.failed_at c)
          c.mutation_id c.claim_token text;
  }

  has_raised-In :
      {A : Type 0} (k : Mutation) (r : Result A × MutationStore)
      → In k r.1.mutations
      → In k (has_raised lib w c r).1.mutations
  has_raised-In k (ok a, s) stored = stored
  has_raised-In k (raised e, s) stored = stored

  module _ (t : MutationStore) (m : Mutation)
      (held : find (owns dispatching c.mutation_id c.claim_token) t.mutations ≡ some m) where
    owned :
        (any (owns dispatching c.mutation_id c.claim_token) t.mutations ≡ true)
        × (m.id ≡ c.mutation_id)
    owned =
        let (stored, e) =
          In-find (owns dispatching c.mutation_id c.claim_token) t.mutations m held in
        (
          elim (Bool-cases (any (owns dispatching c.mutation_id c.claim_token) t.mutations)) [
            | inl there ↦ there
            | inr absent ↦
                let none_there =
                  find-none (owns dispatching c.mutation_id c.claim_token) t.mutations absent in
                cc
          ],
          ground arith,
        )

    when_recorded-IsKept :
        (activity_json : String) (r : Bool × MutationStore)
        → r.0 ≡ true
        → IsKept c.mutation_id activity_json r.1
        → IsKept c.mutation_id activity_json (when_recorded lib w c activity_json r).1
    when_recorded-IsKept activity_json (true, s) e kept =
        commit_and_reserve-IsClosed lib w c (IsKept c.mutation_id activity_json)
          (IsKept-IsClosed activity_json) activity_json s kept
    when_recorded-IsKept activity_json (false, s) e kept = cc

    recorded-IsKept :
        (activity_json : String)
        → IsKept c.mutation_id activity_json
            (record_canonical_result c.mutation_id c.claim_token activity_json t).1
    unfolding record_canonical_result mutation_state_eq
    recorded-IsKept activity_json =
        let (stored, e) =
          In-find (owns dispatching c.mutation_id c.claim_token) t.mutations m held in
        record {
          row = receive activity_json m;
          stored = In-update_hit _ (receive activity_json) _ m stored e;
          same_id = owned.1;
          same_json = refl;
          received = refl;
        }

    after_sending-Ends :
        (a : Attempt String)
        → (k : Mutation) × In k (handle_exception lib w c (after_sending lib w c a t)).1.mutations
          × (k.id ≡ c.mutation_id)
          × Ends a k
    unfolding handle_exception record_canonical_result
    after_sending-Ends (returns activity_json) =
        let kept =
          handle_exception-IsClosed lib w c (IsKept c.mutation_id activity_json)
            (IsKept-IsClosed activity_json) (after_sending lib w c (returns activity_json) t)
            (when_recorded-IsKept activity_json
              (record_canonical_result c.mutation_id c.claim_token activity_json t) owned.0
              (recorded-IsKept activity_json)) in
        (kept.row, kept.stored, kept.same_id, (kept.same_json, kept.received))
    after_sending-Ends (raises (invalid text)) = (
      abort text m,
      has_raised-In (abort text m) _ (
          reserve_next-In (abort text m) _ lib c.request.ap_object_id c.request.target_inbox_urls
            (abort-In c.mutation_id c.claim_token text m t held)),
      owned.1,
      (refl, refl),
    )
    after_sending-Ends (raises cancelled) = (
      retry_later (w.failed_at c) "worker cancelled after dispatch boundary" m,
      retry-In c.mutation_id c.claim_token _ m t held (w.failed_at c),
      owned.1,
      (refl, refl),
    )
    after_sending-Ends (raises (failure text)) = (
      retry_later (w.failed_at c) text m,
      retry-In c.mutation_id c.claim_token text m t held (w.failed_at c),
      owned.1,
      (refl, refl),
    )

-- A claim on a valid reservation that has no canonical result, that is marked before it is sent and
-- that still owns its row afterwards: an answer of the gateway stays in the row, ready or committed,
-- whatever the commit and the next reservation raise. An exception of the gateway leaves the row to
-- be sent again, a cancellation included, but a ValueError, as of an answer that is no JSON, aborts
-- it as not dispatched, though it was sent.
pub handle_exception-Ends :
    (lib : Library) (w : Outside) (c : MutationClaim) (s : MutationStore) (m : Mutation)
    → load_canonical_ready c.mutation_id c.claim_token s ≡ none
    → validate_mutation_request c ≡ none
    → any (owns dispatching c.mutation_id c.claim_token) s.mutations ≡ true
    → find
        (owns dispatching c.mutation_id c.claim_token)
        (w.meanwhile c (mark_send_possible c.mutation_id c.claim_token s).1).mutations
      ≡ some m
    → (k : Mutation) × In k (handle_exception lib w c (try_claim lib w c s)).1.mutations
      × (k.id ≡ c.mutation_id)
      × Ends (send_content w c) k
unfolding try_claim dispatch mark_send_possible
handle_exception-Ends lib w c s m absent valid there held =
    rw (try_claim, absent) rw (dispatch, valid) rw there
      (after_sending-Ends lib w c _ m held (send_content w c))
