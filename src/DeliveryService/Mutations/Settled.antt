-- ===== src/DeliveryService/Mutations/Settled.antt =====
-- src/user_actor_delivery.py: the reservations that a drain has claimed when it ends.
use discord_fediverse_bridge.DeliveryService.Requests.{
  Outside, Exception, invalid, cancelled, failure, Attempt, returns, raises,
  validate_mutation_request, send_content,
}
use discord_fediverse_bridge.Base.{
  ◌≡◌, refl, sym, ap, ◌∙◌, String, Bool, true, false, Option, none, some, any-false, Option-cases,
  inl, inr,
}
use discord_fediverse_bridge.Mutation.{MutationStore, Library, dispatching}
use discord_fediverse_bridge.Mutation.Claims.{MutationClaim}
use discord_fediverse_bridge.Mutation.Reports.{
  owns, mark_send_possible, record_canonical_result, load_canonical_ready,
}
use discord_fediverse_bridge.Mutation.Lifecycle.{IsConsistent}
use discord_fediverse_bridge.DeliveryService.Mutations.{
  after_sending, when_marked, dispatch, try_claim, handle_exception,
}
use discord_fediverse_bridge.DeliveryService.Mutations.Freeing.{
  IsFree, mark_send_possible-IsFree, record_canonical_result-IsFree,
  record_retryable_failure-IsFree, abort_local_validation-IsFree, reserve_next-IsFree,
  commit_canonical-IsFree, record_canonical_result-frees, record_retryable_failure-frees,
  abort_local_validation-frees, load_canonical_ready-IsFree,
}
use discord_fediverse_bridge.DeliveryService.Mutations.Closed.{
  IsClosed, when_recorded-IsClosed, commit_and_reserve-IsClosed, has_raised-IsClosed,
  try_claim-IsClosed, handle_exception-IsClosed,
}

-- the claim has no row to dispatch
abbrev pub IsDone : MutationClaim → MutationStore → Type 0
IsDone d s = IsFree d.mutation_id d.claim_token s

module _ (lib : Library) (w : Outside) where
  IsDone-IsClosed : (c d : MutationClaim) → IsClosed lib w c (IsDone d)
  IsDone-IsClosed c d = record {
    commits = λ s canonical free.
        commit_canonical-IsFree d.mutation_id d.claim_token s free lib (w.committed_at c)
          c.mutation_id c.claim_token canonical;
    reserves = λ s object_id free.
        reserve_next-IsFree d.mutation_id d.claim_token s free lib object_id
          c.request.target_inbox_urls;
    aborts = λ s text free.
        abort_local_validation-IsFree d.mutation_id d.claim_token s c.mutation_id c.claim_token text
          free;
    fails = λ s text free.
        record_retryable_failure-IsFree d.mutation_id d.claim_token s free (w.failed_at c)
          c.mutation_id c.claim_token text;
  }

  pub handled-IsDone :
      (c d : MutationClaim)
      → ((t : MutationStore) → IsDone d t → IsDone d (w.meanwhile c t))
      → (s : MutationStore) → IsDone d s
      → IsDone d (handle_exception lib w c (try_claim lib w c s)).1
  handled-IsDone c d fresh s free =
      handle_exception-IsClosed lib w c (IsDone d) (IsDone-IsClosed c d) (try_claim lib w c s) (
        try_claim-IsClosed lib w c (IsDone d) (IsDone-IsClosed c d)
          (λ t h.
            mark_send_possible-IsFree d.mutation_id d.claim_token t h c.mutation_id c.claim_token)
          fresh
          (λ t canonical h.
            record_canonical_result-IsFree d.mutation_id d.claim_token t h c.mutation_id
              c.claim_token canonical)
          s free)

  module _ (c : MutationClaim) where
    after_sending-frees :
        (a : Attempt String) (t : MutationStore)
        → (after_sending lib w c a t).0 ≡ none
        → IsDone c (after_sending lib w c a t).1
    after_sending-frees (raises e) t h = cc
    after_sending-frees (returns canonical) t h =
        when_recorded-IsClosed lib w c (IsDone c) (IsDone-IsClosed c c) canonical
          (record_canonical_result c.mutation_id c.claim_token canonical t)
          (record_canonical_result-frees c.mutation_id c.claim_token t canonical)

    when_marked-frees :
        (r : Bool × MutationStore)
        → (r.0 ≡ false → IsDone c r.1)
        → (when_marked lib w c r).0 ≡ none
        → IsDone c (when_marked lib w c r).1
    when_marked-frees (true, t) unmarked h =
        after_sending-frees (send_content w c) (w.meanwhile c t) h
    when_marked-frees (false, t) unmarked h = unmarked refl

    unmarked-frees :
        (s : MutationStore)
        → (mark_send_possible c.mutation_id c.claim_token s).0 ≡ false
        → IsDone c (mark_send_possible c.mutation_id c.claim_token s).1
    unfolding mark_send_possible
    unmarked-frees s h =
        mark_send_possible-IsFree c.mutation_id c.claim_token s
          (λ m stored.
            any-false (owns dispatching c.mutation_id c.claim_token) s.mutations m h stored)
          c.mutation_id c.claim_token

    dispatch-frees :
        (s : MutationStore) → (dispatch lib w c s).0 ≡ none → IsDone c (dispatch lib w c s).1
    unfolding dispatch
    dispatch-frees s h = elim (Option-cases (validate_mutation_request c)) [
      | inl valid ↦
          let marked = mark_send_possible c.mutation_id c.claim_token s in
          let same : dispatch lib w c s ≡ when_marked lib w c marked = rw (dispatch, valid) refl in
          rw same (
            when_marked-frees marked (unmarked-frees s)
              (sym (ap (λ (r : Option Exception × MutationStore). r.0) same) ∙ h))
      | inr (text, e) ↦
          let same : dispatch lib w c s ≡ (some (invalid text), s) = rw (dispatch, e) refl in
          let never : some (invalid text) ≡ none =
            sym (ap (λ (r : Option Exception × MutationStore). r.0) same) ∙ h in
          cc
    ]

    pub try_claim-frees :
        (s : MutationStore)
        → IsConsistent s
        → (try_claim lib w c s).0 ≡ none
        → IsDone c (try_claim lib w c s).1
    unfolding try_claim
    try_claim-frees s k h =
        elim (Option-cases (load_canonical_ready c.mutation_id c.claim_token s)) [
          | inl absent ↦
              let same : try_claim lib w c s ≡ dispatch lib w c s = rw (try_claim, absent) refl in
              rw same (
                dispatch-frees s
                  (sym (ap (λ (r : Option Exception × MutationStore). r.0) same) ∙ h))
          | inr (canonical, e) ↦
              rw (try_claim, e)
                (commit_and_reserve-IsClosed lib w c (IsDone c) (IsDone-IsClosed c c) canonical s
                  (load_canonical_ready-IsFree c.mutation_id c.claim_token s canonical k e))
        ]

    pub handle_exception-frees :
        (r : Option Exception × MutationStore)
        → (r.0 ≡ none → IsDone c r.1)
        → IsDone c (handle_exception lib w c r).1
    unfolding handle_exception
    handle_exception-frees (none, t) free = free refl
    handle_exception-frees (some (invalid text), t) free =
        has_raised-IsClosed lib w c (IsDone c) (IsDone-IsClosed c c) _ (
          reserve_next-IsFree c.mutation_id c.claim_token _
            (abort_local_validation-frees c.mutation_id c.claim_token t text) lib
            c.request.ap_object_id c.request.target_inbox_urls)
    handle_exception-frees (some cancelled, t) free =
        record_retryable_failure-frees c.mutation_id c.claim_token t (w.failed_at c) _
    handle_exception-frees (some (failure text), t) free =
        record_retryable_failure-frees c.mutation_id c.claim_token t (w.failed_at c) text
