-- ===== src/Delivery/Lifecycle/Settled.antt =====
-- src/db/repositories/user_actor_deliveries.py: over any calls a settled row stays as it is, a row is
-- leased exactly while it is sending, and no attempt is forgotten.
use discord_fediverse_bridge.Base.{
  transaction, take, ltb, ◌||◌, ℕ, ◌≡◌, String, Bool, true, false, Option, none, some, List, inl,
  inr, arith, ◌==◌, ◌∙◌, find, Bool-cases, length, nat_eq, any, filter,
}
use discord_fediverse_bridge.Base.Table.{
  Rows, Rows-refl, Rows-trans, Rows-update_where, Rows-weaken, update_where,
}
use discord_fediverse_bridge.Base.Distinct.{Distinct}
use discord_fediverse_bridge.Delivery.{
  content_delete, source_kind_eq, status_eq, Delivery, Store, Source,
}
use discord_fediverse_bridge.Delivery.Diagnostics.{bound_delivery_error-IsBounded}
use discord_fediverse_bridge.Delivery.Outcomes.{
  owns, suppress, release, count_attempt, complete, fail, supersede, is_older_unsent, error_text,
  mark_ineligible, release_unsubmitted_claim, mark_submitted, record_outcome, supersede_older,
  complete_claim, with_deliveries, release_terminal_source_media,
}
use discord_fediverse_bridge.Delivery.Admin.{
  reset, is_retryable, retry_failed, retry_failed_batch, failed_ids, selected, ids_of,
  is_other_owner,
}
use discord_fediverse_bridge.Delivery.Claims.{source_of}
use discord_fediverse_bridge.Delivery.Render.{record_rendered, record_render_failure}
use discord_fediverse_bridge.Delivery.Lifecycle.{Step, Moves}
use discord_fediverse_bridge.Delivery.Claims.Narrowing.{Narrows}
use discord_fediverse_bridge.Delivery.Claims.Progress.{claim_due-Narrows}

pub Moves-refl : (d : Delivery) → Moves d d
Moves-refl d = ground arith

module _ (d : Delivery) (id : ℕ) (token : String) (h : owns id token d ≡ true) where
  suppress-Moves : (reason : String) → Moves d (suppress reason d)
  suppress-Moves reason = ground (arith, bound_delivery_error-IsBounded reason)

  release-Moves : (now : ℕ) (error : String) → Moves d (release now error d)
  release-Moves now error = ground (arith, bound_delivery_error-IsBounded error)

  count_attempt-Moves : (now : ℕ) → Moves d (count_attempt now d)
  count_attempt-Moves now = ground arith

  complete-Moves : (now : ℕ) → Moves d (complete now d)
  complete-Moves now = ground arith

  fail-Moves : (now : ℕ) (error : Option String) → Moves d (fail now error d)
  fail-Moves now error = ground (arith, bound_delivery_error-IsBounded (error_text error))

reset-Moves : (ids : List ℕ) (d : Delivery) → is_retryable ids d ≡ true → Moves d (reset d)
unfolding is_retryable
reset-Moves ids d h = ground arith

supersede-Moves :
    (s : Store) (by : Delivery) (src : Source) (d : Delivery)
    → is_older_unsent s by src d ≡ true
    → Moves d (supersede d)
unfolding is_older_unsent
supersede-Moves s by src d h = ground arith

pub Moves-trans : (d e f : Delivery) → Moves d e → Moves e f → Moves d f
Moves-trans d e f a b = record {
  same_id = b.same_id ∙ a.same_id;
  same_source = b.same_source ∙ a.same_source;
  same_endpoint = b.same_endpoint ∙ a.same_endpoint;
  attempts = omega (arith, a.attempts, b.attempts);
  settled = λ h. ground (arith, a.settled h, b.settled);
  leased = λ l. b.leased (a.leased l);
}

Narrows-Moves : (d e : Delivery) → Narrows d e → Moves d e
Narrows-Moves d e n = record {
  same_id = n.same_id;
  same_source = n.same_source;
  same_endpoint = n.same_endpoint;
  attempts = omega (arith, n.same_attempts);
  settled = n.settled;
  leased = n.leased;
}

-- an UPDATE whose rows move
updated :
    (p : Delivery → Bool) (f : Delivery → Delivery) (ds : List Delivery)
    → ((d : Delivery) → p d ≡ true → Moves d (f d))
    → Rows Moves ds (update_where p f ds)
updated p f ds h = Rows-update_where Moves p f ds Moves-refl (λ d m e. h d e)

same-Rows : (ds : List Delivery) → Rows Moves ds ds
same-Rows = Rows-refl Moves Moves-refl

trans_Rows : (xs ys zs : List Delivery) → Rows Moves xs ys → Rows Moves ys zs → Rows Moves xs zs
trans_Rows = Rows-trans Moves Moves-trans

supersede_older-Moves :
    (d : Delivery) (src : Option Source) (s : Store)
    → Rows Moves s.deliveries (supersede_older d src s).deliveries
unfolding supersede_older
supersede_older-Moves d none s = same-Rows s.deliveries
supersede_older-Moves d (some src) s = elim (Bool-cases (src.source_kind == content_delete)) [
  | inl e ↦ rw e (updated _ supersede s.deliveries (λ o h. supersede-Moves s d src o h))
  | inr e ↦ rw e (same-Rows s.deliveries)
]

complete_claim-Moves :
    (now id : ℕ) (token : String) (ok : Bool) (error : Option String) (d : Option Delivery)
    (s : Store)
    → Rows Moves s.deliveries (complete_claim now id token ok error d s).deliveries
unfolding complete_claim
complete_claim-Moves now id token ok error none s = same-Rows s.deliveries
complete_claim-Moves now id token true error (some d) s =
    trans_Rows s.deliveries _ _
      (updated (owns id token) (complete now) s.deliveries (λ o h. complete-Moves o id token h now))
      (supersede_older-Moves d (source_of s d.source_id)
        (with_deliveries s (update_where (owns id token) (complete now) s.deliveries)))
complete_claim-Moves now id token false error (some d) s =
    updated (owns id token) (fail now error) s.deliveries (λ o h. fail-Moves o id token h now error)

free_media-same :
    (source_id : ℕ) (s : Store)
    → (release_terminal_source_media source_id s).1.deliveries ≡ s.deliveries
unfolding release_terminal_source_media
free_media-same source_id s = ground arith

retry_failed-Moves :
    (delivery_id source_id : Option ℕ) (username : Option String) (s : Store)
    → Rows Moves s.deliveries (retry_failed delivery_id source_id username s).1.deliveries
unfolding retry_failed
retry_failed-Moves delivery_id source_id username s =
    let ids = ids_of (selected delivery_id source_id s s.deliveries) in
    let written = updated (is_retryable ids) reset s.deliveries (λ d h. reset-Moves ids d h) in
    elim (Bool-cases (length (selected delivery_id source_id s s.deliveries) == 0)) [
      | inl e ↦ rw e (same-Rows s.deliveries)
      | inr e ↦
          rw e
            (elim (Bool-cases
              (any (is_other_owner username) (selected delivery_id source_id s s.deliveries))) [
                | inl o ↦ rw o (same-Rows s.deliveries)
                | inr o ↦
                    rw o (elim (Bool-cases (length (filter (is_retryable ids) s.deliveries) == 0)) [
                      | inl k ↦ rw k (same-Rows s.deliveries)
                      | inr k ↦ rw k written
                    ])
              ])
    ]

retry_failed_batch-Moves :
    (username : String) (limit : ℕ) (s : Store)
    → Rows Moves s.deliveries (transaction s (retry_failed_batch username limit s)).1.deliveries
unfolding retry_failed_batch
retry_failed_batch-Moves username limit s =
    let ids = take limit (failed_ids s username) in
    elim (Bool-cases (ltb limit 1 || ltb 100 limit)) [
      | inl e ↦ rw e (same-Rows s.deliveries)
      | inr e ↦ rw e (updated (is_retryable ids) reset s.deliveries (λ d h. reset-Moves ids d h))
    ]

-- every call moves each row as `Moves` says, if the ids are a primary key
pub Step-Moves :
    {s t : Store}
    → Distinct (λ (d : Delivery). d.id) s.deliveries
    → Step s t
    → Rows Moves s.deliveries t.deliveries
unfolding mark_ineligible release_unsubmitted_claim mark_submitted record_outcome record_rendered
    record_render_failure
Step-Moves {s} unique (Step.claims token_hex now per_user_limit limit stale_after) =
    Rows-weaken Narrows Moves s.deliveries _ (λ x y m n. Narrows-Moves x y n)
      (claim_due-Narrows token_hex now per_user_limit limit stale_after s unique)
Step-Moves {s} unique (Step.ineligible id token reason) =
    updated (owns id token) (suppress reason) s.deliveries
      (λ d h. suppress-Moves d id token h reason)
Step-Moves {s} unique (Step.release now id token error) =
    updated (owns id token) (release now error) s.deliveries
      (λ d h. release-Moves d id token h now error)
Step-Moves {s} unique (Step.submit now id token) =
    updated (owns id token) (count_attempt now) s.deliveries
      (λ d h. count_attempt-Moves d id token h now)
Step-Moves {s} unique (Step.outcome now id token ok error) =
    complete_claim-Moves now id token ok error (find (owns id token) s.deliveries) s
Step-Moves {s} unique (Step.free_media source_id) =
    rw (free_media-same source_id s) (same-Rows s.deliveries)
Step-Moves {s} unique (Step.retry delivery_id source_id username) =
    retry_failed-Moves delivery_id source_id username s
Step-Moves {s} unique (Step.retry_batch username limit) = retry_failed_batch-Moves username limit s
Step-Moves {s} unique (Step.render now source_id encoded) = same-Rows s.deliveries
Step-Moves {s} unique (Step.render_fails now source_id error) = same-Rows s.deliveries
