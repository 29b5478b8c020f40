-- ===== src/DeliveryService/Freeing.antt =====
-- src/user_actor_delivery.py: no call that a drain makes behind its claims makes a row sending.
use discord_fediverse_bridge.Base.{
  ℕ, ◌≡◌, refl, String, Bool, true, false, Option, none, some, List, [], ◌∷◌, any, find, arith, inl,
  inr, ◌==◌, nat_eq, string_eq, option_eq, Bool-cases,
}
use discord_fediverse_bridge.Base.Table.{update_where}
use discord_fediverse_bridge.Delivery.{
  status_eq, content_delete, source_kind_eq, Store, Claim, Source, Delivery,
}
use discord_fediverse_bridge.Delivery.Claims.{source_of}
use discord_fediverse_bridge.Delivery.Outcomes.{
  owns, mark_ineligible, release_unsubmitted_claim, mark_submitted, record_outcome, complete_claim,
  supersede_older, supersede, is_older_unsent, suppress, release, count_attempt, complete, fail,
  with_deliveries, release_terminal_source_media,
}
use discord_fediverse_bridge.DeliveryService.{
  World, Reply, answers, fails, Session, Group, Outcome, admit_claim, submit, report_claim,
  report_claims, report_groups, send_group,
}

-- no row is sending under the id and token
abbrev pub Free : ℕ → String → Store → Type 0
Free id token s = any (owns id token) s.deliveries ≡ false

pub any-update :
    (q p : Delivery → Bool) (f : Delivery → Delivery) (ds : List Delivery)
    → ((d : Delivery) → q d ≡ false → q (f d) ≡ false)
    → any q ds ≡ false
    → any q (update_where p f ds) ≡ false
unfolding any update_where
any-update q p f [] h a = refl
any-update q p f (d ∷ ds) h a = ground (arith, h d, any-update q p f ds h)

pub any-written :
    (q : Delivery → Bool) (f : Delivery → Delivery) (ds : List Delivery)
    → ((d : Delivery) → q (f d) ≡ false)
    → any q (update_where q f ds) ≡ false
unfolding any update_where
any-written q f [] h = refl
any-written q f (d ∷ ds) h = ground (arith, h d, any-written q f ds h)

pub find-any : (q : Delivery → Bool) (ds : List Delivery) → find q ds ≡ none → any q ds ≡ false
unfolding any find
find-any q [] h = refl
find-any q (d ∷ ds) h = ground (arith, find-any q ds)

module _ (id : ℕ) (token : String) where
  pub suppress-free : (reason : String) (d : Delivery) → owns id token (suppress reason d) ≡ false
  suppress-free reason d = ground arith

  pub release-free :
      (now : ℕ) (error : String) (d : Delivery) → owns id token (release now error d) ≡ false
  release-free now error d = ground arith

  pub complete-free : (now : ℕ) (d : Delivery) → owns id token (complete now d) ≡ false
  complete-free now d = ground arith

  pub fail-free :
      (now : ℕ) (error : Option String) (d : Delivery) → owns id token (fail now error d) ≡ false
  fail-free now error d = ground arith

  pub supersede-free : (d : Delivery) → owns id token (supersede d) ≡ false
  supersede-free d = ground arith

  -- an UPDATE that leaves no row sending frees none
  pub keeps :
      (p : Delivery → Bool) (f : Delivery → Delivery) (ds : List Delivery)
      → ((d : Delivery) → owns id token (f d) ≡ false)
      → any (owns id token) ds ≡ false
      → any (owns id token) (update_where p f ds) ≡ false
  keeps p f ds h = any-update (owns id token) p f ds (λ d e. h d)

  pub supersede_older-Free :
      (d : Delivery) (src : Option Source) (s : Store)
      → Free id token s
      → Free id token (supersede_older d src s)
  unfolding supersede_older
  supersede_older-Free d none s h = h
  supersede_older-Free d (some src) s h = elim (Bool-cases (src.source_kind == content_delete)) [
    | inl e ↦ rw e (keeps (is_older_unsent s d src) supersede s.deliveries supersede-free h)
    | inr e ↦ rw e h
  ]

  pub complete_claim-Free :
      (now other : ℕ) (secret : String) (ok : Bool) (error : Option String) (d : Option Delivery)
      (s : Store)
      → Free id token s
      → Free id token (complete_claim now other secret ok error d s)
  unfolding complete_claim
  complete_claim-Free now other secret ok error none s h = h
  complete_claim-Free now other secret true error (some d) s h =
      supersede_older-Free d (source_of s d.source_id)
        (with_deliveries s (update_where (owns other secret) (complete now) s.deliveries))
        (keeps (owns other secret) (complete now) s.deliveries (complete-free now) h)
  complete_claim-Free now other secret false error (some d) s h =
      keeps (owns other secret) (fail now error) s.deliveries (fail-free now error) h

  -- the report on a claim frees it
  pub complete_claim-frees :
      (now : ℕ) (ok : Bool) (error : Option String) (d : Option Delivery) (s : Store)
      → find (owns id token) s.deliveries ≡ d
      → Free id token (complete_claim now id token ok error d s)
  unfolding complete_claim
  complete_claim-frees now ok error none s h = find-any (owns id token) s.deliveries h
  complete_claim-frees now true error (some d) s h =
      supersede_older-Free d (source_of s d.source_id)
        (with_deliveries s (update_where (owns id token) (complete now) s.deliveries))
        (any-written (owns id token) (complete now) s.deliveries (complete-free now))
  complete_claim-frees now false error (some d) s h =
      any-written (owns id token) (fail now error) s.deliveries (fail-free now error)

  pub release_media-Free :
      (source_id : ℕ) (s : Store)
      → Free id token s
      → Free id token (release_terminal_source_media source_id s).1
  unfolding release_terminal_source_media
  release_media-Free source_id s h = ground arith

  pub mark_ineligible-Free :
      (other : ℕ) (secret reason : String) (s : Store)
      → Free id token s
      → Free id token (mark_ineligible other secret reason s)
  unfolding mark_ineligible
  mark_ineligible-Free other secret reason s h =
      keeps (owns other secret) (suppress reason) s.deliveries (suppress-free reason) h

  pub release_claim-Free :
      (now other : ℕ) (secret error : String) (s : Store)
      → Free id token s
      → Free id token (release_unsubmitted_claim now other secret error s)
  unfolding release_unsubmitted_claim
  release_claim-Free now other secret error s h =
      keeps (owns other secret) (release now error) s.deliveries (release-free now error) h

  pub count_attempt-owns :
      (now : ℕ) (d : Delivery)
      → owns id token d ≡ false
      → owns id token (count_attempt now d) ≡ false
  count_attempt-owns now d h = h

  pub mark_submitted-Free :
      (now other : ℕ) (secret : String) (s : Store)
      → Free id token s
      → Free id token (mark_submitted now other secret s).1
  unfolding mark_submitted
  mark_submitted-Free now other secret s h =
      any-update (owns id token) (owns other secret) (count_attempt now) s.deliveries
        (count_attempt-owns now) h

  pub submit-Free :
      (c : Claim) (t : Session) (r : Bool × Store)
      → Free id token r.1
      → Free id token (submit c t r).store
  submit-Free c t (true, s) h = h
  submit-Free c t (false, s) h = h

  pub admit_claim-Free :
      (now : ℕ) (c : Claim) (r : Reply Bool) (t : Session)
      → Free id token t.store
      → Free id token (admit_claim now c r t).store
  unfolding admit_claim
  admit_claim-Free now c (fails e) t h =
      release_claim-Free now c.delivery_id c.claim_token e t.store h
  admit_claim-Free now c (answers false) t h = release_media-Free c.source_id _ (
      mark_ineligible-Free c.delivery_id c.claim_token "federation policy denied endpoint" t.store
        h)
  admit_claim-Free now c (answers true) t h =
      submit-Free c t (mark_submitted now c.delivery_id c.claim_token t.store)
        (mark_submitted-Free now c.delivery_id c.claim_token t.store h)

  pub report_claim-Free :
      (now : ℕ) (ok : Bool) (error : Option String) (c : Claim) (s : Store)
      → Free id token s
      → Free id token (report_claim now ok error c s)
  unfolding report_claim record_outcome
  report_claim-Free now ok error c s h = release_media-Free c.source_id _ (
      complete_claim-Free now c.delivery_id c.claim_token ok error
        (find (owns c.delivery_id c.claim_token) s.deliveries) s h)

  pub report_claims-Free :
      (w : World) (r : Reply (List Outcome)) (cs : List Claim) (s : Store)
      → Free id token s
      → Free id token (report_claims w r cs s)
  unfolding report_claims
  report_claims-Free w r [] s h = h
  report_claims-Free w (answers os) (c ∷ cs) s h =
      report_claims-Free w (answers os) cs _ (report_claim-Free _ _ _ c s h)
  report_claims-Free w (fails e) (c ∷ cs) s h =
      report_claims-Free w (fails e) cs _ (report_claim-Free _ _ _ c s h)

  pub report_groups-Free :
      (w : World) (gs : List Group) (s : Store)
      → Free id token s
      → Free id token (report_groups w gs s)
  unfolding report_groups
  report_groups-Free w [] s h = h
  report_groups-Free w (g ∷ gs) s h =
      report_groups-Free w gs _ (report_claims-Free w (send_group w g) g.claims s h)
