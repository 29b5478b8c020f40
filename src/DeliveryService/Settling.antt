-- ===== src/DeliveryService/Settling.antt =====
-- src/user_actor_delivery.py: no claim of a drain is left open.
use discord_fediverse_bridge.Base.{
  ℕ, ◌≡◌, refl, sym, subst, String, Bool, true, false, ◌&&◌, Option, some, List, [], ◌∷◌, ◌++◌, In,
  any, find, arith, inl, inr, ◌⊎◌, ◌==◌, nat_eq, string_eq, option_eq, filter, length, Bool-cases,
}
use discord_fediverse_bridge.Base.Table.{filter_none}
use discord_fediverse_bridge.Delivery.{status_eq, source_kind_eq, Store, Claim, Delivery}
use discord_fediverse_bridge.Base.Distinct.{Distinct, Absent}
use discord_fediverse_bridge.Delivery.Lifecycle.{here, next, Step}
use discord_fediverse_bridge.Delivery.Lifecycle.History.{HasKeys, Reach-Moves}
use discord_fediverse_bridge.DeliveryService.Calls.{admit_claim-Reach}
use discord_fediverse_bridge.Delivery.Claims.Batch.{claim_due}
use discord_fediverse_bridge.Delivery.Outcomes.{
  owns, mark_ineligible, release_unsubmitted_claim, mark_submitted, record_outcome, suppress,
  release,
}
use discord_fediverse_bridge.DeliveryService.{
  World, Reply, answers, fails, Session, Group, Outcome, add_group, admit_claim, admit_claims,
  submit, decide_claim, report_claim, report_claims, report_groups, send_group, outcome_of,
  reported_ok, reported_error, drain_deliveries,
}
use discord_fediverse_bridge.DeliveryService.Freeing.{
  Free, any-written, release-free, suppress-free, release_media-Free, mark_submitted-Free,
  admit_claim-Free, report_claims-Free, report_groups-Free, complete_claim-frees,
}

-- the row of a claim is given back
abbrev pub Settled : Store → Claim → Type 0
Settled s c = Free c.delivery_id c.claim_token s

report_claim-settles :
    (now : ℕ) (ok : Bool) (error : Option String) (c : Claim) (s : Store)
    → Settled (report_claim now ok error c s) c
unfolding report_claim record_outcome
report_claim-settles now ok error c s =
    release_media-Free c.delivery_id c.claim_token c.source_id _ (
      complete_claim-frees c.delivery_id c.claim_token now ok error
        (find (owns c.delivery_id c.claim_token) s.deliveries) s refl)

same_claim :
    (ds : List Delivery) (c x : Claim)
    → c ≡ x
    → any (owns x.delivery_id x.claim_token) ds ≡ false
    → any (owns c.delivery_id c.claim_token) ds ≡ false
same_claim ds c x e h =
    subst (λ (z : Claim). any (owns z.delivery_id z.claim_token) ds ≡ false) (sym e) h

report_claims-settles :
    (w : World) (r : Reply (List Outcome)) (cs : List Claim) (s : Store) (c : Claim)
    → In c cs
    → Settled (report_claims w r cs s) c
unfolding report_claims
report_claims-settles w r [] s c m = absurd m
report_claims-settles w (answers os) (x ∷ cs) s c (inl e) = same_claim _ c x e (
    report_claims-Free x.delivery_id x.claim_token w (answers os) cs _ (
      report_claim-settles (w.reported_at x) (reported_ok (outcome_of x.delivery_id os))
        (reported_error (outcome_of x.delivery_id os)) x s))
report_claims-settles w (fails t) (x ∷ cs) s c (inl e) = same_claim _ c x e (
    report_claims-Free x.delivery_id x.claim_token w (fails t) cs _
      (report_claim-settles (w.reported_at x) false (some t) x s))
report_claims-settles w (answers os) (x ∷ cs) s c (inr m) =
    report_claims-settles w (answers os) cs _ c m
report_claims-settles w (fails t) (x ∷ cs) s c (inr m) = report_claims-settles w (fails t) cs _ c m

-- a claim is handed to the gateway
abbrev pub Grouped : List Group → Claim → Type 0
Grouped gs c = (g : Group) × In g gs × In c g.claims

report_groups-settles :
    (w : World) (gs : List Group) (s : Store) (c : Claim)
    → Grouped gs c
    → Settled (report_groups w gs s) c
unfolding report_groups
report_groups-settles w [] s c (g, present, m) = absurd present
report_groups-settles w (x ∷ gs) s c (g, inl e, m) =
    report_groups-Free c.delivery_id c.claim_token w gs _ (
      report_claims-settles w (send_group w x) x.claims s c
        (subst (λ (z : Group). In c z.claims) e m))
report_groups-settles w (x ∷ gs) s c (g, inr there, m) =
    report_groups-settles w gs _ c (g, there, m)

In-append : {A : Type 0} (xs : List A) (x y : A) → In x xs → In x (xs ++ y ∷ [])
In-append [] x y m = absurd m
In-append (z ∷ zs) x y (inl e) = inl e
In-append (z ∷ zs) x y (inr m) = inr (In-append zs x y m)

In-last : {A : Type 0} (xs : List A) (x : A) → In x (xs ++ x ∷ [])
In-last [] x = inl refl
In-last (z ∷ zs) x = inr (In-last zs x)

Grouped-later : (g : Group) (gs : List Group) (c : Claim) → Grouped gs c → Grouped (g ∷ gs) c
Grouped-later g gs c (h, present, m) = (h, inr present, m)

add_group-Grouped : (c : Claim) (gs : List Group) → Grouped (add_group c gs) c
unfolding add_group
add_group-Grouped c [] = (_, inl refl, inl refl)
add_group-Grouped c (g ∷ gs) =
    elim (Bool-cases (g.actor_url == c.actor_url && g.actor_username == c.actor_username)) [
      | inl e ↦ rw e (_, inl refl, In-last g.claims c)
      | inr e ↦ rw e (Grouped-later g (add_group c gs) c (add_group-Grouped c gs))
    ]

add_group-keeps :
    (x : Claim) (gs : List Group) (c : Claim) → Grouped gs c → Grouped (add_group x gs) c
unfolding add_group
add_group-keeps x [] c (g, present, m) = absurd present
add_group-keeps x (y ∷ gs) c (g, present, m) =
    elim (Bool-cases (y.actor_url == x.actor_url && y.actor_username == x.actor_username)) [
      | inl e ↦ rw e (elim present [
        | inl p ↦ (_, inl refl, In-append y.claims c x (subst (λ (z : Group). In c z.claims) p m))
        | inr there ↦ (g, inr there, m)
      ])
      | inr e ↦ rw e (elim present [
        | inl p ↦ (g, inl p, m)
        | inr there ↦ Grouped-later y (add_group x gs) c (add_group-keeps x gs c (g, there, m))
      ])
    ]

-- a claim of the first loop is given back or handed to the gateway
abbrev Decided : Session → Claim → Type 0
Decided t c = Settled t.store c ⊎ Grouped t.groups c

Absent-owns :
    (id : ℕ) (token : String) (k : ℕ) (ds : List Delivery)
    → k ≡ id
    → Absent (λ (d : Delivery). d.id) k ds
    → any (owns id token) ds ≡ false
unfolding any
Absent-owns id token k [] e a = refl
Absent-owns id token k (d ∷ ds) e a = ground (arith, a.0, Absent-owns id token k ds e a.1)

-- at most one row is sending under an id and a token, if the ids are a primary key
any-of_length :
    (id : ℕ) (token : String) (ds : List Delivery)
    → Distinct (λ (d : Delivery). d.id) ds
    → (length (filter (owns id token) ds) == 1) ≡ false
    → any (owns id token) ds ≡ false
unfolding any filter
any-of_length id token [] unique h = refl
any-of_length id token (d ∷ ds) unique h = elim (Bool-cases (owns id token d)) [
  | inl e ↦
      let rest = Absent-owns id token d.id ds (ground (arith, e)) unique.0 in
      ground (arith, e, rest, filter_none (owns id token) ds rest)
  | inr e ↦ ground (arith, e, any-of_length id token ds unique.1)
]

submit-Decided :
    (c : Claim) (t : Session) (r : Bool × Store)
    → (r.0 ≡ false → Settled r.1 c)
    → Decided (submit c t r) c
submit-Decided c t (true, s) h = inr (add_group-Grouped c t.groups)
submit-Decided c t (false, s) h = inl (h refl)

submit-keeps :
    (x : Claim) (t : Session) (r : Bool × Store) (c : Claim)
    → Grouped t.groups c
    → Grouped (submit x t r).groups c
submit-keeps x t (true, s) c g = add_group-keeps x t.groups c g
submit-keeps x t (false, s) c g = g

admit_claim-Grouped :
    (now : ℕ) (x : Claim) (r : Reply Bool) (t : Session) (c : Claim)
    → Grouped t.groups c
    → Grouped (admit_claim now x r t).groups c
unfolding admit_claim
admit_claim-Grouped now x (fails e) t c g = g
admit_claim-Grouped now x (answers false) t c g = g
admit_claim-Grouped now x (answers true) t c g =
    submit-keeps x t (mark_submitted now x.delivery_id x.claim_token t.store) c g

admit_claim-Decided :
    (now : ℕ) (c : Claim) (r : Reply Bool) (t : Session)
    → HasKeys t.store
    → Decided (admit_claim now c r t) c
unfolding admit_claim mark_submitted release_unsubmitted_claim mark_ineligible
admit_claim-Decided now c (fails e) t unique = inl (
    any-written (owns c.delivery_id c.claim_token) (release now e) t.store.deliveries
      (release-free c.delivery_id c.claim_token now e))
admit_claim-Decided now c (answers false) t unique = inl (
    release_media-Free c.delivery_id c.claim_token c.source_id _ (
      any-written (owns c.delivery_id c.claim_token) (suppress "federation policy denied endpoint")
        t.store.deliveries
        (suppress-free c.delivery_id c.claim_token "federation policy denied endpoint")))
admit_claim-Decided now c (answers true) t unique =
    submit-Decided c t (mark_submitted now c.delivery_id c.claim_token t.store) (λ h.
      mark_submitted-Free c.delivery_id c.claim_token now c.delivery_id c.claim_token t.store
        (any-of_length c.delivery_id c.claim_token t.store.deliveries unique h))

Decided-later :
    (now : ℕ) (x : Claim) (r : Reply Bool) (t : Session) (c : Claim)
    → Decided t c
    → Decided (admit_claim now x r t) c
Decided-later now x r t c (inl h) = inl (admit_claim-Free c.delivery_id c.claim_token now x r t h)
Decided-later now x r t c (inr g) = inr (admit_claim-Grouped now x r t c g)

admit_claims-later :
    (w : World) (cs : List Claim) (t : Session) (c : Claim)
    → Decided t c
    → Decided (admit_claims w cs t) c
unfolding admit_claims
admit_claims-later w [] t c d = d
admit_claims-later w (x ∷ cs) t c d =
    admit_claims-later w cs _ c (Decided-later (w.admitted_at x) x _ t c d)

admit_claims-Decided :
    (w : World) (cs : List Claim) (t : Session)
    → HasKeys t.store
    → (c : Claim) → In c cs
    → Decided (admit_claims w cs t) c
unfolding admit_claims
admit_claims-Decided w [] t unique c m = absurd m
admit_claims-Decided w (x ∷ cs) t unique c (inl e) =
    let next_t = admit_claim (w.admitted_at x) x (decide_claim (w.federation_decision x) x) t in
    admit_claims-later w cs next_t c
      (subst (Decided next_t) (sym e) (admit_claim-Decided (w.admitted_at x) x _ t unique))
admit_claims-Decided w (x ∷ cs) t unique c (inr m) =
    admit_claims-Decided w cs _
      (Reach-Moves unique (admit_claim-Reach (w.admitted_at x) x _ t here)).1 c m

-- When the ids of the deliveries are distinct, no claim that a drain makes is left open when it
-- returns, whatever the policy and the gateway answer and whichever of them raise: no row is sending
-- under the id and token of the claim.
pub drain_deliveries-Settled :
    (w : World) (token_hex : ℕ → String) (now limit : ℕ) (s : Store)
    → Distinct (λ (d : Delivery). d.id) s.deliveries
    → (c : Claim) → In c (claim_due token_hex now 5 limit 300 s).0
    → any
        (owns c.delivery_id c.claim_token)
        (drain_deliveries w token_hex now limit s).store.deliveries
      ≡ false
unfolding drain_deliveries
drain_deliveries-Settled w token_hex now limit s unique c m =
    let batch = claim_due token_hex now 5 limit 300 s in
    let t = admit_claims w batch.0 (record { store = batch.1; groups = [] }) in
    elim (admit_claims-Decided w batch.0 (record { store = batch.1; groups = [] })
      (Reach-Moves unique (next here (Step.claims token_hex now 5 limit 300))).1 c m) [
        | inl h ↦ report_groups-Free c.delivery_id c.claim_token w t.groups t.store h
        | inr g ↦ report_groups-settles w t.groups t.store c g
      ]
