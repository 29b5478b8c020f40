-- ===== src/Delivery/Claims/Progress.antt =====
-- src/db/repositories/user_actor_delivery_claims.py: the invariant of the loop of `claim_due`.
use discord_fediverse_bridge.Base.{
  ℕ, ◌≡◌, refl, ◌∙◌, String, true, List, In, arith, inl, inr, ◌==◌, nat_eq, length, ◌⊎◌, [], ◌∷◌,
  All, All-of_In, All-weaken, All-concat, subst,
}
use discord_fediverse_bridge.Base.Table.{
  Rows, Rows-refl, Rows-then_update, Rows-In, In-Rows, Rows-weaken, update_where,
}
use discord_fediverse_bridge.Base.Distinct.{Absent, Distinct, Distinct-unique}
use discord_fediverse_bridge.Delivery.{is_unfinished, Source, Delivery, Store}
use discord_fediverse_bridge.Delivery.Claims.Narrowing.{
  Narrows, Narrows-refl, candidate-unfinished, decide-finish, mark_terminal-Narrows,
  mark_sending-Narrows,
}
use discord_fediverse_bridge.Delivery.Claims.{load_due_candidates}
use discord_fediverse_bridge.Delivery.Claims.Candidates.{
  IsCandidate, candidates-IsCandidate, candidates-Distinct,
}
use discord_fediverse_bridge.Delivery.Claims.Batch.{
  Batch, set_delivery, mark_terminal, mark_sending, apply, step, step_cases, claim_due,
  claim_loop_induction, claim_of,
}

-- Of the row `y` now, which was `x` when the batch began: narrowed, and as it was while its turn
-- is still to come.
pub record Tracks (ahead : List (Delivery × Source)) (x y : Delivery) : Type 0 where
  pub narrows : Narrows x y
  pub fresh : Absent (λ c. c.0.id) x.id ahead ⊎ (y ≡ x)

abbrev pub Claimable : ℕ → ℕ → Store → List (Delivery × Source) → Type 0
Claimable now stale_after s = All (IsCandidate now stale_after s s.deliveries)

-- Where a batch stands that began on `s`, with the candidates `ahead` still to come.
pub record Progress (now stale_after : ℕ) (s : Store) (ahead : List (Delivery × Source)) (b : Batch)
    : Type 0 where
  pub candidates : Claimable now stale_after s ahead
  pub distinct : Distinct (λ c. c.0.id) ahead
  pub unique : Distinct (λ d. d.id) s.deliveries
  pub same_sources : b.store.sources ≡ s.sources
  pub rows : Rows (Tracks ahead) s.deliveries b.store.deliveries
  pub behind : All (λ k. Absent (λ c. c.0.id) k.delivery_id ahead) b.claimed

module _ (now stale_after : ℕ) (s : Store) {c : Delivery × Source} {rest : List (Delivery × Source)}
    {b : Batch} (p : Progress now stale_after s (c ∷ rest) b) where
  -- the row of the candidate whose turn it is, by its id
  row_at_turn :
      (x y : Delivery)
      → In x s.deliveries
      → Tracks (c ∷ rest) x y
      → (y.id == c.0.id) ≡ true
      → (x ≡ c.0) × (y ≡ c.0)
  row_at_turn x y m t e =
      let ids : x.id ≡ c.0.id = ground (arith, t.narrows) in
      let same : x ≡ c.0 =
        Distinct-unique (λ (d : Delivery). d.id) x c.0 s.deliveries p.unique m p.candidates.0.row
          ids in
      (same, ground (arith, t.fresh))

  -- the row is still there, as it was loaded
  pub In-at_turn : In c.0 b.store.deliveries
  In-at_turn =
      let (y, here, t) =
        In-Rows (Tracks (c ∷ rest)) s.deliveries b.store.deliveries c.0 p.rows p.candidates.0.row in
      let same : y ≡ c.0 = ground (arith, t.fresh) in subst (λ z. In z b.store.deliveries) same here

  pub unfinished_at_turn : is_unfinished c.0.status ≡ true
  unfinished_at_turn = candidate-unfinished now stale_after c.0 c.1 p.candidates.0.due

  -- the only row that the round may write
  pub row_of_turn : (y : Delivery) → In y b.store.deliveries → (y.id == c.0.id) ≡ true → y ≡ c.0
  row_of_turn y m e =
      let (x, here, t) = Rows-In (Tracks (c ∷ rest)) s.deliveries b.store.deliveries y p.rows m in
      (row_at_turn x y here t e).1

  later : (x y : Delivery) → Tracks (c ∷ rest) x y → Tracks rest x y
  later x y t = record {
    narrows = t.narrows;
    fresh = elim t.fresh [ inl a ↦ inl a.1 | inr e ↦ inr e ];
  }

  Rows-after :
      (f : Delivery → Delivery)
      → ((x y : Delivery) → is_unfinished x.status ≡ true → Narrows x y → Narrows x (f y))
      → Rows (Tracks rest) s.deliveries (update_where (λ r. r.id == c.0.id) f b.store.deliveries)
  Rows-after f keep =
      Rows-then_update (Tracks (c ∷ rest)) (Tracks rest) (λ r. r.id == c.0.id) f s.deliveries
        b.store.deliveries p.rows
        (λ x y m t e.
          let at = row_at_turn x y m t e in
          record {
            narrows = keep x y (rw (at.0) unfinished_at_turn) t.narrows;
            fresh = inl (rw (at.0) p.distinct.0);
          })
        (λ x y m t e. later x y t)

  -- the round leaves the invariant for the candidates after it
  moved :
      (b' : Batch)
      → b'.store.sources ≡ b.store.sources
      → Rows (Tracks rest) s.deliveries b'.store.deliveries
      → All (λ k. Absent (λ c. c.0.id) k.delivery_id rest) b'.claimed
      → Progress now stale_after s rest b'
  moved b' same r k = record {
    candidates = p.candidates.1;
    distinct = p.distinct.1;
    unique = p.unique;
    same_sources = same ∙ p.same_sources;
    rows = r;
    behind = k;
  }

  behind_after : All (λ k. Absent (λ c. c.0.id) k.delivery_id rest) b.claimed
  behind_after = All-weaken _ b.claimed (λ k m a. a.1) p.behind

module _ (token_hex : ℕ → String) (now per_user_limit stale_after : ℕ) (s : Store) where
  pub step-Progress :
      (c : Delivery × Source) (rest : List (Delivery × Source)) (b : Batch)
      → Progress now stale_after s (c ∷ rest) b
      → Progress now stale_after s rest (step token_hex now per_user_limit b c)
  unfolding apply set_delivery
  step-Progress c rest b p =
      step_cases token_hex now per_user_limit (Progress now stale_after s rest) b c.0 c.1
        (moved now stale_after s p b refl
          (Rows-weaken (Tracks (c ∷ rest)) (Tracks rest) s.deliveries b.store.deliveries
            (λ x y m t. later now stale_after s p x y t) p.rows)
          (behind_after now stale_after s p))
        (λ st e.
          moved now stale_after s p _ refl
            (Rows-after now stale_after s p (mark_terminal st) λ x y u n.
              mark_terminal-Narrows st x y u (decide-finish per_user_limit b c.0 c.1 st e) n)
            (behind_after now stale_after s p))
        (λ user ids e.
          let token = token_hex (length b.claimed) in
          moved now stale_after s p _ refl
            (Rows-after now stale_after s p (mark_sending token now)
              (mark_sending-Narrows token now))
            (All-concat _ b.claimed (claim_of c.0 c.1 user ids token)
              (behind_after now stale_after s p) p.distinct.0))

abbrev pub start : Store → Batch
start s = record { store = s; claimed = []; seen_endpoints = []; claimed_per_user = [] }

pub start-Progress :
    (now stale_after : ℕ) (s : Store)
    → Distinct (λ (d : Delivery). d.id) s.deliveries
    → Progress now stale_after s (load_due_candidates now stale_after s) (start s)
start-Progress now stale_after s unique = record {
  candidates =
      All-of_In (IsCandidate now stale_after s s.deliveries) (load_due_candidates now stale_after s)
        (candidates-IsCandidate now stale_after s);
  distinct = candidates-Distinct now stale_after s unique;
  unique = unique;
  same_sources = refl;
  rows =
      Rows-refl (Tracks (load_due_candidates now stale_after s))
        (λ d. record { narrows = Narrows-refl d; fresh = inr refl }) s.deliveries;
  behind = tt;
}

-- A batch narrows the table that it began on.
pub claim_due-Narrows :
    (token_hex : ℕ → String) (now per_user_limit limit stale_after : ℕ) (s : Store)
    → Distinct (λ (d : Delivery). d.id) s.deliveries
    → Rows Narrows s.deliveries
        (claim_due token_hex now per_user_limit limit stale_after s).1.deliveries
unfolding claim_due
claim_due-Narrows token_hex now per_user_limit limit stale_after s unique =
    let (rest, p) =
      claim_loop_induction token_hex now per_user_limit (Progress now stale_after s) limit
        (λ c rest b p. step-Progress token_hex now per_user_limit stale_after s c rest b p)
        (load_due_candidates now stale_after s) (start s)
        (start-Progress now stale_after s unique) in
    Rows-weaken (Tracks rest) Narrows s.deliveries _ (λ x y m t. t.narrows) p.rows
