-- ===== src/Delivery/Claims/Induction.antt =====
-- src/db/repositories/user_actor_delivery_claims.py: what is shown of each claim of a batch.
use discord_fediverse_bridge.Base.{
  ℕ, ◌≡◌, sym, String, true, List, ◌==◌, nat_eq, length, ◌≢◌, ◌∷◌, All, All-In, All-weaken,
  All-concat,
}
use discord_fediverse_bridge.Base.Table.{Rows, Rows-update_where}
use discord_fediverse_bridge.Base.Distinct.{Absent, Distinct}
use discord_fediverse_bridge.Delivery.{is_unfinished, Source, Delivery, Store, Claim, User}
use discord_fediverse_bridge.Delivery.Claims.Progress.{
  Progress, row_of_turn, unfinished_at_turn, step-Progress, start, start-Progress,
}
use discord_fediverse_bridge.Delivery.Claims.Narrowing.{
  Narrows, Narrows-refl, decide-finish, mark_terminal-Narrows, mark_sending-Narrows,
}
use discord_fediverse_bridge.Delivery.Claims.{load_due_candidates}
use discord_fediverse_bridge.Delivery.Claims.Batch.{
  claim, Batch, decide, set_delivery, mark_terminal, mark_sending, apply, step, claim_due,
  claim_loop_induction, step_cases, claim_of,
}

-- Rows that a round writes are unfinished, so what it writes narrows the table.
pub narrowed_by_turn :
    (now stale_after : ℕ) (s : Store) (c : Delivery × Source) (rest : List (Delivery × Source))
    (b : Batch)
    → Progress now stale_after s (c ∷ rest) b
    → (f : Delivery → Delivery) → ((y : Delivery) → is_unfinished y.status ≡ true → Narrows y (f y))
    → Rows Narrows b.store.deliveries (set_delivery c.0.id f b.store).deliveries
unfolding set_delivery
narrowed_by_turn now stale_after s c rest b p f narrow =
    Rows-update_where Narrows (λ r. r.id == c.0.id) f b.store.deliveries Narrows-refl
      λ r m e.
        narrow r
          (rw (row_of_turn now stale_after s p r m e) (unfinished_at_turn now stale_after s p))

-- What is shown of a claim when it is made, and kept by each later round, holds when the batch ends.
module _ (token_hex : ℕ → String) (now per_user_limit stale_after : ℕ) (s : Store)
    (J : Store → Claim → Type 0)
    (made : (c : Delivery × Source) (rest : List (Delivery × Source)) (b : Batch) (user : User)
        (ids : List String)
      → Progress now stale_after s (c ∷ rest) b
      → decide per_user_limit b c.0 c.1 ≡ claim user ids
      → let token = token_hex (length b.claimed) in
        J (set_delivery c.0.id (mark_sending token now) b.store) (claim_of c.0 c.1 user ids token))
    (kept : (c : Delivery × Source) (rest : List (Delivery × Source)) (b : Batch) (k : Claim)
      → Progress now stale_after s (c ∷ rest) b
      → k.delivery_id ≢ c.0.id
      → (f : Delivery → Delivery)
      → ((y : Delivery) → is_unfinished y.status ≡ true → Narrows y (f y))
      → J b.store k
      → J (set_delivery c.0.id f b.store) k) where
  Shown : List (Delivery × Source) → Batch → Type 0
  Shown ahead b = Progress now stale_after s ahead b × All (J b.store) b.claimed

  kept-All :
      (c : Delivery × Source) (rest : List (Delivery × Source)) (b : Batch)
      → Shown (c ∷ rest) b
      → (f : Delivery → Delivery)
      → ((y : Delivery) → is_unfinished y.status ≡ true → Narrows y (f y))
      → All (J (set_delivery c.0.id f b.store)) b.claimed
  unfolding Shown
  kept-All c rest b h f narrow =
      All-weaken (J b.store) b.claimed
        (λ k m j.
          kept c rest b k h.0
            (λ e.
              (All-In (λ k. Absent (λ c. c.0.id) k.delivery_id (c ∷ rest)) b.claimed h.0.behind m).0
                (sym e))
            f narrow j)
        h.1

  step-Shown :
      (c : Delivery × Source) (rest : List (Delivery × Source)) (b : Batch)
      → Shown (c ∷ rest) b
      → Shown rest (step token_hex now per_user_limit b c)
  unfolding apply Shown
  step-Shown c rest b h = (
    step-Progress token_hex now per_user_limit stale_after s c rest b h.0,
    step_cases token_hex now per_user_limit (λ b. All (J b.store) b.claimed) b c.0 c.1 h.1
        (λ st e. kept-All c rest b h (mark_terminal st) λ y u.
          mark_terminal-Narrows st y y u (decide-finish per_user_limit b c.0 c.1 st e)
            (Narrows-refl y))
        (λ user ids e.
          let token = token_hex (length b.claimed) in
          All-concat _ b.claimed (claim_of c.0 c.1 user ids token)
            (kept-All c rest b h (mark_sending token now)
              λ y u. mark_sending-Narrows token now y y u (Narrows-refl y))
            (made c rest b user ids h.0 e)),
  )

  pub claims_induction :
      Distinct (λ (d : Delivery). d.id) s.deliveries
      → (limit : ℕ)
      → let (claims, t) = claim_due token_hex now per_user_limit limit stale_after s in
        All (J t) claims
  unfolding claim_due Shown
  claims_induction unique limit =
      (claim_loop_induction token_hex now per_user_limit Shown limit step-Shown
        (load_due_candidates now stale_after s) (start s)
        (start-Progress now stale_after s unique, tt)).1.1
