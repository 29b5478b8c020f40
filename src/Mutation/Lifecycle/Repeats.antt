-- ===== src/Mutation/Lifecycle/Repeats.antt =====
-- src/db/repositories/content_mutations.py: asking again for a reservation.
use discord_fediverse_bridge.Base.{
  ℕ, ◌≡◌, refl, sym, ap, ◌∙◌, String, Bool, true, false, ◌&&◌, Option, none, some, List, [], ◌∷◌,
  ◌++◌, arith, ◌==◌, nat_eq, string_eq, inl, inr, any, find, Result, ok, Bool-cases, Option-cases,
}
use discord_fediverse_bridge.Base.Table.{next_id}
use discord_fediverse_bridge.Mutation.{
  Published, Mutation, MutationStore, Library, is_active, unchanged, desired_kind_eq,
}
use discord_fediverse_bridge.Mutation.Desired.{published_of}
use discord_fediverse_bridge.Mutation.Reserve.{
  active_mutation, identity_of, reserve_next, reserve_next_in_session, new_mutation,
}
use discord_fediverse_bridge.Mutation.Lifecycle.Reservation.{
  reserve_next_in_session-cases, reserve_new-ok,
}

find-concat :
    {A : Type 0} (p : A → Bool) (xs : List A) (y : A)
    → find p xs ≡ none
    → p y ≡ true
    → find p (xs ++ y ∷ []) ≡ some y
unfolding find
find-concat p [] y h e = ground arith
find-concat p (x ∷ xs) y h e = ground (arith, find-concat p xs y)

module _ (lib : Library) (p : Published) where
  finds_open :
      (targets : Option (List String)) (t : MutationStore) (m : Mutation)
      → (p.desired_kind == unchanged) ≡ false
      → active_mutation p.id t ≡ some m
      → reserve_next_in_session lib p targets t ≡ ok (some m.id, t)
  unfolding reserve_next_in_session
  finds_open targets t m off held = rw (reserve_next_in_session, off) rw held refl

  desires :
      (targets : Option (List String)) (s t : MutationStore) (k : ℕ)
      → reserve_next_in_session lib p targets s ≡ ok (some k, t)
      → (p.desired_kind == unchanged) ≡ false
  unfolding reserve_next_in_session
  desires targets s t k e = elim (Bool-cases (p.desired_kind == unchanged)) [
    | inl on ↦
        let nothing : reserve_next_in_session lib p targets s ≡ ok (none, s) =
          rw (reserve_next_in_session, on) refl in
        let both : ◌≡◌ {A = Result (Option ℕ × MutationStore)} (ok (none, s)) (ok (some k, t)) =
          sym nothing ∙ e in
        cc
    | inr off ↦ off
  ]

  -- the reservation that is open after a call that gave one
  open_after :
      (targets : Option (List String)) (s t : MutationStore) (k : ℕ)
      → reserve_next_in_session lib p targets s ≡ ok (some k, t)
      → (m : Mutation) × (active_mutation p.id t ≡ some m)
        × (m.id ≡ k)
        × (t.published ≡ s.published)
  unfolding active_mutation
  open_after targets s t k e = elim (reserve_next_in_session-cases lib p targets s (some k) t e) [
    | inl (absent, _) ↦ cc
    | inr (inl (m, held, is_k, is_s)) ↦ (m, rw is_s held, cc, rw is_s refl)
    | inr (inr (user, free, made)) ↦
        let (u, a, is_k, is_t) = reserve_new-ok lib p targets s (some k) t user made in
        let m =
          new_mutation lib p targets (next_id (λ (n : Mutation). n.id) s.mutations) u.id
            (lib.operation_digest (identity_of p targets)) a in
        (
          m,
          rw is_t (
              find-concat (λ n. n.published_object_id == p.id && is_active n.state) s.mutations m
                free (ground arith)),
          cc,
          rw is_t refl,
        )
  ]

-- A reservation that was made or found is the one that any later request for the object finds, with
-- other targets too: the later request changes nothing.
pub reserve_next_repeats :
    (lib : Library) (object_id : String) (targets again : Option (List String))
    (s t : MutationStore) (k : ℕ)
    → reserve_next lib object_id targets s ≡ ok (some k, t)
    → reserve_next lib object_id again t ≡ ok (some k, t)
unfolding reserve_next published_of
reserve_next_repeats lib object_id targets again s t k e =
    elim (Option-cases (published_of object_id s)) [
      | inl gone ↦
          let nothing : reserve_next lib object_id targets s ≡ ok (none, s) =
            rw (reserve_next, gone) refl in
          let both : ◌≡◌ {A = Result (Option ℕ × MutationStore)} (ok (none, s)) (ok (some k, t)) =
            sym nothing ∙ e in
          cc
      | inr (p, there) ↦
          let inside : reserve_next_in_session lib p targets s ≡ ok (some k, t) =
            sym (the_branch p there) ∙ e in
          let (m, held, is_k, kept) = open_after lib p targets s t k inside in
          let here_t : published_of object_id t ≡ some p =
            ap (λ l. find (λ q. q.object_id == object_id) l) kept ∙ there in
          rw (reserve_next, here_t)
            (finds_open lib p again t m (desires lib p targets s t k inside) held
              ∙ ap (λ i. ok (some i, t)) is_k)
    ]
  where
    the_branch :
        (p : Published)
        → published_of object_id s ≡ some p
        → reserve_next lib object_id targets s ≡ reserve_next_in_session lib p targets s
    the_branch p there = rw (reserve_next, there) refl

pub any-weaken :
    {A : Type 0} (p q : A → Bool) (xs : List A)
    → ((x : A) → p x ≡ true → q x ≡ true)
    → any p xs ≡ true
    → any q xs ≡ true
unfolding any
any-weaken p q [] h e = e
any-weaken p q (x ∷ xs) h e = ground (arith, h x, any-weaken p q xs h)
