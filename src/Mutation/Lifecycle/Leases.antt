-- ===== src/Mutation/Lifecycle/Leases.antt =====
-- src/db/repositories/content_mutations.py: `claim_due` leases only open reservations, each once.
use discord_fediverse_bridge.Base.{
  ℕ, suc, ◌≡◌, refl, String, Bool, true, Option, none, some, List, [], ◌∷◌, In, All, All-of_In,
  All-In, All-weaken, arith, ◌==◌, ==_ne, nat_eq, inl, inr, leb, is_some, In-take, In-sort_by, take,
  sort_by, Bool-cases,
}
use discord_fediverse_bridge.Base.Distinct.{
  Distinct, Absent, Absent-ne, Distinct-unique, Distinct-sort_by, Distinct-take,
}
use discord_fediverse_bridge.Base.Table.{In-update_miss, get}
use discord_fediverse_bridge.Delivery.{User}
use discord_fediverse_bridge.Mutation.{
  Mutation, MutationStore, Published, is_active, mutation_state_eq,
}
use discord_fediverse_bridge.Mutation.Claims.{
  is_claimable, claimable_row, claimable_rows, set_mutation, lease, claim_rows, claim_due,
}
use discord_fediverse_bridge.Mutation.Lifecycle.{IsConsistent}
use discord_fediverse_bridge.Mutation.Lifecycle.Rows.{Ages, IsConsistent-update}

abbrev key : Mutation × User → ℕ
key (m, user) = m.id

is_claimable-active :
    (now : ℕ) (m : Mutation) → is_claimable now m ≡ true → is_active m.state ≡ true
unfolding is_claimable
is_claimable-active now m h = ground arith

-- a join adds the mutation, if it is claimable, or nothing
claimable_row-cases {κ} :
    (Q : List (Mutation × User) → Type κ) (now : ℕ) (s : MutationStore) (m : Mutation)
    (user : Option User) (rest : List (Mutation × User))
    → Q rest
    → ((u : User) → is_claimable now m ≡ true → Q ((m, u) ∷ rest))
    → Q (claimable_row now s m user rest)
unfolding claimable_row
claimable_row-cases Q now s m none rest same more = same
claimable_row-cases Q now s m (some u) rest same more = elim (Bool-cases (is_claimable now m)) [
  | inl e ↦
      elim (Bool-cases
        (is_some (get (λ (p : Published). p.id) m.published_object_id s.published))) [
          | inl there ↦ rw e rw there (more u e)
          | inr gone ↦ rw e rw gone same
        ]
  | inr e ↦ rw e same
]

All-claimable_rows :
    (now : ℕ) (s : MutationStore) (ms all : List Mutation)
    → ((m : Mutation) → In m ms → In m all)
    → All
        (λ (r : Mutation × User). In r.0 all × (is_active r.0.state ≡ true))
        (claimable_rows now s ms)
unfolding claimable_rows
All-claimable_rows now s [] all h = tt
All-claimable_rows now s (m ∷ ms) all h =
    let rest = All-claimable_rows now s ms all (λ k i. h k (inr i)) in
    claimable_row-cases (All (λ (r : Mutation × User). In r.0 all × (is_active r.0.state ≡ true)))
      now s m _ _ rest (λ u e. ((h m (inl refl), is_claimable-active now m e), rest))

Absent-claimable_rows :
    (now : ℕ) (s : MutationStore) (k : ℕ) (ms : List Mutation)
    → Absent (λ (m : Mutation). m.id) k ms
    → Absent key k (claimable_rows now s ms)
unfolding claimable_rows
Absent-claimable_rows now s k [] a = tt
Absent-claimable_rows now s k (m ∷ ms) a =
    let rest = Absent-claimable_rows now s k ms a.1 in
    claimable_row-cases (Absent key k) now s m _ _ rest (λ u e. (a.0, rest))

Distinct-claimable_rows :
    (now : ℕ) (s : MutationStore) (ms : List Mutation)
    → Distinct (λ (m : Mutation). m.id) ms
    → Distinct key (claimable_rows now s ms)
unfolding claimable_rows
Distinct-claimable_rows now s [] d = tt
Distinct-claimable_rows now s (m ∷ ms) d =
    let rest = Distinct-claimable_rows now s ms d.1 in
    claimable_row-cases (Distinct key) now s m _ _ rest
      (λ u e. (Absent-claimable_rows now s m.id ms d.0, rest))

lease-Ages :
    (token : String) (now stale_after : ℕ) (m : Mutation)
    → is_active m.state ≡ true
    → Ages m (lease token now stale_after m)
lease-Ages token now stale_after m h = ground arith

claim_rows-IsConsistent :
    (token_hex : ℕ → String) (now stale_after n : ℕ) (rows : List (Mutation × User))
    (s : MutationStore)
    → Distinct key rows
    → All (λ r. In r.0 s.mutations × (is_active r.0.state ≡ true)) rows
    → IsConsistent s
    → IsConsistent (claim_rows token_hex now stale_after n rows s).1
unfolding claim_rows set_mutation
claim_rows-IsConsistent token_hex now stale_after n [] s d a c = c
claim_rows-IsConsistent token_hex now stale_after n ((m, user) ∷ rows) s d a c =
    claim_rows-IsConsistent token_hex now stale_after (suc n) rows _ d.1
      (All-weaken (λ (r : Mutation × User). In r.0 s.mutations × (is_active r.0.state ≡ true)) rows
        (λ r i h. (
          In-update_miss (λ k. k.id == m.id) (lease (token_hex n) now stale_after) s.mutations r.0
              h.0 (==_ne r.0.id m.id (Absent-ne key m.id r rows d.0 i)),
          h.1,
        ))
        a.1)
      (IsConsistent-update s (λ k. k.id == m.id) (lease (token_hex n) now stale_after)
        (λ k i e.
          let same : k ≡ m =
            Distinct-unique (λ (x : Mutation). x.id) k m s.mutations c.mutation_keys i a.0.0
              (ground arith) in
          lease-Ages (token_hex n) now stale_after k (rw same a.0.1))
        c)

pub claim_due-IsConsistent :
    (token_hex : ℕ → String) (now stale_after limit : ℕ) (s : MutationStore)
    → IsConsistent s
    → IsConsistent (claim_due token_hex now stale_after limit s).1
unfolding claim_due
claim_due-IsConsistent token_hex now stale_after limit s c =
    let le : Mutation × User → Mutation × User → Bool = λ a b. leb a.0.id b.0.id in
    let rows = claimable_rows now s s.mutations in
    claim_rows-IsConsistent token_hex now stale_after 0 (take limit (sort_by le rows)) s
      (Distinct-take key limit (sort_by le rows)
        (Distinct-sort_by key le rows (Distinct-claimable_rows now s s.mutations c.mutation_keys)))
      (All-of_In _ (take limit (sort_by le rows)) λ r i.
        All-In (λ (r : Mutation × User). In r.0 s.mutations × (is_active r.0.state ≡ true)) rows
          (All-claimable_rows now s s.mutations s.mutations (λ m h. h))
          (In-sort_by le rows r (In-take limit (sort_by le rows) r i)))
      c
