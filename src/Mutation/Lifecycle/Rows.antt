-- ===== src/Mutation/Lifecycle/Rows.antt =====
-- src/db/repositories/content_mutations.py: calls that leave revisions and identities alone.
use discord_fediverse_bridge.Base.{ℕ, ◌≡◌, refl, sym, ◌∙◌, Bool, true, In, arith, ◌==◌, nat_eq}
use discord_fediverse_bridge.Base.Distinct.{Distinct-Rows}
use discord_fediverse_bridge.Base.Table.{Rows, Rows-In, Rows-refl, Rows-update_where, update_where}
use discord_fediverse_bridge.Mutation.{
  Published, Mutation, MutationStore, is_active, mutation_state_eq,
}
use discord_fediverse_bridge.Mutation.Desired.{set_published}
use discord_fediverse_bridge.Mutation.Lifecycle.{IsConsistent}

pub record SameRevision (p q : Published) : Type 0 where
  pub same_id : q.id ≡ p.id
  pub same_revision : q.content_revision ≡ p.content_revision

-- A reservation keeps its identity, and is not opened again.
pub record Ages (m n : Mutation) : Type 0 where
  pub same_id : n.id ≡ m.id
  pub same_object : n.published_object_id ≡ m.published_object_id
  pub same_expected : n.expected_revision ≡ m.expected_revision
  pub same_next : n.next_revision ≡ m.next_revision
  pub active : is_active n.state ≡ true → is_active m.state ≡ true

pub SameRevision-refl : (p : Published) → SameRevision p p
SameRevision-refl p = record { same_id = refl; same_revision = refl }

pub Ages-refl : (m : Mutation) → Ages m m
Ages-refl m = record {
  same_id = refl;
  same_object = refl;
  same_expected = refl;
  same_next = refl;
  active = λ h. h;
}

pub Ages-trans : (m n k : Mutation) → Ages m n → Ages n k → Ages m k
Ages-trans m n k a b = record {
  same_id = b.same_id ∙ a.same_id;
  same_object = b.same_object ∙ a.same_object;
  same_expected = b.same_expected ∙ a.same_expected;
  same_next = b.same_next ∙ a.same_next;
  active = λ h. a.active (b.active h);
}

-- what such rows keep of the invariant
pub IsConsistent-Rows :
    (s t : MutationStore)
    → Rows SameRevision s.published t.published
    → Rows Ages s.mutations t.mutations
    → IsConsistent s
    → IsConsistent t
IsConsistent-Rows s t ps ms c = record {
  published_keys =
      Distinct-Rows (λ (p : Published). p.id) SameRevision (λ p q r. r.same_id) s.published
        t.published ps c.published_keys;
  mutation_keys =
      Distinct-Rows (λ (m : Mutation). m.id) Ages (λ m n r. r.same_id) s.mutations t.mutations ms
        c.mutation_keys;
  single = λ m n hm hn am an e.
      let (x, hx, rx) = Rows-In Ages s.mutations t.mutations m ms hm in
      let (y, hy, ry) = Rows-In Ages s.mutations t.mutations n ms hn in
      rx.same_id
      ∙ c.single x y hx hy (rx.active am) (ry.active an) (sym rx.same_object ∙ e ∙ ry.same_object)
      ∙ sym ry.same_id;
  current = λ m p hm hp am e.
      let (x, hx, rx) = Rows-In Ages s.mutations t.mutations m ms hm in
      let (q, hq, rq) = Rows-In SameRevision s.published t.published p ps hp in
      rq.same_revision
      ∙ c.current x q hx hq (rx.active am) (sym rq.same_id ∙ e ∙ rx.same_object)
      ∙ sym rx.same_expected;
  successor = λ m hm.
      let (x, hx, rx) = Rows-In Ages s.mutations t.mutations m ms hm in
      let before = c.successor x hx in omega (arith, before, rx.same_next, rx.same_expected);
}

-- a change of one published row that leaves its id and its revision
pub IsConsistent-set_published :
    (s : MutationStore) (k : ℕ) (f : Published → Published)
    → ((p : Published) → SameRevision p (f p))
    → IsConsistent s
    → IsConsistent (set_published k f s)
unfolding set_published
IsConsistent-set_published s k f h c =
    IsConsistent-Rows s (set_published k f s)
      (Rows-update_where SameRevision (λ p. p.id == k) f s.published SameRevision-refl
        (λ p m e. h p))
      (Rows-refl Ages Ages-refl s.mutations) c

-- an UPDATE of mutations that ages them
pub IsConsistent-update :
    (s : MutationStore) (p : Mutation → Bool) (f : Mutation → Mutation)
    → ((m : Mutation) → In m s.mutations → p m ≡ true → Ages m (f m))
    → IsConsistent s
    → IsConsistent (record s { mutations = update_where p f s.mutations })
IsConsistent-update s p f h c =
    IsConsistent-Rows s (record s { mutations = update_where p f s.mutations })
      (Rows-refl SameRevision SameRevision-refl s.published)
      (Rows-update_where Ages p f s.mutations Ages-refl h) c
