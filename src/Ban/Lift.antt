-- ===== src/Ban/Lift.antt =====
-- src/db/repositories/community_actor_bans.py: a second ban, and the end of one.
use discord_fediverse_bridge.Base.{
  ℕ, ◌≡◌, refl, String, Bool, true, false, ◌&&◌, Option, none, some, List, [], ◌∷◌, In, In-find,
  arith, ◌==◌, nat_eq, string_eq, inl, inr, any, find, Bool-cases, ok, raised, integrity_error,
}
use discord_fediverse_bridge.Base.Distinct.{Distinct-unique}
use discord_fediverse_bridge.Base.Table.{In-of_update, find-none, next_id}
use discord_fediverse_bridge.Ban.{
  BanStatus, active, inactive, scope_eq, scope_key_eq, ban_status_eq, Ban, BanRequest, is_ban_of,
  scope_values, get_active_ban_by_handle, get_inactive_ban_by_handle, flush_insert, activate,
  create_or_reactivate_active_ban, deactivated, deactivate, deactivate_active_ban_by_handle,
}
use discord_fediverse_bridge.Ban.Single.{
  SameLane, IsSingle, all_false, after_update, flush_update-accepts, IsSingle-update,
}

any-In : {A : Type 0} (p : A → Bool) (xs : List A) (x : A) → In x xs → p x ≡ true → any p xs ≡ true
unfolding any
any-In p [] x m e = absurd m
any-In p (y ∷ xs) x m e = ground (arith, any-In p xs x)

find-none_of :
    {A : Type 0} (p : A → Bool) (xs : List A) → ((x : A) → In x xs → p x ≡ false) → find p xs ≡ none
find-none_of p xs h = find-none p xs (all_false p xs h)

module _ (now : ℕ) (bans : List Ban) (h : IsSingle bans) where
  -- two rows of one account in one scope are one
  same_row :
      (k : Option ℕ) (handle : String) (st end : BanStatus) (x y : Ban)
      → In x bans
      → In y bans
      → is_ban_of k handle st x ≡ true
      → is_ban_of k handle end y ≡ true
      → x ≡ y
  same_row k handle st end x y hx hy ex ey =
      Distinct-unique (λ (c : Ban). c.id) x y bans h.keys hx hy
        (h.single x y hx hy (record {
          same_scope = ground arith;
          same_key = ground arith;
          same_handle = ground arith;
        }))

  -- In a table where an account has at most one row in a scope, a ban of an account that has an
  -- active one there violates the UNIQUE constraint: the call raises.
  pub create_twice_raises :
      (r : BanRequest) (b : Ban)
      → get_active_ban_by_handle r.community_id r.handle bans ≡ some b
      → create_or_reactivate_active_ban now r bans ≡ raised integrity_error
  unfolding create_or_reactivate_active_ban get_active_ban_by_handle get_inactive_ban_by_handle
      activate flush_insert
  create_twice_raises r b found =
      let (stored, is_active) = In-find (is_ban_of r.community_id r.handle active) bans b found in
      let no_old : find (is_ban_of r.community_id r.handle inactive) bans ≡ none =
        find-none_of (is_ban_of r.community_id r.handle inactive) bans (λ c m.
          elim (Bool-cases (is_ban_of r.community_id r.handle inactive c)) [
            | inl e ↦ ground (arith, same_row r.community_id r.handle inactive active c b m stored)
            | inr e ↦ e
          ]) in
      let k = next_id (λ (c : Ban). c.id) bans in
      let taken =
        any-In
          (λ c.
            c.scope == (scope_values r.community_id).0
            && c.scope_key == (scope_values r.community_id).1
            && c.actor_handle == r.handle
            && c.status == active)
          bans b stored (ground arith) in
      rw no_old rw taken refl

  -- In a table where an account has at most one row in a scope, lifting the active ban that is found
  -- does not raise: it gives that ban back as inactive, no active one is left of the account in the
  -- scope, and the table still has at most one row of an account in a scope.
  pub deactivate_lifts :
      (community_id : Option ℕ) (handle : String) (b : Ban)
      → get_active_ban_by_handle community_id handle bans ≡ some b
      → (after : List Ban) × (deactivate_active_ban_by_handle now community_id handle bans
          ≡ ok (some (deactivated now b), after))
        × (get_active_ban_by_handle community_id handle after ≡ none)
        × IsSingle after
  unfolding deactivate_active_ban_by_handle get_active_ban_by_handle deactivate
  deactivate_lifts community_id handle b found =
      let (stored, is_active) = In-find (is_ban_of community_id handle active) bans b found in
      let lane : SameLane (deactivated now b) b = record {
        same_scope = refl;
        same_key = refl;
        same_handle = refl;
      } in
      let after = after_update bans b (deactivated now b) stored refl lane h in
      (
        after,
        rw found rw (flush_update-accepts bans b (deactivated now b) stored refl lane h) refl,
        find-none_of (is_ban_of community_id handle active) after (λ x m.
            let (y, there, how) =
              In-of_update (λ c. c.id == b.id) (λ c. deactivated now b) bans x m in
            elim how [
              | inl (hit, is_b) ↦ ground arith
              | inr (miss, is_y) ↦ elim (Bool-cases (is_ban_of community_id handle active x)) [
                | inl e ↦
                    ground (arith, same_row community_id handle active active y b there stored)
                | inr e ↦ e
              ]
            ]),
        IsSingle-update bans b (deactivated now b) stored refl lane h,
      )
