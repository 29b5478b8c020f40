-- ===== src/Ban/Single.antt =====
-- src/db/repositories/community_actor_bans.py: an account has at most one row in a scope, under which
-- the UNIQUE constraint is met by every command but a second ban.
use discord_fediverse_bridge.Base.{
  ℕ, ◌≡◌, ◌⊎◌, refl, sym, ap, ◌∙◌, Bool, true, false, ◌&&◌, none, some, List, [], ◌∷◌, ◌++◌, In,
  In-find, In-concat, arith, ◌==◌, ◌!=◌, ==_self, nat_eq, string_eq, subst, inl, inr, any,
  Option-cases, Bool-cases, ok,
}
use discord_fediverse_bridge.Base.Distinct.{Distinct, Distinct-Rows, Distinct-concat}
use discord_fediverse_bridge.Base.Table.{
  Rows-update_where, update_where, In-of_update, In-update_hit, In-find-none, next_id,
  next_id-fresh,
}
use discord_fediverse_bridge.Ban.{
  BanStatus, active, inactive, scope_eq, scope_key_eq, ban_status_eq, Ban, BanRequest, Activation,
  scope_values, reactivated, created, is_ban_of, get_active_ban_by_handle,
  get_inactive_ban_by_handle, reactivate, new_ban, flush_update, flush_insert, activate,
  create_or_reactivate_active_ban,
}

-- the same account in the same scope
pub record SameLane (b c : Ban) : Type 0 where
  pub same_scope : b.scope ≡ c.scope
  pub same_key : b.scope_key ≡ c.scope_key
  pub same_handle : b.actor_handle ≡ c.actor_handle

pub record IsSingle (bans : List Ban) : Type 0 where
  pub keys : Distinct (λ (b : Ban). b.id) bans
  pub single : (b c : Ban) → In b bans → In c bans → SameLane b c → b.id ≡ c.id

pub all_false :
    {A : Type 0} (p : A → Bool) (xs : List A) → ((x : A) → In x xs → p x ≡ false) → any p xs ≡ false
unfolding any
all_false p [] h = refl
all_false p (x ∷ xs) h = ground (arith, h x (inl refl), all_false p xs (λ y m. h y (inr m)))

-- a row written over the one of its id, in the same lane
module _ (bans : List Ban) (old b : Ban) (stored : In old bans) (same_id : b.id ≡ old.id)
    (lane : SameLane b old) (h : IsSingle bans) where
  abbrev pub after_update : List Ban
  after_update = update_where (λ c. c.id == b.id) (λ c. b) bans

  pub flush_update-accepts : flush_update b bans ≡ ok after_update
  unfolding flush_update
  flush_update-accepts =
      let clear =
        all_false
          (λ c.
            c.id != b.id
            && c.scope == b.scope
            && c.scope_key == b.scope_key
            && c.actor_handle == b.actor_handle
            && c.status == b.status)
          bans
          (λ c m.
            ground
              (arith, h.single c old m stored, lane.same_scope, lane.same_key, lane.same_handle)) in
      rw clear refl

  -- the row that a row of the new table comes from
  origin : (x : Ban) → In x after_update → (y : Ban) × In y bans × (x.id ≡ y.id) × SameLane x y
  origin x m =
      let (y, there, how) = In-of_update (λ c. c.id == b.id) (λ c. b) bans x m in
      elim how [
        | inl (hit, is_b) ↦ (
          old,
          stored,
          ap (λ (c : Ban). c.id) is_b ∙ same_id,
          subst (λ c. SameLane c old) (sym is_b) lane,
        )
        | inr (miss, is_y) ↦ (
          y,
          there,
          ap (λ (c : Ban). c.id) is_y,
          record {
            same_scope = ap (λ (c : Ban). c.scope) is_y;
            same_key = ap (λ (c : Ban). c.scope_key) is_y;
            same_handle = ap (λ (c : Ban). c.actor_handle) is_y;
          },
        )
      ]

  pub IsSingle-update : IsSingle after_update
  IsSingle-update = record {
    keys =
        Distinct-Rows (λ (c : Ban). c.id) (λ x y. y.id ≡ x.id) (λ x y e. e) bans after_update
          (Rows-update_where (λ x y. y.id ≡ x.id) (λ c. c.id == b.id) (λ c. b) bans (λ c. refl)
            (λ c m e. ground arith))
          h.keys;
    single = λ x y hx hy l.
        let (x0, there_x, id_x, lane_x) = origin x hx in
        let (y0, there_y, id_y, lane_y) = origin y hy in
        id_x
        ∙ h.single x0 y0 there_x there_y (record {
          same_scope = sym lane_x.same_scope ∙ l.same_scope ∙ lane_y.same_scope;
          same_key = sym lane_x.same_key ∙ l.same_key ∙ lane_y.same_key;
          same_handle = sym lane_x.same_handle ∙ l.same_handle ∙ lane_y.same_handle;
        })
        ∙ sym id_y;
  }

-- a new row in a lane that has none
module _ (bans : List Ban) (b : Ban) (fresh : b.id ≡ next_id (λ (c : Ban). c.id) bans)
    (free : (c : Ban) → In c bans → SameLane c b → ⊥) (h : IsSingle bans) where
  pub flush_insert-accepts : flush_insert b bans ≡ ok (bans ++ b ∷ [])
  unfolding flush_insert
  flush_insert-accepts =
      let clear =
        all_false
          (λ c.
            c.scope == b.scope
            && c.scope_key == b.scope_key
            && c.actor_handle == b.actor_handle
            && c.status == b.status)
          bans
          (λ c m.
            elim (Bool-cases (
              c.scope == b.scope
              && c.scope_key == b.scope_key
              && c.actor_handle == b.actor_handle)) [
                | inl e ↦ absurd (
                    free c m (record {
                      same_scope = ground arith;
                      same_key = ground arith;
                      same_handle = ground arith;
                    }))
                | inr e ↦ ground arith
              ]) in
      rw clear refl

  pub IsSingle-insert : IsSingle (bans ++ b ∷ [])
  IsSingle-insert = record {
    keys =
        Distinct-concat (λ (c : Ban). c.id) bans b h.keys
          (λ c m e. ground (arith, next_id-fresh (λ (c : Ban). c.id) bans c m));
    single = λ x y hx hy l. elim (In-concat bans b x hx) [
      | inl ox ↦ elim (In-concat bans b y hy) [
        | inl oy ↦ h.single x y ox oy l
        | inr ey ↦ absurd (free x ox (subst (λ c. SameLane x c) ey l))
      ]
      | inr ex ↦ elim (In-concat bans b y hy) [
        | inl oy ↦ absurd (
            free y oy (record {
              same_scope = sym l.same_scope ∙ ap (λ (c : Ban). c.scope) ex;
              same_key = sym l.same_key ∙ ap (λ (c : Ban). c.scope_key) ex;
              same_handle = sym l.same_handle ∙ ap (λ (c : Ban). c.actor_handle) ex;
            }))
        | inr ey ↦ ap (λ (c : Ban). c.id) (ex ∙ sym ey)
      ]
    ];
  }

pub status_cases : (st : BanStatus) → (st ≡ active) ⊎ (st ≡ inactive)
status_cases active = inl refl
status_cases inactive = inr refl

pub last-In : (bans : List Ban) (b : Ban) → In b (bans ++ b ∷ [])
last-In [] b = inl refl
last-In (c ∷ bans) b = inr (last-In bans b)

module _ (now : ℕ) (r : BanRequest) (bans : List Ban) (h : IsSingle bans) where
  -- In a table where an account has at most one row in a scope, an account without an active ban in
  -- the scope is banned, also where an old ban is on record: the call does not raise, the ban that it
  -- gives back stands in the table as an active one of the account in the scope, and the table still
  -- has at most one row of an account in a scope.
  pub create_bans :
      get_active_ban_by_handle r.community_id r.handle bans ≡ none
      → (a : Activation) × (after : List Ban) × (create_or_reactivate_active_ban now r bans
          ≡ ok (a, after))
        × In a.ban after
        × (is_ban_of r.community_id r.handle active a.ban ≡ true)
        × IsSingle after
  unfolding create_or_reactivate_active_ban get_active_ban_by_handle get_inactive_ban_by_handle
      activate
  create_bans unbanned =
      elim (Option-cases (get_inactive_ban_by_handle r.community_id r.handle bans)) [
        | inl no_old ↦
            let b = new_ban (next_id (λ (c : Ban). c.id) bans) now r in
            let free : (c : Ban) → In c bans → SameLane c b → ⊥ =
              λ c m l. absent c m l.same_scope l.same_key l.same_handle no_old in
            (
              record { ban = b; kind = created; before = none; after = b },
              bans ++ b ∷ [],
              rw no_old rw (flush_insert-accepts bans b refl free h) refl,
              last-In bans b,
              ground arith,
              IsSingle-insert bans b refl free h,
            )
        | inr (b, found) ↦
            let (stored, is_old) =
              In-find (is_ban_of r.community_id r.handle inactive) bans b found in
            let lane : SameLane (reactivate now r b) b = record {
              same_scope = refl;
              same_key = refl;
              same_handle = refl;
            } in
            (
              record {
                ban = reactivate now r b;
                kind = reactivated;
                before = some b;
                after = reactivate now r b;
              },
              after_update bans b (reactivate now r b) stored refl lane h,
              rw found rw (flush_update-accepts bans b (reactivate now r b) stored refl lane h)
                  refl,
              In-update_hit (λ c. c.id == b.id) (λ c. reactivate now r b) bans b stored
                  (==_self b.id),
              ground arith,
              IsSingle-update bans b (reactivate now r b) stored refl lane h,
            )
      ]
    where
      absent :
          (c : Ban)
          → In c bans
          → c.scope ≡ (scope_values r.community_id).0
          → c.scope_key ≡ (scope_values r.community_id).1
          → c.actor_handle ≡ r.handle
          → get_inactive_ban_by_handle r.community_id r.handle bans ≡ none
          → ⊥
      absent c m e1 e2 e3 no_old =
          let not_active =
            In-find-none (is_ban_of r.community_id r.handle active) bans c unbanned m in
          let not_inactive =
            In-find-none (is_ban_of r.community_id r.handle inactive) bans c no_old m in
          elim (status_cases c.status) [ inl e ↦ ground arith | inr e ↦ ground arith ]
