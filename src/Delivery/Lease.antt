-- ===== src/Delivery/Lease.antt =====
-- src/models.py: what the columns of a delivery row have to do with one another.
use discord_fediverse_bridge.Base.{◌≡◌, is_some, ◌==◌}
use discord_fediverse_bridge.Delivery.{sending, status_eq, Delivery}
use discord_fediverse_bridge.Delivery.Diagnostics.{IsBounded}

-- A row has a token and a claim time exactly while it is sending, and its error fits its column.
pub record IsLeased (d : Delivery) : Type 0 where
  pub token : is_some d.claim_token ≡ (d.status == sending)
  pub time : is_some d.claimed_at ≡ (d.status == sending)
  pub error : IsBounded d.last_error
