-- ===== src/Stcp/Calls/Close.antt =====
-- `myclose` on a listening socket with a connection that is not established yet.
use computer_networks.Prelude.{ℕ, ◌≡◌, some, true, false}
use computer_networks.Stcp.World.{Context, World}

-- A connection whose transport thread runs and has not announced it to the application.
pub record IsUnfinished (ctx : Context) (listen_sd : ℕ) : Type 0 where
  pub started : ctx.transport_thread_started ≡ true
  pub unannounced : ctx.blocking ≡ true
  pub passive : ctx.is_active ≡ false
  pub connects : ctx.listening ≡ false
  pub accepted_by : ctx.listen_sd ≡ some listen_sd
