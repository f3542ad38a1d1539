-- ===== src/Core/App/Arms/Outcome.antt =====
-- crates/fluxsync-core/src/app.rs, `App::handle`: what an arm of its first match leaves.
use fluxsync.Base.{ℕ, Bool, false, List, []}
use fluxsync.Core.App.{App}

-- What an arm leaves: the app, and the local variables of `handle` that are read later.
pub record Prepared : Type 0 where
  pub app : App
  pub suppress_action : Bool
  pub suppress_resync_apply : Bool
  pub pending_dropped : List ℕ

abbrev pub changed : App → Prepared
changed app = record {
  app = app;
  suppress_action = false;
  suppress_resync_apply = false;
  pending_dropped = [];
}
