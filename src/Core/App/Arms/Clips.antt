-- ===== src/Core/App/Arms/Clips.antt =====
-- crates/fluxsync-core/src/app.rs, `App::handle`: the arms for copies, received frames and the history.
use package.text.Mathlib.Text.{◌==◌ as str_eq}
use fluxsync.Base.{
  ℕ, ◌+◌, ◌%◌, u64_range, Bool, true, false, not, ◌&&◌, [], String, none, some, if◌then◌else◌,
  retain,
}
use fluxsync.Base.Text.{trim}
use fluxsync.Core.App.{App, hex32}
use fluxsync.Core.App.Canon.{content_digest}
use fluxsync.Core.App.History.{push_history}
use fluxsync.Core.Clock.{WallClock}
use fluxsync.Core.Clock
use fluxsync.Core.Dedup.{DedupRing, observe_clipboard, contains}
use fluxsync.Core.Events.{Bytes, LocalCopy, ReceivedFrame}
use fluxsync.Core.Policy.{Decision, pass, defer, block, inbound, decide}
use fluxsync.Core.State.{State, HistoryItem, local, remote}
use fluxsync.Core.App.Arms.Outcome.{Prepared, changed}

unfoldable pub local_row : LocalCopy → WallClock → HistoryItem
unfolding trim hex32
local_row c wall = record {
  kind = c.kind;
  preview = trim c.preview;
  time = wall.hhmm;
  source = local;
  sensitive = c.sensitive;
  lamport = c.lamport;
  hash = hex32 c.hash;
  favorite = false;
  resync = false;
  source_peer_id = none;
  created_ms = wall.unix_millis;
}

unfoldable pub on_local_change : App → LocalCopy → WallClock → Prepared
on_local_change app c wall =
    let (ring, fresh) = observe_clipboard app.dedup c.hash wall.unix_millis in
    let seen = record app { clock = Clock.observe app.clock c.lamport; dedup = ring } in
    if not fresh
    then record {
      app = seen;
      suppress_action = true;
      suppress_resync_apply = false;
      pending_dropped = [];
    }
    else changed (if not c.sensitive then push_history seen (local_row c wall) else seen)

unfoldable pub remote_row : ReceivedFrame → WallClock → HistoryItem
unfolding trim hex32
remote_row f wall = record {
  kind = f.kind;
  preview = trim f.preview;
  time = wall.hhmm;
  source = remote;
  sensitive = f.sensitive;
  lamport = f.lamport;
  hash = hex32 f.hash;
  favorite = false;
  resync = f.resync;
  source_peer_id = some (hex32 f.peer_id);
  created_ms = wall.unix_millis;
}

abbrev pub is_pass : Decision → Bool
is_pass pass = true
is_pass defer = false
is_pass block = false

unfoldable pub record_frame : App → ReceivedFrame → WallClock → App
unfolding remote_row
record_frame app f wall =
    if not f.sensitive && is_pass (decide app.config.firewall f.kind f.sensitive inbound)
    then push_history app (remote_row f wall)
    else app

-- The ring after a frame whose computed digest is given, and whether the frame is a duplicate. A
-- resync of content that the ring holds is one, and leaves the ring alone.
unfoldable pub dedup_frame : DedupRing → ReceivedFrame → ℕ → ℕ → DedupRing × Bool
dedup_frame ring f computed now =
    let (next, fresh) = observe_clipboard ring computed now in
    if f.resync && contains ring computed then (ring, true) else (next, not fresh)

unfoldable pub on_frame : (Bytes → ℕ) → App → ReceivedFrame → WallClock → Prepared
on_frame blake3 app f wall =
    let computed = content_digest blake3 f.kind f.payload in
    let (ring, duplicate) = dedup_frame app.dedup f computed wall.unix_millis in
    let seen = record app { clock = Clock.observe app.clock f.lamport; dedup = ring } in
    record {
      app = if duplicate then seen else record_frame seen f wall;
      suppress_action = duplicate;
      suppress_resync_apply = f.resync;
      pending_dropped = [];
    }

unfoldable pub set_favorite_row : String → Bool → HistoryItem → HistoryItem
set_favorite_row hash favorite h =
    if str_eq h.hash hash then record h { favorite = favorite } else h

unfoldable pub on_clear_history : State → Bool → State
on_clear_history s include_favorites = record s {
  history = if include_favorites then [] else retain (λ h. h.favorite) s.history;
  vault_wipe_gen = (s.vault_wipe_gen + 1) % u64_range;
}
