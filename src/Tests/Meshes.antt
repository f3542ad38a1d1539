-- ===== src/Tests/Meshes.antt =====
-- Three devices in a mesh.
use fluxsync.Base.{◌≡◌, true, [], ◌∷◌}
use fluxsync.Core.App.{App, new_with_device, new}
use fluxsync.Core.App.Mesh.{ingest_remote, dropped}
use fluxsync.Core.App.Mesh.Laws.{forwards, ingest_remote_once}
use fluxsync.Core.Fsm.{linked, handshaking}
use fluxsync.Core.Id.{EventId}
use fluxsync.Core.Seen
use fluxsync.Tests.Fixtures.{fresh_app}

-- Devices 2 and 3 are linked, device 4 is still shaking hands.
abbrev mesh : App
mesh = record fresh_app {
  links =
      (2, record { phase = linked })
      ∷ (3, record { phase = linked })
      ∷ (4, record { phase = handshaking })
      ∷ [];
}

abbrev item : EventId
item = record { origin = 8; seq = 0 }

ingest_remote_once_example :
    let (next, verdict) = ingest_remote mesh 2 item in
    (forwards verdict 3 ≡ true) × (ingest_remote next 4 item ≡ (next, dropped))
unfolding new_with_device new Seen.new Seen.contains
ingest_remote_once_example = ingest_remote_once mesh 2 item 3 4
