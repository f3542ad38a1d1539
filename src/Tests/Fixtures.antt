-- ===== src/Tests/Fixtures.antt =====
-- A laptop, a phone and what passes between them.
use fluxsync.Base.{ℕ, ◌+◌, ◌*◌, false, true, List, [], ◌∷◌, none}
use fluxsync.Proto.Types.{text}
use fluxsync.Core.App.{App, new_with_device}
use fluxsync.Core.App.Handle.Sas.{run}
use fluxsync.Core.Clock.{WallClock}
use fluxsync.Core.Events.{
  Bytes, LocalCopy, ReceivedFrame, Event, toggle_on, peer_seen, handshake_ok,
}
use fluxsync.Core.Policy.{default}
use fluxsync.Core.State.{Config, HistoryItem, remote}

-- A digest in the place of blake3: the bytes as the digits of one number.
abbrev pub digest : Bytes → ℕ
digest [] = 1
digest (b ∷ bs) = b + 256 * digest bs

abbrev pub config : Config
config = record {
  peer_name_self = "laptop";
  version = "1";
  build_id = "test";
  cipher = "ChaChaPoly";
  firewall = default;
  mdns_enabled = true;
}

abbrev pub noon : WallClock
noon = record { hhmm = "12:00"; unix_millis = 43200000 }

abbrev pub phone : ℕ
phone = 9

abbrev pub fresh_app : App
fresh_app = new_with_device config 7

abbrev pub linking : List (Event × WallClock)
linking = (toggle_on, noon) ∷ (peer_seen phone "phone", noon) ∷ (handshake_ok, noon) ∷ []

abbrev pub linked_app : App
linked_app = run digest fresh_app linking

abbrev pub hello : ReceivedFrame
hello = record {
  hash = 77;
  kind = text;
  payload = 104 ∷ 105 ∷ [];
  preview = "hi";
  sensitive = false;
  lamport = 3;
  resync = false;
  peer_id = phone;
}

abbrev pub copied : LocalCopy
copied = record {
  hash = 88;
  kind = text;
  payload = 111 ∷ 107 ∷ [];
  preview = "ok";
  sensitive = false;
  lamport = 4;
}

abbrev pub row : HistoryItem
row = record {
  kind = text;
  preview = "hi";
  time = "12:00";
  source = remote;
  sensitive = false;
  lamport = 3;
  hash = "4d";
  favorite = false;
  resync = false;
  source_peer_id = none;
  created_ms = 43200000;
}

abbrev pub pinned_row : HistoryItem
pinned_row = record row { favorite = true }
