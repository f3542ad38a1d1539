-- ===== src/Tests/Dispatch.antt =====
-- What frames of a peer make the daemon do.
use package.text.Mathlib.Text.{◌==◌ as str_eq}
use fluxsync.Base.{
  ℕ, ◌≤◌, ◌≡◌, refl, true, [], ◌∷◌, String, Option, none, some, All, arith, length, false,
  if◌then◌else◌, any,
}
use fluxsync.Base.BTree
use fluxsync.Base.BTree.{nat_ord}
use fluxsync.Core.Events.{Bytes}
use fluxsync.Core.State.{initial}
use fluxsync.Core.App.{new_with_device}
use fluxsync.Daemon.Driver.Frames.{Rgba, verify_content_hash}
use fluxsync.Daemon.Driver.Inbound.{is_confirmed, dispatch_inbound_frame}
use fluxsync.Daemon.Driver.Inbound.Vouched.{IsVouched, dispatch-IsVouched}
use fluxsync.Daemon.Driver.Inbound.Items.{whole, take_in}
use fluxsync.Daemon.Driver.Inbound.Relay.{IsRightful, take_in-IsRightful}
use fluxsync.Daemon.Driver.Inbound.Once.{Comings, genuine, take_all, take_in_once}
use fluxsync.Core.Seen.{observe, contains}
use fluxsync.Core.Dedup.{push_back}
use fluxsync.Daemon.Driver.Reassembly.{CompleteItem}
use fluxsync.Daemon.Driver.Shared.{ack_source}
use fluxsync.Daemon.Driver.Actions.{Sender, sync_security_wipe_if_needed}
use fluxsync.Daemon.Driver.Actions.Wiped.{IsSilent, wiped-IsSilent}
use fluxsync.Daemon.Driver.Liveness.{beat_primary}
use fluxsync.Daemon.Driver.Liveness.Silence.{is_loss_of, silence_ends}
use fluxsync.Daemon.SeqStore.{Writes}
use fluxsync.Daemon.Driver.Pulls.{pulls_of, track_pending_pulls}
use fluxsync.Daemon.Driver.Pulls.Tracked.{is_recognised, pulls_recognised}
use fluxsync.Daemon.Driver.Shared.{World, Shared, TrustedPeer}
use fluxsync.Daemon.Outbox
use fluxsync.Proto.Msg.{Msg, Nak, ResyncPull, clipboard_item}
use fluxsync.Proto.Types.{Kind, text, file}
use fluxsync.Tests.Fixtures.{config, fresh_app}
use fluxsync.Tests.Sessions.{tagging}
use fluxsync.Tests.Transfers.{summed, waiting}
use fluxsync.Tests.Transports.{seconded, session}
use fluxsync.Tests.Wire.{goodbyes}

-- Two texts are hashes.
abbrev unhex : String → Option ℕ
unhex s = if str_eq s "a" then some 10 else if str_eq s "b" then some 11 else none

abbrev no_image : Bytes → Option Rgba
no_image b = none

abbrev labelled : Kind → Bytes → String
labelled k b = "item"

abbrev world : World
world = record {
  blake3 = summed;
  cbor = goodbyes;
  decode_png = no_image;
  unhex = unhex;
  preview_label = labelled;
  now = 100;
  now_ms = 100;
}

abbrev friend : TrustedPeer
friend = record { static_pub = 21; name = "phone" }

-- Peer 9 is trusted and linked.
abbrev daemon : Shared ℕ
daemon = record {
  has_keystore = true;
  state = initial config;
  transport = seconded;
  trusted = (9, friend) ∷ [];
  pending_pairs = [];
  deferred_sas_confirm = [];
  disc_cache = [];
  backoff = [];
  peer_meta = [];
  inflight = [];
  reassembly = [];
  mesh_seen = record { capacity = 4; inner = [] };
  echo_ack_sent = [];
  outbox = Outbox.new;
  outbox_stage = [];
  pending_pulls = [];
  cleared_tombstone = [];
  effects = [];
}

abbrev note : Msg
note = clipboard_item (record {
  lamport = 3;
  wall_time_ms = 0;
  hash = 209;
  kind = text;
  sensitive = false;
  origin = 9;
  event_seq = 1;
  payload = 104 ∷ 105 ∷ [];
})

dispatch-IsVouched_example :
    All
      (IsVouched world 9 (is_confirmed daemon 9))
      (dispatch_inbound_frame tagging world 9 note daemon).effects
dispatch-IsVouched_example = dispatch-IsVouched tagging world 9 note daemon refl

pulls_recognised_example :
    let (noted, asked) = track_pending_pulls unhex [] 9 ("a" ∷ "no" ∷ "b" ∷ []) 100 in
    All (λ hex. is_recognised noted 9 200 (unhex hex) ≡ true) asked
    × (length (pulls_of (BTree.get 9 noted)) ≤ 128)
pulls_recognised_example =
    pulls_recognised unhex [] 9 ("a" ∷ "no" ∷ "b" ∷ []) 100 200 (omega arith) (omega arith)

-- A file as it came from peer 9, and as peer 7 brings it.
abbrev came : CompleteItem
came = whole 9 (record {
  lamport = 3;
  wall_time_ms = 0;
  hash = 209;
  kind = file;
  sensitive = false;
  origin = 9;
  event_seq = 1;
  payload = 104 ∷ 105 ∷ [];
})

abbrev again : CompleteItem
again = record came { source = 7 }

take_in-IsRightful_example :
    All (IsRightful world daemon came) (take_in tagging world came [] daemon).effects
take_in-IsRightful_example = take_in-IsRightful tagging world came [] daemon refl

-- Another file, of another device.
abbrev other_file : CompleteItem
other_file = record came { origin = 8; event_seq = 4 }

abbrev between : Comings
between = (world, other_file, []) ∷ (world, again, []) ∷ []

take_in_once_example :
    let now = take_all tagging (take_in tagging world came [] daemon) between in
    take_in tagging world again [] now
    ≡ (if genuine world again then ack_source tagging world 7 209 now else now)
take_in_once_example =
    take_in_once tagging world world came again [] [] between daemon refl refl
      (unfold verify_content_hash in refl) (unfold observe in unfold contains in refl)
      (unfold observe in
        unfold contains in unfold push_back in unfold verify_content_hash in omega arith)

abbrev sender : Sender ℕ
sender = record {
  app = fresh_app;
  store = none;
  disk = record { main = none; bak = none };
  shared = daemon;
}

abbrev all_fail : Writes
all_fail = record { dir_ok = false; bak_ok = false; main_ok = false }

abbrev pull : ResyncPull
pull = record { hashes = "a" ∷ [] }

abbrev gap : Nak
gap = record { item_id = 209; want_header = true; missing = 0 ∷ [] }

abbrev busy : Shared ℕ
busy = record daemon { inflight = (209, waiting) ∷ [] }

wiped-IsSilent_example :
    IsSilent tagging world 9 pull gap (sync_security_wipe_if_needed fresh_app 3 busy).1
wiped-IsSilent_example =
    wiped-IsSilent tagging world fresh_app 3 9 pull gap busy (unfold new_with_device in refl)

-- Peer 5 is the primary one, and was heard at 100.
abbrev quiet_daemon : Shared ℕ
quiet_daemon = record daemon {
  transport = record seconded {
    conn = record seconded.conn { session = some session; peer_addr = some 41 };
  };
}

abbrev world_at : ℕ → World
world_at t = record world { now_ms = t }

silence_ends_example :
    let (n, once) = beat_primary tagging (world_at 4000) 80 true 0 quiet_daemon in
    let (m, twice) = beat_primary tagging (world_at 7000) 80 true n once in
    (n ≡ 1)
    × (m ≡ 2)
    × (any (is_loss_of 5) (beat_primary tagging (world_at 10000) 80 true m twice).1.effects ≡ true)
silence_ends_example =
    silence_ends tagging (world_at 4000) (world_at 7000) (world_at 10000) 80 true 5 quiet_daemon
      refl refl (omega arith) (omega arith) (omega arith)
