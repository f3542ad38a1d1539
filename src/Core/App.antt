-- ===== src/Core/App.antt =====
-- crates/fluxsync-core/src/app.rs: the object that the daemon drives, its parts that are read and
-- set from outside, and hex digests. `handle` and what it calls are in the children.
pub mod Canon
pub mod History
pub mod Pending
pub mod Arms
pub mod Handle
pub mod Mesh
pub mod Restore
pub mod Rows
pub mod Reach
use Prim.Native.String.{len, ◌++◌ as concat}
use fluxsync.Base.{
  ℕ, zero, suc, ◌+◌, ◌*◌, ◌/◌, ◌%◌, Bool, true, false, ◌&&◌, ◌||◌, not, List, [], ◌∷◌, String,
  Option, none, some, ltb, leb, ◌==◌, if◌then◌else◌, is_empty,
}
use fluxsync.Base.Text.{trim, any_char, is_control, hex_digit, is_empty as is_empty_text}
use fluxsync.Base.BTree
use fluxsync.Base.BTree.{nat_ord}
use fluxsync.Proto.Types.{Kind}
use fluxsync.Core.Id.{DeviceId, EventId, zero_id}
use fluxsync.Core.Clock.{LamportClock}
use fluxsync.Core.Clock
use fluxsync.Core.Dedup.{DedupRing, dedup_capacity}
use fluxsync.Core.Dedup
use fluxsync.Core.Error.{Result, ok, err, invalid_device_name}
use fluxsync.Core.Events.{Bytes}
use fluxsync.Core.Fsm.{Phase, idle}
use fluxsync.Core.Policy.{Direction, FirewallPolicy}
use fluxsync.Core.Seen.{SeenSet, seen_capacity}
use fluxsync.Core.Seen
use fluxsync.Core.State.{State, Config, ConnectionMetrics, initial}

pub record PendingPayload : Type 0 where
  pub direction : Direction
  pub kind : Kind
  pub payload : Bytes
  pub sensitive : Bool
  pub hash : ℕ
  pub peer_id : Option ℕ

abbrev pub history_soft_cap : ℕ
history_soft_cap = 50

unfoldable pub is_bidi_or_format_char : ℕ → Bool
is_bidi_or_format_char c =
    (leb 0x200B c && leb c 0x200F)
    || (leb 0x202A c && leb c 0x202E)
    || (leb 0x2066 c && leb c 0x2069)
    || c == 0xFEFF

pub record PeerLink : Type 0 where
  pub phase : Phase

abbrev pub new_link : PeerLink
new_link = record { phase = idle }

-- `pending_payloads` and `links` are `BTreeMap`s, `other_linked_peers` is a `BTreeSet`, whose
-- values are units.
pub record App : Type 0 where
  pub phase : Phase
  pub state : State
  pub clock : LamportClock
  pub dedup : DedupRing
  pub config : Config
  pub last_paired_peer_id : ℕ
  pub self_device : DeviceId
  pub local_seq : ℕ
  pub seen : SeenSet
  pub links : List (DeviceId × PeerLink)
  pub pending_payloads : List (String × PendingPayload)
  pub other_linked_peers : List (ℕ × Unit {0})

unfoldable pub new : Config → App
unfolding initial Dedup.new Seen.new
new config = record {
  phase = idle;
  state = initial config;
  clock = Clock.new;
  dedup = Dedup.new dedup_capacity;
  config = config;
  last_paired_peer_id = 0;
  self_device = zero_id;
  local_seq = 0;
  seen = Seen.new seen_capacity;
  links = [];
  pending_payloads = [];
  other_linked_peers = [];
}

unfoldable pub new_with_device : Config → DeviceId → App
unfolding new
new_with_device config self_device =
    let app = new config in record app { self_device = self_device }

unfoldable pub set_metrics : App → Option ConnectionMetrics → App
set_metrics app m = let s = app.state in record app { state = record s { metrics = m } }

unfoldable pub set_latency : App → ℕ → App
set_latency app ms = let s = app.state in record app { state = record s { link_latency_ms = ms } }

abbrev pub max_hello_name : ℕ
max_hello_name = 256

unfoldable pub rename : App → String → App
rename app name =
    let s = app.state in
    let c = app.config in
    record app {
      config = record c { peer_name_self = name };
      state = record s { device_name = name };
    }

unfoldable pub set_device_name : App → String → Result App
unfolding rename is_bidi_or_format_char
set_device_name app name =
    let trimmed = trim name in
    if is_empty_text trimmed
    then err (invalid_device_name "name is empty")
    else if ltb max_hello_name (len trimmed)
    then err (invalid_device_name "name exceeds 256 bytes")
    else if any_char (λ c. is_control c || is_bidi_or_format_char c) trimmed
    then err (invalid_device_name "name contains non-printable or bidi/format characters")
    else ok (rename app trimmed)

unfoldable pub set_firewall : App → FirewallPolicy → App
set_firewall app policy =
    let s = app.state in
    let c = app.config in
    record app { config = record c { firewall = policy }; state = record s { firewall = policy } }

insert_all : List ℕ → List (ℕ × Unit {0}) → List (ℕ × Unit {0})
insert_all [] m = m
insert_all (p ∷ ps) m = insert_all ps (BTree.insert p tt m)

unfoldable pub set_other_linked_peers : App → List ℕ → App
unfolding insert_all
set_other_linked_peers app peers = record app { other_linked_peers = insert_all peers [] }

unfoldable pub other_peers_linked : App → Bool
other_peers_linked app = not (is_empty app.other_linked_peers)

-- The two digits of each byte, the most significant byte first.
hex_bytes : ℕ → ℕ → String
unfolding hex_digit
hex_bytes zero n = ""
hex_bytes (suc k) n =
    concat (hex_bytes k (n / 256)) (concat (hex_digit (n % 256 / 16)) (hex_digit (n % 16)))

unfoldable pub hex32 : ℕ → String
unfolding hex_bytes
hex32 n = hex_bytes 32 n
