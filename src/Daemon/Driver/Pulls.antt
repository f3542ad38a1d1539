-- ===== src/Daemon/Driver/Pulls.antt =====
-- crates/fluxsyncd/src/driver/shared.rs and resync.rs: what was asked of peers after a reconnect,
-- what was cleared on purpose, and what is offered and asked for. `unhex` reads the 32 bytes of a
-- hex text; it is the hex library's.
pub mod Tracked
use package.text.Mathlib.Text.{◌==◌ as str_eq}
use fluxsync.Base.{
  ℕ, zero, suc, ◌-◌, Bool, false, not, ◌&&◌, List, [], ◌∷◌, ◌++◌, map, String, Option, none, some,
  ltb, leb, ◌==◌, if◌then◌else◌, is_empty, is_some, any, length, retain, take, pop_front,
}
use fluxsync.Base.BTree
use fluxsync.Base.BTree.{nat_ord}
use fluxsync.Core.App.{hex32}
use fluxsync.Core.Dedup.{echo_window_ms}
use fluxsync.Daemon.Outbox.{max_age_ms}
use fluxsync.Proto.Codec.{max_resync_hashes}
use fluxsync.Proto.Msg.{ResyncOffer}

-- The hashes with their instants.
abbrev pub Instants : Type 0
Instants = List (ℕ × ℕ)

abbrev pub ClearedTombstone : Type 0
ClearedTombstone = Instants

abbrev pub max_cleared_tombstone : ℕ
max_cleared_tombstone = 4096

abbrev pub insert_all : List ℕ → ℕ → Instants → Instants
insert_all [] now m = m
insert_all (h ∷ hs) now m = insert_all hs now (BTree.insert h now m)

abbrev pub earlier : ℕ → ℕ → Option (ℕ × ℕ) → Option (ℕ × ℕ)
earlier k t none = some (k, t)
earlier k t (some (j, u)) = if leb t u then some (k, t) else some (j, u)

abbrev pub earliest : Instants → Option (ℕ × ℕ)
earliest [] = none
earliest ((k, t) ∷ m) = earlier k t (earliest m)

abbrev pub forget_one : Option (ℕ × ℕ) → Instants → Instants
forget_one none m = m
forget_one (some (k, t)) m = BTree.remove k m

-- The loop that evicts, on fuel: each round takes one entry off, so that the number of them is
-- enough.
unfoldable pub evict_to_cap : ℕ → Instants → Instants
evict_to_cap zero m = m
evict_to_cap (suc fuel) m =
    let next = evict_to_cap fuel (forget_one (earliest m) m) in
    if ltb max_cleared_tombstone (length m) then next else m

unfoldable pub mark_cleared : ClearedTombstone → List ℕ → ℕ → ClearedTombstone
unfolding evict_to_cap
mark_cleared m [] now = m
mark_cleared m (h ∷ hs) now =
    let live = retain (λ e. not (ltb max_age_ms (now - e.1))) m in
    let marked = insert_all (h ∷ hs) now live in evict_to_cap (length marked) marked

unfoldable pub cleared_hex_snapshot : ClearedTombstone → ℕ → List String
cleared_hex_snapshot m now = map (λ e. hex32 e.0) (retain (λ e. not (ltb max_age_ms (now - e.1))) m)

abbrev pub resync_pull_timeout_ms : ℕ
resync_pull_timeout_ms = 60000

abbrev pub max_pending_pulls_per_peer : ℕ
max_pending_pulls_per_peer = 128

abbrev pub PendingPulls : Type 0
PendingPulls = List (ℕ × Instants)

abbrev pub is_fresh : ℕ → ℕ × ℕ → Bool
is_fresh now e = ltb (now - e.1) resync_pull_timeout_ms

abbrev pub pulls_of : Option Instants → Instants
pulls_of none = []
pulls_of (some m) = m

-- An entry of a peer without hashes goes.
abbrev pub store_pulls : ℕ → Instants → PendingPulls → PendingPulls
store_pulls peer m pulls = if is_empty m then BTree.remove peer pulls else BTree.insert peer m pulls

-- `in_flight_pull_hashes`, repeated hashes and their order apart.
unfoldable pub in_flight_pull_hashes : PendingPulls → ℕ → List String
in_flight_pull_hashes [] now = []
in_flight_pull_hashes ((peer, m) ∷ pulls) now =
    map (λ e. hex32 e.0) (retain (is_fresh now) m) ++ in_flight_pull_hashes pulls now

abbrev pub admit_pull : ℕ → String → Option ℕ → Instants × List String → Instants × List String
admit_pull now hex none rest = rest
admit_pull now hex (some hash) (m, tracked) = (BTree.insert hash now m, tracked ++ hex ∷ [])

-- The loop of `track_pending_pulls`.
abbrev pub admit_pulls :
    (String → Option ℕ) → ℕ → List String → Instants × List String → Instants × List String
admit_pulls unhex now [] found = found
admit_pulls unhex now (h ∷ hs) found =
    let next = admit_pulls unhex now hs (admit_pull now h (unhex h) found) in
    if leb max_pending_pulls_per_peer (length found.0) then found else next

unfoldable pub track_pending_pulls :
    (String → Option ℕ) → PendingPulls → ℕ → List String → ℕ → PendingPulls × List String
track_pending_pulls unhex pulls peer missing now =
    let swept = retain (is_fresh now) (pulls_of (BTree.get peer pulls)) in
    let (m, tracked) = admit_pulls unhex now missing (swept, []) in
    (store_pulls peer m pulls, tracked)

abbrev pub taken : PendingPulls → ℕ → ℕ → ℕ → Option Instants → PendingPulls × Bool
taken pulls peer hash now none = (pulls, false)
taken pulls peer hash now (some m) =
    let swept = retain (is_fresh now) m in
    (store_pulls peer (BTree.remove hash swept) pulls, BTree.contains_key hash swept)

unfoldable pub take_pending_pull : PendingPulls → ℕ → ℕ → ℕ → PendingPulls × Bool
take_pending_pull pulls peer hash now = taken pulls peer hash now (BTree.get peer pulls)

-- What this device wrote to the clipboard of its system lately, the oldest first.
abbrev pub RecentWrites : Type 0
RecentWrites = Instants

abbrev pub recent_writes_cap : ℕ
recent_writes_cap = 10

unfoldable pub record_write : RecentWrites → ℕ → ℕ → RecentWrites
record_write w hash now =
    let grown = w ++ (hash, now) ∷ [] in
    if ltb recent_writes_cap (length grown) then pop_front grown else grown

unfoldable pub is_echo : RecentWrites → ℕ → ℕ → Bool
is_echo w hash now = any (λ e. e.0 == hash && ltb (now - e.1) echo_window_ms) w

unfoldable pub build_resync_offer : List ℕ → ResyncOffer
build_resync_offer hashes = record { hashes = map hex32 hashes }

abbrev pub lists : List String → String → Bool
lists hs h = any (λ x. str_eq x h) hs

unfoldable pub missing_resync_hashes :
    List String → List String → List String → List String → List String → List String
missing_resync_hashes offered history outbox cleared pending = take max_resync_hashes (
    retain
      (λ h.
        not (lists history h)
        && not (lists outbox h)
        && not (lists cleared h)
        && not (lists pending h))
      offered)
