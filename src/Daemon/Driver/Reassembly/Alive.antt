-- ===== src/Daemon/Driver/Reassembly/Alive.antt =====
-- crates/fluxsyncd/src/driver/inbound.rs: what the tick of the cleanup leaves of a transfer.
use fluxsync.Base.{ℕ, ◌+◌, ◌≤◌, ◌<◌, ◌≡◌, refl, [], ◌∷◌, Option, none, some, arith, OnSome}
use fluxsync.Base.BTree
use fluxsync.Base.BTree.{nat_ord}
use fluxsync.Daemon.Driver.Reassembly.{Reassembly, ReassemblyMap, with_header, with_chunk, cleanup}
use fluxsync.Proto.Msg.{ClipboardItem, Chunk}

-- The entry was made at `start` or later, and `last` or later a message of it has come.
abbrev pub IsRecent : ℕ → ℕ → Reassembly → Type 0
IsRecent start last r = (start ≤ r.first_seen) × (last ≤ r.last_update)

pub header-IsRecent :
    (peer : ℕ) (item : ClipboardItem) (start last now : ℕ) (o : Option Reassembly)
    → start ≤ now
    → OnSome (IsRecent start last) o
    → IsRecent start now (with_header peer item now o)
unfolding with_header
header-IsRecent peer item start last now none le h = (le, omega arith)
header-IsRecent peer item start last now (some r) le h = (h.0, omega arith)

pub chunk-IsRecent :
    (peer : ℕ) (c : Chunk) (start last now : ℕ) (o : Option Reassembly)
    → start ≤ now
    → OnSome (IsRecent start last) o
    → IsRecent start now (with_chunk peer c now o)
unfolding with_chunk
chunk-IsRecent peer c start last now none le h = (le, omega arith)
chunk-IsRecent peer c start last now (some r) le h = (h.0, omega arith)

-- A tick leaves a recent entry, and makes none.
pub get-cleanup :
    (start last now key : ℕ) (m : ReassemblyMap)
    → now < start + 60000
    → now < last + 5000
    → OnSome (IsRecent start last) (BTree.get key m)
    → BTree.get key (cleanup now m) ≡ BTree.get key m
unfolding cleanup
get-cleanup start last now key [] young busy h = refl
get-cleanup start last now key ((j, r) ∷ m) young busy h =
    ground (arith, get-cleanup start last now key m young busy)
