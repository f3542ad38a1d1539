-- ===== src/Daemon/RateLimit/Laws.antt =====
-- How many handshakes a source gets.
use fluxsync.Base.{
  ℕ, ◌+◌, ◌-◌, min, Bool, true, ◌&&◌, List, [], ◌∷◌, Option, none, some, if◌then◌else◌, leb, ◌==◌,
}
use fluxsync.Base.BTree
use fluxsync.Base.BTree.{nat_ord}
use fluxsync.Daemon.RateLimit.{
  Bucket, Buckets, refill, try_consume, sweep, has_room, bucket_or_new, check_at,
}

-- The parts that a source has at an instant; one that is not in the table has a full bucket.
abbrev parts : Option Bucket → ℕ → ℕ
parts none now = 30000
parts (some b) now = min (b.tokens + (now - b.last_refill)) 30000

abbrev available : ℕ → Buckets → ℕ → ℕ
available src m now = parts (BTree.get src m) now

-- The requests of a run: who comes, and when.
abbrev pub Requests : Type 0
Requests = List (ℕ × ℕ)

abbrev pub last_at : ℕ → Requests → ℕ
last_at now [] = now
last_at now ((who, at) ∷ rs) = last_at at rs

-- In the order of time.
abbrev pub is_ordered : ℕ → Requests → Bool
is_ordered now [] = true
is_ordered now ((who, at) ∷ rs) = leb now at && is_ordered at rs

-- No bucket is turned out for want of room.
abbrev pub is_roomy : Buckets → Requests → Bool
is_roomy m [] = true
is_roomy m ((who, at) ∷ rs) = has_room who (sweep at m) && is_roomy (check_at who at m).0 rs

abbrev pub granted : ℕ → Buckets → Requests → ℕ
granted src m [] = 0
granted src m ((who, at) ∷ rs) =
    let (next, is_granted) = check_at who at m in
    (if (who == src) && is_granted then 1 else 0) + granted src next rs

-- A request at a table that has room for it.
abbrev serve : ℕ → ℕ → Buckets → Buckets × Bool
serve who at m =
    let (b, is_granted) = try_consume (refill (bucket_or_new at (BTree.get who m)) at) in
    (BTree.insert who b m, is_granted)
