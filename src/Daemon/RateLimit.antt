-- ===== src/Daemon/RateLimit.antt =====
-- crates/fluxsyncd/src/rate_limit.rs: the token buckets in front of the responder. The `f64` tokens
-- are counted in whole parts: a 6000th of a token comes in every millisecond, without rounding. The
-- bucket that goes when the table is full is the first of the oldest.
pub mod Laws
use fluxsync.Base.{
  ℕ, ◌+◌, ◌-◌, min, Bool, true, false, not, ◌&&◌, List, [], ◌∷◌, Option, none, some, if◌then◌else◌,
  length, leb, ltb, retain,
}
use fluxsync.Base.BTree
use fluxsync.Base.BTree.{nat_ord}

abbrev pub bucket_capacity : ℕ
bucket_capacity = 5

-- The parts of a token.
abbrev pub token : ℕ
token = 6000

abbrev pub max_tracked_sources : ℕ
max_tracked_sources = 1024

abbrev pub idle_evict : ℕ
idle_evict = 300000

pub record Bucket : Type 0 where
  pub tokens : ℕ
  pub last_refill : ℕ

abbrev pub Buckets : Type 0
Buckets = List (ℕ × Bucket)

abbrev pub new : ℕ → Bucket
new now = record { tokens = 30000; last_refill = now }

unfoldable pub refill : Bucket → ℕ → Bucket
refill b now = record { tokens = min (b.tokens + (now - b.last_refill)) 30000; last_refill = now }

unfoldable pub try_consume : Bucket → Bucket × Bool
try_consume b =
    if leb 6000 b.tokens then (record b { tokens = b.tokens - 6000 }, true) else (b, false)

unfoldable pub sweep : ℕ → Buckets → Buckets
sweep now m = retain (λ e. ltb (now - e.1.last_refill) 300000) m

abbrev pub older : ℕ → ℕ → Option (ℕ × ℕ) → Option (ℕ × ℕ)
older k t none = some (k, t)
older k t (some (j, u)) = if leb t u then some (k, t) else some (j, u)

-- `min_by_key` of the instant of the last refill, with its key.
abbrev pub oldest : Buckets → Option (ℕ × ℕ)
oldest [] = none
oldest ((k, b) ∷ m) = older k b.last_refill (oldest m)

abbrev pub evict : Option (ℕ × ℕ) → Buckets → Buckets
evict none m = m
evict (some (k, t)) m = BTree.remove k m

-- Whether the table takes the bucket of a source as it is.
abbrev pub has_room : ℕ → Buckets → Bool
has_room src m = not (not (BTree.contains_key src m) && leb 1024 (length m))

abbrev pub bucket_or_new : ℕ → Option Bucket → Bucket
bucket_or_new now none = new now
bucket_or_new now (some b) = b

unfoldable pub check_at : ℕ → ℕ → Buckets → Buckets × Bool
unfolding refill try_consume sweep
check_at src now buckets =
    let swept = sweep now buckets in
    let m = if has_room src swept then swept else evict (oldest swept) swept in
    let (b, granted) = try_consume (refill (bucket_or_new now (BTree.get src m)) now) in
    (BTree.insert src b m, granted)
