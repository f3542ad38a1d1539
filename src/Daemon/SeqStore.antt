-- ===== src/Daemon/SeqStore.antt =====
-- crates/fluxsyncd/src/seq_store.rs: the horizon of outgoing sequence numbers. A file that is missing
-- or does not parse is `none`; which of the writes of a call succeed is an argument of the call.
pub mod Laws
use fluxsync.Base.{ℕ, Bool, true, false, Option, none, some, ltb, saturating_add, if◌then◌else◌}

abbrev pub reserve : ℕ
reserve = 1000

-- `event_seq.json` and `event_seq.json.bak`.
pub record Disk : Type 0 where
  pub main : Option ℕ
  pub bak : Option ℕ

pub record SeqStore : Type 0 where
  pub horizon : ℕ

-- What comes of `ensure_dir` and of the two atomic writes: one that fails leaves the old file.
pub record Writes : Type 0 where
  pub dir_ok : Bool
  pub bak_ok : Bool
  pub main_ok : Bool

-- main, then `.bak`, then 0
unfoldable pub read_horizon : Disk → ℕ
read_horizon d = or_else d.main (or_else d.bak 0)
  where
    or_else : Option ℕ → ℕ → ℕ
    or_else none n = n
    or_else (some h) n = h

-- The disk and the store after `persist`, and whether it is `Ok`.
unfoldable pub persist : Disk → SeqStore → Writes → ℕ → Disk × SeqStore × Bool
persist d s w new_horizon =
    let rotated = if w.bak_ok then record d { bak = some s.horizon } else d in
    if w.dir_ok
    then (if w.main_ok
        then (record rotated { main = some new_horizon }, record { horizon = new_horizon }, true)
        else (rotated, s, false))
    else (d, s, false)

-- The first number of the counter, the disk and the store.
unfoldable pub load : Disk → Writes → ℕ × Disk × SeqStore
load d w =
    let initial = read_horizon d in
    let (disk, store, written) =
      persist d (record { horizon = initial }) w (saturating_add initial reserve) in
    (initial, disk, store)

unfoldable pub advance : Disk → SeqStore → Writes → ℕ → Disk × SeqStore × Bool
advance d s w current =
    if ltb current s.horizon then (d, s, true) else persist d s w (saturating_add current reserve)
