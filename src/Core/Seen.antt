-- ===== src/Core/Seen.antt =====
-- crates/fluxsync-core/src/dedup.rs: the mesh ring `SeenSet` of recent event ids.
pub mod Laws
use fluxsync.Base.{ℕ, Bool, true, false, List, [], if◌then◌else◌, any}
use fluxsync.Core.Id.{EventId, event_eq}
use fluxsync.Core.Dedup.{push_back}

abbrev pub seen_capacity : ℕ
seen_capacity = 256

pub record SeenSet : Type 0 where
  pub capacity : ℕ
  pub inner : List EventId

unfoldable pub new : ℕ → SeenSet
new capacity = record { capacity = capacity; inner = [] }

unfoldable pub contains : SeenSet → EventId → Bool
contains s id = any (event_eq id) s.inner

unfoldable pub observe : SeenSet → EventId → SeenSet × Bool
unfolding contains push_back
observe s id =
    if contains s id
    then (s, false)
    else (record s { inner = push_back s.capacity s.inner id }, true)
