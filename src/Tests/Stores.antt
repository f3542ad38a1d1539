-- ===== src/Tests/Stores.antt =====
-- Sequence numbers over a restart, and one item in the resend buffer.
use fluxsync.Base.{◌≡◌, refl, true, List, [], ◌∷◌, some, none, arith}
use fluxsync.Base.BTree
use fluxsync.Base.BTree.{nat_ord}
use fluxsync.Daemon.Outbox.{Entry, Outbox, insert, remove_many, clear_all, max_total_bytes}
use fluxsync.Daemon.Outbox
use fluxsync.Daemon.Outbox.Sync.{IsInSync}
use fluxsync.Daemon.Outbox.Caps.{IsWithinCaps, insert-keeps_IsInSync}
use fluxsync.Daemon.SeqStore.{Disk, Writes, read_horizon}
use fluxsync.Daemon.SeqStore.Laws.{
  IsAscending, Step, issue, restart, boot, numbers, numbers-IsAscending,
}
use fluxsync.Proto.Types.{text}

abbrev blank : Disk
blank = record { main = none; bak = none }

abbrev sound : Writes
sound = record { dir_ok = true; bak_ok = true; main_ok = true }

abbrev lives : List Step
lives = issue sound ∷ issue sound ∷ restart sound ∷ issue sound ∷ []

numbers-IsAscending_example : IsAscending (numbers (boot blank sound) lives)
numbers-IsAscending_example =
    numbers-IsAscending blank sound lives refl (refl, (refl, (refl, (refl, tt))))
      (unfold read_horizon in omega arith)

abbrev note : Entry
note = record { payload = 104 ∷ 105 ∷ []; kind = text; origin = 7; seq = 0; created = 100 }

new-IsInSync : IsInSync Outbox.new
unfolding Outbox.new
new-IsInSync = record { distinct = tt; same = λ h. refl; counted = refl }

insert-keeps_IsInSync_example :
    let next = insert Outbox.new 5 note 200 in
    IsInSync next
    × IsWithinCaps next
    × (BTree.get 5 next.entries ≡ some note)
    × IsInSync (remove_many Outbox.new (5 ∷ []))
    × IsInSync (clear_all Outbox.new)
insert-keeps_IsInSync_example =
    insert-keeps_IsInSync Outbox.new 5 note 200 (5 ∷ []) new-IsInSync
      (unfold Outbox.new in omega arith) (omega arith)
