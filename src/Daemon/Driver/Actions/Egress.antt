-- ===== src/Daemon/Driver/Actions/Egress.antt =====
-- Where an item of this device goes.
use fluxsync.Base.{ℕ, Bool, true, not, ◌&&◌}
use fluxsync.Base.BTree
use fluxsync.Base.BTree.{nat_ord}
use fluxsync.Daemon.Driver.Shared.{Shared, Effect, sent, accepts_kind, in_set}
use fluxsync.Daemon.Transport.{linked_peer_ids}
use fluxsync.Proto.Types.{Kind}

module _ {T : Type 0} where
  abbrev pub may_send : Shared T → Kind → ℕ → Bool
  may_send sh kind p =
      accepts_kind sh.peer_meta p kind
      && (not (BTree.contains_key p sh.pending_pairs) && in_set p (linked_peer_ids sh.transport))

  abbrev pub goes_to_confirmed : Shared T → Kind → Effect → Bool
  goes_to_confirmed sh kind (sent p bytes) = may_send sh kind p
  goes_to_confirmed sh kind _ = true
