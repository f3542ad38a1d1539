-- ===== src/Daemon/Driver/Inbound/Pairing.antt =====
-- crates/fluxsyncd/src/driver/inbound.rs: the arms for `PairConfirm` and `PairVerifyStarted`; of
-- crates/fluxsync-crypto/src/fingerprint.rs the words of a session.
use fluxsync.Base.{
  ℕ, zero, suc, ◌+◌, ◌/◌, ◌%◌, Bool, true, false, not, ◌&&◌, ◌||◌, List, [], ◌∷◌, Option, none,
  some, ltb, leb, if◌then◌else◌, is_some_eq, length, retain, take,
}
use fluxsync.Base.BTree
use fluxsync.Base.BTree.{nat_ord}
use fluxsync.Core.Events.{Bytes, sas_pairing_started, sas_peer_confirmed, sas_peer_rejected}
use fluxsync.Core.State.{
  State, SasPhase, idle, showing, peer_confirmed, local_confirmed, confirmed, peer_rejected,
}
use fluxsync.Crypto.Session.{Cipher, from_le_bytes}
use fluxsync.Daemon.Driver.Inbound.Links.{is_primary, fail_over_if, distrust}
use fluxsync.Daemon.Driver.Shared.{
  World, Shared, TrustedPeer, PendingPair, in_set, add_to_set, drop_from_set, peer_has_cap, emit,
  emit_if, forget_meta, send_msg,
}
use fluxsync.Daemon.Transport.{purge_peer, peer_addr_for, session_handshake_hash_for}
use fluxsync.Proto.Msg.{PairConfirm, pair_confirm}

abbrev pub pairing_window_ms : ℕ
pairing_window_ms = 90000

abbrev pub max_pending_pairs : ℕ
max_pending_pairs = 64

-- `n` slots of ten bits, the least significant first.
abbrev pub words_of : ℕ → ℕ → List ℕ
words_of zero v = []
words_of (suc n) v = v % 1024 ∷ words_of n (v / 1024)

unfoldable pub fingerprint_from_handshake_hash : Bytes → List ℕ
fingerprint_from_handshake_hash hash = words_of 6 (from_le_bytes (take 8 hash))

abbrev pub is_live_phase : SasPhase → Bool
is_live_phase showing = true
is_live_phase local_confirmed = true
is_live_phase peer_confirmed = true
is_live_phase confirmed = true
is_live_phase idle = false
is_live_phase peer_rejected = false

abbrev pub in_sas_flow : State → ℕ → Bool
in_sas_flow s peer = is_some_eq s.sas_peer peer && is_live_phase s.sas_phase

abbrev pub refreshed : ℕ → ℕ → Option PendingPair → List (ℕ × PendingPair) → List (ℕ × PendingPair)
refreshed peer now none m = m
refreshed peer now (some p) m =
    BTree.insert peer (record p { expires_at = now + pairing_window_ms }) m

-- `min_by_key` of `expires_at`: the first of the least.
abbrev pub sooner : ℕ → ℕ → Option (ℕ × ℕ) → Option (ℕ × ℕ)
sooner k t none = some (k, t)
sooner k t (some (j, u)) = if leb t u then some (k, t) else some (j, u)

abbrev pub soonest : List (ℕ × PendingPair) → Option (ℕ × ℕ)
soonest [] = none
soonest ((k, p) ∷ m) = sooner k p.expires_at (soonest m)

abbrev pub without_victim : Option (ℕ × ℕ) → List (ℕ × PendingPair) → List (ℕ × PendingPair)
without_victim none m = m
without_victim (some (k, t)) m = BTree.remove k m

-- The sweep of what has expired, and the cap.
unfoldable pub swept : ℕ → List (ℕ × PendingPair) → List (ℕ × PendingPair)
swept now m =
    let live = retain (λ e. ltb now e.1.expires_at) m in
    if leb max_pending_pairs (length live) then without_victim (soonest live) live else live

abbrev pub addr_or_unspecified : Option ℕ → ℕ
addr_or_unspecified none = 0
addr_or_unspecified (some a) = a

module _ {T : Type 0} (cipher : Cipher T) where
  -- An accept outside of a pairing is answered once in a session, where the peer is trusted.
  unfoldable pub echo_ack : World → ℕ → Shared T → Shared T
  echo_ack w peer sh =
      let noted = record sh { echo_ack_sent = add_to_set peer sh.echo_ack_sent } in
      if BTree.contains_key peer sh.trusted
        && peer_has_cap "sas-confirm" sh.peer_meta peer
        && not (in_set peer sh.echo_ack_sent)
      then send_msg cipher w peer (pair_confirm (record { accept = true })) noted
      else sh

  unfoldable pub on_accept : World → ℕ → Shared T → Shared T
  unfolding echo_ack
  on_accept w peer sh =
      let pending = BTree.get peer sh.pending_pairs in
      let longer = record sh { pending_pairs = refreshed peer w.now pending sh.pending_pairs } in
      if BTree.contains_key peer sh.pending_pairs || in_sas_flow sh.state peer
      then emit (sas_peer_confirmed peer) longer
      else echo_ack w peer longer

module _ {T : Type 0} where
  unfoldable pub on_reject : World → ℕ → Shared T → Shared T
  unfolding distrust forget_meta fail_over_if
  on_reject w peer sh =
      let had_pending = BTree.contains_key peer sh.pending_pairs in
      let unpaired = record sh {
        pending_pairs = BTree.remove peer sh.pending_pairs;
        deferred_sas_confirm = drop_from_set peer sh.deferred_sas_confirm;
        echo_ack_sent = drop_from_set peer sh.echo_ack_sent;
      } in
      let out = distrust peer unpaired in
      let purged = forget_meta peer (record out { transport = purge_peer out.transport peer }) in
      let told =
        emit_if (had_pending || in_sas_flow sh.state peer) (sas_peer_rejected peer) purged in
      fail_over_if (is_primary told peer) w peer told

  -- The verify screen opens again, with a pair that waits for its confirmation.
  unfoldable pub reopen : World → ℕ → TrustedPeer → Option Bytes → Shared T → Shared T
  unfolding fingerprint_from_handshake_hash swept
  reopen w peer p none sh = sh
  reopen w peer p (some hash) sh =
      let pair : PendingPair = record {
        static_pub = p.static_pub;
        name = p.name;
        sas_words = fingerprint_from_handshake_hash hash;
        from = addr_or_unspecified (peer_addr_for sh.transport peer);
        expires_at = w.now + pairing_window_ms;
      } in
      emit (sas_pairing_started peer)
        (record sh { pending_pairs = BTree.insert peer pair (swept w.now sh.pending_pairs) })

  abbrev pub verify_started : World → ℕ → Option TrustedPeer → Shared T → Shared T
  verify_started w peer none sh = sh
  verify_started w peer (some p) sh =
      if BTree.contains_key peer sh.pending_pairs || in_sas_flow sh.state peer
      then sh
      else reopen w peer p (session_handshake_hash_for sh.transport peer) sh

  unfoldable pub on_pair_verify_started : World → ℕ → Shared T → Shared T
  unfolding reopen
  on_pair_verify_started w peer sh = verify_started w peer (BTree.get peer sh.trusted) sh

module _ {T : Type 0} (cipher : Cipher T) where
  unfoldable pub on_pair_confirm : World → ℕ → PairConfirm → Shared T → Shared T
  on_pair_confirm w peer pc sh =
      if pc.accept then on_accept cipher w peer sh else on_reject w peer sh
