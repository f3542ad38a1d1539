-- ===== src/Daemon/Driver/Liveness/Silence.antt =====
-- A primary link that is silent.
use fluxsync.Base.{
  ℕ, ◌+◌, ◌-◌, ◌<◌, ◌≡◌, refl, sym, ap, subst, ◌∙◌, Bool, true, false, [], ◌∷◌, Option, none, some,
  arith, ◌==◌, ==_self, any, any-append, is_some, leb, ltb, if_holds, lt→ltb,
}
use fluxsync.Base.BTree
use fluxsync.Base.BTree.{nat_ord}
use fluxsync.Core.Events.{Bytes, peer_lost, primary_failover}
use fluxsync.Crypto.Session.{Cipher, Session, encrypt}
use fluxsync.Daemon.Driver.Actions.{send_primary, on_send_battery}
use fluxsync.Daemon.Driver.Frames.{frame_of}
use fluxsync.Daemon.Driver.Liveness.{
  ping, set_last_rx, gone_unless, rested_if, give_up_primary, greet_primary, beat_primary,
}
use fluxsync.Daemon.Driver.Shared.{
  World, Shared, Effect, event, emit, say, PeerMeta, failover_event, failed_over,
  try_primary_failover,
}
use fluxsync.Daemon.Transport.{PeerConn, Transport, promote_secondary, cached_peer_id}
use fluxsync.Daemon.Transport.Wire.{
  sent, with_session, send_sealed, send_from, send_on, send_encrypted,
}
use fluxsync.Proto.Codec.{Result, ok, err, ProtoError, encode}
use fluxsync.Proto.Msg.{heartbeat, battery_status}

-- The core is told that this peer is lost, or that another one took its place.
abbrev pub is_loss_of : ℕ → Effect → Bool
is_loss_of peer (event (peer_lost p)) = p == peer
is_loss_of peer (event (primary_failover id name platform caps)) = true
is_loss_of peer _ = false

failover-is_loss_of :
    (peer id : ℕ) (o : Option PeerMeta) → is_loss_of peer (event (failover_event id o)) ≡ true
failover-is_loss_of peer id none = refl
failover-is_loss_of peer id (some m) = refl

module _ {T : Type 0} where
  -- Whether there is a session, when the peer was heard, and which peer it is.
  abbrev watch : PeerConn T → Bool × ℕ × Option ℕ
  watch c = (is_some c.session, c.last_rx_ms, c.last_peer_id)

  tells-say :
      (peer : ℕ) (e : Effect) (sh : Shared T)
      → is_loss_of peer e ≡ true
      → any (is_loss_of peer) (say e sh).effects ≡ true
  unfolding say
  tells-say peer e sh h = ground (arith, h, any-append (is_loss_of peer) sh.effects (e ∷ []))

  still_tells-say :
      (peer : ℕ) (e : Effect) (sh : Shared T)
      → any (is_loss_of peer) sh.effects ≡ true
      → any (is_loss_of peer) (say e sh).effects ≡ true
  unfolding say
  still_tells-say peer e sh h = ground (arith, h, any-append (is_loss_of peer) sh.effects (e ∷ []))

  tells-gone_unless :
      (peer : ℕ) (sh : Shared T) (r : Transport T × Option ℕ)
      → any (is_loss_of peer) (gone_unless (some peer) (failed_over sh r)).effects ≡ true
  unfolding emit
  tells-gone_unless peer sh (t, none) =
      tells-say peer (event (peer_lost peer)) (record sh { transport = t }) (==_self peer)
  tells-gone_unless peer sh (t, some id) =
      let ev = failover_event id (BTree.get id sh.peer_meta) in
      still_tells-say peer _ (say (event ev) (record sh { transport = t })) (
        tells-say peer (event ev) (record sh { transport = t })
          (failover-is_loss_of peer id (BTree.get id sh.peer_meta)))

  tells-give_up_primary :
      (w : World) (peer : ℕ) (sh : Shared T)
      → cached_peer_id sh.transport ≡ some peer
      → any (is_loss_of peer) (give_up_primary w sh).effects ≡ true
  unfolding give_up_primary try_primary_failover
  tells-give_up_primary w peer sh here =
      let end : Option ℕ → Shared T = λ o.
        let slow = rested_if w o (some sh.transport.conn.session_established_at_ms) sh in
        let out = set_last_rx w.now_ms slow in
        gone_unless o (failed_over out (promote_secondary out.transport w.now_ms)) in
      let out : Shared T =
        set_last_rx w.now_ms
          (rested_if w (some peer) (some sh.transport.conn.session_established_at_ms) sh) in
      ap (λ o. any (is_loss_of peer) (end o).effects) here
      ∙ tells-gone_unless peer out (promote_secondary out.transport w.now_ms)

  watch-sent : (c : PeerConn T) (addr : ℕ) (o : Option Bytes) → watch (sent c addr o).0 ≡ watch c
  watch-sent c addr none = refl
  watch-sent c addr (some b) = refl

module _ {T : Type 0} (cipher : Cipher T) where
  watch-send_sealed :
      (c : PeerConn T) (addr : ℕ) (b : Bytes) (o : Option (Session T))
      → c.session ≡ o
      → watch (send_sealed cipher c addr b o).0 ≡ watch c
  watch-send_sealed c addr b none e = refl
  watch-send_sealed c addr b (some s) e =
      let (s', ct) = encrypt cipher s b in
      watch-sent (with_session c s') addr ct
      ∙ ap (λ (x : Option (Session T)). (is_some x, c.last_rx_ms, c.last_peer_id)) (sym e)

  watch-send_from :
      (c : PeerConn T) (b : Bytes) (o : Option ℕ) → watch (send_from cipher c b o).0 ≡ watch c
  watch-send_from c b none = refl
  watch-send_from c b (some addr) = watch-send_sealed c addr b c.session refl

  watch-send_primary :
      (sh : Shared T) (r : Result Bytes ProtoError)
      → watch (send_primary cipher sh r).transport.conn ≡ watch sh.transport.conn
  unfolding send_encrypted send_on say
  watch-send_primary sh (err e) = refl
  watch-send_primary sh (ok b) = watch-send_from sh.transport.conn b sh.transport.conn.peer_addr

  watch-greet_primary :
      (w : World) (level : ℕ) (charging : Bool) (sh : Shared T)
      → watch (greet_primary cipher w level charging sh).transport.conn ≡ watch sh.transport.conn
  unfolding greet_primary on_send_battery
  watch-greet_primary w level charging sh =
      let first = encode w.cbor (frame_of (heartbeat ping)) in
      let pinged = send_primary cipher sh first in
      let told = on_send_battery cipher w level charging pinged in
      let second =
        encode w.cbor (
          frame_of (battery_status (record { lamport = 0; level = level; charging = charging }))) in
      if_holds (λ (s : Shared T). watch s.transport.conn ≡ watch sh.transport.conn) (level == 255)
        pinged told (watch-send_primary sh first)
        (watch-send_primary pinged second ∙ watch-send_primary sh first)

  -- A silent tick that is not the third one is counted.
  beat_primary_counts :
      (w : World) (level : ℕ) (charging : Bool) (missed rx peer : ℕ) (sh : Shared T)
      → watch sh.transport.conn ≡ (true, rx, some peer)
      → 3000 < w.now_ms - rx
      → missed + 1 < 3
      → let (n, out) = beat_primary cipher w level charging missed sh in
        (n ≡ missed + 1) × (watch out.transport.conn ≡ (true, rx, some peer))
  unfolding beat_primary
  beat_primary_counts w level charging missed rx peer sh here silent few =
      let pinged = greet_primary cipher w level charging sh in
      let same : watch pinged.transport.conn ≡ (true, rx, some peer) =
        watch-greet_primary w level charging sh ∙ here in
      let live : is_some sh.transport.conn.session ≡ true =
        ap (λ (f : Bool × ℕ × Option ℕ). f.0) here in
      let quiet : ltb 3000 (w.now_ms - pinged.transport.conn.last_rx_ms) ≡ true =
        ap (λ (f : Bool × ℕ × Option ℕ). ltb 3000 (w.now_ms - f.1)) same
        ∙ lt→ltb 3000 (w.now_ms - rx) silent in
      let early : leb 3 (missed + 1) ≡ false = ground (arith, few) in
      rw (live, quiet, early) (refl, same)

  beat_primary_ends :
      (w : World) (level : ℕ) (charging : Bool) (rx peer : ℕ) (sh : Shared T)
      → watch sh.transport.conn ≡ (true, rx, some peer)
      → 3000 < w.now_ms - rx
      → any (is_loss_of peer) (beat_primary cipher w level charging 2 sh).1.effects ≡ true
  unfolding beat_primary
  beat_primary_ends w level charging rx peer sh here silent =
      let pinged = greet_primary cipher w level charging sh in
      let same : watch pinged.transport.conn ≡ (true, rx, some peer) =
        watch-greet_primary w level charging sh ∙ here in
      let live : is_some sh.transport.conn.session ≡ true =
        ap (λ (f : Bool × ℕ × Option ℕ). f.0) here in
      let quiet : ltb 3000 (w.now_ms - pinged.transport.conn.last_rx_ms) ≡ true =
        ap (λ (f : Bool × ℕ × Option ℕ). ltb 3000 (w.now_ms - f.1)) same
        ∙ lt→ltb 3000 (w.now_ms - rx) silent in
      rw (live, quiet)
        (tells-give_up_primary w peer pinged (ap (λ (f : Bool × ℕ × Option ℕ). f.2) same))

  -- A primary peer that is silent at three ticks, where nothing else happens between what they do to
  -- the primary link, is given up at the third: the first two are counted, and then the core is told
  -- that it is lost, or that another peer took its place.
  pub silence_ends :
      (w1 w2 w3 : World) (level : ℕ) (charging : Bool) (peer : ℕ) (sh : Shared T)
      → is_some sh.transport.conn.session ≡ true
      → cached_peer_id sh.transport ≡ some peer
      → 3000 < w1.now_ms - sh.transport.conn.last_rx_ms
      → 3000 < w2.now_ms - sh.transport.conn.last_rx_ms
      → 3000 < w3.now_ms - sh.transport.conn.last_rx_ms
      → let (n, once) = beat_primary cipher w1 level charging 0 sh in
        let (m, twice) = beat_primary cipher w2 level charging n once in
        (n ≡ 1)
        × (m ≡ 2)
        × (any (is_loss_of peer) (beat_primary cipher w3 level charging m twice).1.effects ≡ true)
  silence_ends w1 w2 w3 level charging peer sh live who s1 s2 s3 =
      let rx = sh.transport.conn.last_rx_ms in
      let start : watch sh.transport.conn ≡ (true, rx, some peer) =
        ap (λ b. (b, rx, cached_peer_id sh.transport)) live ∙ ap (λ o. (true, rx, o)) who in
      let (n, once) = beat_primary cipher w1 level charging 0 sh in
      let (is_one, here1) =
        beat_primary_counts w1 level charging 0 rx peer sh start s1 (omega arith) in
      let (is_two, here2) =
        beat_primary_counts w2 level charging n rx peer once here1 s2 (omega (arith, is_one)) in
      let (m, twice) = beat_primary cipher w2 level charging n once in
      let second : m ≡ 2 = is_two ∙ ap (λ k. k + 1) is_one in
      (
        is_one,
        second,
        subst
            (λ k.
              any (is_loss_of peer) (beat_primary cipher w3 level charging k twice).1.effects
              ≡ true)
            (sym second) (beat_primary_ends w3 level charging rx peer twice here2 s3),
      )
