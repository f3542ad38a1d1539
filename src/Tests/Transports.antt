-- ===== src/Tests/Transports.antt =====
-- Links that come up, are replaced and move between the slots.
use mathlib.Core.Bool.{not}
use fluxsync.Base.{
  ◌+◌, ℕ, ◌-◌, ◌*◌, ◌≤◌, ◌≡◌, ◌==◌, refl, true, false, List, [], ◌∷◌, some, none, any, is_empty,
  is_some, arith,
}
use fluxsync.Crypto.Replay
use mathlib.Core.Option
use fluxsync.Crypto.Session.{Session, encrypt}
use fluxsync.Daemon.Transport.Wire.{send_encrypted_to}
use fluxsync.Daemon.Transport.{
  primary, PeerConn, Transport, first_answer, try_install_session, set_peer_info, has_session_for,
  peer_addr_for, install_session_if_generation_for, install_at, install_if_generation, conn_for,
  linked_peer_ids, linked_in, is_linked, promote_secondary, acquire_conn, acquire_if,
  install_if_free, peer_conn, type_encrypted,
}
use fluxsync.Daemon.Transport.Addresses.{session_of, try_install_session-set_peer_info}
use fluxsync.Daemon.Transport.Misrouted.{reconnect_misrouted}
use fluxsync.Daemon.Transport.Answered.{empty, answer_all, first_answer_once}
use fluxsync.Daemon.Transport.Installs.{install_race}
use fluxsync.Daemon.Transport.Wire.Roaming.{Arrival, moves, moves_bounded}
use fluxsync.Tests.Sessions.{tagging, frame}
use fluxsync.Daemon.Transport.Links.{times, Took, promote_secondary_links}

abbrev pub session : Session ℕ
session = record { transport = 7; replay = Replay.default; handshake_hash = 1 ∷ 2 ∷ [] }

abbrev other_session : Session ℕ
other_session = record { transport = 8; replay = Replay.default; handshake_hash = 3 ∷ [] }

abbrev free_conn : PeerConn ℕ
free_conn = record {
  peer_addr = none;
  last_peer_addr = none;
  last_peer_id = none;
  session = none;
  session_generation = 0;
  roaming_history = [];
  last_rx_ms = 100;
  last_roam_ms = 0;
  session_established_at_ms = 0;
  bytes_since_established = 0;
}

abbrev boot : Transport ℕ
boot = record { conn = free_conn; extra = []; answered_inits = empty }

-- Peer 5 was in the primary slot and is gone; peer 9 has a slot of its own.
abbrev stub : PeerConn ℕ
stub = record free_conn { last_peer_id = some 9; session_generation = 2 }

abbrev left : Transport ℕ
left = record boot { conn = record free_conn { last_peer_id = some 5 }; extra = (9, stub) ∷ [] }

-- The same, with peer 9 linked.
abbrev pub seconded : Transport ℕ
seconded = record left {
  extra = (9, record stub { session = some session; peer_addr = some 40 }) ∷ [];
}

first_answer_once_example :
    (first_answer
      (answer_all
        (first_answer (answer_all empty (none ∷ some 3 ∷ [])) (some 4)).0
        (some 3 ∷ some 6 ∷ []))
      (some 4)).1
    ≡ false
unfolding first_answer
first_answer_once_example =
    first_answer_once (none ∷ some 3 ∷ []) (some 3 ∷ some 6 ∷ []) 4 refl (omega arith)

install_race_example :
    (install_session_if_generation_for
      (install_session_if_generation_for seconded 9 session 2 200).0
      9
      other_session
      2
      201).1
    ≡ false
unfolding install_session_if_generation_for install_at install_if_generation conn_for
install_race_example = install_race seconded 9 session other_session 2 200 201 refl

try_install_session-set_peer_info_example :
    let u = set_peer_info (try_install_session boot 5 session 200).0 5 40 201 in
    (session_of (peer_conn u 5) ≡ some session)
    × (peer_addr_for u 5 ≡ some 40)
    × ((send_encrypted_to tagging u 5 (104 ∷ [])).1
        ≡ Option.map (λ ct. (40, type_encrypted ∷ ct)) (encrypt tagging session (104 ∷ [])).1)
unfolding try_install_session acquire_conn acquire_if install_if_free
try_install_session-set_peer_info_example =
    try_install_session-set_peer_info tagging boot 5 40 200 201 session (104 ∷ []) refl

reconnect_misrouted_example :
    let (u, done) = install_session_if_generation_for left 9 session 2 200 in
    let v = set_peer_info u 9 40 201 in
    (done ≡ true) × (has_session_for v 9 ≡ false) × (any (λ x. x == 9) (linked_peer_ids v) ≡ true)
reconnect_misrouted_example = reconnect_misrouted left 9 40 200 201 session stub refl refl refl

promote_secondary_links_example :
    let (u, r) = promote_secondary seconded 300 in
    ((id : ℕ) → times id (linked_peer_ids u) ≡ times id (linked_peer_ids seconded))
    × (is_linked u.conn ≡ is_some r)
    × (is_some r ≡ not (is_empty (linked_in seconded.extra)))
    × Took seconded u r
promote_secondary_links_example = promote_secondary_links seconded 300 (refl, tt) refl

-- Two authentic frames from other addresses, a second apart, for a slot that never moved.
abbrev roamer : Transport ℕ
roamer = record boot {
  conn = record free_conn {
    session = some (record session { transport = 0 });
    peer_addr = some 40;
    last_peer_id = some 5;
  };
}

abbrev arrivals : List Arrival
arrivals =
    record { from = 41; datagram = type_encrypted ∷ frame 3; at_ms = 1700000032000 }
    ∷ record { from = 42; datagram = type_encrypted ∷ frame 4; at_ms = 1700000033000 }
    ∷ []

moves_bounded_example :
    30000 * moves tagging roamer primary arrivals ≤ 30000 + (1700000034000 - 1700000032000)
moves_bounded_example =
    moves_bounded tagging roamer primary arrivals 1700000032000 1700000034000
      (omega arith, (omega arith, omega arith))
