-- ===== src/Daemon/Transport/Installs.antt =====
-- What becomes of installs that race for a slot.
use mathlib.Core.Bool.{true≢false}
use fluxsync.Base.{ℕ, ◌≡◌, ◌≢◌, refl, sym, true, false, Option, none, some, arith}
use fluxsync.Base.BTree.{nat_ord}
use fluxsync.Base.BTree.Laws.{get-insert, contains_key-insert}
use fluxsync.Crypto.Session.{Session}
use fluxsync.Daemon.Transport.{
  Slot, primary, secondary, PeerConn, Transport, bump, at, put, conn_for, commit,
  install_if_generation, install_at, install_session_if_generation_for,
}

bump_ne : (g : ℕ) → bump g ≢ g
bump_ne g h = absurd (omega arith)

module _ {T : Type 0} where
  -- What is put in the slot of a peer, under its id, is found there.
  pub conn_for-put :
      (t : Transport T) (id : ℕ) (slot : Slot) (c : PeerConn T)
      → conn_for t id ≡ some slot
      → c.last_peer_id ≡ some id
      → (conn_for (put t slot c) id ≡ some slot) × (at (put t slot c) slot ≡ some c)
  unfolding conn_for
  conn_for-put t id primary c h named = ground arith
  conn_for-put t id (secondary j) c h named =
      ground (arith, get-insert j j c t.extra, contains_key-insert id j c t.extra)

  stale_refused :
      (t : Transport T) (slot : Slot) (id : ℕ) (s : Session T) (expected now : ℕ)
      (o : Option (PeerConn T)) (c : PeerConn T)
      → o ≡ some c
      → c.session_generation ≢ expected
      → (install_if_generation t slot id s expected now o).1 ≡ false
  unfolding install_if_generation
  stale_refused t slot id s expected now o c h ne = rw h (ground arith)

  late_refused :
      (t : Transport T) (id : ℕ) (s : Session T) (expected now : ℕ) (slot : Slot) (c : PeerConn T)
      → conn_for t id ≡ some slot
      → at t slot ≡ some c
      → c.session_generation ≢ expected
      → (install_session_if_generation_for t id s expected now).1 ≡ false
  unfolding install_session_if_generation_for install_at
  late_refused t id s expected now slot c known held ne =
      rw known (stale_refused t slot id s expected now (at t slot) c held ne)

  -- What an install that is not refused has found, and what it leaves.
  slot_inv :
      (t : Transport T) (slot : Slot) (id : ℕ) (s : Session T) (expected now : ℕ)
      (o : Option (PeerConn T))
      → (install_if_generation t slot id s expected now o).1 ≡ true
      → (c : PeerConn T) × (o ≡ some c)
        × (c.session_generation ≡ expected)
        × ((install_if_generation t slot id s expected now o).0 ≡ put t slot (commit id s now c))
  unfolding install_if_generation
  slot_inv t slot id s expected now none done = absurd (true≢false (sym done))
  slot_inv t slot id s expected now (some c) done = (c, refl, ground arith, ground arith)

  install_inv :
      (t : Transport T) (id : ℕ) (s : Session T) (expected now : ℕ) (o : Option Slot)
      → (install_at t id s expected now o).1 ≡ true
      → (slot : Slot) × (o ≡ some slot)
        × ((c : PeerConn T) × (at t slot ≡ some c)
            × (c.session_generation ≡ expected)
            × ((install_at t id s expected now o).0 ≡ put t slot (commit id s now c)))
  unfolding install_at
  install_inv t id s expected now none done = absurd (true≢false (sym done))
  install_inv t id s expected now (some slot) done =
      (slot, refl, slot_inv t slot id s expected now (at t slot) done)

  -- Of two installs that race for the same generation of a peer's slot, one commits at most: when
  -- the first has, the second is refused.
  pub install_race :
      (t : Transport T) (id : ℕ) (s r : Session T) (expected now later : ℕ)
      → (install_session_if_generation_for t id s expected now).1 ≡ true
      → (install_session_if_generation_for
          (install_session_if_generation_for t id s expected now).0
          id
          r
          expected
          later).1
        ≡ false
  unfolding install_session_if_generation_for commit
  install_race t id s r expected now later done =
      let (slot, known, found) = install_inv t id s expected now (conn_for t id) done in
      let (c, held, current, left) = found in
      let kept = conn_for-put t id slot (commit id s now c) known refl in
      rw left (
        late_refused (put t slot (commit id s now c)) id r expected later slot (commit id s now c)
          kept.0 kept.1 (rw (← current) (bump_ne c.session_generation)))
