-- ===== src/Daemon/Driver/Inbound/Relay.antt =====
-- crates/fluxsyncd/src/driver/inbound.rs: where the daemon passes an item on to.
use fluxsync.Base.{
  ℕ, ◌≡◌, refl, sym, ap, subst, ◌∙◌, Bool, true, not, ◌&&◌, ◌||◌, ◌==◌, List, [], ◌∷◌, arith,
  if◌then◌else◌, is_empty, All, All-append, retain, if_holds, inl, inr,
}
use fluxsync.Base.BTree
use fluxsync.Base.BTree.{nat_ord}
use fluxsync.Core.Events.{Bytes, frame_received_clipboard}
use fluxsync.Core.Id.{EventId}
use fluxsync.Core.Seen.{observe}
use fluxsync.Crypto.Session.{Cipher}
use fluxsync.Daemon.Driver.Frames.{frame_of, verify_content_hash}
use fluxsync.Daemon.Driver.Inbound.Items.{
  admit_item, blocks_relay, received_frame, hand_over, first_sight, take_in,
}
use fluxsync.Daemon.Driver.Pulls.{take_pending_pull}
use fluxsync.Daemon.Driver.Reassembly.{CompleteItem}
use fluxsync.Daemon.Driver.Shared.{
  World, Shared, Effect, sent, event, PendingPair, PeerMeta, accepts_kind, emit, say, send,
  send_encoded, send_msg, ack_source, send_frames, send_to_all, forward_targets, forward_frames,
}
use fluxsync.Daemon.Transport.{linked_peer_ids}
use fluxsync.Proto.Codec.{Result, ok, err, ProtoError, encode}
use fluxsync.Proto.Msg.{ack}
use fluxsync.Daemon.Driver.Inbound.Kept.{
  gates, gates-fixed, fixed-admit_item, effects-admit_item, fixed-ack_source,
}
use fluxsync.Base.{◌⊎◌}

module _ {T : Type 0} where
  -- A peer that an item may be passed on to.
  abbrev pub may_relay : Shared T → CompleteItem → ℕ → Bool
  may_relay sh item p =
      accepts_kind sh.peer_meta p item.kind
      && (not (p == item.source)
          && not (p == item.origin)
          && not (BTree.contains_key p sh.pending_pairs))

  -- The acknowledgement, to the peer that brought the item, or anything, to one that it may be passed
  -- on to.
  abbrev pub IsRightful : World → Shared T → CompleteItem → Effect → Type 0
  IsRightful w sh item (sent p bytes) =
      ((p ≡ item.source)
        × (encode w.cbor (frame_of (ack (record { lamport = 0; hash = item.hash }))) ≡ ok bytes))
      ⊎ (may_relay sh item p ≡ true)
  IsRightful w sh item _ = Unit

  All-may_relay_of :
      (sh : Shared T) (item : CompleteItem) (xs : List ℕ)
      → All
          (λ p. may_relay sh item p ≡ true)
          (retain
            (λ d. accepts_kind sh.peer_meta d item.kind)
            (retain
              (λ d.
                not (d == item.source)
                && not (d == item.origin)
                && not (BTree.contains_key d sh.pending_pairs))
              xs))
  All-may_relay_of sh item [] = tt
  All-may_relay_of sh item (x ∷ xs) = ground (arith, All-may_relay_of sh item xs)

  All-may_relay :
      (sh : Shared T) (item : CompleteItem)
      → All (λ p. may_relay sh item p ≡ true) (forward_targets sh item.kind item.source item.origin)
  unfolding forward_targets
  All-may_relay sh item = All-may_relay_of sh item (linked_peer_ids sh.transport)

module _ {T : Type 0} (cipher : Cipher T) (P : Effect → Type 0) where
  send_encoded-All :
      (p : ℕ) (r : Result Bytes ProtoError) (sh : Shared T)
      → ((b : Bytes) → r ≡ ok b → P (sent p b))
      → All P sh.effects
      → All P (send_encoded cipher p r sh).effects
  unfolding send say
  send_encoded-All p (ok bytes) sh right h =
      All-append P sh.effects (sent p bytes ∷ []) h (right bytes refl, tt)
  send_encoded-All p (err e) sh right h = h

  ack_source-All :
      (w : World) (p hash : ℕ) (sh : Shared T)
      → ((b : Bytes)
          → encode w.cbor (frame_of (ack (record { lamport = 0; hash = hash }))) ≡ ok b
          → P (sent p b))
      → All P sh.effects
      → All P (ack_source cipher w p hash sh).effects
  unfolding ack_source send_msg
  ack_source-All w p hash sh right h =
      send_encoded-All p (encode w.cbor (frame_of (ack (record { lamport = 0; hash = hash })))) sh
        right h

  send_frames-All :
      (p : ℕ) (fs : List Bytes) (sh : Shared T)
      → ((b : Bytes) → P (sent p b))
      → All P sh.effects
      → All P (send_frames cipher p fs sh).effects
  unfolding send_frames
  send_frames-All p [] sh right h = h
  send_frames-All p (f ∷ fs) sh right h =
      send_frames-All p fs (send cipher p f sh) right
        (send_encoded-All p (ok f) sh (λ b e. right b) h)

  pub send_to_all-All :
      (ps : List ℕ) (fs : List Bytes) (sh : Shared T)
      → All (λ p. (b : Bytes) → P (sent p b)) ps
      → All P sh.effects
      → All P (send_to_all cipher ps fs sh).effects
  unfolding send_to_all
  send_to_all-All [] fs sh right h = h
  send_to_all-All (p ∷ ps) fs sh right h =
      send_to_all-All ps fs (send_frames cipher p fs sh) right.1 (send_frames-All p fs sh right.0 h)

module _ {T : Type 0} (cipher : Cipher T) (w : World) where
  abbrev AllRightful : Shared T → CompleteItem → Shared T → Type 0
  AllRightful start item sh = All (IsRightful w start item) sh.effects

  -- What `may_relay` says is that of the state that the item was found in.
  same_may_relay :
      (start now : Shared T) (item : CompleteItem) (p : ℕ)
      → gates now ≡ gates start
      → may_relay now item p ≡ may_relay start item p
  same_may_relay start now item p same =
      ap
        (λ (g : List (ℕ × PendingPair) × List (ℕ × PeerMeta)).
          accepts_kind g.1 p item.kind
          && (not (p == item.source) && not (p == item.origin) && not (BTree.contains_key p g.0)))
        same

  relay_targets :
      (start now : Shared T) (item : CompleteItem) (ps : List ℕ)
      → gates now ≡ gates start
      → All (λ p. may_relay now item p ≡ true) ps
      → All (λ p. (b : Bytes) → IsRightful w start item (sent p b)) ps
  relay_targets start now item [] same h = tt
  relay_targets start now item (p ∷ ps) same h =
      let fits : may_relay start item p ≡ true = sym (same_may_relay start now item p same) ∙ h.0 in
      (λ b. inr fits, relay_targets start now item ps same h.1)

  AllRightful-forward_frames :
      (start sh : Shared T) (item : CompleteItem) (fs : List Bytes)
      → gates sh ≡ gates start
      → AllRightful start item sh
      → AllRightful start item
          (forward_frames cipher w item.kind item.source item.origin item.hash fs sh)
  unfolding forward_frames
  AllRightful-forward_frames start sh item fs same h =
      let targets = forward_targets sh item.kind item.source item.origin in
      if_holds (AllRightful start item) (is_empty targets || is_empty fs) sh _ h (
        send_to_all-All cipher (IsRightful w start item) targets fs sh
          (relay_targets start sh item targets same (All-may_relay sh item)) h)

  AllRightful-first_sight :
      (start sh : Shared T) (item : CompleteItem) (fs : List Bytes)
      → gates sh ≡ gates start
      → AllRightful start item sh
      → AllRightful start item (first_sight cipher w item fs sh)
  unfolding first_sight hand_over emit say
  AllRightful-first_sight start sh item fs same h =
      let admitted = admit_item w item sh in
      let relayed =
        forward_frames cipher w item.kind item.source item.origin item.hash fs admitted in
      let out = if blocks_relay sh item then admitted else relayed in
      let resync = (take_pending_pull out.pending_pulls item.source item.hash w.now).1 in
      let last = event (frame_received_clipboard (received_frame w item resync)) in
      let kept : AllRightful start item admitted =
        subst (All (IsRightful w start item)) (sym (effects-admit_item w item sh)) h in
      All-append (IsRightful w start item) out.effects (last ∷ [])
        (if_holds (AllRightful start item) (blocks_relay sh item) admitted relayed kept (
          AllRightful-forward_frames start admitted item fs
            (gates-fixed sh admitted (fixed-admit_item w item sh) ∙ same) kept))
        (tt, tt)

  -- Of what comes of an item, nothing but its acknowledgement is sent to the peer that brought it, and
  -- nothing at all to its origin, to a peer that waits for a confirmation or to one that cannot take
  -- its kind, unless that is the peer that brought it.
  pub take_in-IsRightful :
      (item : CompleteItem) (frames : List Bytes) (sh : Shared T)
      → sh.effects ≡ []
      → All (IsRightful w sh item) (take_in cipher w item frames sh).effects
  unfolding take_in
  take_in-IsRightful item frames sh quiet =
      let acked = ack_source cipher w item.source item.hash sh in
      let eid : EventId = record { origin = item.origin; seq = item.event_seq } in
      let (seen, fresh) = observe acked.mesh_seen eid in
      let noted : Shared T = record acked { mesh_seen = seen } in
      let start : AllRightful sh item sh = subst (All (IsRightful w sh item)) (sym quiet) tt in
      let kept : AllRightful sh item noted =
        ack_source-All cipher (IsRightful w sh item) w item.source item.hash sh
          (λ b e. inl (refl, e)) start in
      let same : gates noted ≡ gates sh =
        gates-fixed sh acked (fixed-ack_source cipher w item.source item.hash sh) in
      let taken = first_sight cipher w item frames noted in
      let out = if fresh then taken else noted in
      if_holds (AllRightful sh item)
        (not (verify_content_hash w.blake3 w.decode_png item.kind item.payload item.hash)) sh out
        start
        (if_holds (AllRightful sh item) fresh taken noted
          (AllRightful-first_sight sh noted item frames same kept) kept)
