-- ===== src/Daemon/Driver/Inbound/Vouched.antt =====
-- What the daemon hands to the core.
use mathlib.Core.Bool.{true≢false}
use fluxsync.Base.{
  ℕ, ◌≡◌, refl, sym, subst, Bool, true, false, not, ◌&&◌, ◌||◌, List, [], ◌==◌, Option, none, some,
  if◌then◌else◌, is_empty, ltb, arith, OnSome, is_some, All, if_holds, if_split, Bool-cases, inl,
  inr,
}
use fluxsync.Base.BTree
use fluxsync.Base.BTree.{nat_ord}
use fluxsync.Core.Events.{ReceivedFrame, frame_received_clipboard}
use fluxsync.Core.Id.{EventId}
use fluxsync.Core.Policy.{Decision, pass, defer, block}
use fluxsync.Core.Seen.{observe}
use fluxsync.Crypto.Session.{Cipher}
use fluxsync.Core.Events.{Bytes}
use fluxsync.Daemon.Driver.Frames.{frame_of, pushed, build_item_frames, verify_content_hash}
use fluxsync.Daemon.Driver.Inbound.{
  blocks_until_confirmed, is_confirmed, run_arm, dispatch_inbound_frame,
}
use fluxsync.Daemon.Driver.Inbound.Effects.{
  item_of, is_item, emit-Holds, on_battery-Holds, on_ack_frame-Holds, on_bye-Holds, on_revoke-Holds,
  on_pair_verify_started-Holds,
}
use fluxsync.Daemon.Driver.Inbound.Sends.{
  ack_source-Holds, forward_frames-Holds, on_heartbeat-Holds, on_nak_frame-Holds,
  on_pair_confirm-Holds, on_resync_offer-Holds, on_resync_pull-Holds, on_hello-Holds,
}
use fluxsync.Daemon.Driver.Inbound.Items.{
  verdict, admit, admit_item, blocks_relay, received_frame, hand_over, first_sight, take_in,
  complete_reassembled_item, after_part, on_clipboard_item, on_chunk_frame, label_of, whole,
}
use fluxsync.Daemon.Driver.Pulls.{take_pending_pull}
use fluxsync.Daemon.Driver.Reassembly.{
  Metadata, Reassembly, ReassemblyMap, CompleteItem, complete_with, settle, reassembly_key,
  make_room, with_header, with_chunk, joined, on_header, on_chunk,
}
use fluxsync.Daemon.Driver.Shared.{World, Shared, Effect, ack_source, forward_frames}
use fluxsync.Proto.Codec.{encode, max_chunks}
use fluxsync.Proto.Msg.{
  ClipboardItem, Chunk, Msg, handshake_init, handshake_resp, clipboard_item, battery_status,
  heartbeat, chunk, ack, nak, bye, revoke, hello, resync_offer, resync_pull, pair_confirm,
  pair_verify_started,
}

-- The item is the one its digest names, and comes from this peer, which is confirmed.
abbrev pub IsGenuine : World → ℕ → Bool → ReceivedFrame → Type 0
IsGenuine w peer c f =
    (verify_content_hash w.blake3 w.decode_png f.kind f.payload f.hash ≡ true)
    × (f.peer_id ≡ peer)
    × (c ≡ true)

abbrev pub IsVouched : World → ℕ → Bool → Effect → Type 0
IsVouched w peer c e = OnSome (IsGenuine w peer c) (item_of e)

quiet_some :
    (w : World) (peer : ℕ) (c : Bool) (o : Option ReceivedFrame)
    → is_some o ≡ false
    → OnSome (IsGenuine w peer c) o
quiet_some w peer c none h = tt
quiet_some w peer c (some f) h = absurd (true≢false h)

quiet-IsVouched :
    (w : World) (peer : ℕ) (c : Bool) (e : Effect) → is_item e ≡ false → IsVouched w peer c e
quiet-IsVouched w peer c e h = quiet_some w peer c (item_of e) h

-- A transfer that is complete comes from the peer whose frame completed it.
abbrev From : ℕ → Option CompleteItem → Type 0
From peer none = Unit
From peer (some item) = item.source ≡ peer

From-complete_with :
    (r : Reassembly) (peer hash : ℕ) (d : Option Metadata) (payload : Option Bytes)
    → From peer (complete_with r peer hash d payload)
From-complete_with r peer hash none payload = tt
From-complete_with r peer hash (some d) none = tt
From-complete_with r peer hash (some d) (some payload) = refl

From-settle :
    (peer key : ℕ) (m : ReassemblyMap) (r : Reassembly) (o : Option CompleteItem)
    → From peer o
    → From peer (settle key m r o).1
From-settle peer key m r none h = h
From-settle peer key m r (some item) h = h

From-on_header :
    (blake3 : Bytes → ℕ) (peer now : ℕ) (item : ClipboardItem) (m : ReassemblyMap)
    → From peer (on_header blake3 peer item now m).1
unfolding on_header
From-on_header blake3 peer now item m =
    let key = reassembly_key blake3 peer item.hash in
    let m2 = make_room key m in
    let r = with_header peer item now (BTree.get key m2) in
    let payload = if is_empty r.chunks then none else joined r.chunks in
    From-settle peer key m2 r (complete_with r peer item.hash r.metadata payload)
      (From-complete_with r peer item.hash r.metadata payload)

From-on_chunk :
    (blake3 : Bytes → ℕ) (peer now : ℕ) (c : Chunk) (m : ReassemblyMap)
    → From peer (on_chunk blake3 peer c now m).1
unfolding on_chunk
From-on_chunk blake3 peer now c m =
    let key = reassembly_key blake3 peer c.item_id in
    let m2 = make_room key m in
    let r = with_chunk peer c now (BTree.get key m2) in
    let o = complete_with r peer c.item_id r.metadata (joined r.chunks) in
    if_holds (λ (x : ReassemblyMap × Option CompleteItem). From peer x.1)
      (ltb max_chunks c.total || c.total == 0) (m, none) (settle key m2 r o) tt
      (From-settle peer key m2 r o
        (From-complete_with r peer c.item_id r.metadata (joined r.chunks)))

module _ {T : Type 0} (cipher : Cipher T) (w : World) (peer : ℕ) (c : Bool) where
  abbrev AllVouched : Shared T → Type 0
  AllVouched sh = All (IsVouched w peer c) sh.effects

  admit-AllVouched :
      (d : Decision) (item : CompleteItem) (sh : Shared T)
      → AllVouched sh
      → AllVouched (admit w d item sh)
  admit-AllVouched pass item sh h = h
  admit-AllVouched defer item sh h = h
  admit-AllVouched block item sh h = h

  hand_over-AllVouched :
      (item : CompleteItem) (sh : Shared T)
      → verify_content_hash w.blake3 w.decode_png item.kind item.payload item.hash ≡ true
      → item.source ≡ peer
      → c ≡ true
      → AllVouched sh
      → AllVouched (hand_over w item sh)
  unfolding hand_over
  hand_over-AllVouched item sh genuine from conf h =
      let (pulls, resync) = take_pending_pull sh.pending_pulls item.source item.hash w.now in
      let ev = frame_received_clipboard (received_frame w item resync) in
      let out : Shared T = record sh { pending_pulls = pulls } in
      emit-Holds (IsVouched w peer c) (quiet-IsVouched w peer c) ev out (genuine, from, conf) h

  first_sight-AllVouched :
      (item : CompleteItem) (frames : List Bytes) (sh : Shared T)
      → verify_content_hash w.blake3 w.decode_png item.kind item.payload item.hash ≡ true
      → item.source ≡ peer
      → c ≡ true
      → AllVouched sh
      → AllVouched (first_sight cipher w item frames sh)
  unfolding first_sight admit_item
  first_sight-AllVouched item frames sh genuine from conf h =
      let admitted = admit_item w item sh in
      let on =
        forward_frames cipher w item.kind item.source item.origin item.hash frames admitted in
      let kept : AllVouched admitted =
        if_holds AllVouched item.sensitive sh (admit w (verdict sh item) item sh) h
          (admit-AllVouched (verdict sh item) item sh h) in
      hand_over-AllVouched item (if blocks_relay sh item then admitted else on) genuine from conf (
        if_holds AllVouched (blocks_relay sh item) admitted on kept (
          forward_frames-Holds cipher (IsVouched w peer c) (quiet-IsVouched w peer c) w item.kind
            item.source item.origin item.hash frames admitted kept))

  take_in-AllVouched :
      (item : CompleteItem) (frames : List Bytes) (sh : Shared T)
      → item.source ≡ peer
      → c ≡ true
      → AllVouched sh
      → AllVouched (take_in cipher w item frames sh)
  unfolding take_in
  take_in-AllVouched item frames sh from conf h =
      let acked = ack_source cipher w item.source item.hash sh in
      let eid : EventId = record { origin = item.origin; seq = item.event_seq } in
      let (seen, fresh) = observe acked.mesh_seen eid in
      let noted : Shared T = record acked { mesh_seen = seen } in
      let kept : AllVouched noted =
        ack_source-Holds cipher (IsVouched w peer c) (quiet-IsVouched w peer c) w item.source
          item.hash sh h in
      let taken = first_sight cipher w item frames noted in
      let out = if fresh then taken else noted in
      elim (Bool-cases
        (verify_content_hash w.blake3 w.decode_png item.kind item.payload item.hash)) [
          | inl genuine ↦
              subst (λ b. AllVouched (if not b then sh else out)) (sym genuine)
                (if_holds AllVouched fresh taken noted
                  (first_sight-AllVouched item frames noted genuine from conf kept) kept)
          | inr bad ↦ subst (λ b. AllVouched (if not b then sh else out)) (sym bad) h
        ]

  after_part-AllVouched :
      (sh : Shared T) (r : ReassemblyMap × Option CompleteItem)
      → From peer r.1
      → c ≡ true
      → AllVouched sh
      → AllVouched (after_part cipher w sh r)
  unfolding complete_reassembled_item
  after_part-AllVouched sh (m, none) from conf h = h
  after_part-AllVouched sh (m, some item) from conf h =
      take_in-AllVouched item (build_item_frames w.cbor (label_of item) item.payload)
        (record sh { reassembly = m }) from conf h

  run_arm-AllVouched :
      (msg : Msg) (sh : Shared T)
      → (blocks_until_confirmed msg ≡ true → c ≡ true)
      → AllVouched sh
      → AllVouched (run_arm cipher w peer msg sh)
  unfolding run_arm on_clipboard_item on_chunk_frame
  run_arm-AllVouched (clipboard_item item) sh conf h =
      let r = on_header w.blake3 peer item w.now sh.reassembly in
      let frames = pushed (encode w.cbor (frame_of (clipboard_item item))) [] in
      if_holds AllVouched (is_empty item.payload) (after_part cipher w sh r)
        (take_in cipher w (whole peer item) frames sh)
        (after_part-AllVouched sh r (From-on_header w.blake3 peer w.now item sh.reassembly)
          (conf refl) h)
        (take_in-AllVouched (whole peer item) frames sh refl (conf refl) h)
  run_arm-AllVouched (chunk ch) sh conf h =
      after_part-AllVouched sh (on_chunk w.blake3 peer ch w.now sh.reassembly)
        (From-on_chunk w.blake3 peer w.now ch sh.reassembly) (conf refl) h
  run_arm-AllVouched (battery_status b) sh conf h =
      on_battery-Holds (IsVouched w peer c) (quiet-IsVouched w peer c) peer b sh h
  run_arm-AllVouched (heartbeat b) sh conf h =
      on_heartbeat-Holds cipher (IsVouched w peer c) (quiet-IsVouched w peer c) w peer sh h
  run_arm-AllVouched (ack a) sh conf h =
      on_ack_frame-Holds (IsVouched w peer c) (quiet-IsVouched w peer c) peer a sh h
  run_arm-AllVouched (nak n) sh conf h =
      on_nak_frame-Holds cipher (IsVouched w peer c) (quiet-IsVouched w peer c) w peer n sh h
  run_arm-AllVouched bye sh conf h =
      on_bye-Holds (IsVouched w peer c) (quiet-IsVouched w peer c) w peer sh h
  run_arm-AllVouched revoke sh conf h =
      on_revoke-Holds (IsVouched w peer c) (quiet-IsVouched w peer c) w peer sh h
  run_arm-AllVouched (handshake_init x) sh conf h = h
  run_arm-AllVouched (handshake_resp x) sh conf h = h
  run_arm-AllVouched (hello x) sh conf h =
      on_hello-Holds cipher (IsVouched w peer c) (quiet-IsVouched w peer c) w peer x sh h
  run_arm-AllVouched (resync_offer o) sh conf h =
      on_resync_offer-Holds cipher (IsVouched w peer c) (quiet-IsVouched w peer c) w peer o sh h
  run_arm-AllVouched (resync_pull p) sh conf h =
      on_resync_pull-Holds cipher (IsVouched w peer c) (quiet-IsVouched w peer c) w peer p sh h
  run_arm-AllVouched (pair_confirm pc) sh conf h =
      on_pair_confirm-Holds cipher (IsVouched w peer c) (quiet-IsVouched w peer c) w peer pc sh h
  run_arm-AllVouched pair_verify_started sh conf h =
      on_pair_verify_started-Holds (IsVouched w peer c) (quiet-IsVouched w peer c) w peer sh h

module _ {T : Type 0} (cipher : Cipher T) where
  -- Whatever a peer's frame makes the daemon do, an item that goes to the core comes from that very
  -- peer, which is trusted and confirmed, and its bytes are those that its digest names.
  pub dispatch-IsVouched :
      (w : World) (peer : ℕ) (msg : Msg) (sh : Shared T)
      → sh.effects ≡ []
      → All
          (IsVouched w peer (is_confirmed sh peer))
          (dispatch_inbound_frame cipher w peer msg sh).effects
  unfolding dispatch_inbound_frame
  dispatch-IsVouched w peer msg sh none_yet =
      let c = is_confirmed sh peer in
      let start : AllVouched cipher w peer c sh =
        subst (All (IsVouched w peer c)) (sym none_yet) tt in
      if_split (AllVouched cipher w peer c) (blocks_until_confirmed msg && not c) sh
        (run_arm cipher w peer msg sh) (λ refused. start)
        (λ passes.
          run_arm-AllVouched cipher w peer c msg sh (λ content. ground (arith, passes, content))
            start)
