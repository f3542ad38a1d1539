-- ===== src/Daemon/Driver/Inbound/Kept.antt =====
-- What an item leaves as it is, of the state that the tasks of the daemon share.
use mathlib.Core.Bool.{true≢false}
use fluxsync.Base.{
  ℕ, ◌≡◌, refl, sym, ap, subst, ◌∙◌, Bool, true, false, not, ◌||◌, List, [], ◌∷◌, if◌then◌else◌,
  is_empty, if_holds, Bool-cases, inl, inr,
}
use fluxsync.Base.BTree.{nat_ord}
use fluxsync.Core.Events.{Bytes}
use fluxsync.Core.Id.{EventId}
use fluxsync.Core.Policy.{Decision, pass, defer, block}
use fluxsync.Core.Seen.{SeenSet, observe, contains}
use fluxsync.Core.Dedup.{push_back}
use fluxsync.Crypto.Session.{Cipher}
use fluxsync.Daemon.Driver.Frames.{frame_of}
use fluxsync.Daemon.Driver.Inbound.Items.{
  verdict, admit, admit_item, blocks_relay, hand_over, first_sight,
}
use fluxsync.Daemon.Driver.Reassembly.{CompleteItem}
use fluxsync.Daemon.Driver.Shared.{
  World, Shared, PendingPair, PeerMeta, emit, say, send, send_encoded, send_msg, ack_source,
  send_frames, send_to_all, forward_targets, forward_frames,
}
use fluxsync.Proto.Codec.{Result, ok, err, ProtoError, encode}
use fluxsync.Proto.Msg.{ack}
use fluxsync.Proto.Types.{Kind}

abbrev pub id_of : CompleteItem → EventId
id_of item = record { origin = item.origin; seq = item.event_seq }

pub same_id :
    (a b : CompleteItem) → a.origin ≡ b.origin → a.event_seq ≡ b.event_seq → id_of a ≡ id_of b
same_id a b same_origin same_seq =
    let mixed : EventId = record { origin = b.origin; seq = a.event_seq } in
    let left : id_of a ≡ mixed = ap (λ o. record { origin = o; seq = a.event_seq }) same_origin in
    let right : mixed ≡ id_of b = ap (λ n. record { origin = b.origin; seq = n }) same_seq in
    left ∙ right

pub if_not : {A : Type 0} → (b : Bool) (x y : A) → (if not b then x else y) ≡ (if b then y else x)
if_not true x y = refl
if_not false x y = refl

observe_old : (s : SeenSet) (x : EventId) → (observe s x).1 ≡ false → observe s x ≡ (s, false)
unfolding observe
observe_old s x old = elim (Bool-cases (contains s x)) [
  | inl there ↦ rw there refl
  | inr new ↦
      let pushed : SeenSet × Bool = (record s { inner = push_back s.capacity s.inner x }, true) in
      let known : SeenSet × Bool = (s, false) in
      absurd (
        true≢false
          (subst (λ b. (if◌then◌else◌ {A = SeenSet × Bool} b known pushed).1 ≡ false) new old))
]

pub still_known :
    (s now : SeenSet) (x : EventId)
    → now ≡ s
    → observe s x ≡ (s, false)
    → observe now x ≡ (now, false)
still_known s now x same known = subst (λ t. observe t x ≡ (t, false)) (sym same) known

module _ {T : Type 0} where
  -- What neither a send nor an item changes but for the event ids.
  abbrev pub fixed : Shared T → List (ℕ × PendingPair) × List (ℕ × PeerMeta) × SeenSet
  fixed sh = (sh.pending_pairs, sh.peer_meta, sh.mesh_seen)

  -- Who waits for a confirmation, and what the peers can take.
  abbrev pub gates : Shared T → List (ℕ × PendingPair) × List (ℕ × PeerMeta)
  gates sh = (sh.pending_pairs, sh.peer_meta)

  pub seen-fixed : (sh now : Shared T) → fixed now ≡ fixed sh → now.mesh_seen ≡ sh.mesh_seen
  seen-fixed sh now same =
      ap (λ (f : List (ℕ × PendingPair) × List (ℕ × PeerMeta) × SeenSet). f.2) same

  pub gates-fixed : (sh now : Shared T) → fixed now ≡ fixed sh → gates now ≡ gates sh
  gates-fixed sh now same =
      ap (λ (f : List (ℕ × PendingPair) × List (ℕ × PeerMeta) × SeenSet). (f.0, f.1)) same

  fixed-admit :
      (w : World) (d : Decision) (item : CompleteItem) (sh : Shared T)
      → fixed (admit w d item sh) ≡ fixed sh
  fixed-admit w pass item sh = refl
  fixed-admit w defer item sh = refl
  fixed-admit w block item sh = refl

  pub fixed-admit_item :
      (w : World) (item : CompleteItem) (sh : Shared T) → fixed (admit_item w item sh) ≡ fixed sh
  unfolding admit_item
  fixed-admit_item w item sh =
      if_holds (λ (s : Shared T). fixed s ≡ fixed sh) item.sensitive sh
        (admit w (verdict sh item) item sh) refl (fixed-admit w (verdict sh item) item sh)

  effects-admit :
      (w : World) (d : Decision) (item : CompleteItem) (sh : Shared T)
      → (admit w d item sh).effects ≡ sh.effects
  effects-admit w pass item sh = refl
  effects-admit w defer item sh = refl
  effects-admit w block item sh = refl

  pub effects-admit_item :
      (w : World) (item : CompleteItem) (sh : Shared T)
      → (admit_item w item sh).effects ≡ sh.effects
  unfolding admit_item
  effects-admit_item w item sh =
      if_holds (λ (s : Shared T). s.effects ≡ sh.effects) item.sensitive sh
        (admit w (verdict sh item) item sh) refl (effects-admit w (verdict sh item) item sh)

module _ {T : Type 0} (cipher : Cipher T) where
  fixed-send_encoded :
      (p : ℕ) (r : Result Bytes ProtoError) (sh : Shared T)
      → fixed (send_encoded cipher p r sh) ≡ fixed sh
  unfolding send say
  fixed-send_encoded p (ok bytes) sh = refl
  fixed-send_encoded p (err e) sh = refl

  pub fixed-ack_source :
      (w : World) (p hash : ℕ) (sh : Shared T) → fixed (ack_source cipher w p hash sh) ≡ fixed sh
  unfolding ack_source send_msg
  fixed-ack_source w p hash sh =
      fixed-send_encoded p (encode w.cbor (frame_of (ack (record { lamport = 0; hash = hash })))) sh

  fixed-send_frames :
      (p : ℕ) (fs : List Bytes) (sh : Shared T) → fixed (send_frames cipher p fs sh) ≡ fixed sh
  unfolding send_frames
  fixed-send_frames p [] sh = refl
  fixed-send_frames p (f ∷ fs) sh =
      fixed-send_frames p fs (send cipher p f sh) ∙ unfold send in unfold say in refl

  fixed-send_to_all :
      (ps : List ℕ) (fs : List Bytes) (sh : Shared T)
      → fixed (send_to_all cipher ps fs sh) ≡ fixed sh
  unfolding send_to_all
  fixed-send_to_all [] fs sh = refl
  fixed-send_to_all (p ∷ ps) fs sh =
      fixed-send_to_all ps fs (send_frames cipher p fs sh) ∙ fixed-send_frames p fs sh

  fixed-forward_frames :
      (w : World) (kind : Kind) (source origin hash : ℕ) (fs : List Bytes) (sh : Shared T)
      → fixed (forward_frames cipher w kind source origin hash fs sh) ≡ fixed sh
  unfolding forward_frames
  fixed-forward_frames w kind source origin hash fs sh =
      let targets = forward_targets sh kind source origin in
      if_holds (λ (s : Shared T). fixed s ≡ fixed sh) (is_empty targets || is_empty fs) sh _ refl
        (fixed-send_to_all targets fs sh)

  pub fixed-first_sight :
      (w : World) (item : CompleteItem) (fs : List Bytes) (sh : Shared T)
      → fixed (first_sight cipher w item fs sh) ≡ fixed sh
  unfolding first_sight hand_over emit say
  fixed-first_sight w item fs sh =
      let admitted = admit_item w item sh in
      if_holds (λ (s : Shared T). fixed s ≡ fixed sh) (blocks_relay sh item) admitted
        (forward_frames cipher w item.kind item.source item.origin item.hash fs admitted)
        (fixed-admit_item w item sh)
        (fixed-forward_frames w item.kind item.source item.origin item.hash fs admitted
          ∙ fixed-admit_item w item sh)
