-- ===== src/Daemon/Driver/Inbound/Once.antt =====
-- crates/fluxsyncd/src/driver/inbound.rs: how often the daemon passes an item on.
use fluxsync.Base.{
  ◌<◌, ◌≡◌, refl, sym, ap, subst, ◌∙◌, Bool, true, false, not, List, [], ◌∷◌, if◌then◌else◌,
  if_holds, Bool-cases, inl, inr,
}
use fluxsync.Base.BTree.{nat_ord}
use fluxsync.Core.Events.{Bytes}
use fluxsync.Core.Id.{EventId}
use fluxsync.Core.Seen.{SeenSet, observe}
use fluxsync.Core.Seen.Laws.{observe_once, observe_all, fresh_count}
use fluxsync.Crypto.Session.{Cipher}
use fluxsync.Daemon.Driver.Frames.{verify_content_hash}
use fluxsync.Daemon.Driver.Inbound.Items.{first_sight, take_in}
use fluxsync.Daemon.Driver.Reassembly.{CompleteItem}
use fluxsync.Daemon.Driver.Shared.{World, Shared, ack_source}
use fluxsync.Daemon.Driver.Inbound.Kept.{
  id_of, same_id, if_not, still_known, seen-fixed, fixed-ack_source, fixed-first_sight,
}

abbrev pub genuine : World → CompleteItem → Bool
genuine w item = verify_content_hash w.blake3 w.decode_png item.kind item.payload item.hash

-- Items that come, each with the world that it comes in and its frames.
abbrev pub Comings : Type 0
Comings = List (World × CompleteItem × List Bytes)

-- The event ids of those whose bytes are the ones that their digests name.
abbrev pub ids_of : Comings → List EventId
ids_of [] = []
ids_of ((w, item, frames) ∷ xs) =
    let rest = ids_of xs in if genuine w item then id_of item ∷ rest else rest

module _ {T : Type 0} (cipher : Cipher T) where
  take_in-seen :
      (w : World) (item : CompleteItem) (frames : List Bytes) (sh : Shared T)
      → genuine w item ≡ true
      → (take_in cipher w item frames sh).mesh_seen ≡ (observe sh.mesh_seen (id_of item)).0
  unfolding take_in
  take_in-seen w item frames sh good =
      let acked = ack_source cipher w item.source item.hash sh in
      let (seen, fresh) = observe acked.mesh_seen (id_of item) in
      let noted : Shared T = record acked { mesh_seen = seen } in
      let taken = first_sight cipher w item frames noted in
      let out = if fresh then taken else noted in
      let same : acked.mesh_seen ≡ sh.mesh_seen =
        seen-fixed sh acked (fixed-ack_source cipher w item.source item.hash sh) in
      ap (λ b. (if not b then sh else out).mesh_seen) good
      ∙ if_holds (λ (s : Shared T). s.mesh_seen ≡ seen) fresh taken noted
          (seen-fixed noted taken (fixed-first_sight cipher w item frames noted)) refl
      ∙ ap (λ s. (observe s (id_of item)).0) same

  take_in-known :
      (w : World) (item : CompleteItem) (frames : List Bytes) (sh : Shared T)
      → observe sh.mesh_seen (id_of item) ≡ (sh.mesh_seen, false)
      → take_in cipher w item frames sh
        ≡ (if genuine w item then ack_source cipher w item.source item.hash sh else sh)
  unfolding take_in
  take_in-known w item frames sh known =
      let acked = ack_source cipher w item.source item.hash sh in
      let same : acked.mesh_seen ≡ sh.mesh_seen =
        seen-fixed sh acked (fixed-ack_source cipher w item.source item.hash sh) in
      let old : observe acked.mesh_seen (id_of item) ≡ (acked.mesh_seen, false) =
        still_known sh.mesh_seen acked.mesh_seen (id_of item) same known in
      ap
        (λ (r : SeenSet × Bool).
          let noted : Shared T = record acked { mesh_seen = r.0 } in
          if not (genuine w item)
          then sh
          else if r.1
          then first_sight cipher w item frames noted
          else noted)
        old
      ∙ if_not (genuine w item) sh acked

  take_in-refused :
      (w : World) (item : CompleteItem) (frames : List Bytes) (sh : Shared T)
      → genuine w item ≡ false
      → take_in cipher w item frames sh ≡ sh
  unfolding take_in
  take_in-refused w item frames sh bad = rw bad refl

  abbrev pub take_all : Shared T → Comings → Shared T
  take_all sh [] = sh
  take_all sh ((w, item, frames) ∷ xs) = take_all (take_in cipher w item frames sh) xs

  take_all-seen :
      (sh : Shared T) (xs : Comings)
      → (take_all sh xs).mesh_seen ≡ observe_all sh.mesh_seen (ids_of xs)
  take_all-seen sh [] = refl
  take_all-seen sh ((w, item, frames) ∷ xs) =
      let next = take_in cipher w item frames sh in
      elim (Bool-cases (genuine w item)) [
        | inl good ↦ rw good (
            take_all-seen next xs
            ∙ ap (λ s. observe_all s (ids_of xs)) (take_in-seen w item frames sh good))
        | inr bad ↦ rw bad (
            take_all-seen next xs
            ∙ ap (λ (s : Shared T). observe_all s.mesh_seen (ids_of xs))
                (take_in-refused w item frames sh bad))
      ]

  -- An item with the bytes that its digest names, whose event id is new, does not go on a second
  -- time while the items that come after it bring fewer new event ids than the ring of the daemon
  -- holds: when an item with its event id comes again, from whatever peer, all that is done is to
  -- acknowledge it, and not even that if its bytes are not those that its digest names.
  pub take_in_once :
      (w later : World) (item again : CompleteItem) (frames frames2 : List Bytes)
      (between : Comings) (sh : Shared T)
      → again.origin ≡ item.origin
      → again.event_seq ≡ item.event_seq
      → genuine w item ≡ true
      → (observe sh.mesh_seen (id_of item)).1 ≡ true
      → fresh_count (observe sh.mesh_seen (id_of item)).0 (ids_of between) < sh.mesh_seen.capacity
      → let now = take_all (take_in cipher w item frames sh) between in
        take_in cipher later again frames2 now
        ≡ (if genuine later again then ack_source cipher later again.source again.hash now else now)
  take_in_once w later item again frames frames2 between sh same_origin same_seq good new few =
      let first = take_in cipher w item frames sh in
      let now = take_all first between in
      let begun = (observe sh.mesh_seen (id_of item)).0 in
      let seen : now.mesh_seen ≡ observe_all begun (ids_of between) =
        take_all-seen first between
        ∙ ap (λ s. observe_all s (ids_of between)) (take_in-seen w item frames sh good) in
      let old : observe now.mesh_seen (id_of item) ≡ (now.mesh_seen, false) =
        still_known (observe_all begun (ids_of between)) now.mesh_seen (id_of item) seen
          (observe_once sh.mesh_seen (id_of item) (ids_of between) new few) in
      let same : id_of again ≡ id_of item = same_id again item same_origin same_seq in
      take_in-known later again frames2 now
        (subst (λ (x : EventId). observe now.mesh_seen x ≡ (now.mesh_seen, false)) (sym same) old)
