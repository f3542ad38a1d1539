-- ===== src/Daemon/Driver/Actions/Wiped.antt =====
-- After a wipe nothing of what was wiped leaves the device.
use fluxsync.Base.{
  ℕ, ◌≡◌, refl, sym, ap, ◌∙◌, false, List, [], ◌∷◌, String, Option, none, some, ◌==◌, if_split,
  if_holds, not, take,
}
use mathlib.Core.Bool.{true≢false}
use fluxsync.Core.App.{App}
use fluxsync.Core.State.{HistoryItem}
use fluxsync.Crypto.Session.{Cipher}
use fluxsync.Daemon.Driver.Actions.{sync_security_wipe_if_needed}
use fluxsync.Daemon.Driver.Inbound.Links.{on_nak_frame}
use fluxsync.Daemon.Driver.Inbound.Resync.{on_resync_pull, serve_all, serve_hash, serve_entry}
use fluxsync.Daemon.Driver.Inflight.{retransmit, on_nak}
use fluxsync.Daemon.Driver.Pulls.{build_resync_offer}
use fluxsync.Daemon.Driver.Shared.{World, Shared, send_frames, resync_authorized}
use fluxsync.Daemon.Outbox
use fluxsync.Proto.Codec.{max_resync_hashes}
use fluxsync.Proto.Msg.{Nak, ResyncPull}

module _ {T : Type 0} (cipher : Cipher T) where
  -- Nothing is kept to send again.
  abbrev cleared : Shared T → Shared T
  cleared sh = record sh { outbox = Outbox.clear_all sh.outbox; outbox_stage = []; inflight = [] }

  serve_hash_nothing :
      (w : World) (peer : ℕ) (o : Option ℕ) (sh : Shared T)
      → serve_hash cipher w peer o (cleared sh) ≡ cleared sh
  unfolding serve_hash serve_entry
  serve_hash_nothing w peer none sh = refl
  serve_hash_nothing w peer (some hash) sh = unfold Outbox.clear_all in unfold Outbox.get in refl

  serve_nothing :
      (w : World) (peer : ℕ) (hexes : List String) (sh : Shared T)
      → serve_all cipher w peer hexes (cleared sh) ≡ cleared sh
  unfolding serve_all
  serve_nothing w peer [] sh = refl
  serve_nothing w peer (h ∷ hs) sh =
      ap (serve_all cipher w peer hs) (serve_hash_nothing w peer (w.unhex h) sh)
      ∙ serve_nothing w peer hs sh

  pull_nothing :
      (w : World) (peer : ℕ) (pull : ResyncPull) (sh : Shared T)
      → on_resync_pull cipher w peer pull (cleared sh) ≡ cleared sh
  unfolding on_resync_pull
  pull_nothing w peer pull sh =
      if_holds (λ (s : Shared T). s ≡ cleared sh) (not (resync_authorized (cleared sh) peer))
        (cleared sh) (serve_all cipher w peer (take max_resync_hashes pull.hashes) (cleared sh))
        refl (serve_nothing w peer (take max_resync_hashes pull.hashes) sh)

  nak_nothing :
      (w : World) (peer : ℕ) (n : Nak) (sh : Shared T)
      → on_nak_frame cipher w peer n (cleared sh) ≡ cleared sh
  unfolding on_nak_frame on_nak send_frames
  nak_nothing w peer n sh = refl

  -- What is kept does not leave the device, whichever peer asks.
  abbrev pub IsSilent : World → ℕ → ResyncPull → Nak → Shared T → Type 0
  IsSilent w peer pull n sh =
      (on_resync_pull cipher w peer pull sh ≡ sh)
      × (on_nak_frame cipher w peer n sh ≡ sh)
      × (retransmit w.now sh.inflight ≡ ([], []))
      × ((build_resync_offer (Outbox.hashes sh.outbox w.now)).hashes ≡ [])
      × (sh.outbox_stage ≡ [])

  cleared-IsSilent :
      (w : World) (peer : ℕ) (pull : ResyncPull) (n : Nak) (sh : Shared T)
      → IsSilent w peer pull n (cleared sh)
  unfolding retransmit build_resync_offer Outbox.hashes Outbox.clear_all
  cleared-IsSilent w peer pull n sh =
      (pull_nothing w peer pull sh, nak_nothing w peer n sh, refl, refl, refl)

  -- When the core has wiped the history since the last look, nothing that the daemon kept leaves it
  -- any more: a pull and a request for chunks are answered with nothing, whichever peer they come
  -- from, nothing is retransmitted, nothing is offered, and no item is staged for the outbox.
  pub wiped-IsSilent :
      (w : World) (app : App) (last_wipe_gen peer : ℕ) (pull : ResyncPull) (n : Nak) (sh : Shared T)
      → (app.state.vault_wipe_gen == last_wipe_gen) ≡ false
      → IsSilent w peer pull n (sync_security_wipe_if_needed app last_wipe_gen sh).1
  unfolding sync_security_wipe_if_needed
  wiped-IsSilent w app last_wipe_gen peer pull n sh newer =
      if_split (λ (r : ℕ × Shared T × Option (List HistoryItem)). IsSilent w peer pull n r.1)
        (app.state.vault_wipe_gen == last_wipe_gen) (last_wipe_gen, sh, none)
        (app.state.vault_wipe_gen, cleared sh, some app.state.history)
        (λ same. absurd (true≢false (sym same ∙ newer)))
        (λ differs. cleared-IsSilent w peer pull n sh)
