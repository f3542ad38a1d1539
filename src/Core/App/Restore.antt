-- ===== src/Core/App/Restore.antt =====
-- crates/fluxsync-core/src/app.rs: `hex32_decode` and `App::restore_history`, which fills the list
-- and the dedup ring from what the vault kept.
use Prim.Native.String.{len}
use Prim.Native.Char.{code}
use fluxsync.Base.{
  ℕ, ◌+◌, ◌*◌, not, List, [], ◌∷◌, String, Option, none, some, ◌==◌, if◌then◌else◌, take,
}
use fluxsync.Base.Text.{to_digit}
use fluxsync.Core.App.{App}
use fluxsync.Core.App.History.{cap_history_keeping_favorites}
use fluxsync.Core.Dedup.{DedupRing}
use fluxsync.Core.Dedup
use fluxsync.Core.State.{HistoryItem}

infixl 5 ◌>>=◌
◌>>=◌ {ℓ κ} : {A : Type ℓ} {B : Type κ} → Option A → (A → Option B) → Option B
none >>= f = none
some a >>= f = f a

-- The digits from the left, on top of the number read so far.
decode_digits : String → ℕ → Option ℕ
unfolding ◌>>=◌
decode_digits String.[] n = some n
decode_digits (String.◌∷◌ c s) n = to_digit (code c) >>= λ d. decode_digits s (n * 16 + d)

unfoldable pub hex32_decode : String → Option ℕ
unfolding decode_digits
hex32_decode s = if not (len s == 64) then none else decode_digits s 0

unfoldable pub observe_decoded : DedupRing → Option ℕ → DedupRing
observe_decoded ring none = ring
observe_decoded ring (some bytes) = (Dedup.observe ring bytes).0

-- `.rev()`: the last row first.
unfoldable pub seed : List HistoryItem → DedupRing → DedupRing
unfolding observe_decoded hex32_decode
seed [] ring = ring
seed (item ∷ items) ring = observe_decoded (seed items ring) (hex32_decode item.hash)

unfoldable pub restore_history : App → List HistoryItem → App
unfolding seed
restore_history app items =
    let s = app.state in
    let kept = cap_history_keeping_favorites items in
    record app {
      state = record s { history = kept };
      dedup = seed (take app.dedup.capacity kept) app.dedup;
    }
