-- ===== src/Core/App/History.antt =====
-- crates/fluxsync-core/src/app.rs: the list on screen and what keeps it short.
use package.text.Mathlib.Text.{◌==◌ as str_eq}
use fluxsync.Base.{
  ℕ, zero, suc, ◌+◌, ◌-◌, ◌*◌, min, Bool, true, false, not, ◌&&◌, ◌||◌, List, [], ◌∷◌, ◌++◌, String,
  Option, none, some, ltb, leb, ◌==◌, if◌then◌else◌, any, retain, length, position, remove_at,
  u64_max,
}
use fluxsync.Base.BTree
use fluxsync.Base.BTree.{string_ord}
use fluxsync.Proto.Types.{Kind, text, url, code, image, file}
use fluxsync.Core.App.{App, hex32, history_soft_cap}
use fluxsync.Core.Error.{Result, ok, err, invalid_retention}
use fluxsync.Core.State.{HistoryItem}

-- The loop of `cap_history_keeping_favorites`: how many plain items have been met.
unfoldable pub cap_from : ℕ → List HistoryItem → List HistoryItem
cap_from met [] = []
cap_from met (h ∷ hs) =
    let rest = cap_from (if h.favorite then met else met + 1) hs in
    if h.favorite || leb (met + 1) history_soft_cap then h ∷ rest else rest

unfoldable pub cap_history_keeping_favorites : List HistoryItem → List HistoryItem
unfolding cap_from
cap_history_keeping_favorites hs = cap_from 0 hs

abbrev pub kind_eq : Kind → Kind → Bool
kind_eq text text = true
kind_eq url url = true
kind_eq code code = true
kind_eq image image = true
kind_eq file file = true
kind_eq _ _ = false

abbrev pub same_row : HistoryItem → HistoryItem → Bool
same_row item h =
    str_eq h.hash item.hash && kind_eq h.kind item.kind && str_eq h.preview item.preview

-- `item.favorite |= self.state.history.remove(pos).favorite`
abbrev pub pinned_at : List HistoryItem → ℕ → Bool
pinned_at [] i = false
pinned_at (h ∷ hs) zero = h.favorite
pinned_at (h ∷ hs) (suc i) = pinned_at hs i

unfoldable pub take_row : List HistoryItem → HistoryItem → Option ℕ → List HistoryItem
take_row hs item none = item ∷ hs
take_row hs item (some pos) =
    record item { favorite = item.favorite || pinned_at hs pos } ∷ remove_at hs pos

unfoldable pub cap_if_long : List HistoryItem → List HistoryItem
unfolding cap_history_keeping_favorites
cap_if_long hs = if ltb history_soft_cap (length hs) then cap_history_keeping_favorites hs else hs

unfoldable pub push_row : List HistoryItem → HistoryItem → List HistoryItem
unfolding take_row cap_if_long
push_row hs item = cap_if_long (take_row hs item (position (same_row item) hs))

unfoldable pub push_history : App → HistoryItem → App
push_history app item =
    let s = app.state in record app { state = record s { history = push_row s.history item } }

abbrev pub retention_choices : List ℕ
retention_choices = 3600 ∷ 86400 ∷ 604800 ∷ 0 ∷ []

abbrev pub is_kept : ℕ → ℕ → HistoryItem → Bool
is_kept now_ms max_age_ms h =
    h.favorite || h.created_ms == 0 || leb (now_ms - h.created_ms) max_age_ms

unfoldable pub expire_history : App → ℕ → App × Bool
expire_history app now_ms =
    let s = app.state in
    let kept = retain (is_kept now_ms (min (s.history_retention_secs * 1000) u64_max)) s.history in
    if s.history_retention_secs == 0
    then (app, false)
    else (record app { state = record s { history = kept } }, not (length kept == length s.history))

unfoldable pub set_history_retention : App → ℕ → ℕ → Result App
unfolding expire_history
set_history_retention app secs now_ms =
    let s = app.state in
    if any (λ c. c == secs) retention_choices
    then ok
        (expire_history (record app { state = record s { history_retention_secs = secs } })
          now_ms).0
    else err (invalid_retention secs)

abbrev pub has_row : List HistoryItem → String → Bool
has_row hs key = any (λ h. str_eq h.hash key) hs

unfoldable pub add_device : String → List String → List String × Bool
add_device device ds =
    if any (λ d. str_eq d device) ds then (ds, false) else (ds ++ device ∷ [], true)

unfoldable pub or_empty : Option (List String) → List String
or_empty none = []
or_empty (some ds) = ds

unfoldable pub mark_delivered : App → ℕ → String → App × Bool
unfolding add_device or_empty hex32
mark_delivered app hash device =
    let s = app.state in
    let key = hex32 hash in
    let live = retain (λ e. has_row s.history e.0) s.delivered in
    let (devices, added) = add_device device (or_empty (BTree.get key live)) in
    if has_row s.history key
    then (record app { state = record s { delivered = BTree.insert key devices live } }, added)
    else (app, false)
