-- ===== src/Daemon/Outbox.antt =====
-- crates/fluxsyncd/src/outbox.rs: the resend buffer. `order` has the oldest hash first; `entries`
-- is a map, of which nothing reads the order. Instants are milliseconds, and `now` is an argument.
pub mod Sync
pub mod Removal
pub mod Caps
use fluxsync.Base.{
  ℕ, ◌+◌, ◌-◌, ◌*◌, Bool, true, false, not, ◌||◌, List, [], ◌∷◌, ◌++◌, map, Option, none, some,
  ◌==◌, ltb, if◌then◌else◌, retain, length, position, remove_at, saturating_add,
}
use fluxsync.Base.BTree
use fluxsync.Base.BTree.{nat_ord}
use fluxsync.Proto.Types.{Kind}

abbrev pub max_items : ℕ
max_items = 16

-- Twice `fluxsync_proto::MAX_PAYLOAD`.
abbrev pub max_total_bytes : ℕ
max_total_bytes = 33554432

abbrev pub max_age_ms : ℕ
max_age_ms = 86400000

pub record Entry : Type 0 where
  pub payload : List ℕ
  pub kind : Kind
  pub origin : ℕ
  pub seq : ℕ
  pub created : ℕ

pub record Outbox : Type 0 where
  pub order : List ℕ
  pub entries : List (ℕ × Entry)
  pub total_bytes : ℕ
  pub max_age : ℕ

unfoldable pub with_max_age : ℕ → Outbox
with_max_age age = record { order = []; entries = []; total_bytes = 0; max_age = age }

unfoldable pub new : Outbox
unfolding with_max_age
new = with_max_age max_age_ms

-- `-` on ℕ saturates as `saturating_duration_since` does.
abbrev pub is_expired : ℕ → ℕ → Entry → Bool
is_expired max_age now e = ltb max_age (now - e.created)

-- The hash goes from `order`, where it stands there.
unfoldable pub drop_hash : ℕ → List ℕ → List ℕ
drop_hash hash order = drop_at (position (λ h. h == hash) order)
  where
    drop_at : Option ℕ → List ℕ
    drop_at none = order
    drop_at (some pos) = remove_at order pos

unfoldable pub remove_entry : Outbox → ℕ → Option Entry → Outbox
unfolding drop_hash
remove_entry o hash none = o
remove_entry o hash (some old) = record o {
  entries = BTree.remove hash o.entries;
  total_bytes = o.total_bytes - length old.payload;
  order = drop_hash hash o.order;
}

unfoldable pub remove : Outbox → ℕ → Outbox
unfolding remove_entry
remove o hash = remove_entry o hash (BTree.get hash o.entries)

unfoldable pub remove_many : Outbox → List ℕ → Outbox
unfolding remove
remove_many o [] = o
remove_many o (hash ∷ hashes) = remove_many (remove o hash) hashes

unfoldable pub purge_expired : Outbox → ℕ → Outbox
unfolding remove_many
purge_expired o now =
    remove_many o (map (λ e. e.0) (retain (λ e. is_expired o.max_age now e.1) o.entries))

-- The loop of `evict_over_caps` with the oldest hash taken off.
unfoldable pub evict_entry : Outbox → ℕ → Option Entry → Outbox
evict_entry o oldest none = o
evict_entry o oldest (some e) = record o {
  entries = BTree.remove oldest o.entries;
  total_bytes = o.total_bytes - length e.payload;
}

abbrev pub is_over_caps : List ℕ → Outbox → Bool
is_over_caps order o = ltb max_items (length order) || ltb max_total_bytes o.total_bytes

unfoldable pub evict_from : List ℕ → Outbox → Outbox
unfolding evict_entry
evict_from [] o = record o { order = [] }
evict_from (oldest ∷ order) o =
    let rest = evict_from order (evict_entry o oldest (BTree.get oldest o.entries)) in
    if is_over_caps (oldest ∷ order) o then rest else record o { order = oldest ∷ order }

unfoldable pub evict_over_caps : Outbox → Outbox
unfolding evict_from
evict_over_caps o = evict_from o.order o

-- `insert` behind the purge.
unfoldable pub append : Outbox → ℕ → Entry → Outbox
append o hash entry = record o {
  total_bytes = saturating_add o.total_bytes (length entry.payload);
  order = o.order ++ hash ∷ [];
  entries = BTree.insert hash entry o.entries;
}

unfoldable pub insert : Outbox → ℕ → Entry → ℕ → Outbox
unfolding purge_expired remove append evict_over_caps
insert o hash entry now = evict_over_caps (append (remove (purge_expired o now) hash) hash entry)

abbrev pub live : ℕ → ℕ → Option Entry → Option Entry
live max_age now none = none
live max_age now (some e) = if not (is_expired max_age now e) then some e else none

unfoldable pub get : Outbox → ℕ → ℕ → Option Entry
get o hash now = live o.max_age now (BTree.get hash o.entries)

abbrev pub is_live : Option Entry → Bool
is_live none = false
is_live (some e) = true

-- `.rev()`
abbrev pub reversed : List ℕ → List ℕ
reversed [] = []
reversed (h ∷ hs) = reversed hs ++ h ∷ []

unfoldable pub hashes : Outbox → ℕ → List ℕ
unfolding get
hashes o now = retain (λ h. is_live (get o h now)) (reversed o.order)

unfoldable pub len : Outbox → ℕ → ℕ
len o now = length (retain (λ e. not (is_expired o.max_age now e.1)) o.entries)

unfoldable pub clear_all : Outbox → Outbox
clear_all o = record o { order = []; entries = []; total_bytes = 0 }
