-- ===== src/Daemon/Driver/Pulls/Tracked.antt =====
-- What is asked of a peer is recognised when it comes.
use fluxsync.Base.{
  ℕ, ◌+◌, ◌-◌, ◌≤◌, ◌<◌, ◌≡◌, refl, sym, ap, ◌∙◌, Bool, true, List, [], ◌∷◌, String, Option, none,
  some, arith, leb, ◌==◌, ==_self, length, retain, All, All-append, if_holds, if_split,
  length-retain-le,
}
use fluxsync.Base.BTree
use fluxsync.Base.BTree.{nat_ord}
use fluxsync.Base.BTree.Laws.{get-insert, get-remove, length-insert}
use fluxsync.Daemon.Driver.Pulls.{
  Instants, PendingPulls, is_fresh, pulls_of, store_pulls, admit_pull, admit_pulls,
  track_pending_pulls, taken, take_pending_pull,
}

-- A hash that is asked for, with the instant of now.
abbrev IsMarked : (String → Option ℕ) → ℕ → Instants → String → Type 0
IsMarked unhex now m hex = (hash : ℕ) → unhex hex ≡ some hash → BTree.get hash m ≡ some now

insert-IsMarked :
    (unhex : String → Option ℕ) (now hash : ℕ) (m : Instants) (hexes : List String)
    → All (IsMarked unhex now m) hexes
    → All (IsMarked unhex now (BTree.insert hash now m)) hexes
insert-IsMarked unhex now hash m [] h = tt
insert-IsMarked unhex now hash m (x ∷ xs) h = (
  λ k e.
      get-insert k hash now m
      ∙ if_holds (λ (o : Option ℕ). o ≡ some now) (k == hash) (some now) (BTree.get k m) refl
          (h.0 k e),
  insert-IsMarked unhex now hash m xs h.1,
)

some_inj : {x y : ℕ} → some x ≡ some y → x ≡ y
some_inj h = ground arith

admit_pull-IsMarked :
    (unhex : String → Option ℕ) (now : ℕ) (hex : String) (o : Option ℕ)
    (found : Instants × List String)
    → unhex hex ≡ o
    → All (IsMarked unhex now found.0) found.1
    → let r = admit_pull now hex o found in All (IsMarked unhex now r.0) r.1
admit_pull-IsMarked unhex now hex none found e h = h
admit_pull-IsMarked unhex now hex (some hash) (m, tracked) e h =
    let n = BTree.insert hash now m in
    All-append (IsMarked unhex now n) tracked (hex ∷ [])
      (insert-IsMarked unhex now hash m tracked h)
      (
        λ k known.
            let same : k ≡ hash = some_inj (sym known ∙ e) in
            get-insert k hash now m ∙ rw (same, ==_self hash) refl,
        tt,
      )

admit_pulls-IsMarked :
    (unhex : String → Option ℕ) (now : ℕ) (hexes : List String) (found : Instants × List String)
    → All (IsMarked unhex now found.0) found.1
    → let r = admit_pulls unhex now hexes found in All (IsMarked unhex now r.0) r.1
admit_pulls-IsMarked unhex now [] found h = h
admit_pulls-IsMarked unhex now (x ∷ xs) found h =
    if_holds (λ (r : Instants × List String). All (IsMarked unhex now r.0) r.1)
      (leb 128 (length found.0)) found (admit_pulls unhex now xs (admit_pull now x (unhex x) found))
      h
      (admit_pulls-IsMarked unhex now xs (admit_pull now x (unhex x) found)
        (admit_pull-IsMarked unhex now x (unhex x) found refl h))

length-admit_pull :
    (now : ℕ) (hex : String) (o : Option ℕ) (found : Instants × List String)
    → length (admit_pull now hex o found).0 ≤ length found.0 + 1
length-admit_pull now hex none found = omega arith
length-admit_pull now hex (some hash) (m, tracked) = length-insert hash now m

length-admit_pulls :
    (unhex : String → Option ℕ) (now : ℕ) (hexes : List String) (found : Instants × List String)
    → length found.0 ≤ 128
    → length (admit_pulls unhex now hexes found).0 ≤ 128
length-admit_pulls unhex now [] found le = le
length-admit_pulls unhex now (x ∷ xs) found le =
    if_split (λ (r : Instants × List String). length r.0 ≤ 128) (leb 128 (length found.0)) found
      (admit_pulls unhex now xs (admit_pull now x (unhex x) found)) (λ full. le)
      (λ room.
        length-admit_pulls unhex now xs (admit_pull now x (unhex x) found)
          (ground (arith, room, length-admit_pull now x (unhex x) found)))

contains-retain :
    (hash at later : ℕ) (m : Instants)
    → BTree.get hash m ≡ some at
    → later - at < 60000
    → BTree.contains_key hash (retain (is_fresh later) m) ≡ true
contains-retain hash at later [] held fresh = ground arith
contains-retain hash at later ((k, t) ∷ m) held fresh =
    ground (arith, contains-retain hash at later m)

get-store_pulls :
    (peer hash at : ℕ) (m : Instants) (pulls : PendingPulls)
    → BTree.get hash m ≡ some at
    → BTree.get peer (store_pulls peer m pulls) ≡ some m
get-store_pulls peer hash at [] pulls held = ground arith
get-store_pulls peer hash at (e ∷ m) pulls held =
    get-insert peer peer (e ∷ m) pulls ∙ rw (==_self peer) refl

length-store_pulls :
    (peer : ℕ) (m : Instants) (pulls : PendingPulls)
    → length m ≤ 128
    → length (pulls_of (BTree.get peer (store_pulls peer m pulls))) ≤ 128
length-store_pulls peer [] pulls le =
    let gone : BTree.get peer (BTree.remove peer pulls) ≡ none =
      get-remove peer peer pulls ∙ rw (==_self peer) refl in
    rw gone (omega arith)
length-store_pulls peer (e ∷ m) pulls le =
    let here : BTree.get peer (BTree.insert peer (e ∷ m) pulls) ≡ some (e ∷ m) =
      get-insert peer peer (e ∷ m) pulls ∙ rw (==_self peer) refl in
    rw here le

-- A hash that comes is known as one that was asked for; a text that is no hash never comes.
abbrev pub is_recognised : PendingPulls → ℕ → ℕ → Option ℕ → Bool
is_recognised pulls peer later none = true
is_recognised pulls peer later (some hash) = (take_pending_pull pulls peer hash later).1

taken_known :
    (pulls : PendingPulls) (peer hash now later : ℕ) (m : Instants)
    → BTree.get peer pulls ≡ some m
    → BTree.get hash m ≡ some now
    → later - now < 60000
    → (take_pending_pull pulls peer hash later).1 ≡ true
unfolding take_pending_pull
taken_known pulls peer hash now later m here marked soon =
    ap (λ o. (taken pulls peer hash later o).1) here ∙ contains-retain hash now later m marked soon

recognise :
    (unhex : String → Option ℕ) (pulls : PendingPulls) (peer now later : ℕ) (m : Instants)
    (hex : String) (o : Option ℕ)
    → unhex hex ≡ o
    → IsMarked unhex now m hex
    → later - now < 60000
    → is_recognised (store_pulls peer m pulls) peer later o ≡ true
recognise unhex pulls peer now later m hex none e h soon = refl
recognise unhex pulls peer now later m hex (some hash) e h soon =
    let marked = h hash e in
    taken_known (store_pulls peer m pulls) peer hash now later m
      (get-store_pulls peer hash now m pulls marked) marked soon

recognise-All :
    (unhex : String → Option ℕ) (pulls : PendingPulls) (peer now later : ℕ) (m : Instants)
    (hexes : List String)
    → All (IsMarked unhex now m) hexes
    → later - now < 60000
    → All (λ hex. is_recognised (store_pulls peer m pulls) peer later (unhex hex) ≡ true) hexes
recognise-All unhex pulls peer now later m [] h soon = tt
recognise-All unhex pulls peer now later m (x ∷ xs) h soon = (
  recognise unhex pulls peer now later m x (unhex x) refl h.0 soon,
  recognise-All unhex pulls peer now later m xs h.1 soon,
)

-- Every hash that is asked of a peer is noted: when it comes from that peer within a minute, it is
-- known as one that was asked for. And no more than 128 are noted for a peer, however many it offers.
pub pulls_recognised :
    (unhex : String → Option ℕ) (pulls : PendingPulls) (peer : ℕ) (missing : List String)
    (now later : ℕ)
    → length (pulls_of (BTree.get peer pulls)) ≤ 128
    → later - now < 60000
    → let (noted, asked) = track_pending_pulls unhex pulls peer missing now in
      All (λ hex. is_recognised noted peer later (unhex hex) ≡ true) asked
      × (length (pulls_of (BTree.get peer noted)) ≤ 128)
unfolding track_pending_pulls
pulls_recognised unhex pulls peer missing now later few soon =
    let swept = retain (is_fresh now) (pulls_of (BTree.get peer pulls)) in
    let short = length-retain-le (is_fresh now) (pulls_of (BTree.get peer pulls)) in
    let (m, asked) = admit_pulls unhex now missing (swept, []) in
    (
      recognise-All unhex pulls peer now later m asked
          (admit_pulls-IsMarked unhex now missing (swept, []) tt) soon,
      length-store_pulls peer m pulls
          (length-admit_pulls unhex now missing (swept, []) (omega (arith, short, few))),
    )
