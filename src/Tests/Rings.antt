-- ===== src/Tests/Rings.antt =====
-- The clock, the rings, the transition table and the policy at concrete values.
use fluxsync.Base.{ℕ, ◌≡◌, ◌≢◌, ◌≤◌, refl, true, false, [], ◌∷◌, arith, some}
use fluxsync.Core.Dedup.{DedupRing, observe_clipboard, observe, push_back}
use fluxsync.Core.Dedup.Echo.{seen_now, observe_clipboard_echo}
use fluxsync.Core.Dedup.Shape.{IsWellFormed, observe-keeps_IsWellFormed}
use fluxsync.Core.Id.{EventId}
use fluxsync.Core.Policy.{
  FirewallPolicy, default, ask, defer, pass, inbound, decide, normalized, strictness,
  decide-normalized,
}
use fluxsync.Core.Seen.{SeenSet}
use fluxsync.Proto.Types.{text}

abbrev ring : DedupRing
ring = record {
  capacity = 2;
  inner =
      record { hash = 1; seen_at_ms = some 100 } ∷ record { hash = 2; seen_at_ms = some 200 } ∷ [];
}

-- Content 1 again, long after: it becomes the newest, and nothing goes.
observe_clipboard_echo_example : observe_clipboard ring 1 9999999 ≡ (
  record ring { inner = record { hash = 2; seen_at_ms = some 200 } ∷ seen_now 1 9999999 ∷ [] },
  true,
)
unfolding push_back
observe_clipboard_echo_example = observe_clipboard_echo ring 1 9999999 (refl, (refl, tt))

observe-keeps_IsWellFormed_example :
    IsWellFormed (observe ring 3).0 × IsWellFormed (observe_clipboard ring 3 300).0
observe-keeps_IsWellFormed_example =
    observe-keeps_IsWellFormed ring 3 300 (omega arith)
      (record { bounded = omega arith; distinct = (refl, (refl, tt)) })

abbrev seen : SeenSet
seen = record { capacity = 2; inner = [] }

abbrev id : ℕ → EventId
id n = record { origin = 4; seq = n }

abbrev asking : FirewallPolicy
asking = record default { enabled = true; text_rule = ask }

decide-normalized_example :
    (decide (normalized asking) text false inbound ≢ defer)
    × (strictness (decide asking text false inbound)
        ≤ strictness (decide (normalized asking) text false inbound))
    × (decide asking text false inbound ≡ pass
        → decide (normalized asking) text false inbound ≡ pass)
decide-normalized_example = decide-normalized asking text false inbound
