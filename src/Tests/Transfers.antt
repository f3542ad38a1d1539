-- ===== src/Tests/Transfers.antt =====
-- A transfer in chunks, and the wait for its acknowledgement.
use fluxsync.Base.{
  ℕ, zero, suc, ◌+◌, ◌≤◌, ◌≡◌, refl, true, false, List, [], ◌∷◌, none, any, is_empty, All, length,
  arith,
}
use fluxsync.Base.BTree
use fluxsync.Base.BTree.{nat_ord}
use fluxsync.Core.Events.{Bytes}
use fluxsync.Daemon.Driver.Frames.{Label, chunks_within}
use fluxsync.Daemon.Driver.Inflight.{Inflight, track_inflight, retransmit}
use fluxsync.Daemon.Driver.Inflight.Acks.{acks, left_over, acks_exact}
use fluxsync.Daemon.Driver.Inflight.Ends.{retransmits_end}
use fluxsync.Daemon.Driver.Inflight.Entries.{Turn, ack, nak, tick, turns, all_resends}
use fluxsync.Daemon.Driver.Reassembly.{CompleteItem}
use fluxsync.Daemon.Driver.Reassembly.Bounds
use fluxsync.Daemon.Driver.Reassembly.Bounds.{part, turns_bounded}
use fluxsync.Daemon.Driver.Reassembly.RoundTrip.{
  Moment, arrives, ticks, brings, IsSteady, completions, reassembled,
}
use fluxsync.Proto.Types.{text}

-- A digest that adds up the bytes.
abbrev pub summed : Bytes → ℕ
summed [] = 0
summed (b ∷ bs) = b + summed bs

abbrev label : Label
label = record { lamport = 3; hash = 77; kind = text; sensitive = false; origin = 5; event_seq = 1 }

-- Two frames: the chunk comes first, and again, and ticks of the cleanup in between.
abbrev deliveries : List Moment
deliveries = arrives 1 1010 ∷ ticks 3000 ∷ arrives 1 5500 ∷ ticks 6000 ∷ arrives 0 10400 ∷ []

each_comes :
    (k : ℕ)
    → k ≤ length (chunks_within 3 1024 (104 ∷ 105 ∷ 33 ∷ []))
    → any (brings k) deliveries ≡ true
unfolding chunks_within
each_comes zero le = refl
each_comes (suc zero) le = refl
each_comes (suc (suc k)) le = ground arith

deliveries-IsSteady :
    IsSteady (length (chunks_within 3 1024 (104 ∷ 105 ∷ 33 ∷ []))) 1000 1000 deliveries
unfolding chunks_within
deliveries-IsSteady = ground arith

reassembled_example :
    let items =
      completions 9 label (chunks_within 3 1024 (104 ∷ 105 ∷ 33 ∷ [])) summed [] deliveries in
    let item : CompleteItem = record {
      source = 9;
      origin = 5;
      event_seq = 1;
      hash = 77;
      kind = text;
      sensitive = false;
      lamport = 3;
      payload = 104 ∷ 105 ∷ 33 ∷ [];
    } in
    All (λ i. i ≡ item) items × (is_empty items ≡ false)
reassembled_example =
    reassembled summed 9 label (104 ∷ 105 ∷ 33 ∷ []) [] 1000 deliveries (omega arith) (omega arith)
      refl deliveries-IsSteady each_comes

abbrev pub waiting : Inflight
waiting = record {
  frames = (1 ∷ []) ∷ [];
  attempts = 2;
  last_sent = 100;
  first_sent = 50;
  pending_peers = 4 ∷ 6 ∷ [];
}

acks_exact_example :
    BTree.get 77 (acks 77 (6 ∷ 8 ∷ 6 ∷ []) ((77, waiting) ∷ [])) ≡ left_over waiting (4 ∷ [])
acks_exact_example = acks_exact 77 (6 ∷ 8 ∷ 6 ∷ []) ((77, waiting) ∷ []) waiting refl refl refl

abbrev some_turns : List Turn
some_turns =
    tick 3000
    ∷ nak 4 (record { item_id = 77; want_header = true; missing = [] }) 4500
    ∷ ack 4 77
    ∷ tick 7000
    ∷ []

retransmits_end_example :
    let sent = track_inflight [] 77 ((1 ∷ []) ∷ []) (4 ∷ 6 ∷ []) 500 in
    (all_resends 77 some_turns sent ≤ 6)
    × (BTree.get 77 (retransmit 95000 (turns some_turns sent)).0 ≡ none)
retransmits_end_example =
    retransmits_end [] 77 ((1 ∷ []) ∷ []) (4 ∷ 6 ∷ []) 500 95000 some_turns tt
      (tt, (tt, (tt, (tt, tt)))) (omega arith)

turns_bounded_example :
    length (
      Bounds.turns summed
        (part 4 (record { item_id = 7; idx = 0; total = 2; bytes = 1 ∷ [] }) 20
          ∷ part 5 (record { item_id = 7; idx = 1; total = 2; bytes = 2 ∷ [] }) 21
          ∷ Bounds.tick 30
          ∷ [])
        [])
    ≤ 5
turns_bounded_example = turns_bounded summed (
    part 4 (record { item_id = 7; idx = 0; total = 2; bytes = 1 ∷ [] }) 20
    ∷ part 5 (record { item_id = 7; idx = 1; total = 2; bytes = 2 ∷ [] }) 21
    ∷ Bounds.tick 30
    ∷ [])
