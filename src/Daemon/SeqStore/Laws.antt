-- ===== src/Daemon/SeqStore/Laws.antt =====
-- Sequence numbers over the lives of a daemon that may crash between any two of them.
use fluxsync.Base.{
  ℕ, ◌+◌, ◌*◌, ◌≤◌, ◌<◌, ◌≡◌, refl, Bool, true, ◌&&◌, List, [], ◌∷◌, some, arith, length, All,
  u64_max,
}
use fluxsync.Daemon.SeqStore.{reserve, Disk, SeqStore, Writes, read_horizon, persist, load, advance}

-- A running daemon: its disk, its store and the counter that `App` holds.
pub record Daemon : Type 0 where
  pub disk : Disk
  pub store : SeqStore
  pub counter : ℕ

-- A number is issued, or the daemon starts again from its disk, after a crash or a shutdown.
pub data Step : Type 0 where
  issue : Writes → Step
  restart : Writes → Step

abbrev pub boot : Disk → Writes → Daemon
boot d w =
    let (initial, disk, store) = load d w in
    record { disk = disk; store = store; counter = initial }

-- The counter moves on before `advance` is called with its new value.
abbrev pub issued : Daemon → Writes → Daemon
issued p w =
    let (disk, store, written) = advance p.disk p.store w (p.counter + 1) in
    record { disk = disk; store = store; counter = p.counter + 1 }

-- The numbers that go out, the first one first.
abbrev pub numbers : Daemon → List Step → List ℕ
numbers p [] = []
numbers p (issue w ∷ steps) = p.counter ∷ numbers (issued p w) steps
numbers p (restart w ∷ steps) = numbers (boot p.disk w) steps

abbrev pub IsAscending : List ℕ → Type 0
IsAscending [] = Unit {0}
IsAscending (n ∷ ns) = All (λ m. n < m) ns × IsAscending ns

abbrev pub writes_main : Step → Bool
writes_main (issue w) = w.dir_ok && w.main_ok
writes_main (restart w) = w.dir_ok && w.main_ok

-- The horizon on disk is that of the store and above the counter.
record IsReserved (p : Daemon) (limit : ℕ) : Type 0 where
  on_disk : p.disk.main ≡ some p.store.horizon
  ahead : p.counter < p.store.horizon
  below : p.store.horizon ≤ limit

boot-IsReserved :
    (d : Disk) (w : Writes) (h limit : ℕ)
    → read_horizon d ≡ h
    → (w.dir_ok && w.main_ok) ≡ true
    → h + reserve ≤ limit
    → limit ≤ u64_max
    → IsReserved (boot d w) limit
unfolding load persist
boot-IsReserved d w h limit e ok le top = record {
  on_disk = ground arith;
  ahead = ground arith;
  below = ground arith;
}

issued-IsReserved :
    (p : Daemon) (w : Writes) (limit : ℕ)
    → IsReserved p limit
    → (w.dir_ok && w.main_ok) ≡ true
    → limit + reserve ≤ u64_max
    → IsReserved (issued p w) (limit + reserve)
unfolding advance persist
issued-IsReserved p w limit h ok top = record {
  on_disk = ground arith;
  ahead = ground arith;
  below = ground arith;
}

read_main : (d : Disk) (h : ℕ) → d.main ≡ some h → read_horizon d ≡ h
unfolding read_horizon
read_main d h e = ground arith

rebooted-IsReserved :
    (p : Daemon) (w : Writes) (limit : ℕ)
    → IsReserved p limit
    → (w.dir_ok && w.main_ok) ≡ true
    → limit + reserve ≤ u64_max
    → IsReserved (boot p.disk w) (limit + reserve)
rebooted-IsReserved p w limit h ok top =
    boot-IsReserved p.disk w p.store.horizon (limit + reserve)
      (read_main p.disk p.store.horizon h.on_disk) ok (omega (arith, h.below)) top

boot_counter : (d : Disk) (w : Writes) → (boot d w).counter ≡ read_horizon d
unfolding load
boot_counter d w = refl

All-le : (n m : ℕ) (xs : List ℕ) → n ≤ m → All (λ x. m ≤ x) xs → All (λ x. n ≤ x) xs
All-le n m [] le h = tt
All-le n m (x ∷ xs) le h = (omega (arith, h.0), All-le n m xs le h.1)

All-lt : (n : ℕ) (xs : List ℕ) → All (λ x. n + 1 ≤ x) xs → All (λ x. n < x) xs
All-lt n [] h = tt
All-lt n (x ∷ xs) h = (omega (arith, h.0), All-lt n xs h.1)

numbers-above :
    (p : Daemon) (steps : List Step) (limit : ℕ)
    → IsReserved p limit
    → All (λ s. writes_main s ≡ true) steps
    → limit + reserve * length steps ≤ u64_max
    → All (λ n. p.counter ≤ n) (numbers p steps) × IsAscending (numbers p steps)
numbers-above p [] limit h ok top = (tt, tt)
numbers-above p (issue w ∷ steps) limit h ok top =
    let next = issued p w in
    let rest =
      numbers-above next steps (limit + reserve) (issued-IsReserved p w limit h ok.0 (omega arith))
        ok.1 (omega arith) in
    (
      (omega arith, All-le p.counter (p.counter + 1) (numbers next steps) (omega arith) rest.0),
      (All-lt p.counter (numbers next steps) rest.0, rest.1),
    )
numbers-above p (restart w ∷ steps) limit h ok top =
    let next = boot p.disk w in
    let rest =
      numbers-above next steps (limit + reserve)
        (rebooted-IsReserved p w limit h ok.0 (omega arith)) ok.1 (omega arith) in
    (
      All-le p.counter next.counter (numbers next steps)
          (omega
            (arith, boot_counter p.disk w, read_main p.disk p.store.horizon h.on_disk, h.ahead))
          rest.0,
      rest.1,
    )

-- Over any number of crashes and restarts, the numbers that a daemon issues go up strictly, and
-- none comes twice, as long as the main file can be written and the numbers stay far from the end
-- of `u64`; the backup file plays no part in this.
pub numbers-IsAscending :
    (d : Disk) (w : Writes) (steps : List Step)
    → (w.dir_ok && w.main_ok) ≡ true
    → All (λ s. writes_main s ≡ true) steps
    → read_horizon d + reserve * (length steps + 1) ≤ u64_max
    → IsAscending (numbers (boot d w) steps)
numbers-IsAscending d w steps ok all top =
    (numbers-above (boot d w) steps (read_horizon d + reserve)
      (boot-IsReserved d w (read_horizon d) (read_horizon d + reserve) refl ok (omega arith)
        (omega arith))
      all (omega arith)).1
