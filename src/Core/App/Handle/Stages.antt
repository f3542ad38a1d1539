-- ===== src/Core/App/Handle/Stages.antt =====
-- What the stages of `handle` behind the transition do to the counts of clipboard actions.
use fluxsync.Base.{
  ℕ, ◌≡◌, refl, ◌∙◌, Bool, true, false, List, [], ◌∷◌, arith, if◌then◌else◌, retain, count,
  count-append, count-retain, count-retain_none,
}
use fluxsync.Core.App.{App}
use fluxsync.Core.App.Handle.{
  add_dropped, strip_resync_apply, real_battery, ensure_emit_state, finish_actions,
}
use fluxsync.Core.App.Pending.{not_write}
use fluxsync.Core.Events.{
  Action, Event, emit_state, send_battery, resync_apply_suppressed, pending_dropped,
}
use fluxsync.Core.Fsm.Laws.{is_ack, is_write, is_send}
use fluxsync.Core.State.{State}

-- A test that looks at the clipboard actions alone: it counts none of those that the later stages
-- add, drop or rewrite.
pub record IsTraffic (p : Action → Bool) : Type 0 where
  pub battery : (level : ℕ) (charging : Bool) → p (send_battery level charging) ≡ false
  pub emit : p emit_state ≡ false
  pub suppressed : p resync_apply_suppressed ≡ false
  pub dropped : (hashes : List ℕ) → p (pending_dropped hashes) ≡ false

pub is_ack-IsTraffic : (h : ℕ) → IsTraffic (is_ack h)
is_ack-IsTraffic h = record {
  battery = λ _ _. refl;
  emit = refl;
  suppressed = refl;
  dropped = λ _. refl;
}

pub is_write-IsTraffic : IsTraffic is_write
is_write-IsTraffic = record {
  battery = λ _ _. refl;
  emit = refl;
  suppressed = refl;
  dropped = λ _. refl;
}

pub is_send-IsTraffic : IsTraffic is_send
is_send-IsTraffic = record {
  battery = λ _ _. refl;
  emit = refl;
  suppressed = refl;
  dropped = λ _. refl;
}

module _ (p : Action → Bool) (t : IsTraffic p) where
  count-add_dropped : (hs : List ℕ) (xs : List Action) → count p (add_dropped hs xs) ≡ count p xs
  unfolding add_dropped
  count-add_dropped hs xs =
      ground (arith, t.dropped hs, count-append p xs (pending_dropped hs ∷ []))

  count-ensure_emit_state :
      (b : Bool) (xs : List Action) → count p (ensure_emit_state b xs) ≡ count p xs
  unfolding ensure_emit_state
  count-ensure_emit_state b xs = ground (arith, t.emit, count-append p xs (emit_state ∷ []))

  count-real_battery : (s : State) (xs : List Action) → count p (real_battery s xs) ≡ count p xs
  unfolding real_battery
  count-real_battery s [] = refl
  count-real_battery s (send_battery l c ∷ xs) =
      ground (arith, t.battery l c, t.battery s.battery_level s.charging, count-real_battery s xs)
  count-real_battery s (a ∷ xs) = ground (arith, count-real_battery s xs)

  -- All stages but the strip of a resync.
  count-finish_actions :
      (app : App) (e : Event) (sup : Bool) (hs : List ℕ) (xs : List Action)
      → count p (finish_actions app e sup hs xs)
        ≡ count p (strip_resync_apply sup (add_dropped hs xs))
  unfolding finish_actions
  count-finish_actions app e sup hs xs = simp (count-ensure_emit_state, count-real_battery)

  count-strip_kept :
      ((a : Action) → p a ≡ true → not_write a ≡ true)
      → (sup : Bool) (xs : List Action) → count p (strip_resync_apply sup xs) ≡ count p xs
  unfolding strip_resync_apply
  count-strip_kept h sup xs = ground (
    arith,
    t.suppressed,
    count-retain p not_write h xs,
    count-append p (retain not_write xs) (resync_apply_suppressed ∷ []),
  )

  -- A test that writes do not pass counts the same before and after all the stages.
  pub count-finish_kept :
      ((a : Action) → p a ≡ true → not_write a ≡ true)
      → (app : App) (e : Event) (sup : Bool) (hs : List ℕ) (xs : List Action)
      → count p (finish_actions app e sup hs xs) ≡ count p xs
  count-finish_kept h app e sup hs xs =
      count-finish_actions app e sup hs xs
      ∙ count-strip_kept h sup (add_dropped hs xs)
      ∙ count-add_dropped hs xs

write_or_not : (a : Action) → not_write a ≡ true → is_write a ≡ false
write_or_not a h = ground arith

count-strip_write :
    (sup : Bool) (xs : List Action)
    → count is_write (strip_resync_apply sup xs) ≡ (if sup then 0 else count is_write xs)
unfolding strip_resync_apply
count-strip_write sup xs = ground (
  arith,
  count-retain_none is_write not_write (λ a. write_or_not a) xs,
  count-append is_write (retain not_write xs) (resync_apply_suppressed ∷ []),
)

-- Writes go where the item came from a resync, and stay elsewhere.
pub count-finish_write :
    (app : App) (e : Event) (sup : Bool) (hs : List ℕ) (xs : List Action)
    → count is_write (finish_actions app e sup hs xs) ≡ (if sup then 0 else count is_write xs)
count-finish_write app e sup hs xs =
    count-finish_actions is_write is_write-IsTraffic app e sup hs xs
    ∙ count-strip_write sup (add_dropped hs xs)
    ∙ ground (arith, count-add_dropped is_write is_write-IsTraffic hs xs)
