-- ===== src/System/Notices.antt =====
-- What determining the lowest thread and telling it leave alone (src/module/clock_main.c), in any
-- context and whatever the search returns.
use task_clock.Common.{
  ℕ, ◌≡◌, refl, Bool, true, Option, none, some, arith, if◌then◌else◌, inl, inr, Bool-cases, ok,
  out_of_bounds, Ensures, Ensures-bind, Ensures-trivial, Ensures-if, Ensures-map, is_tid,
}
use task_clock.Group.{
  Machine, Context, entry, put_status, emit, clear_entry_state, current_is_only_active_thread,
  wake_up_all,
}
use task_clock.Search.{search_for_lowest_waiting}
use task_clock.Counter.{publish_ticks}
use task_clock.Notify.{
  settle, set_waiting, move_lowest, yield_to_lowest, refresh_lowest_ticks,
  set_current_thread_to_lowest, is_sleeping, wake_up_if, wake_up_waiting_thread,
  determine_lowest_and_notify_or_wait, claim_notification, notify_waiting_threads,
}
use task_clock.System.Quiet.{Quiet-refl, Quiet-trans, Own, put-Own}

module _ (ctx : Context) where
  pub clear-Own : (m : Machine) → Own ctx m (clear_entry_state ctx m)
  clear-Own m = ground arith

  take-Own : (m : Machine) → Own ctx m (set_current_thread_to_lowest ctx m)
  unfolding set_current_thread_to_lowest
  take-Own m = ground arith

  yield-Own : (m : Machine) → Own ctx m (yield_to_lowest ctx m).1
  unfolding yield_to_lowest
  yield-Own m = ground arith

  refresh-Own : (m : Machine) → Own ctx m (refresh_lowest_ticks ctx m)
  refresh-Own m = ground arith

  move-Own : (new_low : Option ℕ) (m : Machine) → Own ctx m (move_lowest ctx new_low m)
  move-Own new_low m = ground arith

  pub settle-Own : (new_low : Option ℕ) (m : Machine) → Own ctx m (settle ctx new_low m).1
  unfolding settle
  settle-Own new_low m = elim (Bool-cases (is_tid new_low ctx.current)) [
    | inl mine ↦ rw mine (
        Quiet-trans (move-Own new_low m) (
          Quiet-trans (take-Own (move_lowest ctx new_low m))
            (refresh-Own (set_current_thread_to_lowest ctx (move_lowest ctx new_low m)))))
    | inr other ↦ rw other (
        Quiet-trans (move-Own new_low m) (
          Quiet-trans (yield-Own (move_lowest ctx new_low m))
            (refresh-Own (yield_to_lowest ctx (move_lowest ctx new_low m)).1)))
  ]

  pub set_waiting-Own : (b : Bool) (m : Machine) → Own ctx m (set_waiting ctx b m)
  set_waiting-Own b m = put-Own ctx m (record (entry m ctx.current) { waiting = b }) refl (λ h. h)

  pub determine-Own :
      (stack : ℕ → ℕ) (m : Machine)
      → Ensures (λ r. Own ctx m r.1) (determine_lowest_and_notify_or_wait ctx stack m)
  unfolding determine_lowest_and_notify_or_wait
  determine-Own stack m =
      Ensures-if (λ r. Own ctx m r.1) (current_is_only_active_thread ctx (publish_ticks ctx m)) _ _
        (take-Own (
          put_status (publish_ticks ctx m) ctx.current
            (record ((publish_ticks ctx m).status ctx.current) { single_active_thread = true })))
        (Ensures-bind (λ _. Unit {0}) (λ r. Own ctx m r.1)
          (search_for_lowest_waiting ctx.in_nmi stack
            (set_waiting ctx true (publish_ticks ctx m)).group)
          _ (Ensures-trivial _)
          (λ low _.
            Quiet-trans (set_waiting-Own true m)
              (settle-Own low (set_waiting ctx true (publish_ticks ctx m)))))

-- Telling a thread does not touch the group.
pub wake_up_if-same :
    (tid : Option ℕ) (m : Machine) → Ensures (λ m'. m'.group ≡ m.group) (wake_up_if tid m)
unfolding wake_up_waiting_thread
wake_up_if-same none m = refl
wake_up_if-same (some t) m =
    Ensures-if (λ m'. m'.group ≡ m.group) (is_sleeping m.group m.group.lowest_tid)
      (ok (emit m (wake_up_all t))) _ refl (told m.group.lowest_tid)
  where
    told :
        (low : Option ℕ)
        → Ensures
            (λ m'. m'.group ≡ m.group)
            (elim low [
              | none ↦ out_of_bounds
              | some l ↦
                  if m.group.user_status_arr
                  then ok (put_status m l (record (m.status l) { lowest_clock = true }))
                  else out_of_bounds
            ])
    told none = tt
    told (some l) =
        Ensures-if (λ m'. m'.group ≡ m.group) m.group.user_status_arr
          (ok (put_status m l (record (m.status l) { lowest_clock = true }))) out_of_bounds refl tt

pub Own-wake :
    (ctx : Context) (m m₁ : Machine) (tid : Option ℕ)
    → Own ctx m m₁
    → Ensures (Own ctx m) (wake_up_if tid m₁)
Own-wake ctx m m₁ tid o =
    Ensures-map (λ m'. m'.group ≡ m₁.group) (Own ctx m) (wake_up_if tid m₁) (wake_up_if-same tid m₁)
      (λ m' same. rw same o)

pub notify-Own : (ctx : Context) (m : Machine) → Ensures (Own ctx m) (notify_waiting_threads ctx m)
unfolding notify_waiting_threads
notify-Own ctx m =
    Ensures-bind (λ _. Unit {0}) (Own ctx m)
      (search_for_lowest_waiting ctx.in_nmi (ctx.stack 0) m.group) _ (Ensures-trivial _)
      (λ low _.
        Own-wake ctx m (claim_notification low m).1 (claim_notification low m).0 (claim-Own low))
  where
    claim-Own : (low : Option ℕ) → Own ctx m (claim_notification low m).1
    claim-Own none = Quiet-refl ctx.current m.group
    claim-Own (some l) = ground arith
