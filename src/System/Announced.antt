-- ===== src/System/Announced.antt =====
-- The flags of the threads over the queued work (src/module/clock_main.c).
use task_clock.Common.{
  ℕ, ◌≡◌, ◌<◌, ◌||◌, inl, inr, true, false, Option, none, some, some_injective, List, arith,
  if◌then◌else◌, Bool, Bool-cases, ◌∈◌, Result, Ensures, Ensures-map,
}
use task_clock.Group.{Machine, Context}
use task_clock.Search.{thread_arr_size, is_active}
use task_clock.Search.Fold.{IsLowestOf}
use task_clock.Search.Lowest.{lowest, lowest-IsLowestOf}
use task_clock.Search.Waiting.{waiting_result, search_for_lowest_waiting_lem}
use task_clock.Notify.{wake_up_if, set_new_low, claim_notification, notify_waiting_threads}
use task_clock.Notify.Notified.{claimed}
use task_clock.Handlers.Lists.{IsWellFormed}
use task_clock.System.Turn.{HasTurn}
use task_clock.System.Truthful.{Truthful}
use task_clock.System.Telling.{Woken, wake_up_if-Woken}

abbrev wake_claimed : Option ℕ × Machine → Result Machine
wake_claimed (tid, m₁) = wake_up_if tid m₁

module _ (ctx : Context) (m : Machine) (xs : List ℕ) where
  told-Truthful :
      (l : ℕ) → HasTurn l m xs → Ensures (Truthful m xs) (wake_up_if (some l) (claimed ctx m l))
  told-Truthful l turn =
      Ensures-map (Woken (some l) (claimed ctx m l)) (Truthful m xs)
        (wake_up_if (some l) (claimed ctx m l)) (wake_up_if-Woken (some l) (claimed ctx m l))
        (λ m' woken t h. elim (woken.flags t h) [
          | inl before ↦ inl before
          | inr (s, is, recorded) ↦
              let turn' : HasTurn t m xs = rw (some_injective recorded) at turn in
              inr (rw woken.same turn')
        ])

  -- The work when the notification is due, and when it is not.
  by_due :
      (due : Bool) (l : ℕ)
      → HasTurn l m xs
      → Ensures
          (Truthful m xs)
          (wake_claimed (if due then (some l, claimed ctx m l) else (none, set_new_low l m)))
  by_due true l turn = told-Truthful l turn
  by_due false l turn = λ t h. inl h

  claim_waiting :
      (l : ℕ)
      → (m.group.clocks l).waiting ≡ true
      → claim_notification (waiting_result m.group (ctx.stack 0) (some l)) m ≡ (
          if m.group.notification_needed || m.group.nmi_new_low
          then (some l, claimed ctx m l)
          else (none, set_new_low l m))
  claim_waiting l waits = ground (arith, waits)

  claim_idle :
      (l : ℕ)
      → (m.group.clocks l).waiting ≡ false
      → claim_notification (waiting_result m.group (ctx.stack 0) (some l)) m ≡ (none, m)
  claim_idle l idle = ground (arith, idle)

  claim-Truthful :
      (low : Option ℕ)
      → IsLowestOf m.group (λ j. is_active (m.group.clocks j)) xs low
      → Ensures
          (Truthful m xs)
          (wake_claimed (claim_notification (waiting_result m.group (ctx.stack 0) low) m))
  claim-Truthful none is = λ t h. inl h
  claim-Truthful (some l) is = elim (Bool-cases (m.group.clocks l).waiting) [
    | inl waits ↦
        rw (claim_waiting l waits)
          (by_due (m.group.notification_needed || m.group.nmi_new_low) l is)
    | inr idle ↦ rw (claim_idle l idle) (λ t h. inl h)
  ]

  pub notify-Truthful :
      IsWellFormed m xs
      → ctx.in_nmi ≡ false
      → ((i : ℕ) → i ∈ xs → i < thread_arr_size)
      → Ensures (Truthful m xs) (notify_waiting_threads ctx m)
  unfolding notify_waiting_threads
  notify-Truthful w outside small =
      rw (outside, search_for_lowest_waiting_lem m.group xs w.listed (ctx.stack 0) small)
        (claim-Truthful (lowest m.group xs) (lowest-IsLowestOf m.group xs))
