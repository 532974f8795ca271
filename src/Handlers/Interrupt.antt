-- ===== src/Handlers/Interrupt.antt =====
-- The overflow interrupt of the counter, `task_clock_overflow_handler`, and the work that it queues.
use task_clock.Common.{
  ℕ, ◌<◌, ◌≡◌, ◌≢◌, refl, ap, ◌∙◌, Bool, true, false, some, List, ◌∷◌, arith, if◌then◌else◌, ◌∈◌,
  ok,
}
use task_clock.Listarray.Represents.{Represents}
use task_clock.Group.{
  UserStatus, Machine, Context, emit, wake_up_all, queue_irq_work, tick_counter_is_running,
}
use task_clock.Search.{thread_arr_size, is_active, search_for_lowest}
use task_clock.Search.Fold.{IsLowestOf, IsLowestOf_unique}
use task_clock.Search.Lowest.{
  lowest-IsLowestOf, IsListed, search_for_lowest-lowest, search_for_lowest_nmi,
}
use task_clock.Fence.{single_stepping_on}
use task_clock.Notify.{new_lowest, notify_waiting_threads}
use task_clock.Notify.Notified.{notify_waiting_threads_lem}
use task_clock.Handlers.{announce_new_low, set_nmi_new_low, task_clock_overflow_handler}

-- A thread `t` other than the recorded lowest thread waits and has the lowest clock.
pub record IsOvertaken (ctx : Context) (m : Machine) (xs : List ℕ) (t : ℕ) : Type 0 where
  pub listed : Represents m.group.active_threads xs
  pub recorded : m.group.lowest_tid ≡ some ctx.current
  pub lowest : IsLowestOf m.group (λ j. is_active (m.group.clocks j)) xs (some t)
  pub other : t ≢ ctx.current
  pub waits : (m.group.clocks t).waiting ≡ true

module _ (ctx : Context) (m : Machine) (xs : List ℕ) (t : ℕ) where
  search_listed : IsOvertaken ctx m xs t → search_for_lowest false m.group ≡ ok (some t)
  search_listed o =
      search_for_lowest-lowest m.group xs o.listed
      ∙ ap ok (
          IsLowestOf_unique m.group (λ j. is_active (m.group.clocks j)) xs _ _
            (lowest-IsLowestOf m.group xs) o.lowest)

  search_overtaken :
      (in_nmi : Bool)
      → IsOvertaken ctx m xs t
      → IsListed m.group xs (λ j. is_active (m.group.clocks j))
      → search_for_lowest in_nmi m.group ≡ ok (some t)
  search_overtaken false o listed = search_listed o
  search_overtaken true o listed =
      search_for_lowest_nmi m.group xs o.listed listed ∙ search_listed o

  new_lowest_overtaken :
      IsOvertaken ctx m xs t
      → IsListed m.group xs (λ j. is_active (m.group.clocks j))
      → new_lowest ctx.in_nmi m.group ctx.current ≡ ok (some t)
  unfolding new_lowest
  new_lowest_overtaken o listed =
      ground (arith, o.recorded, o.other, search_overtaken ctx.in_nmi o listed)

  announce_overtaken :
      m.group.nmi_new_low ≡ false
      → IsOvertaken ctx m xs t
      → announce_new_low ctx (some t) m ≡ emit (set_nmi_new_low true m) queue_irq_work
  announce_overtaken idle o = rw (o.waits, idle) (ground (arith, o.other))

  overflow_handler-queue :
      (regs : Bool)
      → tick_counter_is_running ctx m ≡ true
      → m.group.nmi_new_low ≡ false
      → IsListed m.group xs (λ j. is_active (m.group.clocks j))
      → IsOvertaken ctx m xs t
      → task_clock_overflow_handler ctx regs m
        ≡ ok (
          if single_stepping_on ctx ctx.current m then true else regs,
          emit (set_nmi_new_low true m) queue_irq_work,
        )
  unfolding task_clock_overflow_handler
  overflow_handler-queue regs running idle listed o =
      rw (running, new_lowest_overtaken o listed)
        (ap (λ m'. ok (if single_stepping_on ctx ctx.current m then true else regs, m'))
          (announce_overtaken idle o))

  -- An overflow interrupt of the recorded lowest thread, when another thread, which waits, has the
  -- lowest clock, queues the notification work; and that work, run next outside NMI context, records
  -- that thread as the lowest and tells it: woken if it sleeps, or by its flag. Neither call faults.
  -- This is with the counter running, no earlier announcement pending, the status records mapped,
  -- the listed threads' ids below 128, and each active thread up to the largest index listed.
  pub overflow_handler-notify :
      (regs : Bool) (later : Context)
      → tick_counter_is_running ctx m ≡ true
      → m.group.nmi_new_low ≡ false
      → IsListed m.group xs (λ j. is_active (m.group.clocks j))
      → IsOvertaken ctx m xs t
      → later.in_nmi ≡ false
      → ((i : ℕ) → i ∈ xs → i < thread_arr_size)
      → m.group.user_status_arr ≡ true
      → (regs' : Bool) × (m₁ m₂ : Machine) × (task_clock_overflow_handler ctx regs m
          ≡ ok (regs', m₁))
        × (notify_waiting_threads later m₁ ≡ ok m₂)
        × (m₁.effects ≡ queue_irq_work ∷ m.effects)
        × (m₂.group.lowest_tid ≡ some t)
        × ((m.group.clocks t).sleeping ≡ true
            → m₂.effects ≡ wake_up_all t ∷ queue_irq_work ∷ m.effects)
        × ((m.group.clocks t).sleeping ≡ false → (m₂.status t).lowest_clock ≡ true)
  overflow_handler-notify regs later running idle listed o outside small mapped =
      let m₁ = emit (set_nmi_new_low true m) queue_irq_work in
      let (low, m₂, runs, is, n) =
        notify_waiting_threads_lem later m₁ xs outside o.listed small mapped in
      let low_t : low ≡ some t =
        IsLowestOf_unique m.group (λ j. is_active (m.group.clocks j)) xs low (some t) is o.lowest in
      let (asleep, awake, needed, nmi, others) = n.told t low_t o.waits (ground arith) in
      (
        if single_stepping_on ctx ctx.current m then true else regs,
        m₁,
        m₂,
        overflow_handler-queue regs running idle listed o,
        runs,
        refl,
        (n.recorded t low_t o.waits).0,
        λ sleeps. (asleep sleeps).0,
        λ wakes. ap (λ (u : UserStatus). u.lowest_clock) (awake wakes).0,
      )
