-- ===== src/Handlers/Wait.antt =====
-- The handlers that a thread waits with for its turn: `task_clock_entry_wait` and
-- `task_clock_on_disable`.
use task_clock.Common.{
  ℕ, ◌<◌, ◌≡◌, ◌≢◌, ◌⊎◌, refl, sym, ap, ◌∙◌, true, false, Option, none, some, List, ◌∷◌,
  none-ne-some, some_injective, is_tid, ◌∈◌, ok,
}
use task_clock.Listarray.Represents.{Represents}
use task_clock.Group.{
  Group, Entry, UserStatus, Machine, Context, entry, wake_up_all, current_is_only_active_thread,
}
use task_clock.Search.{thread_arr_size, is_active}
use task_clock.Search.Fold.{IsLowestOf}
use task_clock.Notify.{wake_up_if}
use task_clock.Notify.Determine.{Chosen, determine_lem}
use task_clock.Notify.Wake.{wake_up_waiting_thread_lem}
use task_clock.Handlers.{task_clock_entry_wait}

-- What a thread that gives its clock up leaves of `m`, given the lowest active thread.
pub record Waited (ctx : Context) (m : Machine) (low : Option ℕ) (m' : Machine) : Type 0 where
  pub granted : (m'.status ctx.current).lowest_clock ≡ is_tid low ctx.current
  pub told :
      (t : ℕ)
      → low ≡ some t
      → t ≢ ctx.current
      → (m.group.clocks t).waiting ≡ true
      → (m.group.notification_needed ≡ true) ⊎ (m.group.lowest_tid ≢ some t)
      → ((m.group.clocks t).sleeping ≡ true → m'.effects ≡ wake_up_all t ∷ m.effects)
        × ((m.group.clocks t).sleeping ≡ false → (m'.status t).lowest_clock ≡ true)
  pub untold : (t : ℕ) → t ≢ ctx.current → low ≢ some t → m'.status t ≡ m.status t
  pub list : m'.group.active_threads ≡ m.group.active_threads

module _ (ctx : Context) (m : Machine) where
  pub wake-Waited :
      (low tid : Option ℕ) (m₁ : Machine)
      → m.group.user_status_arr ≡ true
      → Chosen ctx m low tid m₁
      → (m' : Machine) × (wake_up_if tid m₁ ≡ ok m') × Waited ctx m low m' × (m'.group ≡ m₁.group)
  wake-Waited low none m₁ mapped d = (
    m₁,
    refl,
    record {
      granted = d.granted;
      told = λ t e ne w due. absurd (none-ne-some t (d.not_lost t e ne w due));
      untold = λ t ne other. d.kept.status_other t (λ e. ne (sym e));
      list = d.kept.list;
    },
    refl,
  )
  wake-Waited low (some t) m₁ mapped d =
      let (is, ne, w, lowest, spent, spent_nmi) = d.woken t refl in
      let (m', runs, told, others) =
        wake_up_waiting_thread_lem m₁ t lowest (d.kept.mapped ∙ mapped) in
      let same : entry m₁ t ≡ entry m t = d.kept.entry_other t (λ e. ne (sym e)) in
      (
        m',
        runs,
        record {
          granted = ap (λ (u : UserStatus). u.lowest_clock) (others ctx.current ne) ∙ d.granted;
          told = λ s e ne' w' due.
              let ts : t ≡ s = some_injective (sym is ∙ e) in
              (
                λ asleep. rw⁻¹ ts (
                    told.asleep (ap (λ (e : Entry). e.sleeping) same ∙ rw ts asleep)
                    ∙ ap (λ es. wake_up_all t ∷ es) d.kept.quiet),
                λ awake. rw⁻¹ ts (told.awake (ap (λ (e : Entry). e.sleeping) same ∙ rw ts awake)),
              );
          untold = λ s ne' other.
              others s (λ ts. other (is ∙ ap some ts)) ∙ d.kept.status_other s (λ e. ne' (sym e));
          list = ap (λ (g : Group). g.active_threads) told.group_same ∙ d.kept.list;
        },
        told.group_same,
      )

  -- `task_clock_entry_wait` ends and faults at nothing, if the call is outside NMI context, the
  -- status records are mapped, the active threads have ids below 128, and the calling thread is not
  -- the only active one. The calling thread is granted the lowest place exactly if it is the active
  -- thread with the lowest clock. Otherwise that thread, if it waits, and a notification is due or
  -- it was not the lowest before, is told: woken if it sleeps, or by its flag. No third thread's
  -- status changes, nor does the list.
  pub task_clock_entry_wait_lem :
      (xs : List ℕ)
      → ctx.in_nmi ≡ false
      → Represents m.group.active_threads xs
      → ((i : ℕ) → i ∈ xs → i < thread_arr_size)
      → m.group.user_status_arr ≡ true
      → current_is_only_active_thread ctx m ≡ false
      → (low : Option ℕ) × (m' : Machine) × (task_clock_entry_wait ctx m ≡ ok m')
        × IsLowestOf m.group (λ j. is_active (m.group.clocks j)) xs low
        × Waited ctx m low m'
  unfolding task_clock_entry_wait
  task_clock_entry_wait_lem xs outside r small mapped others =
      let (low, tid, m₁, runs, is, d) =
        determine_lem ctx m (ctx.stack 0) xs outside r small others in
      let (m', wakes, waited, same) = wake-Waited low tid m₁ mapped d.chosen in
      (low, m', rw runs wakes, is, waited)
