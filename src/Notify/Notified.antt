-- ===== src/Notify/Notified.antt =====
-- `__task_clock_notify_waiting_threads`, the work queued from NMI context.
use task_clock.Common.{
  ℕ, ◌<◌, ◌≡◌, ◌≢◌, refl, sym, ap, ◌∙◌, true, false, ◌||◌, Option, none, some, List, ◌∷◌, arith,
  some_injective, ◌∈◌, ok, ◌>>=◌, inl, inr, Bool-cases,
}
use task_clock.Listarray.Represents.{Represents}
use task_clock.Group.{Group, Machine, Context, get_clock_ticks, wake_up_all}
use task_clock.Search.{thread_arr_size, is_active, search_for_lowest_waiting}
use task_clock.Search.Fold.{IsLowestOf}
use task_clock.Search.Lowest.{lowest, lowest-IsLowestOf}
use task_clock.Search.Waiting.{waiting_result, search_for_lowest_waiting_lem}
use task_clock.Notify.{
  set_new_low, put_group, wake_up_if, claim_notification, notify_waiting_threads,
}
use task_clock.Notify.Wake.{Told, wake_up_waiting_thread_lem}

-- What the work leaves of `m`, given the lowest active thread.
pub record Notified (m : Machine) (low : Option ℕ) (m' : Machine) : Type 0 where
  pub told :
      (t : ℕ)
      → low ≡ some t
      → (m.group.clocks t).waiting ≡ true
      → (m.group.notification_needed || m.group.nmi_new_low) ≡ true
      → ((m.group.clocks t).sleeping ≡ true
          → (m'.effects ≡ wake_up_all t ∷ m.effects) × (m'.status ≡ m.status))
        × ((m.group.clocks t).sleeping ≡ false
            → (m'.status t ≡ record (m.status t) { lowest_clock = true })
              × (m'.effects ≡ m.effects))
        × (m'.group.notification_needed ≡ false)
        × (m'.group.nmi_new_low ≡ false)
        × ((j : ℕ) → t ≢ j → m'.status j ≡ m.status j)
  pub recorded :
      (t : ℕ)
      → low ≡ some t
      → (m.group.clocks t).waiting ≡ true
      → (m'.group.lowest_tid ≡ some t) × (m'.group.lowest_ticks ≡ get_clock_ticks m.group t)
  pub nobody : low ≡ none → m' ≡ m
  pub otherwise : (t : ℕ) → low ≡ some t → (m.group.clocks t).waiting ≡ false → m' ≡ m
  pub spent :
      (m.group.notification_needed || m.group.nmi_new_low) ≡ false
      → (m'.effects ≡ m.effects)
        × (m'.status ≡ m.status)
        × (m'.group.notification_needed ≡ m.group.notification_needed)
        × (m'.group.nmi_new_low ≡ m.group.nmi_new_low)
  pub mapped : m'.group.user_status_arr ≡ m.group.user_status_arr
  pub clocks : m'.group.clocks ≡ m.group.clocks
  pub list : m'.group.active_threads ≡ m.group.active_threads

module _ (ctx : Context) (m : Machine) where
  abbrev pub claimed : ℕ → Machine
  claimed l =
      put_group
        (record ((set_new_low l m).group) { nmi_new_low = false; notification_needed = false }) m

  claimed-Notified :
      (l : ℕ) (m' : Machine)
      → (m.group.clocks l).waiting ≡ true
      → (m.group.notification_needed || m.group.nmi_new_low) ≡ true
      → Told (claimed l) l m'
      → ((j : ℕ) → l ≢ j → m'.status j ≡ m.status j)
      → Notified m (some l) m'
  claimed-Notified l m' waits due t others = record {
    told = λ s e w d. (
      λ asleep. (
        rw⁻¹ (some_injective e) (t.asleep (rw (some_injective e) asleep)),
        t.by_event (rw (some_injective e) asleep),
      ),
      λ awake. rw⁻¹ (some_injective e) (t.by_flag (rw (some_injective e) awake)),
      ap (λ (g : Group). g.notification_needed) t.group_same,
      ap (λ (g : Group). g.nmi_new_low) t.group_same,
      λ j ne. others j (λ same. ne (sym (some_injective e) ∙ same)),
    );
    recorded = λ s e w. (
      ap (λ (g : Group). g.lowest_tid) t.group_same ∙ e,
      ap (λ (g : Group). g.lowest_ticks) t.group_same
          ∙ ap (get_clock_ticks m.group) (some_injective e),
    );
    nobody = λ e. ground arith;
    mapped = ap (λ (g : Group). g.user_status_arr) t.group_same;
    otherwise = λ s e idle. ground arith;
    spent = λ none_due. ground arith;
    clocks = ap (λ (g : Group). g.clocks) t.group_same;
    list = ap (λ (g : Group). g.active_threads) t.group_same;
  }

  notified :
      (low : Option ℕ)
      → m.group.user_status_arr ≡ true
      → (m' : Machine) × ((let (tid, m₁) =
              claim_notification (waiting_result m.group (ctx.stack 0) low) m in
            wake_up_if tid m₁)
          ≡ ok m')
        × Notified m low m'
  notified none mapped = (m, refl, ground arith)
  notified (some l) mapped = elim (Bool-cases (m.group.clocks l).waiting) [
    | inr idle ↦ (m, ground arith, ground arith)
    | inl waits ↦ elim (Bool-cases (m.group.notification_needed || m.group.nmi_new_low)) [
      | inr spent ↦ ((claim_notification (some l) m).1, ground arith, ground arith)
      | inl due ↦
          let (m', runs, t, others) = wake_up_waiting_thread_lem (claimed l) l refl mapped in
          (m', ground arith, claimed-Notified l m' waits due t others)
    ]
  ]

  -- The queued work ends and faults at nothing, if it runs outside NMI context, the status records
  -- are mapped, and the active threads have ids below 128. If the active thread with the lowest
  -- clock waits, it becomes the recorded lowest thread, with its clock, and if a notification is due
  -- or an interrupt has announced one, it is told, by a wake-up and no status if it sleeps, and
  -- otherwise by its flag and no wake-up; no other thread's status changes, and both are marked as
  -- done. If neither, no status, event or mark changes. If that thread does not wait or
  -- there is none, nothing changes at all. The entries, the list and the mapping stay in any case.
  pub notify_waiting_threads_lem :
      (xs : List ℕ)
      → ctx.in_nmi ≡ false
      → Represents m.group.active_threads xs
      → ((i : ℕ) → i ∈ xs → i < thread_arr_size)
      → m.group.user_status_arr ≡ true
      → (low : Option ℕ) × (m' : Machine) × (notify_waiting_threads ctx m ≡ ok m')
        × IsLowestOf m.group (λ j. is_active (m.group.clocks j)) xs low
        × Notified m low m'
  unfolding notify_waiting_threads
  notify_waiting_threads_lem xs outside r small mapped =
      let n = notified (lowest m.group xs) mapped in
      (
        lowest m.group xs,
        n.0,
        ap
              (λ b. search_for_lowest_waiting b (ctx.stack 0) m.group >>= λ new_low.
                (let (tid, m₁) = claim_notification new_low m in wake_up_if tid m₁))
              outside
            ∙ ap
                (λ s. s >>= λ new_low.
                  (let (tid, m₁) = claim_notification new_low m in wake_up_if tid m₁))
                (search_for_lowest_waiting_lem m.group xs r (ctx.stack 0) small)
            ∙ n.1,
        lowest-IsLowestOf m.group xs,
        n.2,
      )
