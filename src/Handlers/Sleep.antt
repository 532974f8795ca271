-- ===== src/Handlers/Sleep.antt =====
-- The loop of `task_clock_entry_sleep`.
use task_clock.Common.{
  ℕ, suc, ◌+◌, ◌<◌, ◌≡◌, ◌≢◌, refl, sym, ap, ◌∙◌, Bool, true, false, Option, none, some, List,
  arith, ◌==◌, is_tid, if◌then◌else◌, ◌∈◌, ok, inl, inr, Bool-cases,
}
use task_clock.Listarray.Represents.{Represents}
use task_clock.Group.{Machine, Context, entry, put_entry, current_is_only_active_thread}
use task_clock.Search.{thread_arr_size, is_active, is_awake, active_thread_count}
use task_clock.Search.Fold.{IsLowestOf}
use task_clock.Search.Count.{awake_count, active_thread_count-awake_count, awake_count-some}
use task_clock.Notify.{determine_lowest_and_notify_or_wait}
use task_clock.Notify.Determine.{Chosen, Determined, determine_lem}
use task_clock.Notify.Kept.{Kept, Kept-refl, Kept-trans, flags-Kept}
use task_clock.Handlers.Wait.{Waited, wake-Waited}
use task_clock.Handlers.{sleep_round, sleep_loop, task_clock_entry_sleep}

module _ (ctx : Context) where
  -- A thread that waits falls asleep.
  abbrev pub fall_asleep : Machine → Machine
  fall_asleep m =
      if (entry m ctx.current).waiting
      then put_entry m ctx.current (record (entry m ctx.current) { sleeping = true })
      else m

  pub fall_asleep-Kept : (m : Machine) → Kept ctx m (fall_asleep m)
  fall_asleep-Kept m = elim (Bool-cases (entry m ctx.current).waiting) [
    | inl waits ↦ rw waits (flags-Kept ctx m (entry m ctx.current).inactive true true)
    | inr runs ↦ rw runs (Kept-refl ctx m)
  ]

  -- After a round that leaves the calling thread waiting, it is asleep, and no other entry has
  -- changed.
  pub slept_entries :
      (m m₁ : Machine) (low tid : Option ℕ) (i : ℕ)
      → Determined ctx m low tid m₁
      → is_tid low ctx.current ≡ false
      → entry (fall_asleep m₁) i ≡ (
          if ctx.current == i
          then record (entry m ctx.current) { waiting = true; sleeping = true }
          else entry m i)
  slept_entries m m₁ low tid i d other = ground (arith, d.waits other, d.chosen.kept.entry_other i)

  pub fall_asleep-Chosen :
      (m m₁ : Machine) (low tid : Option ℕ)
      → Chosen ctx m low tid m₁
      → Chosen ctx m low tid (fall_asleep m₁)
  fall_asleep-Chosen m m₁ low tid c = elim (Bool-cases (entry m₁ ctx.current).waiting) [
    | inl waits ↦ rw waits (record {
      kept = Kept-trans c.kept (flags-Kept ctx m₁ (entry m₁ ctx.current).inactive true true);
      granted = c.granted;
      woken = c.woken;
      not_lost = c.not_lost;
    })
    | inr runs ↦ rw runs c
  ]

  -- Several threads are listed, with ids that the search can take.
  pub record IsContended (m : Machine) (xs : List ℕ) : Type 0 where
    pub listed : Represents m.group.active_threads xs
    pub small : (i : ℕ) → i ∈ xs → i < thread_arr_size
    pub others : current_is_only_active_thread ctx m ≡ false

  -- After a round with nobody to wake it depends on the count whether there is another.
  pub sleep_loop-quiet :
      (fuel round : ℕ) (m m₁ : Machine) (n : ℕ)
      → sleep_round ctx round m ≡ ok (none, m₁)
      → active_thread_count ctx.in_nmi m₁.group ≡ ok n
      → sleep_loop ctx (suc fuel) round m
        ≡ (if n == 0 then sleep_loop ctx fuel (round + 1) m₁ else ok (none, m₁))
  unfolding sleep_loop
  sleep_loop-quiet fuel round m m₁ n runs count = ground arith

  sleep_loop-told :
      (fuel round : ℕ) (m m₁ : Machine) (t : ℕ)
      → sleep_round ctx round m ≡ ok (some t, m₁)
      → sleep_loop ctx (suc fuel) round m ≡ ok (some t, m₁)
  unfolding sleep_loop
  sleep_loop-told fuel round m m₁ t runs = rw runs refl

  pub count_awake :
      (m : Machine) (xs : List ℕ)
      → ctx.in_nmi ≡ false
      → Represents m.group.active_threads xs
      → active_thread_count ctx.in_nmi m.group ≡ ok (awake_count m.group xs)
  count_awake m xs outside r =
      ap (λ b. active_thread_count b m.group) outside ∙ active_thread_count-awake_count m.group xs r

  -- One round with another thread awake.
  sleep_loop-awake :
      (fuel : ℕ) (m : Machine) (xs : List ℕ) (j : ℕ) (low tid : Option ℕ) (m₁ : Machine)
      → Represents m.group.active_threads xs
      → ctx.in_nmi ≡ false
      → j ∈ xs
      → j ≢ ctx.current
      → is_awake (m.group.clocks j) ≡ true
      → determine_lowest_and_notify_or_wait ctx (ctx.stack 0) m ≡ ok (tid, m₁)
      → Determined ctx m low tid m₁
      → sleep_loop ctx (suc fuel) 0 m ≡ ok (tid, fall_asleep m₁)
  unfolding sleep_round
  sleep_loop-awake fuel m xs j low none m₁ r outside mem ne up runs d =
      let k = Kept-trans d.chosen.kept (fall_asleep-Kept m₁) in
      let n = awake_count (fall_asleep m₁).group xs in
      let up' : is_awake ((fall_asleep m₁).group.clocks j) ≡ true =
        ap is_awake (k.entry_other j (λ e. ne (sym e))) ∙ up in
      sleep_loop-quiet fuel 0 m (fall_asleep m₁) n (rw runs refl)
        (count_awake (fall_asleep m₁) xs outside (rw k.list r))
      ∙ ap
          (λ (b : Bool).
            if b then sleep_loop ctx fuel (0 + 1) (fall_asleep m₁) else ok (none, fall_asleep m₁))
          (awake_count-some (fall_asleep m₁).group xs j mem up')
  sleep_loop-awake fuel m xs j low (some t) m₁ r outside mem ne up runs d =
      sleep_loop-told fuel 0 m (fall_asleep m₁) t (rw runs refl)

  -- With another listed thread awake, going to sleep takes one round and faults at nothing, if the
  -- call is outside NMI context, the status records are mapped, the listed threads have ids below
  -- 128, and the calling thread is not the only active one. The lowest place is granted, and the
  -- lowest thread told, as for a wait; the thread sleeps if it does not have the lowest clock, and
  -- does not wait if it has.
  pub sleep_lem :
      (fuel : ℕ) (m : Machine) (xs : List ℕ) (j : ℕ)
      → ctx.in_nmi ≡ false
      → IsContended m xs
      → m.group.user_status_arr ≡ true
      → j ∈ xs
      → j ≢ ctx.current
      → is_awake (m.group.clocks j) ≡ true
      → (low : Option ℕ) × (m' : Machine) × (task_clock_entry_sleep ctx (suc fuel) m ≡ ok m')
        × IsLowestOf m.group (λ j. is_active (m.group.clocks j)) xs low
        × Waited ctx m low m'
        × (is_tid low ctx.current ≡ false → (entry m' ctx.current).sleeping ≡ true)
        × (is_tid low ctx.current ≡ true → (entry m' ctx.current).waiting ≡ false)
  unfolding task_clock_entry_sleep
  sleep_lem fuel m xs j outside c mapped mem ne up =
      let (low, tid, m₁, runs, is, d) =
        determine_lem ctx m (ctx.stack 0) xs outside c.listed c.small c.others in
      let (m', wakes, waited, same) =
        wake-Waited ctx m low tid (fall_asleep m₁) mapped
          (fall_asleep-Chosen m m₁ low tid d.chosen) in
      (
        low,
        m',
        rw (sleep_loop-awake fuel m xs j low tid m₁ c.listed outside mem ne up runs d) wakes,
        is,
        waited,
        λ other. ground (arith, same, slept_entries m m₁ low tid ctx.current d other),
        λ mine. ground (arith, same, d.runs mine),
      )
