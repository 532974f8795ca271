-- ===== src/Handlers/Stuck.antt =====
-- The state in which the loop of `task_clock_entry_sleep` never ends.
use task_clock.Common.{
  ℕ, zero, suc, ◌+◌, ◌≡◌, ◌≢◌, refl, ap, ◌∙◌, true, false, Option, none, some, List, arith, ◌==◌,
  is_tid, if◌then◌else◌, ◌∈◌, ok, out_of_fuel,
}
use task_clock.Group.{Machine, Context, entry}
use task_clock.Search.{is_active, is_awake}
use task_clock.Search.Fold.{IsLowestOf, IsLowestOf_unique, IsLowestOf-congr}
use task_clock.Search.Count.{awake_count-none}
use task_clock.Notify.Determine.{Determined, determine_lem}
use task_clock.Notify.Kept.{Kept-trans}
use task_clock.Handlers.Sleep.{
  fall_asleep, fall_asleep-Kept, slept_entries, IsContended, sleep_loop-quiet, count_awake,
}
use task_clock.Handlers.{sleep_round, sleep_loop, task_clock_entry_sleep}

module _ (ctx : Context) where
  -- The lowest thread `t` waits and has been told, and none but the calling thread is awake.
  pub record IsStuck (m : Machine) (xs : List ℕ) (t : ℕ) : Type 0 where
    pub contended : IsContended ctx m xs
    pub lowest : IsLowestOf m.group (λ j. is_active (m.group.clocks j)) xs (some t)
    pub other : t ≢ ctx.current
    pub waits : (m.group.clocks t).waiting ≡ true
    pub was : m.group.lowest_tid ≡ some t
    pub told : m.group.notification_needed ≡ false
    pub asleep : (i : ℕ) → i ∈ xs → i ≢ ctx.current → is_awake (m.group.clocks i) ≡ false

  fall_asleep-IsStuck :
      (m m₁ : Machine) (low tid : Option ℕ) (xs : List ℕ) (t : ℕ)
      → IsStuck m xs t
      → Determined ctx m low tid m₁
      → low ≡ some t
      → IsStuck (fall_asleep ctx m₁) xs t
  fall_asleep-IsStuck m m₁ low tid xs t s d low_t =
      let (quiet, told, was) = d.idle t low_t s.other s.waits s.told s.was in
      let other : is_tid low ctx.current ≡ false = ground (arith, s.other) in
      let k = Kept-trans d.chosen.kept (fall_asleep-Kept ctx m₁) in
      let same : (i : ℕ)
          → entry (fall_asleep ctx m₁) i ≡ (
              if ctx.current == i
              then record (entry m ctx.current) { waiting = true; sleeping = true }
              else entry m i) =
        λ i. slept_entries ctx m m₁ low tid i d other in
      record {
        contended = record {
          listed = rw k.list s.contended.listed;
          small = s.contended.small;
          others = ground (arith, k.list, same ctx.current, s.contended.others);
        };
        lowest =
            IsLowestOf-congr m.group (fall_asleep ctx m₁).group (λ j. is_active (m.group.clocks j))
              (λ j. is_active ((fall_asleep ctx m₁).group.clocks j)) xs (some t)
              (λ j. ground (arith, same j)) (λ j. ground (arith, same j)) s.lowest;
        other = s.other;
        waits = ground (arith, same t, s.other, s.waits);
        was = ground (arith, was);
        told = ground (arith, told);
        asleep = λ i mem ne. ground (arith, same i, s.asleep i mem ne);
      }

  -- A round leads from such a state to such a state.
  sleep_round-IsStuck :
      (round : ℕ) (m : Machine) (xs : List ℕ) (t : ℕ)
      → ctx.in_nmi ≡ false
      → IsStuck m xs t
      → (m' : Machine) × (sleep_round ctx round m ≡ ok (none, m'))
        × IsStuck m' xs t
        × ((i : ℕ) → i ∈ xs → is_awake (m'.group.clocks i) ≡ false)
  unfolding sleep_round
  sleep_round-IsStuck round m xs t outside s =
      let (low, tid, m₁, runs, is, d) =
        determine_lem ctx m (ctx.stack round) xs outside s.contended.listed s.contended.small
          s.contended.others in
      let low_t : low ≡ some t =
        IsLowestOf_unique m.group (λ j. is_active (m.group.clocks j)) xs low (some t) is s.lowest in
      let (quiet, told, was) = d.idle t low_t s.other s.waits s.told s.was in
      (
        fall_asleep ctx m₁,
        rw (runs, quiet) refl,
        fall_asleep-IsStuck m m₁ low tid xs t s d low_t,
        λ i mem. ground (
          arith,
          low_t,
          s.other,
          s.asleep i mem,
          slept_entries ctx m m₁ low tid i d (ground (arith, low_t, s.other)),
        ),
      )

  pub sleep_loop-stuck :
      (fuel round : ℕ) (m : Machine) (xs : List ℕ) (t : ℕ)
      → ctx.in_nmi ≡ false
      → IsStuck m xs t
      → sleep_loop ctx fuel round m ≡ out_of_fuel
  unfolding sleep_loop
  sleep_loop-stuck zero round m xs t outside s = refl
  sleep_loop-stuck (suc fuel) round m xs t outside s =
      let (m₁, runs, s₁, down) = sleep_round-IsStuck round m xs t outside s in
      sleep_loop-quiet ctx fuel round m m₁ 0 runs (
        count_awake ctx m₁ xs outside s₁.contended.listed
        ∙ ap ok (awake_count-none m₁.group xs down))
      ∙ sleep_loop-stuck fuel (round + 1) m₁ xs t outside s₁

  -- If the lowest thread is another one that waits, is the recorded lowest, and has been told, and
  -- no listed thread but the calling one is awake, then the sleep loop does not end, however many
  -- rounds it is given. This is for a call outside NMI context, with ids below 128, and with the
  -- calling thread not the only active one.
  pub sleep-stuck :
      (fuel : ℕ) (m : Machine) (xs : List ℕ) (t : ℕ)
      → ctx.in_nmi ≡ false
      → IsStuck m xs t
      → task_clock_entry_sleep ctx fuel m ≡ out_of_fuel
  unfolding task_clock_entry_sleep
  sleep-stuck fuel m xs t outside s = rw (sleep_loop-stuck fuel 0 m xs t outside s) refl
