-- ===== src/System/Taken.antt =====
-- The flags of the threads when one activates itself (src/module/clock_main.c).
use task_clock.Common.{
  ℕ, ◌≡◌, ◌≢◌, ◌⊎◌, inl, inr, refl, sym, ap, ◌∙◌, Bool, true, ◌||◌, Option, none, some,
  some_injective, List, arith, ◌==◌, eq_of_==, is_tid, if◌then◌else◌, Bool-cases, ok, ◌>>=◌,
  Ensures, Ensures-bind, Ensures-if, Ensures-trivial, Ensures-map, Ensures-both,
}
use task_clock.Group.{
  UserStatus, Group, Machine, Context, entry, clock_is_lower, clear_entry_state, reset_chunk_ticks,
  mark_as_active, hit_bounded_fence,
}
use task_clock.Fence.{single_stepping_on, imprecise_bounded_chunk_size}
use task_clock.Search.{search_for_lowest, search_for_lowest_waiting_exclude_current}
use task_clock.Counter.{
  put_sample_period, logical_clock_update_overflow_period, logical_clock_reset_overflow_period,
}
use task_clock.Notify.{new_lowest}
use task_clock.Handlers.{take_lowest, clear_notifying, task_clock_entry_activate}
use task_clock.Handlers.Lists.{IsWellFormed}
use task_clock.System.Quiet.{Quiet-trans, Own, put-Own}
use task_clock.System.Notices.{clear-Own}
use task_clock.System.Listing.{Own-IsWellFormed, MadeActive, mark_as_active-Ensures}
use task_clock.System.Truthful.{flag, Steady}
use task_clock.System.Steady.{reset_overflow_period-Steady, update_overflow_period-Steady}

-- `tid` is below the recorded lowest thread, if that is another one.
abbrev Below : Group → ℕ → Type 0
Below g tid = (l : ℕ) → g.lowest_tid ≡ some l → l ≢ tid → clock_is_lower g tid l ≡ true

new_lowest-Below :
    (in_nmi : Bool) (g : Group) (tid : ℕ)
    → Ensures (λ low. is_tid low tid ≡ true → Below g tid) (new_lowest in_nmi g tid)
unfolding new_lowest
new_lowest-Below in_nmi g tid = by_recorded g.lowest_tid refl
  where
    by_recorded :
        (old : Option ℕ)
        → g.lowest_tid ≡ old
        → Ensures
            (λ low. is_tid low tid ≡ true → Below g tid)
            (elim old [
              | none ↦ search_for_lowest in_nmi g
              | some low ↦
                  if tid == low
                  then (search_for_lowest in_nmi g >>= λ tmp.
                      ok (if is_tid tmp tid then none else tmp))
                  else ok (if clock_is_lower g tid low then some tid else none)
            ])
    by_recorded none is =
        Ensures-map (λ _. Unit {0}) (λ low. is_tid low tid ≡ true → Below g tid)
          (search_for_lowest in_nmi g) (Ensures-trivial _) (λ low _ h l e ne. ground arith)
    by_recorded (some old) is =
        let unless : (l : ℕ) → g.lowest_tid ≡ some l → l ≡ old =
          λ l e. some_injective (sym e ∙ is) in
        elim (Bool-cases (tid == old)) [
          | inl own ↦ rw own (
              Ensures-bind (λ _. Unit {0}) (λ low. is_tid low tid ≡ true → Below g tid)
                (search_for_lowest in_nmi g) _ (Ensures-trivial _)
                (λ tmp _ h l e ne. absurd (ne (unless l e ∙ sym (eq_of_== tid old own)))))
          | inr other ↦ rw other (λ h l e ne. rw (unless l e) (ground (arith, h)))
        ]

-- The thread with the lowest clock that is recorded stays the same.
abbrev SameLowest : Machine → Machine → Type 0
SameLowest m m' = m'.group.lowest_tid ≡ m.group.lowest_tid

module _ (ctx : Context) where
  reset_overflow_period-SameLowest :
      (m : Machine) → SameLowest m (logical_clock_reset_overflow_period ctx ctx.current m)
  unfolding logical_clock_reset_overflow_period
  reset_overflow_period-SameLowest m = ground arith

  update_overflow_period-SameLowest :
      (m : Machine)
      → Ensures (SameLowest m) (logical_clock_update_overflow_period ctx ctx.current m)
  unfolding logical_clock_update_overflow_period
  update_overflow_period-SameLowest m =
      Ensures-if (SameLowest m) _ _ (ok m)
        (Ensures-if (SameLowest m) (single_stepping_on ctx ctx.current m || hit_bounded_fence ctx m)
          (ok (put_sample_period ctx.current imprecise_bounded_chunk_size m)) _ refl
          (Ensures-bind (λ _. Unit {0}) (SameLowest m)
            (search_for_lowest_waiting_exclude_current ctx.in_nmi m.group ctx.current) _
            (Ensures-trivial _) (λ low _. refl)))
        refl

  listed-Steady : (m : Machine) → Steady m (reset_chunk_ticks ctx.current (clear_entry_state ctx m))
  listed-Steady m t = ground arith

  listed-SameLowest :
      (m : Machine) → SameLowest m (reset_chunk_ticks ctx.current (clear_entry_state ctx m))
  listed-SameLowest m = ground arith

  -- A flag that is set after the call was set before, or is that of the thread, which is below the
  -- thread that was recorded as the lowest.
  abbrev pub Taken : Machine → Machine → Type 0
  Taken m m' =
      (t : ℕ)
      → flag m' t ≡ true
      → (flag m t ≡ true)
        ⊎ ((ctx.current ≡ t)
            × ((l : ℕ)
                → m.group.lowest_tid ≡ some l
                → l ≢ ctx.current
                → clock_is_lower m'.group ctx.current l ≡ true))

  taken :
      (m m₂ : Machine) (low : Option ℕ)
      → Steady m m₂
      → SameLowest m m₂
      → (is_tid low ctx.current ≡ true → Below (clear_notifying ctx m₂).group ctx.current)
      → Taken m (take_lowest ctx low (clear_notifying ctx m₂))
  taken m m₂ low s same below t h = elim (Bool-cases (is_tid low ctx.current)) [
    | inr other ↦ inl (ground (arith, s t, h))
    | inl mine ↦ elim (Bool-cases (ctx.current == t)) [
      | inl own ↦ inr (eq_of_== ctx.current t own, λ l e ne. rw mine (below mine l (same ∙ e) ne))
      | inr apart ↦ inl (ground (arith, s t, h))
    ]
  ]

  pub activate-Taken :
      (m : Machine) (xs : List ℕ)
      → IsWellFormed m xs
      → Ensures (Taken m) (task_clock_entry_activate ctx m)
  unfolding task_clock_entry_activate
  activate-Taken m xs w =
      let m₀ = reset_chunk_ticks ctx.current (clear_entry_state ctx m) in
      let cleared : Own ctx m m₀ = Quiet-trans (clear-Own ctx m) (
        put-Own ctx (clear_entry_state ctx m)
          (record (entry (clear_entry_state ctx m) ctx.current) { chunk_ticks = 0 }) refl
          (λ h. h)) in
      let w₀ = Own-IsWellFormed ctx m m₀ xs w cleared in
      Ensures-bind (MadeActive m₀ xs w₀ ctx.current) (Taken m) (mark_as_active ctx.current m₀) _
        (mark_as_active-Ensures m₀ xs w₀ ctx.current)
        (λ m₁ (lt, out, w₁, k).
          let m' = logical_clock_reset_overflow_period ctx ctx.current m₁ in
          Ensures-bind (λ m₂. Steady m' m₂ × SameLowest m' m₂) (Taken m)
            (logical_clock_update_overflow_period ctx ctx.current m') _
            (Ensures-both (Steady m') (SameLowest m') _ (update_overflow_period-Steady ctx m')
              (update_overflow_period-SameLowest m'))
            (λ m₂ (s, same).
              Ensures-bind
                (λ low.
                  is_tid low ctx.current ≡ true → Below (clear_notifying ctx m₂).group ctx.current)
                (Taken m) (new_lowest ctx.in_nmi (clear_notifying ctx m₂).group ctx.current) _
                (new_lowest-Below ctx.in_nmi (clear_notifying ctx m₂).group ctx.current)
                (λ low below.
                  taken m m₂ low
                    (λ t.
                      s t
                      ∙ reset_overflow_period-Steady ctx ctx.current m₁ t
                      ∙ ap (λ (st : ℕ → UserStatus). (st t).lowest_clock) k.status
                      ∙ listed-Steady m t)
                    (same ∙ reset_overflow_period-SameLowest m₁ ∙ k.lowest ∙ listed-SameLowest m)
                    below)))
