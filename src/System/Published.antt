-- ===== src/System/Published.antt =====
-- The clock of a thread and the copy of it in its status record (src/module/clock_main.c).
use task_clock.Common.{
  ℕ, ◌≡◌, refl, ◌∙◌, true, Option, none, some, arith, if◌then◌else◌, inl, inr, Bool-cases, ok,
  out_of_bounds, Ensures, Ensures-bind, Ensures-trivial, Ensures-if, Ensures-map, is_tid,
}
use task_clock.Group.{
  Machine, Context, add64, put_status, emit, get_clock_ticks, current_is_only_active_thread,
  wake_up_all, inc_clock_ticks_no_chunk_add,
}
use task_clock.Search.{search_for_lowest_waiting}
use task_clock.Counter.{publish_ticks}
use task_clock.Notify.{
  settle, set_waiting, move_lowest, yield_to_lowest, refresh_lowest_ticks,
  set_current_thread_to_lowest, is_sleeping, wake_up_if, wake_up_waiting_thread,
  determine_lowest_and_notify_or_wait,
}
use task_clock.Handlers.{sign_extend32, task_clock_add_ticks}

module _ (ctx : Context) where
  -- The clock of the current thread stands at `n`, and its status record says so.
  pub record IsPublished (n : ℕ) (m : Machine) : Type 0 where
    pub clock : get_clock_ticks m.group ctx.current ≡ n
    pub copy : (m.status ctx.current).ticks ≡ n

  module _ (n : ℕ) where
    take-IsPublished :
        (m : Machine) → IsPublished n m → IsPublished n (set_current_thread_to_lowest ctx m)
    unfolding set_current_thread_to_lowest
    take-IsPublished m p = record { clock = ground (arith, p.clock); copy = ground (arith, p.copy) }

    yield-IsPublished : (m : Machine) → IsPublished n m → IsPublished n (yield_to_lowest ctx m).1
    unfolding yield_to_lowest
    yield-IsPublished m p = record {
      clock = ground (arith, p.clock);
      copy = ground (arith, p.copy);
    }

    refresh-IsPublished :
        (m : Machine) → IsPublished n m → IsPublished n (refresh_lowest_ticks ctx m)
    refresh-IsPublished m p = record {
      clock = ground (arith, p.clock);
      copy = ground (arith, p.copy);
    }

    move-IsPublished :
        (low : Option ℕ) (m : Machine) → IsPublished n m → IsPublished n (move_lowest ctx low m)
    move-IsPublished low m p = record {
      clock = ground (arith, p.clock);
      copy = ground (arith, p.copy);
    }

    wait-IsPublished : (m : Machine) → IsPublished n m → IsPublished n (set_waiting ctx true m)
    wait-IsPublished m p = record { clock = ground (arith, p.clock); copy = p.copy }

    settle-IsPublished :
        (low : Option ℕ) (m : Machine) → IsPublished n m → IsPublished n (settle ctx low m).1
    unfolding settle
    settle-IsPublished low m p = elim (Bool-cases (is_tid low ctx.current)) [
      | inl mine ↦ rw mine (refresh-IsPublished _ (take-IsPublished _ (move-IsPublished low m p)))
      | inr other ↦
          rw other (refresh-IsPublished _ (yield-IsPublished _ (move-IsPublished low m p)))
    ]

    pub wake-IsPublished :
        (tid : Option ℕ) (m : Machine)
        → IsPublished n m
        → Ensures (IsPublished n) (wake_up_if tid m)
    unfolding wake_up_waiting_thread
    wake-IsPublished none m p = p
    wake-IsPublished (some t) m p =
        Ensures-if (IsPublished n) (is_sleeping m.group m.group.lowest_tid)
          (ok (emit m (wake_up_all t))) _ (record { clock = p.clock; copy = p.copy })
          (told m.group.lowest_tid)
      where
        told :
            (low : Option ℕ)
            → Ensures (IsPublished n) (elim low [
              | none ↦ out_of_bounds
              | some l ↦
                  if m.group.user_status_arr
                  then ok (put_status m l (record (m.status l) { lowest_clock = true }))
                  else out_of_bounds
            ])
        told none = tt
        told (some l) =
            Ensures-if (IsPublished n) m.group.user_status_arr
              (ok (put_status m l (record (m.status l) { lowest_clock = true }))) out_of_bounds
              (record { clock = p.clock; copy = ground (arith, p.copy) }) tt

  publish-IsPublished :
      (m : Machine) → IsPublished (get_clock_ticks m.group ctx.current) (publish_ticks ctx m)
  publish-IsPublished m = record { clock = refl; copy = ground arith }

  pub determine-IsPublished :
      (m : Machine)
      → Ensures
          (λ r. IsPublished (get_clock_ticks m.group ctx.current) r.1)
          (determine_lowest_and_notify_or_wait ctx (ctx.stack 0) m)
  unfolding determine_lowest_and_notify_or_wait
  determine-IsPublished m =
      let n = get_clock_ticks m.group ctx.current in
      let p = publish-IsPublished m in
      Ensures-if (λ r. IsPublished n r.1) (current_is_only_active_thread ctx (publish_ticks ctx m))
        _ _ (take-IsPublished n _ (record { clock = p.clock; copy = ground (arith, p.copy) }))
        (Ensures-bind (λ _. Unit {0}) (λ r. IsPublished n r.1)
          (search_for_lowest_waiting ctx.in_nmi (ctx.stack 0)
            (set_waiting ctx true (publish_ticks ctx m)).group)
          _ (Ensures-trivial _) (λ low _. settle-IsPublished n low _ (wait-IsPublished n _ p)))

  gained :
      (ticks : ℕ) (m : Machine)
      → get_clock_ticks (inc_clock_ticks_no_chunk_add m ctx.current ticks).group ctx.current
        ≡ add64 (get_clock_ticks m.group ctx.current) ticks
  gained ticks m = ground arith

  -- The ticks that `task_clock_add_ticks` is given are those that the clock and its copy gain.
  pub add_ticks-IsPublished :
      (ticks : ℕ) (m : Machine)
      → Ensures
          (IsPublished (add64 (get_clock_ticks m.group ctx.current) (sign_extend32 ticks)))
          (task_clock_add_ticks ctx ticks m)
  unfolding task_clock_add_ticks
  add_ticks-IsPublished ticks m =
      let m₁ =
        publish_ticks ctx (inc_clock_ticks_no_chunk_add m ctx.current (sign_extend32 ticks)) in
      let n = get_clock_ticks m₁.group ctx.current in
      Ensures-map (IsPublished n)
        (IsPublished (add64 (get_clock_ticks m.group ctx.current) (sign_extend32 ticks))) _
        (Ensures-bind (λ r. IsPublished n r.1) (IsPublished n)
          (determine_lowest_and_notify_or_wait ctx (ctx.stack 0) m₁) _ (determine-IsPublished m₁)
          (λ (tid, m₂) p. wake-IsPublished n tid m₂ p))
        (λ m' p. record {
          clock = p.clock ∙ gained (sign_extend32 ticks) m;
          copy = p.copy ∙ gained (sign_extend32 ticks) m;
        })
