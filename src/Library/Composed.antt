-- ===== src/Library/Composed.antt =====
-- The library on top of the kernel module (src/lib/determ_clock.c with src/module/clock_main.c). How
-- the kernel finds the function of a request is a hypothesis: the table that `init_module` fills.
use task_clock.Common.{
  ℕ, ◌+◌, ◌-◌, ◌%◌, ◌^◌, ◌≤◌, ◌<◌, ◌≡◌, refl, sym, ap, ◌∙◌, Bool, true, false, none, some, ok,
  arith, lt→ltb, List, ◌∉◌, Ensures-eq,
}
use task_clock.Group.{UserStatus, Machine, Context, add64, sub64, put_status, get_clock_ticks}
use task_clock.Handlers.{
  task_clock_entry_stop, task_clock_entry_wait, task_clock_entry_woke_up, sign_extend32,
  task_clock_add_ticks, task_clock_entry_activate_other,
}
use task_clock.Listarray.{max_size}
use task_clock.Handlers.Lists.{IsWellFormed}
use task_clock.Handlers.Threads.{ComesBefore, ActivatedOther, activate_other-append}
use task_clock.System.Published.{IsPublished, add_ticks-IsPublished}
use task_clock.Library.{
  op_stop, Kernel, Thread, wait, woke_up, add_ticks, activate_other, determ_task_clock_read,
}
use task_clock.Library.Waiting.{
  take_activated_lowest, determ_task_clock_add_ticks, determ_task_clock_activate_other,
}
use task_clock.Library.Sections.{determ_task_clock_end_coarsened_tx}

-- The kernel hands the requests of a thread to the functions of the module, and the status record
-- that the thread sees is that of the module.
pub record IsDispatched (ctx : Context) (kernel : Kernel Machine) : Type 0 where
  pub adds :
      (ticks : ℕ) (m m' : Machine)
      → task_clock_add_ticks ctx ticks m ≡ ok m'
      → kernel.ioctl add_ticks ticks m ≡ (true, m')
  pub activates :
      (id : ℕ) (m m' : Machine)
      → task_clock_entry_activate_other ctx id m ≡ ok m'
      → kernel.ioctl activate_other id m ≡ (true, m')
  pub waits :
      (m m' : Machine) → task_clock_entry_wait ctx m ≡ ok m' → kernel.ioctl wait 0 m ≡ (true, m')
  pub stops :
      (m m' : Machine) → task_clock_entry_stop ctx m ≡ ok m' → kernel.task_clock_do op_stop m ≡ m'
  pub wakes : (m : Machine) → kernel.ioctl woke_up 0 m ≡ (true, task_clock_entry_woke_up ctx m)
  pub reads : (m : Machine) → kernel.status m ≡ m.status ctx.current
  pub writes : (u : UserStatus) (m : Machine) → kernel.put_status u m ≡ put_status m ctx.current u

abbrev pub clock_of : Context → Thread Machine → ℕ
clock_of ctx t = get_clock_ticks t.kernel.group ctx.current

-- The thread after a coarsened section, if the request returns the machine `m'`.
abbrev pub settled_at : Thread Machine → Machine → Thread Machine
settled_at t m' = record {
  info = record (t.info) { in_coarsened_tx = false; coarsened_ticks_counter = 0 };
  kernel = m';
}

-- The machine in which the request to activate another thread is made.
abbrev pub before_activation : Context → Thread Machine → Machine
before_activation ctx t =
    put_status t.kernel ctx.current
      (record (t.kernel.status ctx.current) { single_active_thread = false })

add64_zero : (a b : ℕ) → add64 (add64 a b) 0 ≡ add64 a b
add64_zero a b = omega arith

gone_back : (a c : ℕ) → add64 a (c + (2 ^ 64 - 2 ^ 32)) ≡ sub64 (add64 a c) (2 ^ 32)
gone_back a c = omega arith

module _ (ctx : Context) (kernel : Kernel Machine) (d : IsDispatched ctx kernel)
    (t : Thread Machine) (m' : Machine) where
  ends :
      0 < t.info.coarsened_ticks_counter
      → task_clock_add_ticks ctx (t.info.coarsened_ticks_counter % 2 ^ 32) t.kernel ≡ ok m'
      → determ_task_clock_end_coarsened_tx kernel t ≡ some (settled_at t m')
  unfolding determ_task_clock_end_coarsened_tx determ_task_clock_add_ticks
  ends some_ticks runs =
      rw
        (
          lt→ltb 0 t.info.coarsened_ticks_counter some_ticks,
          d.adds (t.info.coarsened_ticks_counter % 2 ^ 32) t.kernel m' runs,
        )
        refl

  -- What the thread reads after the section, and what the kernel's clock is, for a counter that
  -- 32 bits hold.
  Gained : Type 0
  Gained =
      (determ_task_clock_end_coarsened_tx kernel t ≡ some (settled_at t m'))
      × (determ_task_clock_read kernel (settled_at t m')
          ≡ add64 (clock_of ctx t) (sign_extend32 t.info.coarsened_ticks_counter))
      × (clock_of ctx (settled_at t m')
          ≡ add64 (clock_of ctx t) (sign_extend32 t.info.coarsened_ticks_counter))

  gained :
      task_clock_add_ticks ctx t.info.coarsened_ticks_counter t.kernel ≡ ok m'
      → 0 < t.info.coarsened_ticks_counter
      → t.info.coarsened_ticks_counter < 2 ^ 32
      → Gained
  unfolding Gained
  gained runs some_ticks small =
      let same : t.info.coarsened_ticks_counter % 2 ^ 32 ≡ t.info.coarsened_ticks_counter =
        omega (arith, small) in
      let n = add64 (clock_of ctx t) (sign_extend32 t.info.coarsened_ticks_counter) in
      let p =
        Ensures-eq (IsPublished ctx n)
          (task_clock_add_ticks ctx t.info.coarsened_ticks_counter t.kernel) m' runs
          (add_ticks-IsPublished ctx t.info.coarsened_ticks_counter t.kernel) in
      let copy : (kernel.status m').ticks ≡ n =
        ap (λ (u : UserStatus). u.ticks) (d.reads m') ∙ p.copy in
      (
        ends some_ticks (rw same runs),
        ap (λ x. add64 x 0) copy
            ∙ add64_zero (clock_of ctx t) (sign_extend32 t.info.coarsened_ticks_counter),
        p.clock,
      )

  reads_clock :
      (t.kernel.status ctx.current).ticks ≡ clock_of ctx t
      → determ_task_clock_read kernel t ≡ add64 (clock_of ctx t) t.info.coarsened_ticks_counter
  reads_clock synced =
      ap (λ x. add64 x t.info.coarsened_ticks_counter)
        (ap (λ (u : UserStatus). u.ticks) (d.reads t.kernel) ∙ synced)

  -- At the end of a coarsened section whose counter is below 2^31 and not 0, if the request to add it
  -- returns and the status record had the clock of the kernel: the program reads the same clock as
  -- before, and it is the kernel's clock by now.
  pub end_coarsened-read :
      task_clock_add_ticks ctx t.info.coarsened_ticks_counter t.kernel ≡ ok m'
      → 0 < t.info.coarsened_ticks_counter
      → t.info.coarsened_ticks_counter < 2 ^ 31
      → (t.kernel.status ctx.current).ticks ≡ clock_of ctx t
      → (determ_task_clock_end_coarsened_tx kernel t ≡ some (settled_at t m'))
        × (determ_task_clock_read kernel (settled_at t m') ≡ determ_task_clock_read kernel t)
        × (clock_of ctx (settled_at t m') ≡ determ_task_clock_read kernel t)
  unfolding Gained
  end_coarsened-read runs some_ticks small synced =
      let (ends_at, read, clock) = gained runs some_ticks (omega (arith, small)) in
      let same : sign_extend32 t.info.coarsened_ticks_counter ≡ t.info.coarsened_ticks_counter =
        ground arith in
      let sum = ap (λ x. add64 (clock_of ctx t) x) same ∙ sym (reads_clock synced) in
      (ends_at, read ∙ sum, clock ∙ sum)

  -- With a counter from 2^31 to below 2^32 the program reads a clock that is 2^32 ticks behind what it
  -- read before, under the same conditions.
  pub end_coarsened-back :
      task_clock_add_ticks ctx t.info.coarsened_ticks_counter t.kernel ≡ ok m'
      → 2 ^ 31 ≤ t.info.coarsened_ticks_counter
      → t.info.coarsened_ticks_counter < 2 ^ 32
      → (t.kernel.status ctx.current).ticks ≡ clock_of ctx t
      → (determ_task_clock_end_coarsened_tx kernel t ≡ some (settled_at t m'))
        × (determ_task_clock_read kernel (settled_at t m')
            ≡ sub64 (determ_task_clock_read kernel t) (2 ^ 32))
  unfolding Gained
  end_coarsened-back runs large small synced =
      let (ends_at, read, clock) = gained runs (omega (arith, large)) small in
      let big : sign_extend32 t.info.coarsened_ticks_counter
          ≡ t.info.coarsened_ticks_counter + (2 ^ 64 - 2 ^ 32) =
        ground arith in
      (
        ends_at,
        read
            ∙ ap (λ x. add64 (clock_of ctx t) x) big
            ∙ gone_back (clock_of ctx t) t.info.coarsened_ticks_counter
            ∙ sym (ap (λ x. sub64 x (2 ^ 32)) (reads_clock synced)),
      )

-- Whether thread `id` is the new lowest one, given the machine before and after its activation.
pub record IsAnswer (m m' : Machine) (id : ℕ) (b : Bool) : Type 0 where
  pub first : m.group.lowest_tid ≡ none → b ≡ true
  pub ahead : (l : ℕ) → m.group.lowest_tid ≡ some l → ComesBefore m' id l → b ≡ true
  pub behind : (l : ℕ) → m.group.lowest_tid ≡ some l → ¬ ComesBefore m' id l → b ≡ false

module _ (ctx : Context) (kernel : Kernel Machine) (d : IsDispatched ctx kernel)
    (t : Thread Machine) where
  abbrev flag_of : Thread Machine → Bool
  flag_of x = (x.kernel.status ctx.current).activated_lowest

  taken :
      (m' : Machine) (b : Bool)
      → (m'.status ctx.current).activated_lowest ≡ b
      → (t' : Thread Machine) × (take_activated_lowest kernel (record t { kernel = m' }) ≡ (b, t'))
        × (flag_of t' ≡ false)
        × (t'.kernel.group ≡ m'.group)
  taken m' true h =
      let u = record (m'.status ctx.current) { activated_lowest = false } in
      (
        record t { kernel = put_status m' ctx.current u },
        rw (d.reads m', h, d.writes u m') refl,
        ground arith,
        refl,
      )
  taken m' false h = (record t { kernel = m' }, rw (d.reads m', h) refl, h, refl)

  activation_runs :
      (id : ℕ) (m' : Machine)
      → id < 2 ^ 32
      → task_clock_entry_activate_other ctx id (before_activation ctx t) ≡ ok m'
      → determ_task_clock_activate_other kernel id t
        ≡ some (take_activated_lowest kernel (record t { kernel = m' }))
  unfolding determ_task_clock_activate_other
  activation_runs id m' small runs =
      let u = record (t.kernel.status ctx.current) { single_active_thread = false } in
      let same : id % 2 ^ 32 ≡ id = omega (arith, small) in
      rw
        (
          d.reads t.kernel,
          d.writes u t.kernel,
          same,
          d.activates id (before_activation ctx t) m' runs,
        )
        refl

  -- A thread that activates another, with an id below 4096 that is not listed, from a well-formed
  -- group and with its flag reset before, is answered whether that thread is the new lowest one: 1
  -- if no lowest thread was recorded before, or the clock of the new thread is below that of the one
  -- that was, or the same with a lower id, and 0 if not so. The flag is reset again, and the kernel's
  -- group is what `task_clock_entry_activate_other` promises.
  pub activate_other_lem :
      (xs : List ℕ) (id : ℕ)
      → IsWellFormed t.kernel xs
      → id < max_size
      → id ∉ xs
      → flag_of t ≡ false
      → (b : Bool) × (m' : Machine) × (t' : Thread Machine) × (determ_task_clock_activate_other
            kernel id t
          ≡ some (b, t'))
        × IsAnswer t.kernel m' id b
        × (flag_of t' ≡ false)
        × (t'.kernel.group ≡ m'.group)
        × ActivatedOther ctx (before_activation ctx t) xs id m'
  activate_other_lem xs id w lt out reset =
      let (m', runs, a) =
        activate_other-append ctx (before_activation ctx t) xs id
          (record { listed = w.listed; active = w.active }) lt out in
      let (t', takes, cleared, group) = taken m' (m'.status ctx.current).activated_lowest refl in
      (
        (m'.status ctx.current).activated_lowest,
        m',
        t',
        activation_runs id m' (omega (arith, lt)) runs ∙ ap some takes,
        record {
          first = a.first;
          ahead = a.ahead;
          behind = λ l e after. a.behind l e after ∙ ground (arith, reset);
        },
        cleared,
        group,
        a,
      )
