-- ===== src/Library/Counted.antt =====
-- The library on top of the kernel module: the end of a section by itself (src/lib/determ_clock.c with
-- src/module/clock_main.c and src/module/logical_clock_instruction_counting.h).
use task_clock.Common.{
  ℕ, ◌+◌, ◌%◌, ◌≡◌, ◌<◌, ap, ◌∙◌, Bool, true, false, none, List, ◌∷◌, ◌++◌, arith, if◌then◌else◌,
  ok, Ensures, Ensures-bind, Ensures-eq,
}
use task_clock.Group.{
  UserStatus, Machine, Context, CounterRead, entry, add64, sub64, word, get_clock_ticks,
  tick_counter_is_running,
}
use task_clock.Fence.{single_stepping_on}
use task_clock.Counter.{counter_delta}
use task_clock.Counter.Delta.{Disturbed}
use task_clock.Counter.Clock.{read_clock_and_update-Updated}
use task_clock.Notify.{determine_lowest_and_notify_or_wait}
use task_clock.Handlers.{determine_and_wake, task_clock_entry_stop}
use task_clock.System.Published.{IsPublished, determine-IsPublished, wake-IsPublished}
use task_clock.Library.{Kernel, Thread}
use task_clock.Library.Sections.{observe, determ_task_clock_stop_with_id}
use task_clock.Library.Composed.{IsDispatched, clock_of}

add64_moved :
    (ticks base delta : ℕ) → add64 ((ticks + delta) % word) base ≡ add64 (add64 ticks base) delta
add64_moved ticks base delta = omega arith

picked : (b : Bool) (x y z : ℕ) → b ≡ true → x ≡ (if b then y else z) → x ≡ y
picked true x y z on e = e
picked false x y z on e = ground arith

-- What the library takes for the size of the section, given the clock at its start.
size_lem :
    (clock start counted coarsened : ℕ)
    → clock < word
    → start < word
    → sub64 (add64 (add64 clock counted) coarsened) (add64 start coarsened)
      ≡ add64 (sub64 clock start) counted
size_lem clock start counted coarsened small small' = omega (arith, small, small')

module _ (ctx : Context) where
  wakes-IsPublished :
      (n : ℕ) (m : Machine)
      → get_clock_ticks m.group ctx.current ≡ n
      → Ensures (IsPublished ctx n) (determine_and_wake ctx m)
  wakes-IsPublished n m at =
      Ensures-bind (λ r. IsPublished ctx (get_clock_ticks m.group ctx.current) r.1)
        (IsPublished ctx n) (determine_lowest_and_notify_or_wait ctx (ctx.stack 0) m) _
        (determine-IsPublished ctx m) (λ (tid, m₁) p. wake-IsPublished ctx n tid m₁ (rw at at p))

  -- What a stop adds to the clock, if it reads the counter as in `r` after the previous count `q`.
  abbrev pub counted : Machine → CounterRead → ℕ → ℕ
  counted m r q = add64 (counter_delta r.raw q) (entry m ctx.current).event.count

  module _ (m : Machine) (rs : List CounterRead) (r : CounterRead) (rest : List CounterRead) (q : ℕ)
      (counting : ctx.build.instruction_counting ≡ true) (reads : ctx.reads ≡ rs ++ (r ∷ rest))
      (disturbed : Disturbed (entry m ctx.current).event.prev_count rs q)
      (quiet : r.nmi_store ≡ none) (running : tick_counter_is_running ctx m ≡ true)
      (stepping : single_stepping_on ctx ctx.current m ≡ false) where
    stop-IsPublished :
        Ensures
          (IsPublished ctx (add64 (get_clock_ticks m.group ctx.current) (counted m r q)))
          (task_clock_entry_stop ctx m)
    unfolding task_clock_entry_stop
    stop-IsPublished =
        let (m₁, runs, u) =
          read_clock_and_update-Updated ctx m rs r rest q counting reads disturbed quiet in
        let ticked : (entry m₁ ctx.current).ticks
            ≡ ((entry m ctx.current).ticks + counted m r q) % word =
          picked (tick_counter_is_running ctx m) _ _ _ running u.counted in
        let at : get_clock_ticks m₁.group ctx.current
            ≡ add64 (get_clock_ticks m.group ctx.current) (counted m r q) =
          rw (ticked, u.based)
            (add64_moved (entry m ctx.current).ticks (entry m ctx.current).base_ticks
              (counted m r q)) in
        rw (stepping, runs)
          (wakes-IsPublished (add64 (get_clock_ticks m.group ctx.current) (counted m r q)) m₁ at)

  module _ (kernel : Kernel Machine) (d : IsDispatched ctx kernel) where
    -- On top of the module, a section that ends by itself is observed with its whole length: what the
    -- clock had gained since its start, and what the counter counted since the last previous count,
    -- with what the event had pending; and the clock grows by the latter. This is in a build that
    -- counts instructions, for a stop that returns, of a running counter, once no NMI interferes with
    -- its reads, by a thread that is not single stepping, and whose last clock value is that of the
    -- start with the coarsened ticks.
    pub stop_with_id_lem :
        (t : Thread Machine) (m' : Machine) (id start : ℕ) (rs : List CounterRead) (r : CounterRead)
        (rest : List CounterRead) (q : ℕ)
        → ctx.build.instruction_counting ≡ true
        → ctx.reads ≡ rs ++ (r ∷ rest)
        → Disturbed (entry t.kernel ctx.current).event.prev_count rs q
        → r.nmi_store ≡ none
        → tick_counter_is_running ctx t.kernel ≡ true
        → single_stepping_on ctx ctx.current t.kernel ≡ false
        → start < word
        → t.info.last_clock_value ≡ add64 start t.info.coarsened_ticks_counter
        → task_clock_entry_stop ctx t.kernel ≡ ok m'
        → (determ_task_clock_stop_with_id kernel id t
            ≡ observe kernel id
                (add64 (sub64 (clock_of ctx t) start) (counted t.kernel r q))
                (record t { kernel = m' }))
          × (get_clock_ticks m'.group ctx.current ≡ add64 (clock_of ctx t) (counted t.kernel r q))
    unfolding determ_task_clock_stop_with_id
    stop_with_id_lem t m' id start rs r rest q counting reads disturbed quiet running stepping small
          noted runs =
        let n = add64 (clock_of ctx t) (counted t.kernel r q) in
        let p =
          Ensures-eq (IsPublished ctx n) (task_clock_entry_stop ctx t.kernel) m' runs (
            stop-IsPublished t.kernel rs r rest q counting reads disturbed quiet running
              stepping) in
        let copy : (kernel.status m').ticks ≡ n =
          ap (λ (u : UserStatus). u.ticks) (d.reads m') ∙ p.copy in
        let size : sub64 (add64 (kernel.status m').ticks t.info.coarsened_ticks_counter)
              t.info.last_clock_value
            ≡ add64 (sub64 (clock_of ctx t) start) (counted t.kernel r q) =
          rw (copy, noted)
            (size_lem (clock_of ctx t) start (counted t.kernel r q) t.info.coarsened_ticks_counter
              (omega arith) small) in
        (
          rw (d.stops t.kernel m' runs)
              (ap (λ size. observe kernel id size (record t { kernel = m' })) size),
          p.clock,
        )
