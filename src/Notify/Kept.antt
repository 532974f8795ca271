-- ===== src/Notify/Kept.antt =====
-- What determining the lowest thread leaves alone (module/clock_main.c).
use task_clock.Common.{
  ℕ, ◌≡◌, ◌≢◌, refl, Bool, true, false, ◌&&◌, Option, none, some, arith, same_tid, if◌then◌else◌,
  ==-refl, ◌∙◌,
}
use task_clock.Group.{
  UserStatus, Machine, Context, entry, put_entry, put_status, get_clock_ticks,
  set_hit_bounded_fence, clear_entry_state,
}
use task_clock.Notify.{
  put_group, thread_is_waiting, set_current_thread_to_lowest, yield_to_lowest, refresh_lowest_ticks,
  move_lowest,
}

-- What determining the lowest thread leaves alone: all of the other threads, and the clock, the
-- counter and the chunk of the current one.
pub record Kept (ctx : Context) (m m' : Machine) : Type 0 where
  pub entry_other : (t : ℕ) → ctx.current ≢ t → entry m' t ≡ entry m t
  pub status_other : (t : ℕ) → ctx.current ≢ t → m'.status t ≡ m.status t
  pub ticks : (entry m' ctx.current).ticks ≡ (entry m ctx.current).ticks
  pub base : (entry m' ctx.current).base_ticks ≡ (entry m ctx.current).base_ticks
  pub initialized : (entry m' ctx.current).initialized ≡ (entry m ctx.current).initialized
  pub count_ticks : (entry m' ctx.current).count_ticks ≡ (entry m ctx.current).count_ticks
  pub chunk_ticks : (entry m' ctx.current).chunk_ticks ≡ (entry m ctx.current).chunk_ticks
  pub event : (entry m' ctx.current).event ≡ (entry m ctx.current).event
  pub list : m'.group.active_threads ≡ m.group.active_threads
  pub mapped : m'.group.user_status_arr ≡ m.group.user_status_arr
  pub quiet : m'.effects ≡ m.effects

pub Kept-trans :
    {ctx : Context} {m m' m'' : Machine} → Kept ctx m m' → Kept ctx m' m'' → Kept ctx m m''
Kept-trans a b = record {
  entry_other = λ t ne. b.entry_other t ne ∙ a.entry_other t ne;
  status_other = λ t ne. b.status_other t ne ∙ a.status_other t ne;
  ticks = b.ticks ∙ a.ticks;
  base = b.base ∙ a.base;
  initialized = b.initialized ∙ a.initialized;
  count_ticks = b.count_ticks ∙ a.count_ticks;
  chunk_ticks = b.chunk_ticks ∙ a.chunk_ticks;
  event = b.event ∙ a.event;
  list = b.list ∙ a.list;
  mapped = b.mapped ∙ a.mapped;
  quiet = b.quiet ∙ a.quiet;
}

module _ (ctx : Context) (m : Machine) where
  pub Kept-refl : Kept ctx m m
  Kept-refl = record {
    entry_other = λ t ne. refl;
    status_other = λ t ne. refl;
    ticks = refl;
    base = refl;
    initialized = refl;
    count_ticks = refl;
    chunk_ticks = refl;
    event = refl;
    list = refl;
    mapped = refl;
    quiet = refl;
  }

  -- The group-wide fields are written.
  pub group-Kept :
      (low : Option ℕ) (ticks : ℕ) (needed nmi : Bool)
      → Kept ctx m (
          put_group
            (record (m.group) {
              lowest_tid = low;
              lowest_ticks = ticks;
              notification_needed = needed;
              nmi_new_low = nmi;
            })
            m)
  group-Kept low ticks needed nmi = record {
    entry_other = λ t ne. refl;
    status_other = λ t ne. refl;
    ticks = refl;
    base = refl;
    initialized = refl;
    count_ticks = refl;
    chunk_ticks = refl;
    event = refl;
    list = refl;
    mapped = refl;
    quiet = refl;
  }

  pub status-Kept : (s : UserStatus) → Kept ctx m (put_status m ctx.current s)
  status-Kept s = record {
    entry_other = λ t ne. refl;
    status_other = λ t ne. ground arith;
    ticks = refl;
    base = refl;
    initialized = refl;
    count_ticks = refl;
    chunk_ticks = refl;
    event = refl;
    list = refl;
    mapped = refl;
    quiet = refl;
  }

  -- The flags of the current thread are written.
  pub flags-Kept :
      (inactive waiting sleeping : Bool)
      → Kept ctx m (
          put_entry m ctx.current (record (entry m ctx.current) {
            inactive = inactive;
            waiting = waiting;
            sleeping = sleeping;
          }))
  flags-Kept inactive waiting sleeping = record {
    entry_other = λ t ne. ground arith;
    status_other = λ t ne. refl;
    ticks = rw (==-refl ctx.current);
    base = rw (==-refl ctx.current);
    initialized = rw (==-refl ctx.current);
    count_ticks = rw (==-refl ctx.current);
    chunk_ticks = rw (==-refl ctx.current);
    event = rw (==-refl ctx.current);
    list = refl;
    mapped = refl;
    quiet = refl;
  }

  hit-Kept : (b : Bool) → Kept ctx m (set_hit_bounded_fence ctx b m)
  hit-Kept b = go ctx.build.bounded_fence
    where
      go :
          (fence : Bool)
          → Kept ctx m (
              if fence
              then put_status m ctx.current
                  (record (m.status ctx.current) { hit_bounded_fence = b })
              else m)
      go true = status-Kept (record (m.status ctx.current) { hit_bounded_fence = b })
      go false = Kept-refl

pub clear-Kept : (ctx : Context) (m : Machine) → Kept ctx m (clear_entry_state ctx m)
clear-Kept ctx m = Kept-trans (flags-Kept ctx m false false false) (hit-Kept ctx _ false)

module _ (ctx : Context) (m : Machine) where
  -- Taking the lowest place.
  pub record Taken (m' : Machine) : Type 0 where
    pub granted : (m'.status ctx.current).lowest_clock ≡ true
    pub settled : m'.group.notification_needed ≡ false
    pub lowest_same : m'.group.lowest_tid ≡ m.group.lowest_tid
    pub nmi_same : m'.group.nmi_new_low ≡ m.group.nmi_new_low
    pub runs : (entry m' ctx.current).waiting ≡ false

  pub take-Taken : Taken (set_current_thread_to_lowest ctx m)
  unfolding set_current_thread_to_lowest
  take-Taken = ground arith

  pub take-Kept : Kept ctx m (set_current_thread_to_lowest ctx m)
  unfolding set_current_thread_to_lowest
  take-Kept =
      let m₁ = put_status m ctx.current (record (m.status ctx.current) { lowest_clock = true }) in
      let m₂ = put_group (record (m₁.group) { notification_needed = false }) m₁ in
      let m₃ = clear_entry_state ctx m₂ in
      Kept-trans (status-Kept ctx m (record (m.status ctx.current) { lowest_clock = true })) (
        Kept-trans
          (group-Kept ctx m₁ m.group.lowest_tid m.group.lowest_ticks false m.group.nmi_new_low)
          (Kept-trans (clear-Kept ctx m₂) (
            group-Kept ctx m₃ m₃.group.lowest_tid (get_clock_ticks m₃.group ctx.current)
              m₃.group.notification_needed m₃.group.nmi_new_low)))

  pub yield-Kept : Kept ctx m (yield_to_lowest ctx m).1
  unfolding yield_to_lowest
  yield-Kept =
      Kept-trans (status-Kept ctx m (record (m.status ctx.current) { lowest_clock = false }))
        (cond-Kept (thread_is_waiting m.group m.group.lowest_tid && m.group.notification_needed))
    where
      m₁ : Machine
      m₁ = put_status m ctx.current (record (m.status ctx.current) { lowest_clock = false })

      out : Bool → Option ℕ × Machine
      out b =
          if b
          then (
            m₁.group.lowest_tid,
            put_group (record (m₁.group) { nmi_new_low = false; notification_needed = false }) m₁,
          )
          else (none, m₁)

      cond-Kept : (b : Bool) → Kept ctx m₁ (out b).1
      cond-Kept true = group-Kept ctx m₁ m.group.lowest_tid m.group.lowest_ticks false false
      cond-Kept false = Kept-refl ctx m₁

  pub refresh-Kept : Kept ctx m (refresh_lowest_ticks ctx m)
  refresh-Kept = go (m.group.lowest_tid)
    where
      go :
          (low : Option ℕ)
          → Kept ctx m (elim low [
            | none ↦ m
            | some t ↦ put_group (record (m.group) { lowest_ticks = get_clock_ticks m.group t }) m
          ])
      go none = Kept-refl ctx m
      go (some t) =
          group-Kept ctx m m.group.lowest_tid (get_clock_ticks m.group t)
            m.group.notification_needed m.group.nmi_new_low

  pub move-Kept : (new_low : Option ℕ) → Kept ctx m (move_lowest ctx new_low m)
  move-Kept new_low = go (same_tid new_low m.group.lowest_tid)
    where
      go :
          (b : Bool)
          → Kept ctx m (
              if b
              then m
              else put_group
                  (record (m.group) { notification_needed = true; lowest_tid = new_low })
                  m)
      go true = Kept-refl ctx m
      go false = group-Kept ctx m new_low m.group.lowest_ticks true m.group.nmi_new_low
