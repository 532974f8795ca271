-- ===== src/System/Turn.antt =====
-- The turn of the thread with the lowest clock over calls of the other threads
-- (src/module/clock_main.c).
use task_clock.Common.{
  ℕ, ◌+◌, ◌≡◌, ◌≢◌, ◌≤◌, ◌<◌, refl, ◌∙◌, sym, ap, true, false, ◌&&◌, ◌||◌, some, List, [], ◌∷◌,
  arith, ◌==◌, eq_of_==, ==-refl, ltb, is_tid, has, has-append, has-erase, ◌∈◌, ◌∉◌, ok, Ensures-eq,
  inl, inr, Bool-cases,
}
use task_clock.Group.{
  Entry, current_is_only_active_thread, Machine, Context, entry, word, add64, get_clock_ticks,
  clock_is_lower,
}
use task_clock.Search.{thread_arr_size, is_active}
use task_clock.Search.Fold.{IsLowestOf, IsLowestOf_unique}
use task_clock.Handlers.{task_clock_entry_wait}
use task_clock.Handlers.Wait.{task_clock_entry_wait_lem}
use task_clock.Handlers.Lists.{IsWellFormed}
use task_clock.System.{
  Call, overflow_handler, entry_init, entry_activate, entry_halt, on_disable, on_enable,
  entry_activate_other, entry_wait, entry_sleep, overflow_update_period, add_ticks, entry_woke_up,
  entry_stop, entry_start, entry_reset, entry_start_no_notify, entry_stop_no_notify,
  entry_is_singlestep, notify_irq, run_call,
}
use task_clock.System.WellFormed.{touched, listed_after, Arrives, Kempt, run_call-Kempt}

-- Thread `t` is the active thread with the lowest clock.
abbrev pub HasTurn : ℕ → Machine → List ℕ → Type 0
HasTurn t m xs = IsLowestOf m.group (λ j. is_active (m.group.clocks j)) xs (some t)

-- What a call that brings a thread has to meet: a thread that activates itself is not ahead of `t`
-- in the order; one that is activated is new, and by an active thread whose clock has not reached its
-- end; and an entry is initialised before it is activated.
abbrev pub IsModest : ℕ → Context → Machine → List ℕ → Call → Type 0
IsModest t ctx m xs entry_activate = clock_is_lower m.group t ctx.current ≡ true
IsModest t ctx m xs (entry_activate_other id) =
    (ctx.current ∈ xs)
    × ((entry m ctx.current).initialized ≡ true)
    × ((entry m id).initialized ≡ false)
    × (get_clock_ticks m.group ctx.current + 1 < word)
IsModest t ctx m xs (entry_init event pte_found) = ctx.current ∉ xs
IsModest t ctx m xs _ = Unit

-- A call of another thread that returns, and does not turn its own clock back, as only adding a
-- negative number of ticks or an overflow of the clock would.
pub record IsFair (t : ℕ) (ctx : Context) (call : Call) (m : Machine) (xs : List ℕ) (m' : Machine)
    : Type 0 where
  pub returns : run_call ctx call m ≡ ok m'
  pub other : ctx.current ≢ t
  pub forward : get_clock_ticks m.group ctx.current ≤ get_clock_ticks m'.group ctx.current
  pub modest : IsModest t ctx m xs call

-- Any number of such calls, one after another.
pub data Meanwhile (t : ℕ) : Machine → List ℕ → Machine → List ℕ → Type 0 where
  none_yet : {m : Machine} {xs : List ℕ} → Meanwhile t m xs m xs
  then_call :
      {m m₁ m' : Machine} {xs xs' : List ℕ} (ctx : Context) (call : Call)
      → IsFair t ctx call m xs m₁
      → Meanwhile t m₁ (listed_after ctx call xs) m' xs'
      → Meanwhile t m xs m' xs'

-- The order on clocks, when the higher clock moves forward.
lower_forward :
    (a b b' t j : ℕ)
    → (ltb a b || ((a == b) && ltb t j)) ≡ true
    → b ≤ b'
    → (ltb a b' || ((a == b') && ltb t j)) ≡ true
lower_forward a b b' t j lower forward = ground arith

started_after :
    (a b t c j : ℕ)
    → (ltb a b || ((a == b) && ltb t c)) ≡ true
    → b + 1 < word
    → (ltb a (add64 b 1) || ((a == add64 b 1) && ltb t j)) ≡ true
started_after a b t c j lower room = ground arith

-- A thread that is not touched stays where it was on the list.
has-listed_after :
    (ctx : Context) (call : Call) (m : Machine) (xs : List ℕ) (j : ℕ)
    → IsWellFormed m xs
    → touched ctx call ≢ j
    → has j (listed_after ctx call xs) ≡ has j xs
has-listed_after ctx entry_activate m xs j w ne = ground (arith, has-append j xs (ctx.current ∷ []))
has-listed_after ctx (entry_activate_other id) m xs j w ne =
    ground (arith, has-append j xs (id ∷ []))
has-listed_after ctx entry_halt m xs j w ne =
    ground (arith, has-erase ctx.current j xs w.listed.distinct)
has-listed_after ctx _ m xs j w ne = refl

module _ (t : ℕ) (ctx : Context) (m m' : Machine) (xs : List ℕ) (w : IsWellFormed m xs)
    (turn : HasTurn t m xs) where
  same_ticks :
      (j : ℕ) → entry m' j ≡ entry m j → get_clock_ticks m'.group j ≡ get_clock_ticks m.group j
  same_ticks j same = ap (λ (e : Entry). add64 e.ticks e.base_ticks) same

  -- A thread behind `t` whose clock does not go back stays behind.
  pub stays_behind :
      (j : ℕ)
      → entry m' t ≡ entry m t
      → get_clock_ticks m.group j ≤ get_clock_ticks m'.group j
      → clock_is_lower m.group t j ≡ true
      → clock_is_lower m'.group t j ≡ true
  stays_behind j same forward lower = rw (same_ticks t same) (
      lower_forward (get_clock_ticks m.group t) (get_clock_ticks m.group j)
        (get_clock_ticks m'.group j) t j lower forward)

  -- An active thread other than `t` is behind `t`.
  behind :
      (j : ℕ) → j ∈ xs → j ≢ t → (entry m j).initialized ≡ true → clock_is_lower m.group t j ≡ true
  behind j mem ne init = turn.2 j mem (rw (init, w.active j mem) refl) ne

  -- A thread that starts one tick after a thread behind `t` is behind `t`.
  just_behind :
      (id : ℕ)
      → entry m' t ≡ entry m t
      → clock_is_lower m.group t ctx.current ≡ true
      → get_clock_ticks m.group ctx.current + 1 < word
      → get_clock_ticks m'.group id ≡ add64 (get_clock_ticks m.group ctx.current) 1
      → clock_is_lower m'.group t id ≡ true
  just_behind id same lower room at = rw (same_ticks t same) (
      rw at (
        started_after (get_clock_ticks m.group t) (get_clock_ticks m.group ctx.current) t
          ctx.current id lower room))

  own-behind :
      entry m' t ≡ entry m t
      → get_clock_ticks m.group ctx.current ≤ get_clock_ticks m'.group ctx.current
      → ((entry m' ctx.current).initialized ≡ true → (entry m ctx.current).initialized ≡ true)
      → ctx.current ∈ xs
      → (entry m' ctx.current).initialized ≡ true
      → ctx.current ≢ t
      → clock_is_lower m'.group t ctx.current ≡ true
  own-behind same forward before mem init ne =
      stays_behind ctx.current same forward (behind ctx.current mem ne (before init))

  -- The thread that a call touches is behind `t` after the call, if it is active.
  touched-behind :
      (call : Call)
      → IsFair t ctx call m xs m'
      → Arrives ctx m xs w call m'
      → entry m' t ≡ entry m t
      → ((i : ℕ) → touched ctx call ≢ i → entry m' i ≡ entry m i)
      → touched ctx call ∈ listed_after ctx call xs
      → (entry m' (touched ctx call)).initialized ≡ true
      → touched ctx call ≢ t
      → clock_is_lower m'.group t (touched ctx call) ≡ true
  touched-behind (entry_init event pte_found) fair arrives same others =
      λ mem init ne. ground (arith, fair.modest)
  touched-behind entry_activate fair arrives same others =
      λ mem init ne. stays_behind ctx.current same fair.forward fair.modest
  touched-behind entry_halt fair arrives same others =
      λ mem init ne. ground (arith, has-erase ctx.current ctx.current xs w.listed.distinct)
  touched-behind (entry_activate_other id) fair arrives same others = λ mem init ne.
      let (member, started, fresh, room) = fair.modest in
      just_behind id same (behind ctx.current member fair.other started) room (arrives.1 fresh)
  touched-behind (overflow_handler regs) fair arrives same others =
      own-behind same fair.forward arrives
  touched-behind on_disable fair arrives same others = own-behind same fair.forward arrives
  touched-behind on_enable fair arrives same others = own-behind same fair.forward arrives
  touched-behind entry_wait fair arrives same others = own-behind same fair.forward arrives
  touched-behind (entry_sleep fuel) fair arrives same others = own-behind same fair.forward arrives
  touched-behind overflow_update_period fair arrives same others =
      own-behind same fair.forward arrives
  touched-behind (add_ticks ticks) fair arrives same others = own-behind same fair.forward arrives
  touched-behind entry_woke_up fair arrives same others = own-behind same fair.forward arrives
  touched-behind entry_stop fair arrives same others = own-behind same fair.forward arrives
  touched-behind entry_start fair arrives same others = own-behind same fair.forward arrives
  touched-behind entry_reset fair arrives same others = own-behind same fair.forward arrives
  touched-behind entry_start_no_notify fair arrives same others =
      own-behind same fair.forward arrives
  touched-behind entry_stop_no_notify fair arrives same others =
      own-behind same fair.forward arrives
  touched-behind (entry_is_singlestep regs) fair arrives same others =
      own-behind same fair.forward arrives
  touched-behind notify_irq fair arrives same others = own-behind same fair.forward arrives

  touched-ne :
      (call : Call) → IsFair t ctx call m xs m' → Arrives ctx m xs w call m' → touched ctx call ≢ t
  touched-ne (entry_activate_other id) fair arrives =
      λ e. ground (arith, turn.0, arrives.0, ap (λ i. has i xs) e)
  touched-ne _ fair arrives = fair.other

  -- One call leaves the turn with `t`.
  pub step :
      (call : Call)
      → IsFair t ctx call m xs m'
      → IsWellFormed m' (listed_after ctx call xs)
        × HasTurn t m' (listed_after ctx call xs)
        × (entry m' t ≡ entry m t)
  step call fair =
      let ((w', others), arrives) =
        Ensures-eq (Kempt ctx m xs w call) (run_call ctx call m) m' fair.returns
          (run_call-Kempt ctx m xs w call) in
      let ne : touched ctx call ≢ t = touched-ne call fair arrives in
      let same : entry m' t ≡ entry m t = others t ne in
      (
        w',
        (
          has-listed_after ctx call m xs t w ne ∙ turn.0,
          ap is_active same ∙ turn.1,
          λ j mem act ne'. elim (Bool-cases (touched ctx call == j)) [
            | inl is ↦
                let e : touched ctx call ≡ j = eq_of_== _ _ is in
                rw⁻¹ e (
                  touched-behind call fair arrives same others (rw e mem)
                    (rw e (ground (arith, act))) ne)
            | inr isnt ↦
                let out : touched ctx call ≢ j = ground arith in
                stays_behind j same (ground (arith, same_ticks j (others j out))) (
                  turn.2 j (sym (has-listed_after ctx call m xs j w out) ∙ mem)
                    (sym (ap is_active (others j out)) ∙ act) ne')
          ],
        ),
        same,
      )

-- While a thread that has the turn makes no call, the calls of the other threads leave it the turn:
-- after any number of them it is the active thread with the lowest clock as before, its entry is as
-- it was and the group is well formed, if each call returns, none turns the clock of its own thread
-- back, and no thread is activated ahead of it. That is, one that activates itself is behind it in
-- the order; one that is activated was not initialised, by an active thread whose clock can still
-- take a tick; and a thread initialises its entry before it is active.
pub turn_kept :
    (t : ℕ) {m m' : Machine} {xs xs' : List ℕ}
    → IsWellFormed m xs
    → HasTurn t m xs
    → Meanwhile t m xs m' xs'
    → IsWellFormed m' xs' × HasTurn t m' xs' × (entry m' t ≡ entry m t)
turn_kept t w turn none_yet = (w, turn, refl)
turn_kept t {m} {m'} {xs} w turn (then_call {m₁ = m₁} ctx call fair rest) =
    let (w₁, turn₁, same₁) = step t ctx m m₁ xs w turn call fair in
    let (w', turn', same') = turn_kept t w₁ turn₁ rest in (w', turn', same' ∙ same₁)

-- A thread that has the turn is told so by its next `task_clock_entry_wait`, whatever the other
-- threads called in between under the conditions of `turn_kept`, if that wait is outside NMI context,
-- the status records are mapped, the active threads have ids below 128 and are not the calling
-- thread alone.
pub turn-granted :
    (ctx : Context) {m m' : Machine} {xs xs' : List ℕ}
    → IsWellFormed m xs
    → HasTurn ctx.current m xs
    → Meanwhile ctx.current m xs m' xs'
    → ctx.in_nmi ≡ false
    → m'.group.user_status_arr ≡ true
    → ((i : ℕ) → i ∈ xs' → i < thread_arr_size)
    → current_is_only_active_thread ctx m' ≡ false
    → (m'' : Machine) × (task_clock_entry_wait ctx m' ≡ ok m'')
      × ((m''.status ctx.current).lowest_clock ≡ true)
turn-granted ctx {m} {m'} {xs} {xs'} w turn calls outside mapped small others =
    let (w', turn', same) = turn_kept ctx.current w turn calls in
    let (low, m'', runs, is, waited) =
      task_clock_entry_wait_lem ctx m' xs' outside w'.listed small mapped others in
    let lowest : low ≡ some ctx.current =
      IsLowestOf_unique m'.group (λ j. is_active (m'.group.clocks j)) xs' low (some ctx.current) is
        turn' in
    (m'', runs, waited.granted ∙ ap (λ o. is_tid o ctx.current) lowest ∙ ==-refl ctx.current)
