-- ===== src/System/Truthful.antt =====
-- The flags of the threads, `lowest_clock`, over the search for the lowest thread
-- (src/module/clock_main.c, `__determine_lowest_and_notify_or_wait`).
use task_clock.Common.{
  ℕ, ◌≡◌, ◌<◌, ◌⊎◌, inl, inr, sym, ap, ◌∙◌, Bool, true, false, Option, none, some, List, [], ◌∷◌,
  arith, ◌==◌, eq_of_==, is_tid→eq, Bool-cases, length, ◌∈◌, ok, Ensures, Ensures-eq, Ensures-ok,
}
use task_clock.Group.{
  Entry, Machine, Context, entry, add64, get_clock_ticks, current_is_only_active_thread,
}
use task_clock.Search.{thread_arr_size, is_active}
use task_clock.Search.Fold.{IsLowestOf}
use task_clock.Notify.{determine_lowest_and_notify_or_wait}
use task_clock.Notify.Kept.{Kept}
use task_clock.Notify.Determine.{Chosen, determine_lem, determine_alone}
use task_clock.Handlers.Lists.{IsWellFormed}
use task_clock.System.Quiet.{Own}
use task_clock.System.Notices.{determine-Own}
use task_clock.System.Listing.{Own-IsWellFormed}
use task_clock.System.Turn.{HasTurn}

abbrev pub flag : Machine → ℕ → Bool
flag m t = (m.status t).lowest_clock

-- No flag changes.
abbrev pub Steady : Machine → Machine → Type 0
Steady m m' = (t : ℕ) → flag m' t ≡ flag m t

-- A flag that is set at the end was set before, or its thread is the lowest active one of `xs'`.
abbrev pub Truthful : Machine → List ℕ → Machine → Type 0
Truthful m xs' m' = (t : ℕ) → flag m' t ≡ true → (flag m t ≡ true) ⊎ HasTurn t m' xs'

one_member : (xs : List ℕ) (a j : ℕ) → length xs ≡ 1 → a ∈ xs → j ∈ xs → j ≡ a
one_member [] a j one mem mem' = ground arith
one_member (x ∷ []) a j one mem mem' = ground arith
one_member (x ∷ y ∷ xs) a j one mem mem' = ground arith

module _ (ctx : Context) (xs : List ℕ) where
  -- The thread is active, or marked as inactive.
  abbrev pub Present : Machine → Type 0
  Present m =
      ((ctx.current ∈ xs) × ((entry m ctx.current).initialized ≡ true))
      ⊎ ((entry m ctx.current).inactive ≡ true)

  module _ (m m' : Machine) (w : IsWellFormed m xs) (k : Kept ctx m m') (o : Own ctx m m') where
    clock_kept : (j : ℕ) → get_clock_ticks m'.group j ≡ get_clock_ticks m.group j
    clock_kept j = elim (Bool-cases (ctx.current == j)) [
      | inl own ↦ ground (arith, k.ticks, k.base, eq_of_== ctx.current j own)
      | inr other ↦ ap (λ (e : Entry). add64 e.ticks e.base_ticks) (k.entry_other j (ground arith))
    ]

    initialized_kept : (j : ℕ) → (entry m' j).initialized ≡ (entry m j).initialized
    initialized_kept j = elim (Bool-cases (ctx.current == j)) [
      | inl own ↦ ground (arith, k.initialized, eq_of_== ctx.current j own)
      | inr other ↦ ap (λ (e : Entry). e.initialized) (k.entry_other j (ground arith))
    ]

    active_kept : (j : ℕ) → j ∈ xs → is_active (entry m' j) ≡ is_active (entry m j)
    active_kept j mem =
        let w' = Own-IsWellFormed ctx m m' xs w o in
        ground (arith, initialized_kept j, w.active j mem, w'.active j mem)

    -- Who has the turn keeps it.
    pub turn-kept : (t : ℕ) → HasTurn t m xs → HasTurn t m' xs
    turn-kept t turn = (
      turn.0,
      active_kept t turn.0 ∙ turn.1,
      λ j mem act ne.
          rw (clock_kept t, clock_kept j) (turn.2 j mem (sym (active_kept j mem) ∙ act) ne),
    )

  -- What determining the lowest thread leaves, with the thread to be told.
  pub record Tells (m : Machine) (tid : Option ℕ) (m' : Machine) : Type 0 where
    pub kept : Kept ctx m m'
    pub own : Own ctx m m'
    pub granted : flag m' ctx.current ≡ true → HasTurn ctx.current m' xs
    pub told : (t : ℕ) → tid ≡ some t → (m'.group.lowest_tid ≡ some t) × HasTurn t m' xs

  module _ (m : Machine) (stack : ℕ → ℕ) (w : IsWellFormed m xs) where
    Own-determined :
        (tid : Option ℕ) (m' : Machine)
        → determine_lowest_and_notify_or_wait ctx stack m ≡ ok (tid, m')
        → Own ctx m m'
    Own-determined tid m' runs =
        Ensures-eq (λ r. Own ctx m r.1) (determine_lowest_and_notify_or_wait ctx stack m) (tid, m')
          runs (determine-Own ctx stack m)

    alone-Tells :
        (m' : Machine)
        → current_is_only_active_thread ctx m ≡ true
        → Present m
        → determine_lowest_and_notify_or_wait ctx stack m ≡ ok (none, m')
        → Kept ctx m m'
        → Tells m none m'
    alone-Tells m' alone (inr gone) runs k = ground arith
    alone-Tells m' alone (inl (mem, init)) runs k =
        let o = Own-determined none m' runs in
        let one : length xs ≡ 1 = ground (arith, w.listed.counted) in
        record {
          kept = k;
          own = o;
          granted = λ h. turn-kept m m' w k o ctx.current (
            mem,
            ground (arith, w.active ctx.current mem),
            λ j mem' act ne. absurd (ne (one_member xs ctx.current j one mem mem')),
          );
          told = λ t e. cc;
        }

    chosen-Tells :
        (low tid : Option ℕ) (m' : Machine)
        → determine_lowest_and_notify_or_wait ctx stack m ≡ ok (tid, m')
        → IsLowestOf m.group (λ j. is_active (m.group.clocks j)) xs low
        → Chosen ctx m low tid m'
        → Tells m tid m'
    chosen-Tells low tid m' runs is c =
        let o = Own-determined tid m' runs in
        let turn_of : (t : ℕ) → low ≡ some t → HasTurn t m' xs =
          λ t e. turn-kept m m' w c.kept o t (rw e at is) in
        record {
          kept = c.kept;
          own = o;
          granted = λ h. turn_of ctx.current (is_tid→eq low ctx.current (sym c.granted ∙ h));
          told = λ t e.
              let (lowest, ne, waits, recorded, sent, settled) = c.woken t e in
              (recorded, turn_of t lowest);
        }

    pub determine-Tells :
        ctx.in_nmi ≡ false
        → ((i : ℕ) → i ∈ xs → i < thread_arr_size)
        → Present m
        → Ensures (λ r. Tells m r.0 r.1) (determine_lowest_and_notify_or_wait ctx stack m)
    determine-Tells outside small present =
        elim (Bool-cases (current_is_only_active_thread ctx m)) [
          | inl alone ↦
              let (m', runs, g, n, k) = determine_alone ctx m stack alone in
              Ensures-ok (λ r. Tells m r.0 r.1) (determine_lowest_and_notify_or_wait ctx stack m)
                (none, m') runs (alone-Tells m' alone present runs k)
          | inr others ↦
              let (low, tid, m', runs, is, d) =
                determine_lem ctx m stack xs outside w.listed small others in
              Ensures-ok (λ r. Tells m r.0 r.1) (determine_lowest_and_notify_or_wait ctx stack m)
                (tid, m') runs (chosen-Tells low tid m' runs is d.chosen)
        ]
