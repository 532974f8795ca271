-- ===== src/Notify/Determine.antt =====
-- `__determine_lowest_and_notify_or_wait`: who is granted the lowest place, and who is woken.
use task_clock.Common.{
  ℕ, ◌<◌, ◌≡◌, ◌≢◌, ◌⊎◌, refl, sym, ap, ◌∙◌, true, false, Option, none, some, List, arith, ◌==◌,
  ==-refl, none-ne-some, some_injective, is_tid→eq, same_tid→eq, is_tid, same_tid, if◌then◌else◌,
  ◌∈◌, Result, ok, ◌>>=◌, inl, inr, Bool-cases,
}
use task_clock.Listarray.Represents.{Represents}
use task_clock.Group.{
  Entry, Machine, Context, entry, put_status, get_clock_ticks, current_is_only_active_thread,
}
use task_clock.Search.{thread_arr_size, is_active, search_for_lowest_waiting}
use task_clock.Search.Fold.{IsLowestOf, IsLowestOf-congr}
use task_clock.Search.Lowest.{lowest, lowest-IsLowestOf}
use task_clock.Search.Waiting.{waiting_result, search_for_lowest_waiting_lem}
use task_clock.Counter.{publish_ticks}
use task_clock.Notify.{set_waiting, settle, run_alone, determine_lowest_and_notify_or_wait}
use task_clock.Notify.Kept.{Kept, Kept-trans, status-Kept, flags-Kept, take-Kept, take-Taken}
use task_clock.Notify.Settle.{settle-Kept, settle-mine, settle-other, to_wake}

-- Who is granted the lowest place and who is to be woken, given the lowest active thread.
pub record Chosen (ctx : Context) (m : Machine) (low tid : Option ℕ) (m' : Machine) : Type 0 where
  pub kept : Kept ctx m m'
  pub granted : (m'.status ctx.current).lowest_clock ≡ is_tid low ctx.current
  pub woken :
      (t : ℕ)
      → tid ≡ some t
      → (low ≡ some t)
        × (t ≢ ctx.current)
        × ((m.group.clocks t).waiting ≡ true)
        × (m'.group.lowest_tid ≡ some t)
        × (m'.group.notification_needed ≡ false)
        × (m'.group.nmi_new_low ≡ false)
  pub not_lost :
      (t : ℕ)
      → low ≡ some t
      → t ≢ ctx.current
      → (m.group.clocks t).waiting ≡ true
      → (m.group.notification_needed ≡ true) ⊎ (m.group.lowest_tid ≢ some t)
      → tid ≡ some t

-- What the call makes of `m`, given the lowest active thread.
pub record Determined (ctx : Context) (m : Machine) (low tid : Option ℕ) (m' : Machine)
    : Type 0 where
  pub chosen : Chosen ctx m low tid m'
  pub waits :
      is_tid low ctx.current ≡ false
      → entry m' ctx.current ≡ record (entry m ctx.current) { waiting = true }
  pub runs : is_tid low ctx.current ≡ true → (entry m' ctx.current).waiting ≡ false
  pub idle :
      (t : ℕ)
      → low ≡ some t
      → t ≢ ctx.current
      → (m.group.clocks t).waiting ≡ true
      → m.group.notification_needed ≡ false
      → m.group.lowest_tid ≡ some t
      → (tid ≡ none) × (m'.group.notification_needed ≡ false) × (m'.group.lowest_tid ≡ some t)

module _ (ctx : Context) (m : Machine) (stack : ℕ → ℕ) where
  -- The machine that the search is made in.
  abbrev asked : Machine
  asked = set_waiting ctx true (publish_ticks ctx m)

  asked-Kept : Kept ctx m asked
  asked-Kept =
      Kept-trans
        (status-Kept ctx m
          (record (m.status ctx.current) { ticks = get_clock_ticks m.group ctx.current }))
        (flags-Kept ctx (publish_ticks ctx m) (entry m ctx.current).inactive true
          (entry m ctx.current).sleeping)

  asked_clocks : (j : ℕ) → get_clock_ticks m.group j ≡ get_clock_ticks asked.group j
  asked_clocks j = ground arith

  asked_active : (j : ℕ) → is_active (m.group.clocks j) ≡ is_active (asked.group.clocks j)
  asked_active j = ground arith

  asked_waiting :
      (j : ℕ)
      → (asked.group.clocks j).waiting
        ≡ (if ctx.current == j then true else (m.group.clocks j).waiting)
  asked_waiting j = ground arith

  -- The result of the search is the lowest thread, or none.
  result-cases :
      (low : Option ℕ)
      → is_tid (waiting_result asked.group stack low) ctx.current ≡ is_tid low ctx.current
  result-cases none = refl
  result-cases (some l) = ground (arith, asked_waiting l)

  result_some :
      (low : Option ℕ) (t : ℕ) → waiting_result asked.group stack low ≡ some t → low ≡ some t
  result_some none t e = ground arith
  result_some (some l) t e = ground arith

  result_waiting :
      (low : Option ℕ) (t : ℕ)
      → low ≡ some t
      → (m.group.clocks t).waiting ≡ true
      → waiting_result asked.group stack low ≡ some t
  result_waiting none t e w = ground arith
  result_waiting (some l) t e w = ground (arith, asked_waiting l)

  -- The result `found` of the search, against the lowest active thread.
  record Found (low found : Option ℕ) : Type 0 where
    mine_same : is_tid found ctx.current ≡ is_tid low ctx.current
    is_low : (t : ℕ) → found ≡ some t → low ≡ some t
    if_waiting : (t : ℕ) → low ≡ some t → (m.group.clocks t).waiting ≡ true → found ≡ some t

  settle_mine-Determined :
      (low found : Option ℕ)
      → Found low found
      → is_tid low ctx.current ≡ true
      → Determined ctx m low (settle ctx found asked).0 (settle ctx found asked).1
  settle_mine-Determined low found f mine =
      let s = settle-mine ctx asked found (f.mine_same ∙ mine) in
      record {
        chosen = record {
          kept = Kept-trans asked-Kept (settle-Kept ctx asked found);
          granted = s.granted ∙ sym mine;
          woken = λ t e. absurd (none-ne-some t (sym s.alone ∙ e));
          not_lost =
              λ t e ne w due. absurd (ne (some_injective (sym e ∙ is_tid→eq low ctx.current mine)));
        };
        waits = λ other. ground arith;
        runs = λ _. s.runs;
        idle = λ t e ne. absurd (ne (some_injective (sym e ∙ is_tid→eq low ctx.current mine)));
      }

  to_wake_due :
      (t : ℕ)
      → t ≢ ctx.current
      → (m.group.clocks t).waiting ≡ true
      → (m.group.notification_needed ≡ true) ⊎ (m.group.lowest_tid ≢ some t)
      → to_wake ctx asked (some t) ≡ some t
  to_wake_due t ne w due = ground (arith, asked_waiting t, same_tid→eq (some t) m.group.lowest_tid)

  to_wake_waits :
      (found : Option ℕ) (t : ℕ)
      → is_tid found ctx.current ≡ false
      → to_wake ctx asked found ≡ some t
      → (found ≡ some t) × (t ≢ ctx.current) × ((m.group.clocks t).waiting ≡ true)
  to_wake_waits none t other e = ground arith
  to_wake_waits (some l) t other e = ground (arith, asked_waiting l)

  settle_other-Determined :
      (low found : Option ℕ)
      → Found low found
      → is_tid low ctx.current ≡ false
      → Determined ctx m low (settle ctx found asked).0 (settle ctx found asked).1
  settle_other-Determined low found f other =
      let s = settle-other ctx asked found (f.mine_same ∙ other) in
      record {
        chosen = record {
          kept = Kept-trans asked-Kept (settle-Kept ctx asked found);
          granted = s.refused ∙ sym other;
          woken = λ t e.
              let (is, ne, w) = to_wake_waits found t (f.mine_same ∙ other) (sym s.told ∙ e) in
              let told : (settle ctx found asked).0 ≢ none = λ h. none-ne-some t (sym h ∙ e) in
              (f.is_low t is, ne, w, s.lowest ∙ is, s.spent told, s.spent_nmi told);
          not_lost = λ t e ne w due.
              s.told ∙ ap (to_wake ctx asked) (f.if_waiting t e w) ∙ to_wake_due t ne w due;
        };
        waits = λ _. ap (λ (c : ℕ → Entry). c ctx.current) s.clocks ∙ ground arith;
        runs = λ mine. ground arith;
        idle = λ t e ne w unneeded was.
            let is : found ≡ some t = f.if_waiting t e w in
            let same : same_tid found m.group.lowest_tid ≡ true = rw (is, was) (==-refl t) in
            (
              s.told ∙ ap (to_wake ctx asked) is ∙ rw was (ground arith),
              s.idle same unneeded,
              s.lowest ∙ is,
            );
      }

  settle-Determined :
      (low : Option ℕ)
      → Determined ctx m low
          (settle ctx (waiting_result asked.group stack low) asked).0
          (settle ctx (waiting_result asked.group stack low) asked).1
  settle-Determined low =
      let f : Found low (waiting_result asked.group stack low) = record {
        mine_same = result-cases low;
        is_low = result_some low;
        if_waiting = result_waiting low;
      } in
      elim (Bool-cases (is_tid low ctx.current)) [
        | inl mine ↦ settle_mine-Determined low (waiting_result asked.group stack low) f mine
        | inr other ↦ settle_other-Determined low (waiting_result asked.group stack low) f other
      ]

module _ (ctx : Context) (m : Machine) (stack : ℕ → ℕ) where
  -- With other active threads about, a call outside NMI context ends and faults at nothing, if the
  -- active threads have ids below 128. Whatever the uninitialised array holds, the calling thread
  -- is granted the lowest place exactly if it is the active thread with the lowest clock; a thread
  -- is returned to be woken only if it is another thread, has the lowest clock and waits, and then
  -- the pending notification is marked as sent; and the lowest thread, if it waits, is returned
  -- whenever a notification is due or it was not the lowest before, and not where neither is so. The
  -- calling thread is marked as waiting, and no more of its entry changes, unless it has the lowest
  -- clock; then it does not wait. Other threads' state, all clocks and the list of active threads
  -- are left alone.
  pub determine_lem :
      (xs : List ℕ)
      → ctx.in_nmi ≡ false
      → Represents m.group.active_threads xs
      → ((i : ℕ) → i ∈ xs → i < thread_arr_size)
      → current_is_only_active_thread ctx m ≡ false
      → (low tid : Option ℕ) × (m' : Machine) × (determine_lowest_and_notify_or_wait ctx stack m
          ≡ ok (tid, m'))
        × IsLowestOf m.group (λ j. is_active (m.group.clocks j)) xs low
        × Determined ctx m low tid m'
  unfolding determine_lowest_and_notify_or_wait
  determine_lem xs outside r small others =
      let w = asked ctx m stack in
      let low = lowest w.group xs in
      let found = waiting_result w.group stack low in
      (
        low,
        (settle ctx found w).0,
        (settle ctx found w).1,
        rw others (
            ap (λ (s : Result (Option ℕ)). s >>= λ new_low. ok (settle ctx new_low w))
              (ap (λ b. search_for_lowest_waiting b stack w.group) outside
                ∙ search_for_lowest_waiting_lem w.group xs r stack small)),
        IsLowestOf-congr w.group m.group (λ j. is_active (w.group.clocks j))
            (λ j. is_active (m.group.clocks j)) xs low (asked_active ctx m stack)
            (asked_clocks ctx m stack) (lowest-IsLowestOf w.group xs),
        settle-Determined ctx m stack low,
      )

  -- The only active thread is granted the lowest place at once, and wakes nobody.
  pub determine_alone :
      current_is_only_active_thread ctx m ≡ true
      → (m' : Machine) × (determine_lowest_and_notify_or_wait ctx stack m ≡ ok (none, m'))
        × ((m'.status ctx.current).lowest_clock ≡ true)
        × (m'.group.notification_needed ≡ false)
        × Kept ctx m m'
  unfolding determine_lowest_and_notify_or_wait
  determine_alone alone =
      let m₁ =
        put_status (publish_ticks ctx m) ctx.current
          (record ((publish_ticks ctx m).status ctx.current) { single_active_thread = true }) in
      let t = take-Taken ctx m₁ in
      (
        run_alone ctx (publish_ticks ctx m),
        rw alone refl,
        t.granted,
        t.settled,
        Kept-trans
            (status-Kept ctx m
              (record (m.status ctx.current) { ticks = get_clock_ticks m.group ctx.current }))
            (Kept-trans
              (status-Kept ctx (publish_ticks ctx m)
                (record ((publish_ticks ctx m).status ctx.current) { single_active_thread = true }))
              (take-Kept ctx m₁)),
      )
