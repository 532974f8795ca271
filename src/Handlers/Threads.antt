-- ===== src/Handlers/Threads.antt =====
-- Threads coming and going: `task_clock_entry_halt` and `task_clock_entry_activate_other`.
use task_clock.Common.{
  ℕ, ◌<◌, ◌≡◌, ◌≢◌, ◌⊎◌, refl, ap, ◌∙◌, true, false, Option, none, some, List, [], ◌∷◌, ◌++◌, arith,
  ltb, ◌||◌, ◌&&◌, inl, inr, Bool-cases, ◌==◌, is_tid, if◌then◌else◌, length, Distinct, ◌∈◌, ◌∉◌,
  erase, has-erase, ok, bug, out_of_bounds,
}
use task_clock.Listarray.{max_size}
use task_clock.Group.{
  UserStatus, Group, Machine, Context, entry, put_status, add64, get_clock_ticks, wake_up_all,
  clear_entry_state_by_id, reset_chunk_ticks,
}
use task_clock.Search.{thread_arr_size, is_active}
use task_clock.Search.Fold.{IsLowestOf}
use task_clock.Notify.{set_waiting}
use task_clock.Notify.Determine.{Chosen, Determined, determine_lem}
use task_clock.Notify.Kept.{Kept-trans, flags-Kept}
use task_clock.Handlers.Wait.{Waited, wake-Waited}
use task_clock.Handlers.Lists.{
  IsWellFormed, Marked, mark_as_inactive-erase, mark_as_active-append, mark_as_inactive_absent,
}
use task_clock.Handlers.{
  start_clock, is_new_low, task_clock_entry_halt, task_clock_entry_activate_other,
}

-- What the halt of the calling thread makes of `m`, given the lowest of the threads left.
pub record Halted (ctx : Context) (m : Machine) (xs : List ℕ) (low : Option ℕ) (m' : Machine)
    : Type 0 where
  pub well_formed : IsWellFormed m' (erase ctx.current xs)
  pub gone : ((entry m' ctx.current).inactive ≡ true) × ((entry m' ctx.current).waiting ≡ false)
  pub told :
      (t : ℕ)
      → low ≡ some t
      → (m.group.clocks t).waiting ≡ true
      → (m.group.notification_needed ≡ true) ⊎ (m.group.lowest_tid ≢ some t)
      → ((m.group.clocks t).sleeping ≡ true → m'.effects ≡ wake_up_all t ∷ m.effects)
        × ((m.group.clocks t).sleeping ≡ false → (m'.status t).lowest_clock ≡ true)

module _ (ctx : Context) (m : Machine) (xs : List ℕ) where
  -- Halting a thread that is not in the list writes outside the list's array if the list has
  -- members, and is a `BUG_ON` if it has none; this is from a well-formed state, for a thread id
  -- below 4096.
  pub halt-absent :
      IsWellFormed m xs
      → ctx.current < max_size
      → ctx.current ∉ xs
      → task_clock_entry_halt ctx m ≡ (if length xs == 0 then bug else out_of_bounds)
  unfolding task_clock_entry_halt
  halt-absent w lt out = rw (mark_as_inactive_absent m xs ctx.current w lt out) (ground arith)

-- Thread `id` comes before thread `l` in the order of the clocks: its clock is lower, or the same
-- with a lower id.
abbrev pub ComesBefore : Machine → (id l : ℕ) → Type 0
ComesBefore m id l =
    (get_clock_ticks m.group id < get_clock_ticks m.group l)
    ⊎ ((get_clock_ticks m.group id ≡ get_clock_ticks m.group l) × (id < l))

-- What the activation of thread `id` makes of `m`. The clocks of the others are those of `m`.
pub record ActivatedOther (ctx : Context) (m : Machine) (xs : List ℕ) (id : ℕ) (m' : Machine)
    : Type 0 where
  pub well_formed : IsWellFormed m' (xs ++ (id ∷ []))
  pub clock :
      (entry m id).initialized ≡ false
      → get_clock_ticks m'.group id ≡ add64 (get_clock_ticks m.group ctx.current) 1
  pub kept_clock :
      (entry m id).initialized ≡ true → get_clock_ticks m'.group id ≡ get_clock_ticks m.group id
  pub others : (i : ℕ) → id ≢ i → entry m' i ≡ entry m i
  pub fresh :
      ((entry m' id).initialized ≡ true)
      × ((entry m' id).inactive ≡ false)
      × ((entry m' id).waiting ≡ false)
      × ((entry m' id).sleeping ≡ false)
  pub recorded : m'.group.lowest_tid ≡ m.group.lowest_tid
  pub first : m.group.lowest_tid ≡ none → (m'.status ctx.current).activated_lowest ≡ true
  pub ahead :
      (l : ℕ)
      → m.group.lowest_tid ≡ some l
      → ComesBefore m' id l
      → (m'.status ctx.current).activated_lowest ≡ true
  pub behind :
      (l : ℕ)
      → m.group.lowest_tid ≡ some l
      → ¬ ComesBefore m' id l
      → (m'.status ctx.current).activated_lowest ≡ (m.status ctx.current).activated_lowest

is_lower-ahead :
    (a b i j : ℕ) → ((a < b) ⊎ ((a ≡ b) × (i < j))) → (ltb a b || ((a == b) && ltb i j)) ≡ true
is_lower-ahead a b i j (inl lt) = ground arith
is_lower-ahead a b i j (inr (same, lt)) = ground arith

is_lower-behind :
    (a b i j : ℕ) → ¬ ((a < b) ⊎ ((a ≡ b) × (i < j))) → (ltb a b || ((a == b) && ltb i j)) ≡ false
is_lower-behind a b i j after = elim (Bool-cases (ltb a b || ((a == b) && ltb i j))) [
  | inl lower ↦ absurd (after (ahead_of a b i j lower))
  | inr higher ↦ higher
]
  where
    ahead_of :
        (a b i j : ℕ) → (ltb a b || ((a == b) && ltb i j)) ≡ true → (a < b) ⊎ ((a ≡ b) × (i < j))
    ahead_of a b i j lower = elim (Bool-cases (ltb a b)) [
      | inl lt ↦ inl (ground arith)
      | inr ge ↦ inr (ground arith, ground arith)
    ]

module _ (ctx : Context) (m : Machine) (xs : List ℕ) (id : ℕ) where
  abbrev pub prepared : Machine
  prepared = clear_entry_state_by_id ctx id (start_clock ctx id m)

  abbrev pub announced : Machine → Machine
  announced m₁ =
      let m₂ = reset_chunk_ticks id m₁ in
      if is_new_low ctx id m₂.group
      then put_status m₂ ctx.current (record (m₂.status ctx.current) { activated_lowest = true })
      else m₂

  announced_entries :
      (m₁ : Machine) (i : ℕ)
      → entry (announced m₁) i
        ≡ (if id == i then record (entry m₁ id) { chunk_ticks = 0 } else entry m₁ i)
  announced_entries m₁ i = ground arith

  announced_new :
      (m₁ : Machine)
      → is_new_low ctx id (announced m₁).group ≡ true
      → ((announced m₁).status ctx.current).activated_lowest ≡ true
  announced_new m₁ new = ground arith

  announced_old :
      (m₁ : Machine)
      → is_new_low ctx id (announced m₁).group ≡ false
      → ((announced m₁).status ctx.current).activated_lowest
        ≡ (m₁.status ctx.current).activated_lowest
  announced_old m₁ old = ground arith

  -- The test of the code is that for a thread that comes before the recorded lowest one.
  is_new_low-first : (m₁ : Machine) → m₁.group.lowest_tid ≡ none → is_new_low ctx id m₁.group ≡ true
  is_new_low-first m₁ e = rw e refl

  is_new_low-ahead :
      (m₁ : Machine) (l : ℕ)
      → m₁.group.lowest_tid ≡ some l
      → ComesBefore m₁ id l
      → is_new_low ctx id m₁.group ≡ true
  is_new_low-ahead m₁ l e before =
      rw e (is_lower-ahead (get_clock_ticks m₁.group id) (get_clock_ticks m₁.group l) id l before)

  is_new_low-behind :
      (m₁ : Machine) (l : ℕ)
      → m₁.group.lowest_tid ≡ some l
      → ¬ ComesBefore m₁ id l
      → is_new_low ctx id m₁.group ≡ false
  is_new_low-behind m₁ l e after =
      rw e (is_lower-behind (get_clock_ticks m₁.group id) (get_clock_ticks m₁.group l) id l after)

  pub prepared-IsWellFormed : IsWellFormed m xs → IsWellFormed prepared xs
  prepared-IsWellFormed w = record {
    listed = w.listed;
    active = λ i here. ground (arith, w.active i here);
  }

  pub announced-ActivatedOther :
      (m₁ : Machine)
      → IsWellFormed m₁ (xs ++ (id ∷ []))
      → Marked prepared xs id false m₁
      → ActivatedOther ctx m xs id (announced m₁)
  announced-ActivatedOther m₁ w k =
      let same = announced_entries m₁ in
      let still : (announced m₁).group.lowest_tid ≡ m.group.lowest_tid = ground (arith, k.lowest) in
      record {
        well_formed = record {
          listed = ground (arith, w.listed);
          active = λ i here. ground (arith, w.active i here, same i);
        };
        clock = λ new. ground (arith, same id, k.entries id);
        kept_clock = λ old. ground (arith, same id, k.entries id);
        others = λ i ne. ground (arith, same i, k.entries i);
        fresh = ground (arith, same id, k.entries id);
        recorded = still;
        first = λ e. announced_new m₁ (is_new_low-first (announced m₁) (still ∙ e));
        ahead =
            λ l e before. announced_new m₁ (is_new_low-ahead (announced m₁) l (still ∙ e) before);
        behind = λ l e after.
            announced_old m₁ (is_new_low-behind (announced m₁) l (still ∙ e) after)
            ∙ ap (λ (st : ℕ → UserStatus). (st ctx.current).activated_lowest) k.status
            ∙ ground arith;
      }

  -- Activating a thread that is not listed, from a well-formed state and with an id below 4096,
  -- faults at nothing and puts it at the end of the list, which stays well formed. A thread not
  -- initialised before gets a clock one past that of the calling thread, another keeps its clock;
  -- the thread ends up initialised, active, awake and not waiting, no other entry changes, and the
  -- calling thread is flagged if no lowest thread was recorded before the call, or the new thread's
  -- clock is below that of the one that was, or the same with a lower id; if it was not so, the flag
  -- is as before. The record of the lowest thread stays.
  pub activate_other-append :
      IsWellFormed m xs
      → id < max_size
      → id ∉ xs
      → (m' : Machine) × (task_clock_entry_activate_other ctx id m ≡ ok m')
        × ActivatedOther ctx m xs id m'
  unfolding task_clock_entry_activate_other
  activate_other-append w lt out =
      let (m₁, runs, w₁, k) =
        mark_as_active-append prepared xs id (prepared-IsWellFormed w) lt out in
      (announced m₁, rw runs refl, announced-ActivatedOther m₁ w₁ k)

module _ (ctx : Context) (m : Machine) (xs : List ℕ) where
  -- The halted thread is not among those left.
  lowest_other :
      (g : Group) (low : Option ℕ)
      → Distinct xs
      → IsLowestOf g (λ j. is_active (g.clocks j)) (erase ctx.current xs) low
      → is_tid low ctx.current ≡ false
  lowest_other g none d is = refl
  lowest_other g (some t) d is = ground (arith, is.0, has-erase ctx.current t xs d)

  stop_waiting :
      (m₁ m₂ : Machine) (low tid : Option ℕ)
      → Chosen ctx m₁ low tid m₂
      → Chosen ctx m₁ low tid (set_waiting ctx false m₂)
  stop_waiting m₁ m₂ low tid d = record {
    kept =
        Kept-trans d.kept
          (flags-Kept ctx m₂ (entry m₂ ctx.current).inactive false (entry m₂ ctx.current).sleeping);
    granted = d.granted;
    woken = d.woken;
    not_lost = d.not_lost;
  }

  entries_left :
      (m₁ m₂ m₃ : Machine) (low tid : Option ℕ) (i : ℕ)
      → is_tid low ctx.current ≡ false
      → Determined ctx m₁ low tid m₂
      → (m₃.group ≡ (set_waiting ctx false m₂).group)
      → entry m₃ i ≡ (
          if ctx.current == i
          then record (entry m₁ ctx.current) { waiting = false }
          else entry m₁ i)
  entries_left m₁ m₂ m₃ low tid i other d same =
      ap (λ (g : Group). g.clocks i) same
      ∙ ground (arith, d.waits other, d.chosen.kept.entry_other i)

  -- What the mark makes of the lowest thread of those left.
  lowest_left :
      (m₁ : Machine) (low : Option ℕ)
      → Distinct xs
      → Marked m xs ctx.current true m₁
      → IsLowestOf m₁.group (λ j. is_active (m₁.group.clocks j)) (erase ctx.current xs) low
      → IsLowestOf m.group (λ j. is_active (m.group.clocks j)) (erase ctx.current xs) low
  lowest_left m₁ none d k is =
      λ j mem. ground (arith, is j mem, k.entries j, has-erase ctx.current j xs d)
  lowest_left m₁ (some t) d k is = (
    is.0,
    ground (arith, is.0, is.1, k.entries t, has-erase ctx.current t xs d),
    λ j mem act ne. ground (
      arith,
      is.0,
      is.2 j mem,
      k.entries j,
      k.entries t,
      has-erase ctx.current j xs d,
      has-erase ctx.current t xs d,
    ),
  )

  halted :
      (m₁ m₂ m₃ : Machine) (low tid : Option ℕ)
      → IsWellFormed m xs
      → IsWellFormed m₁ (erase ctx.current xs)
      → Marked m xs ctx.current true m₁
      → is_tid low ctx.current ≡ false
      → Determined ctx m₁ low tid m₂
      → Waited ctx m₁ low m₃
      → (m₃.group ≡ (set_waiting ctx false m₂).group)
      → Halted ctx m xs low m₃
  halted m₁ m₂ m₃ low tid w w₁ k other d waited same = record {
    well_formed = record {
      listed = rw waited.list w₁.listed;
      active =
          λ i mem. ground (arith, w₁.active i mem, entries_left m₁ m₂ m₃ low tid i other d same);
    };
    gone =
        ground
          (arith, entries_left m₁ m₂ m₃ low tid ctx.current other d same, k.entries ctx.current);
    told = λ t e wt due.
        let ne : t ≢ ctx.current = ground arith in
        let here : entry m₁ t ≡ entry m t = ground (arith, k.entries t) in
        let (asleep, awake) =
          waited.told t e ne (ground arith) (ground (arith, k.needed, k.lowest)) in
        (
          λ h. asleep (ground arith) ∙ ap (λ es. wake_up_all t ∷ es) k.effects,
          λ h. awake (ground arith),
        );
  }

  -- Halting a listed thread from a well-formed state ends and faults at nothing, if the call is
  -- outside NMI context, the status records are mapped and the listed threads have ids below 128.
  -- The thread is taken out of the list, and is inactive and not waiting; the state stays well
  -- formed; and the lowest of the threads left, if it waits, and a notification is due or it was
  -- not the lowest before, is told: woken if it sleeps, or by its flag.
  pub halt-erase :
      IsWellFormed m xs
      → ctx.in_nmi ≡ false
      → ctx.current ∈ xs
      → ((i : ℕ) → i ∈ xs → i < thread_arr_size)
      → m.group.user_status_arr ≡ true
      → (low : Option ℕ) × (m' : Machine) × (task_clock_entry_halt ctx m ≡ ok m')
        × IsLowestOf m.group (λ j. is_active (m.group.clocks j)) (erase ctx.current xs) low
        × Halted ctx m xs low m'
  unfolding task_clock_entry_halt
  halt-erase w outside here small mapped =
      let (m₁, marks, w₁, k) = mark_as_inactive-erase m xs ctx.current w here in
      let (low, tid, m₂, runs, is, d) =
        determine_lem ctx m₁ (ctx.stack 0) (erase ctx.current xs) outside w₁.listed
          (λ i mem. ground (arith, small i, has-erase ctx.current i xs w.listed.distinct))
          (ground (arith, k.entries ctx.current)) in
      let (m', wakes, waited, same) =
        wake-Waited ctx m₁ low tid (set_waiting ctx false m₂) (k.mapped ∙ mapped)
          (stop_waiting m₁ m₂ low tid d.chosen) in
      let other = lowest_other m₁.group low w.listed.distinct is in
      (
        low,
        m',
        rw (marks, runs) wakes,
        lowest_left m₁ low w.listed.distinct k is,
        halted m₁ m₂ m' low tid w w₁ k other d waited same,
      )
