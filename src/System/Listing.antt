-- ===== src/System/Listing.antt =====
-- The calls that change the list of active threads, and those that initialise an entry
-- (src/module/clock_main.c).
use task_clock.Common.{
  ℕ, ◌≡◌, ◌≢◌, ◌<◌, ◌-◌, ◌^◌, refl, ◌∙◌, Bool, true, false, not, ◌&&◌, Option, List, [], ◌∷◌, ◌++◌,
  arith, ◌==◌, ltb, if◌then◌else◌, inl, inr, Bool-cases, length, ◌∈◌, ◌∉◌, erase, has, leb,
  Ensures-ok, ok, bug, out_of_bounds, Ensures, Ensures-bind, Ensures-trivial, Ensures-if,
  Ensures-map,
}
use task_clock.Listarray.{Listarray, max_size, getentry, insert, remove}
use task_clock.Listarray.Represents.{Represents}
use task_clock.Listarray.Insert.{insert-bug}
use task_clock.Listarray.Remove.{remove_absent}
use task_clock.Group.{
  PerfEvent, Machine, Context, add64, get_clock_ticks, entry, put_status, clear_entry_state,
  reset_chunk_ticks, mark_as_active, mark_as_inactive,
}
use task_clock.Counter.{logical_clock_update_overflow_period, logical_clock_reset_overflow_period}
use task_clock.Notify.{
  put_group, new_lowest, determine_lowest_and_notify_or_wait, wake_up_if, set_waiting,
}
use task_clock.Handlers.{
  take_lowest, clear_notifying, begin_entry, clear_entry, maps_status, map_status,
  task_clock_entry_init, task_clock_entry_halt, task_clock_entry_activate,
  task_clock_entry_activate_other, task_clock_entry_reset,
}
use task_clock.Handlers.Lists.{IsWellFormed, Marked, mark_as_inactive-erase, mark_as_active-append}
use task_clock.Handlers.Threads.{prepared, prepared-IsWellFormed, announced-ActivatedOther}
use task_clock.System.Quiet.{Quiet-refl, Quiet-trans, Own, Own-if, Own-then, put-Own}
use task_clock.System.Counters.{turn_off-Own, reset_overflow_period-Own, update_overflow_period-Own}
use task_clock.System.Notices.{clear-Own, determine-Own, Own-wake, set_waiting-Own}

-- A removal that returns was that of a member, and an insertion that of a non-member; both are of an
-- index of the array.
remove_beyond :
    (la : Listarray) (a : ℕ)
    → ltb a max_size ≡ false
    → remove la a ≡ (if leb la.count 0 then bug else out_of_bounds)
unfolding remove getentry
remove_beyond la a big = ground arith

insert_beyond : (la : Listarray) (a : ℕ) → ltb a max_size ≡ false → insert la a ≡ out_of_bounds
unfolding insert getentry
insert_beyond la a big = ground arith

fault-Ensures {κ} :
    (P : Listarray → Type κ) (b : Bool) → Ensures P (if b then bug else out_of_bounds)
fault-Ensures P true = tt
fault-Ensures P false = tt

remove_member :
    (la : Listarray) (xs : List ℕ) (a : ℕ) → Represents la xs → Ensures (λ _. a ∈ xs) (remove la a)
remove_member la xs a r = elim (Bool-cases (ltb a max_size)) [
  | inr big ↦
      rw (remove_beyond la a big) (fault-Ensures (λ (_ : Listarray). a ∈ xs) (leb la.count 0))
  | inl small ↦ elim (Bool-cases (has a xs)) [
    | inl mem ↦
        Ensures-map (λ (_ : Listarray). Unit {0}) (λ _. a ∈ xs) (remove la a)
          (Ensures-trivial (remove la a)) (λ _ _. mem)
    | inr out ↦
        rw (remove_absent la xs a r (ground arith) out)
          (fault-Ensures (λ (_ : Listarray). a ∈ xs) (length xs == 0))
  ]
]

insert_member :
    (la : Listarray) (xs : List ℕ) (a : ℕ)
    → Represents la xs
    → Ensures (λ _. (a < max_size) × (a ∉ xs)) (insert la a)
insert_member la xs a r = elim (Bool-cases (ltb a max_size)) [
  | inr big ↦ rw (insert_beyond la a big) tt
  | inl small ↦ elim (Bool-cases (has a xs)) [
    | inl mem ↦ rw (insert-bug la xs a r mem) tt
    | inr out ↦
        Ensures-map (λ (_ : Listarray). Unit {0}) (λ _. (a < max_size) × (a ∉ xs)) (insert la a)
          (Ensures-trivial (insert la a)) (λ _ _. (ground arith, out))
  ]
]

-- What marking a thread leaves, whenever it returns.
module _ (m : Machine) (xs : List ℕ) (w : IsWellFormed m xs) (id : ℕ) where
  abbrev pub MadeInactive : Machine → Type 0
  MadeInactive m' = (id ∈ xs) × IsWellFormed m' (erase id xs) × Marked m xs id true m'

  pub mark_as_inactive-Ensures : Ensures MadeInactive (mark_as_inactive id m)
  unfolding mark_as_inactive
  mark_as_inactive-Ensures = elim (Bool-cases (has id xs)) [
    | inl mem ↦
        let (m', runs, w', k) = mark_as_inactive-erase m xs id w mem in
        Ensures-ok MadeInactive (mark_as_inactive id m) m' runs (mem, w', k)
    | inr out ↦
        Ensures-bind (λ _. id ∈ xs) MadeInactive (remove m.group.active_threads id) _
          (remove_member m.group.active_threads xs id w.listed) (λ la mem. absurd (ground arith))
  ]

  abbrev pub MadeActive : Machine → Type 0
  MadeActive m' =
      (id < max_size) × (id ∉ xs) × IsWellFormed m' (xs ++ (id ∷ [])) × Marked m xs id false m'

  pub mark_as_active-Ensures : Ensures MadeActive (mark_as_active id m)
  unfolding mark_as_active
  mark_as_active-Ensures = elim (Bool-cases (ltb id max_size && not (has id xs))) [
    | inl good ↦
        let (m', runs, w', k) = mark_as_active-append m xs id w (ground arith) (ground arith) in
        Ensures-ok MadeActive (mark_as_active id m) m' runs (ground arith, ground arith, w', k)
    | inr bad ↦
        Ensures-bind (λ _. (id < max_size) × (id ∉ xs)) MadeActive
          (insert m.group.active_threads id) _ (insert_member m.group.active_threads xs id w.listed)
          (λ la good. absurd (ground (arith, good.0, good.1)))
  ]

-- A thread's own calls leave the list as it is, and its members active.
pub Own-IsWellFormed :
    (ctx : Context) (m m' : Machine) (xs : List ℕ)
    → IsWellFormed m xs
    → Own ctx m m'
    → IsWellFormed m' xs
Own-IsWellFormed ctx m m' xs w o = record {
  listed = rw o.list w.listed;
  active = λ i mem. ground (arith, w.active i mem, o.others i, o.inactive);
}

module _ (ctx : Context) (m : Machine) (xs : List ℕ) (w : IsWellFormed m xs) where
  -- What a call leaves that lists the thread `id` at the end, or takes it out: the others' entries.
  abbrev pub OnlyEntry : ℕ → List ℕ → Machine → Type 0
  OnlyEntry id xs' m' = IsWellFormed m' xs' × ((i : ℕ) → id ≢ i → entry m' i ≡ entry m i)

  -- The activated thread was not listed, and one that was not initialised starts just behind the
  -- thread that activates it.
  abbrev pub ActivatedBy : ℕ → Machine → Type 0
  ActivatedBy id m' =
      (id ∉ xs)
      × ((entry m id).initialized ≡ false
          → get_clock_ticks m'.group id ≡ add64 (get_clock_ticks m.group ctx.current) 1)

  pub halt-OnlyEntry :
      Ensures (OnlyEntry ctx.current (erase ctx.current xs)) (task_clock_entry_halt ctx m)
  unfolding task_clock_entry_halt
  halt-OnlyEntry =
      Ensures-bind (MadeInactive m xs w ctx.current) (OnlyEntry ctx.current (erase ctx.current xs))
        (mark_as_inactive ctx.current m) _ (mark_as_inactive-Ensures m xs w ctx.current)
        (λ m₁ (mem, w₁, k).
          Ensures-bind (λ r. Own ctx m₁ r.1) (OnlyEntry ctx.current (erase ctx.current xs))
            (determine_lowest_and_notify_or_wait ctx (ctx.stack 0) m₁) _
            (determine-Own ctx (ctx.stack 0) m₁)
            (λ (tid, m₂) o.
              Ensures-map (Own ctx m₁) (OnlyEntry ctx.current (erase ctx.current xs))
                (wake_up_if tid (set_waiting ctx false m₂))
                (Own-wake ctx m₁ (set_waiting ctx false m₂) tid
                  (Quiet-trans o (set_waiting-Own ctx false m₂)))
                (λ m' o'. (
                  Own-IsWellFormed ctx m₁ m' (erase ctx.current xs) w₁ o',
                  λ i ne. o'.others i ne ∙ k.entries i ∙ ground arith,
                ))))

  take_cleared-Own :
      (low : Option ℕ) (m₂ : Machine) → Own ctx m₂ (take_lowest ctx low (clear_notifying ctx m₂))
  take_cleared-Own low m₂ = ground arith

  pub activate-OnlyEntry :
      Ensures
        (λ m'. OnlyEntry ctx.current (xs ++ (ctx.current ∷ [])) m' × (ctx.current ∉ xs))
        (task_clock_entry_activate ctx m)
  unfolding task_clock_entry_activate
  activate-OnlyEntry =
      let After : Machine → Type 0 =
        λ m'. OnlyEntry ctx.current (xs ++ (ctx.current ∷ [])) m' × (ctx.current ∉ xs) in
      let m₀ = reset_chunk_ticks ctx.current (clear_entry_state ctx m) in
      let cleared : Own ctx m m₀ = Quiet-trans (clear-Own ctx m) (
        put-Own ctx (clear_entry_state ctx m)
          (record (entry (clear_entry_state ctx m) ctx.current) { chunk_ticks = 0 }) refl
          (λ h. h)) in
      let w₀ = Own-IsWellFormed ctx m m₀ xs w cleared in
      Ensures-bind (MadeActive m₀ xs w₀ ctx.current) After (mark_as_active ctx.current m₀) _
        (mark_as_active-Ensures m₀ xs w₀ ctx.current)
        (λ m₁ (lt, out, w₁, k).
          Ensures-bind (Own ctx m₁) After
            (logical_clock_update_overflow_period ctx ctx.current
              (logical_clock_reset_overflow_period ctx ctx.current m₁))
            _
            (Own-then ctx m₁ (logical_clock_reset_overflow_period ctx ctx.current m₁) _
              (reset_overflow_period-Own ctx ctx.current m₁)
              (update_overflow_period-Own ctx
                (logical_clock_reset_overflow_period ctx ctx.current m₁)))
            (λ m₂ o.
              Ensures-bind (λ _. Unit {0}) After
                (new_lowest ctx.in_nmi (clear_notifying ctx m₂).group ctx.current) _
                (Ensures-trivial _)
                (λ low _.
                  let o' = Quiet-trans o (take_cleared-Own low m₂) in
                  (
                    (
                      Own-IsWellFormed ctx m₁ (take_lowest ctx low (clear_notifying ctx m₂))
                          (xs ++ (ctx.current ∷ [])) w₁ o',
                      λ i ne. o'.others i ne ∙ k.entries i ∙ ground arith,
                    ),
                    out,
                  ))))

  pub activate_other-OnlyEntry :
      (id : ℕ)
      → Ensures
          (λ m'. OnlyEntry id (xs ++ (id ∷ [])) m' × ActivatedBy id m')
          (task_clock_entry_activate_other ctx id m)
  unfolding task_clock_entry_activate_other
  activate_other-OnlyEntry id =
      let w₀ = prepared-IsWellFormed ctx m xs id w in
      Ensures-bind (MadeActive (prepared ctx m xs id) xs w₀ id) _
        (mark_as_active id (prepared ctx m xs id)) _
        (mark_as_active-Ensures (prepared ctx m xs id) xs w₀ id)
        (λ m₁ (lt, out, w₁, k).
          let a = announced-ActivatedOther ctx m xs id m₁ w₁ k in
          ((a.well_formed, a.others), (out, a.clock)))

  begin_entry-OnlyEntry : (event : PerfEvent) → OnlyEntry ctx.current xs (begin_entry ctx event m)
  unfolding begin_entry
  begin_entry-OnlyEntry event = (
    record { listed = ground (arith, w.listed); active = λ i mem. ground (arith, w.active i mem) },
    λ i ne. ground arith,
  )

  clear_entry-Own : (m₁ : Machine) → Own ctx m₁ (clear_entry ctx m₁)
  unfolding clear_entry
  clear_entry-Own m₁ =
      Quiet-trans (put-Own ctx m₁ (record (entry m₁ ctx.current) { chunk_ticks = 0 }) refl (λ h. h))
        (Quiet-trans (clear-Own ctx (reset_chunk_ticks ctx.current m₁))
          (turn_off-Own ctx (clear_entry_state ctx (reset_chunk_ticks ctx.current m₁))))

  map_status-Own : (m₁ : Machine) → Own ctx m₁ (map_status ctx m₁)
  unfolding map_status
  map_status-Own m₁ =
      Own-if ctx m₁ (maps_status ctx m₁)
        (put_group (record (m₁.group) { user_status_arr = true }) m₁) m₁
        (record { others = λ i ne. refl; list = refl; initialized = refl; inactive = λ h. h })
        (Quiet-refl ctx.current m₁.group)

  pub entry_init-OnlyEntry :
      (event : PerfEvent) (pte_found : Bool)
      → Ensures (OnlyEntry ctx.current xs) (task_clock_entry_init ctx event pte_found m)
  unfolding task_clock_entry_init
  entry_init-OnlyEntry event pte_found =
      let m₁ = begin_entry ctx event m in
      let m₂ = map_status ctx (clear_entry ctx m₁) in
      let o : Own ctx m₁ m₂ =
        Quiet-trans (clear_entry-Own m₁) (map_status-Own (clear_entry ctx m₁)) in
      let (w₁, same) = begin_entry-OnlyEntry event in
      let m₃ =
        put_status m₂ ctx.current (record (m₂.status ctx.current) { hwc_idx = 2 ^ 32 - 1 }) in
      Ensures-if (OnlyEntry ctx.current xs) (maps_status ctx (clear_entry ctx m₁) && not pte_found)
        bug (ok m₃) tt (Own-IsWellFormed ctx m₁ m₃ xs w₁ o, λ i ne. o.others i ne ∙ same i ne)

  pub reset-OnlyEntry : OnlyEntry ctx.current xs (task_clock_entry_reset ctx m)
  unfolding task_clock_entry_reset
  reset-OnlyEntry = (
    record { listed = w.listed; active = λ i mem. ground (arith, w.active i mem) },
    λ i ne. ground arith,
  )
