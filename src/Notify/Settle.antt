-- ===== src/Notify/Settle.antt =====
-- The part of `__determine_lowest_and_notify_or_wait` after the search, for any result of it.
use task_clock.Common.{
  ℕ, ◌≡◌, ◌≢◌, refl, true, false, ◌&&◌, Option, none, some, arith, is_tid, same_tid, if◌then◌else◌,
  ap, ◌∙◌, same_tid→eq, is_tid→eq, inl, inr, Bool-cases,
}
use task_clock.Group.{Entry, UserStatus, Machine, Context, entry}
use task_clock.Notify.{
  thread_is_waiting, set_current_thread_to_lowest, yield_to_lowest, refresh_lowest_ticks,
  move_lowest, settle,
}
use task_clock.Notify.Kept.{
  Kept, Kept-trans, take-Taken, take-Kept, yield-Kept, refresh-Kept, move-Kept,
}

module _ (ctx : Context) (m : Machine) where
  pub settle-Kept : (new_low : Option ℕ) → Kept ctx m (settle ctx new_low m).1
  unfolding settle
  settle-Kept new_low = elim (Bool-cases (is_tid new_low ctx.current)) [
    | inl mine ↦ rw mine (
        Kept-trans (move-Kept ctx m new_low) (
          Kept-trans (take-Kept ctx (move_lowest ctx new_low m))
            (refresh-Kept ctx (set_current_thread_to_lowest ctx (move_lowest ctx new_low m)))))
    | inr other ↦ rw other (
        Kept-trans (move-Kept ctx m new_low) (
          Kept-trans (yield-Kept ctx (move_lowest ctx new_low m))
            (refresh-Kept ctx (yield_to_lowest ctx (move_lowest ctx new_low m)).1)))
  ]

  record SameFlags (m' : Machine) : Type 0 where
    status : m'.status ≡ m.status
    lowest : m'.group.lowest_tid ≡ m.group.lowest_tid
    needed : m'.group.notification_needed ≡ m.group.notification_needed
    nmi : m'.group.nmi_new_low ≡ m.group.nmi_new_low
    clocks : m'.group.clocks ≡ m.group.clocks

  refresh-SameFlags : SameFlags (refresh_lowest_ticks ctx m)
  refresh-SameFlags = ground arith

  -- Another lowest thread is recorded, and asks for a notification.
  record Moved (new_low : Option ℕ) (m' : Machine) : Type 0 where
    lowest : m'.group.lowest_tid ≡ new_low
    needed :
        m'.group.notification_needed
        ≡ (if same_tid new_low m.group.lowest_tid then m.group.notification_needed else true)
    clocks : m'.group.clocks ≡ m.group.clocks

  move-Moved : (new_low : Option ℕ) → Moved new_low (move_lowest ctx new_low m)
  move-Moved new_low = ground (arith, same_tid→eq new_low m.group.lowest_tid)

  record Yielded (r : Option ℕ × Machine) : Type 0 where
    refused : (r.1.status ctx.current).lowest_clock ≡ false
    lowest : r.1.group.lowest_tid ≡ m.group.lowest_tid
    clocks : r.1.group.clocks ≡ m.group.clocks
    told : r.0 ≡ (
        if thread_is_waiting m.group m.group.lowest_tid && m.group.notification_needed
        then m.group.lowest_tid
        else none)
    idle : m.group.notification_needed ≡ false → r.1.group.notification_needed ≡ false
    spent : r.0 ≢ none → r.1.group.notification_needed ≡ false
    spent_nmi : r.0 ≢ none → r.1.group.nmi_new_low ≡ false

  yield-Yielded : Yielded (yield_to_lowest ctx m)
  unfolding yield_to_lowest
  yield-Yielded = ground arith

module _ (ctx : Context) (m : Machine) where
  -- A thread that finds itself the lowest takes the place, and wakes nobody.
  pub record SettleMine (r : Option ℕ × Machine) : Type 0 where
    pub granted : (r.1.status ctx.current).lowest_clock ≡ true
    pub alone : r.0 ≡ none
    pub runs : (entry r.1 ctx.current).waiting ≡ false
    pub lowest : r.1.group.lowest_tid ≡ some ctx.current

  pub settle-mine :
      (new_low : Option ℕ) → is_tid new_low ctx.current ≡ true → SettleMine (settle ctx new_low m)
  unfolding settle
  settle-mine new_low mine =
      let m₁ = move_lowest ctx new_low m in
      let v = move-Moved ctx m new_low in
      let t = take-Taken ctx m₁ in
      let f = refresh-SameFlags ctx (set_current_thread_to_lowest ctx m₁) in
      rw mine (record {
        granted = ap (λ (s : ℕ → UserStatus). (s ctx.current).lowest_clock) f.status ∙ t.granted;
        alone = refl;
        runs = ap (λ (c : ℕ → Entry). (c ctx.current).waiting) f.clocks ∙ t.runs;
        lowest = f.lowest ∙ t.lowest_same ∙ v.lowest ∙ is_tid→eq new_low ctx.current mine;
      })

  -- Any other thread gives the place up. The new lowest thread is to be woken if it waits, and was
  -- not the lowest before or has not been told yet.
  abbrev pub to_wake : Option ℕ → Option ℕ
  to_wake new_low =
      if thread_is_waiting m.group new_low
        && (if same_tid new_low m.group.lowest_tid then m.group.notification_needed else true)
      then new_low
      else none

  move_told :
      (new_low : Option ℕ)
      → (if thread_is_waiting
              (move_lowest ctx new_low m).group
              (move_lowest ctx new_low m).group.lowest_tid
            && (move_lowest ctx new_low m).group.notification_needed
          then (move_lowest ctx new_low m).group.lowest_tid
          else none)
        ≡ to_wake new_low
  move_told none = ground (arith, same_tid→eq none m.group.lowest_tid)
  move_told (some t) = ground (arith, same_tid→eq (some t) m.group.lowest_tid)

  pub record SettleOther (new_low : Option ℕ) (r : Option ℕ × Machine) : Type 0 where
    pub refused : (r.1.status ctx.current).lowest_clock ≡ false
    pub lowest : r.1.group.lowest_tid ≡ new_low
    pub clocks : r.1.group.clocks ≡ m.group.clocks
    pub told : r.0 ≡ to_wake new_low
    pub idle :
        same_tid new_low m.group.lowest_tid ≡ true
        → m.group.notification_needed ≡ false
        → r.1.group.notification_needed ≡ false
    pub spent : r.0 ≢ none → r.1.group.notification_needed ≡ false
    pub spent_nmi : r.0 ≢ none → r.1.group.nmi_new_low ≡ false

  pub settle-other :
      (new_low : Option ℕ)
      → is_tid new_low ctx.current ≡ false
      → SettleOther new_low (settle ctx new_low m)
  unfolding settle
  settle-other new_low other =
      let m₁ = move_lowest ctx new_low m in
      let v = move-Moved ctx m new_low in
      let y = yield-Yielded ctx m₁ in
      let f = refresh-SameFlags ctx (yield_to_lowest ctx m₁).1 in
      rw other (record {
        refused = ap (λ (s : ℕ → UserStatus). (s ctx.current).lowest_clock) f.status ∙ y.refused;
        lowest = f.lowest ∙ y.lowest ∙ v.lowest;
        clocks = f.clocks ∙ y.clocks ∙ v.clocks;
        told = y.told ∙ move_told new_low;
        idle = λ same unneeded. f.needed ∙ y.idle (v.needed ∙ rw same unneeded);
        spent = λ some_told. f.needed ∙ y.spent some_told;
        spent_nmi = λ some_told. f.nmi ∙ y.spent_nmi some_told;
      })
