-- ===== src/System/Flags.antt =====
-- The flags of the threads over a sleep and a halt (src/module/clock_main.c).
use task_clock.Common.{
  ℕ, zero, suc, ◌+◌, ◌≡◌, ◌<◌, inr, refl, sym, ap, ◌∙◌, Bool, true, false, Option, List, arith, ◌∈◌,
  erase, has-erase, if◌then◌else◌, Ensures, Ensures-bind, Ensures-map,
}
use task_clock.Group.{UserStatus, Machine, Context, entry, put_entry, mark_as_inactive}
use task_clock.Search.{thread_arr_size}
use task_clock.Search.Lowest.{lowest}
use task_clock.Notify.{determine_lowest_and_notify_or_wait, wake_up_if, set_waiting}
use task_clock.Notify.Kept.{Kept, Kept-trans, flags-Kept}
use task_clock.Handlers.{sleep_round, sleep_loop, task_clock_entry_sleep, task_clock_entry_halt}
use task_clock.Handlers.Lists.{IsWellFormed}
use task_clock.System.Quiet.{Quiet-trans, Own, put-Own}
use task_clock.System.Notices.{set_waiting-Own}
use task_clock.System.Calls.{after_round-Ensures}
use task_clock.System.Listing.{Own-IsWellFormed, MadeInactive, mark_as_inactive-Ensures}
use task_clock.System.Truthful.{Steady, Truthful, Tells, determine-Tells, turn-kept}
use task_clock.System.Telling.{wake-Truthful}
use task_clock.System.Honest.{Fit, Fit-Own, determined-Tells, Between-refl, after-Truthful}

module _ (ctx : Context) (xs : List ℕ) where
  -- One determination after another, with the machine left alone but for the flags of the thread.
  Tells-then :
      (m m₁ m₂ : Machine) (tid : Option ℕ)
      → IsWellFormed m xs
      → Tells ctx xs m tid m₁
      → Kept ctx m₁ m₂
      → Own ctx m₁ m₂
      → Steady m₁ m₂
      → m₂.group.lowest_tid ≡ m₁.group.lowest_tid
      → Tells ctx xs m tid m₂
  Tells-then m m₁ m₂ tid w tells k o s same =
      let w₁ = Own-IsWellFormed ctx m m₁ xs w tells.own in
      record {
        kept = Kept-trans tells.kept k;
        own = Quiet-trans tells.own o;
        granted = λ h.
            turn-kept ctx xs m₁ m₂ w₁ k o ctx.current (tells.granted (sym (s ctx.current) ∙ h));
        told = λ t e.
            let (lowest, turn) = tells.told t e in
            (same ∙ lowest, turn-kept ctx xs m₁ m₂ w₁ k o t turn);
      }

  Tells-again :
      (m m₁ m' : Machine) (tid tid' : Option ℕ)
      → Tells ctx xs m tid m₁
      → Tells ctx xs m₁ tid' m'
      → Tells ctx xs m tid' m'
  Tells-again m m₁ m' tid tid' a b = record {
    kept = Kept-trans a.kept b.kept;
    own = Quiet-trans a.own b.own;
    granted = b.granted;
    told = b.told;
  }

  asleep-Kept :
      (m : Machine)
      → Kept ctx m (put_entry m ctx.current (record (entry m ctx.current) { sleeping = true }))
  asleep-Kept m = flags-Kept ctx m (entry m ctx.current).inactive (entry m ctx.current).waiting true

  -- A thread that goes to sleep, or does not.
  asleep-Tells :
      (b : Bool) (m m₁ : Machine) (tid : Option ℕ)
      → IsWellFormed m xs
      → Tells ctx xs m tid m₁
      → Tells ctx xs m tid (
          if b
          then put_entry m₁ ctx.current (record (entry m₁ ctx.current) { sleeping = true })
          else m₁)
  asleep-Tells true m m₁ tid w tells =
      Tells-then m m₁ (put_entry m₁ ctx.current (record (entry m₁ ctx.current) { sleeping = true }))
        tid w tells (asleep-Kept m₁)
        (put-Own ctx m₁ (record (entry m₁ ctx.current) { sleeping = true }) refl (λ h. h))
        (λ t. refl) refl
  asleep-Tells false m m₁ tid w tells = tells

  sleep_round-Tells :
      (round : ℕ) (m : Machine)
      → Fit ctx xs m
      → Ensures (λ r. Tells ctx xs m r.0 r.1) (sleep_round ctx round m)
  unfolding sleep_round
  sleep_round-Tells round m f =
      Ensures-bind (λ r. Tells ctx xs m r.0 r.1) (λ r. Tells ctx xs m r.0 r.1)
        (determine_lowest_and_notify_or_wait ctx (ctx.stack round) m) _
        (determined-Tells ctx xs (ctx.stack round) m f)
        (λ (tid, m₁) tells.
          asleep-Tells ((entry m₁ ctx.current).waiting) m m₁ tid f.well_formed tells)

  sleep_loop-Tells :
      (fuel round : ℕ) (m : Machine)
      → Fit ctx xs m
      → Ensures (λ r. Tells ctx xs m r.0 r.1) (sleep_loop ctx fuel round m)
  unfolding sleep_loop
  sleep_loop-Tells zero round m f = tt
  sleep_loop-Tells (suc fuel) round m f =
      Ensures-bind (λ r. Tells ctx xs m r.0 r.1) (λ r. Tells ctx xs m r.0 r.1)
        (sleep_round ctx round m) _ (sleep_round-Tells round m f)
        (λ (tid, m₁) tells.
          after_round-Ensures ctx (λ r. Tells ctx xs m r.0 r.1) m₁ tid
            (sleep_loop ctx fuel (round + 1)) tells
            (Ensures-map (λ r. Tells ctx xs m₁ r.0 r.1) (λ r. Tells ctx xs m r.0 r.1)
              (sleep_loop ctx fuel (round + 1) m₁)
              (sleep_loop-Tells fuel (round + 1) m₁ (Fit-Own ctx xs m m₁ f tells.own))
              (λ (tid', m') tells'. Tells-again m m₁ m' tid tid' tells tells')))

  pub sleep-Truthful :
      (fuel : ℕ) (m : Machine)
      → Fit ctx xs m
      → Ensures (Truthful m xs) (task_clock_entry_sleep ctx fuel m)
  unfolding task_clock_entry_sleep
  sleep-Truthful fuel m f =
      Ensures-bind (λ r. Tells ctx xs m r.0 r.1) (Truthful m xs) (sleep_loop ctx fuel 0 m) _
        (sleep_loop-Tells fuel 0 m f)
        (λ (tid, m₁) tells.
          wake-Truthful ctx xs m f.well_formed tid m₁ m₁ tells
            (Between-refl ctx xs m m₁ f.well_formed))

  -- A halted thread leaves the list, and is not the lowest of those left.
  pub halt-Truthful :
      (m : Machine)
      → IsWellFormed m xs
      → ctx.in_nmi ≡ false
      → ((i : ℕ) → i ∈ xs → i < thread_arr_size)
      → Ensures (Truthful m (erase ctx.current xs)) (task_clock_entry_halt ctx m)
  unfolding task_clock_entry_halt
  halt-Truthful m w outside small =
      let left = erase ctx.current xs in
      Ensures-bind (MadeInactive m xs w ctx.current) (Truthful m left)
        (mark_as_inactive ctx.current m) _ (mark_as_inactive-Ensures m xs w ctx.current)
        (λ m₁ (mem, w₁, k).
          Ensures-bind (λ r. Tells ctx left m₁ r.0 r.1) (Truthful m left)
            (determine_lowest_and_notify_or_wait ctx (ctx.stack 0) m₁) _
            (determine-Tells ctx left m₁ (ctx.stack 0) w₁ outside
              (λ i mem. ground (arith, small i, has-erase ctx.current i xs w.listed.distinct))
              (inr (ground (arith, k.entries ctx.current))))
            (λ (tid, m₂) tells.
              after-Truthful ctx left m m₁ (wake_up_if tid (set_waiting ctx false m₂))
                (λ t. ap (λ (st : ℕ → UserStatus). (st t).lowest_clock) k.status)
                (wake-Truthful ctx left m₁ w₁ tid m₂ (set_waiting ctx false m₂) tells (record {
                  kept =
                      flags-Kept ctx m₂ (entry m₂ ctx.current).inactive false
                        (entry m₂ ctx.current).sleeping;
                  own = set_waiting-Own ctx false m₂;
                  steady = λ t. refl;
                  lowest = refl;
                }))))
