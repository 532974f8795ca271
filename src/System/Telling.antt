-- ===== src/System/Telling.antt =====
-- The flags of the threads over a wake-up (src/module/clock_main.c, `__wake_up_waiting_thread`).
use task_clock.Common.{
  ℕ, ◌≡◌, ◌⊎◌, inl, inr, refl, sym, ap, ◌∙◌, true, Option, none, some, List, arith, ◌==◌, eq_of_==,
  if◌then◌else◌, Bool-cases, ok, out_of_bounds, Ensures, Ensures-if, Ensures-map,
}
use task_clock.Group.{UserStatus, Machine, Context, put_status, emit, wake_up_all}
use task_clock.Notify.{is_sleeping, wake_up_if, wake_up_waiting_thread}
use task_clock.Notify.Kept.{Kept}
use task_clock.Handlers.Lists.{IsWellFormed}
use task_clock.System.Quiet.{Own}
use task_clock.System.Listing.{Own-IsWellFormed}
use task_clock.System.Turn.{HasTurn}
use task_clock.System.Truthful.{flag, Steady, Truthful, Tells, turn-kept}

-- A wake-up sets no flag but that of the recorded lowest thread, and leaves the group.
pub record Woken (tid : Option ℕ) (m m' : Machine) : Type 0 where
  pub same : m'.group ≡ m.group
  pub flags :
      (t : ℕ)
      → flag m' t ≡ true
      → (flag m t ≡ true) ⊎ ((s : ℕ) × (tid ≡ some s) × (m.group.lowest_tid ≡ some t))

pub wake_up_if-Woken : (tid : Option ℕ) (m : Machine) → Ensures (Woken tid m) (wake_up_if tid m)
unfolding wake_up_waiting_thread
wake_up_if-Woken none m = record { same = refl; flags = λ t h. inl h }
wake_up_if-Woken (some s) m =
    Ensures-if (Woken (some s) m) (is_sleeping m.group m.group.lowest_tid)
      (ok (emit m (wake_up_all s))) _ (record { same = refl; flags = λ t h. inl h })
      (by_flag m.group.lowest_tid refl)
  where
    flagged : (l : ℕ) → Machine
    flagged l = put_status m l (record (m.status l) { lowest_clock = true })

    flagged-Woken : (l : ℕ) → m.group.lowest_tid ≡ some l → Woken (some s) m (flagged l)
    flagged-Woken l is = record {
      same = refl;
      flags = λ t h. elim (Bool-cases (l == t)) [
        | inl here ↦ inr (s, refl, is ∙ ap some (eq_of_== l t here))
        | inr other ↦ inl (ground (arith, h))
      ];
    }

    by_flag :
        (low : Option ℕ)
        → m.group.lowest_tid ≡ low
        → Ensures (Woken (some s) m) (elim low [
          | none ↦ out_of_bounds
          | some l ↦
              if m.group.user_status_arr
              then ok (put_status m l (record (m.status l) { lowest_clock = true }))
              else out_of_bounds
        ])
    by_flag none is = tt
    by_flag (some l) is =
        Ensures-if (Woken (some s) m) m.group.user_status_arr (ok (flagged l)) out_of_bounds
          (flagged-Woken l is) tt

module _ (ctx : Context) (xs : List ℕ) (m : Machine) (w : IsWellFormed m xs) where
  -- What comes between determining the lowest thread and telling it.
  pub record Between (m₁ m₂ : Machine) : Type 0 where
    pub kept : Kept ctx m₁ m₂
    pub own : Own ctx m₁ m₂
    pub steady : Steady m₁ m₂
    pub lowest : m₂.group.lowest_tid ≡ m₁.group.lowest_tid

  pub wake-Truthful :
      (tid : Option ℕ) (m₁ m₂ : Machine)
      → Tells ctx xs m tid m₁
      → Between m₁ m₂
      → Ensures (Truthful m xs) (wake_up_if tid m₂)
  wake-Truthful tid m₁ m₂ tells b =
      Ensures-map (Woken tid m₂) (Truthful m xs) (wake_up_if tid m₂) (wake_up_if-Woken tid m₂)
        (λ m' woken t h. elim (woken.flags t h) [
          | inl before ↦ set_before m' woken.same t (sym (b.steady t) ∙ before)
          | inr (s, is, recorded) ↦
              let (lowest, turn) = tells.told s is in
              inr
                (later m' woken.same t s (ap some_or_zero (sym recorded ∙ b.lowest ∙ lowest)) turn)
        ])
    where
      w₁ : IsWellFormed m₁ xs
      w₁ = Own-IsWellFormed ctx m m₁ xs w tells.own

      some_or_zero : Option ℕ → ℕ
      some_or_zero none = 0
      some_or_zero (some t) = t

      later :
          (m' : Machine)
          → m'.group ≡ m₂.group
          → (t : ℕ) → (s : ℕ) → t ≡ s
          → HasTurn s m₁ xs
          → HasTurn t m' xs
      later m' same t s e turn = rw same (rw e (turn-kept ctx xs m₁ m₂ w₁ b.kept b.own s turn))

      set_before :
          (m' : Machine)
          → m'.group ≡ m₂.group
          → (t : ℕ) → flag m₁ t ≡ true
          → (flag m t ≡ true) ⊎ HasTurn t m' xs
      set_before m' same t h = elim (Bool-cases (ctx.current == t)) [
        | inl own ↦
            let e = sym (eq_of_== ctx.current t own) in
            inr (later m' same t ctx.current e (tells.granted (sym (ap (flag m₁) e) ∙ h)))
        | inr other ↦ inl (
            sym (ap (λ (u : UserStatus). u.lowest_clock) (tells.kept.status_other t (ground arith)))
            ∙ h)
      ]
