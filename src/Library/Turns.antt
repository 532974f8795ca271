-- ===== src/Library/Turns.antt =====
-- A thread that waits for its turn: how it asks, spins, sleeps and wakes (src/lib/determ_clock.c).
use task_clock.Common.{
  ℕ, zero, suc, ◌≡◌, inl, inr, refl, sym, ap, ◌∙◌, Bool, true, false, Option, none, some,
  if◌then◌else◌, Bool-cases,
}
use task_clock.Library.{Kernel, Thread, wait, ◌>>=◌, status, put_disabled, request, tell_awake}
use task_clock.Library.Waiting.{ask_to_wait, take_turn, determ_task_clock_is_lowest, spin}

module _ {K : Type 0} (kernel : Kernel K) where
  abbrev pub passed : Thread K → Thread K
  passed t = record t { kernel = kernel.pass t.kernel }

  -- A program that asks for its turn until it has it, at most `n` times more.
  unfoldable pub polls : (n : ℕ) → Thread K → Option (Bool × Thread K)
  polls zero t = determ_task_clock_is_lowest kernel t
  polls (suc n) t = determ_task_clock_is_lowest kernel t >>= λ (told, t₁).
      if told then some (told, t₁) else polls n (passed t₁)

  -- Once disabled, the thread asks the kernel no more.
  disabled_lem :
      (t : Thread K)
      → t.info.disabled ≡ true
      → determ_task_clock_is_lowest kernel t ≡ take_turn kernel t
  unfolding determ_task_clock_is_lowest
  disabled_lem t d = rw d refl

  told_lem :
      (r : Option (Thread K)) (rest : Thread K → Option (Bool × Thread K))
      → ((r >>= λ t₁. some (true, t₁)) >>= λ (told, t₁).
          if told then some (told, t₁) else rest (passed t₁))
        ≡ (r >>= λ t₁. some (true, t₁))
  told_lem none rest = refl
  told_lem (some t) rest = refl

  turn_told :
      (t : Thread K)
      → (status kernel t).lowest_clock ≡ true
      → take_turn kernel t ≡ (tell_awake kernel t >>= λ t₁. some (true, t₁))
  turn_told t h =
      ap (λ b. if b then (tell_awake kernel t >>= λ t₁. some (true, t₁)) else some (false, t)) h

  turn_untold :
      (t : Thread K) → (status kernel t).lowest_clock ≡ false → take_turn kernel t ≡ some (false, t)
  turn_untold t h =
      ap (λ b. if b then (tell_awake kernel t >>= λ t₁. some (true, t₁)) else some (false, t)) h

  pub spin_told :
      (n : ℕ) (t : Thread K) → (status kernel t).lowest_clock ≡ true → spin kernel (suc n) t ≡ t
  unfolding spin
  spin_told n t h = ap (λ b. if b then t else spin kernel n (passed t)) h

  pub spin_untold :
      (n : ℕ) (t : Thread K)
      → (status kernel t).lowest_clock ≡ false
      → spin kernel (suc n) t ≡ spin kernel n (passed t)
  unfolding spin
  spin_untold n t h = ap (λ b. if b then t else spin kernel n (passed t)) h

  abbrev next : ℕ → Bool × Thread K → Option (Bool × Thread K)
  next n (told, t₁) = if told then some (told, t₁) else polls n (passed t₁)

  -- A disabled thread that polls takes its turn where the loop of a wait would have ended.
  turn_or_poll :
      (n : ℕ) (t : Thread K)
      → ((t₁ : Thread K)
          → t₁.info.disabled ≡ true
          → polls n t₁ ≡ take_turn kernel (spin kernel n t₁))
      → t.info.disabled ≡ true
      → (take_turn kernel t >>= next n) ≡ take_turn kernel (spin kernel (suc n) t)
  turn_or_poll n t ih d = elim (Bool-cases ((status kernel t).lowest_clock)) [
    | inl told ↦
        ap (λ r. r >>= next n) (turn_told t told)
        ∙ told_lem (tell_awake kernel t) (polls n)
        ∙ sym (turn_told t told)
        ∙ ap (take_turn kernel) (sym (spin_told n t told))
    | inr untold ↦
        ap (λ r. r >>= next n) (turn_untold t untold)
        ∙ ih (passed t) d
        ∙ ap (take_turn kernel) (sym (spin_untold n t untold))
  ]

  polls-disabled :
      (n : ℕ) (t : Thread K)
      → t.info.disabled ≡ true
      → polls n t ≡ take_turn kernel (spin kernel n t)
  unfolding polls spin
  polls-disabled zero t d = disabled_lem t d
  polls-disabled (suc n) t d =
      ap (λ r. r >>= next n) (disabled_lem t d) ∙ turn_or_poll n t (polls-disabled n) d

  asks_lem :
      (t : Thread K)
      → t.info.disabled ≡ false
      → (status kernel t).lowest_clock ≡ false
      → determ_task_clock_is_lowest kernel t ≡ (ask_to_wait kernel t >>= take_turn kernel)
  unfolding determ_task_clock_is_lowest
  asks_lem t d u = rw (d, u) refl

  asked_or_poll :
      (n : ℕ) (asked : Option (Thread K))
      → ((t₁ : Thread K) → asked ≡ some t₁ → t₁.info.disabled ≡ true)
      → ((asked >>= take_turn kernel) >>= next n)
        ≡ (asked >>= λ t₁. take_turn kernel (spin kernel (suc n) t₁))
  asked_or_poll n none h = refl
  asked_or_poll n (some t) h = turn_or_poll n t (polls-disabled n) (h t refl)

  abbrev disabled_of : Option (Thread K) → Bool
  disabled_of none = true
  disabled_of (some t) = t.info.disabled

  disabled_after :
      (r : Option (Thread K)) (t₁ : Thread K)
      → (r >>= λ t₂. some (put_disabled kernel true t₂)) ≡ some t₁
      → t₁.info.disabled ≡ true
  disabled_after none t₁ e = sym (ap disabled_of e)
  disabled_after (some t₂) t₁ e = sym (ap disabled_of e)

  asked-disabled : (t t₁ : Thread K) → ask_to_wait kernel t ≡ some t₁ → t₁.info.disabled ≡ true
  asked-disabled t t₁ e = disabled_after (request kernel wait 0 t) t₁ e

  -- To ask for the turn again and again, at most `n` times more, is to ask the kernel once, to look
  -- at the flag at most as often, and to take the turn once told, for a thread that is neither
  -- disabled nor told before.
  pub polls_lem :
      (n : ℕ) (t : Thread K)
      → t.info.disabled ≡ false
      → (status kernel t).lowest_clock ≡ false
      → polls n t ≡ (ask_to_wait kernel t >>= λ t₁. take_turn kernel (spin kernel n t₁))
  unfolding polls spin
  polls_lem zero t d u = asks_lem t d u
  polls_lem (suc n) t d u =
      ap (λ r. r >>= next n) (asks_lem t d u)
      ∙ asked_or_poll n (ask_to_wait kernel t) (asked-disabled t)
