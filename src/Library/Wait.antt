-- ===== src/Library/Wait.antt =====
-- A thread that waits for its turn with `determ_task_clock_is_lowest_wait` (src/lib/determ_clock.c).
use task_clock.Common.{
  ℕ, zero, suc, ◌≤◌, ◌<◌, ◌≡◌, ◌⊎◌, inl, inr, refl, ap, ◌∙◌, Bool, true, false, none, some,
  if◌then◌else◌, arith, Bool-cases,
}
use task_clock.Group.{UserStatus}
use task_clock.Library.{
  Kernel, Request, Thread, wait, sleep, woke_up, ◌>>=◌, status, put_disabled, request, max_spin_int,
  tell_awake,
}
use task_clock.Library.Waiting.{spin, sleep_if_untold, wake_up, determ_task_clock_is_lowest_wait}
use task_clock.Library.Turns.{passed, spin_told, spin_untold}

-- Every `ioctl` returns 0.
abbrev pub Serves : {K : Type 0} → Kernel K → Type 0
Serves {K} kernel = (r : Request) (arg : ℕ) (k : K) → (kernel.ioctl r arg k).0 ≡ true

module _ {K : Type 0} (kernel : Kernel K) where
  -- The kernel's state after `n` rounds of the loop.
  abbrev pub after_rounds : ℕ → K → K
  after_rounds zero k = k
  after_rounds (suc n) k = after_rounds n (kernel.pass k)

  abbrev pub at_kernel : Thread K → K → Thread K
  at_kernel t k = record t { kernel = k }

  -- Where the loop ends: at the first round in which the flag is set, or after the last.
  abbrev SpinEnd : (fuel : ℕ) → Thread K → Type 0
  SpinEnd fuel t =
      ((n : ℕ) × (n ≤ fuel)
        × (spin kernel fuel t ≡ at_kernel t (after_rounds n t.kernel))
        × ((kernel.status (after_rounds n t.kernel)).lowest_clock ≡ true)
        × ((j : ℕ) → j < n → (kernel.status (after_rounds j t.kernel)).lowest_clock ≡ false))
      ⊎ ((spin kernel fuel t ≡ at_kernel t (after_rounds fuel t.kernel))
          × ((j : ℕ) → j < fuel → (kernel.status (after_rounds j t.kernel)).lowest_clock ≡ false))

  untold_until :
      (m : ℕ) (k : K)
      → (kernel.status k).lowest_clock ≡ false
      → ((j : ℕ) → j < m → (kernel.status (after_rounds j (kernel.pass k))).lowest_clock ≡ false)
      → (j : ℕ) → j < suc m
      → (kernel.status (after_rounds j k)).lowest_clock ≡ false
  untold_until m k h before zero lt = h
  untold_until m k h before (suc j) lt = before j (omega (arith, lt))

  spin-SpinEnd : (fuel : ℕ) (t : Thread K) → SpinEnd fuel t
  unfolding spin
  spin-SpinEnd zero t = inr (refl, λ j lt. ground arith)
  spin-SpinEnd (suc n) t = elim (Bool-cases ((status kernel t).lowest_clock)) [
    | inl told ↦ inl (0, omega arith, spin_told kernel n t told, told, λ j lt. ground arith)
    | inr untold ↦ elim (spin-SpinEnd n (passed kernel t)) [
      | inl (m, le, ends, h, before) ↦ inl (
        suc m,
        omega (arith, le),
        spin_untold kernel n t untold ∙ ends,
        h,
        untold_until m t.kernel untold before,
      )
      | inr (ends, before) ↦
          inr (spin_untold kernel n t untold ∙ ends, untold_until n t.kernel untold before)
    ]
  ]

  -- The kernel's state once a request has been served.
  abbrev pub serve : Request → K → K
  serve r k = (kernel.ioctl r 0 k).1

  abbrev pub is_told : K → Bool
  is_told k = (kernel.status k).lowest_clock

  -- The thread sleeps in the kernel, and polls unless it has been told by then.
  abbrev pub asleep : K → K
  asleep k = if is_told (serve sleep k) then serve sleep k else kernel.poll (serve sleep k)

  -- The thread has told the kernel twice that it is awake, and has reset its flag.
  abbrev pub woken : K → K
  woken k =
      let k₁ = serve woke_up (serve woke_up k) in
      kernel.put_status (record (kernel.status k₁) { lowest_clock = false }) k₁

  module _ (served : Serves kernel) where
    request_served :
        (r : Request) (t : Thread K) → request kernel r 0 t ≡ some (at_kernel t (serve r t.kernel))
    request_served r t =
        ap (λ b. if b then some (at_kernel t (serve r t.kernel)) else none) (served r 0 t.kernel)

    ends_woken :
        (b : Bool) (t : Thread K)
        → wake_up kernel b t ≡ some (b, put_disabled kernel false (at_kernel t (woken t.kernel)))
    unfolding tell_awake
    ends_woken b t = rw (served woke_up 0 t.kernel, served woke_up 0 (serve woke_up t.kernel)) refl

    sleeps_told : (t : Thread K) → is_told t.kernel ≡ true → sleep_if_untold kernel t ≡ some t
    sleeps_told t h = rw h refl

    sleeps_untold :
        (t : Thread K)
        → is_told t.kernel ≡ false
        → sleep_if_untold kernel t ≡ some (at_kernel t (asleep t.kernel))
    sleeps_untold t h = elim (Bool-cases (is_told (serve sleep t.kernel))) [
      | inl told ↦ rw (h, served sleep 0 t.kernel, told) refl
      | inr untold ↦ rw (h, served sleep 0 t.kernel, untold) refl
    ]

    -- How the loop and what follows it end: told in a round, or asleep after all of them.
    abbrev pub TurnCame : K → K → Type 0
    TurnCame k₁ k' =
        ((n : ℕ) × (n ≤ max_spin_int)
          × (k' ≡ woken (after_rounds n k₁))
          × (is_told (after_rounds n k₁) ≡ true)
          × ((j : ℕ) → j < n → is_told (after_rounds j k₁) ≡ false))
        ⊎ ((k' ≡ woken (asleep (after_rounds max_spin_int k₁)))
            × (is_told (after_rounds max_spin_int k₁) ≡ false)
            × ((j : ℕ) → j < max_spin_int → is_told (after_rounds j k₁) ≡ false))

    path_told :
        (b : Bool) (t : Thread K) (k : K)
        → spin kernel max_spin_int t ≡ at_kernel t k
        → is_told k ≡ true
        → (sleep_if_untold kernel (spin kernel max_spin_int t) >>= wake_up kernel b)
          ≡ some (b, put_disabled kernel false (at_kernel t (woken k)))
    path_told b t k ends h =
        ap (λ t₁. sleep_if_untold kernel t₁ >>= wake_up kernel b) ends
        ∙ ap (λ r. r >>= wake_up kernel b) (sleeps_told (at_kernel t k) h)
        ∙ ends_woken b (at_kernel t k)

    path_asleep :
        (b : Bool) (t : Thread K) (k : K)
        → spin kernel max_spin_int t ≡ at_kernel t k
        → is_told k ≡ false
        → (sleep_if_untold kernel (spin kernel max_spin_int t) >>= wake_up kernel b)
          ≡ some (b, put_disabled kernel false (at_kernel t (woken (asleep k))))
    path_asleep b t k ends h =
        ap (λ t₁. sleep_if_untold kernel t₁ >>= wake_up kernel b) ends
        ∙ ap (λ r. r >>= wake_up kernel b) (sleeps_untold (at_kernel t k) h)
        ∙ ends_woken b (at_kernel t (asleep k))

    after_spin :
        (b : Bool) (t : Thread K)
        → (k' : K) × ((sleep_if_untold kernel (spin kernel max_spin_int t) >>= wake_up kernel b)
            ≡ some (b, put_disabled kernel false (at_kernel t k')))
          × TurnCame t.kernel k'
    after_spin b t = elim (spin-SpinEnd max_spin_int t) [
      | inl (n, le, ends, h, before) ↦
          (woken (after_rounds n t.kernel), path_told b t _ ends h, inl (n, le, refl, h, before))
      | inr (ends, before) ↦ elim (Bool-cases (is_told (after_rounds max_spin_int t.kernel))) [
        | inl h ↦ (
          woken (after_rounds max_spin_int t.kernel),
          path_told b t _ ends h,
          inl (max_spin_int, omega arith, refl, h, before),
        )
        | inr h ↦ (
          woken (asleep (after_rounds max_spin_int t.kernel)),
          path_asleep b t _ ends h,
          inr (refl, h, before),
        )
      ]
    ]

    came_reset :
        ((u : UserStatus) (k : K) → kernel.status (kernel.put_status u k) ≡ u)
        → (k₁ k' : K) → TurnCame k₁ k'
        → is_told k' ≡ false
    came_reset written k₁ k' (inl (n, le, e, h, before)) =
        ap is_told e ∙ ap (λ (u : UserStatus). u.lowest_clock) (written _ _)
    came_reset written k₁ k' (inr (e, h, before)) =
        ap is_told e ∙ ap (λ (u : UserStatus). u.lowest_clock) (written _ _)

    -- A wait returns whether the thread was disabled before, and leaves it not disabled with its flag
    -- reset, if every request is served and what is written to the status record is read back. It has
    -- asked to wait once; if the flag was set in one of the first 1001 looks at it, the thread has
    -- seen it in the first of these, and has neither slept nor polled; otherwise it has asked to
    -- sleep, and polled unless it was told by then. At the end it has told the kernel twice that it
    -- is awake.
    pub is_lowest_wait_lem :
        ((u : UserStatus) (k : K) → kernel.status (kernel.put_status u k) ≡ u)
        → (t : Thread K)
        → (k' : K) × (determ_task_clock_is_lowest_wait kernel t
            ≡ some (t.info.disabled, put_disabled kernel false (at_kernel t k')))
          × TurnCame (serve wait t.kernel) k'
          × (is_told k' ≡ false)
    unfolding determ_task_clock_is_lowest_wait
    is_lowest_wait_lem written t =
        let t₁ = put_disabled kernel true (at_kernel t (serve wait t.kernel)) in
        let (k', runs, came) = after_spin t.info.disabled t₁ in
        (
          k',
          ap
                (λ r. r >>= λ t₂.
                  sleep_if_untold kernel (spin kernel max_spin_int t₂)
                  >>= wake_up kernel t.info.disabled)
                (ap (λ r. r >>= λ t₂. some (put_disabled kernel true t₂)) (request_served wait t))
              ∙ runs,
          came,
          came_reset written t₁.kernel k' came,
        )
