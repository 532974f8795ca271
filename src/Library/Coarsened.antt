-- ===== src/Library/Coarsened.antt =====
-- A coarsened section: many sections counted in user space, as one (src/lib/determ_clock.c).
use task_clock.Common.{
  true, if◌then◌else◌, Bool-cases, inl, inr, ℕ, ◌+◌, ◌-◌, ◌/◌, ◌%◌, ◌^◌, ◌≤◌, ◌<◌, ◌≡◌, refl, sym,
  ap, ◌∙◌, arith,
}
use task_clock.Group.{word, add64}
use task_clock.Library.{Kernel, Thread}
use task_clock.Library.Sections.{
  raw_delta, determ_task_clock_start_no_notify, determ_task_clock_stop_with_id_no_notify,
  read_counter, start_coarsened, begin_section, put_last_raw,
}

-- The difference of two readings of a counter of 48 bits is that of the counts, however often the
-- counter has turned over, if they are less than 2^48 apart.
pub raw_delta_lem :
    (before after : ℕ)
    → before ≤ after
    → after < before + 2 ^ 48
    → raw_delta (after % 2 ^ 48) (before % 2 ^ 48) ≡ after - before
raw_delta_lem before after le lt = ground arith

-- The same of the low 32 bits, if those above are the same.
raw_delta_low :
    (before after : ℕ)
    → before ≤ after
    → after / 2 ^ 32 ≡ before / 2 ^ 32
    → raw_delta (after % 2 ^ 48 % 2 ^ 32) (before % 2 ^ 48 % 2 ^ 32) ≡ after - before
raw_delta_low before after le same = ground arith

-- If the low 32 bits have turned over once, the difference is too large by 2^48 - 2^32.
raw_delta_turned :
    (before after : ℕ)
    → after / 2 ^ 32 ≡ before / 2 ^ 32 + 1
    → after < before + 2 ^ 32
    → raw_delta (after % 2 ^ 48 % 2 ^ 32) (before % 2 ^ 48 % 2 ^ 32)
      ≡ after - before + (2 ^ 48 - 2 ^ 32)
raw_delta_turned before after turned lt = ground arith

module _ {K : Type 0} (kernel : Kernel K) (count : K → ℕ) where
  -- `rdpmc` reads the low 48 bits of the count, and does not disturb the system.
  abbrev pub Counts : Type 0
  Counts = (index : ℕ) (k : K) → kernel.rdpmc index k ≡ (count k % 2 ^ 48, k)

  -- What the program gets of such a reading.
  abbrev delivered : ℕ → ℕ
  delivered n = if kernel.x86_64 then n % 2 ^ 48 % 2 ^ 32 else n % 2 ^ 48

  -- In a program for x86-64 the bits above the low 32 stay in a section.
  abbrev pub Delivers : (before after : ℕ) → Type 0
  Delivers before after = kernel.x86_64 ≡ true → after / 2 ^ 32 ≡ before / 2 ^ 32

  delivered-raw_delta :
      (before after : ℕ)
      → before ≤ after
      → after < before + 2 ^ 48
      → Delivers before after
      → raw_delta (delivered after) (delivered before) ≡ after - before
  delivered-raw_delta before after le lt delivers = elim (Bool-cases kernel.x86_64) [
    | inl low ↦ rw low (raw_delta_low before after le (delivers low))
    | inr full ↦ rw full (raw_delta_lem before after le lt)
  ]

  delivered-turned :
      (before after : ℕ)
      → kernel.x86_64 ≡ true
      → after / 2 ^ 32 ≡ before / 2 ^ 32 + 1
      → after < before + 2 ^ 32
      → raw_delta (delivered after) (delivered before) ≡ after - before + (2 ^ 48 - 2 ^ 32)
  delivered-turned before after low turned lt = rw low (raw_delta_turned before after turned lt)

  abbrev pub started : Thread K → Thread K
  started t = determ_task_clock_start_no_notify kernel t

  -- A section that starts and stops, with what the program and the rest of the system do in it.
  abbrev pub section : (work : K → K) (id : ℕ) → Thread K → Thread K
  section work id t =
      determ_task_clock_stop_with_id_no_notify kernel id
        (record (started t) { kernel = work (started t).kernel })

  -- Sections run one after another, from `t` to `t'`, in which `n` instructions are counted, fewer
  -- than 2^48 in each, and for x86-64 with no turn of the low 32 bits.
  pub data Sections (t : Thread K) : ℕ → Thread K → Type 0 where
    no_section : Sections t 0 t
    then_section :
        {n : ℕ} {t₁ : Thread K} (work : K → K) (id : ℕ)
        → Sections t n t₁
        → count (started t₁).kernel ≤ count (work (started t₁).kernel)
        → count (work (started t₁).kernel) < count (started t₁).kernel + 2 ^ 48
        → Delivers (count (started t₁).kernel) (count (work (started t₁).kernel))
        → Sections t
            (n + (count (work (started t₁).kernel) - count (started t₁).kernel))
            (section work id t₁)

  module _ (counts : Counts) where
    read_lem : (t : Thread K) → read_counter kernel t ≡ (delivered (count t.kernel), t)
    read_lem t =
        ap (λ (raw, k). (if kernel.x86_64 then raw % 2 ^ 32 else raw, record t { kernel = k }))
          (counts (kernel.status t.kernel).hwc_idx t.kernel)

    begin_keeps :
        (t : Thread K)
        → (begin_section kernel t).info.coarsened_ticks_counter ≡ t.info.coarsened_ticks_counter
    unfolding start_coarsened
    begin_keeps t = ground arith

    starts :
        (t : Thread K)
        → started t
          ≡ put_last_raw kernel
              (delivered (count (begin_section kernel t).kernel), begin_section kernel t)
    unfolding determ_task_clock_start_no_notify
    starts t = ap (put_last_raw kernel) (read_lem (begin_section kernel t))

    started_counter :
        (t : Thread K) → (started t).info.coarsened_ticks_counter ≡ t.info.coarsened_ticks_counter
    started_counter t =
        ap (λ (x : Thread K). x.info.coarsened_ticks_counter) (starts t) ∙ begin_keeps t

    started_raw :
        (t : Thread K) → (started t).info.last_raw_perf ≡ delivered (count (started t).kernel)
    started_raw t =
        ap (λ (x : Thread K). x.info.last_raw_perf) (starts t)
        ∙ sym (ap (λ (x : Thread K). delivered (count x.kernel)) (starts t))

    stops :
        (id : ℕ) (t : Thread K)
        → (determ_task_clock_stop_with_id_no_notify kernel id t).info.coarsened_ticks_counter
          ≡ add64 t.info.coarsened_ticks_counter
              (raw_delta (delivered (count t.kernel)) t.info.last_raw_perf)
    unfolding determ_task_clock_stop_with_id_no_notify
    stops id t = rw (counts (kernel.status t.kernel).hwc_idx t.kernel) refl

    -- A section adds the difference of what the program gets at its end and at its start.
    section_lem :
        (work : K → K) (id : ℕ) (t : Thread K) (gain : ℕ)
        → raw_delta
            (delivered (count (work (started t).kernel)))
            (delivered (count (started t).kernel))
          ≡ gain
        → (section work id t).info.coarsened_ticks_counter
          ≡ add64 t.info.coarsened_ticks_counter gain
    section_lem work id t gain read =
        let t₁ = started t in
        stops id (record t₁ { kernel = work t₁.kernel })
        ∙ rw (started_counter t, started_raw t, read) refl

    -- In a program for x86-64 a section of fewer than 2^32 instructions in which the low 32 bits of the
    -- count turn over adds 2^48 - 2^32 too much to the counter of the coarsened section.
    pub section-turned :
        (work : K → K) (id : ℕ) (t : Thread K)
        → kernel.x86_64 ≡ true
        → count (work (started t).kernel) / 2 ^ 32 ≡ count (started t).kernel / 2 ^ 32 + 1
        → count (work (started t).kernel) < count (started t).kernel + 2 ^ 32
        → (section work id t).info.coarsened_ticks_counter
          ≡ add64 t.info.coarsened_ticks_counter
              (count (work (started t).kernel) - count (started t).kernel + (2 ^ 48 - 2 ^ 32))
    section-turned work id t low turned lt = section_lem work id t _ (
        delivered-turned (count (started t).kernel) (count (work (started t).kernel)) low turned lt)

    gains : (a n d b : ℕ) → b ≡ add64 a n → add64 b d ≡ add64 a (n + d)
    gains a n d b e = omega (arith, e)

    -- The counter of a coarsened section gains the instructions that all of its sections count, as a
    -- 64-bit number, if the hardware counter has 48 bits and counts fewer than 2^48 instructions in
    -- each section, and, in a program for x86-64, which gets the low 32 bits only, these do not turn
    -- over in a section.
    pub sections_lem :
        {t t' : Thread K} {n : ℕ}
        → t.info.coarsened_ticks_counter < word
        → Sections t n t'
        → t'.info.coarsened_ticks_counter ≡ add64 t.info.coarsened_ticks_counter n
    sections_lem small no_section = ground arith
    sections_lem {t} small (then_section {n} {t₁} work id before le lt delivers) =
        section_lem work id t₁ _ (
          delivered-raw_delta (count (started t₁).kernel) (count (work (started t₁).kernel)) le lt
            delivers)
        ∙ gains t.info.coarsened_ticks_counter n
            (count (work (started t₁).kernel) - count (started t₁).kernel)
            t₁.info.coarsened_ticks_counter (sections_lem small before)
