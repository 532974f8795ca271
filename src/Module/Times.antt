-- ===== src/Module/Times.antt =====
-- The time between two moments, in either order (src/module/clock_main.c).
use task_clock.Common.{ℕ, ◌+◌, ◌-◌, ◌*◌, ◌≤◌, ◌<◌, ◌≡◌, arith}
use task_clock.Module.{Timespec, elapsed_time_ns}

abbrev pub nanoseconds : Timespec → ℕ
nanoseconds t = t.tv_sec * 1_000_000_000 + t.tv_nsec

-- A time of less than 2^32 seconds, with less than a second of nanoseconds.
pub record IsTime (t : Timespec) : Type 0 where
  pub sec : t.tv_sec < 4_294_967_296
  pub nsec : t.tv_nsec < 1_000_000_000

-- The time between two moments is that from the earlier to the later one, whichever is given first.
pub elapsed_time_ns_lem :
    (t₁ t₂ : Timespec)
    → IsTime t₁
    → IsTime t₂
    → nanoseconds t₁ ≤ nanoseconds t₂
    → (elapsed_time_ns t₁ t₂ ≡ nanoseconds t₂ - nanoseconds t₁)
      × (elapsed_time_ns t₂ t₁ ≡ nanoseconds t₂ - nanoseconds t₁)
unfolding elapsed_time_ns
elapsed_time_ns_lem t₁ t₂ is₁ is₂ le = (
  ground (arith, is₁.sec, is₁.nsec, is₂.sec, is₂.nsec),
  ground (arith, is₁.sec, is₁.nsec, is₂.sec, is₂.nsec),
)
