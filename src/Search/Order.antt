-- ===== src/Search/Order.antt =====
-- `__clock_is_lower` is a strict total order on threads: by clock, and by id where clocks agree.
use task_clock.Common.{ℕ, ◌≡◌, ◌≢◌, true, false, arith}
use task_clock.Group.{Group, clock_is_lower}

module _ (g : Group) where
  pub clock_is_lower_irrefl : (a : ℕ) → clock_is_lower g a a ≡ false
  clock_is_lower_irrefl a = ground arith

  pub clock_is_lower_asymm : (a b : ℕ) → clock_is_lower g a b ≡ true → clock_is_lower g b a ≡ false
  clock_is_lower_asymm a b h = ground arith

  pub clock_is_lower_trans :
      (a b c : ℕ)
      → clock_is_lower g a b ≡ true
      → clock_is_lower g b c ≡ true
      → clock_is_lower g a c ≡ true
  clock_is_lower_trans a b c h k = ground arith

  pub clock_is_lower_total :
      (a b : ℕ) → a ≢ b → clock_is_lower g a b ≡ false → clock_is_lower g b a ≡ true
  clock_is_lower_total a b ne h = ground arith
