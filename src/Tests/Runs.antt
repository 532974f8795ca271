-- ===== src/Tests/Runs.antt =====
-- The machine of a call that returns, for the examples.
use task_clock.Common.{
  ◌≡◌, refl, Bool, true, false, arith, Result, ok, bug, out_of_bounds, out_of_fuel,
}
use task_clock.Group.{Machine}
use task_clock.Tests.State.{contended}

-- The machine of a run that returns.
abbrev pub settled : Result Machine → Machine
settled (ok m) = m
settled bug = contended
settled out_of_bounds = contended
settled out_of_fuel = contended

abbrev pub is_ok : Result Machine → Bool
is_ok (ok m) = true
is_ok bug = false
is_ok out_of_bounds = false
is_ok out_of_fuel = false

pub settled_lem : (r : Result Machine) → is_ok r ≡ true → r ≡ ok (settled r)
settled_lem (ok m) h = refl
settled_lem bug h = ground arith
settled_lem out_of_bounds h = ground arith
settled_lem out_of_fuel h = ground arith
