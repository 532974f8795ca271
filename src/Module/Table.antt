-- ===== src/Module/Table.antt =====
-- What loading and unloading leave of the table (src/module/clock_main.c).
use task_clock.Common.{◌≡◌, refl, Bool, true, false, ok}
use task_clock.Module.{
  Slot, entry_sleep, overflow_update_period, entry_reset, entry_start_no_notify,
  entry_stop_no_notify, entry_is_singlestep, Table, loaded_table, init_module, cleanup_module,
}

-- The module loads in both builds.
pub init_module_lem :
    (fence : Bool) (table : Table) → init_module fence table ≡ ok (loaded_table fence)
unfolding init_module
init_module_lem true table = refl
init_module_lem false table = refl

-- Five pointers into the module are still set when it has been unloaded.
abbrev pub is_dangling : Slot → Bool
is_dangling entry_sleep = true
is_dangling overflow_update_period = true
is_dangling entry_reset = true
is_dangling entry_start_no_notify = true
is_dangling entry_stop_no_notify = true
is_dangling _ = false

pub cleanup_module_lem :
    (fence : Bool) (slot : Slot) → cleanup_module (loaded_table fence) slot ≡ is_dangling slot
unfolding cleanup_module
cleanup_module_lem fence entry_is_singlestep = refl
cleanup_module_lem fence _ = refl
