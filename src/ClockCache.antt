-- ===== src/ClockCache.antt =====
-- The debug clock cache: clock values recorded in one run of a program, and given out again in the
-- next (src/lib/debug_clock_cache.c). The file that holds them is a function of the index. Double
-- precision numbers are natural numbers of a fixed unit, rounded to 53 bits.
pub mod Replay
use task_clock.Common.{
  ℕ, zero, suc, List, [], ◌∷◌, ◌+◌, ◌-◌, ◌*◌, ◌/◌, ◌^◌, Bool, true, false, ◌&&◌, ltb, if◌then◌else◌,
  update, rounded,
}
use task_clock.Group.{add64}

-- DEBUG_CLOCK_CACHE_ARR_SIZE
abbrev pub arr_size : ℕ
arr_size = 2 ^ 20

-- .20D, in units of 2^-55
abbrev pub error_adjustment_percentage : ℕ
error_adjustment_percentage = 7205759403792794

-- `struct debug_clock_cache`
pub record ClockCache : Type 0 where
  pub count : ℕ
  pub clock_arr : ℕ → ℕ
  pub thread_id : ℕ

-- A value, the end of the program, or an access beyond the file.
pub data Outcome {ℓ} (A : Type ℓ) : Type ℓ where
  done : A → Outcome A
  exited beyond : Outcome A

infixl 5 ◌>>=◌
abbrev pub ◌>>=◌ {ℓ ℓ'} : {X : Type ℓ} {Y : Type ℓ'} → Outcome X → (X → Outcome Y) → Outcome Y
beyond >>= rest = beyond
exited >>= rest = exited
done x >>= rest = rest x

-- `clocks->count-0;` is no assignment, and the `memset` is one of no bytes.
abbrev pub debug_clock_cache_init : (thread_id : ℕ) → (file : ℕ → ℕ) → ClockCache → ClockCache
debug_clock_cache_init thread_id file clocks = record clocks {
  clock_arr = file;
  thread_id = thread_id;
}

-- (uint64_t)((double)tmp_diff * DEBUG_CLOCK_CACHE_ERROR_ADJUSTMENT_PERCENTAGE)
unfoldable pub adjustment : (tmp_diff : ℕ) → ℕ
adjustment tmp_diff =
    rounded (2 ^ 52) (rounded (2 ^ 52) tmp_diff * error_adjustment_percentage) / 2 ^ 55

-- The last value before `count`, which is there if `count` is not 0.
abbrev pub last_value : ClockCache → ℕ
last_value clocks = clocks.clock_arr (clocks.count - 1)

abbrev pub diff_of : ClockCache → (clock_value : ℕ) → ℕ
diff_of clocks clock_value =
    adjustment (if ltb 0 clocks.count then clock_value - last_value clocks else clock_value)

-- The cache, and `*diff`.
unfoldable pub debug_clock_cache_insert : ClockCache → (clock_value : ℕ) → Outcome (ClockCache × ℕ)
debug_clock_cache_insert clocks clock_value =
    let diff = diff_of clocks clock_value in
    if ltb 0 clocks.count && ltb clock_value (last_value clocks)
    then exited
    else if ltb clocks.count arr_size
    then done (
      record clocks {
        clock_arr = update clocks.clock_arr clocks.count (add64 clock_value diff);
        count = clocks.count + 1;
      },
      diff,
    )
    else beyond

-- The value returned, the cache, and `*diff`.
unfoldable pub debug_clock_cache_get : ClockCache → (clock_value : ℕ) → Outcome (ℕ × ClockCache × ℕ)
debug_clock_cache_get clocks clock_value =
    let return_val = clocks.clock_arr clocks.count in
    if ltb clocks.count arr_size
    then (if ltb return_val clock_value
        then done (0, clocks, 0)
        else done
            (return_val, record clocks { count = clocks.count + 1 }, return_val - clock_value))
    else beyond

-- The lines from index `i` on: the thread, the index and the value.
abbrev pub lines_from : ClockCache → (i count : ℕ) → List (ℕ × ℕ × ℕ)
lines_from clocks i zero = []
lines_from clocks i (suc count) =
    (clocks.thread_id, i, clocks.clock_arr i) ∷ lines_from clocks (i + 1) count

abbrev pub debug_clock_cache_print : ClockCache → List (ℕ × ℕ × ℕ)
debug_clock_cache_print clocks = lines_from clocks 0 clocks.count
