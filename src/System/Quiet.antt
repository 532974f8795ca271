-- ===== src/System/Quiet.antt =====
-- What a call of one thread leaves alone of the group: the entries of the others and the list of
-- active threads (src/module/clock_main.c). First the parts that calls are made of.
use task_clock.Common.{
  ℕ, ◌≡◌, ◌≢◌, refl, ◌∙◌, Bool, true, false, ◌&&◌, arith, if◌then◌else◌, ltb, inl, inr, Bool-cases,
  Result, Ensures, Ensures-map,
}
use task_clock.Group.{
  Group, Entry, Machine, Context, add64, inc_clock_ticks_no_chunk_add, entry, put_entry,
}
use task_clock.Fence.{
  imprecise_bounded_chunk_size, begin_bounded_memory_fence, end_bounded_memory_fence_early,
  inc_chunk_ticks, inc_clock_ticks, on_single_step,
}

-- From `g` to `g'` only the entry of thread `id` changes, it is still initialised or not as it was,
-- and an active thread stays active.
pub record Quiet (id : ℕ) (g g' : Group) : Type 0 where
  pub others : (i : ℕ) → id ≢ i → g'.clocks i ≡ g.clocks i
  pub list : g'.active_threads ≡ g.active_threads
  pub initialized : (g'.clocks id).initialized ≡ (g.clocks id).initialized
  pub inactive : (g.clocks id).inactive ≡ false → (g'.clocks id).inactive ≡ false

pub Quiet-refl : (id : ℕ) (g : Group) → Quiet id g g
Quiet-refl id g = record {
  others = λ i ne. refl;
  list = refl;
  initialized = refl;
  inactive = λ h. h;
}

pub Quiet-trans : {id : ℕ} {g g' g'' : Group} → Quiet id g g' → Quiet id g' g'' → Quiet id g g''
Quiet-trans a b = record {
  others = λ i ne. b.others i ne ∙ a.others i ne;
  list = b.list ∙ a.list;
  initialized = b.initialized ∙ a.initialized;
  inactive = λ h. b.inactive (a.inactive h);
}

module _ (ctx : Context) (m : Machine) where
  -- The machine is one that thread `current` has changed nothing but its own entry of.
  abbrev pub Own : Machine → Type 0
  Own m' = Quiet ctx.current m.group m'.group

pub Own-if :
    (ctx : Context) (m : Machine) (b : Bool) (x y : Machine)
    → Own ctx m x
    → Own ctx m y
    → Own ctx m (if b then x else y)
Own-if ctx m true x y o p = o
Own-if ctx m false x y o p = p

module _ (ctx : Context) where
  -- One part after another.
  pub Own-then :
      (m m₁ : Machine) (r : Result Machine)
      → Own ctx m m₁
      → Ensures (Own ctx m₁) r
      → Ensures (Own ctx m) r
  Own-then m m₁ r o e = Ensures-map (Own ctx m₁) (Own ctx m) r e (λ m' o'. Quiet-trans o o')

  begin-Own : (m : Machine) → Own ctx m (begin_bounded_memory_fence ctx m)
  unfolding begin_bounded_memory_fence
  begin-Own m = ground arith

  pub end-Own : (m : Machine) → Own ctx m (end_bounded_memory_fence_early ctx m)
  unfolding end_bounded_memory_fence_early
  end-Own m = ground arith

  pub on_single_step-Own : (regs : Bool) (m : Machine) → Own ctx m (on_single_step ctx regs m).2
  unfolding on_single_step
  on_single_step-Own regs m = ground arith

  -- Writing the entry of the current thread, short of making it inactive.
  pub put-Own :
      (m : Machine) (e : Entry)
      → e.initialized ≡ (entry m ctx.current).initialized
      → ((entry m ctx.current).inactive ≡ false → e.inactive ≡ false)
      → Own ctx m (put_entry m ctx.current e)
  put-Own m e same active = ground arith

  inc_chunk_ticks-Own : (val : ℕ) (m : Machine) → Own ctx m (inc_chunk_ticks ctx ctx.current val m)
  unfolding inc_chunk_ticks
  inc_chunk_ticks-Own val m =
      let m₁ = put_entry m ctx.current (record (entry m ctx.current) {
        chunk_ticks = add64 (entry m ctx.current).chunk_ticks val;
      }) in
      let first : Own ctx m m₁ =
        put-Own m
          (record (entry m ctx.current) {
            chunk_ticks = add64 (entry m ctx.current).chunk_ticks val;
          })
          refl (λ h. h) in
      elim (Bool-cases (
        ctx.build.bounded_fence
        && ltb imprecise_bounded_chunk_size (entry m₁ ctx.current).chunk_ticks)) [
          | inl near ↦ rw near (Quiet-trans first (begin-Own m₁))
          | inr far ↦ rw far first
        ]

  pub inc_clock_ticks-Own :
      (val : ℕ) (m : Machine) → Own ctx m (inc_clock_ticks ctx ctx.current val m)
  unfolding inc_clock_ticks
  inc_clock_ticks-Own val m =
      Quiet-trans
        (put-Own m (record (entry m ctx.current) { ticks = add64 (entry m ctx.current).ticks val })
          refl (λ h. h))
        (inc_chunk_ticks-Own val (inc_clock_ticks_no_chunk_add m ctx.current val))
