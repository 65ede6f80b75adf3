-- ===== src/Graph/Run/Ends.antt =====
-- The loop of `run_nodes` ends on a historical run for a number of cycles.
use wingfoil.Base.{
  ℕ, zero, suc, ◌+◌, ◌-◌, ◌%◌, ◌<◌, ◌≤◌, ◌≡◌, refl, sym, subst, Bool, true, false, not, ◌&&◌, ◌||◌,
  arith, leb, if◌then◌else◌, u32_mod, u64_mod, Bool-cases, inl, inr,
}
use wingfoil.Graph.Effects.{Action, Result, ok, err, panic, diverged, and_then, pure, ◌>>=◌, ◌>>◌}
use wingfoil.Graph.Ends.{NotDiverged, Ends}
use wingfoil.Graph.State.{RunMode, RunFor}
use wingfoil.Graph.Env.{Env, World, modify}
use wingfoil.Graph.Cycle.{cycle}
use wingfoil.Graph.Cycle.Ends.{cycle-Ends}
use wingfoil.Graph.Callbacks.{process_callbacks_historical}
use wingfoil.Graph.Callbacks.Ends.{process_callbacks_historical-Ends}
use wingfoil.Graph.Run.{RunBounds, Round, round, run_loop, run_nodes}

-- A historical round is never repeated without a cycle.
abbrev Moves : Result Round → Type 0
Moves (ok Round.continue) = ⊥
Moves diverged = ⊥
Moves r = Unit

Moves-then :
    {W A : Type 0} (out : Result A × W) (f : A → Action W Round)
    → NotDiverged out.0
    → ((a : A) (w : W) → Moves (f a w).0)
    → Moves (and_then out.0 f out.1).0
Moves-then (ok a, w) f h rest = rest a w
Moves-then (err e, w) f h rest = tt
Moves-then (panic, w) f h rest = tt
Moves-then (diverged, w) f h rest = h

module _ (env : Env) (nodes_end : (a : ℕ) → Ends (env.cycle a)) (off : env.dynamic_graph ≡ false)
    (bounds : RunBounds) where
  open env use {Store}

  round-break :
      (cycles : ℕ) (w : World Store)
      → leb bounds.end_cycle cycles ≡ true
      → round env false bounds cycles w ≡ (ok Round.break, w)
  unfolding round
  round-break cycles w e = rw e refl

  -- What a round does once the bounds are checked.
  abbrev working : Action (World Store) Round
  working = process_callbacks_historical >>= λ progressed.
      if progressed then (cycle env >> pure Round.next_cycle) else pure Round.break

  working-Moves : (w : World Store) → Moves (working w).0
  working-Moves w =
      Moves-then (process_callbacks_historical w)
        (λ progressed.
          if progressed then (cycle env >> pure Round.next_cycle) else pure Round.break)
        (process_callbacks_historical-Ends w) (λ progressed. by_progress progressed)
    where
      by_progress :
          (b : Bool) (w : World Store)
          → Moves ((if b then (cycle env >> pure Round.next_cycle) else pure Round.break) w).0
      by_progress true w =
          Moves-then (cycle env w) (λ _. pure Round.next_cycle) (cycle-Ends env nodes_end off w)
            (λ _ w'. tt)
      by_progress false w = tt

  by_tests :
      (stop_now last_now : Bool) (w : World Store)
      → Moves
          ((if stop_now
              then pure Round.break
              else (if last_now then modify (λ s. record s { is_last_cycle = true }) else pure tt)
                >> working)
            w).0
  by_tests true last_now w = tt
  by_tests false true w =
      working-Moves (record w { state = record (w.state) { is_last_cycle = true } })
  by_tests false false w = working-Moves w

  round-Moves : (cycles : ℕ) (w : World Store) → Moves (round env false bounds cycles w).0
  unfolding round
  round-Moves cycles w =
      let cycles_done = leb bounds.end_cycle cycles in
      let time_done = leb bounds.end_time w.state.time in
      by_tests (cycles_done || (w.state.is_last_cycle && time_done))
        (not w.state.is_last_cycle && (leb bounds.end_cycle ((cycles + 1) % u32_mod) || time_done))
        w

  abbrev next_of : ℕ → ℕ → Round → Action (World Store) (Unit {0})
  next_of rounds cycles r = elim r [
    | Round.break ↦ pure tt
    | Round.continue ↦ run_loop env rounds false bounds cycles
    | Round.next_cycle ↦ run_loop env rounds false bounds ((cycles + 1) % u32_mod)
  ]

  loop_then :
      (rounds cycles : ℕ) (out : Result Round × World Store)
      → Moves out.0
      → Ends (run_loop env rounds false bounds ((cycles + 1) % u32_mod))
      → NotDiverged (and_then out.0 (next_of rounds cycles) out.1).0
  loop_then rounds cycles (ok Round.break, w) h rest = tt
  loop_then rounds cycles (ok Round.continue, w) h rest = absurd h
  loop_then rounds cycles (ok Round.next_cycle, w) h rest = rest w
  loop_then rounds cycles (err e, w) h rest = tt
  loop_then rounds cycles (panic, w) h rest = tt
  loop_then rounds cycles (diverged, w) h rest = h

  run_loop-Ends :
      (rounds cycles : ℕ)
      → cycles ≤ bounds.end_cycle
      → bounds.end_cycle < cycles + rounds
      → bounds.end_cycle < u32_mod
      → Ends (run_loop env rounds false bounds cycles)
  unfolding run_loop
  run_loop-Ends zero cycles le lt small w = absurd (omega (arith, le, lt))
  run_loop-Ends (suc rounds) cycles le lt small w =
      elim (Bool-cases (leb bounds.end_cycle cycles)) [
        | inl e ↦
            subst
              (λ (out : Result Round × World Store).
                NotDiverged (and_then out.0 (next_of rounds cycles) out.1).0)
              (sym (round-break cycles w e)) tt
        | inr e ↦
            let next : (cycles + 1) % u32_mod ≡ cycles + 1 =
              in_range cycles bounds.end_cycle e small in
            loop_then rounds cycles (round env false bounds cycles w) (round-Moves cycles w) (
              subst (λ c. Ends (run_loop env rounds false bounds c)) (sym next)
                (run_loop-Ends rounds (cycles + 1) (below cycles bounds.end_cycle e)
                  (omega (arith, lt)) small))
      ]
    where
      in_range : (c n : ℕ) → leb n c ≡ false → n < u32_mod → (c + 1) % u32_mod ≡ c + 1
      in_range c n e small = ground (arith, e, small)

      below : (c n : ℕ) → leb n c ≡ false → c + 1 ≤ n
      below c n e = ground (arith, e)

module _ (env : Env) where
  -- If the cycle of every node ends, whether it returns, fails or panics, then from any state a
  -- historical run of a static graph for n cycles, with more than n rounds of fuel, does not
  -- diverge.
  pub run_nodes-Ends :
      (w : World env.Store) (t n : ℕ)
      → ((a : ℕ) → Ends (env.cycle a))
      → env.dynamic_graph ≡ false
      → w.state.run_mode ≡ RunMode.historical_from t
      → w.state.run_for ≡ RunFor.cycles n
      → n < u32_mod
      → n < env.fuel
      → NotDiverged (run_nodes env w).0
  unfolding run_nodes
  run_nodes-Ends w t n nodes_end off mode cycles small enough =
      rw (mode, cycles, run_nodes)
        (run_loop-Ends env nodes_end off
          (record { start_time = t; end_time = u64_mod - 1; end_cycle = n }) env.fuel 0
          (omega arith) (omega (arith, enough)) small
          (record w {
            state = record (w.state) {
              run_mode = RunMode.historical_from t;
              run_for = RunFor.cycles n;
              start_time = t;
            };
          }))
