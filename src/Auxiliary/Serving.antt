-- ===== src/Auxiliary/Serving.antt =====
-- The main loop of src/load_cell_serv.c serves what the other threads have requested.
use motor_stand.Prelude.{ℕ, zero, suc, ◌+◌, ◌≤◌, ◌≡◌, refl, true, false, List, [], ◌∷◌, arith}
use motor_stand.Double.{Double}
use motor_stand.Server.{Tick, Loop}
use motor_stand.Auxiliary.{
  Main, sampling, checking, loading, resetting, exchanging, System, main_step, clear_flag, Run,
  launched,
}
use motor_stand.Auxiliary.Interleaving.{
  unserved, under_way, Flag, Flag-le, IsValid, launched-IsValid, Run-IsValid,
}

-- The main loop alone.
abbrev pub work : {D : Type 0} ⦃d : Double D⦄ → D → D → List (Tick D) → System D → System D
work m b [] s = s
work m b (t ∷ ts) s = work m b ts (main_step m b t s.main s)

module _ {D : Type 0} ⦃d : Double D⦄ (m b : D) (t₁ t₂ t₃ t₄ t₅ : Tick D) where
  five_steps : System D → System D
  five_steps = work m b (t₁ ∷ t₂ ∷ t₃ ∷ t₄ ∷ t₅ ∷ [])

  up_served :
      (pc : Main) (s : System D)
      → Flag pc 1
      → unserved (five_steps (record s { main = pc; reset = 1 })).log ≡ false
  unfolding five_steps main_step clear_flag
  up_served sampling s h = refl
  up_served checking s h = refl
  up_served loading s h = refl
  up_served (exchanging e) s h = rw h.0 refl
  up_served resetting s h = refl

  down_served :
      (pc : Main) (s : System D)
      → Flag pc 0
      → (unserved s.log ≡ true → 1 ≤ under_way pc)
      → unserved (five_steps (record s { main = pc; reset = 0 })).log ≡ false
  unfolding five_steps main_step
  down_served sampling s h served = ground (arith, served)
  down_served checking s h served = ground (arith, served)
  down_served loading s h served = absurd (omega arith)
  down_served (exchanging e) s h served = absurd (omega (arith, h.1))
  down_served resetting s h served = refl

  any_served :
      (pc : Main) (f : ℕ) (s : System D)
      → Flag pc f
      → (unserved s.log ≡ true → 1 ≤ f + under_way pc)
      → unserved (five_steps (record s { main = pc; reset = f })).log ≡ false
  any_served pc zero s h served = down_served pc s h (λ e. omega (arith, served e))
  any_served pc (suc zero) s h served = up_served pc s h
  any_served pc (suc (suc f)) s h served = absurd (omega (arith, Flag-le pc (suc (suc f)) h))

  -- After any run of the threads and the main loop, five steps of the main loop alone leave no reset
  -- that was requested behind the last call of `reset_adc`.
  pub Run-answered :
      (l : Loop) {u : System D}
      → Run D m b (launched l) u
      → unserved (work m b (t₁ ∷ t₂ ∷ t₃ ∷ t₄ ∷ t₅ ∷ []) u).log ≡ false
  unfolding five_steps
  Run-answered l {u} r =
      let v : IsValid u = Run-IsValid m b r (launched-IsValid m b l) in
      any_served u.main u.reset u v.flag v.served
