-- ===== src/Calibration/Multipliers.antt =====
-- Which of the two results of the fit is used as the multiplier, in src/load_cell_calibration.c and in
-- src/load_cell_serv.c.
use motor_stand.Prelude.{ℕ, ◌≡◌, ◌≢◌, false, some, refl, List, length, map, ==_of_ne}
use motor_stand.Prelude.Int.{ℤ}
use motor_stand.Prelude.Calls.{Succeeds, Succeeds-bind, Succeeds-some}
use motor_stand.Double.{Double, ◌⊕◌, ◌⊗◌}
use motor_stand.Double.Exact.{IsExact}
use motor_stand.Matrix.{Memory}
use motor_stand.Inverse.Closed.{det}
use motor_stand.LeastSquares.{first_order}
use motor_stand.LeastSquares.FirstOrder.{
  n, sum_x, sum_xx, sum_y, sum_yx, first_order-normal_equations,
}
use motor_stand.Calibration.{Buffers, constants, calibrate}

module _ {D : Type 0} ⦃d : Double D⦄ (garbage : ℕ → List D) (h : Memory D) (exact : IsExact D) where
  -- The intercept and the slope solve the normal equations of the points `(x, y)`.
  abbrev pub Fits : List D → List D → ℕ → D → D → Type 0
  Fits x y nmemb intercept slope =
      (n garbage h x y nmemb ⊗ intercept ⊕ sum_x garbage h x y nmemb ⊗ slope
        ≡ sum_y garbage h x y nmemb)
      × (sum_x garbage h x y nmemb ⊗ intercept ⊕ sum_xx garbage h x y nmemb ⊗ slope
          ≡ sum_yx garbage h x y nmemb)

  abbrev pub Regular : List D → List D → ℕ → Type 0
  Regular x y nmemb =
      let s = sum_x garbage h x y nmemb in
      d.eq (det (n garbage h x y nmemb) s s (sum_xx garbage h x y nmemb)) d.nought ≡ false

  -- In exact arithmetic, with malloc returning blocks of the size asked for, and if the determinant of
  -- the normal equations is not zero: the calibration program prints as `m` the slope and as `b` the
  -- intercept of the line through the values it holds.
  pub constants-Fits :
      (s : Buffers D)
      → length (garbage 4) ≡ 4
      → length (garbage 2) ≡ 2
      → s.buf_pos ≢ 0
      → Regular s.measurement s.known_values s.buf_pos
      → Succeeds (λ c. Fits s.measurement s.known_values s.buf_pos c.1 c.0) (constants garbage s h)
  unfolding constants
  constants-Fits s four two some_held regular = rw (==_of_ne s.buf_pos 0 some_held) (
      Succeeds-bind _ (first_order garbage s.measurement s.known_values s.buf_pos h) _
        (first_order-normal_equations garbage h s.measurement s.known_values s.buf_pos exact four
          two regular)
        (λ c fits. fits))

  -- In exact arithmetic, with malloc returning blocks of the size asked for, and if the determinant of
  -- the normal equations of the raw readings and the known weights is not zero: the server calibrates to
  -- the intercept as its `multiplier_m` and to the slope as its `multiplier_b`, where the calibration
  -- program, if it holds these numbers and at least one, gives the slope as `m` and the intercept as `b`.
  pub calibrate-Fits :
      (known_weights : List D) (raw : List ℤ) (s : Buffers D)
      → length (garbage 4) ≡ 4
      → length (garbage 2) ≡ 2
      → Regular (map d.of_long raw) known_weights (length known_weights)
      → s.known_values ≡ known_weights
      → s.measurement ≡ map d.of_long raw
      → s.buf_pos ≡ length known_weights
      → s.buf_pos ≢ 0
      → Succeeds
          (λ c.
            Fits (map d.of_long raw) known_weights (length known_weights) c.0 c.1
            × (constants garbage s h ≡ some (c.1, c.0)))
          (calibrate garbage known_weights raw h)
  unfolding calibrate constants
  calibrate-Fits known_weights raw s four two regular known measured count some_held =
      let fitted =
        first_order-normal_equations garbage h (map d.of_long raw) known_weights
          (length known_weights) exact four two regular in
      let fit = first_order garbage (map d.of_long raw) known_weights (length known_weights) h in
      let (c, found, fits) =
        Succeeds-some
          (λ (a : D × D). Fits (map d.of_long raw) known_weights (length known_weights) a.0 a.1) fit
          fitted in
      let printed : constants garbage s h ≡ some (c.1, c.0) =
        rw (==_of_ne s.buf_pos 0 some_held, known, measured, count, found) refl in
      rw found (fits, printed)
