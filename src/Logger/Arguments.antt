-- ===== src/Logger/Arguments.antt =====
-- The command line of the logger, `main` of src/load_cell_logger.c up to the start of its client.
use motor_stand.Prelude.{
  ℕ, ◌≡◌, ap, ◌∙◌, Option-cases, Bool, false, some, List, [], ◌∷◌, get_or, ◌≢◌, arith, inl, inr,
}
use motor_stand.Prelude.Text.{codes, eq_text}
use motor_stand.Double.{Double, Strtod}
use motor_stand.Logger.{LoggerData, bad_constants, logging, read_constants, set_up}

module _ {D : Type 0} ⦃d : Double D⦄ (strtod : Strtod D) (opens : List ℕ → Bool) where
  read_constants-comma :
      (text : List ℕ) (l : LoggerData D)
      → read_constants strtod text ≡ some l
      → (rest : List ℕ) × (text ≡ b',' ∷ rest) × (l.m ≡ (strtod text).0)
  unfolding read_constants
  read_constants-comma [] l h = cc
  read_constants-comma (c ∷ rest) l h = (rest, ground arith, ground arith)

  constants_zero :
      ((rest : List ℕ) → (strtod (b',' ∷ rest)).0 ≡ d.nought)
      → (text : List ℕ) (l : LoggerData D) → read_constants strtod text ≡ some l
      → l.m ≡ d.nought
  constants_zero no_number text l h =
      let (rest, comma, slope) = read_constants-comma text l h in
      slope ∙ ap (λ t. (strtod t).0) comma ∙ no_number rest

  -- Constants "m,b" behind "-k" are refused, whatever numbers they name: only a text that begins with
  -- the comma is taken.
  pub set_up-bad_constants :
      (prog name : List ℕ) (c : ℕ) (text : List ℕ)
      → eq_text (codes "-h") name ≡ false
      → c ≢ b','
      → set_up strtod opens (prog ∷ name ∷ codes "-k" ∷ (c ∷ text) ∷ []) ≡ bad_constants
  unfolding set_up read_constants
  set_up-bad_constants prog name c text e h = ground arith

  -- At a text that begins with no number `strtod` is documented to give zero. Then no command line
  -- makes the logger run with another multiplier than zero.
  pub set_up-multiplier :
      ((rest : List ℕ) → (strtod (b',' ∷ rest)).0 ≡ d.nought)
      → (argv : List (List ℕ)) (name : List ℕ) (l : LoggerData D)
      → set_up strtod opens argv ≡ logging name l
      → l.m ≡ d.nought
  unfolding set_up
  set_up-multiplier no_number argv name l h =
      elim (Option-cases (read_constants strtod (get_or argv 3 []))) [
        | inl refused ↦ ground arith
        | inr (taken, found) ↦
            let zero_slope = constants_zero no_number (get_or argv 3 []) taken found in ground arith
      ]
