-- ===== src/Logger/Lines.antt =====
-- What `write_callback_batch` of src/load_cell_logger.c writes for a batch.
use motor_stand.Prelude.{
  ℕ, zero, suc, ◌+◌, ◌≤◌, ◌<◌, ◌≡◌, refl, sym, ap, ◌∙◌, none, some, List, [], ◌∷◌, ◌++◌, append-nil,
  append_assoc, arith, get_elem?, length, take, drop, true, false, leb, if◌then◌else◌,
}
use native.Mathlib.Decide.{dec_lt, dec_le}
use motor_stand.Server.Stream.{payload}
use motor_stand.Double.{Double}
use motor_stand.LoadCell.{OutputMinimal, OutputBatch}
use motor_stand.Logger.{LoggerData, line, write_entries, write_callback_batch}

get_elem?-drop :
    (xs : List OutputMinimal) (i : ℕ)
    → i < length xs
    → (x : OutputMinimal) × (get_elem? xs i ≡ some x) × (drop i xs ≡ x ∷ drop (suc i) xs)
get_elem?-drop [] i h = absurd (omega arith)
get_elem?-drop (x ∷ xs) zero h = (x, refl, refl)
get_elem?-drop (x ∷ xs) (suc i) h = get_elem?-drop xs i (omega arith)

get_elem?-none : (xs : List OutputMinimal) (i : ℕ) → length xs ≤ i → get_elem? xs i ≡ none
get_elem?-none [] i h = refl
get_elem?-none (x ∷ xs) zero h = absurd (omega arith)
get_elem?-none (x ∷ xs) (suc i) h = get_elem?-none xs i (omega arith)

module _ {D : Type 0} ⦃d : Double D⦄ (l : LoggerData D) where
  abbrev pub lines : List OutputMinimal → List ℕ
  lines [] = []
  lines (x ∷ xs) = line l x ++ lines xs

  pub lines-append : (xs ys : List OutputMinimal) → lines (xs ++ ys) ≡ lines xs ++ lines ys
  lines-append [] ys = refl
  lines-append (x ∷ xs) ys = rw (lines-append xs ys) (sym (append_assoc (line l x) _ _))

  write_entries-inside :
      (batch : OutputBatch) (n i : ℕ) (file : List ℕ)
      → i + n ≤ length batch.entries
      → write_entries l batch n i file ≡ some (file ++ lines (take n (drop i batch.entries)))
  unfolding write_entries
  write_entries-inside batch zero i file h = ap some (sym (append-nil file))
  write_entries-inside batch (suc n) i file h =
      let (x, found, split) = get_elem?-drop batch.entries i (omega arith) in
      let next : i + 1 ≡ suc i = omega arith in
      rw (found, split, write_entries)
        (write_entries-inside batch n (i + 1) (file ++ line l x) (omega arith)
          ∙ rw next (ap some (append_assoc file (line l x) _)))

  write_entries-outside :
      (batch : OutputBatch) (n i : ℕ) (file : List ℕ)
      → i ≤ length batch.entries
      → length batch.entries < i + n
      → write_entries l batch n i file ≡ none
  unfolding write_entries
  write_entries-outside batch zero i file hi h = absurd (omega arith)
  write_entries-outside batch (suc n) i file hi h = elim (dec_lt i (length batch.entries)) [
    | yes inside ↦
        let (x, found, split) = get_elem?-drop batch.entries i inside in
        rw (found, write_entries)
          (write_entries-outside batch n (i + 1) (file ++ line l x) (omega arith) (omega arith))
    | no past ↦ rw (get_elem?-none batch.entries i (omega arith), write_entries)
  ]

  -- A batch whose count is within its array is logged whole: the lines of its samples, in order, are
  -- appended to the file. With a larger count the callback reads outside the array.
  pub write_callback_batch-lines :
      (batch : OutputBatch) (file : List ℕ)
      → write_callback_batch l batch file ≡ (
          if leb batch.count (length batch.entries)
          then some (file ++ lines (payload batch))
          else none)
  unfolding write_callback_batch
  write_callback_batch-lines batch file = elim (dec_le batch.count (length batch.entries)) [
    | yes within ↦
        let test : leb batch.count (length batch.entries) ≡ true = ground arith in
        rw test (write_entries-inside batch batch.count 0 file (omega arith))
    | no beyond ↦
        let test : leb batch.count (length batch.entries) ≡ false = ground arith in
        rw test (write_entries-outside batch batch.count 0 file (omega arith) (omega arith))
  ]
