-- ===== src/Graph/Window/Recent.antt =====
-- The list of the latest points in src/teststandui.c: cut after each new point, it is the end of the list
-- of all points.
use motor_stand.Prelude.{
  ℕ, zero, suc, ◌-◌, ◌≤◌, ◌≡◌, refl, sym, ap, ◌∙◌, inl, inr, List, [], ◌∷◌, ◌++◌, Bool-cases, ltb,
  length, length-append, drop, arith,
}
use motor_stand.Graph.{Glib, IsDocumented, data_points_to_keep, keep_point}

module _ {A : Type 0} where
  -- The last `k` elements.
  abbrev pub last : ℕ → List A → List A
  last k xs = drop (length xs - k) xs

  drop-suc : (n : ℕ) (xs : List A) → drop 1 (drop n xs) ≡ drop (suc n) xs
  drop-suc zero xs = refl
  drop-suc (suc n) [] = refl
  drop-suc (suc n) (x ∷ xs) = drop-suc n xs

  drop-append : (n : ℕ) (xs ys : List A) → n ≤ length xs → drop n (xs ++ ys) ≡ drop n xs ++ ys
  drop-append zero xs ys h = refl
  drop-append (suc n) [] ys h = absurd (omega arith)
  drop-append (suc n) (x ∷ xs) ys h = drop-append n xs ys (omega arith)

  length-drop : (n : ℕ) (xs : List A) → length (drop n xs) ≡ length xs - n
  length-drop zero xs = omega arith
  length-drop (suc n) [] = omega arith
  length-drop (suc n) (x ∷ xs) = omega (arith, length-drop n xs)

  module _ (g : Glib A) (doc : IsDocumented A g) where
    delete_link-drop : (xs : List A) → 1 ≤ length xs → g.g_list_delete_link xs 0 ≡ drop 1 xs
    delete_link-drop [] h = absurd (omega arith)
    delete_link-drop (x ∷ xs) h = doc.delete_first x xs

    -- The list of the last elements is kept up to date.
    pub keep_point-last :
        (x : A) (xs : List A)
        → keep_point g x (last data_points_to_keep xs) ≡ last data_points_to_keep (xs ++ x ∷ [])
    unfolding keep_point
    keep_point-last x xs =
        let k = length xs - data_points_to_keep in
        let now = drop k xs ++ x ∷ [] in
        let grown = length-append xs (x ∷ []) in
        let size = length-append (drop k xs) (x ∷ []) in
        let dropped = length-drop k xs in
        rw (doc.append_eq, doc.length_eq)
          (elim (Bool-cases (ltb data_points_to_keep (length now))) [
            | inl full ↦
                let next : suc k ≡ length (xs ++ x ∷ []) - data_points_to_keep = ground arith in
                rw full (
                  delete_link-drop now (ground arith)
                  ∙ ap (drop 1) (sym (drop-append k xs (x ∷ []) (omega arith)))
                  ∙ drop-suc k (xs ++ x ∷ [])
                  ∙ ap (λ n. drop n (xs ++ x ∷ [])) next)
            | inr short ↦
                let none_yet : k ≡ 0 = ground arith in
                let none_next : length (xs ++ x ∷ []) - data_points_to_keep ≡ 0 = ground arith in
                rw short (
                  ap (λ n. drop n xs ++ x ∷ []) none_yet
                  ∙ ap (λ n. drop n (xs ++ x ∷ [])) (sym none_next))
          ])
