-- ===== src/Prelude/Loops.antt =====
-- Counted loops, with their invariant rule.
use Prim.Native.Nat.{ℕ, zero, suc, ◌+◌, ◌<◌}
use mathlib.Core.Path.{◌≡◌, refl}
use native.Mathlib.Omega.{arith}

module _ {ℓ} {S : Type ℓ} where
  -- `for (k = i; k < i + n; ++k) s = body k s;`: recursion on the rounds left.
  unfoldable pub for_range : ℕ → ℕ → (ℕ → S → S) → S → S
  for_range zero i body s = s
  for_range (suc n) i body s = for_range n (i + 1) body (body i s)

  -- What holds before the loop and is kept by each round of it holds behind it.
  pub for_range_inv {κ} :
      (P : ℕ → S → Type κ) (body : ℕ → S → S) (j : ℕ)
      → ((i : ℕ) (s : S) → i < j → P i s → P (suc i) (body i s))
      → (n i : ℕ) (s : S) → i + n ≡ j
      → P i s
      → P j (for_range n i body s)
  unfolding for_range
  for_range_inv P body j keep zero i s e h = let e' : i ≡ j = omega arith in rw (← e') h
  for_range_inv P body j keep (suc n) i s e h =
      let e' : suc i ≡ i + 1 = omega arith in
      for_range_inv P body j keep n (i + 1) (body i s) (omega arith)
        (rw (← e') (keep i s (omega arith) h))

  -- Bodies that agree on the rounds of the loop give the same result.
  pub for_range_congr :
      (body other : ℕ → S → S) (j : ℕ)
      → ((i : ℕ) (s : S) → i < j → body i s ≡ other i s)
      → (n i : ℕ) (s : S) → i + n ≡ j
      → for_range n i body s ≡ for_range n i other s
  unfolding for_range
  for_range_congr body other j same zero i s e = refl
  for_range_congr body other j same (suc n) i s e =
      rw (same i s (omega arith))
        (for_range_congr body other j same n (i + 1) (other i s) (omega arith))
