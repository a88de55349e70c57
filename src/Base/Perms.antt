-- ===== src/Base/Perms.antt =====
-- Sums do not depend on the order.
use Prim.Native.Nat.{ℕ}
use mathlib.Core.Path.{◌≡◌, refl, ◌∙◌, ap}
use mathlib.Core.Logic.{∥∥₁_elim}
use mathlib.Core.List.{List, Perm, Permᴰ}
use native.Mathlib.Nat.{ℕ_set}
use native.Mathlib.Omega.{arith}
use smartbch.Base.Lists.{sum_by}

module _ {ℓ} {A : Type ℓ} (f : A → ℕ) where
  sum_by-Permᴰ : {xs ys : List A} → Permᴰ xs ys → sum_by f xs ≡ sum_by f ys
  sum_by-Permᴰ Permᴰ.nil = refl
  sum_by-Permᴰ (Permᴰ.cons e h) = omega (arith, ap f e, sum_by-Permᴰ h)
  sum_by-Permᴰ (Permᴰ.swap e e') = omega (arith, ap f e, ap f e')
  sum_by-Permᴰ (Permᴰ.trans h k) = sum_by-Permᴰ h ∙ sum_by-Permᴰ k

  pub sum_by-perm : (xs ys : List A) → Perm xs ys → sum_by f xs ≡ sum_by f ys
  sum_by-perm xs ys h = ∥∥₁_elim h (ℕ_set _ _) sum_by-Permᴰ
