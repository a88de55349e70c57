-- ===== src/Base/Lists.antt =====
-- Lists measured by native numbers, sums over lists, and the two ways in which the Go code finds
-- and changes an element: the first match of a loop, and the last match, which is what a map filled
-- by a loop over the slice holds.
use Prim.Native.Nat.{ℕ, zero, suc, ◌+◌, ◌-◌, ◌≤◌}
use mathlib.Core.Path.{◌≡◌, refl}
use mathlib.Core.Bool.{Bool, true, false, ◌||◌, not}
use mathlib.Core.List.{List, [], ◌∷◌, ◌++◌, map}
use mathlib.Core.Option.{Option, none, some}
use native.Mathlib.Omega.{arith}
use mathlib.Core.Logic.{inl, inr}
use smartbch.Base.Tests.{if◌then◌else◌, Bool-cases}

module _ {ℓ} {A : Type ℓ} where
  abbrev pub length : List A → ℕ
  length [] = 0
  length (x ∷ xs) = suc (length xs)

  abbrev pub take : ℕ → List A → List A
  take zero xs = []
  take (suc n) [] = []
  take (suc n) (x ∷ xs) = x ∷ take n xs

  abbrev pub drop : ℕ → List A → List A
  drop zero xs = xs
  drop (suc n) [] = []
  drop (suc n) (x ∷ xs) = drop n xs

  abbrev pub sum_by : (A → ℕ) → List A → ℕ
  sum_by f [] = 0
  sum_by f (x ∷ xs) = f x + sum_by f xs

  abbrev pub any : (A → Bool) → List A → Bool
  any p [] = false
  any p (x ∷ xs) = p x || any p xs

  abbrev pub keep_if : (A → Bool) → List A → List A
  keep_if p [] = []
  keep_if p (x ∷ xs) = if p x then x ∷ keep_if p xs else keep_if p xs

  abbrev pub find_first : (A → Bool) → List A → Option A
  find_first p [] = none
  find_first p (x ∷ xs) = if p x then some x else find_first p xs

  abbrev pub find_last : (A → Bool) → List A → Option A
  find_last p [] = none
  find_last p (x ∷ xs) = elim (find_last p xs) [
    | some y ↦ some y
    | none ↦ if p x then some x else none
  ]

  abbrev pub update_first : (A → Bool) → (A → A) → List A → List A
  update_first p f [] = []
  update_first p f (x ∷ xs) = if p x then f x ∷ xs else x ∷ update_first p f xs

  abbrev pub update_last : (A → Bool) → (A → A) → List A → List A
  update_last p f [] = []
  update_last p f (x ∷ xs) =
      if any p xs then x ∷ update_last p f xs else if p x then f x ∷ xs else x ∷ xs

  abbrev pub All {κ} : (A → Type κ) → List A → Type κ
  All P [] = Unit
  All P (x ∷ xs) = P x × All P xs

module _ {ℓ} {A : Type ℓ} where
  pub length-append : (xs ys : List A) → length (xs ++ ys) ≡ length xs + length ys
  length-append [] ys = omega arith
  length-append (x ∷ xs) ys = omega (arith, length-append xs ys)

  pub sum_by-append : (f : A → ℕ) (xs ys : List A) → sum_by f (xs ++ ys) ≡ sum_by f xs + sum_by f ys
  sum_by-append f [] ys = omega arith
  sum_by-append f (x ∷ xs) ys = omega (arith, sum_by-append f xs ys)

  pub length-keep_if-le : (p : A → Bool) (xs : List A) → length (keep_if p xs) ≤ length xs
  length-keep_if-le p [] = omega arith
  length-keep_if-le p (x ∷ xs) = ground (arith, length-keep_if-le p xs)

  -- Changing the first match changes a sum by what it changes there.
  pub sum_by-update_first :
      (m : A → ℕ) (p : A → Bool) (f : A → A) (xs : List A) {x : A}
      → find_first p xs ≡ some x
      → sum_by m (update_first p f xs) + m x ≡ sum_by m xs + m (f x)
  sum_by-update_first m p f [] h = cc
  sum_by-update_first m p f (y ∷ xs) {x} h = ground (arith, sum_by-update_first m p f xs {x = x})

  pub sum_by-update_first_same :
      (m : A → ℕ) (p : A → Bool) (f : A → A) (xs : List A)
      → ((x : A) → m (f x) ≡ m x)
      → sum_by m (update_first p f xs) ≡ sum_by m xs
  sum_by-update_first_same m p f [] same = refl
  sum_by-update_first_same m p f (y ∷ xs) same =
      ground (arith, same y, sum_by-update_first_same m p f xs same)

  pub sum_by-update_last_same :
      (m : A → ℕ) (p : A → Bool) (f : A → A) (xs : List A)
      → ((x : A) → m (f x) ≡ m x)
      → sum_by m (update_last p f xs) ≡ sum_by m xs
  sum_by-update_last_same m p f [] same = refl
  sum_by-update_last_same m p f (y ∷ xs) same =
      ground (arith, same y, sum_by-update_last_same m p f xs same)

  pub any-find_last :
      (p : A → Bool) (xs : List A)
      → any p xs ≡ elim (find_last p xs) [ none ↦ false | some _ ↦ true ]
  any-find_last p [] = refl
  any-find_last p (x ∷ xs) = ground (arith, any-find_last p xs)

  pub take_all : (n : ℕ) (xs : List A) → length xs ≡ n → take n xs ≡ xs
  take_all zero [] h = refl
  take_all zero (x ∷ xs) h = absurd (omega arith)
  take_all (suc n) [] h = refl
  take_all (suc n) (x ∷ xs) h = rw (take_all n xs (omega arith))

module _ {ℓ} {A : Type ℓ} where
  abbrev pub get_elem? : List A → ℕ → Option A
  get_elem? [] i = none
  get_elem? (x ∷ xs) zero = some x
  get_elem? (x ∷ xs) (suc i) = get_elem? xs i

  pub get_elem?-append_length :
      (xs ys : List A) (y : A) → get_elem? (xs ++ y ∷ ys) (length xs) ≡ some y
  get_elem?-append_length [] ys y = refl
  get_elem?-append_length (x ∷ xs) ys y = get_elem?-append_length xs ys y

  pub take-append_length : (xs ys : List A) → take (length xs) (xs ++ ys) ≡ xs
  take-append_length [] ys = refl
  take-append_length (x ∷ xs) ys = rw (take-append_length xs ys)

  pub drop-append_add :
      (xs ys : List A) (n m : ℕ) → n ≡ length xs + m → drop n (xs ++ ys) ≡ drop m ys
  drop-append_add [] ys n m h = let e : n ≡ m = omega arith in rw e
  drop-append_add (x ∷ xs) ys zero m h = absurd (omega arith)
  drop-append_add (x ∷ xs) ys (suc n) m h = drop-append_add xs ys n m (omega arith)

module _ {ℓ} {A : Type ℓ} where
  -- A sum splits by a test.
  pub sum_by-keep_if :
      (m : A → ℕ) (p : A → Bool) (xs : List A)
      → sum_by m (keep_if p xs) + sum_by m (keep_if (λ x. not (p x)) xs) ≡ sum_by m xs
  sum_by-keep_if m p [] = refl
  sum_by-keep_if m p (x ∷ xs) = ground (arith, sum_by-keep_if m p xs)

  pub sum_by-map_same {κ} :
      {B : Type κ} (m : B → ℕ) (n : A → ℕ) (f : A → B) (xs : List A)
      → ((x : A) → m (f x) ≡ n x)
      → sum_by m (map f xs) ≡ sum_by n xs
  sum_by-map_same m n f [] same = refl
  sum_by-map_same m n f (x ∷ xs) same = omega (arith, same x, sum_by-map_same m n f xs same)

module _ {ℓ} {A : Type ℓ} where
  pub length-drop : (n : ℕ) (xs : List A) → length (drop n xs) ≡ length xs - n
  length-drop zero xs = omega arith
  length-drop (suc n) [] = omega arith
  length-drop (suc n) (x ∷ xs) = omega (arith, length-drop n xs)

module _ {ℓ} {A : Type ℓ} where
  -- A write out of bounds changes nothing.
  abbrev pub modify : ℕ → (A → A) → List A → List A
  modify n f [] = []
  modify zero f (x ∷ xs) = f x ∷ xs
  modify (suc n) f (x ∷ xs) = x ∷ modify n f xs

  pub length-modify : (n : ℕ) (f : A → A) (xs : List A) → length (modify n f xs) ≡ length xs
  length-modify n f [] = refl
  length-modify zero f (x ∷ xs) = refl
  length-modify (suc n) f (x ∷ xs) = omega (arith, length-modify n f xs)

module _ {ℓ} {A : Type ℓ} where
  pub keep_if-All : (p : A → Bool) (xs : List A) → All (λ x. p x ≡ true) (keep_if p xs)
  keep_if-All p [] = tt
  keep_if-All p (x ∷ xs) = elim (Bool-cases (p x)) [
    | inl kept ↦ rw kept (kept, keep_if-All p xs)
    | inr dropped ↦ rw dropped (keep_if-All p xs)
  ]

module _ {ℓ} {A : Type ℓ} where
  abbrev pub replicate : ℕ → A → List A
  replicate zero x = []
  replicate (suc n) x = x ∷ replicate n x
