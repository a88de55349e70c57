-- ===== src/Staking/Deletion/Verdicts.antt =====
-- When the deletion loop of `clearUp` (staking/staking.go) deletes the useless validators, and when
-- it does not.
use smartbch.Base.{
  Bool, Bool-cases, List, Outcome-cases, [], any, arith, false, inl, inr, keep_if, length, not,
  out_of_range, panics, refl, returns, sym, true, ◌++◌, ◌∙◌, ◌∷◌, ◌≡◌, ◌≤◌,
}
use smartbch.Staking.Deletion.Scan.{Ends, delete_useless-scan, scan}
use smartbch.Staking.Deletion.{delete_loop, delete_useless}

module _ {ℓ} {A : Type ℓ} (p : A → Bool) where
  abbrev pub useful : A → Bool
  useful a = not (p a)

  Ends-append : (xs : List A) (z : A) → Ends p z (xs ++ z ∷ [])
  Ends-append [] z = refl
  Ends-append (x ∷ []) z = refl
  Ends-append (x ∷ y ∷ ys) z = Ends-append (y ∷ ys) z

  last-useful :
      (last x : A) (xs : List A) → Ends p last (x ∷ xs) → any p (x ∷ xs) ≡ false → p last ≡ false
  last-useful last x [] h none_useless = rw (← h) (ground arith)
  last-useful last x (y ∷ ys) h none_useless = last-useful last y ys h (ground arith)

  scan_none :
      (last : A) (deleted : Bool) (xs : List A)
      → p last ≡ false
      → any p xs ≡ false
      → scan p last deleted xs ≡ returns xs
  unfolding scan
  scan_none last deleted [] no_p h = ground arith
  scan_none last deleted (x ∷ []) no_p h = ground arith
  scan_none last deleted (x ∷ y ∷ ys) no_p h = ground (arith, scan_none last deleted (y ∷ ys) no_p)

  keep_if_none : (xs : List A) → any p xs ≡ false → keep_if useful xs ≡ xs
  keep_if_none [] h = refl
  keep_if_none (x ∷ xs) h = ground (arith, keep_if_none xs)

  any_of_length : (xs : List A) → length (keep_if p xs) ≤ 0 → any p xs ≡ false
  any_of_length [] h = refl
  any_of_length (x ∷ xs) h = ground (arith, any_of_length xs)

  scan_single :
      (last : A) (xs : List A)
      → Ends p last xs
      → length (keep_if p xs) ≤ 1
      → scan p last false xs ≡ returns (keep_if useful xs)
  unfolding scan
  scan_single last [] e h = refl
  scan_single last (x ∷ []) e h = ground arith
  scan_single last (x ∷ y ∷ ys) e h = elim (Bool-cases (p x)) [
    | inl is_p ↦
        let none_useless : any p (y ∷ ys) ≡ false = any_of_length (y ∷ ys) (ground arith) in
        ground
          (arith, last-useful last y ys e none_useless, scan_none last true ys, keep_if_none ys)
    | inr no_p ↦ ground (arith, scan_single last (y ∷ ys) e)
  ]

  split_last : (x : A) (xs : List A) → (last : A) × Ends p last (x ∷ xs)
  split_last x [] = (x, refl)
  split_last x (y ∷ ys) = split_last y ys

  -- With at most one useless element the loop deletes exactly it, wherever it stands.
  pub delete_useless_single :
      (xs : List A) → length (keep_if p xs) ≤ 1 → delete_useless p xs ≡ returns (keep_if useful xs)
  unfolding delete_useless delete_loop
  delete_useless_single [] h = refl
  delete_useless_single (x ∷ xs) h =
      let (last, ends) = split_last x xs in
      delete_useless-scan p (x ∷ xs) last ends ∙ scan_single last (x ∷ xs) ends h

  scan-true_panics :
      (z : A) (xs : List A) → p z ≡ true → scan p z true (xs ++ z ∷ []) ≡ panics out_of_range
  unfolding scan
  scan-true_panics z [] is_p = rw is_p
  scan-true_panics z (x ∷ []) is_p = ground arith
  scan-true_panics z (x ∷ y ∷ ys) is_p =
      ground (arith, scan-true_panics z ys is_p, scan-true_panics z (y ∷ ys) is_p)

  scan_panics :
      (z : A) (xs : List A)
      → p z ≡ true
      → any p xs ≡ true
      → scan p z false (xs ++ z ∷ []) ≡ panics out_of_range
  unfolding scan
  scan_panics z [] is_p h = cc
  scan_panics z (x ∷ []) is_p h = ground arith
  scan_panics z (x ∷ y ∷ ys) is_p h =
      ground (arith, scan-true_panics z ys is_p, scan_panics z (y ∷ ys) is_p)

  -- If the last element is useless, and another one is too, then the loop panics.
  pub delete_useless_panics :
      (xs : List A) (z : A)
      → p z ≡ true
      → any p xs ≡ true
      → delete_useless p (xs ++ z ∷ []) ≡ panics out_of_range
  delete_useless_panics xs z is_p h =
      delete_useless-scan p (xs ++ z ∷ []) z (Ends-append xs z) ∙ scan_panics z xs is_p h

  -- The second of two adjacent useless elements stays in the result.
  scan_adjacent :
      (last : A) (pre : List A) (x y : A) (post : List A) {zs : List A}
      → p x ≡ true
      → p y ≡ true
      → any p pre ≡ false
      → scan p last false (pre ++ x ∷ y ∷ post) ≡ returns zs
      → any p zs ≡ true
  unfolding scan
  scan_adjacent last [] x y post {zs} px py none_useless h =
      elim (Outcome-cases (scan p last true post)) [
        | inl (e, bad) ↦ absurd (ground arith)
        | inr (r, ok) ↦ ground arith
      ]
  scan_adjacent last (w ∷ []) x y post {zs} px py none_useless h =
      elim (Outcome-cases (scan p last false (x ∷ y ∷ post))) [
        | inl (e, bad) ↦ absurd (ground arith)
        | inr (r, ok) ↦ ground (arith, scan_adjacent last [] x y post {zs = r} px py refl ok)
      ]
  scan_adjacent last (w ∷ v ∷ pre) x y post {zs} px py none_useless h =
      elim (Outcome-cases (scan p last false (v ∷ pre ++ x ∷ y ∷ post))) [
        | inl (e, bad) ↦ absurd (ground arith)
        | inr (r, ok) ↦
            ground (arith, scan_adjacent last (v ∷ pre) x y post {zs = r} px py (ground arith) ok)
      ]

  cons_of_append :
      (pre : List A) (x : A) (post : List A) → (h : A) × (t : List A) × (pre ++ x ∷ post ≡ h ∷ t)
  cons_of_append [] x post = (x, post, refl)
  cons_of_append (w ∷ pre) x post = (w, pre ++ x ∷ post, refl)

  -- If the first useless element is followed by another useless one, then the loop panics, or a
  -- useless element is left in what it returns.
  pub delete_useless_adjacent :
      (pre : List A) (x y : A) (post : List A) {zs : List A}
      → any p pre ≡ false
      → p x ≡ true
      → p y ≡ true
      → delete_useless p (pre ++ x ∷ y ∷ post) ≡ returns zs
      → any p zs ≡ true
  delete_useless_adjacent pre x y post none_useless px py h =
      let (w, t, e) = cons_of_append pre x (y ∷ post) in
      let (last, ends) = split_last w t in
      scan_adjacent last pre x y post px py none_useless
        (sym (delete_useless-scan p (pre ++ x ∷ y ∷ post) last (rw e ends)) ∙ h)
