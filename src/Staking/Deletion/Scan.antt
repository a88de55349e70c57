-- ===== src/Staking/Deletion/Scan.antt =====
-- What the deletion loop of `clearUp` (staking/staking.go) does to a list: it skips the element
-- behind each one that it deletes, and it meets copies of the last element at the end.
use smartbch.Base.{
  Bool, Bool-cases, List, Outcome, [], ap, append-nil, append_assoc, arith, drop, drop-append_add,
  false, get_elem?-append_length, if◌then◌else◌, inl, inr, leb, length, length-append, ltb,
  out_of_range, panics, refl, returns, suc, take, take-append_length, true, zero, ℕ, ◌&&◌, ◌++◌,
  ◌+◌, ◌-◌, ◌>>=◌, ◌∙◌, ◌∷◌, ◌≡◌, ◌≤◌,
}
use smartbch.Staking.Deletion.{delete_at, delete_loop, delete_step, delete_useless}

module _ {ℓ} {A : Type ℓ} (p : A → Bool) (last : A) where
  -- The rounds behind the end of the shortened slice.
  abbrev pub scan_end : Bool → Outcome (List A)
  scan_end deleted = if deleted && p last then panics out_of_range else returns []

  abbrev pub prepend : A → Outcome (List A) → Outcome (List A)
  prepend x m = m >>= λ xs. returns (x ∷ xs)

  -- `deleted` says whether an element has been deleted before.
  unfoldable pub scan : Bool → List A → Outcome (List A)
  scan deleted [] = scan_end deleted
  scan deleted (x ∷ []) = if p x then scan_end deleted else prepend x (scan_end deleted)
  scan deleted (x ∷ y ∷ ys) =
      let skips = prepend y (scan true ys) in
      let keeps = prepend x (scan deleted (y ∷ ys)) in if p x then skips else keeps

  -- The list is empty, or `last` is its last element.
  abbrev pub Ends : List A → Type ℓ
  Ends [] = Unit
  Ends (x ∷ []) = x ≡ last
  Ends (x ∷ y ∷ ys) = Ends (y ∷ ys)

  abbrev pub copies : ℕ → List A
  copies zero = []
  copies (suc k) = last ∷ copies k

  length-copies : (k : ℕ) → length (copies k) ≡ k
  length-copies zero = refl
  length-copies (suc k) = ap suc (length-copies k)

  drop_to_last :
      (x : A) (xs tail : List A) → Ends (x ∷ xs) → drop (length xs) (x ∷ xs ++ tail) ≡ last ∷ tail
  drop_to_last x [] tail h = rw h
  drop_to_last x (y ∷ ys) tail h = drop_to_last y ys tail h

  -- One deletion, with the array written as what is behind, what is ahead, and the copies.
  delete_at_lem :
      (pre : List A) (x : A) (xs tail : List A) (i len : ℕ)
      → i ≡ length pre
      → len ≡ length pre + suc (length xs)
      → Ends (x ∷ xs)
      → delete_at p i (pre ++ (x ∷ xs ++ tail)) len
        ≡ returns (pre ++ (xs ++ last ∷ tail), length pre + length xs)
  unfolding delete_at
  delete_at_lem pre x xs tail i len ei el h =
      let room : leb (i + 1) len ≡ true = ground arith in
      let front : take i (pre ++ (x ∷ xs ++ tail)) ≡ pre =
        rw ei (take-append_length pre (x ∷ xs ++ tail)) in
      let behind : drop (i + 1) (pre ++ (x ∷ xs ++ tail)) ≡ xs ++ tail =
        drop-append_add pre (x ∷ xs ++ tail) (i + 1) 1 (omega arith) in
      let size : len - (i + 1) ≡ length xs = omega arith in
      let kept : drop (len - 1) (pre ++ (x ∷ xs ++ tail)) ≡ last ∷ tail =
        drop-append_add pre (x ∷ xs ++ tail) (len - 1) (length xs) (omega arith)
        ∙ drop_to_last x xs tail h in
      let shorter : len - 1 ≡ length pre + length xs = omega arith in
      rw (room, front, behind, size, kept, shorter, take-append_length xs tail)

  step_keeps :
      (pre : List A) (x : A) (rest : List A) (i len : ℕ)
      → i ≡ length pre
      → p x ≡ false
      → delete_step p i (pre ++ x ∷ rest, len) ≡ returns (pre ++ x ∷ rest, len)
  unfolding delete_step
  step_keeps pre x rest i len ei no_p = rw (ei, get_elem?-append_length pre rest x, no_p)

  step_deletes :
      (pre : List A) (x : A) (rest : List A) (i len : ℕ)
      → i ≡ length pre
      → p x ≡ true
      → delete_step p i (pre ++ x ∷ rest, len) ≡ delete_at p i (pre ++ x ∷ rest) len
  unfolding delete_step
  step_deletes pre x rest i len ei is_p = rw (ei, get_elem?-append_length pre rest x, is_p)

  -- Behind the end every round reads a copy of the last element.
  tail_lem :
      (pre : List A) (r i len : ℕ)
      → i ≡ length pre
      → len ≤ i
      → delete_loop p r i (pre ++ copies r, len)
        ≡ (if ltb 0 r && p last then panics out_of_range else returns (pre ++ copies r, len))
  unfolding delete_loop
  tail_lem pre zero i len ei h = refl
  tail_lem pre (suc r) i len ei h = elim (Bool-cases (p last)) [
    | inl is_p ↦
        rw (step_deletes pre last (copies r) i len ei is_p, is_p) (unfold delete_at in ground arith)
    | inr no_p ↦
        let next =
          tail_lem (pre ++ last ∷ []) r (i + 1) len (omega (arith, length-append pre (last ∷ [])))
            (omega arith) in
        rw (step_keeps pre last (copies r) i len ei no_p, no_p)
          (rw (append_assoc pre (last ∷ []) (copies r), no_p) at next ∙ ground arith)
  ]

  abbrev finish : List A × ℕ → Outcome (List A)
  finish s = returns (take s.1 s.0)

  abbrev behind : List A → Outcome (List A) → Outcome (List A)
  behind pre m = m >>= λ xs. returns (pre ++ xs)

  behind-prepend :
      (pre : List A) (x : A) (m : Outcome (List A))
      → behind (pre ++ x ∷ []) m ≡ behind pre (prepend x m)
  behind-prepend pre x (returns xs) = rw (append_assoc pre (x ∷ []) xs)
  behind-prepend pre x (panics e) = refl

  Ends-tail : (x : A) (xs : List A) → Ends (x ∷ xs) → Ends xs
  Ends-tail x [] h = tt
  Ends-tail x (y ∷ ys) h = h

  -- The rounds that are left when nothing is ahead; `more` are elements behind the end.
  end_lem :
      (pre more : List A) (r i len : ℕ)
      → i ≡ length (pre ++ more)
      → len ≡ length pre
      → (delete_loop p r i ((pre ++ more) ++ copies r, len) >>= finish)
        ≡ behind pre (scan_end (ltb 0 r))
  end_lem pre more r i len ei el =
      rw (tail_lem (pre ++ more) r i len ei (omega (arith, length-append pre more)))
        (elim (Bool-cases (ltb 0 r && p last)) [
          | inl e ↦ rw e
          | inr e ↦ rw (
            e,
            el,
            append_assoc pre more (copies r),
            take-append_length pre (more ++ copies r),
            append-nil pre,
          )
        ])

  -- From index `i` on, with `k` elements deleted, the loop does what `scan` says of what is ahead.
  loop_lem :
      (pre suf : List A) (k i len rounds : ℕ)
      → i ≡ length pre
      → len ≡ length pre + length suf
      → rounds ≡ length suf + k
      → Ends suf
      → (delete_loop p rounds i (pre ++ (suf ++ copies k), len) >>= finish)
        ≡ behind pre (scan (ltb 0 k) suf)
  unfolding scan delete_loop
  loop_lem pre [] k i len rounds ei el er h =
      let e : rounds ≡ k = omega arith in
      rw e (rw append-nil at (end_lem pre [] k i len (rw append-nil ei) (omega arith)))
  loop_lem pre (x ∷ xs) k i len zero ei el er h = absurd (omega arith)
  loop_lem pre (x ∷ []) k i len (suc rounds) ei el er h =
      let e : rounds ≡ k = omega arith in
      let ends : i + 1 ≡ length (pre ++ x ∷ []) = omega (arith, length-append pre (x ∷ [])) in
      elim (Bool-cases (p x)) [
        | inl is_p ↦
            rw
              (
                step_deletes pre x (copies k) i len ei is_p,
                delete_at_lem pre x [] (copies k) i len ei el h,
                is_p,
                e,
              )
              (rw append_assoc at (
                end_lem pre (last ∷ []) k (i + 1) (length pre + 0)
                  (omega (arith, length-append pre (last ∷ []))) (omega arith)))
        | inr no_p ↦
            rw (step_keeps pre x (copies k) i len ei no_p, no_p, e, ← behind-prepend pre x _)
              (rw (append-nil, append_assoc) at
                (end_lem (pre ++ x ∷ []) [] k (i + 1) len (rw append-nil ends)
                  (omega (arith, length-append pre (x ∷ [])))))
      ]
  loop_lem pre (x ∷ y ∷ ys) k i len (suc rounds) ei el er h = elim (Bool-cases (p x)) [
    | inl is_p ↦
        let some_deleted : ltb 0 (suc k) ≡ true = ground arith in
        let next =
          loop_lem (pre ++ y ∷ []) ys (suc k) (i + 1) (length pre + suc (length ys)) rounds
            (omega (arith, length-append pre (y ∷ []))) (omega (arith, length-append pre (y ∷ [])))
            (omega arith) (Ends-tail y ys h) in
        rw
          (
            step_deletes pre x (y ∷ ys ++ copies k) i len ei is_p,
            delete_at_lem pre x (y ∷ ys) (copies k) i len ei el h,
            is_p,
            ← behind-prepend pre y _,
          )
          (rw (append_assoc, some_deleted) at next)
    | inr no_p ↦
        let next =
          loop_lem (pre ++ x ∷ []) (y ∷ ys) k (i + 1) len rounds
            (omega (arith, length-append pre (x ∷ []))) (omega (arith, length-append pre (x ∷ [])))
            (omega arith) h in
        rw (step_keeps pre x (y ∷ ys ++ copies k) i len ei no_p, no_p, ← behind-prepend pre x _)
          (rw append_assoc at next)
  ]

  behind_nil : (m : Outcome (List A)) → behind [] m ≡ m
  behind_nil (returns xs) = refl
  behind_nil (panics e) = refl

module _ {ℓ} {A : Type ℓ} (p : A → Bool) where
  -- Over a list that ends with `last`, the whole loop panics or returns exactly as the scan from the
  -- left does, which skips the element behind each deleted one, and which panics where the last
  -- element is useless and another one has been deleted.
  pub delete_useless-scan :
      (xs : List A) (last : A) → Ends p last xs → delete_useless p xs ≡ scan p last false xs
  unfolding delete_useless
  delete_useless-scan xs last h =
      rw append-nil at
        (loop_lem p last [] xs 0 0 (length xs) (length xs) refl (omega arith) (omega arith) h)
      ∙ behind_nil p last (scan p last false xs)
