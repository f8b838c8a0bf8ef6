-- ===== src/Sql/Rows.antt =====
-- Laws of the list operations that stand for WHERE clauses: rows found by a key, and rows no two of
-- which are in conflict.
use golang_clean_architectur.Common.{
  ◌+◌, ◌≡◌, refl, Bool, true, false, some, List, [], ◌∷◌, ◌++◌, arith, any, count_where, find_where,
  update_where, delete_where, All, if◌then◌else◌, Bool-cases, inl, inr, ◌⊎◌, sym, ◌∙◌,
}
use mathlib.Core.Path.{subst}

module _ {A : Type 0} where
  pub any-of_count : (p : A → Bool) (xs : List A) → count_where p xs ≡ 0 → any p xs ≡ false
  any-of_count p [] h = refl
  any-of_count p (x ∷ xs) h = ground (arith, any-of_count p xs)

  pub All-of_any : (p : A → Bool) (xs : List A) → any p xs ≡ false → All (λ x. p x ≡ false) xs
  All-of_any p [] h = tt
  All-of_any p (x ∷ xs) h = elim (Bool-cases (p x)) [
    | inl e ↦ cc (rw e at h)
    | inr e ↦ (e, All-of_any p xs (rw e at h))
  ]

  pub any-of_All : (p : A → Bool) (xs : List A) → All (λ x. p x ≡ false) xs → any p xs ≡ false
  any-of_All p [] h = refl
  any-of_All p (x ∷ xs) h = rw (h.0) (any-of_All p xs h.1)

  pub All-trivial : (xs : List A) → All (λ x. Unit {0}) xs
  All-trivial [] = tt
  All-trivial (x ∷ xs) = (tt, All-trivial xs)

  pub All-map {κ μ} :
      (P : A → Type κ) (Q : A → Type μ) (xs : List A) → ((x : A) → P x → Q x) → All P xs → All Q xs
  All-map P Q [] f h = tt
  All-map P Q (x ∷ xs) f h = (f x h.0, All-map P Q xs f h.1)

  pub All-zip {κ μ} :
      (P : A → Type κ) (Q : A → Type μ) (xs : List A)
      → All P xs
      → All Q xs
      → All (λ x. P x × Q x) xs
  All-zip P Q [] h k = tt
  All-zip P Q (x ∷ xs) h k = ((h.0, k.0), All-zip P Q xs h.1 k.1)

  pub All-delete {κ} :
      (P : A → Type κ) (p : A → Bool) (xs : List A) → All P xs → All P (delete_where p xs)
  All-delete P p [] h = tt
  All-delete P p (x ∷ xs) h = elim (Bool-cases (p x)) [
    | inl e ↦ rw e (All-delete P p xs h.1)
    | inr e ↦ rw e (h.0, All-delete P p xs h.1)
  ]

  pub All-update {κ} :
      (P : A → Type κ) (p : A → Bool) (f : A → A) (xs : List A)
      → ((x : A) → p x ≡ true → P x → P (f x))
      → All P xs
      → All P (update_where p f xs)
  All-update P p f [] k h = tt
  All-update P p f (x ∷ xs) k h = elim (Bool-cases (p x)) [
    | inl e ↦ rw e (k x e h.0, All-update P p f xs k h.1)
    | inr e ↦ rw e (h.0, All-update P p f xs k h.1)
  ]

  find-cons :
      (p : A → Bool) (y x : A) (xs : List A)
      → find_where p (y ∷ xs) ≡ some x
      → ((p y ≡ true) × (y ≡ x)) ⊎ ((p y ≡ false) × (find_where p xs ≡ some x))
  find-cons p y x xs e = ground arith

  pub All-find {κ} :
      (P : A → Type κ) (p : A → Bool) (xs : List A) (x : A)
      → find_where p xs ≡ some x
      → All P xs
      → P x × (p x ≡ true)
  All-find P p [] x e h = cc
  All-find P p (y ∷ xs) x e h = elim (find-cons p y x xs e) [
    | inl (q, same) ↦ (subst P same h.0, cc)
    | inr (q, later) ↦ All-find P p xs x later h.1
  ]

  pub any-of_find :
      (p : A → Bool) (xs : List A) (x : A) → find_where p xs ≡ some x → any p xs ≡ true
  any-of_find p [] x e = cc
  any-of_find p (y ∷ xs) x e = ground (arith, any-of_find p xs x)

  -- The test fits one row at most, as an equation with a primary key does.
  abbrev pub AtMostOne : (A → Bool) → List A → Type 0
  AtMostOne p [] = Unit
  AtMostOne p (x ∷ xs) = (p x ≡ true → any p xs ≡ false) × AtMostOne p xs

  pub update-none :
      (p : A → Bool) (f : A → A) (xs : List A) → any p xs ≡ false → update_where p f xs ≡ xs
  update-none p f [] h = refl
  update-none p f (x ∷ xs) h = ground (arith, update-none p f xs)

  pub delete-none : (p : A → Bool) (xs : List A) → any p xs ≡ false → delete_where p xs ≡ xs
  delete-none p [] h = refl
  delete-none p (x ∷ xs) h = ground (arith, delete-none p xs)

  pub All-update_found {κ} :
      (P : A → Type κ) (p : A → Bool) (f : A → A) (xs : List A) (x : A)
      → find_where p xs ≡ some x
      → AtMostOne p xs
      → P (f x)
      → All P xs
      → All P (update_where p f xs)
  All-update_found P p f [] x e one k h = tt
  All-update_found P p f (y ∷ xs) x e one k h = elim (find-cons p y x xs e) [
    | inl (q, same) ↦ rw (q, update-none p f xs (one.0 q)) (subst (λ z. P (f z)) (sym same) k, h.1)
    | inr (q, later) ↦ rw q (h.0, All-update_found P p f xs x later one.1 k h.1)
  ]

  -- How an UPDATE of one row changes a count, and how its DELETE does.
  pub count-update :
      (p q : A → Bool) (f : A → A) (xs : List A) (x : A)
      → find_where p xs ≡ some x
      → AtMostOne p xs
      → count_where q (update_where p f xs) + (if q x then 1 else 0)
        ≡ count_where q xs + (if q (f x) then 1 else 0)
  count-update p q f [] x e one = cc
  count-update p q f (y ∷ xs) x e one = elim (find-cons p y x xs e) [
    | inl (r, same) ↦ rw (update-none p f xs (one.0 r)) (ground arith)
    | inr (r, later) ↦ ground (arith, count-update p q f xs x later one.1)
  ]

  pub count-delete :
      (p q : A → Bool) (xs : List A) (x : A)
      → find_where p xs ≡ some x
      → AtMostOne p xs
      → count_where q (delete_where p xs) + (if q x then 1 else 0) ≡ count_where q xs
  count-delete p q [] x e one = cc
  count-delete p q (y ∷ xs) x e one = elim (find-cons p y x xs e) [
    | inl (r, same) ↦ rw (delete-none p xs (one.0 r)) (ground arith)
    | inr (r, later) ↦ ground (arith, count-delete p q xs x later one.1)
  ]

  pub count-append :
      (q : A → Bool) (xs : List A) (x : A)
      → count_where q (xs ++ x ∷ []) ≡ count_where q xs + (if q x then 1 else 0)
  count-append q [] x = ground arith
  count-append q (y ∷ xs) x = ground (arith, count-append q xs x)

  pub All-append {κ} :
      (P : A → Type κ) (xs : List A) (x : A) → All P xs → P x → All P (xs ++ x ∷ [])
  All-append P [] x h k = (k, tt)
  All-append P (y ∷ xs) x h k = (h.0, All-append P xs x h.1 k)

-- No two rows clash.
module _ {A : Type 0} (clash : A → A → Bool) where
  abbrev pub Apart : List A → Type 0
  Apart [] = Unit
  Apart (x ∷ xs) = All (λ y. clash x y ≡ false) xs × Apart xs

  pub Apart-delete : (p : A → Bool) (xs : List A) → Apart xs → Apart (delete_where p xs)
  Apart-delete p [] h = tt
  Apart-delete p (x ∷ xs) h = elim (Bool-cases (p x)) [
    | inl e ↦ rw e (Apart-delete p xs h.1)
    | inr e ↦ rw e (All-delete (λ y. clash x y ≡ false) p xs h.0, Apart-delete p xs h.1)
  ]

  -- A test that two rows meet only if they clash fits one row at most.
  pub AtMostOne-of_Apart :
      (p : A → Bool)
      → ((x y : A) → p x ≡ true → p y ≡ true → clash x y ≡ true)
      → (xs : List A) → Apart xs
      → AtMostOne p xs
  AtMostOne-of_Apart p only [] h = tt
  AtMostOne-of_Apart p only (x ∷ xs) h = (
    λ e. any-of_All p xs (
        All-map (λ y. clash x y ≡ false) (λ y. p y ≡ false) xs (λ y c. ground (arith, only x y))
          h.0),
    AtMostOne-of_Apart p only xs h.1,
  )

module _ {A : Type 0} (clash : A → A → Bool) (symm : (x y : A) → clash x y ≡ clash y x) where
  pub Apart-append :
      (x : A) (xs : List A)
      → All (λ y. clash x y ≡ false) xs
      → Apart clash xs
      → Apart clash (xs ++ x ∷ [])
  Apart-append x [] h k = (tt, tt)
  Apart-append x (y ∷ xs) h k =
      (All-append (λ z. clash y z ≡ false) xs x k.0 (symm y x ∙ h.0), Apart-append x xs h.1 k.1)

  -- One row is rewritten, and the new one clashes with none of the others.
  pub Apart-update :
      (p : A → Bool) (f : A → A) (xs : List A) (x : A)
      → find_where p xs ≡ some x
      → AtMostOne p xs
      → All (λ y. p y ≡ false → clash (f x) y ≡ false) xs
      → Apart clash xs
      → Apart clash (update_where p f xs)
  Apart-update p f [] x e one k h = tt
  Apart-update p f (y ∷ xs) x e one k h = elim (find-cons p y x xs e) [
    | inl (q, same) ↦
        rw (q, update-none p f xs (one.0 q))
          (
            All-map (λ z. (p z ≡ false → clash (f x) z ≡ false) × (p z ≡ false))
                (λ z. clash (f y) z ≡ false) xs (λ z c. rw same (c.0 c.1))
                (All-zip _ _ xs k.1 (All-of_any p xs (one.0 q))),
            h.1,
          )
    | inr (q, later) ↦ rw q (
      All-update_found (λ z. clash y z ≡ false) p f xs x later one.1 (symm y (f x) ∙ k.0 q) h.0,
      Apart-update p f xs x later one.1 k.1 h.1,
    )
  ]

  -- The row that is found clashes with no other.
  pub Apart-others :
      (p : A → Bool) (xs : List A) (x : A)
      → find_where p xs ≡ some x
      → Apart clash xs
      → All (λ y. p y ≡ false → clash x y ≡ false) xs
  Apart-others p [] x e h = tt
  Apart-others p (y ∷ xs) x e h = elim (find-cons p y x xs e) [
    | inl (q, same) ↦ (λ n. cc, All-map (λ z. clash y z ≡ false) _ xs (λ z c n. rw (← same) c) h.0)
    | inr (q, later) ↦ (
      λ n. symm x y ∙ (All-find (λ z. clash y z ≡ false) p xs x later h.0).0,
      Apart-others p xs x later h.1,
    )
  ]

  -- A rewriting that no clash notices.
  pub Apart-update_same :
      (p : A → Bool) (f : A → A) (xs : List A)
      → ((x y : A) → clash (f x) y ≡ clash x y)
      → Apart clash xs
      → Apart clash (update_where p f xs)
  Apart-update_same p f [] same h = tt
  Apart-update_same p f (x ∷ xs) same h =
      let rest =
        All-update (λ y. clash x y ≡ false) p f xs (λ y e c. symm x (f y) ∙ same y x ∙ symm y x ∙ c)
          h.0 in
      elim (Bool-cases (p x)) [
        | inl e ↦ rw e (
          All-map (λ y. clash x y ≡ false) (λ y. clash (f x) y ≡ false) _ (λ y c. same x y ∙ c)
              rest,
          Apart-update_same p f xs same h.1,
        )
        | inr e ↦ rw e (rest, Apart-update_same p f xs same h.1)
      ]
