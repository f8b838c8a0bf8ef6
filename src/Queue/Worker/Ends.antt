-- ===== src/Queue/Worker/Ends.antt =====
-- The tries that the rows have left (internal/adapter/queue/database.go and database_reservation.go):
-- a failure that is written uses up one.
use golang_clean_architectur.Common.{
  ℕ, suc, ◌+◌, ◌-◌, ◌≤◌, ◌≡◌, refl, sym, ap, Bool, true, false, ◌||◌, String, List, [], ◌∷◌, arith,
  str_eq, str_eq_refl, str_eq_symm, any, update_where, All, if◌then◌else◌, Bool-cases, inl, inr,
}
use mathlib.Core.Path.{subst}
use golang_clean_architectur.Errors.{Error}
use golang_clean_architectur.Sql.Rows.{All-map, All-zip, Apart, Apart-update_same}
use golang_clean_architectur.Queue.{DatabaseJob, status_eq, failed, completed}
use golang_clean_architectur.Queue.Worker.{lease, is_held, failure}

-- The tries that a row has left, and those of all rows.
abbrev pub remaining : DatabaseJob → ℕ
remaining r =
    if status_eq r.status failed || status_eq r.status completed
    then 0
    else suc (r.max_retry - r.attempts)

abbrev pub tries_left : List DatabaseJob → ℕ
tries_left [] = 0
tries_left (r ∷ rows) = remaining r + tries_left rows

-- The primary key: no two rows have one identifier.
abbrev pub same_id : DatabaseJob → DatabaseJob → Bool
same_id x y = str_eq x.id y.id

abbrev pub IsKeyed : List DatabaseJob → Type 0
IsKeyed = Apart same_id

-- A row that has the identifier is the row.
abbrev pub Only : List DatabaseJob → DatabaseJob → Type 0
Only rows y = All (λ x. same_id x y ≡ true → x ≡ y) rows

pub IsKeyed-Only : (rows : List DatabaseJob) → IsKeyed rows → All (Only rows) rows
IsKeyed-Only [] k = tt
IsKeyed-Only (r ∷ rows) (fresh, k) = (
  (
    λ e. refl,
    All-map (λ x. same_id r x ≡ false) (λ x. same_id x r ≡ true → x ≡ r) rows
        (λ x no e. absurd (ground (arith, str_eq_symm r.id x.id))) fresh,
  ),
  All-map (λ y. (same_id r y ≡ false) × Only rows y) (Only (r ∷ rows)) rows
      (λ y both. (λ e. absurd (ground (arith, both.0)), both.1))
      (All-zip (λ y. same_id r y ≡ false) (Only rows) rows fresh (IsKeyed-Only rows k)),
)

pub IsKeyed-update :
    (p : DatabaseJob → Bool) (f : DatabaseJob → DatabaseJob) (rows : List DatabaseJob)
    → ((r : DatabaseJob) → (f r).id ≡ r.id)
    → IsKeyed rows
    → IsKeyed (update_where p f rows)
IsKeyed-update p f rows keeps k =
    Apart-update_same same_id (λ x y. str_eq_symm x.id y.id) p f rows
      (λ x y. ap (λ i. str_eq i y.id) (keeps x)) k

module _ (token : String) (until now : ℕ) (e : Error) (text : Error → String)
    (row : DatabaseJob) where
  abbrev pub taken : List DatabaseJob → List DatabaseJob
  taken rows = update_where (λ r. str_eq r.id row.id) (lease token until) rows

  abbrev pub ended : List DatabaseJob → List DatabaseJob
  ended rows =
      update_where (is_held (lease token until row)) (failure (lease token until row) e text now)
        rows

  -- A try of a row that can be tried uses up one of its tries.
  used :
      (status_eq row.status failed || status_eq row.status completed ≡ false)
      → suc (remaining (failure (lease token until row) e text now (lease token until row)))
        ≤ remaining row
  unfolding failure
  used h = ground arith

  no_more : remaining (lease token until row) ≤ suc (row.max_retry - row.attempts)
  no_more = ground arith

  -- The same over rows of which one has the identifier.
  tries_left-others :
      (rows : List DatabaseJob)
      → All (λ x. same_id row x ≡ false) rows
      → (tries_left (ended (taken rows)) ≡ tries_left rows)
        × (tries_left (taken rows) ≡ tries_left rows)
  tries_left-others [] h = (refl, refl)
  tries_left-others (x ∷ rows) h =
      ground (arith, tries_left-others rows h.1, str_eq_symm row.id x.id, h.0)

  tries_left-own :
      (rows : List DatabaseJob)
      → All (λ x. same_id row x ≡ false) rows
      → (status_eq row.status failed || status_eq row.status completed ≡ false)
      → (suc (tries_left (ended (taken (row ∷ rows)))) ≤ tries_left (row ∷ rows))
        × (tries_left (taken (row ∷ rows)) ≤ tries_left (row ∷ rows))
  tries_left-own rows h going =
      let (late, early) = tries_left-others rows h in
      ground (arith, late, early, used going, str_eq_refl row.id, str_eq_refl token)

  pub tries_left-ended :
      (rows : List DatabaseJob)
      → IsKeyed rows
      → Only rows row
      → any (λ x. str_eq x.id row.id) rows ≡ true
      → (status_eq row.status failed || status_eq row.status completed ≡ false)
      → (suc (tries_left (ended (taken rows))) ≤ tries_left rows)
        × (tries_left (taken rows) ≤ tries_left rows)
  tries_left-ended [] k only has going = ground arith
  tries_left-ended (x ∷ rows) k only has going = elim (Bool-cases (same_id x row)) [
    | inl e ↦
        let same : row ≡ x = sym (only.0 e) in
        subst
          (λ y.
            (suc (tries_left (ended (taken (y ∷ rows)))) ≤ tries_left (y ∷ rows))
            × (tries_left (taken (y ∷ rows)) ≤ tries_left (y ∷ rows)))
          same
          (tries_left-own rows (subst (λ y. All (λ z. same_id y z ≡ false) rows) (sym same) k.0)
            going)
    | inr e ↦ ground (arith, tries_left-ended rows k.1 only.1 (ground arith) going)
  ]
