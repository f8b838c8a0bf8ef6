-- ===== src/Scheduler/Registration.antt =====
-- What `Register` of internal/scheduler/scheduler.go leaves in the registry.
use golang_clean_architectur.Common.{
  ◌≤◌, ◌≡◌, refl, ◌∙◌, ap, Bool, false, some, String, List, [], ◌∷◌, arith, str_eq, str_eq_iff, any,
  count_where, inl, inr, Option-cases,
}
use golang_clean_architectur.Errors.{ok, Result-cases}
use golang_clean_architectur.Scheduler.{
  Calendar, Definition, Scheduled, Registry, insert_by_name, register, location_of,
}

-- No name stands twice.
abbrev pub IsDistinct : List Scheduled → Type 0
IsDistinct xs = (name : String) → count_where (λ x. str_eq x.name name) xs ≤ 1

insert-count :
    (p : Scheduled → Bool) (d : Scheduled) (xs : List Scheduled)
    → count_where p (insert_by_name d xs) ≡ count_where p (d ∷ xs)
unfolding insert_by_name
insert-count p d [] = refl
insert-count p d (x ∷ xs) = ground (arith, insert-count p d xs)

unknown-none :
    (name : String) (xs : List Scheduled)
    → any (λ x. str_eq x.name name) xs ≡ false
    → count_where (λ x. str_eq x.name name) xs ≡ 0
unknown-none name [] h = refl
unknown-none name (x ∷ xs) h = ground (arith, unknown-none name xs)

-- What a registration added.
pub record Added (calendar : Calendar) (registry : Registry) (d : Definition) (registry' : Registry)
    : Type 0 where
  pub added : Scheduled
  pub named : added.name ≡ d.name
  pub makes : d.job ≡ some added.job
  pub options : added.dispatch_options ≡ d.dispatch_options
  pub located : location_of calendar registry.default_location d.timezone ≡ ok added.timezone
  pub parsed : calendar.parse d.cron added.timezone ≡ ok added.schedule
  pub unknown : any (λ x. str_eq x.name d.name) registry.definitions ≡ false
  pub rows : registry' ≡ record registry { definitions = insert_by_name added registry.definitions }

module _ (calendar : Calendar) (registry : Registry) (d : Definition) (registry' : Registry) where
  pub register-Added :
      register calendar registry d ≡ ok registry' → Added calendar registry d registry'
  unfolding register
  register-Added e = elim (Option-cases d.job) [
    | inl missing ↦ absurd (ground arith)
    | inr (job, given) ↦
        elim (Result-cases (location_of calendar registry.default_location d.timezone)) [
          | inr (x, h) ↦ absurd (ground arith)
          | inl (location, located) ↦ elim (Result-cases (calendar.parse d.cron location)) [
            | inr (x, h) ↦ absurd (ground arith)
            | inl (schedule, parsed) ↦ record {
              added = record {
                name = d.name;
                cron = d.cron;
                timezone = location;
                job = job;
                dispatch_options = d.dispatch_options;
                schedule = schedule;
              };
              named = refl;
              makes = given;
              options = refl;
              located = located;
              parsed = parsed;
              unknown = ground arith;
              rows = ground arith;
            }
          ]
        ]
  ]

  -- A registration that succeeds adds exactly the schedule that was given, with the location and the
  -- parsed expression, under a name that was not there, wherever its name sorts it; names that were
  -- distinct stay distinct.
  pub register-adds :
      register calendar registry d ≡ ok registry'
      → IsDistinct registry.definitions
      → (a : Added calendar registry d registry') × ((p : Scheduled → Bool)
          → count_where p registry'.definitions ≡ count_where p (a.added ∷ registry.definitions))
        × IsDistinct registry'.definitions
  register-adds e distinct =
      let a = register-Added e in
      let counts : (p : Scheduled → Bool)
          → count_where p registry'.definitions ≡ count_where p (a.added ∷ registry.definitions) =
        λ p.
          ap (λ (r : Registry). count_where p r.definitions) a.rows
          ∙ insert-count p a.added registry.definitions in
      (
        a,
        counts,
        λ name. ground (
          arith,
          counts (λ x. str_eq x.name name),
          distinct name,
          a.unknown,
          a.named,
          unknown-none name registry.definitions,
          str_eq_iff a.added.name name,
          str_eq_iff d.name name,
        ),
      )
