-- ===== src/Automations/Due/Laws.antt =====
-- Which automations are due.
use autom.Prelude.{
  String, ◌≡◌, refl, subst, ◌∙◌, ap, none, some, arith, Bool, true, false, ◌&&◌, List, [], ◌∷◌,
  ◌++◌, ltb, get_or, keep, All, Bool-cases, inl, inr, if◌then◌else◌,
}
use autom.Prelude.Every.{keep-same}
use autom.Prelude.Result.{Exception, Result, ok, err, >>=-eq-ok, ◌>>=◌}
use autom.Billing.{Time}
use autom.Automations.{success, failure, in_progress, never_run, Automation, Db}
use autom.Automations.Due.{is_candidate, select_due, get_due_recurring_automations}

select_due-keep :
    (previous : String → Time → Time) (now : Time) (rows : List Automation)
    → select_due (λ schedule time. ok (previous schedule time)) now (keep is_candidate rows)
      ≡ ok (
          keep
            (λ a.
              is_candidate a
              && ltb (get_or a.last_run_at 0) (previous (get_or a.cron_schedule "") now))
            rows)
unfolding select_due
select_due-keep previous now [] = refl
select_due-keep previous now (a ∷ rows) = elim (Bool-cases (is_candidate a)) [
  | inl candidate ↦ rw candidate (
      rw (select_due-keep previous now rows)
        (elim (Bool-cases
          (ltb (get_or a.last_run_at 0) (previous (get_or a.cron_schedule "") now))) [
            | inl later ↦ rw later refl
            | inr earlier ↦ rw earlier refl
          ]))
  | inr other ↦ rw other (select_due-keep previous now rows)
]

-- When an automation is due, `previous` giving the last time of a schedule before now. The base of
-- one that never ran is 1970.
abbrev pub is_due : (String → Time → Time) → Time → Automation → Bool
is_due previous now a = elim a.cron_schedule [
  | none ↦ false
  | some schedule ↦
      a.active
      && a.is_recurring
      && (elim a.last_run_status [
        | success ↦ true
        | failure ↦ true
        | in_progress ↦ false
        | never_run ↦ true
      ])
      && ltb (get_or a.last_run_at 0) (previous schedule now)
]

is_due-is_candidate :
    (previous : String → Time → Time) (now : Time) (a : Automation)
    → (is_candidate a && ltb (get_or a.last_run_at 0) (previous (get_or a.cron_schedule "") now))
      ≡ is_due previous now a
is_due-is_candidate previous now a = ground arith

-- With a croniter that answers, the automations that are due are, in the order of the rows, those
-- that are active, recurring, not in progress and with a schedule, whose last scheduled time lies
-- after their last run (after 1970 if there was none).
pub get_due-keep :
    (previous : String → Time → Time) (now : Time) (db : Db)
    → get_due_recurring_automations (λ schedule time. ok (previous schedule time)) now db
      ≡ ok (keep (is_due previous now) db.automations)
unfolding get_due_recurring_automations
get_due-keep previous now db =
    select_due-keep previous now db.automations
    ∙ ap ok (keep-same (is_due-is_candidate previous now) db.automations)

-- An error in the rest of the loop is an error of the loop.
first_error :
    (get_prev : String → Time → Result Time) (now : Time) (x : Automation) (rest : List Automation)
    (e : Exception)
    → select_due get_prev now rest ≡ err e
    → (e' : Exception) × (select_due get_prev now (x ∷ rest) ≡ err e')
unfolding select_due
first_error get_prev now x rest e h = go (get_prev (get_or x.cron_schedule "") now) refl
  where
    go :
        (r : Result Time)
        → get_prev (get_or x.cron_schedule "") now ≡ r
        → (e' : Exception) × (select_due get_prev now (x ∷ rest) ≡ err e')
    go (ok t) q = (e, rw q (rw h refl))
    go (err e'') q = (e'', rw q refl)

select_due-err :
    (get_prev : String → Time → Result Time) (now : Time) (xs ys : List Automation) (a : Automation)
    (e : Exception)
    → is_candidate a ≡ true
    → get_prev (get_or a.cron_schedule "") now ≡ err e
    → (e' : Exception) × (select_due get_prev now (keep is_candidate (xs ++ (a ∷ ys))) ≡ err e')
unfolding select_due
select_due-err get_prev now [] ys a e c bad = (e, rw c (rw bad refl))
select_due-err get_prev now (x ∷ xs) ys a e c bad =
    let (e', later) = select_due-err get_prev now xs ys a e c bad in
    elim (Bool-cases (is_candidate x)) [
      | inl candidate ↦
          rw candidate (first_error get_prev now x (keep is_candidate (xs ++ (a ∷ ys))) e' later)
      | inr other ↦ rw other (e', later)
    ]

-- What holds of every candidate holds of every automation that is due.
module _ (P : Automation → Type 0) (get_prev : String → Time → Result Time) (now : Time) where
  All-if :
      (b : Bool) (a : Automation) (due : List Automation)
      → P a
      → All P due
      → All P (if b then a ∷ due else due)
  All-if true a due p h = (p, h)
  All-if false a due p h = h

  All-select_due :
      (rows due : List Automation) → All P rows → select_due get_prev now rows ≡ ok due → All P due
  unfolding select_due
  All-select_due [] due h e = let q : [] ≡ due = cc e in subst (All P) q tt
  All-select_due (a ∷ rows) due (p, h) e =
      let test = λ (t : Time). ltb (get_or a.last_run_at 0) t in
      let (t, prev, rest) =
        >>=-eq-ok (get_prev (get_or a.cron_schedule "") now)
          (λ t. select_due get_prev now rows >>= λ ds. ok (if test t then a ∷ ds else ds)) e in
      let (ds, later, built) =
        >>=-eq-ok (select_due get_prev now rows) (λ ds. ok (if test t then a ∷ ds else ds)) rest in
      let q : (if test t then a ∷ ds else ds) ≡ due = cc built in
      subst (All P) q (All-if (test t) a ds p (All-select_due rows ds h later))

  pub All-get_due :
      (db : Db) (due : List Automation)
      → All P (keep is_candidate db.automations)
      → get_due_recurring_automations get_prev now db ≡ ok due
      → All P due
  unfolding get_due_recurring_automations
  All-get_due db due h e = All-select_due (keep is_candidate db.automations) due h e

pub get_due-err :
    (get_prev : String → Time → Result Time) (now : Time) (db : Db) (xs ys : List Automation)
    (a : Automation) (e : Exception)
    → db.automations ≡ xs ++ (a ∷ ys)
    → is_candidate a ≡ true
    → get_prev (get_or a.cron_schedule "") now ≡ err e
    → (e' : Exception) × (get_due_recurring_automations get_prev now db ≡ err e')
unfolding get_due_recurring_automations
get_due-err get_prev now db xs ys a e rows c bad =
    rw rows (select_due-err get_prev now xs ys a e c bad)
