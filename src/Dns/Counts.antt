-- ===== src/Dns/Counts.antt =====
-- What the report of scripts/apply-hetzner-dns-plan.py promises: counters that agree with the
-- actions, and one action for each record of the plan.
use rfc_codex_gentoo_stage.Prelude.{
  ℕ, ◌+◌, Bool, Option, none, some, ap, List, [], ◌∷◌, ◌++◌, map, ◌≡◌, refl, arith, if◌then◌else◌,
  nat_eq,
}
use rfc_codex_gentoo_stage.Value.{Value, Fields, as_dict, iterate, get_or, list, nil}
use rfc_codex_gentoo_stage.Dns.Provider.{Web}
use rfc_codex_gentoo_stage.Dns.Apply.{
  Outcome, deleted, updated, created, planned_delete, planned_update, planned_create, unchanged,
  error, Counter, count_planned, count_created, count_updated, count_deleted, count_unchanged,
  count_errors, Verdict, Summary, count, Target, Report, add_action, read_target,
}

-- The counter for a result: a change that is not made counts as planned, whatever its result says.
abbrev pub counter_of : Bool → Outcome → Counter
counter_of live deleted = if live then count_deleted else count_planned
counter_of live updated = if live then count_updated else count_planned
counter_of live created = if live then count_created else count_planned
counter_of live planned_delete = count_planned
counter_of live planned_update = count_planned
counter_of live planned_create = count_planned
counter_of live unchanged = count_unchanged
counter_of live error = count_errors

unfoldable pub value_of : Counter → Summary → ℕ
value_of count_planned s = s.planned
value_of count_created s = s.created
value_of count_updated s = s.updated
value_of count_deleted s = s.deleted
value_of count_unchanged s = s.unchanged
value_of count_errors s = s.errors

unfoldable pub number_of : Counter → ℕ
number_of count_planned = 0
number_of count_created = 1
number_of count_updated = 2
number_of count_deleted = 3
number_of count_unchanged = 4
number_of count_errors = 5

unfoldable pub one_if : Counter → Counter → ℕ
unfolding number_of
one_if c d = if nat_eq (number_of c) (number_of d) then 1 else 0

value_of-count : (c d : Counter) (s : Summary) → value_of c (count d s) ≡ value_of c s + one_if c d
unfolding value_of count one_if
value_of-count c d s = ground arith

-- how many actions a counter stands for
unfoldable pub tally : Bool → Counter → List (Target × Verdict) → ℕ
unfolding one_if
tally live c [] = 0
tally live c ((_, verdict) ∷ actions) =
    one_if c (counter_of live verdict.outcome) + tally live c actions

tally-append :
    (live : Bool) (c : Counter) (actions : List (Target × Verdict)) (target : Target)
    (verdict : Verdict)
    → tally live c (actions ++ ((target, verdict) ∷ []))
      ≡ tally live c actions + one_if c (counter_of live verdict.outcome)
unfolding tally
tally-append live c [] target verdict = omega arith
tally-append live c ((_, v) ∷ actions) target verdict =
    omega (arith, tally-append live c actions target verdict)

-- The counter of the verdict is the one that stands for its result.
abbrev pub IsHonest : Bool → Verdict → Type 0
IsHonest live verdict = verdict.counter ≡ counter_of live verdict.outcome

-- Every counter is the number of the actions that it stands for.
abbrev pub IsCounted : Bool → Report → Type 0
IsCounted live report = (c : Counter) → value_of c report.summary ≡ tally live c report.actions

pub add_action-IsCounted :
    (live : Bool) (target : Target) (verdict : Verdict) (report : Report)
    → IsHonest live verdict
    → IsCounted live report
    → IsCounted live (add_action target verdict report)
unfolding add_action
add_action-IsCounted live target verdict report honest counted c = rw (
  value_of-count c verdict.counter report.summary,
  tally-append live c report.actions target verdict,
  counted c,
  honest,
)

abbrev pub targets_of : List (Target × Verdict) → List Target
targets_of actions = map (λ a. a.0) actions

abbrev pub both : Option Target → Option (List Target) → Option (List Target)
both (some t) (some ts) = some (t ∷ ts)
both _ _ = none

-- The records of a plan as the code reads them: what is no mapping is left out.
unfoldable pub read_targets : Web → List Value → Option (List Target)
unfolding as_dict
read_targets web [] = some []
read_targets web (v ∷ vs) = elim (as_dict v) [
  | none ↦ read_targets web vs
  | some fields ↦ both (read_target web fields) (read_targets web vs)
]

pub targets-append :
    (actions : List (Target × Verdict)) (target : Target) (verdict : Verdict)
    → targets_of (actions ++ ((target, verdict) ∷ [])) ≡ targets_of actions ++ (target ∷ [])
targets-append [] target verdict = refl
targets-append (a ∷ actions) target verdict =
    ap (λ ts. a.0 ∷ ts) (targets-append actions target verdict)

module _ (web : Web) (v : Value) (vs : List Value) where
  pub read_targets-skip : as_dict v ≡ none → read_targets web (v ∷ vs) ≡ read_targets web vs
  unfolding read_targets
  read_targets-skip e = rw (read_targets, e)

  pub read_targets-read :
      (fields : Fields) (target : Target) (targets : List Target)
      → as_dict v ≡ some fields
      → read_target web fields ≡ some target
      → read_targets web vs ≡ some targets
      → read_targets web (v ∷ vs) ≡ some (target ∷ targets)
  unfolding read_targets
  read_targets-read fields target targets e t ts = rw (read_targets, e, t, ts)

-- The actions of the report are the ones of an earlier report and one for each of the records.
abbrev pub Answers : Web → List Value → Report → Report → Type 0
Answers web records report last =
    (targets : List Target) × (read_targets web records ≡ some targets)
    × (targets_of last.actions ≡ targets_of report.actions ++ targets)

-- The plan has a list of records, and the actions of the report are one for each of them.
abbrev pub IsAnswered : Web → Fields → Report → Type 0
IsAnswered web plan report =
    (records : List Value) × (iterate (get_or plan "records" (list nil)) ≡ some records)
    × (read_targets web records ≡ some (targets_of report.actions))
