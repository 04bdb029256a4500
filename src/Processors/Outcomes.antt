-- ===== src/Processors/Outcomes.antt =====
-- internal/processors/outcome_collector.go: the recorded outcomes and their summary.
use sprawler.Common.{
  ℕ, ◌+◌, ◌≡◌, String, Option, none, some, List, [], ◌∷◌, ◌++◌, ltb, if◌then◌else◌, arith, total,
}
use Prim.Native.String.{◌++◌ as ◌&◌}
use sprawler.Common.Dict.{Dict, add_at, sum_values, sum_values-add_at}
use sprawler.Model.{
  ErrorCategory, throttle, auth, timeout, server_error, network, unknown, OperationFailure,
  SpSiteOutcome, OdSiteOutcome,
}

pub record OutcomeCollector : Type 0 where
  pub sp_outcomes : List SpSiteOutcome
  pub od_outcomes : List OdSiteOutcome

abbrev pub empty : OutcomeCollector
empty = record { sp_outcomes = []; od_outcomes = [] }

unfoldable pub record_sp_outcome : SpSiteOutcome → OutcomeCollector → OutcomeCollector
record_sp_outcome o c = record c { sp_outcomes = c.sp_outcomes ++ o ∷ [] }

unfoldable pub record_od_outcome : OdSiteOutcome → OutcomeCollector → OutcomeCollector
record_od_outcome o c = record c { od_outcomes = c.od_outcomes ++ o ∷ [] }

unfoldable pub category_name : ErrorCategory → String
category_name throttle = "throttle"
category_name auth = "auth"
category_name timeout = "timeout"
category_name server_error = "server_error"
category_name network = "network"
category_name unknown = "unknown"

-- `summary[operation + category]++` unless the failure is nil.
unfoldable pub count_failure : String → Option OperationFailure → Dict ℕ → Dict ℕ
unfolding category_name
count_failure operation none d = d
count_failure operation (some f) d = add_at (operation & category_name f.category) 1 d

unfoldable pub count_errors : String → ℕ → Dict ℕ → Dict ℕ
count_errors key n d = if ltb 0 n then add_at key n d else d

unfoldable pub summarise_sp : List SpSiteOutcome → Dict ℕ → Dict ℕ
unfolding count_failure count_errors
summarise_sp [] d = d
summarise_sp (o ∷ os) d = summarise_sp os (
    count_errors "members/timeout" o.member_timeout_errors (
      count_errors "members/error" o.member_errors
        (count_failure "groups/" o.groups_failure (count_failure "users/" o.users_failure d))))

unfoldable pub summarise_od : List OdSiteOutcome → Dict ℕ → Dict ℕ
unfolding count_failure
summarise_od [] d = d
summarise_od (o ∷ os) d =
    summarise_od os
      (count_failure "profile/" o.profile_failure (count_failure "users/" o.users_failure d))

unfoldable pub failure_summary : OutcomeCollector → Dict ℕ
unfolding summarise_sp summarise_od
failure_summary c = summarise_od c.od_outcomes (summarise_sp c.sp_outcomes [])

-- One for a failure, none for its absence.
abbrev pub failures : Option OperationFailure → ℕ
failures none = 0
failures (some f) = 1

abbrev pub sp_failures : SpSiteOutcome → ℕ
sp_failures o =
    failures o.users_failure + failures o.groups_failure + o.member_errors + o.member_timeout_errors

abbrev pub od_failures : OdSiteOutcome → ℕ
od_failures o = failures o.users_failure + failures o.profile_failure

sum_values-count_failure :
    (k : String) (f : Option OperationFailure) (d : Dict ℕ)
    → sum_values (count_failure k f d) ≡ sum_values d + failures f
unfolding count_failure
sum_values-count_failure k none d = omega arith
sum_values-count_failure k (some f) d = sum_values-add_at (k & category_name f.category) 1 d

sum_values-count_errors :
    (k : String) (n : ℕ) (d : Dict ℕ) → sum_values (count_errors k n d) ≡ sum_values d + n
unfolding count_errors
sum_values-count_errors k n d = ground (arith, sum_values-add_at k n d)

sum_values-summarise_sp :
    (os : List SpSiteOutcome) (d : Dict ℕ)
    → sum_values (summarise_sp os d) ≡ sum_values d + total sp_failures os
unfolding summarise_sp
sum_values-summarise_sp [] d = omega arith
sum_values-summarise_sp (o ∷ os) d =
    let d1 = count_failure "users/" o.users_failure d in
    let d2 = count_failure "groups/" o.groups_failure d1 in
    let d3 = count_errors "members/error" o.member_errors d2 in
    let d4 = count_errors "members/timeout" o.member_timeout_errors d3 in
    omega (
      arith,
      sum_values-count_failure "users/" o.users_failure d,
      sum_values-count_failure "groups/" o.groups_failure d1,
      sum_values-count_errors "members/error" o.member_errors d2,
      sum_values-count_errors "members/timeout" o.member_timeout_errors d3,
      sum_values-summarise_sp os d4,
    )

sum_values-summarise_od :
    (os : List OdSiteOutcome) (d : Dict ℕ)
    → sum_values (summarise_od os d) ≡ sum_values d + total od_failures os
unfolding summarise_od
sum_values-summarise_od [] d = omega arith
sum_values-summarise_od (o ∷ os) d =
    let d1 = count_failure "users/" o.users_failure d in
    let d2 = count_failure "profile/" o.profile_failure d1 in
    omega (
      arith,
      sum_values-count_failure "users/" o.users_failure d,
      sum_values-count_failure "profile/" o.profile_failure d1,
      sum_values-summarise_od os d2,
    )

-- The values of the summary add up to the failures that the recorded outcomes carry: one for each
-- failed operation of a site, and the counts of member fetches that failed or timed out. None is
-- lost or counted twice, whatever keys the failures fall under.
pub failure_summary-total :
    (c : OutcomeCollector)
    → sum_values (failure_summary c)
      ≡ total sp_failures c.sp_outcomes + total od_failures c.od_outcomes
unfolding failure_summary
failure_summary-total c = omega (
  arith,
  sum_values-summarise_sp c.sp_outcomes [],
  sum_values-summarise_od c.od_outcomes (summarise_sp c.sp_outcomes []),
)
