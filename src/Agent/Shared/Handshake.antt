-- ===== src/Agent/Shared/Handshake.antt =====
-- The reporter and the actuator, which run at the same time and meet in the shared state: the end of a
-- Reconcile of the reporter, and the actuator's check of the channel, which it makes before it takes the
-- lock, and what it does then. OnReportDone is deferred, so it runs also where the report has failed.
use walkai_nos.Base.{◌≡◌, refl, Bool, true, false, ◌⊎◌, inl, inr}
use walkai_nos.Agent.Shared.{on_report_done, on_apply_done, at_least_one_report_since_last_apply}

-- `passed`: the actuator has passed the check and has not yet ended its Reconcile; `reported` and
-- `failed`: since the last plan was applied, the reporter has ended a Reconcile without an error, and
-- with one. No code reads the last two.
pub record Shared : Type 0 where
  pub reports : Bool
  pub passed : Bool
  pub reported : Bool
  pub failed : Bool

abbrev pub start : Shared
start = record { reports = false; passed = false; reported = false; failed = false }

pub data Step : Shared → Shared → Type 0 where
  -- The reporter ends a Reconcile without an error,
  report : (s : Shared) → Step s (record s { reports = on_report_done s.reports; reported = true })
  -- or with one.
  fail_report :
      (s : Shared) → Step s (record s { reports = on_report_done s.reports; failed = true })
  -- The actuator begins a Reconcile.
  check :
      (s : Shared)
      → s.passed ≡ false
      → Step s (record s {
        reports = (at_least_one_report_since_last_apply s.reports).1;
        passed = (at_least_one_report_since_last_apply s.reports).0;
      })
  -- It ends without an application,
  skip : (s : Shared) → s.passed ≡ true → Step s (record s { passed = false })
  -- or with one.
  apply :
      (s : Shared)
      → s.passed ≡ true
      → Step s (record {
        reports = on_apply_done s.reports;
        passed = false;
        reported = false;
        failed = false;
      })

pub data Reachable : Shared → Type 0 where
  at_start : Reachable start
  by_step : (s t : Shared) → Reachable s → Step s t → Reachable t

-- The reporter has ended a Reconcile.
abbrev pub HasEnded : Shared → Type 0
HasEnded s = (s.reported ≡ true) ⊎ (s.failed ≡ true)

record Inv (s : Shared) : Type 0 where
  token : s.reports ≡ true → HasEnded s
  passing : s.passed ≡ true → HasEnded s

step-Inv : (s t : Shared) → Inv s → Step s t → Inv t
step-Inv s _ h (report _) = record { token = λ _. inl refl; passing = λ _. inl refl }
step-Inv s _ h (fail_report _) = record { token = λ _. inr refl; passing = λ _. inr refl }
step-Inv s _ h (check _ n) = record { token = λ e. cc (e); passing = h.token }
step-Inv s _ h (skip _ p) = record { token = h.token; passing = λ e. cc (e) }
step-Inv s _ h (apply _ p) = record { token = λ e. cc (e); passing = λ e. cc (e) }

Reachable-Inv : (s : Shared) → Reachable s → Inv s
Reachable-Inv _ at_start = record { token = λ e. cc (e); passing = λ e. cc (e) }
Reachable-Inv _ (by_step s t r step) = step-Inv s t (Reachable-Inv s r) step

-- However the reporter and the actuator interleave, where the actuator has passed its check the
-- reporter has ended a Reconcile since the last plan was applied, without an error or with one.
pub passed-HasEnded : (s : Shared) → Reachable s → s.passed ≡ true → HasEnded s
passed-HasEnded s r p = (Reachable-Inv s r).passing p
