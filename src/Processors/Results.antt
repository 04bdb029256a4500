-- ===== src/Processors/Results.antt =====
-- `ProcessorResult` of internal/processors/interfaces.go, and how sharepoint.go and onedrive.go
-- fill it. The text of an error and the summary are parameters.
use sprawler.Common.{
  ℕ, ◌+◌, ◌≡◌, ◌↔◌, String, Bool, true, Option, none, some, List, [], ◌∷◌, ltb, if◌then◌else◌,
  length, arith,
}
use sprawler.Model.{SpSiteOutcome, OdSiteOutcome}
use sprawler.Processors.SharePoint.{State}
use sprawler.Processors.OneDrive.{
  OneDrive, Texts, Visit, process_sites, nothing_done, process_sites-accounts,
}

pub record ProcessorResult : Type 0 where
  pub processor_name : String
  pub records_extracted : ℕ
  pub records_failed : ℕ
  pub duration : ℕ
  pub sp_outcomes : List SpSiteOutcome
  pub od_outcomes : List OdSiteOutcome
  pub success : Bool
  pub error : Option String
  pub summary : String

module _ (failures_text : String → ℕ → String) (duration : ℕ) (summary : String) where
  -- `collectResults` of the SharePoint processor.
  unfoldable pub collect_sp_results : State → ProcessorResult
  collect_sp_results s = record {
    processor_name = "SharePoint";
    records_extracted = s.counters.succeeded;
    records_failed = s.counters.failed;
    duration = duration;
    sp_outcomes = s.collector.sp_outcomes;
    od_outcomes = [];
    success = true;
    error =
        if ltb 0 s.counters.failed
        then some (failures_text "SharePoint" s.counters.failed)
        else none;
    summary = summary;
  }

  -- `collectResults` of the OneDrive processor.
  unfoldable pub collect_od_results : OneDrive → ProcessorResult
  collect_od_results d = record {
    processor_name = "OneDrive";
    records_extracted = d.counters.succeeded;
    records_failed = d.counters.failed;
    duration = duration;
    sp_outcomes = [];
    od_outcomes = d.collector.od_outcomes;
    success = true;
    error =
        if ltb 0 d.counters.failed then some (failures_text "OneDrive" d.counters.failed) else none;
    summary = summary;
  }

  -- The result of a OneDrive run over sites accounts for each of them, as extracted or as failed; it
  -- carries one outcome for each failed site, and an error exactly when it carries an outcome.
  pub collect_od_results_complete :
      (x : Texts) (vs : List Visit)
      → (let r = collect_od_results (process_sites x vs nothing_done) in
          (r.records_extracted + r.records_failed ≡ length vs)
          × (length r.od_outcomes ≡ r.records_failed)
          × (r.error ≡ none ↔ r.od_outcomes ≡ []))
  unfolding collect_od_results
  collect_od_results_complete x vs =
      let e = process_sites x vs nothing_done in
      let (accounts, sites, done) = process_sites-accounts x vs in
      (
        omega (arith, accounts.0, done),
        accounts.1,
        no_error e.collector.od_outcomes e.counters.failed accounts.1,
      )
    where
      no_error :
          (os : List OdSiteOutcome) (n : ℕ)
          → length os ≡ n
          → (if ltb 0 n then some (failures_text "OneDrive" n) else none) ≡ none ↔ os ≡ []
      no_error [] n h = ground arith
      no_error (o ∷ os) n h = ground arith
