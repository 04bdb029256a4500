-- ===== src/Processors/Setup.antt =====
-- What `Process` of sharepoint.go and onedrive.go sets up around the workers: the health check, the
-- number of sites that is expected, the throttle scaler, the streams into the storage, the progress
-- that is reported, and the saving of the outcomes. Channels and goroutines are those of Pipeline.
use sprawler.Common.{
  ℕ, zero, suc, ◌*◌, ◌^◌, String, Option, none, some, List, [], ◌∷◌, if◌then◌else◌,
}
use sprawler.Common.Int.{ℤ, pos, negsuc, pos_part, sub_ℕ, ltb_ℤ, ◌+ℤ◌, residue, int64}
use sprawler.Config.Defs.{Config, SharePointConfig, OneDriveConfig}
use sprawler.Errors.{GoError, message, wrapped}
use sprawler.Model.{SpSiteOutcome, OdSiteOutcome}
use sprawler.Throttle.{BackpressureSignal, scale_halve, ThrottleScaler, new_throttle_scaler}
use sprawler.Progress.Defs.{SiteProgressSnapshot, ScalerSnapshot}
use sprawler.Processors.SharePoint.{Counters}
use sprawler.Processors.OneDrive.{OneDriveCounters}
use sprawler.Processors.Results.{ProcessorResult}
use sprawler.Storage.Files.{OutcomeDb, save_site_outcomes, save_one_drive_outcomes}

-- `Health` of both processors: whether there is a client, and what the two checks answer.
unfoldable pub health : Option (Option GoError) → Option GoError → Option GoError
health none storage = some (message "API client not initialized")
health (some (some e)) storage = some (wrapped "API client health check failed" e)
health (some none) (some e) = some (wrapped "storage health check failed" e)
health (some none) none = none

-- The limit for debugging replaces what is expected if that is 0 or larger.
unfoldable pub capped : ℤ → ℤ → ℤ
capped (pos zero) cap = cap
capped (pos (suc n)) cap = if ltb_ℤ cap (pos (suc n)) then cap else pos (suc n)
capped (negsuc n) cap = if ltb_ℤ cap (negsuc n) then cap else negsuc n

-- The pages and their size are multiplied as int64 values.
unfoldable pub sp_total_expected : Config → ℤ
unfolding capped int64
sp_total_expected cfg =
    if ltb_ℤ (pos 0) cfg.debug.max_pages
    then capped cfg.share_point.expected_sites
        (int64 (residue cfg.debug.max_pages * residue cfg.share_point.page_size))
    else cfg.share_point.expected_sites

unfoldable pub od_total_expected : Config → ℤ
unfolding capped
od_total_expected cfg =
    if ltb_ℤ (pos 0) cfg.debug.max_one_drive_sites
    then capped cfg.one_drive.expected_sites cfg.debug.max_one_drive_sites
    else cfg.one_drive.expected_sites

-- A count below one is handled by the scaler as one is.
unfoldable pub sp_workers : SharePointConfig → ℕ
unfolding ◌+ℤ◌
sp_workers c =
    pos_part (if c.process_groups then c.user_workers +ℤ c.group_workers else c.user_workers)

-- The counts of the client by the instant of a reading; a cooldown below zero is as one of zero.
unfoldable pub signals_of : (ℕ → ℕ) → (ℕ → ℕ) → ℤ → List BackpressureSignal
signals_of throttling_count network_error_count cooldown =
    record {
      name = "throttle";
      get_count = throttling_count;
      action = scale_halve;
      cooldown_period = pos_part cooldown;
    }
    ∷ record {
      name = "connreset";
      get_count = network_error_count;
      action = scale_halve;
      cooldown_period = pos_part cooldown;
    }
    ∷ []

-- The monitor's interval: ten seconds unless the configuration has a positive one.
unfoldable pub check_interval : ℤ → ℤ
check_interval configured = if ltb_ℤ (pos 0) configured then configured else pos (10 * 10 ^ 9)

module _ (throttling_count network_error_count : ℕ → ℕ) where
  unfoldable pub sp_throttle_scaler : ℕ → SharePointConfig → ThrottleScaler
  unfolding sp_workers signals_of
  sp_throttle_scaler now c =
      new_throttle_scaler now (sp_workers c)
        (signals_of throttling_count network_error_count c.throttle_recovery_cooldown)

  unfoldable pub od_throttle_scaler : ℕ → OneDriveConfig → ThrottleScaler
  unfolding signals_of
  od_throttle_scaler now c =
      new_throttle_scaler now (pos_part c.user_workers)
        (signals_of throttling_count network_error_count c.throttle_recovery_cooldown)

-- The kinds of which `bridgeChannelsToStorage` starts a stream.
unfoldable pub sp_streams : SharePointConfig → List String
sp_streams c =
    "sites"
    ∷ "site_users"
    ∷ (if c.process_groups
        then "site_groups" ∷ (if c.process_group_members then "group_members" ∷ [] else [])
        else [])

abbrev pub od_streams : List String
od_streams = "sites" ∷ "site_users" ∷ "user_profiles" ∷ []

-- What the reporter reads at an instant.
unfoldable pub sp_progress : ℤ → Counters → SiteProgressSnapshot
sp_progress total c = record {
  completed = pos c.sites_completed;
  failed = pos c.failed;
  in_flight = sub_ℕ c.sites_dispatched c.sites_completed;
  discovered = pos c.sites_discovered;
  total = total;
}

unfoldable pub od_progress : ℤ → OneDriveCounters → SiteProgressSnapshot
od_progress total c = record {
  completed = pos c.sites_completed;
  failed = pos c.failed;
  in_flight = sub_ℕ c.sites_dispatched c.sites_completed;
  discovered = pos c.sites_discovered;
  total = total;
}

unfoldable pub scaler_progress : ThrottleScaler → ScalerSnapshot
scaler_progress s = record {
  current = pos s.current_limit;
  max_workers = pos s.max_workers;
  scale_downs = pos s.scale_down_events;
}

-- The end of `collectResults`: the outcomes are saved if there are any; an error is logged only.
module _ {D : Type 0} (db : OutcomeDb D) where
  unfoldable pub persist_sp : ProcessorResult → D → D
  unfolding save_site_outcomes
  persist_sp r d = save_any r.sp_outcomes
    where
      save_any : List SpSiteOutcome → D
      save_any [] = d
      save_any (o ∷ os) = (save_site_outcomes db (o ∷ os) d).0

  unfoldable pub persist_od : ProcessorResult → D → D
  unfolding save_one_drive_outcomes
  persist_od r d = save_any r.od_outcomes
    where
      save_any : List OdSiteOutcome → D
      save_any [] = d
      save_any (o ∷ os) = (save_one_drive_outcomes db (o ∷ os) d).0
