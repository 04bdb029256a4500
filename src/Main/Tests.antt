-- ===== src/Main/Tests.antt =====
-- Runs over a machine that records what is done to it, and the theorem about such a run.
use sprawler.Common.{
  ℕ, ◌≡◌, refl, String, true, false, Option, none, some, List, [], ◌∷◌, ◌⊎◌, ◌++◌, str_eq, any_of,
  take,
}
use sprawler.Common.Int.{pos}
use sprawler.Config.Defs.{Config}
use sprawler.Errors.{GoError, Reply, fetched}
use sprawler.Processors.Results.{ProcessorResult}
use sprawler.Storage.Files.{exists}
use sprawler.Main.Defs.{Processor, Parts, finished, main}
use sprawler.Main.Order.{process_all, Ran, prepared, left_by, IsFatal, main-Ran}

abbrev Deeds : Type 0
Deeds = List String

abbrev does : String → Deeds → Deeds × Option GoError
does what s = (s ++ what ∷ [], none)

abbrev failed_result : ProcessorResult
failed_result = record {
  processor_name = "";
  records_extracted = 0;
  records_failed = 9;
  duration = 0;
  sp_outcomes = [];
  od_outcomes = [];
  success = true;
  error = some "9 failed";
  summary = "";
}

abbrev processor : String → Processor Deeds
processor name = record { health = λ s. none; process = λ s. (s ++ name ∷ [], failed_result) }

-- The context ends with the deed of this name.
abbrev parts_until : String → Reply Config → Parts Deeds
parts_until last cfg = record {
  load_config = cfg;
  new_storage = λ db. does "open";
  new_client = λ c. does "client";
  initialize_run_status = does "status";
  processors = λ c. processor "sharepoint" ∷ processor "onedrive" ∷ [];
  mark_run_completed = does "mark";
  machine = record {
    close_queue = λ s. s ++ "close queue" ∷ [];
    close_db = does "close";
    stat_archive = λ s. exists;
    remove_archive = does "remove";
    rename_db = does "rename";
  };
  interrupted = any_of (str_eq last);
}

-- The configuration is not read by these parts.
module _ (cfg : Config) where
  whole_test : main (parts_until "never" (fetched cfg)) [] ≡ (
    "open" ∷ "client" ∷ "client" ∷ "status" ∷ "sharepoint" ∷ "onedrive" ∷ "mark" ∷ "close queue"
        ∷ "close" ∷ "remove" ∷ "rename" ∷ [],
    finished,
  )
  unfolding main
  whole_test = refl

  interrupted_test : main (parts_until "sharepoint" (fetched cfg)) [] ≡ (
    "open" ∷ "client" ∷ "client" ∷ "status" ∷ "sharepoint" ∷ "close queue" ∷ "close" ∷ [],
    finished,
  )
  unfolding main
  interrupted_test = refl

abbrev loaded : Reply Config
loaded = fetched (record {
  auth = record { site_url = "u"; tenant_id = "t"; client_id = "c"; cert_path = "p" };
  admin_user = "";
  transport = record {
    max_retries = pos 3;
    retry_backoffs = pos 5 ∷ [];
    throttle_pause = pos 60;
    retry_policy = [];
  };
  database = record {
    db_type = "sqlite";
    path = "./data";
    name = "spo.db";
    max_conns = pos 1;
    recreate = true;
    batch_size = pos 500;
    flush_interval = pos 5;
    queue_capacity = pos 8000;
    enable_failure_log = true;
    failure_log_path = "";
    busy_timeout = pos 5000;
    cache_size = pos 0;
  };
  debug = record { max_pages = pos 0; max_one_drive_sites = pos 0 };
  share_point = record {
    page_size = pos 5000;
    site_enum_buffer_size = pos 400;
    expected_sites = pos 0;
    skip_templates = [];
    user_workers = pos 6;
    group_workers = pos 4;
    process_groups = false;
    process_group_members = false;
    user_fetch_timeout = pos 600;
    group_fetch_timeout = pos 600;
    member_fetch_timeout = pos 600;
    progress_report_interval = pos 60;
    throttle_recovery_cooldown = pos 60;
    throttle_check_interval = pos 10;
  };
  one_drive = record {
    csom_buffer_size = pos 500;
    expected_sites = pos 0;
    user_workers = pos 6;
    user_fetch_timeout = pos 600;
    profile_fetch_timeout = pos 600;
    progress_report_interval = pos 60;
    throttle_recovery_cooldown = pos 60;
    throttle_check_interval = pos 10;
  };
})

main-Ran_example :
    let parts = parts_until "sharepoint" loaded in
    IsFatal parts (main parts [])
    ⊎ ((cfg : Config) × (k : ℕ) × (parts.load_config ≡ fetched cfg)
        × Ran parts (parts.processors cfg) (prepared parts cfg []) k
        × (main parts [] ≡ (
          left_by parts (process_all (take k (parts.processors cfg)) (prepared parts cfg [])),
          finished,
        )))
main-Ran_example = main-Ran (parts_until "sharepoint" loaded) []
