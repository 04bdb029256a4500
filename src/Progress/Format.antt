-- ===== src/Progress/Format.antt =====
-- `DefaultProgressFormatter` and `formatCompact` of internal/metrics/progress_reporter.go.
use Prim.Native.String.{◌++◌}
use sprawler.Common.{
  ℕ, suc, ◌/◌, ◌%◌, ◌*◌, ◌^◌, String, Bool, false, ◌||◌, Option, none, some, List, [], ◌∷◌, map,
  ltb, leb, total, if◌then◌else◌,
}
use mathlib.Core.List.{◌++◌ as ◌+++◌}
use sprawler.Common.Int.{ℤ, pos, negsuc, pos_part, sub_ℕ, ltb_ℤ}
use sprawler.Common.Text.{itoa, show_int}
use sprawler.Api.Metrics.{ApiMetrics}
use sprawler.Storage.Files.{StorageStats}
use sprawler.Progress.Defs.{
  Floats, LabeledValue, SiteProgressSnapshot, ScalerSnapshot, ChannelStat, ProgressSnapshot,
}
use sprawler.Progress.Snapshot.{is_above_zero}

abbrev pub show_nat : ℕ → String
show_nat n = itoa n

-- `strings.Join`.
unfoldable pub join : String → List String → String
join sep [] = ""
join sep (s ∷ []) = s
join sep (s ∷ t ∷ ts) = s ++ (sep ++ join sep (t ∷ ts))

-- The joined parts as one section, or no section.
abbrev pub section_of : String → String → List String → List String
section_of prefix sep [] = []
section_of prefix sep (p ∷ ps) = (prefix ++ join sep (p ∷ ps)) ∷ []

abbrev pub in_brackets : List String → String
in_brackets [] = ""
in_brackets (p ∷ ps) = " (" ++ (join ", " (p ∷ ps) ++ ")")

abbrev pub at_least : ℕ → ℤ → Bool
at_least k (pos n) = leb k n
at_least k (negsuc n) = false

unfoldable pub entity_parts : (ℤ → String) → List LabeledValue → List String
entity_parts show [] = []
entity_parts show (e ∷ es) =
    let rest = entity_parts show es in
    if is_above_zero e.value then (show e.value ++ (" " ++ e.label)) ∷ rest else rest

unfoldable pub channel_parts : List ChannelStat → List String
channel_parts [] = []
channel_parts (c ∷ cs) =
    let rest = channel_parts cs in
    if ltb 0 c.len
    then (c.name ++ (" " ++ (show_nat c.len ++ ("/" ++ show_nat c.capacity)))) ∷ rest
    else rest

-- `sort.Ints` on the codes, which are keys of a map and so differ.
unfoldable pub insert_code : ℤ × ℕ → List (ℤ × ℕ) → List (ℤ × ℕ)
insert_code c [] = c ∷ []
insert_code c (d ∷ ds) = if ltb_ℤ c.0 d.0 then c ∷ d ∷ ds else d ∷ insert_code c ds

unfoldable pub sort_codes : List (ℤ × ℕ) → List (ℤ × ℕ)
unfolding insert_code
sort_codes [] = []
sort_codes (c ∷ cs) = insert_code c (sort_codes cs)

abbrev pub code_part : ℤ × ℕ → String
code_part c = show_int c.0 ++ (":" ++ show_nat c.1)

-- The requests under their statuses; nothing for no status.
unfoldable pub api_codes : ApiMetrics → List (ℤ × ℕ) → List String
unfolding sort_codes show_int join
api_codes m [] = []
api_codes m (c ∷ cs) =
    ("API: "
      ++ (show_nat (total (λ e. e.1) (c ∷ cs))
          ++ (" req "
              ++ (show_nat m.avg_duration
                  ++ ("ms ["
                      ++ (join " " (map code_part (sort_codes (c ∷ cs)))
                          ++ ("]"
                              ++ (if ltb 0 m.transport_retries
                                  then ", "
                                    ++ (show_nat m.transport_retries ++ " transport retries")
                                  else ""))))))))
    ∷ []

unfoldable pub api_section : Option ApiMetrics → List String
unfolding api_codes
api_section none = []
api_section (some m) = api_codes m m.status_codes

unfoldable pub workers_section : Option ScalerSnapshot → Option ℤ → List String
unfolding show_int
workers_section (some s) workers =
    (show_int s.current
      ++ ("/"
          ++ (show_int s.max_workers
              ++ (" workers"
                  ++ (if is_above_zero s.scale_downs
                      then " (" ++ (show_int s.scale_downs ++ " scaled)")
                      else "")))))
    ∷ []
workers_section none (some w) = (show_int w ++ " workers") ∷ []
workers_section none none = []

abbrev pub nanoseconds_hour : ℕ
nanoseconds_hour = 3600 * 10 ^ 9

abbrev pub nanoseconds_minute : ℕ
nanoseconds_minute = 60 * 10 ^ 9

-- `x % 60`, with the sign of x.
abbrev pub rem60 : ℤ → ℤ
rem60 (pos n) = pos (n % 60)
rem60 (negsuc n) = sub_ℕ 0 (suc n % 60)

unfoldable pub storage_section : (ℤ → String) → Option StorageStats → List String
storage_section show none = []
storage_section show (some s) =
    if ltb 0 s.processed_items || ltb 0 s.queue_length
    then ("DB: "
        ++ (show (pos s.processed_items) ++ (", " ++ (show_nat s.queue_length ++ " queued"))))
      ∷ []
    else []

module _ {F : Type 0} (floats : Floats F) where
  open floats use {of_int, divide, fixed_one, whole_hours, whole_minutes, whole_seconds}

  unfoldable pub format_compact : ℤ → String
  unfolding show_int
  format_compact n =
      if at_least 1000000 n
      then fixed_one (divide (of_int n) (of_int (pos 1000000))) ++ "M"
      else if at_least 10000 n
      then show_nat (pos_part n / 1000) ++ "k"
      else show_int n

  abbrev pub counted : ℤ → String → List String
  counted n label = if is_above_zero n then (show_int n ++ label) ∷ [] else []

  unfoldable pub site_section : Option SiteProgressSnapshot → List String
  unfolding format_compact show_int join
  site_section none = []
  site_section (some sp) =
      ("Sites: "
        ++ (format_compact sp.completed
            ++ ((if is_above_zero sp.total then "/" ++ format_compact sp.total else "")
                ++ in_brackets (counted sp.in_flight " inflight" +++ counted sp.failed " failed"))))
      ∷ []

  unfoldable pub eta_text : ℤ → String
  unfolding show_int
  eta_text eta =
      if at_least nanoseconds_hour eta
      then "ETA: "
        ++ (show_int (whole_hours eta) ++ ("h " ++ (show_int (rem60 (whole_minutes eta)) ++ "m")))
      else if at_least nanoseconds_minute eta
      then "ETA: "
        ++ (show_int (whole_minutes eta) ++ ("m " ++ (show_int (rem60 (whole_seconds eta)) ++ "s")))
      else "ETA: " ++ (show_int (whole_seconds eta) ++ "s")

  unfoldable pub rate_section : Option F → Option ℤ → List String
  unfolding eta_text
  rate_section none eta = []
  rate_section (some rate) none = (fixed_one rate ++ "/sec") ∷ []
  rate_section (some rate) (some eta) = (fixed_one rate ++ "/sec") ∷ eta_text eta ∷ []

  -- The sites, the entities and the skipped sites.
  unfoldable pub first_sections : ProgressSnapshot F → List String
  unfolding site_section entity_parts join
  first_sections snap =
      site_section snap.site_progress
      +++ (section_of "" ", " (entity_parts format_compact snap.entities)
          +++ section_of "skip: " ", " (entity_parts show_int snap.skips))

  -- The workers, the rate, and what the API, the database and the channels do.
  unfoldable pub second_sections : ProgressSnapshot F → List String
  unfolding workers_section rate_section api_section storage_section channel_parts join
  second_sections snap =
      workers_section snap.scaler snap.workers
      +++ (rate_section snap.rate snap.eta
          +++ (api_section snap.api
              +++ (storage_section format_compact snap.storage
                  +++ section_of "Buf: " ", " (channel_parts snap.channels))))

  -- The lines that are not empty: a line without sections is left out.
  unfoldable pub report_lines : ProgressSnapshot F → List String
  unfolding first_sections second_sections
  report_lines snap =
      section_of "" " | " (first_sections snap) +++ section_of "" " | " (second_sections snap)

  unfoldable pub default_progress_formatter : ProgressSnapshot F → String
  unfolding report_lines
  default_progress_formatter snap = join "\n" (report_lines snap)
