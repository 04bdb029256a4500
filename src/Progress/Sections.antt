-- ===== src/Progress/Sections.antt =====
-- No section of a report has a line break, unless a label or a name has one.
use Prim.Native.String.{◌++◌}
use sprawler.Common.{
  ℕ, ◌/◌, refl, String, Bool, true, false, Option, none, some, List, [], ◌∷◌, map, if◌then◌else◌,
  total, All, All-append,
}
use sprawler.Common.Int.{ℤ, pos, pos_part}
use sprawler.Api.Metrics.{ApiMetrics}
use sprawler.Storage.Files.{StorageStats}
use sprawler.Progress.Defs.{
  Floats, LabeledValue, SiteProgressSnapshot, ScalerSnapshot, ChannelStat, ProgressSnapshot,
}
use sprawler.Progress.Snapshot.{is_above_zero}
use sprawler.Common.Text.{show_int}
use sprawler.Progress.Format.{
  nanoseconds_hour, nanoseconds_minute, rem60, at_least, entity_parts, channel_parts, sort_codes,
  code_part, api_codes, api_section, workers_section, storage_section, format_compact, counted,
  site_section, eta_text, rate_section, first_sections, second_sections, report_lines,
}
use sprawler.Progress.Lines.{
  IsOneLine, no_break, ++-IsOneLine, if-IsOneLine, show_int-IsOneLine, itoa-IsOneLine,
  join-IsOneLine, section_of-IsOneLine, in_brackets-IsOneLine,
}

if-All :
    (b : Bool) (s : String) (ss : List String)
    → IsOneLine s
    → All IsOneLine ss
    → All IsOneLine (if b then s ∷ ss else ss)
if-All true s ss h a = (h, a)
if-All false s ss h a = a

abbrev pub LabelsAreOneLine : List LabeledValue → Type 0
LabelsAreOneLine es = All (λ e. IsOneLine e.label) es

abbrev pub NamesAreOneLine : List ChannelStat → Type 0
NamesAreOneLine cs = All (λ c. IsOneLine c.name) cs

entity_parts-IsOneLine :
    (show : ℤ → String)
    → ((n : ℤ) → IsOneLine (show n))
    → (es : List LabeledValue) → LabelsAreOneLine es
    → All IsOneLine (entity_parts show es)
unfolding entity_parts
entity_parts-IsOneLine show h [] a = tt
entity_parts-IsOneLine show h (e ∷ es) a =
    if-All _ _ _ (++-IsOneLine _ _ (h e.value) (++-IsOneLine _ _ (no_break " " refl) a.0))
      (entity_parts-IsOneLine show h es a.1)

channel_parts-IsOneLine :
    (cs : List ChannelStat) → NamesAreOneLine cs → All IsOneLine (channel_parts cs)
unfolding channel_parts
channel_parts-IsOneLine [] a = tt
channel_parts-IsOneLine (c ∷ cs) a =
    if-All _ _ _
      (++-IsOneLine _ _ a.0 (
        ++-IsOneLine _ _ (no_break " " refl) (
          ++-IsOneLine _ _ (itoa-IsOneLine c.len)
            (++-IsOneLine _ _ (no_break "/" refl) (itoa-IsOneLine c.capacity)))))
      (channel_parts-IsOneLine cs a.1)

code_parts-IsOneLine : (cs : List (ℤ × ℕ)) → All IsOneLine (map code_part cs)
code_parts-IsOneLine [] = tt
code_parts-IsOneLine (c ∷ cs) = (
  ++-IsOneLine _ _ (show_int-IsOneLine c.0)
      (++-IsOneLine _ _ (no_break ":" refl) (itoa-IsOneLine c.1)),
  code_parts-IsOneLine cs,
)

api_codes-IsOneLine : (m : ApiMetrics) (codes : List (ℤ × ℕ)) → All IsOneLine (api_codes m codes)
unfolding api_codes
api_codes-IsOneLine m [] = tt
api_codes-IsOneLine m (c ∷ cs) = (
  ++-IsOneLine _ _ (no_break "API: " refl) (
      ++-IsOneLine _ _ (itoa-IsOneLine (total (λ e. e.1) (c ∷ cs))) (
        ++-IsOneLine _ _ (no_break " req " refl) (
          ++-IsOneLine _ _ (itoa-IsOneLine m.avg_duration) (
            ++-IsOneLine _ _ (no_break "ms [" refl) (
              ++-IsOneLine _ _
                (join-IsOneLine " " (no_break " " refl) (map code_part (sort_codes (c ∷ cs)))
                  (code_parts-IsOneLine (sort_codes (c ∷ cs))))
                (++-IsOneLine _ _ (no_break "]" refl) (
                  if-IsOneLine _ _ _
                    (++-IsOneLine _ _ (no_break ", " refl) (
                      ++-IsOneLine _ _ (itoa-IsOneLine m.transport_retries)
                        (no_break " transport retries" refl)))
                    (no_break "" refl)))))))),
  tt,
)

api_section-IsOneLine : (m : Option ApiMetrics) → All IsOneLine (api_section m)
unfolding api_section
api_section-IsOneLine none = tt
api_section-IsOneLine (some m) = api_codes-IsOneLine m m.status_codes

workers_section-IsOneLine :
    (s : Option ScalerSnapshot) (w : Option ℤ) → All IsOneLine (workers_section s w)
unfolding workers_section
workers_section-IsOneLine (some s) w = (
  ++-IsOneLine _ _ (show_int-IsOneLine s.current) (
      ++-IsOneLine _ _ (no_break "/" refl) (
        ++-IsOneLine _ _ (show_int-IsOneLine s.max_workers) (
          ++-IsOneLine _ _ (no_break " workers" refl) (
            if-IsOneLine _ _ _
              (++-IsOneLine _ _ (no_break " (" refl)
                (++-IsOneLine _ _ (show_int-IsOneLine s.scale_downs) (no_break " scaled)" refl)))
              (no_break "" refl))))),
  tt,
)
workers_section-IsOneLine none (some w) =
    (++-IsOneLine _ _ (show_int-IsOneLine w) (no_break " workers" refl), tt)
workers_section-IsOneLine none none = tt

storage_section-IsOneLine :
    (show : ℤ → String)
    → ((n : ℤ) → IsOneLine (show n))
    → (s : Option StorageStats) → All IsOneLine (storage_section show s)
unfolding storage_section
storage_section-IsOneLine show h none = tt
storage_section-IsOneLine show h (some s) =
    if-All _ _ []
      (++-IsOneLine _ _ (no_break "DB: " refl) (
        ++-IsOneLine _ _ (h (pos s.processed_items)) (
          ++-IsOneLine _ _ (no_break ", " refl)
            (++-IsOneLine _ _ (itoa-IsOneLine s.queue_length) (no_break " queued" refl)))))
      tt

two_numbers :
    (a b : ℤ) (s t : String)
    → IsOneLine s
    → IsOneLine t
    → IsOneLine ("ETA: " ++ (show_int a ++ (s ++ (show_int b ++ t))))
two_numbers a b s t h k = ++-IsOneLine _ _ (no_break "ETA: " refl) (
    ++-IsOneLine _ _ (show_int-IsOneLine a)
      (++-IsOneLine _ _ h (++-IsOneLine _ _ (show_int-IsOneLine b) k)))

module _ {F : Type 0} (floats : Floats F)
    (fixed_one-IsOneLine : (x : F) → IsOneLine (floats.fixed_one x)) where
  format_compact-IsOneLine : (n : ℤ) → IsOneLine (format_compact floats n)
  unfolding format_compact
  format_compact-IsOneLine n =
      if-IsOneLine _ _ _ (++-IsOneLine _ _ (fixed_one-IsOneLine _) (no_break "M" refl)) (
        if-IsOneLine _ _ _
          (++-IsOneLine _ _ (itoa-IsOneLine (pos_part n / 1000)) (no_break "k" refl))
          (show_int-IsOneLine n))

  counted-IsOneLine :
      (n : ℤ) (label : String) → IsOneLine label → All IsOneLine (counted floats n label)
  counted-IsOneLine n label h =
      if-All (is_above_zero n) _ [] (++-IsOneLine _ _ (show_int-IsOneLine n) h) tt

  site_section-IsOneLine :
      (sp : Option SiteProgressSnapshot) → All IsOneLine (site_section floats sp)
  unfolding site_section
  site_section-IsOneLine none = tt
  site_section-IsOneLine (some sp) = (
    ++-IsOneLine _ _ (no_break "Sites: " refl) (
        ++-IsOneLine _ _ (format_compact-IsOneLine sp.completed) (
          ++-IsOneLine _ _
            (if-IsOneLine _ _ _
              (++-IsOneLine _ _ (no_break "/" refl) (format_compact-IsOneLine sp.total))
              (no_break "" refl))
            (in_brackets-IsOneLine _ (
              All-append IsOneLine _ _
                (counted-IsOneLine sp.in_flight " inflight" (no_break " inflight" refl))
                (counted-IsOneLine sp.failed " failed" (no_break " failed" refl)))))),
    tt,
  )

  eta_text-IsOneLine : (eta : ℤ) → IsOneLine (eta_text floats eta)
  unfolding eta_text
  eta_text-IsOneLine eta =
      if-IsOneLine (at_least nanoseconds_hour eta) _ _
        (two_numbers (floats.whole_hours eta) (rem60 (floats.whole_minutes eta)) "h " "m"
          (no_break "h " refl) (no_break "m" refl))
        (if-IsOneLine (at_least nanoseconds_minute eta) _ _
          (two_numbers (floats.whole_minutes eta) (rem60 (floats.whole_seconds eta)) "m " "s"
            (no_break "m " refl) (no_break "s" refl))
          (++-IsOneLine _ _ (no_break "ETA: " refl)
            (++-IsOneLine _ _ (show_int-IsOneLine (floats.whole_seconds eta)) (no_break "s" refl))))

  rate_section-IsOneLine :
      (rate : Option F) (eta : Option ℤ) → All IsOneLine (rate_section floats rate eta)
  unfolding rate_section
  rate_section-IsOneLine none eta = tt
  rate_section-IsOneLine (some rate) none =
      (++-IsOneLine _ _ (fixed_one-IsOneLine rate) (no_break "/sec" refl), tt)
  rate_section-IsOneLine (some rate) (some eta) = (
    ++-IsOneLine _ _ (fixed_one-IsOneLine rate) (no_break "/sec" refl),
    (eta_text-IsOneLine eta, tt),
  )

  module _ (snap : ProgressSnapshot F) (entities : LabelsAreOneLine snap.entities)
      (skips : LabelsAreOneLine snap.skips) (channels : NamesAreOneLine snap.channels) where
    pub report_lines-IsOneLine : All IsOneLine (report_lines floats snap)
    unfolding report_lines first_sections second_sections
    report_lines-IsOneLine =
        All-append IsOneLine _ _
          (section_of-IsOneLine "" " | " (no_break "" refl) (no_break " | " refl) _ (
            All-append IsOneLine _ _ (site_section-IsOneLine snap.site_progress) (
              All-append IsOneLine _ _
                (section_of-IsOneLine "" ", " (no_break "" refl) (no_break ", " refl) _
                  (entity_parts-IsOneLine _ format_compact-IsOneLine snap.entities entities))
                (section_of-IsOneLine "skip: " ", " (no_break "skip: " refl) (no_break ", " refl) _
                  (entity_parts-IsOneLine _ show_int-IsOneLine snap.skips skips)))))
          (section_of-IsOneLine "" " | " (no_break "" refl) (no_break " | " refl) _ (
            All-append IsOneLine _ _ (workers_section-IsOneLine snap.scaler snap.workers) (
              All-append IsOneLine _ _ (rate_section-IsOneLine snap.rate snap.eta) (
                All-append IsOneLine _ _ (api_section-IsOneLine snap.api) (
                  All-append IsOneLine _ _
                    (storage_section-IsOneLine _ format_compact-IsOneLine snap.storage)
                    (section_of-IsOneLine "Buf: " ", " (no_break "Buf: " refl) (no_break ", " refl)
                      _ (channel_parts-IsOneLine snap.channels channels)))))))
