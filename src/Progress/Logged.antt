-- ===== src/Progress/Logged.antt =====
-- What a report with the default formatter writes to the log.
use Prim.Native.String.{◌++◌ as ◌+++◌}
use sprawler.Common.{
  refl, append_assoc, append-nil, map, leb, true, false, ◌++◌, ◌⊎◌, inl, inr, sym, ◌∙◌, Bool-cases,
  ◌≤◌, ◌≡◌, String, List, [], ◌∷◌, length, length-append, arith, ap,
}
use sprawler.Logger.{Logger, rank, info, append, infof, continuef}
use sprawler.Progress.Defs.{Floats, ProgressSnapshot}
use sprawler.Progress.Format.{
  section_of, first_sections, second_sections, report_lines, default_progress_formatter,
}
use sprawler.Progress.Report.{continue_lines, log_lines, log_report}
use sprawler.Progress.Lines.{IsOneLine, or_blank, split-join}
use sprawler.Progress.Sections.{LabelsAreOneLine, NamesAreOneLine, report_lines-IsOneLine}

length-section_of : (prefix sep : String) (ss : List String) → length (section_of prefix sep ss) ≤ 1
length-section_of prefix sep [] = omega arith
length-section_of prefix sep (s ∷ ss) = omega arith

length-report_lines :
    {F : Type 0} (floats : Floats F) (snap : ProgressSnapshot F)
    → length (report_lines floats snap) ≤ 2
unfolding report_lines
length-report_lines floats snap = omega (
  arith,
  length-append (section_of "" " | " (first_sections floats snap))
      (section_of "" " | " (second_sections floats snap)),
  length-section_of "" " | " (first_sections floats snap),
  length-section_of "" " | " (second_sections floats snap),
)

-- The lines of a report in the log: the first with the logger's prefix, the time, the level and the
-- elapsed time, and each other one after 23 spaces.
abbrev pub first_line : Logger → String → String → String → String
first_line l time elapsed s =
    l.prefix +++ (time +++ (" " +++ ("[INFO] " +++ ("[" +++ (elapsed +++ ("] " +++ s))))))

abbrev pub in_log : Logger → String → String → List String → List String
in_log l time elapsed [] = []
in_log l time elapsed (s ∷ ss) =
    first_line l time elapsed s ∷ map (λ t. "                       " +++ t) ss

append-end : (out : List String) (s : String) → append out s ≡ out ++ s ∷ []
append-end [] s = refl
append-end (t ∷ ts) s = ap (λ r. t ∷ r) (append-end ts s)

continue_lines-muted :
    (l : Logger) (ss out : List String)
    → leb (rank info) (rank l.level) ≡ false
    → continue_lines l ss out ≡ out
unfolding continue_lines continuef
continue_lines-muted l [] out h = refl
continue_lines-muted l (s ∷ ss) out h = rw h (continue_lines-muted l ss out h)

continue_lines-appended :
    (l : Logger) (ss out : List String)
    → leb (rank info) (rank l.level) ≡ true
    → continue_lines l ss out ≡ out ++ map (λ t. "                       " +++ t) ss
unfolding continue_lines continuef
continue_lines-appended l [] out h = sym (append-nil out)
continue_lines-appended l (s ∷ ss) out h =
    rw h (continue_lines-appended l ss (append out ("                       " +++ s)) h)
    ∙ ap (λ r. r ++ map (λ t. "                       " +++ t) ss)
        (append-end out ("                       " +++ s))
    ∙ append_assoc out (("                       " +++ s) ∷ [])
        (map (λ t. "                       " +++ t) ss)

log_lines-muted :
    (l : Logger) (time elapsed : String) (ss out : List String)
    → leb (rank info) (rank l.level) ≡ false
    → log_lines l time elapsed ss out ≡ out
unfolding infof
log_lines-muted l time elapsed [] out h = refl
log_lines-muted l time elapsed (s ∷ ss) out h = rw h (continue_lines-muted l ss out h)

log_lines-appended :
    (l : Logger) (time elapsed : String) (ss out : List String)
    → leb (rank info) (rank l.level) ≡ true
    → log_lines l time elapsed ss out ≡ out ++ in_log l time elapsed ss
unfolding infof
log_lines-appended l time elapsed [] out h = sym (append-nil out)
log_lines-appended l time elapsed (s ∷ ss) out h =
    rw h (continue_lines-appended l ss (append out (first_line l time elapsed s)) h)
    ∙ ap (λ r. r ++ map (λ t. "                       " +++ t) ss)
        (append-end out (first_line l time elapsed s))
    ∙ append_assoc out (first_line l time elapsed s ∷ [])
        (map (λ t. "                       " +++ t) ss)

-- If no label, no name and no text of a float has a line break, then a report with the default
-- formatter adds nothing to the log of a logger below the level INFO; to any other it adds the
-- report's lines as they were joined, at most two, or a blank one where there are none: the first
-- after the logger's prefix, the time, `[INFO]` and the elapsed time in brackets, and the second
-- after 23 spaces.
pub log_report-lines :
    {F : Type 0} (floats : Floats F) (snap : ProgressSnapshot F) (l : Logger)
    (time elapsed : String) (out : List String)
    → ((x : F) → IsOneLine (floats.fixed_one x))
    → LabelsAreOneLine snap.entities
    → LabelsAreOneLine snap.skips
    → NamesAreOneLine snap.channels
    → (let logged = log_report l time elapsed (default_progress_formatter floats snap) out in
        ((leb (rank info) (rank l.level) ≡ false) × (logged ≡ out))
        ⊎ ((leb (rank info) (rank l.level) ≡ true)
            × (logged ≡ out ++ in_log l time elapsed (or_blank (report_lines floats snap)))))
      × (length (report_lines floats snap) ≤ 2)
unfolding log_report default_progress_formatter
log_report-lines floats snap l time elapsed out fixed entities skips channels =
    let same =
      ap (λ ss. log_lines l time elapsed ss out)
        (split-join (report_lines floats snap)
          (report_lines-IsOneLine floats fixed snap entities skips channels)) in
    let lines = or_blank (report_lines floats snap) in
    (
      elim (Bool-cases (leb (rank info) (rank l.level))) [
        | inl on ↦ inr (on, same ∙ log_lines-appended l time elapsed lines out on)
        | inr off ↦ inl (off, same ∙ log_lines-muted l time elapsed lines out off)
      ],
      length-report_lines floats snap,
    )
