-- ===== src/Storage/Files.antt =====
-- The rest of sqlite_storage.go: streams, outcomes, statistics, the run's mark, closing and archiving.
-- What a call of the database or of the file system does to the state of the machine is a
-- parameter; the text of an outcome is the JSON encoder's.
use sprawler.Common.{
  ℕ, ◌+◌, String, Bool, true, Option, none, some, List, [], ◌∷◌, map, length, if◌then◌else◌,
}
use sprawler.Model.{SpSiteOutcome, OdSiteOutcome}
use sprawler.BatchWriter.Defs.{Item}
use sprawler.BatchWriter.Loop.{Loop}
use sprawler.Errors.{GoError, wrapped}
use sprawler.Storage.Defs.{Entity, enqueued}

-- `streamTo` over the values that come; `ends` tells before which of them the context's end is chosen.
unfoldable pub stream_to : (ℕ → Bool) → ℕ → List Entity → List (Item Entity)
unfolding enqueued
stream_to ends i [] = []
stream_to ends i (v ∷ vs) =
    let rest = stream_to ends (i + 1) vs in if ends i then [] else enqueued v ∷ rest

pub record StorageStats : Type 0 where
  pub processed_items : ℕ
  pub failed_items : ℕ
  pub batches_written : ℕ
  pub queue_length : ℕ

unfoldable pub get_stats : {W V : Type 0} → Loop W V → StorageStats
get_stats l = record {
  processed_items = l.writer.success_count;
  failed_items = l.writer.failure_count;
  batches_written = l.writer.flush_count;
  queue_length = length l.input;
}

pub data SavedOutcome : Type 0 where
  sharepoint : SpSiteOutcome → SavedOutcome
  onedrive : OdSiteOutcome → SavedOutcome

pub record OutcomeItem : Type 0 where
  pub site_url : String
  pub site_id : String
  pub value : SavedOutcome

unfoldable pub sp_item : SpSiteOutcome → OutcomeItem
sp_item o = record { site_url = o.site_url; site_id = o.site_id; value = sharepoint o }

unfoldable pub od_item : OdSiteOutcome → OutcomeItem
od_item o = record { site_url = o.site_url; site_id = o.site_id; value = onedrive o }

pub record OutcomeRow : Type 0 where
  pub site_url : String
  pub site_id : String
  pub processor : String
  pub outcome_json : String

-- What `saveOutcomes` uses: the JSON encoder and a transaction over a content.
pub record OutcomeDb (D : Type 0) : Type 0 where
  pub begin : Option GoError
  pub prepare : Option GoError
  pub marshal : SavedOutcome → Option String
  pub exec : OutcomeRow → D → D × Option GoError
  pub commit : D → D → D × Option GoError

module _ {D : Type 0} (db : OutcomeDb D) where
  -- The loop: an outcome that cannot be encoded is left out, and an error of its insert is logged.
  unfoldable pub save_items : String → List OutcomeItem → D → D
  save_items processor [] d = d
  save_items processor (it ∷ its) d = elim (db.marshal it.value) [
    | none ↦ save_items processor its d
    | some json ↦
        save_items processor its
          (db.exec
            (record {
              site_url = it.site_url;
              site_id = it.site_id;
              processor = processor;
              outcome_json = json;
            })
            d).0
  ]

  unfoldable pub save_outcomes : String → List OutcomeItem → D → D × Option GoError
  unfolding save_items
  save_outcomes processor items d = elim db.begin [
    | some e ↦ (d, some (wrapped "failed to begin transaction" e))
    | none ↦ elim db.prepare [
      | some e ↦ (d, some (wrapped "failed to prepare statement" e))
      | none ↦ db.commit d (save_items processor items d)
    ]
  ]

  unfoldable pub save_site_outcomes : List SpSiteOutcome → D → D × Option GoError
  unfolding save_outcomes sp_item
  save_site_outcomes outcomes d = save_outcomes "sharepoint" (map sp_item outcomes) d

  unfoldable pub save_one_drive_outcomes : List OdSiteOutcome → D → D × Option GoError
  unfolding save_outcomes od_item
  save_one_drive_outcomes outcomes d = save_outcomes "onedrive" (map od_item outcomes) d

-- What `os.Stat` finds.
pub data Stat : Type 0 where
  exists not_there : Stat
  stat_error : GoError → Stat

-- The calls that close and archive the database, on the state of the machine.
pub record Machine (S : Type 0) : Type 0 where
  pub close_queue : S → S
  pub close_db : S → S × Option GoError
  pub stat_archive : S → Stat
  pub remove_archive : S → S × Option GoError
  pub rename_db : S → S × Option GoError

-- The `closeOnce` of a storage, and the machine's state.
pub record Handle (S : Type 0) : Type 0 where
  pub closed_once : Bool
  pub state : S

module _ {S : Type 0} (m : Machine S) where
  unfoldable pub close_once : Handle S → Handle S × Option GoError
  close_once h =
      if h.closed_once
      then (h, none)
      else (let (s, e) = m.close_db (m.close_queue h.state) in
          (record { closed_once = true; state = s }, e))

  unfoldable pub rename_to_archive : S → S × Option GoError
  rename_to_archive s =
      let (s', e) = m.rename_db s in
      elim e [
        | some e ↦ (s', some (wrapped "failed to rename database to archive" e))
        | none ↦ (s', none)
      ]

  unfoldable pub replace_archive : S → S × Option GoError
  unfolding rename_to_archive
  replace_archive s = elim (m.stat_archive s) [
    | stat_error e ↦ (s, some (wrapped "error checking archive file" e))
    | not_there ↦ rename_to_archive s
    | exists ↦
        let (s', e) = m.remove_archive s in
        elim e [
          | some e ↦ (s', some (wrapped "failed to remove old archive" e))
          | none ↦ rename_to_archive s'
        ]
  ]

  unfoldable pub archive_database : Handle S → Handle S × Option GoError
  unfolding close_once replace_archive
  archive_database h =
      let (h', e) = close_once h in
      elim e [
        | some e ↦ (h', some (wrapped "failed to close database before archiving" e))
        | none ↦ let (s, e') = replace_archive h'.state in (record h' { state = s }, e')
      ]
