-- ===== src/Storage/Outcomes.antt =====
-- What `saveOutcomes` of sqlite_storage.go leaves in the table of outcomes, whose primary key is
-- the site's id with the processor's name (schema/001_schema.sql).
use sprawler.Common.{
  ◌≡◌, refl, sym, ap, ◌∙◌, subst, String, Bool, true, false, ◌&&◌, Option, none, some, List, [],
  ◌∷◌, inl, inr, str_eq, if◌then◌else◌, arith, Bool-cases, Option-cases,
}
use sprawler.Errors.{GoError, wrapped}
use sprawler.Storage.Files.{OutcomeItem, OutcomeRow, OutcomeDb, save_items, save_outcomes}

abbrev pub is_row_of : OutcomeRow → String → String → Bool
is_row_of row id processor = str_eq row.site_id id && str_eq row.processor processor

-- What SQLite documents of `INSERT OR REPLACE` with that key, and of a commit. A row is refused,
-- with no effect, by what it holds.
pub record OutcomeTable {D : Type 0} (db : OutcomeDb D) : Type 0 where
  pub read : D → String → String → Option OutcomeRow
  pub refused : OutcomeRow → Bool
  pub exec_refused :
      (row : OutcomeRow) (d : D) (id processor : String)
      → refused row ≡ true
      → read (db.exec row d).0 id processor ≡ read d id processor
  pub exec_put :
      (row : OutcomeRow) (d : D) (id processor : String)
      → refused row ≡ false
      → read (db.exec row d).0 id processor
        ≡ (if is_row_of row id processor then some row else read d id processor)
  pub commit_done : (d v : D) → (db.commit d v).1 ≡ none → (db.commit d v).0 ≡ v
  pub commit_failed : (d v : D) (e : GoError) → (db.commit d v).1 ≡ some e → (db.commit d v).0 ≡ d

abbrev or_else {ℓ} : {A : Type ℓ} → Option A → Option A → Option A
or_else none b = b
or_else (some a) b = some a

abbrev row_for : String → OutcomeItem → String → OutcomeRow
row_for p it json = record {
  site_url = it.site_url;
  site_id = it.site_id;
  processor = p;
  outcome_json = json;
}

module _ {D : Type 0} (db : OutcomeDb D) (table : OutcomeTable db) (p : String) where
  -- The row of one outcome under a key, if it can be encoded and is not refused.
  abbrev row_if : String → String → OutcomeRow → Option OutcomeRow
  row_if id q row =
      if table.refused row then none else (if is_row_of row id q then some row else none)

  abbrev row_of_item : String → String → OutcomeItem → Option String → Option OutcomeRow
  row_of_item id q it none = none
  row_of_item id q it (some json) = row_if id q (row_for p it json)

  -- The row of the last outcome under a key that was written.
  abbrev pub last_saved : String → String → List OutcomeItem → Option OutcomeRow
  last_saved id q [] = none
  last_saved id q (it ∷ its) =
      or_else (last_saved id q its) (row_of_item id q it (db.marshal it.value))

  or_else_assoc :
      {A : Type 0} (a b c : Option A) → or_else a (or_else b c) ≡ or_else (or_else a b) c
  or_else_assoc none b c = refl
  or_else_assoc (some x) b c = refl

  exec-read :
      (row : OutcomeRow) (d : D) (id q : String)
      → table.read (db.exec row d).0 id q ≡ or_else (row_if id q row) (table.read d id q)
  exec-read row d id q = elim (Bool-cases (table.refused row)) [
    | inl no_row ↦ rw no_row (table.exec_refused row d id q no_row)
    | inr put ↦ table.exec_put row d id q put ∙ rw put (ground arith)
  ]

  save_items-lost :
      (it : OutcomeItem) (its : List OutcomeItem) (d : D)
      → db.marshal it.value ≡ none
      → save_items db p (it ∷ its) d ≡ save_items db p its d
  unfolding save_items
  save_items-lost it its d lost = ground (arith, lost)

  save_items-text :
      (it : OutcomeItem) (its : List OutcomeItem) (d : D) (json : String)
      → db.marshal it.value ≡ some json
      → save_items db p (it ∷ its) d ≡ save_items db p its (db.exec (row_for p it json) d).0
  unfolding save_items
  save_items-text it its d json text = ground (arith, text)

  save_items-read :
      (items : List OutcomeItem) (d : D) (id q : String)
      → table.read (save_items db p items d) id q
        ≡ or_else (last_saved id q items) (table.read d id q)
  save_items-read [] d id q = unfold save_items in refl
  save_items-read (it ∷ its) d id q =
      let later = last_saved id q its in
      elim (Option-cases (db.marshal it.value)) [
        | inl lost ↦
            ap (λ c. table.read c id q) (save_items-lost it its d lost)
            ∙ save_items-read its d id q
            ∙ rw lost (or_else_assoc later none (table.read d id q))
        | inr (json, text) ↦
            ap (λ c. table.read c id q) (save_items-text it its d json text)
            ∙ save_items-read its (db.exec (row_for p it json) d).0 id q
            ∙ ap (λ o. or_else later o) (exec-read (row_for p it json) d id q)
            ∙ rw text (or_else_assoc later (row_if id q (row_for p it json)) (table.read d id q))
      ]

  -- What is to be in the table afterwards, and what comes of an error.
  abbrev pub Saved : List OutcomeItem → D → D × Option GoError → Type 0
  Saved items d (d', none) =
      (id q : String) → table.read d' id q ≡ or_else (last_saved id q items) (table.read d id q)
  Saved items d (d', some e) = d' ≡ d

  committed-Saved :
      (items : List OutcomeItem) (d v : D)
      → ((id q : String) → table.read v id q ≡ or_else (last_saved id q items) (table.read d id q))
      → (r : D × Option GoError) → r ≡ db.commit d v
      → Saved items d r
  committed-Saved items d v written (d', none) h = λ id q.
      ap (λ c. table.read c id q) (ap (λ r. r.0) h ∙ table.commit_done d v (sym (ap (λ r. r.1) h)))
      ∙ written id q
  committed-Saved items d v written (d', some e) h =
      ap (λ r. r.0) h ∙ table.commit_failed d v e (sym (ap (λ r. r.1) h))

  save_outcomes-begun :
      (items : List OutcomeItem) (d : D)
      → db.begin ≡ none
      → db.prepare ≡ none
      → save_outcomes db p items d ≡ db.commit d (save_items db p items d)
  unfolding save_outcomes
  save_outcomes-begun items d h k = rw (h, k)

  save_outcomes-not_begun :
      (items : List OutcomeItem) (d : D) (e : GoError)
      → db.begin ≡ some e
      → save_outcomes db p items d ≡ (d, some (wrapped "failed to begin transaction" e))
  unfolding save_outcomes
  save_outcomes-not_begun items d e h = rw h

  save_outcomes-not_prepared :
      (items : List OutcomeItem) (d : D) (e : GoError)
      → db.begin ≡ none
      → db.prepare ≡ some e
      → save_outcomes db p items d ≡ (d, some (wrapped "failed to prepare statement" e))
  unfolding save_outcomes
  save_outcomes-not_prepared items d e h k = rw (h, k)

  -- If the table is as SQLite documents it, then `saveOutcomes` either ends with an error and
  -- leaves the content as it was, or without one, and then the row under each site's id and
  -- processor is that of the last outcome with this id that could be encoded and was not refused,
  -- under the given processor, and the earlier one where there is none.
  pub save_outcomes-Saved :
      (items : List OutcomeItem) (d : D) → Saved items d (save_outcomes db p items d)
  save_outcomes-Saved items d = elim (Option-cases db.begin) [
    | inr (e, h) ↦ subst (λ r. Saved items d r) (sym (save_outcomes-not_begun items d e h)) refl
    | inl h ↦ elim (Option-cases db.prepare) [
      | inr (e, k) ↦
          subst (λ r. Saved items d r) (sym (save_outcomes-not_prepared items d e h k)) refl
      | inl k ↦
          committed-Saved items d (save_items db p items d) (save_items-read items d)
            (save_outcomes db p items d) (save_outcomes-begun items d h k)
    ]
  ]
