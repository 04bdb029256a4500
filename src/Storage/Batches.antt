-- ===== src/Storage/Batches.antt =====
-- One batch of the storage: what it is to do to the database, and what its operations do in an
-- open transaction.
use sprawler.Common.{
  ℕ, ◌+◌, ◌≡◌, refl, sym, ap, ◌∙◌, subst, String, Bool, true, false, Option, none, some, List, [],
  ◌∷◌, ◌⊎◌, inl, inr, str_eq, eq_iff, if◌then◌else◌, length, arith, Bool-cases,
}
use sprawler.Common.Dict.{Dict, lookup, insert, lookup-insert}
use sprawler.BatchWriter.Defs.{
  Item, Error, no_operation, Action, Writer, dispatch, new, register, set_flush_hooks,
}
use sprawler.Storage.Defs.{
  Entity, row_of, kind_of, kinds, Db, World, flush_hooks, exec_row, labelled, wrong_type, operation,
  register_kinds, register_sqlc_operations,
}

same_key : (j k : String) → str_eq j k ≡ true → j ≡ k
same_key j k h = ground (arith, eq_iff j k)

abbrev pub committed_if : {D : Type 0} → Option String → D → Option D
committed_if none d = some d
committed_if (some e) d = none

abbrev pub content_or : {D : Type 0} → D → Option D → D
content_or d none = d
content_or d (some v) = v

abbrev pub count_if : {D : Type 0} → ℕ → Option D → ℕ
count_if n none = 0
count_if n (some v) = n

module _ {D : Type 0} (db : Db D) (use_inserts : Bool) where
  -- The rows of a batch in their order, up to one that fails.
  unfoldable pub write_rows : ℕ → List (Item Entity) → D → D × Bool
  write_rows n [] d = (d, true)
  write_rows n (it ∷ its) d =
      if str_eq (kind_of it.value) it.kind
      then (let (d', err) = db.exec n use_inserts (row_of it.value) d in
          elim err [ none ↦ write_rows n its d' | some e ↦ (d', false) ])
      else (d, false)

  -- The content after the transaction with number n, if it is committed.
  unfoldable pub attempt : ℕ → List (Item Entity) → D → Option D
  unfolding write_rows
  attempt n b d = elim (db.begin n) [
    | some e ↦ none
    | none ↦
        let (v, ok) = write_rows (n + 1) b d in
        if ok then committed_if (db.commit (n + 1) d v).1 v else none
  ]

  -- Batches, one after the other: each is stored as a whole or not at all.
  unfoldable pub store : ℕ → List (List (Item Entity)) → D → D
  unfolding attempt
  store n [] d = d
  store n (b ∷ bs) d = store (n + 1) bs (content_or d (attempt n b d))

  unfoldable pub stored_items : ℕ → List (List (Item Entity)) → D → ℕ
  unfolding attempt
  stored_items n [] d = 0
  stored_items n (b ∷ bs) d =
      count_if (length b) (attempt n b d) + stored_items (n + 1) bs (content_or d (attempt n b d))

  module _ (err_label : Entity → String) where
    abbrev Own : Dict (Entity → Action (World D)) → Type 0
    Own d =
        (k : String)
        → (lookup k d ≡ none) ⊎ (lookup k d ≡ some (operation db use_inserts err_label k))

    Own-insert :
        (j : String) (d : Dict (Entity → Action (World D)))
        → Own d
        → Own (insert j (operation db use_inserts err_label j) d)
    Own-insert j d h k = elim (Bool-cases (str_eq j k)) [
      | inl same ↦ inr (
          lookup-insert j k (operation db use_inserts err_label j) d
          ∙ rw same (ap (λ i. some (operation db use_inserts err_label i)) (same_key j k same)))
      | inr other ↦ elim (h k) [
        | inl missing ↦
            inl (lookup-insert j k (operation db use_inserts err_label j) d ∙ rw other missing)
        | inr found ↦
            inr (lookup-insert j k (operation db use_inserts err_label j) d ∙ rw other found)
      ]
    ]

    register_kinds-Own :
        (ks : List String) (q : Writer (World D) Entity)
        → Own q.ops
        → Own (register_kinds db use_inserts err_label ks q).ops
    unfolding register_kinds register
    register_kinds-Own [] q h = h
    register_kinds-Own (k ∷ ks) q h =
        register_kinds-Own ks (register k (operation db use_inserts err_label k) q)
          (Own-insert k q.ops h)

    abbrev pub start : ℕ → ℕ → Writer (World D) Entity
    start size room = register_sqlc_operations db use_inserts err_label (new size room)

    start-Own : (size room : ℕ) → Own (start size room).ops
    unfolding register_sqlc_operations set_flush_hooks new lookup
    start-Own size room =
        register_kinds-Own kinds (set_flush_hooks (flush_hooks db) (new size room)) (λ k. inl refl)

    start-kind_of :
        (size room : ℕ) (e : Entity)
        → lookup (kind_of e) (start size room).ops
          ≡ some (operation db use_inserts err_label (kind_of e))
    unfolding register_sqlc_operations register_kinds register set_flush_hooks new kind_of lookup
        insert
    start-kind_of size room (Entity.site s) = refl
    start-kind_of size room (Entity.site_user u) = refl
    start-kind_of size room (Entity.user_profile p) = refl
    start-kind_of size room (Entity.site_group g) = refl
    start-kind_of size room (Entity.group_member m) = refl

    pub start_fresh :
        (size room : ℕ)
        → ((start size room).hooks ≡ flush_hooks db)
          × ((start size room).buf ≡ [])
          × ((start size room).success_count ≡ 0)
          × ((start size room).failure_count ≡ 0)
    unfolding register_sqlc_operations register_kinds register set_flush_hooks new
    start_fresh size room = (refl, refl, refl, refl)

    -- In an open transaction, the items of a batch act on its view as `write_rows` says.
    abbrev pub Dispatched : World D → D × Bool → World D × Option Error → Type 0
    Dispatched w (v, ok) r =
        (r.0 ≡ record w { view = v }) × (if ok then r.1 ≡ none else (e : Error) × (r.1 ≡ some e))

    -- After an item's own write, with its error.
    go_on-Dispatched :
        (size room : ℕ) (e : Entity) (its : List (Item Entity)) (w : World D) (d : D)
        (err : Option String)
        → Dispatched
            (record w { view = d })
            (write_rows w.begun its d)
            (dispatch (start size room).ops its (record w { view = d }))
        → Dispatched w
            (elim err [ none ↦ write_rows w.begun its d | some e ↦ (d, false) ])
            (elim (labelled db use_inserts err_label e err) [
              | none ↦ dispatch (start size room).ops its (record w { view = d })
              | some e ↦ (record w { view = d }, some e)
            ])
    go_on-Dispatched size room e its w d none h = h
    go_on-Dispatched size room e its w d (some err) h = (refl, (_, refl))

    operation-same :
        (k : String) (e : Entity) (w : World D)
        → str_eq (kind_of e) k ≡ true
        → w.is_active ≡ true
        → operation db use_inserts err_label k e w ≡ (
            let (v, err) = db.exec w.begun use_inserts (row_of e) w.view in
            (record w { view = v }, labelled db use_inserts err_label e err))
    unfolding operation exec_row
    operation-same k e w same active = rw same (rw active refl)

    operation-other :
        (k : String) (e : Entity) (w : World D)
        → str_eq (kind_of e) k ≡ false
        → operation db use_inserts err_label k e w ≡ (w, some (wrong_type k))
    unfolding operation
    operation-other k e w other = rw other refl

    abbrev next :
        Dict (Entity → Action (World D))
        → List (Item Entity)
        → World D × Option Error
        → World D × Option Error
    next d its r = elim r.1 [ none ↦ dispatch d its r.0 | some e ↦ (r.0, some e) ]

    dispatch-operation :
        (k : String) (e : Entity) (its : List (Item Entity)) (w : World D)
        (d : Dict (Entity → Action (World D)))
        → lookup k d ≡ some (operation db use_inserts err_label k)
        → dispatch d (record { kind = k; value = e } ∷ its) w
          ≡ next d its (operation db use_inserts err_label k e w)
    unfolding dispatch
    dispatch-operation k e its w d h = rw (h, dispatch) refl

    dispatch-other :
        (k : String) (e : Entity) (its : List (Item Entity)) (w : World D)
        (d : Dict (Entity → Action (World D)))
        → Own d
        → str_eq (kind_of e) k ≡ false
        → (err : Error) × (dispatch d (record { kind = k; value = e } ∷ its) w ≡ (w, some err))
    unfolding dispatch
    dispatch-other k e its w d own other = elim (own k) [
      | inl missing ↦ (no_operation k, rw (missing, dispatch) refl)
      | inr found ↦ (
        wrong_type k,
        dispatch-operation k e its w d found ∙ ap (next d its) (operation-other k e w other),
      )
    ]

    rows-same :
        (n : ℕ) (k : String) (e : Entity) (its : List (Item Entity)) (d : D)
        → str_eq (kind_of e) k ≡ true
        → write_rows n (record { kind = k; value = e } ∷ its) d ≡ (
            let (d', err) = db.exec n use_inserts (row_of e) d in
            elim err [ none ↦ write_rows n its d' | some e ↦ (d', false) ])
    unfolding write_rows
    rows-same n k e its d same = rw (same, write_rows) refl

    rows-other :
        (n : ℕ) (k : String) (e : Entity) (its : List (Item Entity)) (d : D)
        → str_eq (kind_of e) k ≡ false
        → write_rows n (record { kind = k; value = e } ∷ its) d ≡ (d, false)
    unfolding write_rows
    rows-other n k e its d other = rw (other, write_rows) refl

    pub dispatch-Dispatched :
        (size room : ℕ) (its : List (Item Entity)) (w : World D)
        → w.is_active ≡ true
        → Dispatched w (write_rows w.begun its w.view) (dispatch (start size room).ops its w)
    unfolding write_rows dispatch
    dispatch-Dispatched size room [] w h = (refl, refl)
    dispatch-Dispatched size room (it ∷ its) w h =
        elim (Bool-cases (str_eq (kind_of it.value) it.kind)) [
          | inl same ↦
              let d = (start size room).ops in
              let (v, err) = db.exec w.begun use_inserts (row_of it.value) w.view in
              subst (λ r. Dispatched w (write_rows w.begun (it ∷ its) w.view) r)
                (sym (
                  dispatch-operation it.kind it.value its w d (
                    subst (λ k. lookup k d ≡ some (operation db use_inserts err_label k))
                      (same_key (kind_of it.value) it.kind same) (start-kind_of size room it.value))
                  ∙ ap (next d its) (operation-same it.kind it.value w same h)))
                (subst
                  (λ r. Dispatched w r (
                    next d its
                      (record w { view = v }, labelled db use_inserts err_label it.value err)))
                  (sym (rows-same w.begun it.kind it.value its w.view same))
                  (go_on-Dispatched size room it.value its w v err
                    (dispatch-Dispatched size room its (record w { view = v }) h)))
          | inr other ↦
              let d = (start size room).ops in
              let (err, e) = dispatch-other it.kind it.value its w d (start-Own size room) other in
              subst (λ r. Dispatched w (write_rows w.begun (it ∷ its) w.view) r) (sym e)
                (subst (λ r. Dispatched w r (w, some err))
                  (sym (rows-other w.begun it.kind it.value its w.view other)) (refl, (err, refl)))
        ]
