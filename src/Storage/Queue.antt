-- ===== src/Storage/Queue.antt =====
-- The queue of an opened storage, beside one with the same sizes and no failure log.
use sprawler.Common.{ℕ, zero, suc, ◌<◌, ◌≡◌, refl, String, Bool, true, false, if◌then◌else◌, arith}
use sprawler.Common.Int.{pos_part}
use sprawler.BatchWriter.Defs.{or_default, new, enable_failure_json, Writer}
use sprawler.BatchWriter.Defs.{register, set_flush_hooks}
use sprawler.Storage.Defs.{register_kinds}
use sprawler.Storage.Defs.{Entity, Db, World, register_sqlc_operations}
use sprawler.Storage.Batches.{start}
use sprawler.Storage.Opening.{StorageConfig, queue_of}

or_default-positive : (n d : ℕ) → 0 < d → 0 < or_default n d
unfolding or_default
or_default-positive zero d h = h
or_default-positive (suc n) d h = omega arith

module _ {D : Type 0} (db : Db D) (err_label : Entity → String) where
  -- The failure log changes nothing that a flush reads.
  abbrev pub SameRun : (q r : Writer (World D) Entity) → Type 0
  SameRun q r =
      (r.hooks ≡ q.hooks)
      × (r.ops ≡ q.ops)
      × (r.buf ≡ q.buf)
      × (r.success_count ≡ q.success_count)
      × (r.failure_count ≡ q.failure_count)
      × (r.max_batch_size ≡ q.max_batch_size)
      × (r.input_cap ≡ q.input_cap)

  logged-SameRun :
      (enabled : Bool) (path : String) (q : Writer (World D) Entity)
      → SameRun q (if enabled then enable_failure_json path true q else q)
  unfolding enable_failure_json
  logged-SameRun true path q = (refl, refl, refl, refl, refl, refl, refl)
  logged-SameRun false path q = (refl, refl, refl, refl, refl, refl, refl)

  abbrev pub plain : StorageConfig → Writer (World D) Entity
  plain cfg =
      start db cfg.recreate err_label (pos_part cfg.batch_size) (pos_part cfg.queue_capacity)

  pub queue_of-SameRun : (cfg : StorageConfig) → SameRun (plain cfg) (queue_of db err_label cfg)
  unfolding queue_of
  queue_of-SameRun cfg = logged-SameRun cfg.enable_failure_log _ (plain cfg)

  pub plain-sizes :
      (cfg : StorageConfig) → (0 < (plain cfg).max_batch_size) × (0 < (plain cfg).input_cap)
  unfolding register_sqlc_operations register_kinds register set_flush_hooks new
  plain-sizes cfg =
      let size = or_default-positive (pos_part cfg.batch_size) 1000 (omega arith) in
      (size, or_default-positive (pos_part cfg.queue_capacity) _ (omega (arith, size)))
