-- ===== src/Cache/Worker.antt =====
-- `cache/worker.py`: one round of the flush worker for one file. The worker reads the entry, then
-- runs a conditional UPDATE on the database, then settles the entry; the lock is free between
-- these, so other operations may run there.
use iruka_virtual_file_syste.Prelude.{
  ℕ, Bool, true, false, not, Option, none, some, List, [], ◌∷◌, ℤ, keep, int_eq, list_eq, nat_eq,
  ◌==◌, ltb, if◌then◌else◌,
}
use iruka_virtual_file_syste.Text.{Text, text}
use iruka_virtual_file_syste.Dict.{Dict, get, put}
use iruka_virtual_file_syste.Cache.Ops.{PendingVersion, FileCacheEntry, MemCache, cache_metric_inc}

-- What the worker takes from an entry before it frees the lock.
pub record Flush : Type 0 where
  pub expected_db_version : ℕ
  pub final_version : ℕ
  pub final_content : Text

unfoldable pub discard_dirty : ℤ → MemCache → MemCache
discard_dirty i c = record c { dirty_ids = keep (λ j. not (j == i)) c.dirty_ids }

last_pending : PendingVersion → List PendingVersion → PendingVersion
last_pending v [] = v
last_pending v (w ∷ ws) = last_pending w ws

-- `none` when there is nothing to flush; the file is then no longer dirty.
unfoldable pub begin_flush : ℤ → MemCache → Option Flush × MemCache
unfolding last_pending discard_dirty
begin_flush i c = elim (get i c.entries) [
  | none ↦ (none, discard_dirty i c)
  | some entry ↦ elim entry.pending_versions [
    | [] ↦ (none, discard_dirty i c)
    | v ∷ vs ↦ (
      some (record {
        expected_db_version = entry.flushed_version_no;
        final_version = (last_pending v vs).version_no;
        final_content = (last_pending v vs).content_text;
      }),
      c,
    )
  ]
]

-- The columns of `virtual_file_nodes` that the UPDATE names.
pub record Row : Type 0 where
  pub content_text : Text
  pub version_no : ℕ

-- `UPDATE … WHERE id = :file_id AND version_no = :expected_version_no`, and whether it hit a row.
unfoldable pub update_row : ℤ → Flush → Dict ℤ Row → Bool × Dict ℤ Row
update_row i f db = elim (get i db) [
  | none ↦ (false, db)
  | some row ↦
      if row.version_no == f.expected_db_version
      then (
        true,
        put i (record { content_text = f.final_content; version_no = f.final_version }) db,
      )
      else (false, db)
]

max_version : ℕ → ℕ → ℕ
max_version a b = if ltb a b then b else a

flushed_entry : FileCacheEntry → ℕ → FileCacheEntry
flushed_entry entry final =
    let left = keep (λ v. ltb final v.version_no) entry.pending_versions in
    record entry {
      flushed_version_no = max_version entry.flushed_version_no final;
      pending_versions = left;
      dirty = has_some left;
    }
  where
    has_some : List PendingVersion → Bool
    has_some [] = false
    has_some (v ∷ vs) = true

-- After the UPDATE: a conflict drops the pending versions, a success the ones that it wrote.
unfoldable pub settle_flush : ℤ → Flush → Bool → MemCache → MemCache
unfolding flushed_entry max_version
settle_flush i f false c =
    let counted = cache_metric_inc (text "flush_conflict") c in
    elim (get i counted.entries) [
      | none ↦ counted
      | some entry ↦ discard_dirty i (record counted {
        entries = put i (record entry { pending_versions = []; dirty = false }) counted.entries;
      })
    ]
settle_flush i f true c =
    let counted = cache_metric_inc (text "flush_ok") c in
    elim (get i counted.entries) [
      | none ↦ discard_dirty i counted
      | some entry ↦
          let settled = flushed_entry entry f.final_version in
          let c' : MemCache = record counted { entries = put i settled counted.entries } in
          if settled.dirty then c' else discard_dirty i c'
    ]
