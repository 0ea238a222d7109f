-- ===== src/Cache/Flushing.antt =====
-- The loss of a write to a file that is too large for the cache, and the optimistic flush.
use iruka_virtual_file_syste.Prelude.{
  ◌+◌, ◌<◌, ◌≡◌, ◌∙◌, refl, ap, true, none, some, List, [], ◌∷◌, ℤ, pos, contains, int_eq, arith,
  beq_refl, add_nat,
}
use iruka_virtual_file_syste.Text.{Text, text}
use iruka_virtual_file_syste.Dict.{get, put, remove, keys}
use iruka_virtual_file_syste.Result.{ok}
use iruka_virtual_file_syste.Model.{Node, version_or_one}
use iruka_virtual_file_syste.Cache.Ops.{
  FileCacheEntry, MemCache, Limits, cache_metric_inc, touch_cache_lru, over_limits, evict_from,
  evict_cache_if_needed_locked, fresh_entry, load_cache_entry_from_node_locked, update_entry,
  write_entry, update_cache_after_write, estimate_text_bytes,
}
use iruka_virtual_file_syste.Cache.Worker.{begin_flush}
use iruka_virtual_file_syste.Cache.Accounting.{cache_metric_inc_fields}
use iruka_virtual_file_syste.Cache.Writes.{write_entry_marks}
use iruka_virtual_file_syste.Cache.Eviction.{dropped, clean_round, evict_empty}

-- A cache before its first file.
pub record IsCold (c : MemCache) : Type 0 where
  pub no_entries : c.entries ≡ []
  pub no_lru : c.lru ≡ []
  pub no_bytes : c.current_bytes ≡ pos 0

abbrev inserted : Node → MemCache → MemCache
inserted node c = record c {
  entries = put node.id (fresh_entry node) c.entries;
  current_bytes = add_nat c.current_bytes (fresh_entry node).size_bytes;
  lru = touch_cache_lru node.id c.lru;
}

module _ (limits : Limits) (node : Node) (c : MemCache) (cold : IsCold c)
    (large : limits.max_bytes < estimate_text_bytes node.content_text) where
  inserted-over : over_limits limits (inserted node c) ≡ true
  unfolding over_limits fresh_entry put
  inserted-over = rw (cold.no_entries, cold.no_bytes) (ground arith)

  get-inserted : get node.id (inserted node c).entries ≡ some (fresh_entry node)
  unfolding get put
  get-inserted = rw cold.no_entries (ground (arith, beq_refl node.id))

  lru-inserted : (inserted node c).lru ≡ node.id ∷ []
  unfolding touch_cache_lru contains
  lru-inserted = rw cold.no_lru

  abbrev after_load : MemCache
  after_load =
      cache_metric_inc (text "evicted") (dropped node.id [] (fresh_entry node) (inserted node c))

  after_load-empty : after_load.entries ≡ []
  unfolding remove put
  after_load-empty =
      (cache_metric_inc_fields (text "evicted")
        (dropped node.id [] (fresh_entry node) (inserted node c))).0
      ∙ rw cold.no_entries (ground (arith, beq_refl node.id))

  evict-inserted : evict_cache_if_needed_locked limits (inserted node c) ≡ ok after_load
  unfolding evict_cache_if_needed_locked
  evict-inserted =
      ap (λ (l : List ℤ). evict_from limits l (inserted node c)) lru-inserted
      ∙ clean_round limits node.id [] (inserted node c) inserted-over get-inserted
          (unfold fresh_entry in refl)
      ∙ evict_empty limits [] after_load after_load-empty

cache_metric_inc-IsCold : (name : Text) {c : MemCache} → IsCold c → IsCold (cache_metric_inc name c)
cache_metric_inc-IsCold name {c} h =
    let f = cache_metric_inc_fields name c in
    record { no_entries = f.0 ∙ h.no_entries; no_lru = f.1 ∙ h.no_lru; no_bytes = f.2 ∙ h.no_bytes }

load_cold :
    (limits : Limits) (node : Node) (c : MemCache) (cold : IsCold c)
    (large : limits.max_bytes < estimate_text_bytes node.content_text)
    → load_cache_entry_from_node_locked limits node c
      ≡ ok (
        fresh_entry node,
        after_load limits node
            (cache_metric_inc (text "cache_miss") c)
            (cache_metric_inc-IsCold (text "cache_miss") cold)
            large,
      )
unfolding load_cache_entry_from_node_locked
load_cold limits node c cold large =
    let missing : get node.id c.entries ≡ none = unfold get in rw cold.no_entries refl in
    rw (missing, load_cache_entry_from_node_locked)
      (rw
        (evict-inserted limits node (cache_metric_inc (text "cache_miss") c)
          (cache_metric_inc-IsCold (text "cache_miss") cold) large)
        refl)

write_entry-empty :
    (i : ℤ) (entry : FileCacheEntry) (content op : Text) (c : MemCache)
    → c.entries ≡ []
    → (write_entry i entry content op c).entries ≡ []
unfolding write_entry update_entry keys contains
write_entry-empty i entry content op c h = rw h

begin_empty : (i : ℤ) (c : MemCache) → c.entries ≡ [] → (begin_flush i c).0 ≡ none
unfolding begin_flush get
begin_empty i c h = rw h

-- In a cold cache, a write to a file whose stored content is over the byte limit returns the next
-- version and marks the file dirty, but the table stays empty: the worker finds nothing to flush,
-- and the written content is lost.
pub cold_write_lost :
    (limits : Limits) (node : Node) (content op : Text) (c : MemCache)
    → IsCold c
    → limits.max_bytes < estimate_text_bytes node.content_text
    → (c' : MemCache) × (update_cache_after_write limits node content op c
        ≡ ok (version_or_one node.version_no + 1, c'))
      × (c'.entries ≡ [])
      × (contains node.id c'.dirty_ids ≡ true)
      × ((begin_flush node.id c').0 ≡ none)
unfolding begin_flush
cold_write_lost limits node content op c cold large =
    let miss = cache_metric_inc (text "cache_miss") c in
    let cold' = cache_metric_inc-IsCold (text "cache_miss") cold in
    let loaded = after_load limits node miss cold' large in
    let wrote : MemCache = write_entry node.id (fresh_entry node) content op loaded in
    let still =
      write_entry-empty node.id (fresh_entry node) content op loaded
        (after_load-empty limits node miss cold' large) in
    let g = cache_metric_inc_fields (text "write_ops") wrote in
    (
      cache_metric_inc (text "write_ops") wrote,
      unfold update_cache_after_write fresh_entry evict_cache_if_needed_locked in
          rw (load_cold limits node c cold large)
            (rw (evict_empty limits wrote.lru wrote still) refl),
      g.0 ∙ still,
      rw g.3 (write_entry_marks node.id (fresh_entry node) content op loaded),
      begin_empty node.id (cache_metric_inc (text "write_ops") wrote) (g.0 ∙ still),
    )
