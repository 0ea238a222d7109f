-- ===== src/Cache/Ops.antt =====
-- `cache/ops.py`. The table, the recency list and the counters are one state. Access times are not
-- modelled: nothing reads them.
use iruka_virtual_file_syste.Prelude.{
  ℕ, ◌+◌, Bool, true, false, not, ◌&&◌, ◌||◌, none, some, List, [], ◌∷◌, ◌++◌, ℤ, pos, negsuc,
  length, keep, contains, int_eq, nat_eq, list_eq, ◌==◌, ltb, add_nat, sub_nat, if◌then◌else◌,
}
use iruka_virtual_file_syste.Text.{Text, text}
use iruka_virtual_file_syste.Dict.{Dict, get, put, remove, keys}
use iruka_virtual_file_syste.Result.{Result, ok, raise, stop_iteration, ◌>>=◌}
use iruka_virtual_file_syste.Model.{Node, version_or_one}

pub record PendingVersion : Type 0 where
  pub version_no : ℕ
  pub base_version_no : ℕ
  pub op : Text
  pub content_text : Text

pub record FileCacheEntry : Type 0 where
  pub file_id : ℤ
  pub content : Text
  pub version_no : ℕ
  pub flushed_version_no : ℕ
  pub pending_versions : List PendingVersion
  pub dirty : Bool
  pub size_bytes : ℕ

-- The `mem_cache_…` variables; `lru` has the oldest key first.
pub record MemCache : Type 0 where
  pub entries : Dict ℤ FileCacheEntry
  pub lru : List ℤ
  pub dirty_ids : List ℤ
  pub current_bytes : ℤ
  pub metrics : Dict Text ℕ

-- MEMORY_CACHE_MAX_BYTES and MEMORY_CACHE_MAX_FILES, which the environment sets.
pub record Limits : Type 0 where
  pub max_bytes : ℕ
  pub max_files : ℕ

utf8_bytes : ℕ → ℕ
utf8_bytes c = if ltb c 128 then 1 else if ltb c 2048 then 2 else if ltb c 65536 then 3 else 4

unfoldable pub estimate_text_bytes : Text → ℕ
unfolding utf8_bytes
estimate_text_bytes [] = 0
estimate_text_bytes (c ∷ s) = utf8_bytes c + estimate_text_bytes s

unfoldable pub cache_metric_inc : Text → MemCache → MemCache
cache_metric_inc name c = elim (get name c.metrics) [
  | none ↦ c
  | some n ↦ record c { metrics = put name (n + 1) c.metrics }
]

unfoldable pub touch_cache_lru : ℤ → List ℤ → List ℤ
touch_cache_lru i lru =
    if contains i lru then keep (λ j. not (j == i)) lru ++ (i ∷ []) else lru ++ (i ∷ [])

-- The test of the eviction loop.
unfoldable pub over_limits : Limits → MemCache → Bool
over_limits limits c =
    has_entries c.entries && (exceeds c.current_bytes || ltb limits.max_files (length c.entries))
  where
    has_entries : Dict ℤ FileCacheEntry → Bool
    has_entries [] = false
    has_entries (e ∷ d) = true

    exceeds : ℤ → Bool
    exceeds (pos n) = ltb limits.max_bytes n
    exceeds (negsuc n) = false

-- The loop over the recency list, whose head each round reads; `next` of an empty one raises.
unfoldable pub evict_from : Limits → List ℤ → MemCache → Result MemCache
evict_from limits [] c = if over_limits limits c then raise stop_iteration else ok c
evict_from limits (oldest ∷ rest) c = elim (over_limits limits c) [
  | false ↦ ok c
  | true ↦ elim (get oldest c.entries) [
    | none ↦ evict_from limits rest (record c { lru = rest })
    | some entry ↦ elim entry.dirty [
      | true ↦ ok c
      | false ↦ evict_from limits rest (
          cache_metric_inc (text "evicted") (record c {
            current_bytes = sub_nat c.current_bytes entry.size_bytes;
            entries = remove oldest c.entries;
            lru = rest;
          }))
    ]
  ]
]

unfoldable pub evict_cache_if_needed_locked : Limits → MemCache → Result MemCache
unfolding evict_from
evict_cache_if_needed_locked limits c = evict_from limits c.lru c

unfoldable pub fresh_entry : Node → FileCacheEntry
fresh_entry node = record {
  file_id = node.id;
  content = node.content_text;
  version_no = version_or_one node.version_no;
  flushed_version_no = version_or_one node.version_no;
  pending_versions = [];
  dirty = false;
  size_bytes = estimate_text_bytes node.content_text;
}

-- The entry of a node, and the cache after it is looked up. A new entry may be evicted at once:
-- then the caller holds an entry that the table lacks.
unfoldable pub load_cache_entry_from_node_locked :
    Limits → Node → MemCache → Result (FileCacheEntry × MemCache)
unfolding fresh_entry
load_cache_entry_from_node_locked limits node c = elim (get node.id c.entries) [
  | some existing ↦
      let hit = cache_metric_inc (text "cache_hit") c in
      ok (existing, record hit { lru = touch_cache_lru node.id hit.lru })
  | none ↦ do
    let entry = fresh_entry node
    let miss = cache_metric_inc (text "cache_miss") c
    c' ← evict_cache_if_needed_locked limits (record miss {
      entries = put node.id entry miss.entries;
      current_bytes = add_nat miss.current_bytes entry.size_bytes;
      lru = touch_cache_lru node.id miss.lru;
    })
    ok (entry, c')
]

-- The entry object is shared with the table only while the table holds it.
unfoldable pub update_entry : ℤ → FileCacheEntry → Dict ℤ FileCacheEntry → Dict ℤ FileCacheEntry
update_entry i entry entries = if contains i (keys entries) then put i entry entries else entries

unfoldable pub written_entry : FileCacheEntry → Text → Text → FileCacheEntry
written_entry entry content op = record entry {
  content = content;
  version_no = entry.version_no + 1;
  dirty = true;
  size_bytes = estimate_text_bytes content;
  pending_versions =
      entry.pending_versions
      ++ (record {
        version_no = entry.version_no + 1;
        base_version_no = entry.version_no;
        op = op;
        content_text = content;
      }
          ∷ []);
}

-- What `update_cache_after_write` does to the table before it evicts.
unfoldable pub write_entry : ℤ → FileCacheEntry → Text → Text → MemCache → MemCache
unfolding written_entry
write_entry i entry content op c = record c {
  entries = update_entry i (written_entry entry content op) c.entries;
  dirty_ids = (if contains i c.dirty_ids then c.dirty_ids else c.dirty_ids ++ (i ∷ []));
  current_bytes = add_nat (sub_nat c.current_bytes entry.size_bytes) (estimate_text_bytes content);
  lru = touch_cache_lru i c.lru;
}

unfoldable pub update_cache_after_write :
    Limits → Node → Text → Text → MemCache → Result (ℕ × MemCache)
update_cache_after_write limits node content op c = do
  (entry, loaded) ← load_cache_entry_from_node_locked limits node c
  evicted ← evict_cache_if_needed_locked limits (write_entry node.id entry content op loaded)
  ok (entry.version_no + 1, cache_metric_inc (text "write_ops") evicted)
