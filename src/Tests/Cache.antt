-- ===== src/Tests/Cache.antt =====
-- The theorems of the file cache at concrete data.
use iruka_virtual_file_syste.Prelude.{
  ◌+◌, ◌≡◌, refl, true, false, none, some, [], ◌∷◌, pos, contains, int_eq, arith,
}
use iruka_virtual_file_syste.Text.{text}
use iruka_virtual_file_syste.Dict.{keys}
use iruka_virtual_file_syste.Dict.Laws.{total}
use iruka_virtual_file_syste.Result.{ok}
use iruka_virtual_file_syste.Model.{Node, file, version_or_one}
use iruka_virtual_file_syste.Cache.Ops.{
  FileCacheEntry, MemCache, Limits, evict_cache_if_needed_locked, update_cache_after_write,
  estimate_text_bytes, load_cache_entry_from_node_locked,
}
use iruka_virtual_file_syste.Cache.Worker.{begin_flush}
use iruka_virtual_file_syste.Cache.Accounting.{IsAccounted}
use iruka_virtual_file_syste.Cache.Eviction.{Evicts, evict_cache_if_needed_locked_lem}
use iruka_virtual_file_syste.Cache.Writes.{load_lem}
use iruka_virtual_file_syste.Cache.Flushing.{cold_write_lost}

abbrev small : Limits
small = record { max_bytes = 3; max_files = 1 }

abbrev node : Node
node = record {
  id = pos 7;
  parent_id = some (pos 1);
  name = text "a";
  node_type = file;
  content_text = text "hello";
  version_no = 2;
}

abbrev entry : FileCacheEntry
entry = record {
  file_id = pos 7;
  content = text "hi";
  version_no = 2;
  flushed_version_no = 2;
  pending_versions = [];
  dirty = false;
  size_bytes = 2;
}

abbrev empty_cache : MemCache
empty_cache = record { entries = []; lru = []; dirty_ids = []; current_bytes = pos 0; metrics = [] }

abbrev one_file : MemCache
one_file = record {
  entries = (pos 7, entry) ∷ [];
  lru = pos 7 ∷ [];
  dirty_ids = [];
  current_bytes = pos 2;
  metrics = [];
}

one_file-IsAccounted : IsAccounted one_file
unfolding total keys contains
one_file-IsAccounted = record { bytes = refl; distinct = (refl, tt); covered = λ k h. h }

evict_cache_if_needed_locked_example :
    (c' : MemCache) × (evict_cache_if_needed_locked small one_file ≡ ok c')
    × Evicts small one_file c'
evict_cache_if_needed_locked_example =
    evict_cache_if_needed_locked_lem small one_file one_file-IsAccounted

load_example :
    (e : FileCacheEntry) × (c' : MemCache) × (load_cache_entry_from_node_locked small node one_file
      ≡ ok (e, c'))
    × IsAccounted c'
load_example = load_lem small node one_file one_file-IsAccounted

cold_write_lost_example :
    (c' : MemCache) × (update_cache_after_write small node (text "bye") (text "edit") empty_cache
      ≡ ok (version_or_one node.version_no + 1, c'))
    × (c'.entries ≡ [])
    × (contains node.id c'.dirty_ids ≡ true)
    × ((begin_flush node.id c').0 ≡ none)
unfolding estimate_text_bytes text
cold_write_lost_example =
    cold_write_lost small node (text "bye") (text "edit") empty_cache
      (record { no_entries = refl; no_lru = refl; no_bytes = refl }) (omega arith)
