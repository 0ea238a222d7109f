-- ===== src/Cache/Writes.antt =====
-- Loading and writing keep the accounting of the cache, and a write to a cached file stays. A
-- file whose stored content is over the byte limit is evicted by its own load: its write is lost.
use iruka_virtual_file_syste.Prelude.{
  ◌≡◌, refl, inl, inr, true, none, [], ◌∷◌, ℤ, contains, int_eq, arith, Option-cases, beq_refl,
  add_nat, contains-append,
}
use iruka_virtual_file_syste.Text.{Text, text}
use iruka_virtual_file_syste.Dict.{get, put}
use iruka_virtual_file_syste.Dict.Laws.{total-put_new, contains-keys-put, put-Distinct}
use iruka_virtual_file_syste.Result.{ok}
use iruka_virtual_file_syste.Model.{Node}
use iruka_virtual_file_syste.Cache.Ops.{
  FileCacheEntry, MemCache, Limits, cache_metric_inc, touch_cache_lru, fresh_entry,
  load_cache_entry_from_node_locked, write_entry,
}
use iruka_virtual_file_syste.Cache.Accounting.{
  IsAccounted, cache_metric_inc_fields, cache_metric_inc-IsAccounted, contains-touch_cache_lru,
}
use iruka_virtual_file_syste.Cache.Eviction.{evict_cache_if_needed_locked_lem}

touch-IsAccounted :
    (i : ℤ) {c : MemCache}
    → IsAccounted c
    → IsAccounted (record c { lru = touch_cache_lru i c.lru })
touch-IsAccounted i {c} h = record {
  bytes = h.bytes;
  distinct = h.distinct;
  covered = λ k m. ground (arith, h.covered k, contains-touch_cache_lru k i c.lru);
}

-- A new entry enters the table, the counter and the recency list.
insert-IsAccounted :
    (i : ℤ) (entry : FileCacheEntry) {c : MemCache}
    → get i c.entries ≡ none
    → IsAccounted c
    → IsAccounted (record c {
      entries = put i entry c.entries;
      current_bytes = add_nat c.current_bytes entry.size_bytes;
      lru = touch_cache_lru i c.lru;
    })
insert-IsAccounted i entry {c} missing h = record {
  bytes = rw h.bytes (
      ground
        (arith, total-put_new (λ (e : FileCacheEntry). e.size_bytes) i entry c.entries missing));
  distinct = put-Distinct i entry c.entries h.distinct;
  covered = λ k m. ground (
    arith,
    h.covered k,
    contains-touch_cache_lru k i c.lru,
    contains-keys-put k i entry c.entries,
  );
}

-- From an accounted cache a load returns, with an accounted cache.
pub load_lem :
    (limits : Limits) (node : Node) (c : MemCache)
    → IsAccounted c
    → (entry : FileCacheEntry) × (c' : MemCache) × (load_cache_entry_from_node_locked limits node c
        ≡ ok (entry, c'))
      × IsAccounted c'
unfolding load_cache_entry_from_node_locked
load_lem limits node c h = elim (Option-cases (get node.id c.entries)) [
  | inl missing ↦
      let miss = cache_metric_inc (text "cache_miss") c in
      let f = cache_metric_inc_fields (text "cache_miss") c in
      let (c', e, r) = evict_cache_if_needed_locked_lem limits _ (
        insert-IsAccounted node.id (fresh_entry node) {c = miss} (rw f.0 missing)
          (cache_metric_inc-IsAccounted (text "cache_miss") h)) in
      (
        fresh_entry node,
        c',
        rw (missing, load_cache_entry_from_node_locked) (rw e refl),
        r.accounted,
      )
  | inr (entry, found) ↦
      let hit = cache_metric_inc (text "cache_hit") c in
      (
        entry,
        record hit { lru = touch_cache_lru node.id hit.lru },
        rw (found, load_cache_entry_from_node_locked) refl,
        touch-IsAccounted node.id (cache_metric_inc-IsAccounted (text "cache_hit") h),
      )
]

pub write_entry_marks :
    (i : ℤ) (entry : FileCacheEntry) (content op : Text) (c : MemCache)
    → contains i (write_entry i entry content op c).dirty_ids ≡ true
unfolding write_entry contains
write_entry_marks i entry content op c =
    ground (arith, contains-append i c.dirty_ids (i ∷ []), beq_refl i)
