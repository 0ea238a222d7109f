-- ===== src/Cache/Eviction.antt =====
-- Eviction ends, keeps the accounting, and never drops an entry that waits to be flushed.
use iruka_virtual_file_syste.Prelude.{
  ◌≡◌, ◌≢◌, ◌∙◌, refl, ap, inl, inr, ◌⊎◌, true, false, none, some, List, [], ◌∷◌, ℤ, contains,
  int_eq, arith, Bool-cases, Option-cases, beq_refl, sub_nat,
}
use iruka_virtual_file_syste.Text.{text}
use iruka_virtual_file_syste.Dict.{Dict, get, remove, keys}
use iruka_virtual_file_syste.Dict.Laws.{get-remove}
use iruka_virtual_file_syste.Result.{ok}
use iruka_virtual_file_syste.Cache.Ops.{
  FileCacheEntry, MemCache, Limits, cache_metric_inc, over_limits, evict_from,
  evict_cache_if_needed_locked,
}
use iruka_virtual_file_syste.Cache.Accounting.{
  IsAccounted, cache_metric_inc_fields, cache_metric_inc-IsAccounted, remove-IsAccounted,
  forget-IsAccounted,
}

-- The cache is within its limits, or the least recently used entry has unflushed content.
abbrev pub IsSettled : Limits → MemCache → Type 0
IsSettled limits c =
    (over_limits limits c ≡ false)
    ⊎ ((k : ℤ) × (rest : List ℤ) × (entry : FileCacheEntry) × (c.lru ≡ k ∷ rest)
        × (get k c.entries ≡ some entry)
        × (entry.dirty ≡ true))

-- Entries with unflushed content stay as they are.
abbrev pub KeepsDirty : MemCache → MemCache → Type 0
KeepsDirty c c' =
    (k : ℤ) (entry : FileCacheEntry)
    → get k c.entries ≡ some entry
    → entry.dirty ≡ true
    → get k c'.entries ≡ some entry

pub record Evicts (limits : Limits) (c c' : MemCache) : Type 0 where
  pub accounted : IsAccounted c'
  pub settled : IsSettled limits c'
  pub keeps_dirty : KeepsDirty c c'
  pub same_dirty_ids : c'.dirty_ids ≡ c.dirty_ids

over_limits-nonempty :
    (limits : Limits) (c : MemCache) → over_limits limits c ≡ true → c.entries ≢ []
unfolding over_limits
over_limits-nonempty limits c h = ground arith

covers_nothing : (c : MemCache) → IsAccounted c → c.lru ≡ [] → c.entries ≡ []
unfolding contains keys
covers_nothing c h none_left = go c.entries refl
  where
    go : (d : Dict ℤ FileCacheEntry) → c.entries ≡ d → c.entries ≡ []
    go [] e = e
    go ((k, v) ∷ d) e = ground (
      arith,
      h.covered k,
      ap (λ (t : Dict ℤ FileCacheEntry). contains k (keys t)) e,
      ap (λ (l : List ℤ). contains k l) none_left,
      beq_refl k,
    )

-- One round of the loop, for each way it goes on.
abbrev pub dropped : ℤ → List ℤ → FileCacheEntry → MemCache → MemCache
dropped k rest entry c = record c {
  current_bytes = sub_nat c.current_bytes entry.size_bytes;
  entries = remove k c.entries;
  lru = rest;
}

module _ (limits : Limits) (k : ℤ) (rest : List ℤ) (c : MemCache) where
  within_round : over_limits limits c ≡ false → evict_from limits (k ∷ rest) c ≡ ok c
  unfolding evict_from
  within_round h = rw (h, evict_from)

  missing_round :
      over_limits limits c ≡ true
      → get k c.entries ≡ none
      → evict_from limits (k ∷ rest) c ≡ evict_from limits rest (record c { lru = rest })
  unfolding evict_from
  missing_round h m = rw (h, m, evict_from)

  dirty_round :
      {entry : FileCacheEntry}
      → get k c.entries ≡ some entry
      → entry.dirty ≡ true
      → evict_from limits (k ∷ rest) c ≡ ok c
  unfolding evict_from
  dirty_round f d = elim (Bool-cases (over_limits limits c)) [
    | inl over ↦ rw (over, f, d, evict_from)
    | inr within ↦ rw (within, evict_from)
  ]

  pub clean_round :
      {entry : FileCacheEntry}
      → over_limits limits c ≡ true
      → get k c.entries ≡ some entry
      → entry.dirty ≡ false
      → evict_from limits (k ∷ rest) c
        ≡ evict_from limits rest (cache_metric_inc (text "evicted") (dropped k rest entry c))
  unfolding evict_from
  clean_round h f d = rw (h, f, d, evict_from)

Evicts-refl :
    (limits : Limits) (c : MemCache) → IsAccounted c → IsSettled limits c → Evicts limits c c
Evicts-refl limits c h s = record {
  accounted = h;
  settled = s;
  keeps_dirty = λ k e p d. p;
  same_dirty_ids = refl;
}

-- A round that drops the clean entry `k`, followed by others.
dropped-Evicts :
    (limits : Limits) (k : ℤ) (rest : List ℤ) (entry : FileCacheEntry) (c c' : MemCache)
    → get k c.entries ≡ some entry
    → entry.dirty ≡ false
    → Evicts limits (cache_metric_inc (text "evicted") (dropped k rest entry c)) c'
    → Evicts limits c c'
dropped-Evicts limits k rest entry c c' found clean r =
    let f = cache_metric_inc_fields (text "evicted") (dropped k rest entry c) in
    record {
      accounted = r.accounted;
      settled = r.settled;
      keeps_dirty = λ j e p d.
          r.keeps_dirty j e
            (rw (f.0, get-remove j k c.entries)
              (ground (arith, int_eq.beq_iff k j, ap (λ (i : ℤ). get i c.entries) {x = k} {y = j})))
            d;
      same_dirty_ids = r.same_dirty_ids ∙ f.3;
    }

evict_from_lem :
    (limits : Limits) (lru : List ℤ) (c : MemCache)
    → c.lru ≡ lru
    → IsAccounted c
    → (c' : MemCache) × (evict_from limits lru c ≡ ok c') × Evicts limits c c'
evict_from_lem limits [] c order h = elim (Bool-cases (over_limits limits c)) [
  | inl over ↦ absurd (over_limits-nonempty limits c over (covers_nothing c h order))
  | inr within ↦ (c, unfold evict_from in rw within refl, Evicts-refl limits c h (inl within))
]
evict_from_lem limits (k ∷ rest) c order h = elim (Bool-cases (over_limits limits c)) [
  | inr within ↦ (c, within_round limits k rest c within, Evicts-refl limits c h (inl within))
  | inl over ↦ elim (Option-cases (get k c.entries)) [
    | inl missing ↦
        let (c', e, r) =
          evict_from_lem limits rest (record c { lru = rest }) refl
            (forget-IsAccounted k rest order missing h) in
        (
          c',
          missing_round limits k rest c over missing ∙ e,
          record {
            accounted = r.accounted;
            settled = r.settled;
            keeps_dirty = r.keeps_dirty;
            same_dirty_ids = r.same_dirty_ids;
          },
        )
    | inr (entry, found) ↦ elim (Bool-cases entry.dirty) [
      | inl kept ↦ (
        c,
        dirty_round limits k rest c found kept,
        Evicts-refl limits c h (inr (k, rest, entry, order, found, kept)),
      )
      | inr clean ↦
          let (c', e, r) =
            evict_from_lem limits rest (cache_metric_inc (text "evicted") (dropped k rest entry c))
              ((cache_metric_inc_fields (text "evicted") (dropped k rest entry c)).1)
              (cache_metric_inc-IsAccounted (text "evicted")
                (remove-IsAccounted k rest entry order found h)) in
          (
            c',
            clean_round limits k rest c over found clean ∙ e,
            dropped-Evicts limits k rest entry c c' found clean r,
          )
    ]
  ]
]

-- From an accounted cache, eviction returns: it never runs out of keys. The cache is accounted
-- again, it is within its limits or its oldest entry is unflushed, and no unflushed entry is lost.
pub evict_cache_if_needed_locked_lem :
    (limits : Limits) (c : MemCache)
    → IsAccounted c
    → (c' : MemCache) × (evict_cache_if_needed_locked limits c ≡ ok c') × Evicts limits c c'
unfolding evict_cache_if_needed_locked
evict_cache_if_needed_locked_lem limits c h = evict_from_lem limits c.lru c refl h

-- An empty table is left as it is.
pub evict_empty :
    (limits : Limits) (lru : List ℤ) (c : MemCache)
    → c.entries ≡ []
    → evict_from limits lru c ≡ ok c
unfolding evict_from over_limits
evict_empty limits [] c h = rw h
evict_empty limits (k ∷ rest) c h = rw h
