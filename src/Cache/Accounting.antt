-- ===== src/Cache/Accounting.antt =====
-- The byte counter of the cache is the sum of the sizes of its entries, every entry is in the
-- recency list, and no key stands twice in the table.
use iruka_virtual_file_syste.Prelude.{
  ℕ, ◌+◌, ◌≡◌, ap, inl, inr, true, ◌||◌, none, some, List, ◌∷◌, ℤ, pos, contains, int_eq, ◌==◌,
  arith, Bool-cases, Distinct, sub_nat, contains-append, contains-keep,
}
use iruka_virtual_file_syste.Text.{Text}
use iruka_virtual_file_syste.Dict.{Dict, get, remove, keys}
use iruka_virtual_file_syste.Dict.Laws.{
  total, total-remove, contains-keys-eq, contains-keys-remove, remove-Distinct,
}
use iruka_virtual_file_syste.Cache.Ops.{FileCacheEntry, MemCache, cache_metric_inc, touch_cache_lru}

-- Every key of the table is in the recency list.
abbrev pub Covers : Dict ℤ FileCacheEntry → List ℤ → Type 0
Covers entries lru = (k : ℤ) → contains k (keys entries) ≡ true → contains k lru ≡ true

pub record IsAccounted (c : MemCache) : Type 0 where
  pub bytes : c.current_bytes ≡ pos (total (λ (e : FileCacheEntry). e.size_bytes) c.entries)
  pub distinct : Distinct (keys c.entries)
  pub covered : Covers c.entries c.lru

pub cache_metric_inc_fields :
    (name : Text) (c : MemCache)
    → ((cache_metric_inc name c).entries ≡ c.entries)
      × ((cache_metric_inc name c).lru ≡ c.lru)
      × ((cache_metric_inc name c).current_bytes ≡ c.current_bytes)
      × ((cache_metric_inc name c).dirty_ids ≡ c.dirty_ids)
unfolding cache_metric_inc
cache_metric_inc_fields name c = ground arith

pub cache_metric_inc-IsAccounted :
    (name : Text) {c : MemCache} → IsAccounted c → IsAccounted (cache_metric_inc name c)
cache_metric_inc-IsAccounted name {c} h =
    let f = cache_metric_inc_fields name c in
    record {
      bytes = rw (f.0, f.2) h.bytes;
      distinct = rw f.0 h.distinct;
      covered = rw (f.0, f.1) h.covered;
    }

pub contains-touch_cache_lru :
    (k i : ℤ) (lru : List ℤ) → contains k (touch_cache_lru i lru) ≡ (k == i || contains k lru)
unfolding touch_cache_lru contains
contains-touch_cache_lru k i lru = elim (Bool-cases (contains i lru)) [
  | inl old ↦
      rw old (
        rw (contains-append, contains-keep)
          (ground (arith, int_eq.beq_iff k i, int_eq.beq_iff i k)))
  | inr new ↦ rw new (rw contains-append (ground (arith, int_eq.beq_iff k i, int_eq.beq_iff i k)))
]

sub_nat-total : (a b c : ℕ) → a + b ≡ c → sub_nat (pos c) b ≡ pos a
sub_nat-total a b c h = ground arith

-- An entry leaves the table and the counter together.
pub remove-IsAccounted :
    (k : ℤ) (rest : List ℤ) (entry : FileCacheEntry) {c : MemCache}
    → c.lru ≡ k ∷ rest
    → get k c.entries ≡ some entry
    → IsAccounted c
    → IsAccounted (record c {
      current_bytes = sub_nat c.current_bytes entry.size_bytes;
      entries = remove k c.entries;
      lru = rest;
    })
unfolding contains
remove-IsAccounted k rest entry {c} order found h = record {
  bytes =
      rw h.bytes
        (sub_nat-total _ _ _ (total-remove (λ e. e.size_bytes) k c.entries h.distinct found));
  distinct = remove-Distinct k c.entries h.distinct;
  covered = λ j m. ground (
    arith,
    contains-keys-remove j k c.entries,
    h.covered j,
    int_eq.beq_iff k j,
    ap (λ (l : List ℤ). contains j l) order,
  );
}

-- The head of the recency list may go when the table lacks it.
pub forget-IsAccounted :
    (k : ℤ) (rest : List ℤ) {c : MemCache}
    → c.lru ≡ k ∷ rest
    → get k c.entries ≡ none
    → IsAccounted c
    → IsAccounted (record c { lru = rest })
unfolding contains
forget-IsAccounted k rest {c} order missing h = record {
  bytes = h.bytes;
  distinct = h.distinct;
  covered = λ j m. ground (
    arith,
    contains-keys-eq j c.entries,
    h.covered j,
    int_eq.beq_iff k j,
    ap (λ (l : List ℤ). contains j l) order,
  );
}
