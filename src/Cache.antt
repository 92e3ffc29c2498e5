-- ===== src/Cache.antt =====
-- The direct-mapped cache of resolved regions, `ResolveCache` of crates/tvm-core/src/cache.rs. The
-- three counters are `u64`; `& CACHE_MASK` of eight slots is a remainder.
pub mod Coherence
use tvm_wasm.Base.{
  ℕ, ◌+◌, ◌%◌, Bool, true, false, not, ◌==◌, ◌&&◌, if◌then◌else◌, List, [], ◌∷◌, Option, none, some,
  replicate, get_elem?, set, u64_mod,
}
use tvm_wasm.Region.{Region, is_resident}

pub record CacheSlot : Type 0 where
  pub valid : Bool
  pub region_id : ℕ
  pub generation : ℕ
  pub capacity : ℕ
  pub residency_hot : Bool
  pub data_ptr : ℕ
  pub data_len : ℕ

pub record ResolveCache : Type 0 where
  pub slots : List CacheSlot
  pub hits : ℕ
  pub misses : ℕ
  pub invalidations : ℕ

pub record ResolveHit : Type 0 where
  pub generation : ℕ
  pub capacity : ℕ
  pub resident : Bool

pub record FastHit : Type 0 where
  pub generation : ℕ
  pub capacity : ℕ
  pub resident : Bool
  pub data_ptr : ℕ
  pub data_len : ℕ

abbrev pub cache_slots : ℕ
cache_slots = 8

abbrev pub empty_slot : CacheSlot
empty_slot = record {
  valid = false;
  region_id = 0;
  generation = 0;
  capacity = 0;
  residency_hot = false;
  data_ptr = 0;
  data_len = 0;
}

unfoldable pub new : ResolveCache
new = record { slots = replicate cache_slots empty_slot; hits = 0; misses = 0; invalidations = 0 }

-- The slot that an id falls on; there is one, since the array has `cache_slots` elements.
abbrev pub or_empty : Option CacheSlot → CacheSlot
or_empty none = empty_slot
or_empty (some s) = s

abbrev pub slot_of : ResolveCache → ℕ → CacheSlot
slot_of c region_id = or_empty (get_elem? c.slots (region_id % cache_slots))

abbrev pub to_hit : CacheSlot → ResolveHit
to_hit s = record { generation = s.generation; capacity = s.capacity; resident = s.residency_hot }

abbrev pub to_fast_hit : CacheSlot → FastHit
to_fast_hit s = record {
  generation = s.generation;
  capacity = s.capacity;
  resident = s.residency_hot;
  data_ptr = s.data_ptr;
  data_len = s.data_len;
}

unfoldable pub lookup : ResolveCache → ℕ → Option ResolveHit × ResolveCache
lookup c region_id =
    let slot = slot_of c region_id in
    if slot.valid && slot.region_id == region_id
    then (some (to_hit slot), record c { hits = (c.hits + 1) % u64_mod })
    else (none, record c { misses = (c.misses + 1) % u64_mod })

unfoldable pub lookup_fast : ResolveCache → ℕ → Option FastHit × ResolveCache
lookup_fast c region_id =
    let slot = slot_of c region_id in
    if (slot.valid && slot.region_id == region_id) && not (slot.data_ptr == 0)
    then (some (to_fast_hit slot), record c { hits = (c.hits + 1) % u64_mod })
    else (none, record c { misses = (c.misses + 1) % u64_mod })

-- The slot that an install writes.
abbrev pub filled : Region → ℕ → ℕ → CacheSlot
filled r data_ptr data_len = record {
  valid = true;
  region_id = r.id;
  generation = r.generation;
  capacity = r.capacity;
  residency_hot = is_resident r.residency;
  data_ptr = data_ptr;
  data_len = data_len;
}

unfoldable pub install_with_data : ResolveCache → Region → ℕ → ℕ → FastHit × ResolveCache
install_with_data c r data_ptr data_len =
    let slot = filled r data_ptr data_len in
    (to_fast_hit slot, record c { slots = set c.slots (r.id % cache_slots) slot })

unfoldable pub install : ResolveCache → Region → ResolveHit × ResolveCache
install c r =
    let slot = filled r 0 0 in
    (to_hit slot, record c { slots = set c.slots (r.id % cache_slots) slot })

abbrev pub emptied : CacheSlot → CacheSlot
emptied s = record s { valid = false }

unfoldable pub invalidate : ResolveCache → ℕ → ResolveCache
invalidate c region_id =
    let slot = slot_of c region_id in
    if slot.valid && slot.region_id == region_id
    then record c {
      slots = set c.slots (region_id % cache_slots) (emptied slot);
      invalidations = (c.invalidations + 1) % u64_mod;
    }
    else c

-- The loop of `invalidate_all`: the slots, and the count of the valid ones among them.
unfoldable pub clear_slots : List CacheSlot → ℕ → List CacheSlot × ℕ
clear_slots [] n = ([], n)
clear_slots (s ∷ r) n =
    let (r', n') = clear_slots r (if s.valid then (n + 1) % u64_mod else n) in
    ((if s.valid then emptied s else s) ∷ r', n')

unfoldable pub invalidate_all : ResolveCache → ResolveCache
invalidate_all c =
    let (slots', n) = clear_slots c.slots c.invalidations in
    record c { slots = slots'; invalidations = n }
