-- ===== src/KvCache/Defs.antt =====
-- The state of the cache, and the functions that run under its lock.
use inferflux.Prelude.{
  ℕ, zero, suc, ◌+◌, ◌-◌, ◌*◌, ◌/◌, ◌%◌, ◌^◌, Bool, true, false, not, ◌&&◌, Option, none, some,
  List, [], ◌∷◌, leb, ◌==◌, if◌then◌else◌, get_elem?, get_or, set, length, replicate,
}
use inferflux.Prelude.Int.{ℤ, pos, ltb_ℤ, index?, dec_ℤ}

-- `KVPage`. A `float` is only moved, so it stands as its bit pattern: `0.0f` is 0.
pub record Page : Type 0 where
  pub floats : List ℕ
  pub in_use : Bool
  pub ref_count : ℤ
  pub last_used : ℕ
  pub dirty : Bool

-- `EvictionPolicy`.
pub data Policy : Type 0 where
  lru clock : Policy

-- `PagedKVCache`. `persisted` are the tasks given to the file writer, the latest first: the page
-- and what to write.
pub record Cache : Type 0 where
  pub page_size_bytes : ℕ
  pub pages : List Page
  pub host_blocks : List Page
  pub offload_path : List ℕ
  pub persisted : List (ℕ × List ℕ)
  pub usage_counter : ℕ
  pub policy : Policy
  pub clock_ref_bits : List Bool
  pub clock_hand : ℕ
  pub writer_running : Bool
  pub writer_workers : ℕ
  pub writer_queue_depth : ℕ

abbrev pub u64 : ℕ
u64 = 2 ^ 64

abbrev pub new_page : Page
new_page = record { floats = []; in_use = false; ref_count = pos 0; last_used = 0; dirty = false }

-- The constructor.
unfoldable pub init : ℕ → ℕ → Policy → Cache
init pages page_size_bytes policy = record {
  page_size_bytes = page_size_bytes;
  pages = replicate pages new_page;
  host_blocks = replicate (pages * 2) new_page;
  offload_path = [];
  persisted = [];
  usage_counter = 0;
  policy = policy;
  clock_ref_bits = replicate pages false;
  clock_hand = 0;
  writer_running = false;
  writer_workers = 1;
  writer_queue_depth = 256;
}

abbrev pub is_empty : List ℕ → Bool
is_empty [] = true
is_empty (x ∷ xs) = false

-- `usage_counter_++` of a `uint64_t`.
abbrev pub tick : ℕ → ℕ
tick n = (n + 1) % u64

-- The clock's loop: `rounds` are left. A bit is cleared where a free page is passed by.
unfoldable pub clock_scan : ℕ → List Page → List Bool → ℕ → Option ℕ × List Bool × ℕ
clock_scan zero pages bits hand = (none, bits, hand)
clock_scan (suc rounds) pages bits hand =
    let idx = if leb (length pages) hand then 0 else hand in
    let next = (idx + 1) % length pages in
    let used = (get_or pages idx new_page).in_use in
    let rest = clock_scan rounds pages (if used then bits else set bits idx false) next in
    if used then rest else if get_or bits idx false then rest else (some idx, bits, next)

-- The first page that is not in use, from position `i` on.
unfoldable pub first_free : List Page → ℕ → Option ℕ
first_free [] i = none
first_free (p ∷ ps) i = let rest = first_free ps (i + 1) in if p.in_use then rest else some i

-- The loop of the LRU policy.
unfoldable pub lru_scan : List Page → ℕ → ℕ → Option ℕ → Option ℕ
lru_scan [] i oldest candidate = candidate
lru_scan (p ∷ ps) i oldest candidate =
    let take_it = not p.in_use && leb p.last_used oldest in
    lru_scan ps (i + 1) (if take_it then p.last_used else oldest)
      (if take_it then some i else candidate)

-- The clock's fallback: any page that is not in use.
unfoldable pub clock_candidate : List Page → Option ℕ × List Bool × ℕ → Option ℕ × List Bool × ℕ
clock_candidate pages (some i, bits, hand) = (some i, bits, hand)
clock_candidate pages (none, bits, hand) = (first_free pages 0, bits, hand)

-- `SelectEvictionCandidate`: the page (`none` for -1), and the clock's new state.
unfoldable pub select_candidate : Cache → Option ℕ × List Bool × ℕ
select_candidate c = elim c.policy [
  | lru ↦ (lru_scan c.pages 0 (u64 - 1) none, c.clock_ref_bits, c.clock_hand)
  | clock ↦
      clock_candidate c.pages
        (clock_scan (length c.pages * 2) c.pages c.clock_ref_bits c.clock_hand)
]

abbrev pub put_page : Cache → ℕ → Page → Cache
put_page c i p = record c { pages = set c.pages i p }

abbrev pub zeros : ℕ → List ℕ
zeros bytes = replicate (bytes / 4) 0

-- The page that `AcquirePageLocked` makes of a selected one.
abbrev pub fresh_page : ℕ → ℕ → Page → Page
fresh_page page_size_bytes now p = record p {
  floats = if length p.floats == page_size_bytes / 4 then p.floats else zeros page_size_bytes;
  in_use = true;
  ref_count = pos 1;
  last_used = now;
  dirty = false;
}

-- `AcquirePageLocked`.
unfoldable pub acquire_page : Cache → ℕ → Cache
acquire_page c i = elim (get_elem? c.pages i) [
  | none ↦ c
  | some p ↦ record c {
    pages = set c.pages i (fresh_page c.page_size_bytes c.usage_counter p);
    usage_counter = tick c.usage_counter;
    clock_ref_bits = set c.clock_ref_bits i true;
  }
]

-- `PersistPage`: nothing without an offload path.
abbrev pub persist : Cache → ℕ → List ℕ → Cache
persist c i values =
    if is_empty c.offload_path then c else record c { persisted = (i, values) ∷ c.persisted }

abbrev pub freed_page : Page → Page
freed_page p = record p {
  floats = [];
  in_use = false;
  ref_count = dec_ℤ p.ref_count;
  dirty = false;
}

-- The part of `ReleasePageLocked` behind the last owner's release.
unfoldable pub free_page : Cache → ℕ → Page → Cache
free_page c i p =
    let saved = if not (is_empty p.floats) && p.dirty then persist c i p.floats else c in
    record saved {
      pages = set c.pages i (freed_page p);
      clock_ref_bits = set c.clock_ref_bits i false;
    }

-- `ReleasePageLocked`.
unfoldable pub release_page : Cache → ℤ → Cache
release_page c page_id = elim (index? page_id (length c.pages)) [
  | none ↦ c
  | some i ↦ elim (get_elem? c.pages i) [
    | none ↦ c
    | some p ↦
        if ltb_ℤ (pos 0) (dec_ℤ p.ref_count)
        then put_page c i (record p { ref_count = dec_ℤ p.ref_count })
        else free_page c i p
  ]
]
