-- ===== src/KvCache/Ops.antt =====
-- The public methods of the cache. A method that throws leaves the cache as it was at the throw.
use inferflux.Prelude.{
  ℕ, zero, suc, ◌-◌, Bool, true, false, not, ◌&&◌, Option, none, some, List, [], ◌∷◌, ◌++◌, ◌==◌,
  if◌then◌else◌, get_elem?, get_or, set, length, modify,
}
use inferflux.Prelude.Int.{ℤ, index?, inc_ℤ}
use inferflux.KvCache.Defs.{
  Page, Policy, Cache, tick, is_empty, new_page, first_free, select_candidate, acquire_page,
  persist, release_page,
}

-- `std::runtime_error`, `std::out_of_range` and `std::invalid_argument`.
pub data Error : Type 0 where
  exhausted exhausted_blocks invalid_page host_exhausted size_mismatch : Error

pub data Outcome (A : Type 0) : Type 0 where
  returns : A → Cache → Outcome A
  throws : Error → Cache → Outcome A

abbrev pub with_clock : Cache → List Bool × ℕ → Cache
with_clock c (bits, hand) = record c { clock_ref_bits = bits; clock_hand = hand }

-- `SelectEvictionCandidate` and `AcquirePageLocked`: the page, or none, and the cache.
unfoldable pub take_page : Cache → Option ℕ × Cache
take_page c =
    let (candidate, bits, hand) = select_candidate c in
    let c' = with_clock c (bits, hand) in
    elim candidate [ none ↦ (none, c') | some i ↦ (some i, acquire_page c' i) ]

-- `ReservePage`.
unfoldable pub reserve_page : Cache → Outcome ℕ
reserve_page c =
    let (candidate, c') = take_page c in
    elim candidate [ none ↦ throws exhausted c' | some i ↦ returns i c' ]

-- `pages_[id].in_use = false`.
unfoldable pub mark_free : List Page → ℕ → List Page
mark_free [] i = []
mark_free (p ∷ pages) zero = record p { in_use = false } ∷ pages
mark_free (p ∷ pages) (suc i) = p ∷ mark_free pages i

-- The rollback of `ReserveBlocks`.
unfoldable pub unreserve : List ℕ → List Page → List Page
unreserve [] pages = pages
unreserve (i ∷ ids) pages = unreserve ids (mark_free pages i)

-- The loop of `ReserveBlocks`: `n` rounds are left.
unfoldable pub reserve_loop : ℕ → List ℕ → Cache → Outcome (List ℕ)
reserve_loop zero reserved c = returns reserved c
reserve_loop (suc n) reserved c =
    let (candidate, c') = take_page c in
    elim candidate [
      | none ↦ throws exhausted_blocks (record c' { pages = unreserve reserved c'.pages })
      | some i ↦ reserve_loop n (reserved ++ i ∷ []) c'
    ]

-- `ReserveBlocks`.
unfoldable pub reserve_blocks : ℕ → Cache → Outcome (List ℕ)
reserve_blocks n c = reserve_loop n [] c

-- `ReleaseBlocks`, which is also `ReleaseBlocksRef`. (`ReleasePage` is `release_page`.)
unfoldable pub release_blocks : List ℤ → Cache → Cache
release_blocks [] c = c
release_blocks (i ∷ ids) c = release_blocks ids (release_page c i)

-- `ref_count++`.
abbrev pub shared : Page → Page
shared p = record p { ref_count = inc_ℤ p.ref_count }

-- One round of `AcquireBlocks`.
unfoldable pub share_page : Cache → ℤ → Cache
share_page c page_id = elim (index? page_id (length c.pages)) [
  | none ↦ c
  | some i ↦ record c { pages = modify c.pages i shared }
]

-- `AcquireBlocks`.
unfoldable pub acquire_blocks : List ℤ → Cache → Cache
acquire_blocks [] c = c
acquire_blocks (i ∷ ids) c = acquire_blocks ids (share_page c i)

-- `Write`.
unfoldable pub write : ℤ → List ℕ → Cache → Outcome (Unit {0})
write page_id values c = elim (index? page_id (length c.pages)) [
  | none ↦ throws invalid_page c
  | some i ↦ elim (get_elem? c.pages i) [
    | none ↦ throws invalid_page c
    | some p ↦ returns tt (
        persist
          (record c {
            pages =
                set c.pages i
                  (record p { floats = values; dirty = true; last_used = c.usage_counter });
            usage_counter = tick c.usage_counter;
            clock_ref_bits = set c.clock_ref_bits i true;
          })
          i values)
  ]
]

-- `Read`: `on_disk i` is what `LoadPage` finds in the file of page `i`.
unfoldable pub read : (ℕ → List ℕ) → ℤ → Cache → Outcome (List ℕ)
read on_disk page_id c = elim (index? page_id (length c.pages)) [
  | none ↦ throws invalid_page c
  | some i ↦ elim (get_elem? c.pages i) [
    | none ↦ throws invalid_page c
    | some p ↦
        let values =
          if is_empty p.floats && not (is_empty c.offload_path) then on_disk i else p.floats in
        returns values (record c {
          pages = set c.pages i (record p { floats = values; last_used = c.usage_counter });
          usage_counter = tick c.usage_counter;
          clock_ref_bits = set c.clock_ref_bits i true;
        })
  ]
]

-- One page of `SwapOut`: its values move to host block `h`.
abbrev pub move_out : Cache → ℕ → ℕ → Page → Page → Cache
move_out c i h src dst = record c {
  pages = set c.pages i (record src { floats = []; in_use = false; dirty = false });
  host_blocks =
      set c.host_blocks h
        (record dst { floats = src.floats; in_use = true; last_used = c.usage_counter });
  usage_counter = tick c.usage_counter;
  clock_ref_bits = set c.clock_ref_bits i false;
}

-- The loop of `SwapOut`.
unfoldable pub swap_out_loop : List ℤ → List ℕ → Cache → Outcome (List ℕ)
swap_out_loop [] handles c = returns handles c
swap_out_loop (page_id ∷ blocks) handles c = elim (index? page_id (length c.pages)) [
  | none ↦ swap_out_loop blocks handles c
  | some i ↦ elim (first_free c.host_blocks 0) [
    | none ↦ throws host_exhausted c
    | some h ↦
        swap_out_loop blocks (handles ++ h ∷ [])
          (move_out c i h (get_or c.pages i new_page) (get_or c.host_blocks h new_page))
  ]
]

-- `SwapOut`.
unfoldable pub swap_out : List ℤ → Cache → Outcome (List ℕ)
swap_out blocks c = swap_out_loop blocks [] c

-- One block of `SwapIn`: the values of host block `h` move to page `i`.
abbrev pub move_in : Cache → ℕ → ℕ → Page → Page → Cache
move_in c h i src dst = record c {
  pages = set c.pages i (record dst {
    floats = src.floats;
    in_use = true;
    last_used = c.usage_counter;
    dirty = true;
  });
  host_blocks = set c.host_blocks h (record src { floats = []; in_use = false });
  usage_counter = tick c.usage_counter;
}

-- The loop of `SwapIn` over the handles and the targets.
unfoldable pub swap_in_loop : List ℤ → List ℤ → Cache → Cache
swap_in_loop [] targets c = c
swap_in_loop (handle ∷ handles) [] c = c
swap_in_loop (handle ∷ handles) (target ∷ targets) c =
    swap_in_loop handles targets (elim (index? handle (length c.host_blocks)) [
      | none ↦ c
      | some h ↦ elim (index? target (length c.pages)) [
        | none ↦ c
        | some i ↦ move_in c h i (get_or c.host_blocks h new_page) (get_or c.pages i new_page)
      ]
    ])

-- `SwapIn`.
unfoldable pub swap_in : List ℤ → List ℤ → Cache → Outcome (Unit {0})
swap_in handles targets c =
    if length handles == length targets
    then returns tt (swap_in_loop handles targets c)
    else throws size_mismatch c

-- How many pages are not in use.
unfoldable pub count_free : List Page → ℕ
count_free [] = 0
count_free (p ∷ ps) = if p.in_use then count_free ps else suc (count_free ps)

unfoldable pub count_used : List Page → ℕ
count_used [] = 0
count_used (p ∷ ps) = if p.in_use then suc (count_used ps) else count_used ps

-- `NumFreeBlocks`.
unfoldable pub num_free_blocks : Cache → ℕ
num_free_blocks c = count_free c.pages

-- `NumAvailableHostBlocks`.
unfoldable pub num_available_host_blocks : Cache → ℕ
num_available_host_blocks c = count_free c.host_blocks

-- `UsageSnapshot`.
pub record Usage : Type 0 where
  pub total_blocks : ℕ
  pub used_blocks : ℕ
  pub free_blocks : ℕ
  pub page_size_bytes : ℕ

-- `GetUsageSnapshot`.
unfoldable pub usage_snapshot : Cache → Usage
usage_snapshot c = record {
  total_blocks = length c.pages;
  used_blocks = count_used c.pages;
  free_blocks = length c.pages - count_used c.pages;
  page_size_bytes = c.page_size_bytes;
}

-- `SetOffloadPath`. A running writer stops when the path is taken away.
unfoldable pub set_offload_path : List ℕ → Cache → Cache
set_offload_path path c = record c { offload_path = path; writer_running = not (is_empty path) }

-- `SetEvictionPolicy`.
unfoldable pub set_eviction_policy : Policy → Cache → Cache
set_eviction_policy policy c = record c { policy = policy }

-- `ConfigureAsyncWriter`.
unfoldable pub configure_async_writer : ℕ → ℕ → Cache → Cache
configure_async_writer workers queue_depth c = record c {
  writer_workers = if workers == 0 then 1 else workers;
  writer_queue_depth = if queue_depth == 0 then 64 else queue_depth;
}
