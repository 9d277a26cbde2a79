-- ===== src/KvCache/Tests.antt =====
-- Runs of the cache on small inputs, and its theorems at such inputs.
use inferflux.Prelude.{
  ℕ, zero, suc, ◌≡◌, ◌≢◌, refl, true, false, some, List, [], ◌∷◌, arith, get_elem?,
}
use inferflux.Prelude.Int.{pos, negsuc}
use inferflux.KvCache.Defs.{
  Page, Policy, lru, clock, Cache, new_page, clock_scan, clock_candidate, lru_scan,
  select_candidate, acquire_page,
}
use inferflux.KvCache.Ops.{
  returns, take_page, reserve_blocks, reserve_loop, release_blocks, acquire_blocks, swap_out,
  swap_in, count_free, num_available_host_blocks,
}
use inferflux.KvCache.Select.{Picks, AreStamped, select_candidate-Picks}
use inferflux.KvCache.Reserve.{Reserves, reserve_blocks-Reserves}
use inferflux.KvCache.Take.{IsStamped}
use inferflux.KvCache.Owners.{
  AreOwned, release_blocks-acquire_blocks, release_times, release_times_lem,
}
use inferflux.KvCache.Swap.{swap_in-swap_out}

abbrev owned : ℕ → List ℕ → Page
owned owners floats = record {
  floats = floats;
  in_use = true;
  ref_count = pos owners;
  last_used = 1;
  dirty = true;
}

-- Three pages, the second with two owners.
abbrev cache : Policy → Cache
cache policy = record {
  page_size_bytes = 8;
  pages =
      record new_page { last_used = 5 }
      ∷ owned 2 (7 ∷ 8 ∷ [])
      ∷ record new_page { last_used = 3 }
      ∷ [];
  host_blocks = new_page ∷ [];
  offload_path = [];
  persisted = [];
  usage_counter = 9;
  policy = policy;
  clock_ref_bits = true ∷ true ∷ false ∷ [];
  clock_hand = 0;
  writer_running = false;
  writer_workers = 1;
  writer_queue_depth = 256;
}

cache-AreStamped : (policy : Policy) → AreStamped (cache policy).pages
cache-AreStamped policy zero p e = ground arith
cache-AreStamped policy (suc zero) p e = ground arith
cache-AreStamped policy (suc (suc zero)) p e = ground arith
cache-AreStamped policy (suc (suc (suc i))) p e = cc

cache-IsStamped : (policy : Policy) → IsStamped (cache policy)
cache-IsStamped policy = record {
  pages_stamped = cache-AreStamped policy;
  counter_small = omega arith;
}

-- The clock passes page 0 by, for its bit is set, and page 1, which is in use.
clock_picks : (select_candidate (cache clock)).0 ≡ some 2
unfolding select_candidate clock_candidate clock_scan
clock_picks = refl

lru_reserves : (c : Cache) × (reserve_blocks 2 (cache lru) ≡ returns (2 ∷ 0 ∷ []) c)
unfolding reserve_blocks reserve_loop take_page select_candidate lru_scan acquire_page
lru_reserves = (_, refl)

select_candidate-Picks_example : Picks (cache clock).pages (select_candidate (cache clock)).0
select_candidate-Picks_example = select_candidate-Picks (cache clock) (cache-AreStamped clock)

reserve_blocks-Reserves_example : Reserves 3 (cache lru) (reserve_blocks 3 (cache lru))
reserve_blocks-Reserves_example = reserve_blocks-Reserves 3 (cache lru) (cache-IsStamped lru)

cache-AreOwned : AreOwned (cache lru) (pos 1 ∷ pos 1 ∷ negsuc 0 ∷ [])
cache-AreOwned = ((λ i p e g. ground arith), ((λ i p e g. ground arith), ((λ i p e g. cc), tt)))

release_blocks-acquire_blocks_example :
    release_blocks
      (pos 1 ∷ pos 1 ∷ negsuc 0 ∷ [])
      (acquire_blocks (pos 1 ∷ pos 1 ∷ negsuc 0 ∷ []) (cache lru))
    ≡ cache lru
release_blocks-acquire_blocks_example =
    release_blocks-acquire_blocks (pos 1 ∷ pos 1 ∷ negsuc 0 ∷ []) (cache lru) cache-AreOwned

release_times_lem_example :
    (get_elem? (release_times 1 (pos 1) (cache lru)).pages 1 ≡ some (owned 1 (7 ∷ 8 ∷ [])))
    × (get_elem? (release_times 2 (pos 1) (cache lru)).pages 1
        ≡ some (record new_page { last_used = 1 }))
release_times_lem_example = release_times_lem 1 1 (cache lru) (owned 2 (7 ∷ 8 ∷ [])) refl refl

host_is_free : num_available_host_blocks (cache lru) ≢ 0
unfolding num_available_host_blocks count_free
host_is_free e = absurd (omega arith)

swap_in-swap_out_example :
    (h : ℕ) × (c1 c2 : Cache) × (swap_out (pos 1 ∷ []) (cache lru) ≡ returns (h ∷ []) c1)
    × (swap_in (pos h ∷ []) (pos 0 ∷ []) c1 ≡ returns tt c2)
    × (r : Page) × (b : Page) × (get_elem? c2.pages 0 ≡ some r)
    × (r.floats ≡ 7 ∷ 8 ∷ [])
    × (r.in_use ≡ true)
    × (r.dirty ≡ true)
    × (get_elem? c2.host_blocks h ≡ some b)
    × (b.in_use ≡ false)
    × (b.floats ≡ [])
swap_in-swap_out_example =
    swap_in-swap_out (cache lru) 1 0 (owned 2 (7 ∷ 8 ∷ [])) (record new_page { last_used = 5 }) refl
      refl host_is_free
