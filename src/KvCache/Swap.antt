-- ===== src/KvCache/Swap.antt =====
-- `SwapOut` and `SwapIn`, and the usage counts.
use inferflux.Prelude.{
  ℕ, zero, suc, ◌+◌, ◌≤◌, ◌<◌, ◌≡◌, ◌≢◌, refl, true, false, Option, none, some, List, [], ◌∷◌,
  arith, get_elem?, get_or, length, length-set, get_elem?-set_self,
}
use inferflux.Prelude.Int.{pos}
use inferflux.KvCache.Defs.{Page, Cache, new_page, first_free}
use inferflux.KvCache.Ops.{
  returns, move_out, swap_out_loop, swap_out, move_in, swap_in_loop, swap_in, count_free,
  count_used, num_free_blocks, num_available_host_blocks, usage_snapshot,
}
use inferflux.KvCache.Select.{IsFree, Picks, first_free-Picks}
use inferflux.KvCache.Take.{count_free-AllUsed}
use inferflux.KvCache.Owners.{get_elem?-lt}

pub count_sum : (ps : List Page) → count_free ps + count_used ps ≡ length ps
unfolding count_free count_used
count_sum [] = refl
count_sum (p ∷ ps) = ground (arith, count_sum ps)

-- `GetUsageSnapshot` agrees with `NumFreeBlocks`, its subtraction does not go below 0, and used and
-- free blocks make up the total.
pub usage_snapshot_lem :
    (c : Cache)
    → let u = usage_snapshot c in
      (u.free_blocks ≡ num_free_blocks c)
      × (u.used_blocks ≤ u.total_blocks)
      × (u.used_blocks + u.free_blocks ≡ u.total_blocks)
unfolding usage_snapshot num_free_blocks
usage_snapshot_lem c = (
  omega (arith, count_sum c.pages),
  omega (arith, count_sum c.pages),
  omega (arith, count_sum c.pages),
)

IsFree-host_blocks :
    (c : Cache)
    → num_available_host_blocks c ≢ 0
    → (h : ℕ) × (first_free c.host_blocks 0 ≡ some h) × IsFree c.host_blocks h
unfolding num_available_host_blocks
IsFree-host_blocks c ne = go (first_free c.host_blocks 0) refl (first_free-Picks c.host_blocks)
  where
    go :
        (o : Option ℕ)
        → first_free c.host_blocks 0 ≡ o
        → Picks c.host_blocks (first_free c.host_blocks 0)
        → (h : ℕ) × (first_free c.host_blocks 0 ≡ some h) × IsFree c.host_blocks h
    go none e picks = absurd (ne (count_free-AllUsed c.host_blocks (rw e at picks)))
    go (some h) e picks = (h, e, rw e at picks)

get_or-some {ℓ} :
    {A : Type ℓ} (xs : List A) (i : ℕ) (a d : A) → get_elem? xs i ≡ some a → get_or xs i d ≡ a
get_or-some [] i a d e = cc
get_or-some (x ∷ xs) zero a d e = cc
get_or-some (x ∷ xs) (suc i) a d e = get_or-some xs i a d e

swap_out_one :
    (c : Cache) (i h : ℕ) (p d : Page)
    → get_elem? c.pages i ≡ some p
    → get_elem? c.host_blocks h ≡ some d
    → first_free c.host_blocks 0 ≡ some h
    → i < length c.pages
    → swap_out (pos i ∷ []) c ≡ returns (h ∷ []) (move_out c i h p d)
unfolding swap_out swap_out_loop
swap_out_one c i h p d gi gh found lt =
    ground (arith, get_or-some c.pages i p new_page gi, get_or-some c.host_blocks h d new_page gh)

swap_in_one :
    (c : Cache) (h j : ℕ) (b : Page)
    → get_elem? c.host_blocks h ≡ some b
    → h < length c.host_blocks
    → j < length c.pages
    → swap_in (pos h ∷ []) (pos j ∷ []) c ≡ returns tt (move_in c h j b (get_or c.pages j new_page))
unfolding swap_in swap_in_loop
swap_in_one c h j b gh lt_h lt_j = ground (arith, get_or-some c.host_blocks h b new_page gh)

-- A block that is swapped out, when a host block is free, and swapped in at any page `j` brings its
-- values back: page j is in use and dirty with the values of page i, and the host block is free and
-- empty again.
pub swap_in-swap_out :
    (c : Cache) (i j : ℕ) (p q : Page)
    → get_elem? c.pages i ≡ some p
    → get_elem? c.pages j ≡ some q
    → num_available_host_blocks c ≢ 0
    → (h : ℕ) × (c1 c2 : Cache) × (swap_out (pos i ∷ []) c ≡ returns (h ∷ []) c1)
      × (swap_in (pos h ∷ []) (pos j ∷ []) c1 ≡ returns tt c2)
      × (r : Page) × (b : Page) × (get_elem? c2.pages j ≡ some r)
      × (r.floats ≡ p.floats)
      × (r.in_use ≡ true)
      × (r.dirty ≡ true)
      × (get_elem? c2.host_blocks h ≡ some b)
      × (b.in_use ≡ false)
      × (b.floats ≡ [])
swap_in-swap_out c i j p q gi gj ne =
    let (h, found, (d, gh, free)) = IsFree-host_blocks c ne in
    let c1 = move_out c i h p d in
    let lt_i = get_elem?-lt c.pages i p gi in
    let lt_j = get_elem?-lt c.pages j q gj in
    let lt_h = get_elem?-lt c.host_blocks h d gh in
    let len_pages : length c1.pages ≡ length c.pages = length-set c.pages i _ in
    let len_host : length c1.host_blocks ≡ length c.host_blocks = length-set c.host_blocks h _ in
    let b1 : Page = record d { floats = p.floats; in_use = true; last_used = c.usage_counter } in
    let at_h : get_elem? c1.host_blocks h ≡ some b1 = get_elem?-set_self c.host_blocks h b1 lt_h in
    let dst = get_or c1.pages j new_page in
    let c2 = move_in c1 h j b1 dst in
    (
      h,
      c1,
      c2,
      swap_out_one c i h p d gi gh found lt_i,
      swap_in_one c1 h j b1 at_h (omega (arith, len_host, lt_h)) (omega (arith, len_pages, lt_j)),
      _,
      _,
      get_elem?-set_self c1.pages j _ (omega (arith, len_pages, lt_j)),
      refl,
      refl,
      refl,
      get_elem?-set_self c1.host_blocks h _ (omega (arith, len_host, lt_h)),
      refl,
      refl,
    )
