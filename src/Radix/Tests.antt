-- ===== src/Radix/Tests.antt =====
-- Runs of the prefix cache on small inputs, and its theorems at such inputs.
use inferflux.Prelude.{
  ℕ, ◌+◌, ◌==◌, ◌≤◌, ◌≡◌, refl, ◌⊎◌, Bool, true, false, ◌&&◌, none, some, List, [], ◌∷◌, arith,
}
use inferflux.Prelude.Int.{ℤ, pos}
use inferflux.Radix.Defs.{
  Token, Node, Donation, insert_at, common_prefix, walk, oldest, oldest_loop, collect, evict_at,
  touch,
}
use inferflux.Radix.Ops.{
  Cache, init, insert, lookup, settle, add_leaf, take_over, limit_size, limit_sequences, evict_one,
  evict_sequence, retire, conclude, memory_snapshot, retained_blocks, add_blocks, add_block,
  contains,
}
use inferflux.Radix.Run.{Call, looks_up, inserts, evicts, run, step, all_given}
use inferflux.Radix.Total.{total}
use inferflux.Radix.Tables.{released, table_weight, count}
use inferflux.Radix.Counts.{IsCounted, init-IsCounted}
use inferflux.Radix.Blocks.{run-IsCounted, run-accounted}
use inferflux.Radix.Limits.{insert-limits}
use inferflux.Radix.Found.{Donor, lookup-Donor}
use inferflux.Radix.Reuse.{insert-lookup}

abbrev all_alive : ℕ → Bool
all_alive b = true

abbrev first : List Token
first = 1 ∷ 2 ∷ 3 ∷ []

abbrev second : List Token
second = 1 ∷ 2 ∷ 9 ∷ []

abbrev table_a : List ℤ
table_a = pos 7 ∷ pos 8 ∷ []

abbrev table_b : List ℤ
table_b = pos 7 ∷ pos 9 ∷ []

abbrev fresh : Cache
fresh = init true true 4 2

abbrev calls : List Call
calls =
    inserts all_alive first table_a (pos 5) (some 0)
    ∷ inserts all_alive second table_b (pos 6) (some 0)
    ∷ looks_up all_alive first (some 0)
    ∷ evicts all_alive
    ∷ []

-- The second insertion splits the edge of the first, and the lookup saves the first from the eviction.
saves_the_first :
    (lookup all_alive first (some 0) (run calls fresh)).1
    ≡ (record { is_hit = true; block_table = table_a; sequence_id = pos 5; matched_tokens = 3 })
unfolding run step insert lookup init insert_at common_prefix walk touch oldest oldest_loop collect
    evict_at settle add_leaf take_over limit_size limit_sequences evict_one evict_sequence retire
    conclude
saves_the_first = refl

-- A sequence that ends within the edge of another goes over the limit of live sequences.
goes_over :
    (run
      (inserts all_alive first table_a (pos 5) (some 0)
        ∷ inserts all_alive (1 ∷ []) table_b (pos 6) (some 0)
        ∷ [])
      (init true true 4 1)).live_sequences
    ≡ 2
unfolding run step insert lookup init insert_at common_prefix walk touch oldest oldest_loop collect
    evict_at settle add_leaf take_over limit_size limit_sequences evict_one evict_sequence retire
    conclude
goes_over = refl

counts_blocks :
    (memory_snapshot 16 (
      run
        (inserts all_alive first table_a (pos 5) (some 0)
          ∷ inserts all_alive second table_b (pos 6) (some 0)
          ∷ [])
        fresh)).unique_retained_blocks
    ≡ 3
unfolding run step insert init insert_at common_prefix oldest oldest_loop collect evict_at settle
    add_leaf take_over limit_size limit_sequences evict_one evict_sequence retire memory_snapshot
    retained_blocks add_blocks add_block contains
counts_blocks = refl

abbrev is_table_a : List ℤ → Bool
is_table_a (pos a ∷ pos b ∷ []) = a == 7 && b == 8
is_table_a _ = false

run-accounted_example :
    released is_table_a (run calls fresh).effects
      + total (table_weight is_table_a) (run calls fresh).root
    ≡ released is_table_a fresh.effects
      + total (table_weight is_table_a) fresh.root
      + count is_table_a (all_given calls fresh)
unfolding init
run-accounted_example = run-accounted is_table_a calls fresh (init-IsCounted true true 4 2) refl

run-IsCounted_example : IsCounted (run calls fresh)
run-IsCounted_example = run-IsCounted calls fresh (init-IsCounted true true 4 2)

abbrev donation : Donation
donation = record { table = table_a; sequence = pos 5; owner = some 0; stamp = 1 }

insert-limits_example :
    let c' = (insert all_alive first table_a (pos 5) (some 0) fresh).0 in
    let p = (insert_at 3 donation first fresh.root).1 in
    ((p.replaced ≡ none) × (c'.live_sequences ≤ 2) × (c'.size ≤ 4))
    ⊎ ((old : Node) × (p.replaced ≡ some old)
        × (c'.size ≡ 0 + p.splits)
        × (c'.live_sequences ≤ 0 + 1)
        × (c'.root ≡ (insert_at 3 donation first fresh.root).0))
unfolding init
insert-limits_example =
    insert-limits all_alive first table_a (pos 5) (some 0) fresh (init-IsCounted true true 4 2) refl

abbrev stocked : Cache
stocked = run (inserts all_alive first table_a (pos 5) (some 0) ∷ []) fresh

lookup-Donor_example :
    Donor all_alive (some 0) stocked.root first (lookup all_alive first (some 0) stocked).1
unfolding run step insert lookup init insert_at common_prefix walk settle add_leaf limit_size
    limit_sequences conclude touch
lookup-Donor_example = lookup-Donor all_alive first (some 0) stocked refl

insert-lookup_example :
    (lookup all_alive second
      (some 0)
      (insert all_alive second table_b (pos 6) (some 0) stocked).0).1
    ≡ (record { is_hit = true; block_table = table_b; sequence_id = pos 6; matched_tokens = 3 })
unfolding run step insert init insert_at settle add_leaf limit_size limit_sequences
insert-lookup_example =
    insert-lookup all_alive second table_b (pos 6) (some 0) stocked
      (run-IsCounted (inserts all_alive first table_a (pos 5) (some 0) ∷ []) fresh
        (init-IsCounted true true 4 2))
      (refl, tt, tt) refl refl refl refl (omega arith) (omega arith)
