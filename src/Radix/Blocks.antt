-- ===== src/Radix/Blocks.antt =====
-- The references of the block tables through any calls: where each of them goes.
use inferflux.Prelude.{◌+◌, ◌≡◌, Bool, true, List, [], ◌∷◌, ◌++◌, arith}
use inferflux.Prelude.Int.{ℤ}
use inferflux.Radix.Ops.{Cache}
use inferflux.Radix.Run.{Call, looks_up, inserts, evicts, step, run, given, all_given}
use inferflux.Radix.Total.{total}
use inferflux.Radix.Counts.{IsCounted, evict_sequence-IsCounted, insert-IsCounted, lookup-IsCounted}
use inferflux.Radix.Tables.{
  count, released, table_weight, accounted, insert-accounted, lookup-accounted,
  evict_sequence-accounted,
}

count-append :
    (p : List ℤ → Bool) (xs ys : List (List ℤ)) → count p (xs ++ ys) ≡ count p xs + count p ys
unfolding count
count-append p [] ys = omega arith
count-append p (x ∷ xs) ys = omega (arith, count-append p xs ys)

-- From the constructed cache on, through any calls, the size and the number of live sequences are
-- those of the nodes in the tree, and every edge begins with the key it is stored under.
pub run-IsCounted : (ks : List Call) (c : Cache) → IsCounted c → IsCounted (run ks c)
unfolding run step
run-IsCounted [] c s = s
run-IsCounted (looks_up alive tokens backend ∷ ks) c s =
    run-IsCounted ks _ (lookup-IsCounted alive tokens backend c s)
run-IsCounted (inserts alive tokens table sequence_id backend ∷ ks) c s =
    run-IsCounted ks _ (insert-IsCounted alive tokens table sequence_id backend c s)
run-IsCounted (evicts alive ∷ ks) c s = run-IsCounted ks _ (evict_sequence-IsCounted alive c s)

step-accounted :
    (p : List ℤ → Bool) (k : Call) (c : Cache)
    → IsCounted c
    → c.has_kv_cache ≡ true
    → (accounted p (step k c) ≡ accounted p c + count p (given k c))
      × ((step k c).has_kv_cache ≡ true)
unfolding step count
step-accounted p (looks_up alive tokens backend) c s kv =
    let r = lookup-accounted alive p tokens backend c kv in (omega (arith, r.0), r.1)
step-accounted p (inserts alive tokens table sequence_id backend) c s kv =
    insert-accounted alive p tokens table sequence_id backend c s kv
step-accounted p (evicts alive) c s kv =
    let r = evict_sequence-accounted alive p c kv in (omega (arith, r.0), r.1)

-- From a counted cache that holds the KV cache, through any calls: whatever test one puts to block
-- tables, the tables that pass it are, after the calls, either still with a node or released, once for
-- each time that one was with a node, had been released, or was accepted by an insertion. So no
-- reference is lost and none is released twice.
pub run-accounted :
    (p : List ℤ → Bool) (ks : List Call) (c : Cache)
    → IsCounted c
    → c.has_kv_cache ≡ true
    → released p (run ks c).effects + total (table_weight p) (run ks c).root
      ≡ released p c.effects + total (table_weight p) c.root + count p (all_given ks c)
unfolding run all_given count
run-accounted p [] c s kv = omega arith
run-accounted p (k ∷ ks) c s kv =
    let a = step-accounted p k c s kv in
    omega (
      arith,
      a.0,
      run-accounted p ks (step k c) (run-IsCounted (k ∷ []) c s) a.1,
      count-append p (given k c) (all_given ks (step k c)),
    )
