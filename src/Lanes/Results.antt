-- ===== src/Lanes/Results.antt =====
-- Whose result a handle collects.
use inferflux.Prelude.{
  ℕ, ◌+◌, ◌^◌, ◌==◌, ◌<◌, ◌≡◌, refl, ap, Bool, none, some, List, [], ◌∷◌, ◌++◌, length, arith,
  Bool-cases, Option-cases, inl, inr,
}
use inferflux.Lanes.Defs.{handed_out, Input, Result, Item, Dispatcher, find, init, try_collect}
use inferflux.Lanes.Steps.{Call, step, run}
use inferflux.Lanes.Entries.{find-erase_self}
use inferflux.Lanes.Counts.{IsPermitted, init-IsPermitted}
use inferflux.Lanes.Permits.{step-next_handle, step-IsPermitted, run-IsPermitted}
use inferflux.Lanes.Logged.{
  find_item, submitted, history, AreExplained, AreLogged, IsFaithful, find-Explains,
}
use inferflux.Lanes.Faithful.{step-IsFaithful}

module _ (execute : List Input → Bool → Result) where
  run-IsFaithful :
      (cs : List Call) (log : List Item) (d : Dispatcher)
      → IsFaithful execute log d
      → IsPermitted d
      → d.next_handle + length cs < 2 ^ 64
      → IsFaithful execute (history execute cs d log) (run execute cs d)
  unfolding run history
  run-IsFaithful [] log d s v l = s
  run-IsFaithful (c ∷ cs) log d s v l =
      run-IsFaithful cs (submitted c d ++ log) (step execute c d)
        (step-IsFaithful execute log c d s v (omega arith))
        (step-IsPermitted execute c d v (omega arith))
        (omega (arith, step-next_handle execute c d v (omega arith)))

  init-IsFaithful : (n : ℕ) → IsFaithful execute [] (init n)
  unfolding init AreExplained AreLogged find_item
  init-IsFaithful n = record {
    fresh = λ m h. refl;
    decode = record { queue = tt; worker = tt };
    prefill = record { queue = tt; worker = tt };
    entries = tt;
  }

  collected_result :
      (log : List Item) (h : ℕ) (d : Dispatcher) (r : Result)
      → IsFaithful execute log d
      → IsPermitted d
      → (try_collect h d).1.result ≡ some r
      → (i : Item) × (find_item h log ≡ some i)
        × ((try_collect h d).1.decode_lane ≡ some i.decode_lane)
        × (r ≡ handed_out (execute i.inputs i.decode_lane))
        × (find h (try_collect h d).0.pending ≡ none)
  unfolding try_collect
  collected_result log h d r s v = elim (Bool-cases (h == 0)) [
    | inl refused ↦ rw (refused, try_collect) (λ e. cc)
    | inr given ↦ (elim (Option-cases (find h d.pending)) [
      | inl e ↦ rw (given, try_collect) (rw (e, try_collect) (λ f. cc))
      | inr (p, e) ↦
          rw (given, try_collect)
            (rw (e, try_collect)
              (elim (Bool-cases p.ready) [
                | inr waits ↦ rw waits (λ f. cc)
                | inl done ↦ rw done (λ f.
                    let y = find-Explains execute log h p d.pending s.entries e in
                    (
                      y.item,
                      y.logged,
                      ap some y.same_lane,
                      cc (f, ap handed_out (y.result done)),
                      find-erase_self d.next_handle h d.pending v.below,
                    ))
              ]))
    ])
  ]

  -- No result goes to another's handle. After any interleaving of the callers and the workers from a new
  -- dispatcher on, while no handle has wrapped: if TryCollect returns a result for a handle, then a batch
  -- was submitted under the handle, the lane is the one it was submitted to, and the result is that of
  -- the execution of its inputs in that lane, without outputs if it is no success; and the handle is
  -- then missing, so that it is collected once.
  pub run-collects :
      (cs : List Call) (n h : ℕ) (r : Result)
      → length cs + 1 < 2 ^ 64
      → (try_collect h (run execute cs (init n))).1.result ≡ some r
      → let d = run execute cs (init n) in
        (i : Item) × (find_item h (history execute cs (init n) []) ≡ some i)
        × ((try_collect h d).1.decode_lane ≡ some i.decode_lane)
        × (r ≡ handed_out (execute i.inputs i.decode_lane))
        × (find h (try_collect h d).0.pending ≡ none)
  unfolding init
  run-collects cs n h r l =
      let v = init-IsPermitted n in
      collected_result (history execute cs (init n) []) h (run execute cs (init n)) r
        (run-IsFaithful cs [] (init n) (init-IsFaithful n) v (omega arith))
        (run-IsPermitted execute cs (init n) v (omega arith))
