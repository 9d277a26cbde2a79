-- ===== src/Radix/Run.antt =====
-- Calls of the prefix cache in a sequence.
use inferflux.Prelude.{ℕ, Bool, Option, List, [], ◌∷◌, ◌++◌, if◌then◌else◌}
use inferflux.Prelude.Int.{ℤ}
use inferflux.Radix.Defs.{Token}
use inferflux.Radix.Ops.{Cache, lookup, insert, evict_sequence}

-- A call, with the backends that are alive at its time.
pub data Call : Type 0 where
  looks_up : (ℕ → Bool) → List Token → Option ℕ → Call
  inserts : (ℕ → Bool) → List Token → List ℤ → ℤ → Option ℕ → Call
  evicts : (ℕ → Bool) → Call

unfoldable pub step : Call → Cache → Cache
step (looks_up alive tokens backend) c = (lookup alive tokens backend c).0
step (inserts alive tokens table sequence_id backend) c =
    (insert alive tokens table sequence_id backend c).0
step (evicts alive) c = (evict_sequence alive c).0

unfoldable pub run : List Call → Cache → Cache
run [] c = c
run (k ∷ ks) c = run ks (step k c)

-- The tables that the calls give to the cache: those of the insertions that return true.
abbrev pub given : Call → Cache → List (List ℤ)
given (inserts alive tokens table sequence_id backend) c =
    if (insert alive tokens table sequence_id backend c).1 then table ∷ [] else []
given (looks_up alive tokens backend) c = []
given (evicts alive) c = []

unfoldable pub all_given : List Call → Cache → List (List ℤ)
all_given [] c = []
all_given (k ∷ ks) c = given k c ++ all_given ks (step k c)
