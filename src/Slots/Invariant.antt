-- ===== src/Slots/Invariant.antt =====
-- The numbering of the slots, the binding of the idle ones, and the limit, over histories of calls.
use inferflux.Prelude.{
  ℕ, zero, suc, ◌+◌, ◌≤◌, ◌≡◌, refl, Bool, true, Option, none, some, List, [], ◌∷◌, arith, ◌==◌,
  length, get_elem?, set, length-set, Option-cases, Bool-cases, inl, inr, ◌&&◌,
}
use inferflux.Prelude.Int.{ℤ, pos, negsuc, index?}
use inferflux.Slots.Defs.{
  State, idle, decoding, Slot, Lease, Manager, fresh_slots, init, is_state, is_idle, reap_slots,
  validate, put, is_ripe,
}
use inferflux.Slots.Ops.{
  acquired, processing, reaped, grant, acquire_lease, change_slot, release_slot, mark_processing,
  update_token_count, change_lease, retire_lease, reap_retired_slots, complete_retired_lease,
  mark_completed, restore_lease, evict_slots, evict_idle_slots, set_max_slots, set_idle_timeout,
  degrade,
}
use inferflux.Slots.Run.{
  Call, acquires, releases, retires, reaps, completes_retired, evicts, processes, counts, completes,
  restores, resizes, sets_timeout, degrades, step, run,
}

abbrev pub IsClean : Slot → Type 0
IsClean s = s.state ≡ idle → (s.request_id ≡ negsuc 0) × (s.sequence_id ≡ negsuc 0)

-- The slots from position `i` on.
abbrev pub AreSlots : ℕ → List Slot → Type 0
AreSlots i [] = Unit {0}
AreSlots i (s ∷ ss) = (s.slot_id ≡ i) × IsClean s × AreSlots (i + 1) ss

pub record IsValid (m : Manager) : Type 0 where
  pub numbered : AreSlots 0 m.slots
  pub limited : m.max_slots ≤ length m.slots

fresh_slots-AreSlots : (clock : ℕ → ℕ) (n i : ℕ) → AreSlots i (fresh_slots clock n i)
unfolding fresh_slots
fresh_slots-AreSlots clock zero i = tt
fresh_slots-AreSlots clock (suc n) i =
    (refl, (λ _. (refl, refl)), fresh_slots-AreSlots clock n (i + 1))

pub length-fresh_slots : (clock : ℕ → ℕ) (n i : ℕ) → length (fresh_slots clock n i) ≡ n
unfolding fresh_slots
length-fresh_slots clock zero i = refl
length-fresh_slots clock (suc n) i = omega (arith, length-fresh_slots clock n (i + 1))

get_elem?-IsClean :
    (i k : ℕ) (ss : List Slot) (s : Slot) → AreSlots k ss → get_elem? ss i ≡ some s → IsClean s
get_elem?-IsClean i k [] s h e = cc
get_elem?-IsClean zero k (x ∷ ss) s h e = ground (arith, h.1)
get_elem?-IsClean (suc i) k (x ∷ ss) s h e = get_elem?-IsClean i (k + 1) ss s h.2 e

set-AreSlots :
    (i k : ℕ) (ss : List Slot) (s t : Slot)
    → AreSlots k ss
    → get_elem? ss i ≡ some s
    → t.slot_id ≡ s.slot_id
    → IsClean t
    → AreSlots k (set ss i t)
set-AreSlots i k [] s t h e same c = tt
set-AreSlots zero k (x ∷ ss) s t h e same c = (ground arith, c, h.2)
set-AreSlots (suc i) k (x ∷ ss) s t h e same c =
    (h.0, h.1, set-AreSlots i (k + 1) ss s t h.2 e same c)

pub length-reap_slots : (now : ℕ) (ss : List Slot) → length (reap_slots now ss).0 ≡ length ss
unfolding reap_slots
length-reap_slots now [] = refl
length-reap_slots now (s ∷ ss) = ground (arith, length-reap_slots now ss)

reap_slots-AreSlots :
    (now k : ℕ) (ss : List Slot) → AreSlots k ss → AreSlots k (reap_slots now ss).0
unfolding reap_slots
reap_slots-AreSlots now k [] h = tt
reap_slots-AreSlots now k (s ∷ ss) h = elim (Bool-cases (is_ripe now s)) [
  | inl e ↦ rw e (h.0, (λ _. (refl, refl)), reap_slots-AreSlots now (k + 1) ss h.2)
  | inr e ↦ rw e (h.0, h.1, reap_slots-AreSlots now (k + 1) ss h.2)
]

length-evict_slots :
    (clock : Slot → ℕ) (timeout : ℤ) (ss : List Slot)
    → length (evict_slots clock timeout ss).0 ≡ length ss
unfolding evict_slots
length-evict_slots clock timeout [] = refl
length-evict_slots clock timeout (s ∷ ss) = ground (arith, length-evict_slots clock timeout ss)

evict_slots-AreSlots :
    (clock : Slot → ℕ) (timeout : ℤ) (k : ℕ) (ss : List Slot)
    → AreSlots k ss
    → AreSlots k (evict_slots clock timeout ss).0
unfolding evict_slots
evict_slots-AreSlots clock timeout k [] h = tt
evict_slots-AreSlots clock timeout k (s ∷ ss) h =
    elim (Bool-cases (is_state s.state decoding && is_idle (clock s) timeout s)) [
      | inl e ↦ rw e (h.0, (λ c. cc), evict_slots-AreSlots clock timeout (k + 1) ss h.2)
      | inr e ↦ rw e (h.0, h.1, evict_slots-AreSlots clock timeout (k + 1) ss h.2)
    ]

put-IsValid :
    (m : Manager) (i : ℕ) (s t : Slot)
    → IsValid m
    → get_elem? m.slots i ≡ some s
    → t.slot_id ≡ s.slot_id
    → (IsClean s → IsClean t)
    → IsValid (put m i t)
put-IsValid m i s t v e same c = record {
  numbered =
      set-AreSlots i 0 m.slots s t v.numbered e same
        (c (get_elem?-IsClean i 0 m.slots s v.numbered e));
  limited = omega (arith, length-set m.slots i t, v.limited);
}

reaped-IsValid : (now : ℕ) (m : Manager) → IsValid m → IsValid (reaped now m)
reaped-IsValid now m v = record {
  numbered = reap_slots-AreSlots now 0 m.slots v.numbered;
  limited = omega (arith, length-reap_slots now m.slots, v.limited);
}

grant-IsValid :
    (now : ℕ) (request_id : ℤ) (m : Manager) (o : Option ℕ)
    → IsValid m
    → IsValid (grant now request_id m o).0
unfolding grant
grant-IsValid now request_id m none v = v
grant-IsValid now request_id m (some i) v = elim (Option-cases (get_elem? m.slots i)) [
  | inl e ↦ rw (e, grant) v
  | inr (s, e) ↦ rw (e, grant) (put-IsValid m i s (acquired now request_id s) v e refl (λ _ c. cc))
]

-- A method that takes a slot by its number keeps the invariant, if what it writes does.
change_slot-IsValid :
    (slot_id : ℤ) (f : Slot → Slot) (m : Manager)
    → ((s : Slot) → ((f s).slot_id ≡ s.slot_id) × (IsClean s → IsClean (f s)))
    → IsValid m
    → IsValid (change_slot slot_id f m)
change_slot-IsValid slot_id f m keep v = elim (Option-cases (index? slot_id m.max_slots)) [
  | inl e ↦ rw (e, change_slot) v
  | inr (i, e) ↦ elim (Option-cases (get_elem? m.slots i)) [
    | inl d ↦ rw (e, change_slot, d, change_slot) v
    | inr (s, d) ↦
        rw (e, change_slot, d, change_slot) (put-IsValid m i s (f s) v d (keep s).0 (keep s).1)
  ]
]

pub validate-some :
    (m : Manager) (l : Lease) (accepted : State → Bool) (i : ℕ) (s : Slot)
    → validate m l accepted ≡ some (i, s)
    → (index? l.slot_id m.max_slots ≡ some i)
      × (get_elem? m.slots i ≡ some s)
      × (s.generation ≡ l.generation)
      × (accepted s.state ≡ true)
unfolding validate
validate-some m l accepted i s e = ground arith

-- So does a method that takes a lease.
change_lease-IsValid :
    (l : Lease) (accepted : State → Bool) (f : Slot → Slot) (m : Manager)
    → ((s : Slot) → ((f s).slot_id ≡ s.slot_id) × (IsClean s → IsClean (f s)))
    → IsValid m
    → IsValid (change_lease l accepted f m).0
change_lease-IsValid l accepted f m keep v = elim (Option-cases (validate m l accepted)) [
  | inl e ↦ rw (e, change_lease) v
  | inr ((i, s), e) ↦
      rw (e, change_lease)
        (put-IsValid m i s (f s) v (validate-some m l accepted i s e).1 (keep s).0 (keep s).1)
]

degrade-IsValid : (pressure : ℤ) (m : Manager) → IsValid m → IsValid (degrade pressure m).0
unfolding degrade
degrade-IsValid (negsuc n) m v = v
degrade-IsValid (pos n) m v = ground arith

set_max_slots-IsValid :
    (clock : ℕ → ℕ) (n : ℕ) (m : Manager) → IsValid m → IsValid (set_max_slots clock n m)
unfolding set_max_slots
set_max_slots-IsValid clock n m v = elim (Bool-cases (n == m.max_slots)) [
  | inl e ↦ rw e v
  | inr e ↦ rw e (record {
    numbered = fresh_slots-AreSlots clock n 0;
    limited = omega (arith, length-fresh_slots clock n 0);
  })
]

processing_idle : (s : Slot) → (processing 0 s).state ≡ idle → s.state ≡ idle
processing_idle s e = ground arith

step-IsValid : (c : Call) (m : Manager) → IsValid m → IsValid (step c m)
unfolding step acquire_lease release_slot retire_lease reap_retired_slots complete_retired_lease
    evict_idle_slots mark_processing update_token_count mark_completed restore_lease
    set_idle_timeout
step-IsValid (acquires now now' request_id capacity) m v =
    grant-IsValid now' request_id (reaped now m) _ (reaped-IsValid now m v)
step-IsValid (releases slot_id) m v =
    change_slot-IsValid slot_id _ m (λ s. (refl, λ _ _. (refl, refl))) v
step-IsValid (retires ready_at now l) m v = change_lease-IsValid l _ _ m (λ s. (refl, λ _ c. cc)) v
step-IsValid (reaps now) m v = reaped-IsValid now m v
step-IsValid (completes_retired l) m v =
    change_lease-IsValid l _ _ m (λ s. (refl, λ _ _. (refl, refl))) v
step-IsValid (evicts clock timeout) m v = record {
  numbered = evict_slots-AreSlots clock timeout 0 m.slots v.numbered;
  limited = omega (arith, length-evict_slots clock timeout m.slots, v.limited);
}
step-IsValid (processes now slot_id) m v =
    change_slot-IsValid slot_id _ m (λ s. (refl, λ c e. c (processing_idle s e))) v
step-IsValid (counts slot_id count) m v = change_slot-IsValid slot_id _ m (λ s. (refl, λ c. c)) v
step-IsValid (completes now count l) m v = change_lease-IsValid l _ _ m (λ s. (refl, λ _ c. cc)) v
step-IsValid (restores now request_id sequence_id count l) m v =
    change_lease-IsValid l _ _ m (λ s. (refl, λ _ c. cc)) v
step-IsValid (resizes clock n) m v = set_max_slots-IsValid clock n m v
step-IsValid (sets_timeout timeout) m v = record { numbered = v.numbered; limited = v.limited }
step-IsValid (degrades pressure) m v = degrade-IsValid pressure m v

-- After any calls, in any order, the slots of a valid manager are still numbered by their positions,
-- every idle slot has request and sequence -1, and `max_slots` is at most the number of slots.
pub run-IsValid : (cs : List Call) (m : Manager) → IsValid m → IsValid (run cs m)
unfolding run
run-IsValid [] m v = v
run-IsValid (c ∷ cs) m v = run-IsValid cs (step c m) (step-IsValid c m v)

pub init-IsValid : (clock : ℕ → ℕ) (n : ℕ) → IsValid (init clock n)
unfolding init
init-IsValid clock n = record {
  numbered = fresh_slots-AreSlots clock n 0;
  limited = omega (arith, length-fresh_slots clock n 0);
}
