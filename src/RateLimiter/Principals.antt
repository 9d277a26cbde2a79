-- ===== src/RateLimiter/Principals.antt =====
-- The map of the principals: lookups, writes, and what keeps it sound.
use inferflux.Prelude.{
  ℕ, ◌≤◌, ◌≡◌, refl, subst, Option, none, some, List, [], ◌∷◌, if◌then◌else◌, arith, inl, inr,
  Bool-cases, Option-cases,
}
use inferflux.Prelude.Text.{Text, same, same_sound}
use inferflux.RateLimiter.Defs.{BucketPolicy, Bucket, Principal, find, update, assign}
use inferflux.RateLimiter.Buckets.{AreSound}
use inferflux.RateLimiter.Available.{AllSound}

find-update :
    (key : Text) (x p : Principal) (es : List (Text × Principal)) (key' : Text)
    → find key es ≡ some p
    → find key' (update key x es) ≡ (if same key key' then some x else find key' es)
unfolding find update
find-update key x p [] key' f = cc
find-update key x p ((k, y) ∷ es) key' f = elim (Bool-cases (same k key)) [
  | inl t ↦ ground (arith, same_sound k key t)
  | inr o ↦ ground (arith, find-update key x p es key', same_sound key key', same_sound k key')
]

pub find-assign :
    (key : Text) (x : Principal) (es : List (Text × Principal)) (key' : Text)
    → find key' (assign key x es) ≡ (if same key key' then some x else find key' es)
unfolding find assign
find-assign key x es key' = elim (Option-cases (find key es)) [
  | inl n ↦ ground arith
  | inr (p, f) ↦ ground (arith, find-update key x p es key' f)
]

find-update-none :
    (key : Text) (x : Principal) (es : List (Text × Principal)) (k : Text)
    → find k es ≡ none
    → find k (update key x es) ≡ none
unfolding find update
find-update-none key x [] k h = refl
find-update-none key x ((k', y) ∷ es) k h = ground (arith, find-update-none key x es k)

update-AllSound :
    (time now : ℕ) (ps : List (Option BucketPolicy)) (key : Text) (x : Principal)
    (es : List (Text × Principal))
    → time ≤ now
    → AreSound x.last ps x.buckets
    → x.last ≤ now
    → AllSound time ps es
    → AllSound now ps (update key x es)
unfolding update
update-AllSound time now ps key x [] le sx lx s = tt
update-AllSound time now ps key x ((k, y) ∷ es) le sx lx (sy, ly, fresh, ss) =
    elim (Bool-cases (same k key)) [
      | inl t ↦ rw t (sx, lx, fresh, later es ss)
      | inr o ↦ rw o (
        sy,
        omega arith,
        find-update-none key x es k fresh,
        update-AllSound time now ps key x es le sx lx ss,
      )
    ]
  where
    later : (es : List (Text × Principal)) → AllSound time ps es → AllSound now ps es
    later [] s = tt
    later ((k, y) ∷ es) (sy, ly, fresh, ss) = (sy, omega arith, fresh, later es ss)

pub assign-AllSound :
    (time now : ℕ) (ps : List (Option BucketPolicy)) (key : Text) (x : Principal)
    (es : List (Text × Principal))
    → time ≤ now
    → AreSound x.last ps x.buckets
    → x.last ≤ now
    → AllSound time ps es
    → AllSound now ps (assign key x es)
unfolding assign
assign-AllSound time now ps key x es le sx lx s = elim (Option-cases (find key es)) [
  | inl n ↦ rw (n, assign) (sx, lx, n, later es s)
  | inr (p, f) ↦ rw (f, assign) (update-AllSound time now ps key x es le sx lx s)
]
  where
    later : (es : List (Text × Principal)) → AllSound time ps es → AllSound now ps es
    later [] s = tt
    later ((k, y) ∷ es) (sy, ly, fresh, ss) = (sy, omega arith, fresh, later es ss)

pub find-AllSound :
    (time : ℕ) (ps : List (Option BucketPolicy)) (key : Text) (p : Principal)
    (es : List (Text × Principal))
    → AllSound time ps es
    → find key es ≡ some p
    → AreSound p.last ps p.buckets × (p.last ≤ time)
unfolding find
find-AllSound time ps key p [] s f = cc
find-AllSound time ps key p ((k, y) ∷ es) (sy, ly, fresh, ss) f = elim (Bool-cases (same k key)) [
  | inl t ↦
      let q : y ≡ p = ground arith in
      subst (λ x. AreSound x.last ps x.buckets × (x.last ≤ time)) q (sy, ly)
  | inr o ↦ find-AllSound time ps key p es ss (ground arith)
]

pub AreSound-later :
    (time now : ℕ) (ps : List (Option BucketPolicy)) (bs : List Bucket)
    → time ≤ now
    → AreSound time ps bs
    → AreSound now ps bs
AreSound-later time now [] [] le s = tt
AreSound-later time now [] (b ∷ bs) le s = absurd s
AreSound-later time now (p ∷ ps) [] le s = absurd s
AreSound-later time now (none ∷ ps) (b ∷ bs) le s = AreSound-later time now ps bs le s
AreSound-later time now (some p ∷ ps) (b ∷ bs) le s =
    (ground (arith, s.0), AreSound-later time now ps bs le s.1)
