-- ===== src/KvCache/Owners.antt =====
-- Shared ownership: the reference counts of the pages.
use inferflux.Prelude.{
  ℕ, zero, suc, ◌<◌, ◌≡◌, refl, sym, ◌∙◌, ap, true, false, some, List, [], ◌∷◌, arith, get_elem?,
  set, length, Option-cases, inl, inr, modify, length-modify, modify_comm, get_elem?-modify_self,
  set-modify, get_elem?-set_self,
}
use inferflux.Prelude.Int.{ℤ, pos, negsuc, ltb_ℤ, index?, inc_ℤ, dec_ℤ}
use inferflux.KvCache.Defs.{Page, Cache, put_page, free_page, freed_page, release_page}
use inferflux.KvCache.Ops.{shared, share_page, acquire_blocks, release_blocks}

-- The page that an id names has an owner, if there is such a page.
abbrev pub IsOwned : Cache → ℤ → Type 0
IsOwned c id =
    (i : ℕ) (p : Page)
    → index? id (length c.pages) ≡ some i
    → get_elem? c.pages i ≡ some p
    → ltb_ℤ (pos 0) p.ref_count ≡ true

abbrev pub AreOwned : Cache → List ℤ → Type 0
AreOwned c [] = Unit {0}
AreOwned c (id ∷ ids) = IsOwned c id × AreOwned c ids

pub get_elem?-lt {ℓ} :
    {A : Type ℓ} (xs : List A) (i : ℕ) (a : A) → get_elem? xs i ≡ some a → i < length xs
get_elem?-lt [] i a e = cc
get_elem?-lt (x ∷ xs) zero a e = omega arith
get_elem?-lt (x ∷ xs) (suc i) a e = omega (arith, get_elem?-lt xs i a e)

dec_inc : (z : ℤ) → dec_ℤ (inc_ℤ z) ≡ z
dec_inc (pos n) = refl
dec_inc (negsuc zero) = refl
dec_inc (negsuc (suc n)) = refl

pub index?-inside : (z : ℤ) (n i : ℕ) → index? z n ≡ some i → i < n
index?-inside (pos k) n i e = ground arith
index?-inside (negsuc k) n i e = cc

pub get_elem?-inside {ℓ} :
    {A : Type ℓ} (xs : List A) (i : ℕ) → i < length xs → (a : A) × (get_elem? xs i ≡ some a)
get_elem?-inside [] i h = absurd (omega arith)
get_elem?-inside (x ∷ xs) zero h = (x, refl)
get_elem?-inside (x ∷ xs) (suc i) h = get_elem?-inside xs i (omega arith)

share_page_comm :
    (c : Cache) (x y : ℤ) → share_page (share_page c x) y ≡ share_page (share_page c y) x
unfolding share_page
share_page_comm c x y = elim (Option-cases (index? x (length c.pages))) [
  | inl ex ↦ elim (Option-cases (index? y (length c.pages))) [
    | inl ey ↦ ground arith
    | inr (j, ey) ↦ ground (arith, length-modify c.pages j shared)
  ]
  | inr (i, ex) ↦ elim (Option-cases (index? y (length c.pages))) [
    | inl ey ↦ ground (arith, length-modify c.pages i shared)
    | inr (j, ey) ↦ ground (
      arith,
      length-modify c.pages i shared,
      length-modify c.pages j shared,
      modify_comm c.pages i j shared,
    )
  ]
]

still_positive : (z : ℤ) → ltb_ℤ (pos 0) z ≡ true → ltb_ℤ (pos 0) (inc_ℤ z) ≡ true
still_positive (pos n) h = ground arith
still_positive (negsuc n) h = absurd (ground arith)

shared_eq : (x p : Page) → some (shared x) ≡ some p → shared x ≡ p
shared_eq x p e = cc

owned_modify :
    (ps : List Page) (i j : ℕ) (p : Page)
    → ((q : Page) → get_elem? ps i ≡ some q → ltb_ℤ (pos 0) q.ref_count ≡ true)
    → get_elem? (modify ps j shared) i ≡ some p
    → ltb_ℤ (pos 0) p.ref_count ≡ true
owned_modify [] i j p h e = cc
owned_modify (x ∷ ps) zero zero p h e =
    rw (← shared_eq x p e) (still_positive x.ref_count (h x refl))
owned_modify (x ∷ ps) zero (suc j) p h e = h p e
owned_modify (x ∷ ps) (suc i) zero p h e = h p e
owned_modify (x ∷ ps) (suc i) (suc j) p h e = owned_modify ps i j p h e

IsOwned-share_page : (c : Cache) (x y : ℤ) → IsOwned c x → IsOwned (share_page c y) x
unfolding share_page
IsOwned-share_page c x y h i p ei eg = elim (Option-cases (index? y (length c.pages))) [
  | inl ey ↦ ground (arith, h i p)
  | inr (j, ey) ↦
      let here : index? x (length c.pages) ≡ some i =
        sym (ap (index? x) (length-modify c.pages j shared)) ∙ (rw (ey, share_page) at ei) in
      owned_modify c.pages i j p (λ q g. h i q here g) (rw (ey, share_page) at eg)
]

AreOwned-share : (c : Cache) (y : ℤ) (ids : List ℤ) → AreOwned c ids → AreOwned (share_page c y) ids
AreOwned-share c y [] h = tt
AreOwned-share c y (id ∷ ids) h = (IsOwned-share_page c id y h.0, AreOwned-share c y ids h.1)

-- Releasing a page that has just been shared undoes the sharing.
release-share : (c : Cache) (x : ℤ) → IsOwned c x → release_page (share_page c x) x ≡ c
unfolding release_page share_page
release-share c x h = elim (Option-cases (index? x (length c.pages))) [
  | inl e ↦ ground arith
  | inr (i, e) ↦
      let (p, g) = get_elem?-inside c.pages i (index?-inside x (length c.pages) i e) in
      ground (
        arith,
        length-modify c.pages i shared,
        get_elem?-modify_self c.pages i shared p g,
        set-modify c.pages i shared p g,
        dec_inc p.ref_count,
        h i p e g,
      )
]

release-acquire_blocks :
    (ids : List ℤ) (c : Cache) (x : ℤ)
    → IsOwned c x
    → release_page (acquire_blocks ids (share_page c x)) x ≡ acquire_blocks ids c
unfolding acquire_blocks
release-acquire_blocks [] c x h = release-share c x h
release-acquire_blocks (y ∷ ids) c x h =
    ap (λ d. release_page (acquire_blocks ids d) x) (share_page_comm c x y)
    ∙ release-acquire_blocks ids (share_page c y) x (IsOwned-share_page c x y h)

-- `ReleaseBlocksRef` undoes `AcquireBlocks`: when every page that the ids name has an owner, taking
-- a reference to each and giving each back leaves the cache as it was, in every field. Ids out of
-- range are passed over, and an id may occur several times.
pub release_blocks-acquire_blocks :
    (ids : List ℤ) (c : Cache) → AreOwned c ids → release_blocks ids (acquire_blocks ids c) ≡ c
unfolding release_blocks acquire_blocks
release_blocks-acquire_blocks [] c h = refl
release_blocks-acquire_blocks (x ∷ ids) c h =
    ap (release_blocks ids) (release-acquire_blocks ids c x h.0)
    ∙ release_blocks-acquire_blocks ids c h.1

-- `k` releases of one page.
unfoldable pub release_times : ℕ → ℤ → Cache → Cache
release_times zero id c = c
release_times (suc k) id c = release_times k id (release_page c id)

release_page-shared :
    (c : Cache) (i k : ℕ) (p : Page)
    → get_elem? c.pages i ≡ some p
    → i < length c.pages
    → p.ref_count ≡ pos (suc (suc k))
    → release_page c (pos i) ≡ put_page c i (record p { ref_count = pos (suc k) })
unfolding release_page
release_page-shared c i k p g lt e = ground arith

release_page-last :
    (c : Cache) (i : ℕ) (p : Page)
    → get_elem? c.pages i ≡ some p
    → i < length c.pages
    → p.ref_count ≡ pos 1
    → release_page c (pos i) ≡ free_page c i p
unfolding release_page
release_page-last c i p g lt e = ground arith

same_count : (p : Page) → p.ref_count ≡ pos 1 → p ≡ record p { ref_count = pos 1 }
same_count p e = ground arith

free_page_pages :
    (c : Cache) (i : ℕ) (p : Page) → (free_page c i p).pages ≡ set c.pages i (freed_page p)
unfolding free_page
free_page_pages c i p = refl

freed_at :
    (c : Cache) (i : ℕ) (p : Page)
    → get_elem? c.pages i ≡ some p
    → p.ref_count ≡ pos 1
    → get_elem? (free_page c i p).pages i
      ≡ some (record p { floats = []; in_use = false; ref_count = pos 0; dirty = false })
freed_at c i p g e =
    ap (λ ps. get_elem? ps i) (free_page_pages c i p)
    ∙ get_elem?-set_self c.pages i (freed_page p) (get_elem?-lt c.pages i p g)
    ∙ ap (λ z. some (record p { floats = []; in_use = false; ref_count = dec_ℤ z; dirty = false }))
        e

-- A page with k + 1 owners keeps its values and stays in use through k releases; release k + 1 frees
-- it, and empties it.
pub release_times_lem :
    (k i : ℕ) (c : Cache) (p : Page)
    → get_elem? c.pages i ≡ some p
    → p.ref_count ≡ pos (suc k)
    → (get_elem? (release_times k (pos i) c).pages i ≡ some (record p { ref_count = pos 1 }))
      × (get_elem? (release_times (suc k) (pos i) c).pages i
          ≡ some (record p { floats = []; in_use = false; ref_count = pos 0; dirty = false }))
unfolding release_times
release_times_lem zero i c p g e = (
  g ∙ ap some (same_count p e),
  ap (λ (d : Cache). get_elem? d.pages i) (release_page-last c i p g (get_elem?-lt c.pages i p g) e)
      ∙ freed_at c i p g e,
)
release_times_lem (suc k) i c p g e =
    let lt = get_elem?-lt c.pages i p g in
    let p' : Page = record p { ref_count = pos (suc k) } in
    let e1 = release_page-shared c i k p g lt e in
    let ih = release_times_lem k i (put_page c i p') p' (get_elem?-set_self c.pages i p' lt) refl in
    (
      ap (λ (d : Cache). get_elem? (release_times k (pos i) d).pages i) e1 ∙ ih.0,
      ap (λ (d : Cache). get_elem? (release_times (suc k) (pos i) d).pages i) e1 ∙ ih.1,
    )
