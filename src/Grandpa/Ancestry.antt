-- ===== src/Grandpa/Ancestry.antt =====
-- grandpa.rs: the hashes that `build_ancestry_set` collects.
use polkadot_p2p_connect.Prelude.{
  ℕ, zero, suc, ◌+◌, ◌≤◌, ◌<◌, ◌≡◌, refl, subst, arith, ◌↔◌, inl, inr, true, false, not, ◌&&◌,
  Bool-cases, if◌then◌else◌, bytes_eq, bytes_eq_refl, bytes_eq→eq, List, [], ◌∷◌, map, length, All,
}
use polkadot_p2p_connect.Grandpa.{
  Hash, BlockHeader, GrandpaJustification, Packages, contains, expand, expand_all, hash, entry,
  build_ancestry_set,
}

pub data Among {ℓ} {A : Type ℓ} (a : A) : List A → Type ℓ where
  here : {xs : List A} → Among a (a ∷ xs)
  there : {b : A} {xs : List A} → Among a xs → Among a (b ∷ xs)

-- How many entries of the ancestry have a hash that is not in the set.
abbrev missing : List (Hash × Hash) → List Hash → ℕ
missing [] valid = 0
missing ((h, parent) ∷ rest) valid =
    if contains h valid then missing rest valid else missing rest valid + 1

-- The first set has all that the second has.
abbrev Includes : List Hash → List Hash → Type 0
Includes large small = (h : Hash) → contains h small ≡ true → contains h large ≡ true

-- An entry whose parent is in the set is in it.
abbrev Closed : List Hash → List (Hash × Hash) → Type 0
Closed valid entries = All (λ e. contains e.1 valid ≡ true → contains e.0 valid ≡ true) entries

cons-Includes : (h : Hash) (valid : List Hash) → Includes (h ∷ valid) valid
cons-Includes h valid x e = ground arith

expand-Includes :
    (entries : List (Hash × Hash)) (valid : List Hash) → Includes (expand entries valid).0 valid
unfolding expand
expand-Includes [] valid x e = e
expand-Includes ((h, parent) ∷ rest) valid x e =
    elim (Bool-cases (contains parent valid && not (contains h valid))) [
      | inl adds ↦ rw adds (expand-Includes rest (h ∷ valid) x (cons-Includes h valid x e))
      | inr keeps ↦ rw keeps (expand-Includes rest valid x e)
    ]

missing-Includes :
    (entries : List (Hash × Hash)) (large small : List Hash)
    → Includes large small
    → missing entries large ≤ missing entries small
missing-Includes [] large small i = omega arith
missing-Includes ((h, parent) ∷ rest) large small i =
    let later = missing-Includes rest large small i in
    elim (Bool-cases (contains h small)) [
      | inl old ↦ rw (old, i h old) later
      | inr new ↦ ground arith
    ]

expand-missing :
    (entries : List (Hash × Hash)) (valid : List Hash)
    → (missing entries (expand entries valid).0 ≤ missing entries valid)
      × ((expand entries valid).1 ≡ true
          → missing entries (expand entries valid).0 < missing entries valid)
unfolding expand
expand-missing [] valid = (omega arith, λ e. cc)
expand-missing ((h, parent) ∷ rest) valid =
    elim (Bool-cases (contains parent valid && not (contains h valid))) [
      | inl adds ↦
          let more = cons-Includes h valid in
          let fewer = missing-Includes rest (h ∷ valid) valid more in
          let later = (expand-missing rest (h ∷ valid)).0 in
          let self : contains h (h ∷ valid) ≡ true = rw (bytes_eq_refl h) refl in
          let kept = expand-Includes rest (h ∷ valid) h self in rw adds (ground arith)
      | inr keeps ↦
          let (fewer, strictly) = expand-missing rest valid in
          let kept = expand-Includes rest valid h in rw keeps (ground arith)
    ]

-- A pass that added nothing.
expand_still :
    (entries : List (Hash × Hash)) (valid : List Hash)
    → (expand entries valid).1 ≡ false
    → ((expand entries valid).0 ≡ valid) × Closed valid entries
unfolding expand
expand_still [] valid e = (refl, tt)
expand_still ((h, parent) ∷ rest) valid e =
    elim (Bool-cases (contains parent valid && not (contains h valid))) [
      | inl adds ↦ absurd (ground arith)
      | inr keeps ↦
          let (same, closed) = expand_still rest valid (ground arith) in
          rw keeps (same, (λ has. ground arith, closed))
    ]

expand_all-Includes :
    (passes : ℕ) (entries : List (Hash × Hash)) (valid : List Hash)
    → Includes (expand_all passes entries valid) valid
unfolding expand_all
expand_all-Includes zero entries valid x e = e
expand_all-Includes (suc passes) entries valid x e =
    let valid' = (expand entries valid).0 in
    let once = expand-Includes entries valid x e in
    elim (Bool-cases (expand entries valid).1) [
      | inl more ↦ rw more (expand_all-Includes passes entries valid' x once)
      | inr stops ↦ rw stops once
    ]

-- The passes are enough.
expand_all-Closed :
    (passes : ℕ) (entries : List (Hash × Hash)) (valid : List Hash)
    → missing entries valid < passes
    → Closed (expand_all passes entries valid) entries
unfolding expand_all
expand_all-Closed zero entries valid enough = absurd (omega arith)
expand_all-Closed (suc passes) entries valid enough =
    let valid' = (expand entries valid).0 in
    let fewer = (expand-missing entries valid).1 in
    elim (Bool-cases (expand entries valid).1) [
      | inl more ↦ rw more (expand_all-Closed passes entries valid' (omega (arith, fewer more)))
      | inr stops ↦
          let (same, closed) = expand_still entries valid stops in rw stops (rw same closed)
    ]

missing-length :
    (entries : List (Hash × Hash)) (valid : List Hash) → missing entries valid ≤ length entries
missing-length [] valid = omega arith
missing-length ((h, parent) ∷ rest) valid = ground (arith, missing-length rest valid)

length-map-entry :
    (pkg : Packages) (hs : List BlockHeader) → length (map (entry pkg) hs) ≡ length hs
length-map-entry pkg [] = refl
length-map-entry pkg (h ∷ hs) = omega (arith, length-map-entry pkg hs)

-- A property of the first set that the ancestry hands down to children.
module _ (P : Hash → Type 0) where
  abbrev HandsDown : List (Hash × Hash) → Type 0
  HandsDown entries = All (λ e. P e.1 → P e.0) entries

  contains-All : (h : Hash) (valid : List Hash) → All P valid → contains h valid ≡ true → P h
  contains-All h [] all e = cc
  contains-All h (x ∷ valid) all e = elim (Bool-cases (bytes_eq x h)) [
    | inl is ↦ subst P (bytes_eq→eq x h is) all.0
    | inr other ↦ contains-All h valid all.1 (ground arith)
  ]

  expand-All :
      (entries : List (Hash × Hash)) (valid : List Hash)
      → HandsDown entries
      → All P valid
      → All P (expand entries valid).0
  unfolding expand
  expand-All [] valid down all = all
  expand-All ((h, parent) ∷ rest) valid down all =
      elim (Bool-cases (contains parent valid && not (contains h valid))) [
        | inl adds ↦
            let is_in = contains-All parent valid all (ground arith) in
            rw adds (expand-All rest (h ∷ valid) down.1 (down.0 is_in, all))
        | inr keeps ↦ rw keeps (expand-All rest valid down.1 all)
      ]

  expand_all-All :
      (passes : ℕ) (entries : List (Hash × Hash)) (valid : List Hash)
      → HandsDown entries
      → All P valid
      → All P (expand_all passes entries valid)
  unfolding expand_all
  expand_all-All zero entries valid down all = all
  expand_all-All (suc passes) entries valid down all =
      let once = expand-All entries valid down all in
      elim (Bool-cases (expand entries valid).1) [
        | inl more ↦ rw more (expand_all-All passes entries (expand entries valid).0 down once)
        | inr stops ↦ rw stops once
      ]

module _ (pkg : Packages) (j : GrandpaJustification) where
  -- The hash of the target, or of a header of the ancestry whose parent is such a hash.
  pub data Descends : Hash → Type 0 where
    target : Descends j.target_hash
    child :
        {h : BlockHeader}
        → Among h j.votes_ancestries
        → Descends h.parent_hash
        → Descends (hash pkg h)

  down :
      (hs : List BlockHeader)
      → ((h : BlockHeader) → Among h hs → Among h j.votes_ancestries)
      → HandsDown Descends (map (entry pkg) hs)
  down [] i = tt
  down (h ∷ hs) i = (λ d. child (i h here) d, down hs (λ x m. i x (there m)))

  child_is_in :
      (h : BlockHeader) (hs : List BlockHeader) (valid : List Hash)
      → Closed valid (map (entry pkg) hs)
      → Among h hs
      → contains h.parent_hash valid ≡ true
      → contains (hash pkg h) valid ≡ true
  child_is_in h _ valid c here e = c.0 e
  child_is_in h _ valid c (there {xs = hs} m) e = child_is_in h hs valid c.1 m e

  descendant_is_in :
      (valid : List Hash) (x : Hash)
      → contains j.target_hash valid ≡ true
      → Closed valid (map (entry pkg) j.votes_ancestries)
      → Descends x
      → contains x valid ≡ true
  descendant_is_in valid _ t c target = t
  descendant_is_in valid _ t c (child {h} m d) =
      child_is_in h j.votes_ancestries valid c m (descendant_is_in valid h.parent_hash t c d)

  -- `build_ancestry_set` ends with exactly the hashes of the target and of its descendants: a hash is
  -- in the set if and only if it is that of the target, or of a header of the ancestry whose chain of
  -- parents in it leads to the target.
  pub build_ancestry_set-Descends :
      (x : Hash) → (contains x (build_ancestry_set pkg j) ≡ true) ↔ Descends x
  unfolding build_ancestry_set
  build_ancestry_set-Descends x =
      let entries = map (entry pkg) j.votes_ancestries in
      let passes = length j.votes_ancestries + 1 in
      let first = j.target_hash ∷ [] in
      let valid = expand_all passes entries first in
      let self : contains j.target_hash first ≡ true = rw (bytes_eq_refl j.target_hash) refl in
      let closed =
        expand_all-Closed passes entries first
          (omega (arith, missing-length entries first, length-map-entry pkg j.votes_ancestries)) in
      let sound =
        expand_all-All Descends passes entries first (down j.votes_ancestries (λ h m. m))
          (target, tt) in
      (
        contains-All Descends x valid sound,
        descendant_is_in valid x (expand_all-Includes passes entries first j.target_hash self)
            closed,
      )
