-- ===== src/Grandpa/Advances.antt =====
-- grandpa.rs: how a response moves the state.
use polkadot_p2p_connect.Prelude.{
  ℕ, ◌≤◌, ◌<◌, ◌≡◌, ◌⊎◌, refl, subst, arith, inl, inr, Bool, Bool-cases, Option-cases, ◌&&◌, leb,
  ◌==◌, bytes_eq, bytes_eq→eq, List, [], ◌∷◌, length,
}
use polkadot_p2p_connect.Grandpa.{
  BlockHeader, GrandpaJustification, WarpSyncFragment, GrandpaState, Packages, Result, ok, err,
  hash, find_warp_sync_grandpa_authority_change, finalize, apply_verified,
  verify_warp_sync_justification, process_warp_sync_fragment, process_fragments,
  update_with_warp_sync_response,
}
use polkadot_p2p_connect.Grandpa.Votes.{Justified, verify_warp_sync_justification-Justified}

module _ (pkg : Packages) where
  -- Headers that become final one after the other: each is higher than the last, and has a
  -- justification for it that the authorities of the moment, which the last but one may have changed,
  -- have signed.
  pub data Advances : GrandpaState → GrandpaState → Type 0 where
    stays : {s : GrandpaState} → Advances s s
    finalizes :
        {s s' : GrandpaState} (h : BlockHeader) (j : GrandpaJustification)
        → s.finalized_number < h.number
        → j.target_hash ≡ hash pkg h
        → j.target_number ≡ h.number
        → Justified pkg s j
        → Advances (finalize pkg h s) s'
        → Advances s s'

  finalize_number :
      (h : BlockHeader) (s : GrandpaState) → (finalize pkg h s).finalized_number ≡ h.number
  unfolding finalize
  finalize_number h s = ground arith

  Advances-mono : (s s' : GrandpaState) → Advances s s' → s.finalized_number ≤ s'.finalized_number
  Advances-mono s _ stays = omega arith
  Advances-mono s s' (finalizes h j higher _ _ _ rest) =
      omega (arith, Advances-mono (finalize pkg h s) s' rest, finalize_number h s)

  -- The result of a fragment: nothing has changed, or its header is final.
  abbrev Outcome : WarpSyncFragment → GrandpaState → GrandpaState → Type 0
  Outcome f s s' =
      (s' ≡ s)
      ⊎ ((s' ≡ finalize pkg f.header s)
          × (s.finalized_number < f.header.number)
          × (f.justification.target_hash ≡ hash pkg f.header)
          × (f.justification.target_number ≡ f.header.number)
          × Justified pkg s f.justification)

  apply_verified_cases :
      (h : BlockHeader) (is_last : Bool) (r : Result (Unit {0})) (s : GrandpaState)
      → ((apply_verified pkg h is_last r s).0 ≡ s)
        ⊎ (((apply_verified pkg h is_last r s).0 ≡ finalize pkg h s) × (r ≡ ok tt))
  unfolding apply_verified
  apply_verified_cases h is_last (err e) s = inl refl
  apply_verified_cases h is_last (ok u) s =
      elim (Option-cases (find_warp_sync_grandpa_authority_change pkg h.logs)) [
        | inr (authorities, found) ↦ inr (rw (found, apply_verified) refl, refl)
        | inl nothing ↦ elim (Bool-cases is_last) [
          | inl last ↦ inr (rw (nothing, last, apply_verified) refl, refl)
          | inr more ↦ inl (rw (nothing, more, apply_verified) refl)
        ]
      ]

  process_fragment-Outcome :
      (f : WarpSyncFragment) (is_last : Bool) (s : GrandpaState)
      → Outcome f s (process_warp_sync_fragment pkg f is_last s).0
  unfolding process_warp_sync_fragment
  process_fragment-Outcome f is_last s =
      let h = f.header in
      let j = f.justification in
      elim (Bool-cases (leb h.number s.finalized_number)) [
        | inl lower ↦ inl (rw lower refl)
        | inr higher ↦ elim (Bool-cases (bytes_eq j.target_hash (hash pkg h))) [
          | inr other ↦ inl (rw (higher, other) refl)
          | inl same ↦ elim (Bool-cases (j.target_number == h.number)) [
            | inr other ↦ inl (rw (higher, same, other) refl)
            | inl number ↦
                elim (apply_verified_cases h is_last (verify_warp_sync_justification pkg s j) s) [
                  | inl e ↦ inl (rw (higher, same, number) e)
                  | inr (e, verified) ↦ inr (
                    rw (higher, same, number) e,
                    ground arith,
                    bytes_eq→eq j.target_hash (hash pkg h) same,
                    ground arith,
                    verify_warp_sync_justification-Justified pkg s j verified,
                  )
                ]
          ]
        ]
      ]

  follows :
      (f : WarpSyncFragment) (s s1 s' : GrandpaState)
      → Outcome f s s1
      → Advances s1 s'
      → Advances s s'
  follows f s s1 s' (inl e) rest = subst (λ t. Advances t s') e rest
  follows f s s1 s' (inr (e, higher, target, number, justified)) rest =
      finalizes f.header f.justification higher target number justified
        (subst (λ t. Advances t s') e rest)

  after_fragment :
      (is_finished : Bool) (fs : List WarpSyncFragment) (s : GrandpaState) (r : Result (Unit {0}))
      → Advances s (process_fragments pkg is_finished fs s).0
      → Advances s
          (elim r as (λ _. GrandpaState × Result Bool) [
            | err e ↦ (s, err e)
            | ok _ ↦ process_fragments pkg is_finished fs s
          ]).0
  after_fragment is_finished fs s (err e) rest = stays
  after_fragment is_finished fs s (ok u) rest = rest

  process_fragments-Advances :
      (is_finished : Bool) (fs : List WarpSyncFragment) (s : GrandpaState)
      → Advances s (process_fragments pkg is_finished fs s).0
  unfolding process_fragments
  process_fragments-Advances is_finished [] s = stays
  process_fragments-Advances is_finished (f ∷ fs) s =
      let is_last = is_finished && (length fs == 0) in
      let outcome = process_fragment-Outcome f is_last s in
      let (s1, done) = process_warp_sync_fragment pkg f is_last s in
      follows f s s1 _ outcome
        (after_fragment is_finished fs s1 done (process_fragments-Advances is_finished fs s1))

  -- Whatever bytes a peer sends, and whether the update succeeds or fails, the state moves only along
  -- headers that are each higher than the last and justified for their hash and number by votes of the
  -- authorities of the moment with more weight than the threshold; so the finalized number never
  -- goes back.
  pub update-Advances :
      (response_bytes : List ℕ) (s : GrandpaState)
      → Advances s (update_with_warp_sync_response pkg response_bytes s).0
        × (s.finalized_number
            ≤ (update_with_warp_sync_response pkg response_bytes s).0.finalized_number)
  unfolding update_with_warp_sync_response
  update-Advances response_bytes s = elim (Option-cases (pkg.decode_response response_bytes)) [
    | inl e ↦ rw (e, update_with_warp_sync_response) (stays, omega arith)
    | inr (response, e) ↦
        let moved = process_fragments-Advances response.is_finished response.fragments s in
        rw (e, update_with_warp_sync_response)
          (
            moved,
            Advances-mono s (process_fragments pkg response.is_finished response.fragments s).0
                moved,
          )
  ]
