-- ===== src/Grandpa/Votes.antt =====
-- grandpa.rs: which votes a justification that is accepted has.
use polkadot_p2p_connect.Prelude.{
  ℕ, ◌+◌, ◌*◌, ◌%◌, ◌^◌, ◌<◌, ◌≡◌, refl, arith, inl, inr, true, false, Bool-cases, Option-cases,
  ltb, List, [], ◌∷◌, none, some, All,
}
use polkadot_p2p_connect.Grandpa.{
  Authorities, SignedPrecommit, GrandpaJustification, GrandpaState, Packages, ok, contains,
  weight_of, total_weight, threshold, build_ancestry_set, verify_precommit_signature, count_votes,
  verify_warp_sync_justification,
}
use polkadot_p2p_connect.Grandpa.Ancestry.{Descends, build_ancestry_set-Descends}

-- The votes, in their order, are some of the precommits.
pub data Some : List SignedPrecommit → List SignedPrecommit → Type 0 where
  nil : {ps : List SignedPrecommit} → Some [] ps
  skips : {p : SignedPrecommit} {vs ps : List SignedPrecommit} → Some vs ps → Some vs (p ∷ ps)
  takes : {p : SignedPrecommit} {vs ps : List SignedPrecommit} → Some vs ps → Some (p ∷ vs) (p ∷ ps)

-- No authority votes twice, and none that is in `seen` votes.
abbrev pub Distinct : List (List ℕ) → List SignedPrecommit → Type 0
Distinct seen [] = Unit
Distinct seen (v ∷ vs) =
    (contains v.authority_id seen ≡ false) × Distinct (v.authority_id ∷ seen) vs

-- The weight of a vote, and the sum of those of some votes.
abbrev pub weigh : Authorities → SignedPrecommit → ℕ
weigh authorities v = elim (weight_of v.authority_id authorities) [ none ↦ 0 | some w ↦ w ]

abbrev pub weigh_all : Authorities → List SignedPrecommit → ℕ
weigh_all authorities [] = 0
weigh_all authorities (v ∷ vs) = weigh authorities v + weigh_all authorities vs

-- The sum of the weights of the authorities, as a number that does not wrap.
abbrev pub full_weight : Authorities → ℕ
full_weight [] = 0
full_weight ((k, w) ∷ rest) = w + full_weight rest

abbrev Wider : List (List ℕ) → List (List ℕ) → Type 0
Wider large small = (k : List ℕ) → contains k large ≡ false → contains k small ≡ false

Distinct-Wider :
    (large small : List (List ℕ)) (vs : List SignedPrecommit)
    → Wider large small
    → Distinct large vs
    → Distinct small vs
Distinct-Wider large small [] i d = tt
Distinct-Wider large small (v ∷ vs) i d =
    let k = v.authority_id in
    let wider : Wider (k ∷ large) (k ∷ small) = λ x e. ground (arith, i x) in
    (i k d.0, Distinct-Wider (k ∷ large) (k ∷ small) vs wider d.1)

total_weight-full :
    (authorities : Authorities)
    → full_weight authorities < 2 ^ 64
    → total_weight authorities ≡ full_weight authorities
total_weight-full [] h = refl
total_weight-full ((k, w) ∷ rest) h = omega (arith, total_weight-full rest (omega arith))

module _ (pkg : Packages) (s : GrandpaState) (j : GrandpaJustification) where
  -- A vote of an authority, for the target or a descendant, with its signature.
  pub record Counts (v : SignedPrecommit) : Type 0 where
    pub weight : ℕ
    pub is_authority : weight_of v.authority_id s.authorities ≡ some weight
    pub descends : Descends pkg j v.target_hash
    pub signed : verify_precommit_signature pkg v j.round s.set_id ≡ true

  -- Some of the precommits, each of which counts, with the weight `w` on top of `signed`.
  record Enough (ps : List SignedPrecommit) (seen : List (List ℕ)) (signed : ℕ) : Type 0 where
    votes : List SignedPrecommit
    some_of : Some votes ps
    distinct : Distinct seen votes
    counts : All Counts votes
    enough : threshold s.authorities < signed + weigh_all s.authorities votes

  -- More than the threshold, in votes of different authorities.
  pub record Justified : Type 0 where
    pub votes : List SignedPrecommit
    pub some_of : Some votes j.precommits
    pub distinct : Distinct [] votes
    pub counts : All Counts votes
    pub enough : threshold s.authorities < weigh_all s.authorities votes

  module _ (p : SignedPrecommit) (ps : List SignedPrecommit) (seen : List (List ℕ))
      (signed : ℕ) where
    skip : Enough ps seen signed → Enough (p ∷ ps) seen signed
    skip e = record {
      votes = e.votes;
      some_of = skips e.some_of;
      distinct = e.distinct;
      counts = e.counts;
      enough = e.enough;
    }

    skip_seen : Enough ps (p.authority_id ∷ seen) signed → Enough (p ∷ ps) seen signed
    skip_seen e = record {
      votes = e.votes;
      some_of = skips e.some_of;
      distinct =
          Distinct-Wider (p.authority_id ∷ seen) seen e.votes (λ k c. ground arith) e.distinct;
      counts = e.counts;
      enough = e.enough;
    }

    weigh_counted :
        (c : Counts p) (n : ℕ)
        → threshold s.authorities < (signed + c.weight) % 2 ^ 64 + n
        → threshold s.authorities < signed + (weigh s.authorities p + n)
    weigh_counted c n e = rw (c.is_authority, weigh) (omega arith)

    last_vote :
        (c : Counts p)
        → contains p.authority_id seen ≡ false
        → threshold s.authorities < (signed + c.weight) % 2 ^ 64
        → Enough (p ∷ ps) seen signed
    last_vote c new e = record {
      votes = p ∷ [];
      some_of = takes nil;
      distinct = (new, tt);
      counts = (c, tt);
      enough = weigh_counted c 0 (omega arith);
    }

    vote :
        (c : Counts p)
        → contains p.authority_id seen ≡ false
        → Enough ps (p.authority_id ∷ seen) ((signed + c.weight) % 2 ^ 64)
        → Enough (p ∷ ps) seen signed
    vote c new e = record {
      votes = p ∷ e.votes;
      some_of = takes e.some_of;
      distinct = (new, e.distinct);
      counts = (c, e.counts);
      enough = weigh_counted c (weigh_all s.authorities e.votes) e.enough;
    }

  count_votes-Enough :
      (ps : List SignedPrecommit) (seen : List (List ℕ)) (signed : ℕ)
      → count_votes pkg s j (build_ancestry_set pkg j) ps seen signed ≡ ok tt
      → Enough ps seen signed
  unfolding count_votes
  count_votes-Enough [] seen signed e = cc
  count_votes-Enough (p ∷ ps) seen signed e =
      let valid = build_ancestry_set pkg j in
      let k = p.authority_id in
      elim (Option-cases (weight_of k s.authorities)) [
        | inl stranger ↦ skip p ps seen signed (count_votes-Enough ps seen signed (ground arith))
        | inr (w, member) ↦ elim (Bool-cases (contains k seen)) [
          | inl old ↦ skip p ps seen signed (count_votes-Enough ps seen signed (ground arith))
          | inr new ↦ elim (Bool-cases (contains p.target_hash valid)) [
            | inr astray ↦
                skip_seen p ps seen signed (count_votes-Enough ps (k ∷ seen) signed (ground arith))
            | inl valid_target ↦
                elim (Bool-cases (verify_precommit_signature pkg p j.round s.set_id)) [
                  | inr forged ↦
                      skip_seen p ps seen signed
                        (count_votes-Enough ps (k ∷ seen) signed (ground arith))
                  | inl verified ↦
                      let c : Counts p = record {
                        weight = w;
                        is_authority = member;
                        descends = (build_ancestry_set-Descends pkg j p.target_hash).0 valid_target;
                        signed = verified;
                      } in
                      elim (Bool-cases (ltb (threshold s.authorities) ((signed + w) % 2 ^ 64))) [
                        | inl above ↦ last_vote p ps seen signed c new (ground arith)
                        | inr below ↦ vote p ps seen signed c new (
                            count_votes-Enough ps (k ∷ seen) ((signed + w) % 2 ^ 64) (ground arith))
                      ]
                ]
          ]
        ]
      ]

  pub verify_warp_sync_justification-Justified :
      verify_warp_sync_justification pkg s j ≡ ok tt → Justified
  unfolding verify_warp_sync_justification
  verify_warp_sync_justification-Justified e =
      let all = count_votes-Enough j.precommits [] 0 e in
      record {
        votes = all.votes;
        some_of = all.some_of;
        distinct = all.distinct;
        counts = all.counts;
        enough = omega (arith, all.enough);
      }

  -- A justification is accepted only with a supermajority: when the authorities' weights twice over
  -- are below 2 ^ 64 in sum, some of the precommits, each of a different authority of the state, are
  -- for the target or a descendant of it and have a valid signature for the round and the set, and
  -- their weights are more than two thirds of all.
  pub verify_warp_sync_justification-supermajority :
      full_weight s.authorities * 2 < 2 ^ 64
      → verify_warp_sync_justification pkg s j ≡ ok tt
      → (votes : List SignedPrecommit) × Some votes j.precommits
        × Distinct [] votes
        × All Counts votes
        × (full_weight s.authorities * 2 < weigh_all s.authorities votes * 3)
  unfolding threshold
  verify_warp_sync_justification-supermajority bound e =
      let v = verify_warp_sync_justification-Justified e in
      let exact = total_weight-full s.authorities (omega arith) in
      (v.votes, v.some_of, v.distinct, v.counts, omega (arith, v.enough, exact))
