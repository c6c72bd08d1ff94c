-- ===== src/Examples/Finality.antt =====
-- A justification of three authorities, with toy packages: the hash of a header is its number, and a
-- signature is the key with the message.
use polkadot_p2p_connect.Prelude.{
  ℕ, ◌*◌, ◌<◌, ◌≤◌, ◌≡◌, refl, ◌↔◌, arith, true, if◌then◌else◌, bytes_eq, List, [], ◌∷◌, ◌++◌, none,
  some, All,
}
use polkadot_p2p_connect.Grandpa.{
  BlockHeader, SignedPrecommit, GrandpaJustification, WarpSyncResponse, SignerPayload, GrandpaState,
  Packages, ok, err, insufficient_weight, contains, threshold, expand, expand_all,
  build_ancestry_set, verify_precommit_signature, count_votes, verify_warp_sync_justification,
  find_warp_sync_grandpa_authority_change, finalize, apply_verified, process_warp_sync_fragment,
  process_fragments, update_with_warp_sync_response,
}
use polkadot_p2p_connect.Grandpa.Ancestry.{Descends, build_ancestry_set-Descends}
use polkadot_p2p_connect.Grandpa.Votes.{
  Some, Distinct, Counts, full_weight, weigh_all, verify_warp_sync_justification-supermajority,
}
use polkadot_p2p_connect.Grandpa.Advances.{Advances, update-Advances}

abbrev header : ℕ → ℕ → BlockHeader
header parent number = record {
  parent_hash = parent ∷ [];
  number = number;
  state_root = 100 ∷ [];
  extrinsics_root = [];
  logs = [];
}

abbrev signed_bytes : SignerPayload → List ℕ
signed_bytes p = p.target_hash ++ p.round ∷ p.set_id ∷ []

-- A precommit of round 5 and set 0.
abbrev precommit : (authority target : ℕ) → SignedPrecommit
precommit authority target = record {
  target_hash = target ∷ [];
  target_number = target;
  signature = authority ∷ target ∷ 5 ∷ 0 ∷ [];
  authority_id = authority ∷ [];
}

abbrev justified_by : List SignedPrecommit → GrandpaJustification
justified_by precommits = record {
  round = 5;
  target_hash = 10 ∷ [];
  target_number = 10;
  precommits = precommits;
  votes_ancestries = header 11 12 ∷ header 10 11 ∷ [];
}

-- A stranger, two votes of the first authority, and votes for a descendant.
abbrev three_votes : GrandpaJustification
three_votes =
    justified_by
      (precommit 9 10 ∷ precommit 1 10 ∷ precommit 1 10 ∷ precommit 2 12 ∷ precommit 3 11 ∷ [])

abbrev response : WarpSyncResponse
response = record {
  fragments = record { header = header 9 10; justification = three_votes } ∷ [];
  is_finished = true;
}

abbrev toy : Packages
toy = record {
  decode_response = λ bytes. if bytes_eq bytes (1 ∷ []) then some response else none;
  decode_message = λ bytes. none;
  encode_header = λ h. h.number ∷ [];
  encode_payload = signed_bytes;
  blake2b = λ bytes. bytes;
  verify_strict = λ key message signature. bytes_eq signature (key ++ message);
}

abbrev genesis : GrandpaState
genesis = record {
  authorities = (1 ∷ [], 1) ∷ (2 ∷ [], 1) ∷ (3 ∷ [], 1) ∷ [];
  set_id = 0;
  finalized_number = 0;
  finalized_hash = 0 ∷ [];
  finalized_state_root = 0 ∷ [];
}

three_votes_accepted : verify_warp_sync_justification toy genesis three_votes ≡ ok tt
unfolding verify_warp_sync_justification build_ancestry_set expand_all expand count_votes threshold
    verify_precommit_signature
three_votes_accepted = refl

-- The second vote of an authority has no weight.
repeated_vote :
    verify_warp_sync_justification toy genesis
      (justified_by (precommit 1 10 ∷ precommit 1 10 ∷ precommit 2 12 ∷ []))
    ≡ err (insufficient_weight 2 2)
unfolding verify_warp_sync_justification build_ancestry_set expand_all expand count_votes threshold
    verify_precommit_signature
repeated_vote = refl

update_accepted : update_with_warp_sync_response toy (1 ∷ []) genesis ≡ (
  record genesis {
    finalized_number = 10;
    finalized_hash = 10 ∷ [];
    finalized_state_root = 100 ∷ [];
  },
  ok true,
)
unfolding update_with_warp_sync_response process_fragments process_warp_sync_fragment apply_verified
    verify_warp_sync_justification build_ancestry_set expand_all expand count_votes threshold
    verify_precommit_signature find_warp_sync_grandpa_authority_change finalize
update_accepted = refl

build_ancestry_set-Descends_example :
    (contains (12 ∷ []) (build_ancestry_set toy three_votes) ≡ true)
    ↔ Descends toy three_votes (12 ∷ [])
build_ancestry_set-Descends_example = build_ancestry_set-Descends toy three_votes (12 ∷ [])

verify_warp_sync_justification-supermajority_example :
    (votes : List SignedPrecommit) × Some votes three_votes.precommits
    × Distinct [] votes
    × All (Counts toy genesis three_votes) votes
    × (full_weight genesis.authorities * 2 < weigh_all genesis.authorities votes * 3)
verify_warp_sync_justification-supermajority_example =
    verify_warp_sync_justification-supermajority toy genesis three_votes (omega arith)
      three_votes_accepted

update-Advances_example :
    Advances toy genesis (update_with_warp_sync_response toy (1 ∷ []) genesis).0
    × (genesis.finalized_number
        ≤ (update_with_warp_sync_response toy (1 ∷ []) genesis).0.finalized_number)
update-Advances_example = update-Advances toy (1 ∷ []) genesis
