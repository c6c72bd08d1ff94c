-- ===== src/Grandpa.antt =====
-- warp-sync/src/grandpa.rs and substrate.rs: the finality that a warp sync response proves. The codec,
-- the hash and the signatures are packages, all parameters. Weights are u64 that wrap.
pub mod Ancestry
pub mod Votes
pub mod Advances
use polkadot_p2p_connect.Prelude.{
  ℕ, zero, suc, ◌+◌, ◌*◌, ◌/◌, ◌%◌, ◌^◌, Bool, true, false, not, ◌&&◌, if◌then◌else◌, ltb, leb,
  ◌==◌, bytes_eq, List, [], ◌∷◌, map, length, Option, none, some,
}
use polkadot_p2p_connect.Multistreams.{codes}

abbrev pub Hash : Type 0
Hash = List ℕ

abbrev pub Authorities : Type 0
Authorities = List (List ℕ × ℕ)

pub data BlockDigestItem : Type 0 where
  other : List ℕ → BlockDigestItem
  consensus seal pre_runtime : (engine data_bytes : List ℕ) → BlockDigestItem
  runtime_environment_updated : BlockDigestItem

pub record BlockHeader : Type 0 where
  pub parent_hash : Hash
  pub number : ℕ
  pub state_root : Hash
  pub extrinsics_root : Hash
  pub logs : List BlockDigestItem

pub data GrandpaConsensusMessage : Type 0 where
  scheduled_change : (authorities : Authorities) (delay : ℕ) → GrandpaConsensusMessage
  forced_change :
      (reset_block_height : ℕ) (authorities : Authorities) (delay : ℕ) → GrandpaConsensusMessage

pub record SignedPrecommit : Type 0 where
  pub target_hash : Hash
  pub target_number : ℕ
  pub signature : List ℕ
  pub authority_id : List ℕ

pub record GrandpaJustification : Type 0 where
  pub round : ℕ
  pub target_hash : Hash
  pub target_number : ℕ
  pub precommits : List SignedPrecommit
  pub votes_ancestries : List BlockHeader

pub record WarpSyncFragment : Type 0 where
  pub header : BlockHeader
  pub justification : GrandpaJustification

pub record WarpSyncResponse : Type 0 where
  pub fragments : List WarpSyncFragment
  pub is_finished : Bool

pub record SignerPayload : Type 0 where
  pub vote_type : ℕ
  pub target_hash : Hash
  pub target_number : ℕ
  pub round : ℕ
  pub set_id : ℕ

pub record GrandpaState : Type 0 where
  pub authorities : Authorities
  pub set_id : ℕ
  pub finalized_number : ℕ
  pub finalized_hash : Hash
  pub finalized_state_root : Hash

-- `parity_scale_codec`, `blake2` and `ed25519_dalek`; `verify_strict` is false on bytes that are no key.
pub record Packages : Type 0 where
  pub decode_response : List ℕ → Option WarpSyncResponse
  pub decode_message : List ℕ → Option GrandpaConsensusMessage
  pub encode_header : BlockHeader → List ℕ
  pub encode_payload : SignerPayload → List ℕ
  pub blake2b : List ℕ → Hash
  pub verify_strict : (key message signature : List ℕ) → Bool

pub data Error : Type 0 where
  decode_failed target_hash_mismatch : Error
  does_not_advance target_number_mismatch : (header other : ℕ) → Error
  no_authority_change : (number : ℕ) → Error
  insufficient_weight : (signed_weight threshold : ℕ) → Error

pub data Result {ℓ} (A : Type ℓ) : Type ℓ where
  ok : A → Result A
  err : Error → Result A

-- A `HashSet` of hashes or keys; what it holds is all that is used of it.
abbrev pub contains : List ℕ → List (List ℕ) → Bool
contains x [] = false
contains x (y ∷ ys) = if bytes_eq y x then true else contains x ys

-- A key that comes twice has the last of its weights, as in a `HashMap`.
abbrev pub weight_of : List ℕ → Authorities → Option ℕ
weight_of k [] = none
weight_of k ((j, w) ∷ rest) = elim (weight_of k rest) [
  | none ↦ if bytes_eq j k then some w else none
  | some v ↦ some v
]

abbrev pub total_weight : Authorities → ℕ
total_weight [] = 0
total_weight ((j, w) ∷ rest) = (w + total_weight rest) % 2 ^ 64

unfoldable pub threshold : Authorities → ℕ
threshold authorities = (total_weight authorities * 2) % 2 ^ 64 / 3

-- One pass over the ancestry, with whether it added a hash.
unfoldable pub expand : List (Hash × Hash) → List Hash → List Hash × Bool
expand [] valid = (valid, false)
expand ((hash, parent_hash) ∷ rest) valid =
    if contains parent_hash valid && not (contains hash valid)
    then ((expand rest (hash ∷ valid)).0, true)
    else expand rest valid

-- The loop, on a number of passes.
unfoldable pub expand_all : ℕ → List (Hash × Hash) → List Hash → List Hash
unfolding expand
expand_all zero ancestry valid = valid
expand_all (suc passes) ancestry valid =
    let (valid', added) = expand ancestry valid in
    let more = expand_all passes ancestry valid' in if added then more else valid'

-- What `find_warp_sync_grandpa_authority_change` finds in one message.
abbrev pub authorities_of : GrandpaConsensusMessage → Authorities
authorities_of (scheduled_change authorities _) = authorities
authorities_of (forced_change _ authorities _) = authorities

abbrev pub is_grandpa : List ℕ → Bool
is_grandpa engine = bytes_eq engine (codes "FRNK")

module _ (pkg : Packages) where
  open pkg use {decode_response, decode_message, encode_header, encode_payload, blake2b}

  abbrev pub hash : BlockHeader → Hash
  hash h = blake2b (encode_header h)

  abbrev pub entry : BlockHeader → Hash × Hash
  entry h = (hash h, h.parent_hash)

  -- Each pass but the last adds a hash of the ancestry.
  unfoldable pub build_ancestry_set : GrandpaJustification → List Hash
  unfolding expand_all
  build_ancestry_set j =
      expand_all (length j.votes_ancestries + 1) (map entry j.votes_ancestries) (j.target_hash ∷ [])

  unfoldable pub change_in : BlockDigestItem → Option Authorities
  change_in (consensus engine data_bytes) =
      if is_grandpa engine
      then elim (decode_message data_bytes) [ none ↦ none | some msg ↦ some (authorities_of msg) ]
      else none
  change_in _ = none

  unfoldable pub find_warp_sync_grandpa_authority_change : List BlockDigestItem → Option Authorities
  unfolding change_in
  find_warp_sync_grandpa_authority_change [] = none
  find_warp_sync_grandpa_authority_change (log ∷ logs) = elim (change_in log) [
    | none ↦ find_warp_sync_grandpa_authority_change logs
    | some authorities ↦ some authorities
  ]

  unfoldable pub verify_precommit_signature : SignedPrecommit → ℕ → ℕ → Bool
  verify_precommit_signature p round set_id =
      let payload_bytes = encode_payload (record {
        vote_type = 1;
        target_hash = p.target_hash;
        target_number = p.target_number;
        round = round;
        set_id = set_id;
      }) in
      pkg.verify_strict p.authority_id payload_bytes p.signature

  module _ (s : GrandpaState) (j : GrandpaJustification) (valid_targets : List Hash) where
    -- The loop over the precommits, with the keys seen and the weight signed so far.
    unfoldable pub count_votes : List SignedPrecommit → List (List ℕ) → ℕ → Result (Unit {0})
    unfolding threshold verify_precommit_signature
    count_votes [] seen signed = err (insufficient_weight signed (threshold s.authorities))
    count_votes (p ∷ ps) seen signed = elim (weight_of p.authority_id s.authorities) [
      | none ↦ count_votes ps seen signed
      | some weight ↦
          let skipped = count_votes ps (p.authority_id ∷ seen) signed in
          let signed' = (signed + weight) % 2 ^ 64 in
          let counted = count_votes ps (p.authority_id ∷ seen) signed' in
          if contains p.authority_id seen
          then count_votes ps seen signed
          else if not (contains p.target_hash valid_targets)
          then skipped
          else if not (verify_precommit_signature p j.round s.set_id)
          then skipped
          else if ltb (threshold s.authorities) signed'
          then ok tt
          else counted
    ]

  unfoldable pub verify_warp_sync_justification :
      GrandpaState → GrandpaJustification → Result (Unit {0})
  unfolding count_votes build_ancestry_set
  verify_warp_sync_justification s j = count_votes s j (build_ancestry_set j) j.precommits [] 0

  -- The state behind a header that is final.
  unfoldable pub finalize : BlockHeader → GrandpaState → GrandpaState
  unfolding find_warp_sync_grandpa_authority_change
  finalize h s =
      let s' = record s {
        finalized_hash = hash h;
        finalized_state_root = h.state_root;
        finalized_number = h.number;
      } in
      elim (find_warp_sync_grandpa_authority_change h.logs) [
        | none ↦ s'
        | some authorities ↦ record s' {
          set_id = (s.set_id + 1) % 2 ^ 64;
          authorities = authorities;
        }
      ]

  -- The end of `process_warp_sync_fragment`, by the result of the verification.
  unfoldable pub apply_verified :
      BlockHeader → Bool → Result (Unit {0}) → GrandpaState → GrandpaState × Result (Unit {0})
  unfolding finalize find_warp_sync_grandpa_authority_change
  apply_verified h is_last (err e) s = (s, err e)
  apply_verified h is_last (ok u) s = elim (find_warp_sync_grandpa_authority_change h.logs) [
    | none ↦ if is_last then (finalize h s, ok tt) else (s, err (no_authority_change h.number))
    | some _ ↦ (finalize h s, ok tt)
  ]

  unfoldable pub process_warp_sync_fragment :
      WarpSyncFragment → Bool → GrandpaState → GrandpaState × Result (Unit {0})
  unfolding apply_verified verify_warp_sync_justification
  process_warp_sync_fragment f is_last s =
      let h = f.header in
      let j = f.justification in
      if leb h.number s.finalized_number
      then (s, err (does_not_advance h.number s.finalized_number))
      else if not (bytes_eq j.target_hash (hash h))
      then (s, err target_hash_mismatch)
      else if not (j.target_number == h.number)
      then (s, err (target_number_mismatch h.number j.target_number))
      else apply_verified h is_last (verify_warp_sync_justification s j) s

  -- The loop over the fragments; `?` leaves it at the first error.
  unfoldable pub process_fragments :
      Bool → List WarpSyncFragment → GrandpaState → GrandpaState × Result Bool
  unfolding process_warp_sync_fragment
  process_fragments is_finished [] s = (s, ok is_finished)
  process_fragments is_finished (f ∷ fs) s =
      let (s', done) = process_warp_sync_fragment f (is_finished && (length fs == 0)) s in
      elim done [ err e ↦ (s', err e) | ok _ ↦ process_fragments is_finished fs s' ]

  unfoldable pub update_with_warp_sync_response : List ℕ → GrandpaState → GrandpaState × Result Bool
  unfolding process_fragments
  update_with_warp_sync_response response_bytes s = elim (decode_response response_bytes) [
    | none ↦ (s, err decode_failed)
    | some response ↦ process_fragments response.is_finished response.fragments s
  ]
