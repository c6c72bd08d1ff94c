-- ===== src/Protocol.antt =====
-- protocol.rs, configuration.rs and utils/opaque_id.rs: the protocols that a user configures, and
-- their ids. A name is the list of its bytes, a `usize` a number below 2 ^ 64, an id a number, and a
-- `Duration` a number of nanoseconds.
use polkadot_p2p_connect.Prelude.{
  ℕ, ◌+◌, ◌*◌, ◌-◌, ◌%◌, ◌^◌, Bool, true, false, List, [], ◌∷◌, ◌++◌, Option, none, some,
}

abbrev pub usize_max : ℕ
usize_max = 2 ^ 64 - 1

pub record RequestProtocol : Type 0 where
  pub name : List ℕ
  pub allow_inbound : Bool
  pub timeout : Option ℕ
  pub max_response_size_in_bytes : ℕ

pub record SubscriptionProtocol : Type 0 where
  pub name : List ℕ
  pub allow_inbound : Bool
  pub max_response_size_in_bytes : ℕ
  pub our_handshake : List ℕ
  pub validate_their_handshake : List ℕ → Bool

abbrev pub new_request : List ℕ → RequestProtocol
new_request name = record {
  name = name;
  allow_inbound = false;
  timeout = none;
  max_response_size_in_bytes = usize_max;
}

abbrev pub new_subscription : List ℕ → List ℕ → (List ℕ → Bool) → SubscriptionProtocol
new_subscription name our_handshake validate = record {
  name = name;
  allow_inbound = true;
  max_response_size_in_bytes = usize_max;
  our_handshake = our_handshake;
  validate_their_handshake = validate;
}

pub data AnyProtocol : Type 0 where
  request : RequestProtocol → AnyProtocol
  subscription : SubscriptionProtocol → AnyProtocol

abbrev pub as_request : AnyProtocol → Option RequestProtocol
as_request (request p) = some p
as_request (subscription p) = none

abbrev pub as_subscription : AnyProtocol → Option SubscriptionProtocol
as_subscription (request p) = none
as_subscription (subscription p) = some p

pub record Configuration : Type 0 where
  pub identity_secret : Option (List ℕ)
  pub noise_timeout : ℕ
  pub multistream_timeout : ℕ
  pub protocols : List (ℕ × AnyProtocol)

-- `Configuration::default`
abbrev pub default : Configuration
default = record {
  identity_secret = none;
  noise_timeout = 30 * 1000000000;
  multistream_timeout = 10 * 1000000000;
  protocols = [];
}

-- `OpaqueId::new` on the counter of the process, which `fetch_add` lets wrap.
abbrev pub new_id : ℕ → ℕ × ℕ
new_id counter = ((counter + 1) % 2 ^ 64, counter)

-- The counter, the configuration and the id of the protocol.
unfoldable pub add_protocol : AnyProtocol → ℕ → Configuration → ℕ × Configuration × ℕ
add_protocol protocol counter c =
    let (counter', id) = new_id counter in
    (counter', record c { protocols = c.protocols ++ (id, protocol) ∷ [] }, id)
