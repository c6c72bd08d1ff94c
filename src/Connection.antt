-- ===== src/Connection.antt =====
-- connection.rs: the state of a connection. The protocol details are found and changed in place, the
-- first that fits. `Sleep` is the platform's future of a timeout.
pub mod Calls
pub mod Turns
pub mod Requests
pub mod Notifications
pub mod Next
pub mod Responses
pub mod Subscribed
pub mod Answers
pub mod Kept
pub mod History
pub mod Lookup
pub mod Subscriptions
pub mod Honesty
use polkadot_p2p_connect.Prelude.{
  ℕ, Bool, true, false, if◌then◌else◌, List, [], ◌∷◌, ◌++◌, Option, none, some,
}
use mathlib.Core.Option
use polkadot_p2p_connect.Prelude.Maps.{Map}
use polkadot_p2p_connect.Protocol.{
  RequestProtocol, SubscriptionProtocol, Configuration, AnyProtocol, as_request, as_subscription,
}
use polkadot_p2p_connect.Timers.{Timers}
use polkadot_p2p_connect.Timers
use polkadot_p2p_connect.Streams.{Streams}

pub data RequestState : Type 0 where
  awaiting_protocol_confirmation : List ℕ → RequestState
  awaiting_response_payload : RequestState

pub record RequestDetails (Sleep : Type 0) : Type 0 where
  pub protocol_id : ℕ
  pub protocol : RequestProtocol
  pub timeouts : Option (Timers ℕ Sleep)

pub data SubscriptionStreamState : Type 0 where
  not_open : SubscriptionStreamState
  handshake opened : ℕ → SubscriptionStreamState

abbrev pub is_closed : SubscriptionStreamState → Bool
is_closed not_open = true
is_closed (handshake id) = false
is_closed (opened id) = false

abbrev pub is_open : SubscriptionStreamState → Bool
is_open not_open = false
is_open (handshake id) = false
is_open (opened id) = true

abbrev pub stream_id : SubscriptionStreamState → Option ℕ
stream_id not_open = none
stream_id (handshake id) = some id
stream_id (opened id) = some id

pub record SubscriptionDetails : Type 0 where
  pub protocol_id : ℕ
  pub protocol : SubscriptionProtocol
  pub our_stream : SubscriptionStreamState
  pub their_stream : SubscriptionStreamState

pub data Request : Type 0 where
  value : List ℕ → Request
  cancelled error_payload_too_large : Request

pub data RequestResponseError : Type 0 where
  timed_out protocol_rejected closed_by_remote remote_payload_too_large : RequestResponseError
  multistream_protocol_error : RequestResponseError

pub data RequestResponse : Type 0 where
  value : List ℕ → RequestResponse
  cancelled : RequestResponse
  error : RequestResponseError → RequestResponse

pub data SubscriptionResponseError : Type 0 where
  protocol_rejected our_handshake_rejected their_handshake_rejected : SubscriptionResponseError
  remote_payload_too_large multistream_protocol_error : SubscriptionResponseError

pub data SubscriptionResponse : Type 0 where
  opened closed : SubscriptionResponse
  value : List ℕ → SubscriptionResponse
  error : SubscriptionResponseError → SubscriptionResponse

pub data Message : Type 0 where
  request : (id protocol_id : ℕ) → Request → Message
  response : (id protocol_id : ℕ) → RequestResponse → Message
  notification : (protocol_id : ℕ) → SubscriptionResponse → Message

-- The peer ids are in the handshake's result and are not used again.
pub record Connection (S : Streams) (Sleep : Type 0) : Type 0 where
  pub yamux : S.State
  pub subscription_details : List SubscriptionDetails
  pub request_details : List (RequestDetails Sleep)
  pub incoming_requests : Map ℕ
  pub inflight_requests : Map (ℕ × RequestState)
  pub next_buf : List Message
  pub finished : Bool

-- `iter_mut().find(..)`, and a change of what was found.
module _ {A : Type 0} (fits : A → Bool) where
  abbrev pub find : List A → Option A
  find [] = none
  find (x ∷ xs) = if fits x then some x else find xs

  abbrev pub modify : (A → A) → List A → List A
  modify f [] = []
  modify f (x ∷ xs) = if fits x then f x ∷ xs else x ∷ modify f xs

abbrev subscription_of : ℕ → Option SubscriptionProtocol → List SubscriptionDetails
subscription_of id none = []
subscription_of id (some p) =
    record { protocol_id = id; protocol = p; our_stream = not_open; their_stream = not_open } ∷ []

abbrev request_of : {Sleep : Type 0} → ℕ → Option RequestProtocol → List (RequestDetails Sleep)
request_of id none = []
request_of id (some p) =
    record {
      protocol_id = id;
      protocol = p;
      timeouts = Option.map (λ duration. Timers.new) p.timeout;
    }
    ∷ []

abbrev pub subscriptions : List (ℕ × AnyProtocol) → List SubscriptionDetails
subscriptions [] = []
subscriptions ((id, p) ∷ ps) = subscription_of id (as_subscription p) ++ subscriptions ps

abbrev pub requests : {Sleep : Type 0} → List (ℕ × AnyProtocol) → List (RequestDetails Sleep)
requests [] = []
requests ((id, p) ∷ ps) = request_of id (as_request p) ++ requests ps

-- The connection that `from_stream` returns once the streams are there.
abbrev pub new : (S : Streams) (Sleep : Type 0) → Configuration → S.State → Connection S Sleep
new S Sleep config streams = record {
  yamux = streams;
  subscription_details = subscriptions config.protocols;
  request_details = requests config.protocols;
  incoming_requests = [];
  inflight_requests = [];
  next_buf = [];
  finished = false;
}
