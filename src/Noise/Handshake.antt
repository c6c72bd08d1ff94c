-- ===== src/Noise/Handshake.antt =====
-- layers/noise.rs: `handshake_dialer`, over what `snow` and `ed25519_dalek` give. The two directions of
-- snow's transport state have counters of their own, so each stream is given a state. A failure carries
-- no reader and no writer: the caller drops them.
use polkadot_p2p_connect.Prelude.{ℕ, if◌then◌else◌, bytes_eq, List, [], ◌++◌, Option, none, some}
use polkadot_p2p_connect.AsyncStream.{AsyncRead, AsyncWrite}
use polkadot_p2p_connect.Multistreams.{codes}
use polkadot_p2p_connect.Peers.{PeerId, Ed25519, from_ed25519_public_key}
use polkadot_p2p_connect.Noise.Payload.{
  NoiseHandshakePayload, PayloadError, encoded, to_protobuf, from_protobuf,
}
use polkadot_p2p_connect.Noise.Payload
use polkadot_p2p_connect.Noise.Frames.{
  Transport, Sent, sent, write_failed, NoiseReadStream, NoiseWriteStream, send_frame, recv_frame,
}
use polkadot_p2p_connect.Noise.Frames

-- `STATIC_KEY_DOMAIN`
abbrev pub static_key_domain : List ℕ
static_key_domain = codes "noise-libp2p-static-key:"

-- An initiator comes with the public key of its fresh key pair; `none` is an error of the package.
pub record Snow (T : Transport) : Type 1 where
  pub Handshake : Type 0
  pub initiator : Option (List ℕ × Handshake)
  pub write_message : List ℕ → Handshake → Option (List ℕ × Handshake)
  pub read_message : List ℕ → Handshake → Option (List ℕ × Handshake)
  pub get_remote_static : Handshake → Option (List ℕ)
  pub into_transport_mode : Handshake → Option T.State

pub data Error : Type 0 where
  async_read async_write noise : Error
  from_protobuf_error : PayloadError → Error
  remote_static_key_not_available invalid_identity_signature_from_remote : Error
  remote_peer_id_mismatch : (expected got : PeerId) → Error

pub data Result {ℓ} (A : Type ℓ) : Type ℓ where
  ok : A → Result A
  err : Error → Result A
  panicked : Result A

infixl 5 ◌>>=◌
abbrev pub ◌>>=◌ {ℓ κ} : {A : Type ℓ} {B : Type κ} → Result A → (A → Result B) → Result B
ok a >>= next = next a
err e >>= next = err e
panicked >>= next = panicked

-- `none` as the error `e`.
abbrev pub or_err {ℓ} : {A : Type ℓ} → Error → Option A → Result A
or_err e none = err e
or_err e (some a) = ok a

abbrev pub or_panic {ℓ} : {A : Type ℓ} → Option A → Result A
or_panic none = panicked
or_panic (some a) = ok a

abbrev pub sending {ℓ} : {W : Type ℓ} → Sent W → Result W
sending (sent w) = ok w
sending write_failed = err async_write
sending Frames.panicked = panicked

abbrev pub decoding {ℓ} : {A : Type ℓ} → Payload.Result A → Result A
decoding (Payload.ok a) = ok a
decoding (Payload.err e) = err (from_protobuf_error e)

unfoldable pub check_expected : Option PeerId → PeerId → Result PeerId
check_expected none got = ok got
check_expected (some expected) got =
    if bytes_eq got.multihash expected.multihash
    then ok got
    else err (remote_peer_id_mismatch expected got)

module _ {T : Transport} (snow : Snow T) (crypto : Ed25519) where
  -- The identity that a payload proves for the static key of the remote.
  unfoldable pub verified : NoiseHandshakePayload → List ℕ → Result PeerId
  verified payload remote_static =
      if crypto.verify payload.key (static_key_domain ++ remote_static) payload.signature
      then or_panic (from_ed25519_public_key payload.key)
      else err invalid_identity_signature_from_remote

  -- The second message.
  unfoldable pub identify :
      Option PeerId → List ℕ → snow.Handshake → Result (snow.Handshake × PeerId)
  unfolding verified check_expected
  identify expected msg hs = do
    (plain, hs') ← or_err noise (snow.read_message msg hs)
    payload ← decoding (from_protobuf plain)
    remote_static ← or_err remote_static_key_not_available (snow.get_remote_static hs')
    remote ← verified payload remote_static
    remote_peer_id ← check_expected expected remote
    ok (hs', remote_peer_id)

  -- Our payload, encoded into a buffer with the content `buf_a`.
  unfoldable pub introduce :
      crypto.SigningKey → List ℕ → List ℕ → snow.Handshake → Result (List ℕ × snow.Handshake)
  introduce identity public buf_a hs = do
    e ← or_panic (
        to_protobuf
          (record {
            key = crypto.public_key_bytes identity;
            signature = crypto.sign identity (static_key_domain ++ public);
          })
          buf_a)
    or_err noise (snow.write_message (encoded e) hs)

  module _ (from : AsyncRead) (to : AsyncWrite) where
    unfoldable pub handshake_dialer :
        crypto.SigningKey
        → Option PeerId
        → List ℕ
        → from.Reader
        → to.Writer
        → Result (NoiseReadStream T from.Reader × NoiseWriteStream T to.Writer × PeerId)
    unfolding identify introduce
    handshake_dialer identity expected buf_a reader writer = do
      (public, hs) ← or_err noise snow.initiator
      (first, hs1) ← or_err noise (snow.write_message [] hs)
      w ← sending (send_frame to first writer)
      (second, r) ← or_err async_read (recv_frame from reader)
      (hs2, remote_peer_id) ← identify expected second hs1
      (third, hs3) ← introduce identity public buf_a hs2
      w' ← sending (send_frame to third w)
      transport ← or_err noise (snow.into_transport_mode hs3)
      ok (
        record { reader = r; read_buf = []; transport = transport },
        record { writer = w'; transport = transport },
        remote_peer_id,
      )
