-- ===== src/Noise/Authentic.antt =====
-- layers/noise.rs: whom a handshake has been made with.
use polkadot_p2p_connect.Prelude.{
  ℕ, ◌≡◌, refl, sym, ap, subst, ◌∙◌, arith, true, bytes_eq, bytes_eq→eq, List, [], ◌++◌, Option,
  none, some,
}
use polkadot_p2p_connect.AsyncStream.{AsyncRead, AsyncWrite}
use polkadot_p2p_connect.Peers.{PeerId, Ed25519, from_ed25519_public_key}
use polkadot_p2p_connect.Noise.Payload.{NoiseHandshakePayload, encoded, to_protobuf, from_protobuf}
use polkadot_p2p_connect.Noise.Frames.{
  Transport, NoiseReadStream, NoiseWriteStream, send_frame, recv_frame,
}
use polkadot_p2p_connect.Noise.Handshake.{
  Snow, Error, Result, ok, err, panicked, ◌>>=◌, or_err, or_panic, sending, decoding,
  static_key_domain, check_expected, verified, identify, introduce, handshake_dialer,
}

-- The first of two calls whose chain succeeds.
bind-ok :
    {A B : Type 0} (r : Result A) (k : A → Result B) (b : B)
    → (r >>= k) ≡ ok b
    → (a : A) × (r ≡ ok a) × (k a ≡ ok b)
bind-ok (ok a) k b e = (a, refl, e)
bind-ok (err x) k b e = cc
bind-ok panicked k b e = cc

or_err-ok : {A : Type 0} (x : Error) (o : Option A) (a : A) → or_err x o ≡ ok a → o ≡ some a
or_err-ok x none a e = cc
or_err-ok x (some a') a e = ground arith

ok-pair :
    {A B : Type 0} (a a' : A) (b b' : B)
    → Path (Result (A × B)) (ok (a, b)) (ok (a', b'))
    → (a ≡ a') × (b ≡ b')
ok-pair a a' b b' e = ground arith

ok-triple :
    {A B C : Type 0} (a a' : A) (b b' : B) (c c' : C)
    → Path (Result (A × B × C)) (ok (a, b, c)) (ok (a', b', c'))
    → (a ≡ a') × (b ≡ b') × (c ≡ c')
ok-triple a a' b b' c c' e = ground arith

check_some :
    (q got p : PeerId)
    → check_expected (some q) got ≡ ok p
    → (got ≡ p) × (bytes_eq got.multihash q.multihash ≡ true)
unfolding check_expected
check_some q got p e = ground arith

check_expected-ok :
    (expected : Option PeerId) (got p : PeerId)
    → check_expected expected got ≡ ok p
    → (got ≡ p) × ((q : PeerId) → expected ≡ some q → q.multihash ≡ p.multihash)
unfolding check_expected
check_expected-ok none got p e = (ground arith, λ q is_q. cc)
check_expected-ok (some q) got p e =
    let (is_p, same) = check_some q got p e in
    let equal = bytes_eq→eq got.multihash q.multihash same in
    (
      is_p,
      λ q' is_q'.
          let q_is : q ≡ q' = ground arith in
          ap (λ (t : PeerId). t.multihash) (sym q_is)
          ∙ sym equal
          ∙ ap (λ (t : PeerId). t.multihash) is_p,
    )

module _ {T : Transport} (snow : Snow T) (crypto : Ed25519) where
  -- The remote has shown that it has the secret key of its peer id: its payload carries the public key
  -- and a signature of the static key with which the session is encrypted.
  pub record Proven (hs : snow.Handshake) (p : PeerId) : Type 0 where
    pub payload : NoiseHandshakePayload
    pub remote_static : List ℕ
    pub is_static : snow.get_remote_static hs ≡ some remote_static
    pub signed :
        crypto.verify payload.key (static_key_domain ++ remote_static) payload.signature ≡ true
    pub is_peer : from_ed25519_public_key payload.key ≡ some p

  verified-ok :
      (payload : NoiseHandshakePayload) (remote_static : List ℕ) (p : PeerId)
      → verified snow crypto payload remote_static ≡ ok p
      → (crypto.verify payload.key (static_key_domain ++ remote_static) payload.signature ≡ true)
        × (from_ed25519_public_key payload.key ≡ some p)
  unfolding verified
  verified-ok payload remote_static p e = ground arith

  abbrev pub Known : Option PeerId → snow.Handshake → PeerId → Type 0
  Known expected hs p = Proven hs p × ((q : PeerId) → expected ≡ some q → q.multihash ≡ p.multihash)

  finish :
      (expected : Option PeerId) (hs hs' : snow.Handshake) (payload : NoiseHandshakePayload)
      (remote_static : List ℕ) (remote remote_peer_id p : PeerId)
      → snow.get_remote_static hs ≡ some remote_static
      → verified snow crypto payload remote_static ≡ ok remote
      → check_expected expected remote ≡ ok remote_peer_id
      → Path (Result (snow.Handshake × PeerId)) (ok (hs, remote_peer_id)) (ok (hs', p))
      → Known expected hs' p
  finish expected hs hs' payload remote_static remote remote_peer_id p static checked as_expected
        e =
      let (same_hs, same_id) = ok-pair hs hs' remote_peer_id p e in
      let (same_remote, equal) = check_expected-ok expected remote remote_peer_id as_expected in
      let (signed, is_peer) = verified-ok payload remote_static remote checked in
      let proven : Proven hs remote_peer_id = record {
        payload = payload;
        remote_static = remote_static;
        is_static = static;
        signed = signed;
        is_peer = is_peer ∙ ap some same_remote;
      } in
      subst (λ t. Known expected t p) same_hs
        (subst (λ t. Known expected hs t) same_id (proven, equal))

  pub identify-Proven :
      (expected : Option PeerId) (msg : List ℕ) (hs hs' : snow.Handshake) (p : PeerId)
      → identify snow crypto expected msg hs ≡ ok (hs', p)
      → Known expected hs' p
  unfolding identify
  identify-Proven expected msg hs hs' p e =
      let ((plain, hs1), read, e1) =
        bind-ok (or_err Error.noise (snow.read_message msg hs)) _ (hs', p) e in
      let (payload, decoded, e2) = bind-ok (decoding (from_protobuf plain)) _ (hs', p) e1 in
      let (remote_static, static, e3) =
        bind-ok (or_err Error.remote_static_key_not_available (snow.get_remote_static hs1)) _
          (hs', p) e2 in
      let (remote, checked, e4) =
        bind-ok (verified snow crypto payload remote_static) _ (hs', p) e3 in
      let (remote_peer_id, as_expected, e5) =
        bind-ok (check_expected expected remote) _ (hs', p) e4 in
      finish expected hs1 hs' payload remote_static remote remote_peer_id p
        (or_err-ok Error.remote_static_key_not_available (snow.get_remote_static hs1) remote_static
          static)
        checked as_expected e5

  -- The transport state is made from the handshake's state `hs` and a last message of ours.
  abbrev pub Becomes : snow.Handshake → T.State → Type 0
  Becomes hs transport =
      (plain : List ℕ) × (msg : List ℕ) × (hs' : snow.Handshake) × (snow.write_message plain hs
        ≡ some (msg, hs'))
      × (snow.into_transport_mode hs' ≡ some transport)

  introduce-Becomes :
      (identity : crypto.SigningKey) (public buf_a msg : List ℕ) (hs hs' : snow.Handshake)
      (transport : T.State)
      → introduce snow crypto identity public buf_a hs ≡ ok (msg, hs')
      → snow.into_transport_mode hs' ≡ some transport
      → Becomes hs transport
  unfolding introduce
  introduce-Becomes identity public buf_a msg hs hs' transport e into =
      let (enc, _, e1) = bind-ok (or_panic (to_protobuf _ buf_a)) _ (msg, hs') e in
      (
        encoded enc,
        msg,
        hs',
        or_err-ok Error.noise (snow.write_message (encoded enc) hs) (msg, hs') e1,
        into,
      )

  module _ (from : AsyncRead) (to : AsyncWrite) where
    -- When the handshake succeeds with a peer id, then in the handshake from which both streams have
    -- their transport state the remote has a static key; the payload of the remote has a signature of
    -- that key that is valid under the public key whose peer id it is; and if a peer id was expected, it
    -- is that one.
    pub handshake_dialer-Proven :
        (identity : crypto.SigningKey) (expected : Option PeerId) (buf_a : List ℕ)
        (reader : from.Reader) (writer : to.Writer) (rs : NoiseReadStream T from.Reader)
        (ws : NoiseWriteStream T to.Writer) (p : PeerId)
        → handshake_dialer snow crypto from to identity expected buf_a reader writer
          ≡ ok (rs, ws, p)
        → (hs : snow.Handshake) × Becomes hs rs.transport
          × Becomes hs ws.transport
          × Known expected hs p
    unfolding handshake_dialer
    handshake_dialer-Proven identity expected buf_a reader writer rs ws p e =
        let ((public, hs), _, e1) = bind-ok (or_err Error.noise snow.initiator) _ (rs, ws, p) e in
        let ((first, hs1), _, e2) =
          bind-ok (or_err Error.noise (snow.write_message [] hs)) _ (rs, ws, p) e1 in
        let (w, _, e3) = bind-ok (sending (send_frame to first writer)) _ (rs, ws, p) e2 in
        let ((second, r), _, e4) =
          bind-ok (or_err Error.async_read (recv_frame from reader)) _ (rs, ws, p) e3 in
        let ((hs2, remote_peer_id), known, e5) =
          bind-ok (identify snow crypto expected second hs1) _ (rs, ws, p) e4 in
        let ((third, hs3), ours, e6) =
          bind-ok (introduce snow crypto identity public buf_a hs2) _ (rs, ws, p) e5 in
        let (w', _, e7) = bind-ok (sending (send_frame to third w)) _ (rs, ws, p) e6 in
        let (transport, into, e8) =
          bind-ok (or_err Error.noise (snow.into_transport_mode hs3)) _ (rs, ws, p) e7 in
        let (same_rs, same_ws, same_id) = ok-triple _ rs _ ws remote_peer_id p e8 in
        let becomes =
          introduce-Becomes identity public buf_a third hs2 hs3 transport ours
            (or_err-ok Error.noise (snow.into_transport_mode hs3) transport into) in
        (
          hs2,
          subst (λ t. Becomes hs2 t)
              (ap (λ (t : NoiseReadStream T from.Reader). t.transport) same_rs) becomes,
          subst (λ t. Becomes hs2 t)
              (ap (λ (t : NoiseWriteStream T to.Writer). t.transport) same_ws) becomes,
          subst (λ t. Known expected hs2 t) same_id
              (identify-Proven expected second hs1 hs2 remote_peer_id known),
        )
