-- ===== src/Streams.antt =====
-- What a connection uses of the multistreams under it, over an unknown state.
pub mod Multiplexed
use polkadot_p2p_connect.Prelude.{ℕ, ◌≤◌, ◌<◌, ◌≡◌, List}
use polkadot_p2p_connect.Multistreams.{Result, ok}
use polkadot_p2p_connect.Multistreams.Next.{Round}

-- `next` is as long a run of the loop of the multistreams as there is; `again` is that it goes on.
pub record Streams : Type 1 where
  pub State : Type 0
  pub open_stream : List (List ℕ) → ℕ → State → State × Result ℕ
  pub send_data : ℕ → List ℕ → State → State × Result (Unit {0})
  pub accept_protocol : ℕ → ℕ → State → State × Result (Unit {0})
  pub reject_protocol : ℕ → State → State × Result (Unit {0})
  pub close_stream : ℕ → State → State
  pub reset_stream_immediately : ℕ → State → State
  pub next : State → State × Round

-- Streams that we open get fresh ids: `next_id` is above all of them and never goes back.
pub record IsFresh (S : Streams) : Type 0 where
  pub next_id : S.State → ℕ
  pub open_stream-fresh :
      (names : List (List ℕ)) (size id : ℕ) (s : S.State)
      → (S.open_stream names size s).1 ≡ ok id
      → (next_id s ≤ id) × (id < next_id (S.open_stream names size s).0)
  pub open_stream-mono :
      (names : List (List ℕ)) (size : ℕ) (s : S.State)
      → next_id s ≤ next_id (S.open_stream names size s).0
  pub send_data-mono :
      (id : ℕ) (bytes : List ℕ) (s : S.State) → next_id s ≤ next_id (S.send_data id bytes s).0
  pub accept_protocol-mono :
      (id size : ℕ) (s : S.State) → next_id s ≤ next_id (S.accept_protocol id size s).0
  pub reject_protocol-mono : (id : ℕ) (s : S.State) → next_id s ≤ next_id (S.reject_protocol id s).0
  pub close_stream-mono : (id : ℕ) (s : S.State) → next_id s ≤ next_id (S.close_stream id s)
  pub reset_stream_immediately-mono :
      (id : ℕ) (s : S.State) → next_id s ≤ next_id (S.reset_stream_immediately id s)
  pub next-mono : (s : S.State) → next_id s ≤ next_id (S.next s).0
