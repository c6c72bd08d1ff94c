-- ===== src/Connection/Lookup.antt =====
-- connection.rs: a subscription that was found by a test is the one of its protocol id.
use polkadot_p2p_connect.Prelude.{
  ◌≡◌, refl, arith, inl, inr, Bool, true, false, Bool-cases, ==_refl, ◌==◌, List, [], ◌∷◌, some,
  All,
}
use polkadot_p2p_connect.Connection.{SubscriptionDetails, find, modify}
use polkadot_p2p_connect.Connection.Calls.{subscription_fits}

abbrev pub Others : SubscriptionDetails → List SubscriptionDetails → Type 0
Others p ps = All (λ q. (p.protocol_id == q.protocol_id) ≡ false) ps

-- No two subscriptions have the same protocol id.
abbrev pub Unique : List SubscriptionDetails → Type 0
Unique [] = Unit
Unique (p ∷ ps) = Others p ps × Unique ps

module _ (fits : SubscriptionDetails → Bool) where
  find-head :
      (x p : SubscriptionDetails) (ps : List SubscriptionDetails)
      → fits x ≡ true
      → find fits (x ∷ ps) ≡ some p
      → x ≡ p
  find-head x p ps found e = ground arith

  find-tail :
      (x p : SubscriptionDetails) (ps : List SubscriptionDetails)
      → fits x ≡ false
      → find fits (x ∷ ps) ≡ some p
      → find fits ps ≡ some p
  find-tail x p ps missed e = ground arith

  Others-find :
      (q p : SubscriptionDetails) (ps : List SubscriptionDetails)
      → Others q ps
      → find fits ps ≡ some p
      → (q.protocol_id == p.protocol_id) ≡ false
  Others-find q p [] o e = cc
  Others-find q p (x ∷ ps) o e = elim (Bool-cases (fits x)) [
    | inl found ↦ rw (← find-head x p ps found e) o.0
    | inr missed ↦ Others-find q p ps o.1 (find-tail x p ps missed e)
  ]

  -- The subscription that was found is still the one of its id after a change that keeps its id.
  pub find-modify :
      (f : SubscriptionDetails → SubscriptionDetails) (p : SubscriptionDetails)
      (ps : List SubscriptionDetails)
      → ((q : SubscriptionDetails) → (f q).protocol_id ≡ q.protocol_id)
      → Unique ps
      → find fits ps ≡ some p
      → find (subscription_fits p.protocol_id) (modify fits f ps) ≡ some (f p)
  find-modify f p [] keeps u e = cc
  find-modify f p (x ∷ ps) keeps u e = elim (Bool-cases (fits x)) [
    | inl found ↦
        rw (found) (rw (← find-head x p ps found e) (rw (keeps x, ==_refl x.protocol_id) refl))
    | inr missed ↦
        let later = find-tail x p ps missed e in
        rw (missed) (rw (Others-find x p ps u.0 later) (find-modify f p ps keeps u.1 later))
  ]

  pub find-Unique :
      (p : SubscriptionDetails) (ps : List SubscriptionDetails)
      → Unique ps
      → find fits ps ≡ some p
      → find (subscription_fits p.protocol_id) ps ≡ some p
  find-Unique p [] u e = cc
  find-Unique p (x ∷ ps) u e = elim (Bool-cases (fits x)) [
    | inl found ↦ rw (← find-head x p ps found e) (rw (==_refl x.protocol_id) refl)
    | inr missed ↦
        let later = find-tail x p ps missed e in
        rw (Others-find x p ps u.0 later) (find-Unique p ps u.1 later)
  ]

  find_fits :
      (p : SubscriptionDetails) (ps : List SubscriptionDetails)
      → find fits ps ≡ some p
      → fits p ≡ true
  find_fits p [] e = cc
  find_fits p (x ∷ ps) e = elim (Bool-cases (fits x)) [
    | inl found ↦ rw (← find-head x p ps found e) found
    | inr missed ↦ find_fits p ps (find-tail x p ps missed e)
  ]
