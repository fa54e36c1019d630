-- ===== src/Indy/Handlers.antt =====
-- What `create_handlers` leaves.
use decentralised_interledge.Prelude.{
  ℕ, Bool, true, false, none, some, Result, ok, err, ◌≡◌, ◌≢◌, arith, if◌then◌else◌,
}
use mathlib.Core.Option.{some-ne-none}
use decentralised_interledge.Prelude.Actions.{Action, continue, ◌>>=◌, ◌>>◌}
use decentralised_interledge.Indy.{
  Library, Handles, State, in_world, assign, again, create_pool, create_new_wallet, set_up,
  ready_after, create_handlers, is_indy_error,
}

-- What the handles are, if the call has returned.
abbrev Ends : {W A : Type 0} → (Handles → Type 0) → Result A × State W → Type 0
Ends P (ok a, s) = P s.handles
Ends P (err e, s) = Unit

abbrev HasPool : Handles → Type 0
HasPool h = h.pool_handle ≢ none

abbrev HasWallet : Handles → Type 0
HasWallet h = HasPool h × (h.wallet_handle ≢ none)

abbrev pub IsUsable : Handles → Type 0
IsUsable h = HasWallet h × (h.client_did ≢ none) × (h.client_verkey ≢ none)

abbrev Any : Handles → Type 0
Any h = Unit

module _ {W : Type 0} where
  continue-Ends :
      {A B : Type 0} (P Q : Handles → Type 0) (p : Result A × State W) (f : A → Action (State W) B)
      → Ends P p
      → ((a : A) (s : State W) → P s.handles → Ends Q (f a s))
      → Ends Q (continue p f)
  continue-Ends P Q (ok a, s) f e h = h a s e
  continue-Ends P Q (err e, s) f _ h = tt

  ended :
      {A : Type 0} (P : Handles → Type 0) (r : Result A) (s : State W) → P s.handles → Ends P (r, s)
  ended P (ok a) s h = h
  ended P (err e) s h = tt

  chosen :
      {A : Type 0} (P : Handles → Type 0) (b : Bool) (p q : Result A × State W)
      → Ends P p
      → Ends P q
      → Ends P (if b then p else q)
  chosen P true p q h g = h
  chosen P false p q h g = g

module _ {W : Type 0} (library : Library W) where
  in_world-Ends :
      {A : Type 0} (P : Handles → Type 0) (f : W → Result A × W) (s : State W)
      → P s.handles
      → Ends P (in_world library f s)
  in_world-Ends P f s h = ended P (f s.world).0 (record s { world = (f s.world).1 }) h

  again-Ends :
      (P : Handles → Type 0) (retry : Action (State W) (Unit {0})) (r : Result (Unit {0}))
      (s : State W)
      → P s.handles
      → Ends P (retry s)
      → Ends P (again library retry (r, s))
  again-Ends P retry (ok a) s e h = e
  again-Ends P retry (err x) s e h = chosen P (is_indy_error x) (retry s) (err x, s) h tt

  create_pool-Ends :
      (P : Handles → Type 0) (s : State W) → P s.handles → Ends P (create_pool library s)
  unfolding create_pool
  create_pool-Ends P s h = again-Ends P _ (library.create_pool_ledger_config s.world).0 _ h (
      continue-Ends P P (in_world library library.delete_pool_ledger_config _) _
        (in_world-Ends P library.delete_pool_ledger_config _ h)
        λ _ s' h'. in_world-Ends P library.create_pool_ledger_config s' h')

  create_new_wallet-Ends :
      (P : Handles → Type 0) (s : State W) → P s.handles → Ends P (create_new_wallet library s)
  unfolding create_new_wallet
  create_new_wallet-Ends P s h = again-Ends P _ (library.create_wallet s.world).0 _ h (
      continue-Ends P P (in_world library library.delete_wallet _) _
        (in_world-Ends P library.delete_wallet _ h)
        λ _ s' h'. in_world-Ends P library.create_wallet s' h')

  then-Ends :
      {A B : Type 0} (P Q : Handles → Type 0) (f : W → Result A × W) (s : State W)
      (k : A → Action (State W) B)
      → P s.handles
      → ((a : A) (s' : State W) → P s'.handles → Ends Q (k a s'))
      → Ends Q (continue (in_world library f s) k)
  then-Ends P Q f s k h = continue-Ends P Q (in_world library f s) k (in_world-Ends P f s h)

  with_did-Ends :
      (wallet : ℕ) (s : State W)
      → HasWallet s.handles
      → Ends IsUsable (
          (do
            (did, key) ← in_world library (library.create_and_store_my_did wallet)
            assign library (λ h. record h { client_did = some did; client_verkey = some key })
            assign library (λ h. record h { ready = true }))
            s)
  with_did-Ends wallet s h =
      then-Ends HasWallet IsUsable (library.create_and_store_my_did wallet) s _ h
        λ (did, key) s' h'. (h', some-ne-none did, some-ne-none key)

  set_up-Ends : (s : State W) → Ends IsUsable (set_up library s)
  unfolding set_up
  set_up-Ends s = then-Ends Any IsUsable library.set_protocol_version s _ tt λ _ s1 _.
      continue-Ends Any IsUsable (create_pool library s1) _ (create_pool-Ends Any s1 tt) λ _ s2 _.
        then-Ends Any IsUsable library.open_pool_ledger s2 _ tt λ pool s3 _.
          let opened = record s3 { handles = record s3.handles { pool_handle = some pool } } in
          continue-Ends HasPool IsUsable (create_new_wallet library opened) _
            (create_new_wallet-Ends HasPool opened (some-ne-none pool))
            λ _ s4 h4. then-Ends HasPool IsUsable library.open_wallet s4 _ h4 λ wallet s5 h5.
              with_did-Ends wallet
                (record s5 { handles = record s5.handles { wallet_handle = some wallet } })
                (h5, some-ne-none wallet)

  ready_after-IsUsable :
      (p : Result (Unit {0}) × State W)
      → Ends IsUsable p
      → (ready_after library p).0 ≡ ok true
      → IsUsable (ready_after library p).1.handles
  unfolding ready_after
  ready_after-IsUsable (ok _, s) h e = h
  ready_after-IsUsable (err x, s) h e = absurd (ground (arith, e))

  -- If `create_handlers` returns true, the object has all that a request needs: the handles of the
  -- pool and of the wallet, and the client's DID with its key.
  pub create_handlers_usable :
      (s : State W)
      → (create_handlers library s).0 ≡ ok true
      → IsUsable (create_handlers library s).1.handles
  unfolding create_handlers
  create_handlers_usable s e = ready_after-IsUsable (set_up library s) (set_up-Ends s) e
