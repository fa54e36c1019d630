-- ===== src/Node/Behaviour.antt =====
-- What `execute_transfer` does.
use decentralised_interledge.Prelude.{
  ℕ, true, false, ◌&&◌, Option, none, some, Result, ok, ◌≡◌, arith, ◌∙◌,
}
use decentralised_interledge.Prelude.Dict.{erase}
use decentralised_interledge.Interfaces.{Transfer, NodeConfig, Response, ErrorCode}
use decentralised_interledge.Node.Calls.{Call, Reply, ret, send_data}
use decentralised_interledge.Node.Tasks.{confirm_transfer, execute_transfer}
use decentralised_interledge.Node.System.{System, run}
use decentralised_interledge.Node.Running.{steady, run_then, run_ret, run-drop, noted, closing}

module _ (reply : (c : Call) → Result (Reply c)) (now : ℕ) (t : Transfer) where
  -- A delivery that is answered with a false status, as a rejection is, is neither committed nor
  -- aborted by `execute_transfer`: it makes the one call and leaves the register alone.
  pub execute_transfer_rejected :
      (config : NodeConfig) (r : Response) (s : System (Unit {0}))
      → reply (send_data t.id t.payload) ≡ ok r
      → r.status ≡ false
      → run (steady reply now) (execute_transfer config t) s
        ≡ (ok tt, record s { log = noted (send_data t.id t.payload) r s.log })
  unfolding execute_transfer
  execute_transfer_rejected config r s e st =
      run_then reply now _ _ e (rw off (run_ret reply now tt _))
    where
      off : (config.confirm_transfer && r.status) ≡ false
      off = ground arith

  confirm_transfer_drops :
      (error : Option ErrorCode) (s : System (Unit {0})) (x : Reply (closing t error))
      → reply (closing t error) ≡ ok x
      → run (steady reply now) (confirm_transfer t error) s ≡ (
        ok tt,
        record s { register = erase t.id s.register; log = noted (closing t error) x s.log },
      )
  unfolding confirm_transfer
  confirm_transfer_drops none s x e =
      run_then reply now _ _ e (run-drop reply now t.id (ret tt) _ ∙ run_ret reply now tt _)
  confirm_transfer_drops (some c) s x e =
      run_then reply now _ _ e (run-drop reply now t.id (ret tt) _ ∙ run_ret reply now tt _)

  -- A delivery that is answered with success is confirmed by the node that made it: committed, or
  -- aborted with the error code of the answer, and the transfer leaves the register, whatever
  -- status the commit or the abort returns.
  pub execute_transfer_accepted :
      (config : NodeConfig) (r : Response) (s : System (Unit {0}))
      (x : Reply (closing t r.error_code))
      → config.confirm_transfer ≡ true
      → reply (send_data t.id t.payload) ≡ ok r
      → r.status ≡ true
      → reply (closing t r.error_code) ≡ ok x
      → run (steady reply now) (execute_transfer config t) s ≡ (
        ok tt,
        record s {
          register = erase t.id s.register;
          log = noted (closing t r.error_code) x (noted (send_data t.id t.payload) r s.log);
        },
      )
  unfolding execute_transfer
  execute_transfer_accepted config r s x on e st done =
      run_then reply now _ _ e (rw both (confirm_transfer_drops r.error_code _ x done))
    where
      both : (config.confirm_transfer && r.status) ≡ true
      both = ground arith
