-- ===== src/Ethereum/Bridge/Deliveries.antt =====
-- What a delivery between two Ethereum ledgers does on both of them.
use decentralised_interledge.Prelude.{true, none, ◌∷◌, ok, ◌≡◌, arith, ap}
use decentralised_interledge.Prelude.Dict.{erase}
use decentralised_interledge.Interfaces.{Transfer, NodeConfig, Response}
use decentralised_interledge.Register.{deregister_transfer}
use decentralised_interledge.Ethereum.Delivery
use decentralised_interledge.Ethereum.Delivery.Status.{send_data-IsConsistent}
use decentralised_interledge.Ethereum.Sending
use decentralised_interledge.Ethereum.Bridge.{Ledgers, Adapters, answer, environment, reply_status}
use decentralised_interledge.Node.Calls.{commit_sending, send_data}
use decentralised_interledge.Node.Tasks.{execute_transfer, confirm_transfer}
use decentralised_interledge.Node.System.{System, answered, run}

module _ {W : Type 0} (ledgers : Ledgers W) (config : NodeConfig) (t : Transfer)
    (s : System (Adapters W)) where
  open ledgers use {initiator, responder}

  -- Between two Ethereum ledgers, where `send_data` of the responder returns a true status and
  -- `commit_sending` of the initiator then returns, a node that confirms its transfers makes these
  -- two calls and no other: the initiator's ledger is left as the commit leaves it, never as an
  -- abort would, and the transfer leaves the register, also if the reply says that the commit
  -- failed.
  pub execute_transfer_commits :
      (r : Response) (reply : Sending.Reply) (w1 w2 : W)
      → config.confirm_transfer ≡ true
      → Delivery.send_data responder.api responder.credentials t.id t.payload s.world.world
        ≡ (ok r, w1)
      → r.status ≡ true
      → Sending.commit_sending initiator.api initiator.credentials t.initiator_id none w1
        ≡ (ok reply, w2)
      → run (environment ledgers) (execute_transfer config t) s ≡ (
        ok tt,
        record {
          register = erase t.id s.register;
          world = record s.world { world = w2 };
          log =
              answered (commit_sending t.initiator_id) (ok (reply_status reply))
              ∷ answered (send_data t.id t.payload) (ok r)
              ∷ s.log;
        },
      )
  unfolding run execute_transfer confirm_transfer environment answer deregister_transfer
  execute_transfer_commits r reply w1 w2 on e1 st e2 =
      let no_error =
        (send_data-IsConsistent responder.api responder.credentials t.id t.payload s.world.world r
            (ap (λ p. p.0) e1)).0
          st in
      ground (arith, e1, on, st, no_error, e2)
