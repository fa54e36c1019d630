-- ===== src/Register.antt =====
-- src/interledger/interledger.py: the transfer register of a node, and the transfers in it that
-- have timed out.
pub mod Laws
use decentralised_interledge.Prelude.{
  ℕ, Bool, true, false, Option, none, some, List, [], ◌∷◌, ◌==◌, if◌then◌else◌, Result, ok, err,
  ◌>>=◌,
}
use decentralised_interledge.Prelude.Dict.{Dict, lookup, insert, erase, values}
use decentralised_interledge.Interfaces.{Transfer, NodeConfig}
use decentralised_interledge.Timeout.{is_timed_out, is_my_duty}

abbrev pub Register : Type 0
Register = Dict Transfer

unfoldable pub register_transfer : Transfer → Register → Register
register_transfer transfer register = insert transfer.id transfer register

-- The transfer that is dropped, if any, and the register that is left.
unfoldable pub deregister_transfer : ℕ → Register → Option Transfer × Register
deregister_transfer transfer_id register = (lookup transfer_id register, erase transfer_id register)

unfoldable pub first_with_initiator_id : ℕ → List Transfer → Option Transfer
first_with_initiator_id initiator_id [] = none
first_with_initiator_id initiator_id (transfer ∷ rest) =
    if transfer.initiator_id == initiator_id
    then some transfer
    else first_with_initiator_id initiator_id rest

unfoldable pub find_transfer_by_initiator_id : ℕ → Register → Option Transfer
unfolding first_with_initiator_id
find_transfer_by_initiator_id initiator_id register =
    first_with_initiator_id initiator_id (values register)

-- The condition of the comprehension, `and` included. Each call reads the clock for itself:
-- `clock t` holds the two readings.
unfoldable pub is_due : ℕ → NodeConfig → (Transfer → ℕ × ℕ) → Transfer → Result Bool
is_due depth config clock t = do
  timed_out ← is_timed_out depth config (clock t).0 t
  if timed_out then is_my_duty depth config (clock t).1 t else ok false

unfoldable pub due_among :
    ℕ → NodeConfig → (Transfer → ℕ × ℕ) → List Transfer → Result (List Transfer)
unfolding is_due
due_among depth config clock [] = ok []
due_among depth config clock (t ∷ ts) = do
  due ← is_due depth config clock t
  rest ← due_among depth config clock ts
  ok (if due then t ∷ rest else rest)

unfoldable pub get_timed_out_transfers :
    ℕ → NodeConfig → (Transfer → ℕ × ℕ) → Register → Result (List Transfer)
unfolding due_among
get_timed_out_transfers depth config clock register = due_among depth config clock (values register)
