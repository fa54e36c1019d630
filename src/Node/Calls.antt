-- ===== src/Node/Calls.antt =====
-- The adapter calls that the core awaits, the replies to them, and coroutines over them.
use decentralised_interledge.Prelude.{ℕ, Option, List, Bool, Exception}
use decentralised_interledge.Interfaces.{
  Transfer, Bytes, Response, ErrorCode, Event, FoundCall, Ack, Confirmation,
}
use decentralised_interledge.Register.{Register}

-- A call of the initiator or the responder; each has a `report_error`.
pub data Call : Type 0 where
  listen_for_events monitor_confirmations : Call
  process_event : Event → Call
  commit_sending : ℕ → Call
  abort_sending : ℕ → ErrorCode → Call
  get_interledger_commit_tx get_interledger_abort_tx : Transfer → Call
  check_confirmation : Option FoundCall → Call
  initiator_report_error responder_report_error : ℕ → ℕ → Call
  send_data : ℕ → Bytes → Call
  get_send_response : ℕ → ℕ → Call
  check_response : ℕ → Call
  get_interledger_receive_tx : Transfer → Call

-- What a call returns. Of the replies to a commit and to an abort this is their status, which the
-- core does not look at; an empty dict for a transaction is `none`.
abbrev pub Reply : Call → Type 0
Reply listen_for_events = List Event
Reply monitor_confirmations = List ℕ
Reply (process_event _) = Transfer
Reply (commit_sending _) = Bool
Reply (abort_sending _ _) = Bool
Reply (get_interledger_commit_tx _) = Option FoundCall
Reply (get_interledger_abort_tx _) = Option FoundCall
Reply (check_confirmation _) = Confirmation
Reply (initiator_report_error _ _) = Unit
Reply (responder_report_error _ _) = Unit
Reply (send_data _ _) = Response
Reply (get_send_response _ _) = Response
Reply (check_response _) = Ack
Reply (get_interledger_receive_tx _) = Option FoundCall

pub data Coro (A : Type 0) : Type 0 where
  ret : A → Coro A
  raise : Exception → Coro A
  await : (c : Call) → (Reply c → Coro A) → Coro A
  add : Transfer → Coro A → Coro A  -- `self.register_transfer(t)`
  drop : ℕ → Coro A → Coro A  -- `self.deregister_transfer(id)`
  registered : (Register → Coro A) → Coro A  -- a look at `self.transfer_register`
  time : (ℕ → Coro A) → Coro A  -- a reading of `time()`

infixl 5 ◌>>=◌ ◌>>◌
abbrev pub ◌>>=◌ : {A B : Type 0} → Coro A → (A → Coro B) → Coro B
ret a >>= f = f a
raise e >>= f = raise e
await c k >>= f = await c (λ r. k r >>= f)
add t k >>= f = add t (k >>= f)
drop i k >>= f = drop i (k >>= f)
registered k >>= f = registered (λ s. k s >>= f)
time k >>= f = time (λ n. k n >>= f)

abbrev pub ◌>>◌ : {A B : Type 0} → Coro A → Coro B → Coro B
m >> k = m >>= λ _. k

abbrev pub call : (c : Call) → Coro (Reply c)
call c = await c ret
