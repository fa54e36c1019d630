-- ===== src/Node/Protocol.antt =====
-- The protocol that a node keeps: what it may ask of the ledgers, given what it has seen.
use decentralised_interledge.Prelude.{
  ℕ, Bool, true, Option, none, some, [], ◌∷◌, ok, ◌≡◌, ◌⊎◌, inl, inr,
}
use decentralised_interledge.Interfaces.{
  Transfer, Response, ErrorCode, Event, FoundCall, Confirmation, interledger_commit,
  interledger_abort, Ack, event_accepted, event_rejected, no_event, param, bytes,
}
use decentralised_interledge.Register.{Register}
use decentralised_interledge.Node.Calls.{
  Call, Reply, Coro, ret, raise, await, add, drop, registered, time, process_event, commit_sending,
  abort_sending, send_data, get_send_response, check_confirmation, get_interledger_receive_tx,
  check_response, get_interledger_commit_tx, get_interledger_abort_tx, initiator_report_error,
  responder_report_error,
}
use decentralised_interledge.Node.System.{Observation, answered, Log}

-- The observation stands in the log.
pub data Seen (o : Observation) : Log → Type 0 where
  here : {x : Observation} {log : Log} → x ≡ o → Seen o (x ∷ log)
  there : {x : Observation} {log : Log} → Seen o log → Seen o (x ∷ log)

-- The later log holds all that the earlier one does.
abbrev pub Extends : Log → Log → Type 0
Extends log log' = (o : Observation) → Seen o log → Seen o log'

-- The initiator has made this transfer of an event.
abbrev pub IsKnown : Log → Transfer → Type 0
IsKnown log t = (e : Event) × Seen (answered (process_event e) (ok t)) log

-- The responder has answered for the transfer: with success to a delivery, or to a query of the
-- receipt of one. `error` is the error code of the answer.
pub data IsAnswered (log : Log) (t : Transfer) (error : Option ErrorCode) : Type 0 where
  on_delivery :
      (r : Response)
      → r.status ≡ true
      → r.error_code ≡ error
      → Seen (answered (send_data t.id t.payload) (ok r)) log
      → IsAnswered log t error
  on_query :
      (r : Response) (tx_id : ℕ)
      → r.error_code ≡ error
      → Seen (answered (get_send_response tx_id t.id) (ok r)) log
      → IsAnswered log t error

-- The event that the responder's ledger holds for the transfer, and what the initiator's ledger was
-- found to hold by it: a commit for an acceptance, an abort for a rejection, nothing for no event.
abbrev pub IsLookedUp : Log → Transfer → Ack → Option FoundCall → Type 0
IsLookedUp log t event_accepted tx =
    Seen (answered (check_response t.id) (ok event_accepted)) log
    × Seen (answered (get_interledger_commit_tx t) (ok tx)) log
IsLookedUp log t event_rejected tx =
    Seen (answered (check_response t.id) (ok event_rejected)) log
    × Seen (answered (get_interledger_abort_tx t) (ok tx)) log
IsLookedUp log t no_event tx = Seen (answered (check_response t.id) (ok no_event)) log × (tx ≡ none)

-- The delivery, the event and its transaction have been looked at.
abbrev pub IsChecked : Log → Transfer → FoundCall → Ack → Option FoundCall → Confirmation → Type 0
IsChecked log t sent ack tx c =
    Seen (answered (get_interledger_receive_tx t) (ok (some sent))) log
    × IsLookedUp log t ack tx
    × Seen (answered (check_confirmation tx) (ok c)) log

-- An acceptance has been committed, or a rejection aborted.
abbrev pub IsSettled : Ack → Confirmation → Type 0
IsSettled event_accepted interledger_commit = Unit
IsSettled event_rejected interledger_abort = Unit
IsSettled _ _ = ⊥

-- The transfer's own data were delivered, and both ledgers agree on what came of it.
abbrev pub IsValid : Transfer → FoundCall → Ack → Confirmation → Type 0
IsValid t sent ack c = (param "data" sent.tx_params ≡ some (bytes t.payload)) × IsSettled ack c

-- Both ledgers have taken a report of the transfer, with one reason.
abbrev pub AreReported : Log → Transfer → Type 0
AreReported log t =
    (reason : ℕ) × Seen (answered (initiator_report_error t.initiator_id reason) (ok tt)) log
    × Seen (answered (responder_report_error t.id reason) (ok tt)) log

-- The transfer may leave: the initiator has answered its commit or its abort, with whatever status;
-- or it was checked, and was valid or has been reported.
pub data IsClosed (log : Log) (t : Transfer) : Type 0 where
  committed :
      (status : Bool)
      → Seen (answered (commit_sending t.initiator_id) (ok status)) log
      → IsClosed log t
  aborted :
      (status : Bool) (e : ErrorCode)
      → Seen (answered (abort_sending t.initiator_id e) (ok status)) log
      → IsClosed log t
  verified :
      (sent : FoundCall) (ack : Ack) (tx : Option FoundCall) (c : Confirmation)
      → IsChecked log t sent ack tx c
      → IsValid t sent ack c ⊎ AreReported log t
      → IsClosed log t

-- A delivery is of a known transfer's own data. A commit or an abort is of a known transfer that
-- the responder has answered for, without an error or with the very error.
abbrev pub IsAllowed : Log → Call → Type 0
IsAllowed log (send_data id payload) =
    (t : Transfer) × IsKnown log t × (t.id ≡ id) × (t.payload ≡ payload)
IsAllowed log (commit_sending i) =
    (t : Transfer) × IsKnown log t × (t.initiator_id ≡ i) × IsAnswered log t none
IsAllowed log (abort_sending i e) =
    (t : Transfer) × IsKnown log t × (t.initiator_id ≡ i) × IsAnswered log t (some e)
IsAllowed log _ = Unit

-- Each call in the log was allowed by what had been seen before it.
abbrev pub IsJustified : Log → Type 0
IsJustified [] = Unit
IsJustified (answered c r ∷ log) = IsAllowed log c × IsJustified log

-- Every registered transfer is known, and stands under its own id.
abbrev pub AreKnown : Log → Register → Type 0
AreKnown log [] = Unit
AreKnown log ((k, t) ∷ register) = (k ≡ t.id) × IsKnown log t × AreKnown log register

-- The transfer with this id may leave the register.
abbrev pub MayDrop : Log → ℕ → Type 0
MayDrop log id = (t : Transfer) × IsKnown log t × (t.id ≡ id) × IsClosed log t

-- A coroutine asks only for what is allowed, registers only what is known and drops only what is
-- closed, whatever the replies are and whatever other tasks have seen in between.
abbrev pub Obeys : {A : Type 0} → Log → Coro A → Type 0
Obeys log (ret a) = Unit
Obeys log (raise e) = Unit
Obeys log (await c k) =
    IsAllowed log c
    × ((log' : Log) → Extends log log' → (r : Reply c) → Obeys (answered c (ok r) ∷ log') (k r))
Obeys log (add t k) = IsKnown log t × Obeys log k
Obeys log (drop i k) = MayDrop log i × Obeys log k
Obeys log (registered k) =
    (log' : Log) → Extends log log' → (s : Register) → AreKnown log' s → Obeys log' (k s)
Obeys log (time k) = (n : ℕ) → Obeys log (k n)

-- What has been seen stays seen.
module _ (log log' : Log) (x : Extends log log') where
  pub IsKnown-Extends : (t : Transfer) → IsKnown log t → IsKnown log' t
  IsKnown-Extends t (e, s) = (e, x _ s)

  IsAnswered-Extends :
      (t : Transfer) (error : Option ErrorCode) → IsAnswered log t error → IsAnswered log' t error
  IsAnswered-Extends t error (on_delivery r st er s) = on_delivery r st er (x _ s)
  IsAnswered-Extends t error (on_query r tx er s) = on_query r tx er (x _ s)

  pub IsLookedUp-Extends :
      (t : Transfer) (ack : Ack) (tx : Option FoundCall)
      → IsLookedUp log t ack tx
      → IsLookedUp log' t ack tx
  IsLookedUp-Extends t event_accepted tx (c, f) = (x _ c, x _ f)
  IsLookedUp-Extends t event_rejected tx (c, f) = (x _ c, x _ f)
  IsLookedUp-Extends t no_event tx (c, e) = (x _ c, e)

  IsClosed-Extends : (t : Transfer) → IsClosed log t → IsClosed log' t
  IsClosed-Extends t (committed b s) = committed b (x _ s)
  IsClosed-Extends t (aborted b e s) = aborted b e (x _ s)
  IsClosed-Extends t (verified sent ack tx c (r, l, s) (inl valid)) =
      verified sent ack tx c (x _ r, IsLookedUp-Extends t ack tx l, x _ s) (inl valid)
  IsClosed-Extends t (verified sent ack tx c (r, l, s) (inr (reason, i, o))) =
      verified sent ack tx c (x _ r, IsLookedUp-Extends t ack tx l, x _ s)
        (inr (reason, x _ i, x _ o))

  pub MayDrop-Extends : (i : ℕ) → MayDrop log i → MayDrop log' i
  MayDrop-Extends i (t, known, e, c) = (t, IsKnown-Extends t known, e, IsClosed-Extends t c)

  pub IsAllowed-Extends : (c : Call) → IsAllowed log c → IsAllowed log' c
  IsAllowed-Extends (send_data id payload) (t, known, i, p) = (t, IsKnown-Extends t known, i, p)
  IsAllowed-Extends (commit_sending id) (t, known, i, a) =
      (t, IsKnown-Extends t known, i, IsAnswered-Extends t none a)
  IsAllowed-Extends (abort_sending id e) (t, known, i, a) =
      (t, IsKnown-Extends t known, i, IsAnswered-Extends t (some e) a)
  IsAllowed-Extends _ h = tt

  pub AreKnown-Extends : (s : Register) → AreKnown log s → AreKnown log' s
  AreKnown-Extends [] h = tt
  AreKnown-Extends ((k, t) ∷ s) (i, known, rest) =
      (i, IsKnown-Extends t known, AreKnown-Extends s rest)

  pub Obeys-Extends : {A : Type 0} (m : Coro A) → Obeys log m → Obeys log' m
  Obeys-Extends (ret a) h = tt
  Obeys-Extends (raise e) h = tt
  Obeys-Extends (await c k) (allowed, rest) =
      (IsAllowed-Extends c allowed, λ log'' y r. rest log'' (λ o s. y o (x o s)) r)
  Obeys-Extends (add t k) (known, rest) = (IsKnown-Extends t known, Obeys-Extends k rest)
  Obeys-Extends (drop i k) (may, rest) = (MayDrop-Extends i may, Obeys-Extends k rest)
  Obeys-Extends (registered k) rest = λ log'' y s known. rest log'' (λ o q. y o (x o q)) s known
  Obeys-Extends (time k) rest = λ n. Obeys-Extends (k n) (rest n)
