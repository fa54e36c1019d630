-- ===== src/Ksi/Replies.antt =====
-- What the replies of the KSI responder mean.
use Prim.Native.String.{String}
use text.Mathlib.TextEquality.{eq_iff}
use decentralised_interledge.Prelude.{
  ℕ, Bool, true, false, none, some, List, ok, >>=_inv, Option-cases, Bool-cases, ◌≡◌, ◌≢◌, ap, ◌∙◌,
  inl, inr, arith,
}
use decentralised_interledge.Interfaces.{Bytes, bytes_eq_lem, unsupported_ksi_hash}
use decentralised_interledge.Ksi.{
  Algorithm, DataHash, KsiBody, KsiReply, Service, KsiResponder, KsiResponse, is_supported,
  new_responder, hasher, data_hash_eq, is_verified, is_stored, response_to, send_hash, send_data,
}

hasher-is_supported : (name : String) → is_supported name ≡ true → hasher name ≢ none
unfolding is_supported hasher
hasher-is_supported name h = ground arith

-- The reply of the service says that this hash of the payload is stored.
pub record IsStored (service : Service) (name : String) (payload : Bytes) (id : List ℕ)
    : Type 0 where
  pub algorithm : Algorithm
  pub digest : Bytes
  pub reply : KsiReply
  pub body : KsiBody
  pub hashed : service.digest algorithm payload ≡ ok digest
  pub posted :
      service.post (record { algorithm = name; value = service.b64encode digest }) ≡ ok reply
  pub accepted : reply.status_code ≡ 200
  pub read : reply.json ≡ ok body
  pub same_hash :
      body.data_hash ≡ ok (record { algorithm = name; value = service.b64encode digest })
  pub status_ok : body.verification_status ≡ ok "OK"
  pub id_eq : body.id ≡ ok id

data_hash_eq_lem : (a b : DataHash) → data_hash_eq a b ≡ true → a ≡ b
data_hash_eq_lem a b e =
    let algorithms = (eq_iff a.algorithm b.algorithm).0 (ground arith) in
    let values = bytes_eq_lem a.value b.value (ground arith) in
    λ i. record { algorithm = algorithms i; value = values i }

is_verified_inv :
    (request : DataHash) (body : KsiBody)
    → is_verified request body ≡ ok true
    → (body.data_hash ≡ ok request) × (body.verification_status ≡ ok "OK")
unfolding is_verified
is_verified_inv request body e =
    let (returned, testing, read) = >>=_inv body.data_hash _ e in
    elim (Bool-cases (data_hash_eq returned request)) [
      | inl same ↦
          let (status, tested, told) = >>=_inv body.verification_status _ (rw same at testing) in
          (
            read ∙ ap ok (data_hash_eq_lem returned request same),
            told ∙ ap ok ((eq_iff status "OK").0 (ground (arith, tested))),
          )
      | inr other ↦ absurd (ground (arith, other))
    ]

stored-body :
    (request : DataHash) (reply : KsiReply) (stored : Bool) (r : KsiResponse)
    → is_stored request reply ≡ ok stored
    → response_to reply stored ≡ ok r
    → r.status ≡ true
    → (body : KsiBody) × (reply.status_code ≡ 200)
      × (reply.json ≡ ok body)
      × (body.data_hash ≡ ok request)
      × (body.verification_status ≡ ok "OK")
      × (body.id ≡ ok r.tx_hash)
unfolding is_stored response_to
stored-body request reply false r s e t =
    let (body, failed, read) = >>=_inv reply.json _ e in absurd (ground arith)
stored-body request reply true r s e t =
    let (body, with_id, read) = >>=_inv reply.json _ e in
    let (id, done, named) = >>=_inv body.id _ with_id in
    let (same_hash, status_ok) = is_verified_inv request body (ground arith) in
    (body, ground arith, read, same_hash, status_ok, ground arith)

send_hash-IsStored :
    (service : Service) (name : String) (algorithm : Algorithm) (payload : Bytes) (r : KsiResponse)
    → send_hash service name algorithm payload ≡ ok r
    → r.status ≡ true
    → IsStored service name payload r.tx_hash
unfolding send_hash
send_hash-IsStored service name algorithm payload r e t =
    let (digest, posting, hashed) = >>=_inv (service.digest algorithm payload) _ e in
    let request : DataHash = record { algorithm = name; value = service.b64encode digest } in
    let (reply, testing, posted) = >>=_inv (service.post request) _ posting in
    let (stored, responding, tested) = >>=_inv (is_stored request reply) _ testing in
    let (body, code, read, same_hash, status_ok, id_eq) =
      stored-body request reply stored r tested responding t in
    record {
      algorithm = algorithm;
      digest = digest;
      reply = reply;
      body = body;
      hashed = hashed;
      posted = posted;
      accepted = code;
      read = read;
      same_hash = same_hash;
      status_ok = status_ok;
      id_eq = id_eq;
    }

-- A delivery to KSI is reported as done only if the service answered the hash of the payload with
-- code 200, with the very hash that was sent and the verification status OK; and the transaction
-- that is named is the id of that answer.
pub send_data-IsStored :
    (service : Service) (responder : KsiResponder) (payload : Bytes) (r : KsiResponse)
    → send_data service responder payload ≡ ok r
    → r.status ≡ true
    → IsStored service responder.hash_algorithm payload r.tx_hash
unfolding send_data
send_data-IsStored service responder payload r e t =
    elim (Option-cases (hasher responder.hash_algorithm)) [
      | inl missing ↦ absurd (ground arith)
      | inr (algorithm, found) ↦
          send_hash-IsStored service responder.hash_algorithm algorithm payload r (ground arith) t
    ]

response_to_error :
    (reply : KsiReply) (stored : Bool) (r : KsiResponse)
    → response_to reply stored ≡ ok r
    → r.error_code ≢ some unsupported_ksi_hash
unfolding response_to
response_to_error reply true r e =
    let (body, with_id, read) = >>=_inv reply.json _ e in
    let (id, done, named) = >>=_inv body.id _ with_id in ground arith
response_to_error reply false r e = let (body, done, read) = >>=_inv reply.json _ e in ground arith

send_hash_error :
    (service : Service) (name : String) (algorithm : Algorithm) (payload : Bytes) (r : KsiResponse)
    → send_hash service name algorithm payload ≡ ok r
    → r.error_code ≢ some unsupported_ksi_hash
unfolding send_hash
send_hash_error service name algorithm payload r e =
    let (digest, posting, hashed) = >>=_inv (service.digest algorithm payload) _ e in
    let request : DataHash = record { algorithm = name; value = service.b64encode digest } in
    let (reply, testing, posted) = >>=_inv (service.post request) _ posting in
    let (stored, responding, tested) = >>=_inv (is_stored request reply) _ testing in
    response_to_error reply stored r responding

made_supported :
    (name : String) (responder : KsiResponder)
    → new_responder name ≡ ok responder
    → is_supported responder.hash_algorithm ≡ true
unfolding new_responder
made_supported name responder made = ground arith

-- A responder that `__init__` made never reports an unsupported hash: the names that `__init__`
-- lets pass are those for which `send_data` has a hash function.
pub new_responder_supported :
    (service : Service) (name : String) (responder : KsiResponder) (payload : Bytes)
    (r : KsiResponse)
    → new_responder name ≡ ok responder
    → send_data service responder payload ≡ ok r
    → r.error_code ≢ some unsupported_ksi_hash
unfolding send_data
new_responder_supported service name responder payload r made e =
    elim (Option-cases (hasher responder.hash_algorithm)) [
      | inl missing ↦ absurd (
          hasher-is_supported responder.hash_algorithm (made_supported name responder made) missing)
      | inr (algorithm, found) ↦
          send_hash_error service responder.hash_algorithm algorithm payload r (ground arith)
    ]
