-- ===== src/Tests/Services.antt =====
-- A KSI service that stores every hash, and the seeds of an event.
use decentralised_interledge.Prelude.{true, none, [], ◌∷◌, ok, ◌≡◌, refl, arith}
use decentralised_interledge.Interfaces.{Event}
use decentralised_interledge.Ethereum.Events.{seed_of}
use decentralised_interledge.Ethereum.Events.Seed.{seed_of-inj}
use decentralised_interledge.Ksi.{
  Service, KsiResponder, KsiResponse, hasher, is_verified, is_stored, response_to, send_hash,
  send_data,
}
use decentralised_interledge.Ksi.Replies.{IsStored, send_data-IsStored}

abbrev service : Service
service = record {
  digest = λ _ payload. ok payload;
  b64encode = λ digest. digest;
  post = λ request. ok (record {
    status_code = 200;
    json = ok (record { data_hash = ok request; verification_status = ok "OK"; id = ok (9 ∷ []) });
  });
}

abbrev responder : KsiResponder
responder = record { hash_algorithm = "SHA-256" }

abbrev stored : KsiResponse
stored = record { status = true; error_code = none; tx_hash = 9 ∷ [] }

sent : send_data service responder (1 ∷ 2 ∷ []) ≡ ok stored
unfolding send_data hasher send_hash is_stored is_verified response_to
sent = refl

send_data-IsStored_example : IsStored service "SHA-256" (1 ∷ 2 ∷ []) (9 ∷ [])
send_data-IsStored_example = send_data-IsStored service responder (1 ∷ 2 ∷ []) stored sent refl

abbrev event : Event
event = record {
  event_block = 105;
  transaction_hash = 17 ∷ 254 ∷ [];
  log_index = 2;
  arg_id = 5;
  arg_data = [];
}

-- The same place in the chain, with other data.
abbrev other : Event
other = record event { arg_id = 6 }

same_seed : seed_of event ≡ seed_of other
unfolding seed_of
same_seed = refl

seed_of-inj_example :
    (event.event_block ≡ other.event_block)
    × (event.transaction_hash ≡ other.transaction_hash)
    × (event.log_index ≡ other.log_index)
seed_of-inj_example =
    seed_of-inj event other (omega arith, (omega arith, tt)) (omega arith, (omega arith, tt)) refl
      same_seed
