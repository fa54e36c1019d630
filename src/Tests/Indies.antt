-- ===== src/Tests/Indies.antt =====
-- An Indy library whose ledger gives one key.
use decentralised_interledge.Prelude.{
  Bool, true, false, [], ok, err, type_error, indy_error, ◌≡◌, refl,
}
use decentralised_interledge.Indy.{
  Library, State, new_handles, create_handlers, set_up, ready_after, create_pool, create_new_wallet,
  listen_for_events,
}
use decentralised_interledge.Indy.Handlers.{IsUsable, create_handlers_usable}
use decentralised_interledge.Indy.Listening.{key_change_lost}

-- The world says whether there is a pool of an earlier run.
abbrev library : Library Bool
library = record {
  set_protocol_version = λ old. (ok tt, old);
  create_pool_ledger_config = λ old. (elim old [ true ↦ err indy_error | false ↦ ok tt ], old);
  delete_pool_ledger_config = λ old. (ok tt, false);
  open_pool_ledger = λ old. (ok 1, old);
  create_wallet = λ old. (ok tt, old);
  delete_wallet = λ old. (ok tt, old);
  open_wallet = λ old. (ok 2, old);
  create_and_store_my_did = λ wallet old. (ok ("did", "key"), old);
  get_nym = λ did pool old. (ok "verkey", old);
}

abbrev fresh : State Bool
fresh = record { world = true; handles = new_handles }

ready : (create_handlers library fresh).0 ≡ ok true
unfolding create_handlers set_up ready_after create_pool create_new_wallet
ready = refl

create_handlers_usable_example : IsUsable (create_handlers library fresh).1.handles
create_handlers_usable_example = create_handlers_usable library fresh ready

abbrev set : State Bool
set = record { world = false; handles = record new_handles { ready = true } }

key_change_lost_example :
    ((listen_for_events library set).0 ≡ err type_error)
    × ((listen_for_events library (listen_for_events library set).1).0 ≡ ok [])
key_change_lost_example = key_change_lost library set "verkey" false false refl refl refl refl
