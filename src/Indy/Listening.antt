-- ===== src/Indy/Listening.antt =====
-- What comes of listening.
use Prim.Native.String.{String}
use text.Mathlib.TextEquality.{eq_iff}
use decentralised_interledge.Prelude.{
  true, false, some, [], ◌∷◌, ok, err, type_error, ◌≡◌, refl, arith, ap, ◌∙◌,
}
use decentralised_interledge.Indy.{
  Library, State, note_key, is_same_key, buffer_data, listen_for_events,
}

module _ {W : Type 0} (library : Library W) (s : State W) where
  -- An object that is not ready asks nothing: the test raises a `TypeError`.
  pub listen_unready : s.handles.ready ≡ false → listen_for_events library s ≡ (err type_error, s)
  unfolding listen_for_events
  listen_unready e = ground (arith, e)

  listen_for_events_key :
      (key : String) (w : W)
      → s.handles.ready ≡ true
      → library.get_nym s.handles.client_did s.handles.pool_handle s.world ≡ (ok key, w)
      → listen_for_events library s ≡ (
        buffer_data (note_key key s.handles).entries,
        record { world = w; handles = note_key key s.handles },
      )
  unfolding listen_for_events
  listen_for_events_key key w ready e = ground (arith, ready, e)

module _ {W : Type 0} (library : Library W) (s : State W) (key : String) where
  listen_changed :
      (w : W)
      → s.handles.ready ≡ true
      → is_same_key key s.handles.verkey ≡ false
      → library.get_nym s.handles.client_did s.handles.pool_handle s.world ≡ (ok key, w)
      → listen_for_events library s ≡ (
        err type_error,
        record { world = w; handles = record s.handles { verkey = some key; entries = key ∷ [] } },
      )
  unfolding buffer_data
  listen_changed w ready changed e =
      ground (arith, listen_for_events_key library s key w ready e, changed)

  listen_unchanged :
      (w : W)
      → s.handles.ready ≡ true
      → is_same_key key s.handles.verkey ≡ true
      → library.get_nym s.handles.client_did s.handles.pool_handle s.world ≡ (ok key, w)
      → (listen_for_events library s).0 ≡ ok []
  unfolding buffer_data
  listen_unchanged w ready same e =
      ground (arith, listen_for_events_key library s key w ready e, same)

module _ {W : Type 0} (library : Library W) (s : State W) where
  -- A change of the key is lost. Where a ready object finds a key that is not the one it keeps, the
  -- call raises a `TypeError`, but the key is kept already: the next call, if it finds the same
  -- key, returns no transfer.
  pub key_change_lost :
      (key : String) (w1 w2 : W)
      → s.handles.ready ≡ true
      → is_same_key key s.handles.verkey ≡ false
      → library.get_nym s.handles.client_did s.handles.pool_handle s.world ≡ (ok key, w1)
      → library.get_nym s.handles.client_did s.handles.pool_handle w1 ≡ (ok key, w2)
      → ((listen_for_events library s).0 ≡ err type_error)
        × ((listen_for_events library (listen_for_events library s).1).0 ≡ ok [])
  key_change_lost key w1 w2 ready changed e1 e2 =
      let heard = listen_changed library s key w1 ready changed e1 in
      let later : State W = record {
        world = w1;
        handles = record s.handles { verkey = some key; entries = key ∷ [] };
      } in
      (
        ap (λ p. p.0) heard,
        ap (λ p. (listen_for_events library p.1).0) heard
            ∙ listen_unchanged library later key w2 ready ((eq_iff key key).1 refl) e2,
      )
