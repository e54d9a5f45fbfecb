-- ===== src/Pool/Return.antt =====
-- What goes back to the resource pool.
use ozo.Prelude.{◌≡◌, refl, some, true, false, Bool}
use ozo.Connections.{
  ConnectionApi, ConnectionImpl, Object, unwrap_connection, connection_bad, connection_status_bad,
  get_native_handle,
}
use ozo.Pool.{Fate, wasted, recycled, returned, destroy}

module _ {N : Type 0} (api : ConnectionApi N) where
  -- A connection goes back exactly if its status is not bad.
  abbrev pub IsFateOf : ConnectionImpl N → Object N → Fate N → Type 0
  IsFateOf c o wasted = connection_status_bad api c.handle ≡ true
  IsFateOf c o (recycled content) =
      (content ≡ some o) × (connection_status_bad api c.handle ≡ false)

  returned-IsFateOf :
      (c : ConnectionImpl N) (o : Object N) (bad : Bool)
      → connection_status_bad api c.handle ≡ bad
      → IsFateOf c o (returned api o bad)
  unfolding returned
  returned-IsFateOf c o true h = h
  returned-IsFateOf c o false h = (refl, h)

  -- When the last pointer to a pooled connection, whose handle leads to a connection, is gone,
  -- whatever it has been used for, the connection is dropped if its handle is null or its status
  -- is bad, and goes back to the pool as it is if not.
  pub destroy-IsFateOf :
      (o : Object N) (c : ConnectionImpl N)
      → unwrap_connection o ≡ some c
      → (fate : Fate N) × (destroy api (some o) ≡ some fate) × IsFateOf c o fate
  unfolding destroy connection_bad get_native_handle unwrap_connection
  destroy-IsFateOf o c e =
      let bad = connection_status_bad api c.handle in
      (returned api o bad, rw e refl, returned-IsFateOf c o bad refl)
