-- ===== src/Daemon/Registry/Storage.antt =====
-- crates/pithos-daemon/src/store.rs: how a state is encoded, published to the file of the store and taken
-- into memory. The clock, the file system, the verification of an archive and serde_json are parameters.
pub mod Commit
pub mod Trimmed
use pithos.Prelude.{ℕ, Bool, true, false, not, Option, some, List, length, ltb}
use pithos.AgentApi.{RpcResult, ok, err, ◌>>◌, ◌>>=◌, bail_if, ok_or, resource_limit_error}
use pithos.Daemon.Registry.{StorePolicy, PersistentState, default_state, ArchiveIdentity, internal}
use pithos.Daemon.Registry.Events.{trim_retained_events}
use pithos.Daemon.Registry.Markers.{Presence}
use pithos.Daemon.Registry.Validation.{validate_state}

-- What `fs::File::open`, `metadata` and `read_to_end` give for the file of the store.
pub data StoreFile : Type 0 where
  missing cannot_open cannot_inspect : StoreFile
  of_length : ℕ → Option (List ℕ) → StoreFile

-- The world during one call: what each outside operation answers. `now` is the time at the begin of a
-- call, `stamp` the time at which the event of a job is made. The flags say which of the steps of
-- `publish_state` succeed.
pub record World : Type 0 where
  pub now : ℕ
  pub stamp : List ℕ → ℕ
  pub store_file : StoreFile
  pub from_slice : List ℕ → Option PersistentState
  pub to_vec : PersistentState → Option (List ℕ)
  pub create_dir_all : Bool
  pub new_temporary : Bool
  pub write_all : Bool
  pub flush_and_sync : Bool
  pub persist : Bool
  pub sync_directory : Bool
  pub symlink_metadata : List ℕ → Presence
  pub is_file : List ℕ → Bool
  pub verify : List ℕ → Option ArchiveIdentity

-- `JobRegistry`. The field `file` is what the file of the store holds.
pub record JobRegistry : Type 0 where
  pub state : PersistentState
  pub policy : StorePolicy
  pub closed : Bool
  pub healthy : Bool
  pub file : Option (List ℕ)

unfoldable pub load_state_with_policy : World → StorePolicy → StoreFile → RpcResult PersistentState
load_state_with_policy world policy missing = ok default_state
load_state_with_policy world policy cannot_open = err (internal "cannot open job store")
load_state_with_policy world policy cannot_inspect = err (internal "cannot inspect job store")
load_state_with_policy world policy (of_length length bytes) =
    bail_if (ltb policy.max_store_bytes length) (resource_limit_error "job store too large")
    >> (ok_or bytes (internal "cannot read job store") >>= λ read.
        ok_or (world.from_slice read) (internal "job store is corrupt"))

unfoldable pub encode_state : World → PersistentState → ℕ → RpcResult (List ℕ)
encode_state world state maximum =
    ok_or (world.to_vec state) (internal "cannot encode job store") >>= λ bytes.
    bail_if (ltb maximum (length bytes)) (resource_limit_error "job store size limit exceeded")
    >> ok bytes

-- The file is replaced by the last step, so it has changed exactly when this succeeds.
unfoldable pub publish_state : World → RpcResult (Unit {0})
publish_state world =
    bail_if (not world.create_dir_all) (internal "cannot create state directory")
    >> bail_if (not world.new_temporary) (internal "cannot create job store transaction")
    >> bail_if (not world.write_all) (internal "cannot write job store")
    >> bail_if (not world.flush_and_sync) (internal "cannot sync job store")
    >> bail_if (not world.persist) (internal "cannot commit job store")

-- `sync_parent`, on Unix.
unfoldable pub sync_parent : World → RpcResult (Unit {0})
sync_parent world = bail_if (not world.sync_directory) (internal "cannot sync state directory")

-- The steps of a commit until the file is replaced; the bytes that it holds then come back.
unfoldable pub publish_valid : World → StorePolicy → PersistentState → RpcResult (List ℕ)
publish_valid world policy state =
    validate_state state policy true
    >> (encode_state world state policy.max_store_bytes >>= λ bytes.
        publish_state world >> ok bytes)

unfoldable pub after_sync : JobRegistry → RpcResult (Unit {0}) → RpcResult (Unit {0}) × JobRegistry
after_sync registry (ok done) = (ok done, registry)
after_sync registry (err error) = (err error, record registry { healthy = false })

unfoldable pub after_publish :
    World → JobRegistry → PersistentState → RpcResult (List ℕ) → RpcResult (Unit {0}) × JobRegistry
after_publish world registry state (err error) = (err error, record registry { healthy = false })
after_publish world registry state (ok bytes) =
    after_sync (record registry { state = state; file = some bytes }) (sync_parent world)

unfoldable pub commit_with_sync :
    World → JobRegistry → PersistentState → RpcResult (Unit {0}) × JobRegistry
commit_with_sync world registry state =
    after_publish world registry state (publish_valid world registry.policy state)

unfoldable pub commit : World → JobRegistry → PersistentState → RpcResult (Unit {0}) × JobRegistry
commit world registry state =
    commit_with_sync world registry (trim_retained_events state registry.policy).0

-- `persist_state_with_policy`; the bytes are those that the file holds when the directory was synced.
unfoldable pub persist_state_with_policy :
    World → PersistentState → StorePolicy → RpcResult (List ℕ)
persist_state_with_policy world state policy =
    publish_valid world policy state >>= λ bytes. sync_parent world >> ok bytes
