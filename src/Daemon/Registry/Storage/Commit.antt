-- ===== src/Daemon/Registry/Storage/Commit.antt =====
-- What a commit leaves in memory and in the file of the store.
use pithos.Prelude.{subst, ◌≡◌, refl, ◌≤◌, ℕ, true, false, some, List, length, ltb, arith}
use pithos.AgentApi.{
  JsonRpcError, RpcResult, ok, err, bail_if, bind-inv, ok_or, ok_or-some, ok-injective,
  resource_limit_error,
}
use pithos.AgentApi.Requests.Measured.{ok-within}
use pithos.Daemon.Registry.{StorePolicy, PersistentState, internal}
use pithos.Daemon.Registry.Events.{trim_retained_events}
use pithos.Daemon.Registry.Validation.{validate_state}
use pithos.Daemon.Registry.Validation.States.{
  IsStore, validate_state-IsStore, IsStore-validate_state,
}
use pithos.Daemon.Registry.Storage.{
  World, JobRegistry, encode_state, publish_state, sync_parent, publish_valid, after_sync,
  after_publish, commit_with_sync, commit,
}

unfoldable pub trimmed : JobRegistry → PersistentState → PersistentState
trimmed registry state = (trim_retained_events state registry.policy).0

-- Nothing has changed but the health of the registry.
pub record IsKept (before after : JobRegistry) : Type 0 where
  pub state : after.state ≡ before.state
  pub file : after.file ≡ before.file
  pub policy : after.policy ≡ before.policy
  pub closed : after.closed ≡ before.closed

-- A consistent state is in memory, and the file holds its encoding, which is not too long.
pub record IsReplaced (world : World) (new : PersistentState) (before after : JobRegistry)
    : Type 0 where
  pub bytes : List ℕ
  pub state : after.state ≡ new
  pub file : after.file ≡ some bytes
  pub encoded : world.to_vec new ≡ some bytes
  pub short : length bytes ≤ before.policy.max_store_bytes
  pub consistent : IsStore before.policy true new
  pub policy : after.policy ≡ before.policy
  pub closed : after.closed ≡ before.closed

abbrev IsEncoded : World → PersistentState → ℕ → List ℕ → Type 0
IsEncoded world state maximum bytes = (world.to_vec state ≡ some bytes) × (length bytes ≤ maximum)

encode_state-ok :
    (world : World) (state : PersistentState) (maximum : ℕ) {bytes : List ℕ}
    → encode_state world state maximum ≡ ok bytes
    → IsEncoded world state maximum bytes
unfolding encode_state
encode_state-ok world state maximum q =
    let (read, e, q1) =
      bind-inv (ok_or (world.to_vec state) (internal "cannot encode job store")) _ q in
    let (u, short, q2) =
      bind-inv
        (bail_if (ltb maximum (length read)) (resource_limit_error "job store size limit exceeded"))
        _ q1 in
    subst (IsEncoded world state maximum) (ok-injective q2)
      (ok_or-some (world.to_vec state) _ e, ok-within maximum (length read) _ short)

pub publish_valid-ok :
    (world : World) (policy : StorePolicy) (state : PersistentState) {bytes : List ℕ}
    → publish_valid world policy state ≡ ok bytes
    → IsStore policy true state × IsEncoded world state policy.max_store_bytes bytes
unfolding publish_valid
publish_valid-ok world policy state q =
    let (u, valid, q1) = bind-inv (validate_state state policy true) _ q in
    let (read, e, q2) = bind-inv (encode_state world state policy.max_store_bytes) _ q1 in
    let (v, published, q3) = bind-inv (publish_state world) _ q2 in
    (
      validate_state-IsStore state policy true valid,
      subst (IsEncoded world state policy.max_store_bytes) (ok-injective q3)
          (encode_state-ok world state policy.max_store_bytes e),
    )

-- How a commit ends: with the new state in memory and in the file, or with neither; the registry stays healthy
-- exactly when it reports success, and then the new state is there.
pub data Committed (world : World) (new : PersistentState) (before : JobRegistry)
    : RpcResult (Unit {0}) → JobRegistry → Type 0 where
  done :
      (after : JobRegistry)
      → IsReplaced world new before after
      → after.healthy ≡ before.healthy
      → Committed world new before (ok tt) after
  not_synced :
      (after : JobRegistry) (error : JsonRpcError)
      → IsReplaced world new before after
      → after.healthy ≡ false
      → Committed world new before (err error) after
  refused :
      (after : JobRegistry) (error : JsonRpcError)
      → IsKept before after
      → after.healthy ≡ false
      → Committed world new before (err error) after

after_sync-Committed :
    (world : World) (new : PersistentState) (before after : JobRegistry)
    (synced : RpcResult (Unit {0}))
    → IsReplaced world new before after
    → after.healthy ≡ before.healthy
    → Committed world new before (after_sync after synced).0 (after_sync after synced).1
unfolding after_sync
after_sync-Committed world new before after (ok tt) r h = done after r h
after_sync-Committed world new before after (err error) r h =
    not_synced (record after { healthy = false }) error
      (record {
        bytes = r.bytes;
        state = r.state;
        file = r.file;
        encoded = r.encoded;
        short = r.short;
        consistent = r.consistent;
        policy = r.policy;
        closed = r.closed;
      })
      refl

after_publish-Committed :
    (world : World) (new : PersistentState) (before : JobRegistry) (published : RpcResult (List ℕ))
    → publish_valid world before.policy new ≡ published
    → Committed world new before
        (after_publish world before new published).0
        (after_publish world before new published).1
unfolding after_publish
after_publish-Committed world new before (err error) q =
    refused (record before { healthy = false }) error
      (record { state = refl; file = refl; policy = refl; closed = refl }) refl
after_publish-Committed world new before (ok bytes) q =
    let (consistent, (encoded, short)) = publish_valid-ok world before.policy new q in
    after_sync-Committed world new before (record before { state = new; file = some bytes })
      (sync_parent world)
      (record {
        bytes = bytes;
        state = refl;
        file = refl;
        encoded = encoded;
        short = short;
        consistent = consistent;
        policy = refl;
        closed = refl;
      })
      refl

-- A commit ends in one of three ways. It succeeds, with the state, trimmed and consistent, in memory
-- and its encoding of at most the permitted size in the file, and the health as before. It fails
-- with the same in memory and file when the directory is not synced, or with both as before, and the
-- registry is unhealthy in either case.
pub commit-Committed :
    (world : World) (registry : JobRegistry) (state : PersistentState)
    → Committed world
        (trimmed registry state)
        registry
        (commit world registry state).0
        (commit world registry state).1
unfolding commit commit_with_sync trimmed
commit-Committed world registry state =
    after_publish-Committed world (trimmed registry state) registry
      (publish_valid world registry.policy (trimmed registry state)) refl

settled :
    (policy : StorePolicy) {state : PersistentState} (after : JobRegistry)
    → after.policy ≡ policy
    → after.state ≡ state
    → IsStore policy true state
    → IsStore after.policy true after.state
settled policy after p q h = rw (p, q) h

-- The memory after a commit is a consistent state, when it was one.
pub commit-IsStore :
    (world : World) (registry : JobRegistry) (state : PersistentState)
    → IsStore registry.policy true registry.state
    → IsStore (commit world registry state).1.policy true (commit world registry state).1.state
commit-IsStore world registry state s = kept (commit-Committed world registry state)
  where
    kept :
        {r : RpcResult (Unit {0})} {after : JobRegistry}
        → Committed world (trimmed registry state) registry r after
        → IsStore after.policy true after.state
    kept (done after r h) = settled registry.policy after r.policy r.state r.consistent
    kept (not_synced after e r h) = settled registry.policy after r.policy r.state r.consistent
    kept (refused after e r h) = settled registry.policy after r.policy r.state s

-- Storage that works: every step of the file system succeeds, and the encoding is short enough.
pub record Works (world : World) (policy : StorePolicy) (state : PersistentState) : Type 0 where
  pub bytes : List ℕ
  pub encoded : world.to_vec state ≡ some bytes
  pub short : length bytes ≤ policy.max_store_bytes
  pub created : world.create_dir_all ≡ true
  pub temporary : world.new_temporary ≡ true
  pub written : world.write_all ≡ true
  pub flushed : world.flush_and_sync ≡ true
  pub renamed : world.persist ≡ true
  pub synced : world.sync_directory ≡ true

within-ltb : (limit n : ℕ) → n ≤ limit → ltb limit n ≡ false
within-ltb limit n h = ground arith

-- A consistent state is committed by storage that works.
pub commit_with_sync_succeeds :
    (world : World) (registry : JobRegistry) (state : PersistentState)
    → IsStore registry.policy true state
    → (works : Works world registry.policy state)
    → commit_with_sync world registry state
      ≡ (ok tt, record registry { state = state; file = some works.bytes })
unfolding commit_with_sync publish_valid after_publish after_sync encode_state publish_state
    sync_parent
commit_with_sync_succeeds world registry state s works =
    let fits : ltb registry.policy.max_store_bytes (length works.bytes) ≡ false =
      within-ltb registry.policy.max_store_bytes (length works.bytes) works.short in
    rw
      (
        IsStore-validate_state state registry.policy true s,
        works.encoded,
        fits,
        works.created,
        works.temporary,
        works.written,
        works.flushed,
        works.renamed,
        works.synced,
      )
      refl
