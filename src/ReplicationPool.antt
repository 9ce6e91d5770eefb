-- ===== src/ReplicationPool.antt =====
-- packages/core/src/abstract-dialect/replication-pool.ts: the write pool and the optional read pool.
-- A connection is a number. The pools are those of the package sequelize-pool: what a pool gives, and
-- what the configured callbacks throw, are parameters.
pub mod Laws
mod Tests
use sequelize.Base.{
  ℕ, zero, suc, ◌+◌, ◌%◌, ◌≡◌, refl, Bool, true, false, not, ◌&&◌, Option, none, some, List, [],
  ◌∷◌, ◌==◌, if◌then◌else◌, length, get_elem?, Result, ok, throw,
}

pub data ConnectionType : Type 0 where
  read write : ConnectionType

-- `AcquireConnectionOptions`; a type that is none of the two is `other`.
pub data RequestedType : Type 0 where
  unspecified other : RequestedType
  requested : ConnectionType → RequestedType

pub record AcquireOptions : Type 0 where
  pub type : RequestedType
  pub use_master : Bool

pub data PoolError : Type 0 where
  unexpected_type unknown_connection : PoolError
  timeout custom_timeout : PoolError
  external : ℕ → PoolError

-- What is asked of the two pools and of the callbacks of the configuration.
pub data Call : Type 0 where
  before_acquire : Call
  acquire_from : ConnectionType → Call
  after_acquire : ℕ → Call
  release_to destroy_in : ConnectionType → ℕ → Call

-- What `pool.acquire` ends with: `timed_out` is a `TimeoutError`.
pub data Acquired : Type 0 where
  gives : ℕ → Acquired
  timed_out : Acquired
  failed : ℕ → Acquired

pub record Config : Type 0 where
  pub pool_acquire : List Call → ConnectionType → Acquired
  pub throws : List Call → Call → Option ℕ
  pub has_before_acquire : Bool
  pub changed_options : List Call → AcquireOptions → AcquireOptions
  pub has_after_acquire : Bool
  pub has_timeout_error_class : Bool
  pub read_config : List ℕ
  pub write_config : ℕ

-- `owningPools`, `reads`, and the calls so far, the last one first.
pub record State : Type 0 where
  pub owning_pools : ℕ → Option ConnectionType
  pub reads : ℕ
  pub calls : List Call

module _ (config : Config) where
  -- `this.read != null`.
  abbrev has_entries : List ℕ → Bool
  has_entries [] = false
  has_entries (c ∷ cs) = true

  unfoldable pub has_read_pool : Bool
  has_read_pool = has_entries config.read_config

  -- `create` of the two pools: the entry of the configuration that is connected to, and the state
  -- once that connection is made.
  unfoldable pub create : ConnectionType → (connection : ℕ) → State → Option ℕ × State
  create read connection s = (
    get_elem? config.read_config (s.reads % length config.read_config),
    record s {
      owning_pools = λ c. if c == connection then some read else s.owning_pools c;
      reads = s.reads + 1;
    },
  )
  create write connection s = (
    some config.write_config,
    record s { owning_pools = λ c. if c == connection then some write else s.owning_pools c },
  )

  abbrev pub is_read : RequestedType → Bool
  is_read (requested read) = true
  is_read _ = false

  -- The pool of a request.
  unfoldable pub chosen : AcquireOptions → ConnectionType
  unfolding has_read_pool
  chosen options =
      if has_read_pool && is_read options.type && not options.use_master then read else write

  abbrev pub outcome : {A : Type 0} → A → Option ℕ → Result PoolError A
  outcome a none = ok a
  outcome a (some x) = throw (external x)

  abbrev pub then_run :
      {A B : Type 0}
      → Result PoolError A × State
      → (A → State → Result PoolError B × State)
      → Result PoolError B × State
  then_run (ok a, s) f = f a s
  then_run (throw e, s) f = (throw e, s)

  abbrev pub call : Call → State → Result PoolError (Unit {0}) × State
  call c s = (outcome tt (config.throws s.calls c), record s { calls = c ∷ s.calls })

  abbrev pub call_if : Bool → Call → State → Result PoolError (Unit {0}) × State
  call_if b c s = if b then call c s else (ok tt, s)

  abbrev timeout_error : PoolError
  timeout_error = if config.has_timeout_error_class then custom_timeout else timeout

  abbrev pub received : Acquired → State → Result PoolError ℕ × State
  received (gives c) s =
      then_run (call_if config.has_after_acquire (after_acquire c) s) λ _ s'. (ok c, s')
  received timed_out s = (throw timeout_error, s)
  received (failed x) s = (throw (external x), s)

  abbrev pub checked_type : RequestedType → Result PoolError (Unit {0})
  checked_type other = throw unexpected_type
  checked_type _ = ok tt

  abbrev pub take_from : ConnectionType → State → Result PoolError ℕ × State
  take_from pool s =
      received (config.pool_acquire s.calls pool) (record s { calls = acquire_from pool ∷ s.calls })

  abbrev pub options_after : List Call → AcquireOptions → AcquireOptions
  options_after log options =
      if config.has_before_acquire then config.changed_options log options else options

  -- The options are a copy of those given, which `beforeAcquire` may change.
  unfoldable pub acquire : AcquireOptions → State → Result PoolError ℕ × State
  unfolding chosen
  acquire options s =
      let given = options_after s.calls options in
      then_run (call_if config.has_before_acquire before_acquire s)
        λ _ s1. then_run (checked_type given.type, s1) λ _ s2. take_from (chosen given) s2

  -- `getPool`.
  unfoldable pub get_pool : ConnectionType → ConnectionType
  unfolding has_read_pool
  get_pool read = if has_read_pool then read else write
  get_pool write = write

  abbrev pub release_owned : ℕ → Option ConnectionType → State → Result PoolError (Unit {0}) × State
  release_owned c none s = (throw unknown_connection, s)
  release_owned c (some type) s = call (release_to (get_pool type) c) s

  unfoldable pub release : ℕ → State → Result PoolError (Unit {0}) × State
  unfolding get_pool
  release c s = release_owned c (s.owning_pools c) s

  abbrev pub destroy_owned : ℕ → Option ConnectionType → State → Result PoolError (Unit {0}) × State
  destroy_owned c none s = (throw unknown_connection, s)
  destroy_owned c (some type) s = call (destroy_in (get_pool type) c) s

  unfoldable pub destroy : ℕ → State → Result PoolError (Unit {0}) × State
  unfolding get_pool
  destroy c s = destroy_owned c (s.owning_pools c) s

  -- The sum of what the two pools count: `size`, `available`, `using` and `waiting`.
  unfoldable pub total : (ConnectionType → ℕ) → ℕ
  unfolding has_read_pool
  total counts = (if has_read_pool then counts read else 0) + counts write
