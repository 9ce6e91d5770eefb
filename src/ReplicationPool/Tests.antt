-- ===== src/ReplicationPool/Tests.antt =====
-- The theorems on the replication pool at a concrete configuration.
use sequelize.Base.{
  ℕ, ◌+◌, ◌%◌, ◌≡◌, refl, zero, suc, true, false, Option, none, some, List, [], ◌∷◌, length,
  get_elem?, ok,
}
use sequelize.ReplicationPool.{
  ConnectionType, read, write, requested, AcquireOptions, Acquired, gives, Config, State,
  has_read_pool, chosen, acquire, create,
}
use sequelize.ReplicationPool.Laws.{create_reads, create-create_reads}

-- The read pool gives connection 1, the write pool connection 2.
abbrev given : ConnectionType → Acquired
given read = gives 1
given write = gives 2

abbrev owner : ℕ → Option ConnectionType
owner zero = none
owner (suc zero) = some read
owner (suc (suc n)) = some write

abbrev replicas : Config
replicas = record {
  pool_acquire = λ log pool. given pool;
  throws = λ log c. none;
  has_before_acquire = true;
  changed_options = λ log options. record options { use_master = false };
  has_after_acquire = true;
  has_timeout_error_class = true;
  read_config = 10 ∷ 20 ∷ [];
  write_config = 30;
}

abbrev idle : State
idle = record { owning_pools = owner; reads = 0; calls = [] }

abbrev reading : AcquireOptions
reading = record { type = requested read; use_master = true }

abbrev lent : State
lent = (acquire replicas reading idle).1

acquire_run : acquire replicas reading idle ≡ (ok 1, lent)
unfolding acquire chosen has_read_pool
acquire_run = refl

has_replicas : has_read_pool replicas ≡ true
unfolding has_read_pool
has_replicas = refl

abbrev earlier : List ℕ
earlier = 5 ∷ 6 ∷ 7 ∷ []

create-create_reads_example :
    (entry : ℕ) × (get_elem? replicas.read_config
        ((idle.reads + length earlier) % length replicas.read_config)
      ≡ some entry)
    × ((create replicas read 8 (create_reads replicas earlier idle)).0 ≡ some entry)
create-create_reads_example = create-create_reads replicas 8 earlier idle has_replicas
