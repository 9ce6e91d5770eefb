-- ===== src/ReplicationPool/Laws.antt =====
-- `create` of the pools of packages/core/src/abstract-dialect/replication-pool.ts: which replica a read
-- connection is made to.
use native.Mathlib.Nat.{mod-lt}
use sequelize.Base.{
  ℕ, zero, suc, ◌+◌, ◌%◌, ◌<◌, ◌≡◌, refl, ap, ◌∙◌, true, some, List, [], ◌∷◌, length, get_elem?,
  arith,
}
use sequelize.ReplicationPool.{read, Config, State, has_read_pool, create}

module _ (config : Config) where
  -- The states after the creation of read connections, one after the other.
  abbrev pub create_reads : List ℕ → State → State
  create_reads [] s = s
  create_reads (c ∷ cs) s = create_reads cs (create config read c s).1

  reads-create_reads : (cs : List ℕ) (s : State) → (create_reads cs s).reads ≡ s.reads + length cs
  unfolding create
  reads-create_reads [] s = omega arith
  reads-create_reads (c ∷ cs) s = omega (arith, reads-create_reads cs (create config read c s).1)

  get_elem?-some :
      {A : Type 0} (xs : List A) (i : ℕ) → i < length xs → (x : A) × (get_elem? xs i ≡ some x)
  get_elem?-some [] i h = absurd (omega (arith, h))
  get_elem?-some (x ∷ xs) zero h = (x, refl)
  get_elem?-some (x ∷ xs) (suc i) h = get_elem?-some xs i (omega (arith, h))

  read_config-nonempty : has_read_pool config ≡ true → 0 < length config.read_config
  unfolding has_read_pool
  read_config-nonempty h = ground (arith, h)

  -- The replicas are used in turn: a read connection that is created after others have been is for
  -- the entry at their number modulo the number of entries, and there is always one.
  pub create-create_reads :
      (c : ℕ) (cs : List ℕ) (s : State)
      → has_read_pool config ≡ true
      → (entry : ℕ) × (get_elem? config.read_config
            ((s.reads + length cs) % length config.read_config)
          ≡ some entry)
        × ((create config read c (create_reads cs s)).0 ≡ some entry)
  unfolding create
  create-create_reads c cs s h =
      let (entry, e) =
        get_elem?-some config.read_config ((s.reads + length cs) % length config.read_config)
          (mod-lt (s.reads + length cs) (read_config-nonempty h)) in
      (
        entry,
        e,
        ap (λ n. get_elem? config.read_config (n % length config.read_config))
              (reads-create_reads cs s)
            ∙ e,
      )
