-- ===== src/Worlds/Topology/Pools/Counts.antt =====
-- What `collect_observed_pools` counts: the server instances of each pool key.
use dynaxis.Base.{
  value_or, value_or-IsKeyed, sym, ap₂, subst, ◌<◌, ◌^◌, find-put, ◌≡◌, refl, ap, ◌∙◌, ℕ, ◌+◌,
  String, Bool, true, false, ◌&&◌, Option, none, some, List, [], ◌∷◌, if◌then◌else◌, str_eq, eq_iff,
  u32, find, put, put-IsKeyed, IsKeyed, first_of, first_of-values, arith, two_ways,
}
use dynaxis.Worlds.Topology.Pools.{
  ObservedTopologyInstance, ObservedTopologyPool, observed_key, make_pool_key, is_counted,
  collect_instance, collect_instances, collect_observed_pools, count_instance, new_pool,
}

-- The instances that a pool key counts.
abbrev pub is_in : String → ObservedTopologyInstance → Bool
is_in key i = is_counted i && str_eq (make_pool_key i.world_id i.shard) key

abbrev pub instances_in : String → List ObservedTopologyInstance → ℕ
instances_in key [] = 0
instances_in key (i ∷ is) = let n = instances_in key is in if is_in key i then n + 1 else n

abbrev pub ready_in : String → List ObservedTopologyInstance → ℕ
ready_in key [] = 0
ready_in key (i ∷ is) = let n = ready_in key is in if is_in key i && i.ready then n + 1 else n

-- The counts of a pool, 0 for one that is not there.
abbrev pub counts : Option ObservedTopologyPool → ℕ × ℕ
counts none = (0, 0)
counts (some p) = (p.instances, p.ready_instances)

-- The counts after one instance of the pool.
abbrev counted : Bool → Bool → ℕ × ℕ → ℕ × ℕ
counted false ready c = c
counted true ready c = (u32 (c.0 + 1), if ready then u32 (c.1 + 1) else c.1)

counts-value_or :
    (ready : Bool) (o : Option ObservedTopologyPool) (world shard : String)
    → counts (some (count_instance ready (value_or o (new_pool world shard))))
      ≡ counted true ready (counts o)
counts-value_or ready none world shard = refl
counts-value_or ready (some p) world shard = refl

pool_after :
    (index : List (String × ObservedTopologyPool)) (world shard key : String) (ready : Bool)
    → let own = make_pool_key world shard in
      let pool = count_instance ready (value_or (find index own) (new_pool world shard)) in
      counts (find (put index own pool) key)
      ≡ counted (str_eq own key) ready (counts (find index key))
pool_after index world shard key ready =
    let own = make_pool_key world shard in
    let pool = count_instance ready (value_or (find index own) (new_pool world shard)) in
    ground (
      arith,
      find-put index own key pool,
      eq_iff own key,
      counts-value_or ready (find index own) world shard,
    )

collect_instance-counts :
    (index : List (String × ObservedTopologyPool)) (i : ObservedTopologyInstance) (key : String)
    → counts (find (collect_instance index i) key)
      ≡ counted (is_in key i) i.ready (counts (find index key))
unfolding collect_instance
collect_instance-counts index i key =
    let own = make_pool_key i.world_id i.shard in
    let pool = value_or (find index own) (new_pool i.world_id i.shard) in
    let c = counts (find index key) in
    two_ways (λ m. counts (find m key) ≡ counted (is_in key i) i.ready c) (is_counted i)
      (put index own (count_instance i.ready pool)) index
      (λ taken.
        pool_after index i.world_id i.shard key i.ready
        ∙ ap (λ b. counted (b && str_eq own key) i.ready c) (sym taken))
      (λ skipped. ap (λ b. counted (b && str_eq own key) i.ready c) (sym skipped))

-- Both counts of a pool are machine words.
abbrev AreWords : ℕ × ℕ → Type 0
AreWords c = (c.0 < 2 ^ 32) × (c.1 < 2 ^ 32)

counted-AreWords : (here ready : Bool) (c : ℕ × ℕ) → AreWords c → AreWords (counted here ready c)
counted-AreWords false ready c h = h
counted-AreWords true ready c h = ground (arith, h)

abbrev pub words : ℕ → ℕ → ℕ × ℕ
words m n = (u32 m, u32 n)

counted_add :
    (here ready : Bool) (c : ℕ × ℕ) (m n : ℕ)
    → words ((counted here ready c).0 + m) ((counted here ready c).1 + n)
      ≡ words (c.0 + (if here then m + 1 else m)) (c.1 + (if here && ready then n + 1 else n))
counted_add false ready c m n = refl
counted_add true false c m n = ap₂ (λ k l. (k, l)) (omega arith) refl
counted_add true true c m n = ap₂ (λ k l. (k, l)) (omega arith) (omega arith)

counts_from :
    (index : List (String × ObservedTopologyPool)) (is : List ObservedTopologyInstance)
    (key : String)
    → AreWords (counts (find index key))
    → counts (find (collect_instances index is) key)
      ≡ words
          ((counts (find index key)).0 + instances_in key is)
          ((counts (find index key)).1 + ready_in key is)
unfolding collect_instances
counts_from index [] key h = ap₂ (λ k l. (k, l)) (omega (arith, h.0)) (omega (arith, h.1))
counts_from index (i ∷ is) key h =
    let c = counts (find index key) in
    let later = collect_instance index i in
    let one = collect_instance-counts index i key in
    counts_from later is key (subst AreWords (sym one) (counted-AreWords (is_in key i) i.ready c h))
    ∙ ap (λ d. words (d.0 + instances_in key is) (d.1 + ready_in key is)) one
    ∙ counted_add (is_in key i) i.ready c (instances_in key is) (ready_in key is)

collect_instance-IsKeyed :
    (index : List (String × ObservedTopologyPool)) (i : ObservedTopologyInstance)
    → IsKeyed observed_key index
    → IsKeyed observed_key (collect_instance index i)
unfolding collect_instance
collect_instance-IsKeyed index i h =
    let own = make_pool_key i.world_id i.shard in
    let pool = count_instance i.ready (value_or (find index own) (new_pool i.world_id i.shard)) in
    two_ways (IsKeyed observed_key) (is_counted i) (put index own pool) index
      (λ _.
        put-IsKeyed observed_key index own pool
          (value_or-IsKeyed observed_key index own (new_pool i.world_id i.shard) refl h) h)
      (λ _. h)

collect_instances-IsKeyed :
    (index : List (String × ObservedTopologyPool)) (is : List ObservedTopologyInstance)
    → IsKeyed observed_key index
    → IsKeyed observed_key (collect_instances index is)
unfolding collect_instances
collect_instances-IsKeyed index [] h = h
collect_instances-IsKeyed index (i ∷ is) h =
    collect_instances-IsKeyed (collect_instance index i) is (collect_instance-IsKeyed index i h)

-- The pool of each key counts the server instances of that key whose world and shard are named, and
-- those of them that are ready, modulo 2 ^ 32; a key without a pool counts 0.
pub collect_observed_pools_lem :
    (instances : List ObservedTopologyInstance) (key : String)
    → counts (first_of observed_key (collect_observed_pools instances) key)
      ≡ words (instances_in key instances) (ready_in key instances)
unfolding collect_observed_pools
collect_observed_pools_lem instances key =
    let index = collect_instances [] instances in
    ap counts (first_of-values observed_key index key (collect_instances-IsKeyed [] instances tt))
    ∙ counts_from [] instances key (omega arith, omega arith)
    ∙ ap₂ words (omega arith) (omega arith)
