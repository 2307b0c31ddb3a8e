-- ===== src/Network/SubnetPool/Tests.antt =====
-- Runs of the pool, and its theorems at a pool with one subnet in use.
use micro_hosted.Prelude.{
  ℕ, ◌<◌, true, err, ◌⊎◌, ◌≡◌, ◌≢◌, refl, false, [], ◌∷◌, ◌++◌, codes, ok, arith,
}
use micro_hosted.Network.Address.{ip_text}
use micro_hosted.Network.Ipam.{new_subnet, overlaps}
use micro_hosted.Network.SubnetPool.{
  Pool, new_pool, pool_size, no_free_subnets, bytes_eq, pool_cidr, allocate, allocate_from, release,
}
use micro_hosted.Network.SubnetPool.Exclusive.{
  bytes_eq_iff, Allocated, allocate_lem, allocated, released, used_not_allocated, pool_disjoint,
  pool_block,
}

cidr_text : (pool_cidr 0 ≡ codes "172.16.0.0/24") × (pool_cidr 4095 ≡ codes "172.31.255.0/24")
unfolding pool_cidr
cidr_text = (refl, refl)

abbrev one_used : Pool
one_used = (allocate new_pool).1

second : (allocate one_used).0 ≡ ok (codes "172.16.1.0/24")
unfolding allocate allocate_from pool_cidr bytes_eq
second = refl

used_not_allocated_run :
    (allocate (allocate (release (codes "172.16.1.0/24") one_used)).1).0
    ≢ ok (codes "172.16.0.0/24")
unfolding allocate allocate_from pool_cidr bytes_eq
used_not_allocated_run =
    used_not_allocated (released (codes "172.16.1.0/24") ∷ allocated ∷ []) one_used
      (codes "172.16.0.0/24") (refl, tt) refl

pool_disjoint_example :
    (overlaps (new_subnet (pool_block 0) 24) (new_subnet (pool_block 1) 24) ≡ false)
    × (pool_cidr 0 ≡ ip_text (pool_block 0) ++ codes "/24")
unfolding pool_cidr bytes_eq
pool_disjoint_example =
    pool_disjoint 0 1 (omega arith) (omega arith)
      (λ e. cc ((bytes_eq_iff (pool_cidr 0) (pool_cidr 1)).1 e))

allocate_run :
    Allocated one_used 0 pool_size (allocate one_used)
    ⊎ ((allocate one_used ≡ (err no_free_subnets, one_used))
        × ((j : ℕ) → j < pool_size → one_used.used (pool_cidr j) ≡ true))
allocate_run = allocate_lem one_used
