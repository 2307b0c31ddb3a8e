-- ===== src/Vm/IdPool/Tests.antt =====
-- A pool of three identities.
use micro_hosted.Prelude.{
  ℕ, ◌+◌, ◌≤◌, ◌<◌, ◌≡◌, ◌≢◌, ◌⊎◌, inr, refl, Bool, true, false, Option, none, some, String, List,
  [], ◌∷◌, ◌==◌, eq_iff, ok, err, arith,
}
use micro_hosted.Vm.IdPool.{
  IdPool, all_in_use, table_unreadable, new_id_pool, take, alloc, free_round, is_busy,
}
use micro_hosted.Vm.IdPool.Rotation.{Assigned, alloc_lem}
use micro_hosted.Vm.IdPool.Exclusive.{IsValid, Op, allocated, released, run, owner_kept}

abbrev none_live : ℕ → Bool
none_live _ = false

abbrev pool : IdPool
pool = (alloc (some none_live) "vm:a" (new_id_pool 100 3)).1

-- a live process keeps 101 back
second : (alloc (some (λ u. u == 101)) "vm:b" pool).0 ≡ ok 102
unfolding alloc new_id_pool free_round
second = refl

pool-IsValid : IsValid pool
unfolding alloc new_id_pool free_round
pool-IsValid = record { next_in = omega arith; owned_in = λ u o e. ground arith }

a_owned : pool.owner 100 ≡ some "vm:a"
unfolding alloc new_id_pool free_round
a_owned = refl

alloc_lem_example :
    (alloc none "vm:b" pool ≡ (err table_unreadable, pool))
    × (Assigned none_live "vm:b" pool (alloc (some none_live) "vm:b" pool)
        ⊎ ((alloc (some none_live) "vm:b" pool ≡ (err all_in_use, pool))
            × ((uid : ℕ)
                → pool.base ≤ uid
                → uid < pool.base + pool.count
                → is_busy pool none_live uid ≡ true)))
alloc_lem_example = alloc_lem none_live "vm:b" pool (pool-IsValid.next_in)

abbrev calls : List Op
calls = allocated (some none_live) "vm:b" ∷ released 100 "vm:b" ∷ allocated none "vm:c" ∷ []

owner_kept_example :
    ((run calls pool).owner 100 ≡ some "vm:a")
    × ((live : Option (ℕ → Bool)) (c : String) → (alloc live c (run calls pool)).0 ≢ ok 100)
    × ((c : String) → c ≢ "vm:a" → take 100 c (run calls pool) ≡ (false, run calls pool))
owner_kept_example =
    owner_kept 100 "vm:a" calls pool pool-IsValid
      (tt, (inr (λ e. cc ((eq_iff "vm:b" "vm:a").1 e)), (tt, tt))) a_owned
