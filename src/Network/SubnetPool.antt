-- ===== src/Network/SubnetPool.antt =====
-- The /24 subnets handed out to networks that name none (internal/network/subnetpool.go). `used`
-- is the set of the CIDR texts in use.
pub mod Exclusive
mod Tests
use micro_hosted.Prelude.{
  ℕ, zero, suc, ◌+◌, ◌*◌, ◌/◌, ◌%◌, Bool, true, false, List, [], ◌∷◌, ◌++◌, ◌==◌, ◌&&◌, codes,
  if◌then◌else◌, Result, ok, err,
}
use micro_hosted.Network.Address.{Bytes, octet, dot}

-- Go's `==` on strings.
unfoldable pub bytes_eq : Bytes → Bytes → Bool
bytes_eq [] [] = true
bytes_eq (a ∷ s) (b ∷ t) = (a == b) && bytes_eq s t
bytes_eq _ _ = false

pub record Pool : Type 0 where
  pub used : Bytes → Bool

pub data Exhausted : Type 0 where
  no_free_subnets : Exhausted

abbrev pub new_pool : Pool
new_pool = record { used = λ _. false }

abbrev pub with_text : Bytes → Bool → (Bytes → Bool) → Bytes → Bool
with_text c b used x = if bytes_eq c x then b else used x

-- `fmt.Sprintf("172.%d.%d.0/24", 16+i/256, i%256)`.
unfoldable pub pool_cidr : ℕ → Bytes
unfolding octet
pool_cidr i =
    octet 172
    ++ (dot
        ∷ (octet (16 + i / 256) ++ (dot ∷ (octet (i % 256) ++ (dot ∷ (octet 0 ++ codes "/24"))))))

-- How many subnets the pool has.
abbrev pub pool_size : ℕ
pool_size = 4096

-- The loop of `allocate`, with `n` rounds left from `i` on.
unfoldable pub allocate_from : ℕ → ℕ → Pool → Result Exhausted Bytes × Pool
allocate_from zero i p = (err no_free_subnets, p)
allocate_from (suc n) i p =
    let rest = allocate_from n (i + 1) p in
    if p.used (pool_cidr i)
    then rest
    else (ok (pool_cidr i), record p { used = with_text (pool_cidr i) true p.used })

unfoldable pub allocate : Pool → Result Exhausted Bytes × Pool
allocate p = allocate_from pool_size 0 p

unfoldable pub reserve : Bytes → Pool → Pool
reserve cidr p = record p { used = with_text cidr true p.used }

unfoldable pub release : Bytes → Pool → Pool
release cidr p = record p { used = with_text cidr false p.used }
