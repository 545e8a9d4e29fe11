-- ===== src/Pmm/Frame.antt =====
-- What the operations on regions leave alone: the size of the map.
use splongle_os.Base.{ℕ, zero, suc, ◌+◌, ◌/◌, ◌≡◌, refl, arith, min, u32, sub32}
use splongle_os.Pmm.{
  Pmm, four_gib, block_size, set_block, unset_block, free_region, use_region, region_blocks,
  initialize_region, deinitialize_region, memory_manager_init,
}

free_region-max_blocks : (n align : ℕ) (p : Pmm) → (free_region n align p).max_blocks ≡ p.max_blocks
unfolding free_region unset_block
free_region-max_blocks zero align p = refl
free_region-max_blocks (suc n) align p =
    let q = unset_block align p in
    free_region-max_blocks n (u32 (align + 1)) (record q { used_blocks = sub32 q.used_blocks 1 })

use_region-max_blocks : (n align : ℕ) (p : Pmm) → (use_region n align p).max_blocks ≡ p.max_blocks
unfolding use_region set_block
use_region-max_blocks zero align p = refl
use_region-max_blocks (suc n) align p =
    let q = set_block align p in
    use_region-max_blocks n (u32 (align + 1)) (record q { used_blocks = u32 (q.used_blocks + 1) })

pub initialize_region-max_blocks :
    (base size : ℕ) (p : Pmm) → (initialize_region base size p).max_blocks ≡ p.max_blocks
unfolding initialize_region set_block
initialize_region-max_blocks base size p =
    ground (arith, free_region-max_blocks (region_blocks base size) (base / block_size) p)

pub deinitialize_region-max_blocks :
    (base size : ℕ) (p : Pmm) → (deinitialize_region base size p).max_blocks ≡ p.max_blocks
unfolding deinitialize_region
deinitialize_region-max_blocks base size p =
    ground (arith, use_region-max_blocks (region_blocks base size) (base / block_size) p)

pub memory_manager_init-max_blocks :
    (address size : ℕ) (words : ℕ → ℕ)
    → (memory_manager_init address size words).max_blocks ≡ min size four_gib / block_size
unfolding memory_manager_init
memory_manager_init-max_blocks address size words = ground arith
