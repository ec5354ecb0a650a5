-- ===== src/Tests/Pools.antt =====
-- objpool.c on concrete pools: runs, and the theorems at pools that meet their hypotheses.
use fcitx_ng.Prelude.{◌≡◌, ◌^◌, refl, Bool, true, false, some, [], ◌∷◌, pos, negsuc, arith}
use fcitx_ng.ObjPool.{ObjPool, init_with_prealloc, grow, alloc_at, alloc_id, free_element, free_id}
use fcitx_ng.ObjPool.Chain.{IsValid}
use fcitx_ng.ObjPool.Alloc.{
  Allocates, alloc_id-Allocates, Frees, free_id-Frees, init_with_prealloc-IsValid,
}

-- Two elements, and the same pool when both are allocated.
abbrev fresh_pool : ObjPool
fresh_pool = init_with_prealloc 2

abbrev full_pool : ObjPool
full_pool = (alloc_id (alloc_id fresh_pool).1).1

full_pool_grows : (alloc_id full_pool).0 ≡ 2
unfolding alloc_id alloc_at grow init_with_prealloc
full_pool_grows = refl

freed_pool_reuses : (alloc_id (free_element full_pool 0).1).0 ≡ 0
unfolding alloc_id alloc_at free_element init_with_prealloc
freed_pool_reuses = refl

double_free : (free_element (free_element full_pool 0).1 0).0 ≡ false
unfolding alloc_id alloc_at free_element init_with_prealloc
double_free = refl

full_pool-IsValid : IsValid full_pool
full_pool-IsValid =
    (alloc_id-Allocates (alloc_id fresh_pool).1
      (alloc_id-Allocates fresh_pool (init_with_prealloc-IsValid 2 (omega arith)).0).valid).valid

alloc_id-Allocates_example : Allocates full_pool (alloc_id full_pool)
alloc_id-Allocates_example = alloc_id-Allocates full_pool full_pool-IsValid

-- With elements of 8 bytes, the offset of the id 2 ^ 29 is that of the id 0.
id_aliases :
    free_id 8 full_pool (pos (2 ^ 29))
    ≡ some (true, record { array = negsuc 0 ∷ negsuc 1 ∷ []; next_free = pos (2 ^ 29) })
unfolding alloc_id alloc_at free_id init_with_prealloc
id_aliases = refl

free_id-Frees_example :
    (r : Bool × ObjPool) × ((free_id 8 full_pool (pos 1) ≡ some r) × Frees full_pool 1 r)
free_id-Frees_example = free_id-Frees 8 full_pool 1 full_pool-IsValid (omega arith) (omega arith)
