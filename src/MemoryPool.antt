-- ===== src/MemoryPool.antt =====
-- lib/fcitx-utils/memory-pool.c: memory that is handed out from chunks. A pointer is an address, a natural
-- number below 2 ^ 64, and `memory` is the address that `malloc` returns for a new chunk.
pub mod Used
use fcitx_ng.Prelude.{
  not, ℕ, zero, suc, ◌+◌, ◌-◌, ◌*◌, ◌/◌, ◌%◌, ◌^◌, Bool, true, false, Option, none, some, List, [],
  ◌∷◌, ◌++◌, ltb, leb, ◌==◌, if◌then◌else◌, length, set, take, get_elem?,
}

pub record MemoryChunk : Type 0 where
  pub cur : ℕ
  pub end : ℕ
  pub memory : ℕ

pub record MemoryPool : Type 0 where
  pub fullchunks : List MemoryChunk
  pub chunks : List MemoryChunk

abbrev pub page_size : ℕ
page_size = 8 * 1024

abbrev pub chunk_full_size : ℕ
chunk_full_size = 16

abbrev pub memory_pool_new : MemoryPool
memory_pool_new = record { fullchunks = []; chunks = [] }

-- A sum of two `size_t` or pointers.
abbrev pub plus : ℕ → ℕ → ℕ
plus a b = (a + b) % 2 ^ 64

-- `fcitx_utils_align_to(len, sizeof(int))`.
abbrev pub align_to : ℕ → ℕ
align_to len = let left = len % 4 in if not (left == 0) then plus len (4 - left) else len

-- `result` for a chunk.
abbrev pub place_in : Bool → MemoryChunk → ℕ
place_in align chunk = if align then align_to chunk.cur else chunk.cur

-- The loop over the chunks, from the index `i` on: the first one with room for `size`.
unfoldable pub find_chunk : ℕ → Bool → ℕ → List MemoryChunk → Option (ℕ × MemoryChunk)
find_chunk size align i [] = none
find_chunk size align i (chunk ∷ chunks) =
    let rest = find_chunk size align (i + 1) chunks in
    if leb (plus (place_in align chunk) size) chunk.end then some (i, chunk) else rest

-- `utarray_remove_quick`: the last element takes the place of the removed one.
abbrev pub move_last : Option MemoryChunk → ℕ → List MemoryChunk → List MemoryChunk
move_last none i chunks = chunks
move_last (some last) i chunks = take (length chunks - 1) (set chunks i last)

abbrev pub remove_quick : ℕ → List MemoryChunk → List MemoryChunk
remove_quick i chunks = move_last (get_elem? chunks (length chunks - 1)) i chunks

-- The end: a chunk with little room left moves to the full ones. `chunk` is at `i`.
abbrev pub retire : ℕ → MemoryChunk → MemoryPool → MemoryPool
retire i chunk pool =
    if leb (chunk.end - chunk.cur) chunk_full_size
    then record { fullchunks = pool.fullchunks ++ chunk ∷ []; chunks = remove_quick i pool.chunks }
    else pool

abbrev pub chunk_size : ℕ → ℕ
chunk_size size = plus size (page_size - 1) / page_size * page_size

-- A chunk that has room, and a new one.
abbrev pub alloc_with : Option (ℕ × MemoryChunk) → ℕ → ℕ → Bool → MemoryPool → ℕ × MemoryPool
alloc_with (some (i, chunk)) memory size align pool =
    let result = place_in align chunk in
    let chunk₁ : MemoryChunk = record chunk { cur = plus result size } in
    (result, retire i chunk₁ (record pool { chunks = set pool.chunks i chunk₁ }))
alloc_with none memory size align pool =
    let chunk₁ : MemoryChunk = record {
      cur = plus memory size;
      end = plus memory (chunk_size size);
      memory = memory;
    } in
    (
      memory,
      retire (length pool.chunks) chunk₁ (record pool { chunks = pool.chunks ++ chunk₁ ∷ [] }),
    )

-- `fcitx_memory_pool_alloc_align`.
unfoldable pub alloc_align : ℕ → ℕ → Bool → MemoryPool → ℕ × MemoryPool
unfolding find_chunk
alloc_align memory size align pool =
    alloc_with (find_chunk size align 0 pool.chunks) memory size align pool

abbrev pub alloc : ℕ → ℕ → MemoryPool → ℕ × MemoryPool
alloc memory size pool = alloc_align memory size false pool

abbrev pub memory_pool_clear : MemoryPool → MemoryPool
memory_pool_clear pool = record { fullchunks = []; chunks = [] }
