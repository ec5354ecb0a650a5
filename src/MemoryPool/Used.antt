-- ===== src/MemoryPool/Used.antt =====
-- memory-pool.c: no address is handed out twice.
use fcitx_ng.Prelude.{
  ℕ, zero, suc, ◌+◌, ◌-◌, ◌%◌, ◌^◌, ◌≤◌, ◌<◌, ◌≡◌, inl, inr, refl, sym, ap, ◌∙◌, subst, Bool, true,
  false, not, ◌&&◌, Option, none, some, List, [], ◌∷◌, ◌++◌, ltb, leb, ◌==◌, ==_iff, if◌then◌else◌,
  length, set, get_elem?, get_elem?_bound, get_elem?-none, get_elem?-append_last,
  get_elem?-set_self, get_elem?-set_ne, length-set, count_if, count_if-append, count_if-set,
  count_if-take_last, Bool-cases, Option-cases, arith,
}
use fcitx_ng.MemoryPool.{
  MemoryChunk, MemoryPool, plus, chunk_size, place_in, find_chunk, move_last, retire, alloc_with,
  alloc_align,
}

-- The address is in the chunk, and in the part of it that is handed out.
abbrev pub holds : ℕ → MemoryChunk → Bool
holds a chunk = leb chunk.memory a && ltb a chunk.end

abbrev pub uses : ℕ → MemoryChunk → Bool
uses a chunk = leb chunk.memory a && ltb a chunk.cur

-- A chunk whose pointers are out of order, or that ends above 2 ^ 63.
abbrev pub misfit : MemoryChunk → Bool
misfit chunk = not (leb chunk.memory chunk.cur && leb chunk.cur chunk.end && leb chunk.end (2 ^ 63))

-- How many chunks of the pool the test accepts.
abbrev pub pool_count : (MemoryChunk → Bool) → MemoryPool → ℕ
pool_count p pool = count_if p pool.chunks + count_if p pool.fullchunks

-- The chunks have their pointers in order, end at 2 ^ 63 at most, and no two of them overlap.
pub record IsValid (pool : MemoryPool) : Type 0 where
  pub fits : pool_count misfit pool ≡ 0
  pub apart : (a : ℕ) → pool_count (holds a) pool ≤ 1

abbrev one : Bool → ℕ
one b = if b then 1 else 0

last_kept :
    (chunks : List MemoryChunk) (i : ℕ) (last : MemoryChunk)
    → i < length chunks
    → get_elem? chunks (length chunks - 1) ≡ some last
    → get_elem? (set chunks i last) (length chunks - 1) ≡ some last
last_kept chunks i last h e = elim (Bool-cases (i == length chunks - 1)) [
  | inl f ↦
      let is : i ≡ length chunks - 1 = ground (arith, ==_iff i (length chunks - 1), f) in
      ap (λ (j : ℕ). get_elem? (set chunks i last) j) (sym is) ∙ get_elem?-set_self chunks i last h
  | inr f ↦
      get_elem?-set_ne chunks last
        (λ g. absurd (ground (arith, ==_iff i (length chunks - 1), f, g)))
      ∙ e
]

move_last-count :
    (p : MemoryChunk → Bool) (chunks : List MemoryChunk) (i : ℕ) (chunk : MemoryChunk)
    (last : Option MemoryChunk)
    → get_elem? chunks i ≡ some chunk
    → get_elem? chunks (length chunks - 1) ≡ last
    → count_if p (move_last last i chunks) + one (p chunk) ≡ count_if p chunks
move_last-count p chunks i chunk none h e =
    let inside = get_elem?_bound chunks i chunk h in
    absurd (ground (arith, get_elem?-none chunks (length chunks - 1) e))
move_last-count p chunks i chunk (some last) h e =
    let inside = get_elem?_bound chunks i chunk h in
    let size = length-set chunks i last in
    let whole : length (set chunks i last) ≡ length chunks - 1 + 1 = omega (arith, size, inside) in
    let written = count_if-set p chunks i chunk last h in
    let cut =
      count_if-take_last p (set chunks i last) (length chunks - 1) last
        (last_kept chunks i last inside e) whole in
    omega (arith, written, cut)

retire-count :
    (p : MemoryChunk → Bool) (i : ℕ) (chunk : MemoryChunk) (pool : MemoryPool)
    → get_elem? pool.chunks i ≡ some chunk
    → pool_count p (retire i chunk pool) ≡ pool_count p pool
unfolding count_if
retire-count p i chunk pool h =
    let moved = move_last-count p pool.chunks i chunk _ h refl in
    let grown = count_if-append p pool.fullchunks (chunk ∷ []) in
    elim (Bool-cases (leb (chunk.end - chunk.cur) 16)) [
      | inl e ↦ rw e (omega (arith, moved, grown))
      | inr e ↦ rw e refl
    ]

-- The chunk that is found has room.
find_chunk_room :
    (size : ℕ) (align : Bool) (i : ℕ) (chunks : List MemoryChunk) (j : ℕ) (chunk : MemoryChunk)
    → find_chunk size align i chunks ≡ some (j, chunk)
    → (k : ℕ) × ((j ≡ i + k)
        × ((get_elem? chunks k ≡ some chunk) × (plus (place_in align chunk) size ≤ chunk.end)))
unfolding find_chunk
find_chunk_room size align i [] j chunk h = absurd (ground arith)
find_chunk_room size align i (c ∷ chunks) j chunk h =
    elim (Bool-cases (leb (plus (place_in align c) size) c.end)) [
      | inl e ↦ (
        0,
        (
          ground (arith, e, h),
          (
            ground (arith, e, h),
            let is : c ≡ chunk = ground (arith, e, h) in
                subst (λ (k : MemoryChunk). plus (place_in align k) size ≤ k.end) is
                  (ground (arith, e)),
          ),
        ),
      )
      | inr e ↦
          let rest = find_chunk_room size align (i + 1) chunks j chunk (simp e at h) in
          (suc rest.0, (omega (arith, rest.1.0), rest.1.1))
    ]

-- The place for an allocation is at most three bytes on.
place_in_bounds :
    (align : Bool) (chunk : MemoryChunk)
    → misfit chunk ≡ false
    → (chunk.cur ≤ place_in align chunk) × (place_in align chunk ≤ chunk.cur + 3)
place_in_bounds align chunk fit = ground (arith, fit)

plus_exact : (a b : ℕ) → a + b < 2 ^ 64 → plus a b ≡ a + b
plus_exact a b h = omega (arith, h)

-- A place in the chunk and a size below 2 ^ 62 are added without a wrap-around.
place_in_exact :
    (align : Bool) (size : ℕ) (chunk : MemoryChunk)
    → misfit chunk ≡ false
    → size < 2 ^ 62
    → plus (place_in align chunk) size ≡ place_in align chunk + size
place_in_exact align size chunk fit small =
    let high = (place_in_bounds align chunk fit).1 in
    plus_exact (place_in align chunk) size (ground (arith, fit, high, small))

uses_le :
    (a : ℕ) (chunks : List MemoryChunk)
    → count_if misfit chunks ≡ 0
    → count_if (uses a) chunks ≤ count_if (holds a) chunks
unfolding count_if
uses_le a [] h = omega arith
uses_le a (c ∷ chunks) h =
    let rest = uses_le a chunks (omega (arith, h)) in
    let fit : misfit c ≡ false = ground (arith, h) in ground (arith, rest, fit)

uses_lt :
    (a : ℕ) (chunks : List MemoryChunk) (i : ℕ) (chunk : MemoryChunk)
    → count_if misfit chunks ≡ 0
    → get_elem? chunks i ≡ some chunk
    → holds a chunk ≡ true
    → uses a chunk ≡ false
    → count_if (uses a) chunks < count_if (holds a) chunks
unfolding count_if
uses_lt a [] i chunk h at held free = absurd (ground arith)
uses_lt a (c ∷ chunks) zero chunk h at held free =
    let is : c ≡ chunk = ground (arith, at) in
    let rest = uses_le a chunks (omega (arith, h)) in rw is (ground (arith, rest, held, free))
uses_lt a (c ∷ chunks) (suc i) chunk h at held free =
    let rest = uses_lt a chunks i chunk (omega (arith, h)) at held free in
    let fit : misfit c ≡ false = ground (arith, h) in ground (arith, rest, fit)

-- What an allocation of `size` bytes at `result` does.
pub record Allocates (size result : ℕ) (pool after : MemoryPool) : Type 0 where
  pub valid : IsValid after
  pub fresh : (a : ℕ) → result ≤ a → a < result + size → pool_count (uses a) pool ≡ 0
  pub taken : (a : ℕ) → result ≤ a → a < result + size → 1 ≤ pool_count (uses a) after
  pub kept : (a : ℕ) → pool_count (uses a) pool ≤ pool_count (uses a) after

misfit-false :
    (chunks : List MemoryChunk) (i : ℕ) (chunk : MemoryChunk)
    → count_if misfit chunks ≡ 0
    → get_elem? chunks i ≡ some chunk
    → misfit chunk ≡ false
unfolding count_if
misfit-false [] i chunk h at = absurd (ground arith)
misfit-false (c ∷ chunks) zero chunk h at = ground (arith, h, at)
misfit-false (c ∷ chunks) (suc i) chunk h at = misfit-false chunks i chunk (omega (arith, h)) at

-- Memory from a chunk of the pool that has room.
found-Allocates :
    (i size : ℕ) (align : Bool) (chunk : MemoryChunk) (pool : MemoryPool) (memory : ℕ)
    → IsValid pool
    → size < 2 ^ 62
    → get_elem? pool.chunks i ≡ some chunk
    → plus (place_in align chunk) size ≤ chunk.end
    → Allocates size
        (place_in align chunk)
        pool
        (alloc_with (some (i, chunk)) memory size align pool).1
found-Allocates i size align chunk pool memory v small at room₁ =
    let result = place_in align chunk in
    let fits = v.fits in
    let none_misfit : count_if misfit pool.chunks ≡ 0 = omega (arith, fits) in
    let none_full : count_if misfit pool.fullchunks ≡ 0 = omega (arith, fits) in
    let fit = misfit-false pool.chunks i chunk none_misfit at in
    let exact = place_in_exact align size chunk fit small in
    let room : result + size ≤ chunk.end = omega (arith, exact, room₁) in
    let chunk₁ : MemoryChunk = record chunk { cur = plus result size } in
    let pool₁ : MemoryPool = record pool { chunks = set pool.chunks i chunk₁ } in
    let low = (place_in_bounds align chunk fit).0 in
    let at₁ = get_elem?-set_self pool.chunks i chunk₁ (get_elem?_bound pool.chunks i chunk at) in
    let counted : (p : MemoryChunk → Bool)
        → pool_count p (retire i chunk₁ pool₁) + one (p chunk)
          ≡ pool_count p pool + one (p chunk₁) =
      λ p.
        omega (
          arith,
          retire-count p i chunk₁ pool₁ at₁,
          count_if-set p pool.chunks i chunk chunk₁ at,
        ) in
    let fit₁ : misfit chunk₁ ≡ false = rw exact (ground (arith, fit, low, room)) in
    let held : (a : ℕ) → result ≤ a → a < result + size → holds a chunk ≡ true =
      λ a h g. ground (arith, fit, low, room, h, g) in
    let free : (a : ℕ) → result ≤ a → uses a chunk ≡ false = λ a h. ground (arith, low, h) in
    let used : (a : ℕ) → result ≤ a → a < result + size → uses a chunk₁ ≡ true =
      λ a h g. rw exact (ground (arith, fit, low, h, g)) in
    let more : (a : ℕ) → one (uses a chunk) ≤ one (uses a chunk₁) =
      λ a. rw exact (ground (arith, low)) in
    record {
      valid = record {
        fits = omega (
          arith,
          counted misfit,
          ap (λ (b : Bool). one b) fit,
          ap (λ (b : Bool). one b) fit₁,
          fits,
        );
        apart = λ a. omega (arith, counted (holds a), v.apart a);
      };
      fresh = λ a h g. omega (
        arith,
        v.apart a,
        uses_le a pool.fullchunks none_full,
        uses_lt a pool.chunks i chunk none_misfit at (held a h g) (free a h),
      );
      taken = λ a h g. omega (
        arith,
        counted (uses a),
        ap (λ (b : Bool). one b) (free a h),
        ap (λ (b : Bool). one b) (used a h g),
      );
      kept = λ a. omega (arith, counted (uses a), more a);
    }

-- Memory from a new chunk.
new-Allocates :
    (memory size : ℕ) (align : Bool) (pool : MemoryPool)
    → IsValid pool
    → size < 2 ^ 62
    → memory + chunk_size size ≤ 2 ^ 63
    → ((a : ℕ) → memory ≤ a → a < memory + chunk_size size → pool_count (holds a) pool ≡ 0)
    → Allocates size memory pool (alloc_with none memory size align pool).1
unfolding count_if
new-Allocates memory size align pool v small under unused =
    let room : size ≤ chunk_size size = omega (arith, small) in
    let exact = plus_exact memory size (omega (arith, room, under)) in
    let exact_end = plus_exact memory (chunk_size size) (omega (arith, under)) in
    let chunk₁ : MemoryChunk = record {
      cur = plus memory size;
      end = plus memory (chunk_size size);
      memory = memory;
    } in
    let pool₁ : MemoryPool = record pool { chunks = pool.chunks ++ chunk₁ ∷ [] } in
    let at₁ = get_elem?-append_last pool.chunks chunk₁ in
    let counted : (p : MemoryChunk → Bool)
        → pool_count p (retire (length pool.chunks) chunk₁ pool₁)
          ≡ pool_count p pool + one (p chunk₁) =
      λ p. omega (
        arith,
        retire-count p (length pool.chunks) chunk₁ pool₁ at₁,
        count_if-append p pool.chunks (chunk₁ ∷ []),
      ) in
    let fits = v.fits in
    let fit₁ : misfit chunk₁ ≡ false = rw exact (rw exact_end (ground (arith, room, under))) in
    let none_misfit : count_if misfit pool.chunks ≡ 0 = omega (arith, fits) in
    let none_full : count_if misfit pool.fullchunks ≡ 0 = omega (arith, fits) in
    record {
      valid = record {
        fits = omega (arith, counted misfit, ap (λ (b : Bool). one b) fit₁, fits);
        apart = λ a. elim (Bool-cases (holds a chunk₁)) [
          | inl e ↦
              let low : memory ≤ a = ground (arith, e) in
              let high : a < memory + chunk_size size = ground (arith, e, exact_end) in
              omega (arith, counted (holds a), ap (λ (b : Bool). one b) e, unused a low high)
          | inr e ↦ omega (arith, counted (holds a), ap (λ (b : Bool). one b) e, v.apart a)
        ];
      };
      fresh = λ a h g. omega (
        arith,
        unused a h (omega (arith, h, g, room)),
        uses_le a pool.fullchunks none_full,
        uses_le a pool.chunks none_misfit,
      );
      taken = λ a h g.
          let used : uses a chunk₁ ≡ true = rw exact (ground (arith, h, g)) in
          omega (arith, counted (uses a), ap (λ (b : Bool). one b) used);
      kept = λ a. omega (arith, counted (uses a));
    }

-- From a pool whose chunks do not overlap and end at 2^63 at most, and with malloc returning
-- memory that no chunk holds and that ends at 2^63 at most, an allocation of fewer than 2^62
-- bytes, aligned or not, gives bytes of which none was handed out before and all are now; what was
-- handed out stays so, and the chunks still do not overlap and end at 2^63 at most.
pub alloc_align-Allocates :
    (memory size : ℕ) (align : Bool) (pool : MemoryPool)
    → IsValid pool
    → size < 2 ^ 62
    → memory + chunk_size size ≤ 2 ^ 63
    → ((a : ℕ) → memory ≤ a → a < memory + chunk_size size → pool_count (holds a) pool ≡ 0)
    → Allocates size
        (alloc_align memory size align pool).0
        pool
        (alloc_align memory size align pool).1
unfolding alloc_align
alloc_align-Allocates memory size align pool v small under unused =
    elim (Option-cases (find_chunk size align 0 pool.chunks)) [
      | inl e ↦ rw e (new-Allocates memory size align pool v small under unused)
      | inr ((i, chunk), e) ↦
          let room = find_chunk_room size align 0 pool.chunks i chunk e in
          let is : room.0 ≡ i = omega (arith, room.1.0) in
          rw e (
            found-Allocates i size align chunk pool memory v small
              (ap (λ (j : ℕ). get_elem? pool.chunks j) (sym is) ∙ room.1.1.0) room.1.1.1)
    ]

-- An aligned allocation, where `malloc` returns aligned memory.
alloc_align-aligned :
    (memory size : ℕ) (pool : MemoryPool)
    → memory % 4 ≡ 0
    → (alloc_align memory size true pool).0 % 4 ≡ 0
unfolding alloc_align
alloc_align-aligned memory size pool start =
    elim (Option-cases (find_chunk size true 0 pool.chunks)) [
      | inl e ↦ rw e start
      | inr ((i, chunk), e) ↦ rw e (ground arith)
    ]
