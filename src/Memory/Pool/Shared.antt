-- ===== src/Memory/Pool/Shared.antt =====
-- No block is held twice by those who give back what they hold.
use dynaxis.Base.{
  ◌^◌, u64, ◌≡◌, refl, ap, sym, ◌∙◌, ℕ, zero, suc, ◌+◌, ◌*◌, ◌%◌, ◌≤◌, ◌<◌, true, ◌||◌, Option,
  none, some, List, [], ◌∷◌, if◌then◌else◌, ◌==◌, length, contains, arith, All, two_ways, ==_iff,
  subst, Bool-cases, inl, inr,
}
use native.Mathlib.Nat.{mul-mod_left, mul-le-mul_right}
use dynaxis.Memory.Pool.{
  MemoryPool, Pointer, blocks, create, take_top, acquire, release_at, release,
}

-- A pool, and the blocks that its users hold.
pub record Shared : Type 0 where
  pub pool : MemoryPool
  pub held : List ℕ

abbrev pub remove : List ℕ → ℕ → List ℕ
remove [] b = []
remove (x ∷ xs) b = let rest = remove xs b in if x == b then xs else x ∷ rest

abbrev pub occurrences : List ℕ → ℕ → ℕ
occurrences [] b = 0
occurrences (x ∷ xs) b = let n = occurrences xs b in if x == b then suc n else n

-- A user acquires a block, gives one back that is held, or passes a pointer that is not of the pool.
pub data Use : Type 0 where
  acquires : Use
  gives_back : ℕ → Use
  passes_null passes_outside : Use

abbrev pub keep : Option ℕ × MemoryPool → List ℕ → Shared
keep (none, pool) held = record { pool = pool; held = held }
keep (some b, pool) held = record { pool = pool; held = b ∷ held }

unfoldable pub use_pool : Shared → Use → Shared
use_pool s Use.acquires = keep (acquire s.pool) s.held
use_pool s (Use.gives_back b) =
    if contains s.held b
    then record { pool = release s.pool (Pointer.inside b); held = remove s.held b }
    else s
use_pool s Use.passes_null = record s { pool = release s.pool Pointer.null }
use_pool s Use.passes_outside = record s { pool = release s.pool Pointer.outside }

unfoldable pub use_all : Shared → List Use → Shared
use_all s [] = s
use_all s (u ∷ uses) = use_all (use_pool s u) uses

abbrev pub first : ℕ → ℕ → Shared
first block_size block_count = record { pool = create block_size block_count; held = [] }

-- A block of a pool: a multiple of the size within the memory.
abbrev IsBlock : ℕ → ℕ → ℕ → Type 0
IsBlock size count b = (b % size ≡ 0) × (b < size * count)

occurrences-remove :
    (xs : List ℕ) (b other : ℕ)
    → contains xs b ≡ true
    → occurrences xs other ≡ (
        if b == other
        then suc (occurrences (remove xs b) other)
        else occurrences (remove xs b) other)
occurrences-remove [] b other h = cc
occurrences-remove (x ∷ xs) b other h = ground (arith, occurrences-remove xs b other)

length-remove :
    (xs : List ℕ) (b : ℕ) → contains xs b ≡ true → length xs ≡ suc (length (remove xs b))
length-remove [] b h = cc
length-remove (x ∷ xs) b h = ground (arith, length-remove xs b)

module _ {ℓ} (P : ℕ → Type ℓ) where
  contains-All : (xs : List ℕ) (b : ℕ) → contains xs b ≡ true → All P xs → P b
  contains-All [] b h all = absurd (ground (arith, h))
  contains-All (x ∷ xs) b h all = elim (Bool-cases (x == b)) [
    | inl same ↦ subst P ((==_iff x b).0 same) all.0
    | inr differs ↦ contains-All xs b (ground (arith, h, differs)) all.1
  ]

  remove-All : (xs : List ℕ) (b : ℕ) → All P xs → All P (remove xs b)
  remove-All [] b all = all
  remove-All (x ∷ xs) b all =
      two_ways (All P) (x == b) xs (x ∷ remove xs b) (λ _. all.1)
        (λ _. (all.0, remove-All xs b all.1))

occurrences-blocks-past :
    (size n b : ℕ) → 0 < size → n * size ≤ b → occurrences (blocks size n) b ≡ 0
unfolding blocks
occurrences-blocks-past size zero b h past = refl
occurrences-blocks-past size (suc n) b h past =
    let e : suc n * size ≡ size + n * size = omega arith in
    let before : n * size ≤ b = omega (arith, past, e) in
    ground (arith, h, past, e, occurrences-blocks-past size n b h before)

occurrences-blocks : (size n b : ℕ) → 0 < size → occurrences (blocks size n) b ≤ 1
unfolding blocks
occurrences-blocks size zero b h = omega arith
occurrences-blocks size (suc n) b h = elim (Bool-cases (n * size == b)) [
  | inl last ↦
      let here : n * size ≡ b = (==_iff (n * size) b).0 last in
      ground (arith, last, occurrences-blocks-past size n b h (omega (arith, here)))
  | inr other ↦ ground (arith, other, occurrences-blocks size n b h)
]

blocks-IsBlock :
    (size n count : ℕ) → 0 < size → n ≤ count → All (IsBlock size count) (blocks size n)
unfolding blocks
blocks-IsBlock size zero count h le = tt
blocks-IsBlock size (suc n) count h le =
    let end : suc n * size ≤ count * size = mul-le-mul_right size le in
    let within : n * size < size * count = omega (arith, end, h) in
    ((mul-mod_left n size, within), blocks-IsBlock size n count h (omega (arith, le)))

length-blocks : (size n : ℕ) → length (blocks size n) ≡ n
unfolding blocks
length-blocks size zero = refl
length-blocks size (suc n) = ap suc (length-blocks size n)

-- What the users keep: every block is free or held once, and no other number is.
record IsShared (size count : ℕ) (s : Shared) : Type 0 where
  pub shape :
      (s.pool.block_size ≡ size) × (s.pool.block_count ≡ count) × (s.pool.chunk ≡ size * count)
  pub total : length s.pool.free_list + length s.held ≡ count
  pub are_blocks : All (IsBlock size count) s.pool.free_list × All (IsBlock size count) s.held
  pub once :
      (b : ℕ)
      → occurrences s.pool.free_list b + occurrences s.held b ≡ occurrences (blocks size count) b

acquire-IsShared :
    (size count : ℕ) (pool : MemoryPool) (held free : List ℕ)
    → pool.free_list ≡ free
    → IsShared size count (record { pool = pool; held = held })
    → IsShared size count (keep (take_top pool free) held)
unfolding take_top
acquire-IsShared size count pool held [] same h = h
acquire-IsShared size count pool held (top ∷ rest) same h =
    let all = subst (All (IsBlock size count)) same h.are_blocks.0 in
    record {
      shape = h.shape;
      total = omega (arith, h.total, ap length same);
      are_blocks = (all.1, (all.0, h.are_blocks.1));
      once = λ b. ground (arith, h.once b, same);
    }

-- A block that is held passes every test of `Release`.
release_at-held :
    (size count : ℕ) (s : Shared) (b : ℕ)
    → 0 < size
    → contains s.held b ≡ true
    → IsShared size count s
    → release_at s.pool b ≡ record s.pool { free_list = b ∷ s.pool.free_list }
unfolding release_at
release_at-held size count s b h holds shared =
    let own = contains-All (IsBlock size count) s.held b holds shared.are_blocks.1 in
    let shorter = length-remove s.held b holds in
    let multiple : b % s.pool.block_size ≡ 0 = ap (λ n. b % n) shared.shape.0 ∙ own.0 in
    ground (
      arith, h, shared.shape.0, shared.shape.1, shared.shape.2, own.1, multiple, shorter,
      shared.total,
    )

gives_back-IsShared :
    (size count : ℕ) (s : Shared) (b : ℕ)
    → 0 < size
    → contains s.held b ≡ true
    → IsShared size count s
    → IsShared size count (record { pool = release_at s.pool b; held = remove s.held b })
gives_back-IsShared size count s b h holds shared =
    let own = contains-All (IsBlock size count) s.held b holds shared.are_blocks.1 in
    let shorter = length-remove s.held b holds in
    subst (λ p. IsShared size count (record { pool = p; held = remove s.held b }))
      (sym (release_at-held size count s b h holds shared))
      record {
        shape = shared.shape;
        total = omega (arith, shared.total, shorter);
        are_blocks = (
          (own, shared.are_blocks.0),
          remove-All (IsBlock size count) s.held b shared.are_blocks.1,
        );
        once = λ other. ground (arith, shared.once other, occurrences-remove s.held b other holds);
      }

IsShared-use_pool :
    (size count : ℕ) (s : Shared) (u : Use)
    → 0 < size
    → IsShared size count s
    → IsShared size count (use_pool s u)
unfolding use_pool acquire release
IsShared-use_pool size count s Use.acquires h shared =
    acquire-IsShared size count s.pool s.held s.pool.free_list refl shared
IsShared-use_pool size count s (Use.gives_back b) h shared =
    two_ways (IsShared size count) (contains s.held b)
      (record { pool = release_at s.pool b; held = remove s.held b }) s
      (λ holds. gives_back-IsShared size count s b h holds shared) (λ _. shared)
IsShared-use_pool size count s Use.passes_null h shared = shared
IsShared-use_pool size count s Use.passes_outside h shared = shared

IsShared-use_all :
    (size count : ℕ) (s : Shared) (uses : List Use)
    → 0 < size
    → IsShared size count s
    → IsShared size count (use_all s uses)
unfolding use_all
IsShared-use_all size count s [] h shared = shared
IsShared-use_all size count s (u ∷ uses) h shared =
    IsShared-use_all size count (use_pool s u) uses h (IsShared-use_pool size count s u h shared)

first-IsShared :
    (size count : ℕ)
    → 0 < size
    → 0 < count
    → size * count < 2 ^ 64
    → IsShared size count (first size count)
unfolding create
first-IsShared size count h some_blocks fits =
    let whole : MemoryPool = record {
      block_size = size;
      block_count = count;
      chunk = u64 (size * count);
      free_list = blocks size count;
    } in
    two_ways (λ p. IsShared size count (record { pool = p; held = [] })) (size == 0 || count == 0)
      (record { block_size = size; block_count = 0; chunk = 0; free_list = [] }) whole
      (λ empty. absurd (ground (arith, empty, h, some_blocks)))
      (λ _. record {
        shape = (refl, refl, omega (arith, fits));
        total = omega (arith, length-blocks size count);
        are_blocks = (blocks-IsBlock size count count h (omega arith), tt);
        once = λ b. omega arith;
      })

-- Whatever acquires and releases came before, if only held blocks are released: as many blocks are
-- free or held as the pool has, and every offset is free or held at most once, so that a block that is
-- acquired is held by nobody else. The size and the number of the blocks are not 0, and their product
-- fits 64 bits.
pub occurrences-use_all :
    (size count : ℕ) (uses : List Use) (b : ℕ)
    → 0 < size
    → 0 < count
    → size * count < 2 ^ 64
    → let s = use_all (first size count) uses in
      (length s.pool.free_list + length s.held ≡ count)
      × (occurrences s.pool.free_list b + occurrences s.held b ≤ 1)
occurrences-use_all size count uses b h some_blocks fits =
    let shared =
      IsShared-use_all size count (first size count) uses h
        (first-IsShared size count h some_blocks fits) in
    (shared.total, omega (arith, shared.once b, occurrences-blocks size count b h))
