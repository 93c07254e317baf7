-- ===== src/Memory/Tests.antt =====
-- The theorem about the memory pool at a concrete use, and what a block released twice does.
use dynaxis.Base.{◌≡◌, refl, ◌+◌, ◌≤◌, some, List, [], ◌∷◌, arith, length}
use dynaxis.Memory.Pool.{
  MemoryPool, Pointer, blocks, create, take_top, acquire, release_at, release,
}
use dynaxis.Memory.Pool.Shared.{Use, first, use_pool, use_all, occurrences, occurrences-use_all}

-- Two blocks of 16 bytes are acquired, and one is given back and acquired again.
abbrev uses : List Use
uses = Use.acquires ∷ Use.acquires ∷ Use.gives_back 16 ∷ Use.passes_outside ∷ Use.acquires ∷ []

held_last : (use_all (first 16 2) uses).held ≡ 16 ∷ 0 ∷ []
unfolding use_all use_pool acquire take_top release release_at create blocks
held_last = refl

occurrences-use_all_example :
    let s = use_all (first 16 2) uses in
    (length s.pool.free_list + length s.held ≡ 2)
    × (occurrences s.pool.free_list 16 + occurrences s.held 16 ≤ 1)
occurrences-use_all_example =
    occurrences-use_all 16 2 uses 16 (omega arith) (omega arith) (omega arith)

-- The pool of two blocks after the block at 16 is acquired and released twice.
abbrev twice : MemoryPool
twice =
    let taken = (acquire (acquire (create 16 2)).1).1 in
    release (release taken (Pointer.inside 16)) (Pointer.inside 16)

-- The block is then handed out twice.
released_twice : ((acquire twice).0 ≡ some 16) × ((acquire (acquire twice).1).0 ≡ some 16)
unfolding acquire take_top release release_at create blocks
released_twice = (refl, refl)
