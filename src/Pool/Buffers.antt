-- ===== src/Pool/Buffers.antt =====
-- internal/pool/byte_buffer_pool.go: ByteBufferPool. A buffer is its whole array and the length of
-- its slice. A sync.Pool may give back any array that was put, or make a new one: which one is the
-- argument `choice` of GetBuffer.
use cogame.Base.{
  ℕ, zero, suc, leb, ◌==◌, List, [], ◌∷◌, Option, none, some, length, replicate, if◌then◌else◌,
  lookup, insert,
}

pub record Buffer : Type 0 where
  pub array : List ℕ
  pub len : ℕ

-- The sub-pools by size; a size that has none is a nil pointer.
pub record ByteBufferPool : Type 0 where
  pub pools : List (ℕ × List (List ℕ))
  pub sizes : List ℕ

abbrev pub sizes : List ℕ
sizes = 64 ∷ 256 ∷ 1024 ∷ 4096 ∷ 16384 ∷ 65536 ∷ []

-- The loop of NewByteBufferPool over the sizes.
unfoldable pub make_pools : List ℕ → List (ℕ × List (List ℕ))
make_pools [] = []
make_pools (s ∷ ss) = insert s [] (make_pools ss)

unfoldable pub new : ByteBufferPool
unfolding make_pools
new = record { pools = make_pools sizes; sizes = sizes }

-- The loop of GetBuffer: the first size that is large enough.
unfoldable pub size_class : ℕ → List ℕ → Option ℕ
size_class size [] = none
size_class size (s ∷ ss) = if leb size s then some s else size_class size ss

-- An element and the others.
unfoldable pub take_at : ℕ → List (List ℕ) → Option (List ℕ × List (List ℕ))
take_at i [] = none
take_at zero (a ∷ others) = some (a, others)
take_at (suc i) (a ∷ others) = elim (take_at i others) [
  | none ↦ none
  | some (b, rest) ↦ some (b, a ∷ rest)
]

-- sync.Pool.Get with the factory of the sub-pool.
unfoldable pub sync_get : ℕ → ℕ → List (List ℕ) → List ℕ × List (List ℕ)
unfolding take_at
sync_get choice s arrays = elim (take_at choice arrays) [
  | none ↦ (replicate s 0, arrays)
  | some (a, rest) ↦ (a, rest)
]

-- buf[:size], which panics past the capacity.
unfoldable pub slice_to : ℕ → List ℕ → Option Buffer
slice_to size array =
    if leb size (length array) then some (record { array = array; len = size }) else none

-- `none` is a panic.
unfoldable pub get_buffer : ℕ → ℕ → ByteBufferPool → Option (Buffer × ByteBufferPool)
unfolding size_class sync_get slice_to
get_buffer choice size p = elim (size_class size p.sizes) [
  | none ↦ some (record { array = replicate size 0; len = size }, p)
  | some s ↦ elim (lookup s p.pools) [
    | none ↦ none
    | some arrays ↦
        let (array, rest) = sync_get choice s arrays in
        elim (slice_to size array) [
          | none ↦ none
          | some buf ↦ some (buf, record p { pools = insert s rest p.pools })
        ]
  ]
]

-- The loop of PutBuffer: whether the capacity is one of the sizes.
unfoldable pub has_size : ℕ → List ℕ → Option ℕ
has_size cap [] = none
has_size cap (s ∷ ss) = if cap == s then some s else has_size cap ss

unfoldable pub put_buffer : Buffer → ByteBufferPool → Option ByteBufferPool
unfolding has_size
put_buffer buf p = elim (has_size (length buf.array) p.sizes) [
  | none ↦ some p
  | some s ↦ elim (lookup s p.pools) [
    | none ↦ none
    | some arrays ↦ some (record p { pools = insert s (buf.array ∷ arrays) p.pools })
  ]
]
