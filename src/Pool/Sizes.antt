-- ===== src/Pool/Sizes.antt =====
-- GetBuffer and PutBuffer of internal/pool/byte_buffer_pool.go never fail and give what was asked.
use cogame.Base.{
  ℕ, zero, suc, ◌≤◌, ◌≡◌, refl, leb, ◌==◌, List, [], ◌∷◌, Option, none, some, length,
  length-replicate, All, arith, Bool-cases, Option-cases, inl, inr, ◌⊎◌, ==_iff, lookup, insert,
  lookup-insert, ◌∙◌, subst,
}
use cogame.Pool.Buffers.{ByteBufferPool, size_class, take_at, sync_get, has_size}

-- A size is one of the list.
abbrev pub Has : ℕ → List ℕ → Type 0
Has s [] = ⊥
Has s (x ∷ xs) = (x ≡ s) ⊎ Has s xs

-- Every size has a sub-pool, and its arrays are of that size.
pub record IsBuffers (p : ByteBufferPool) : Type 0 where
  pub has_pool :
      (s : ℕ) → Has s p.sizes → (arrays : List (List ℕ)) × (lookup s p.pools ≡ some arrays)
  pub all_sized :
      (s : ℕ) (arrays : List (List ℕ))
      → lookup s p.pools ≡ some arrays
      → All (λ a. length a ≡ s) arrays

-- The class of a size is the least that holds it, or there is none.
pub size_class-least :
    (size : ℕ) (ss : List ℕ) (s : ℕ) → size_class size ss ≡ some s → (size ≤ s) × Has s ss
unfolding size_class
size_class-least size [] s h = absurd (ground arith)
size_class-least size (x ∷ ss) s h = elim (Bool-cases (leb size x)) [
  | inl fits ↦ let e : x ≡ s = ground (arith, fits) in (ground (arith, fits), inl e)
  | inr no_fit ↦
      let (le, has) = size_class-least size ss s (ground (arith, no_fit)) in (le, inr has)
]

pub Has-has_size : (cap : ℕ) (ss : List ℕ) (s : ℕ) → has_size cap ss ≡ some s → (cap ≡ s) × Has s ss
unfolding has_size
Has-has_size cap [] s h = absurd (ground arith)
Has-has_size cap (x ∷ ss) s h = elim (Bool-cases (cap == x)) [
  | inl hit ↦ let e : x ≡ s = ground (arith, hit) in (ground (arith, hit), inl e)
  | inr miss ↦ let (eq, has) = Has-has_size cap ss s (ground (arith, miss)) in (eq, inr has)
]

-- The part that is taken and the part that stays satisfy what the whole did.
abbrev Taken : (List ℕ → Type 0) → Option (List ℕ × List (List ℕ)) → Type 0
Taken P none = Unit
Taken P (some (a, rest)) = P a × All P rest

Taken-cons :
    (P : List ℕ → Type 0) (a : List ℕ) (o : Option (List ℕ × List (List ℕ)))
    → P a
    → Taken P o
    → Taken P (elim o [ none ↦ none | some (b, rest) ↦ some (b, a ∷ rest) ])
Taken-cons P a none h t = tt
Taken-cons P a (some (b, rest)) h t = (t.0, (h, t.1))

take_at-Taken :
    (P : List ℕ → Type 0) (i : ℕ) (arrays : List (List ℕ))
    → All P arrays
    → Taken P (take_at i arrays)
unfolding take_at
take_at-Taken P zero [] h = tt
take_at-Taken P (suc i) [] h = tt
take_at-Taken P zero (a ∷ arrays) h = (h.0, h.1)
take_at-Taken P (suc i) (a ∷ arrays) h =
    Taken-cons P a (take_at i arrays) h.0 (take_at-Taken P i arrays h.1)

pub sync_get-sized :
    (choice s : ℕ) (arrays : List (List ℕ))
    → All (λ a. length a ≡ s) arrays
    → (length (sync_get choice s arrays).0 ≡ s)
      × All (λ a. length a ≡ s) (sync_get choice s arrays).1
unfolding sync_get
sync_get-sized choice s arrays h =
    let t = take_at-Taken (λ a. length a ≡ s) choice arrays h in
    elim (Option-cases (take_at choice arrays)) [
      | inl e ↦ rw (e, sync_get) (length-replicate s 0, h)
      | inr ((a, rest), e) ↦ rw (e, sync_get) (subst (Taken (λ b. length b ≡ s)) e t)
    ]

pub insert-IsBuffers :
    (p : ByteBufferPool) (s : ℕ) (arrays : List (List ℕ))
    → IsBuffers p
    → All (λ a. length a ≡ s) arrays
    → IsBuffers (record p { pools = insert s arrays p.pools })
insert-IsBuffers p s arrays v h = record {
  has_pool = λ t has. elim (Bool-cases (s == t)) [
    | inl hit ↦ (arrays, lookup-insert s t arrays p.pools ∙ rw hit refl)
    | inr miss ↦
        let (old, e) = v.has_pool t has in (old, lookup-insert s t arrays p.pools ∙ rw miss e)
  ];
  all_sized = λ t found e. elim (Bool-cases (s == t)) [
    | inl hit ↦
        let same : arrays ≡ found = ground (arith, e, hit, lookup-insert s t arrays p.pools) in
        let at : s ≡ t = (==_iff s t).0 hit in
        subst (λ k. All (λ a. length a ≡ k) found) at (subst (All (λ a. length a ≡ s)) same h)
    | inr miss ↦ v.all_sized t found (ground (arith, e, miss, lookup-insert s t arrays p.pools))
  ];
}
