-- ===== src/Network/Table.antt =====
-- The table of connections in internal/network/tcp_server.go: its keys and the ids in it.
use cogame.Base.{
  ℕ, suc, ◌≤◌, ◌<◌, ◌==◌, List, [], ◌∷◌, none, some, map_option, length, length-insert,
  length-delete, lookup, insert, delete, lookup-insert, lookup-delete, ◌≡◌, refl, ap, arith, All,
  Bool-cases, inl, inr,
}
use cogame.Security.Limiter.{TokenBuckets}
use cogame.Network.Connection.{Connection, close, write}
use cogame.Network.Server.{Connections, close_expired, close_all, write_all}

abbrev pub ids : Connections → List (ℕ × ℕ)
ids [] = []
ids ((key, c) ∷ cs) = (key, c.id) ∷ ids cs

-- Each entry stands under its id, and no id is over n.
abbrev pub Numbered : ℕ → List (ℕ × ℕ) → Type 0
Numbered n = All (λ e. (e.0 ≡ e.1) × (e.0 ≤ n))

abbrev pub Distinct : List (ℕ × ℕ) → Type 0
Distinct [] = Unit
Distinct ((key, id) ∷ m) = (lookup key m ≡ none) × Distinct m

-- At most `size` connections, under different ids of at most n.
pub record IsTable (n size : ℕ) (m : List (ℕ × ℕ)) : Type 0 where
  pub numbered : Numbered n m
  pub distinct : Distinct m
  pub bounded : length m ≤ size

pub lookup-ids :
    (k : ℕ) (cs : Connections)
    → lookup k (ids cs) ≡ map_option (λ (c : Connection). c.id) (lookup k cs)
unfolding lookup
lookup-ids k [] = refl
lookup-ids k ((key, c) ∷ cs) = ground (arith, lookup-ids k cs)

pub ids-insert :
    (k : ℕ) (c : Connection) (cs : Connections) → ids (insert k c cs) ≡ insert k c.id (ids cs)
unfolding insert
ids-insert k c [] = refl
ids-insert k c ((key, d) ∷ cs) = ground (arith, ids-insert k c cs)

pub ids-delete : (k : ℕ) (cs : Connections) → ids (delete k cs) ≡ delete k (ids cs)
unfolding delete
ids-delete k [] = refl
ids-delete k ((key, d) ∷ cs) = ground (arith, ids-delete k cs)

pub Numbered-lookup : (n k : ℕ) (m : List (ℕ × ℕ)) → Numbered n m → n < k → lookup k m ≡ none
unfolding lookup
Numbered-lookup n k [] h lt = refl
Numbered-lookup n k ((key, id) ∷ m) h lt = ground (arith, Numbered-lookup n k m h.1 lt)

Numbered-le : (n n' : ℕ) (m : List (ℕ × ℕ)) → Numbered n m → n ≤ n' → Numbered n' m
Numbered-le n n' [] h le = tt
Numbered-le n n' (e ∷ m) h le = ((h.0.0, omega (arith, h.0.1)), Numbered-le n n' m h.1 le)

Numbered-insert : (n k : ℕ) (m : List (ℕ × ℕ)) → Numbered n m → k ≤ n → Numbered n (insert k k m)
unfolding insert
Numbered-insert n k [] h le = ((refl, le), tt)
Numbered-insert n k ((key, id) ∷ m) h le = elim (Bool-cases (key == k)) [
  | inl hit ↦ rw hit ((refl, le), h.1)
  | inr miss ↦ rw miss (h.0, Numbered-insert n k m h.1 le)
]

Numbered-delete : (n k : ℕ) (m : List (ℕ × ℕ)) → Numbered n m → Numbered n (delete k m)
unfolding delete
Numbered-delete n k [] h = tt
Numbered-delete n k ((key, id) ∷ m) h = elim (Bool-cases (key == k)) [
  | inl hit ↦ rw hit (Numbered-delete n k m h.1)
  | inr miss ↦ rw miss (h.0, Numbered-delete n k m h.1)
]

Distinct-insert : (k id : ℕ) (m : List (ℕ × ℕ)) → Distinct m → Distinct (insert k id m)
unfolding insert lookup
Distinct-insert k id [] h = (refl, tt)
Distinct-insert k id ((key, i) ∷ m) h =
    ground (arith, Distinct-insert k id m h.1, lookup-insert k key id m)

Distinct-delete : (k : ℕ) (m : List (ℕ × ℕ)) → Distinct m → Distinct (delete k m)
unfolding delete
Distinct-delete k [] h = tt
Distinct-delete k ((key, i) ∷ m) h = ground (arith, Distinct-delete k m h.1, lookup-delete k key m)

Numbered-found :
    (n k : ℕ) (m : List (ℕ × ℕ)) (id : ℕ) → Numbered n m → lookup k m ≡ some id → (id ≡ k) × (k ≤ n)
unfolding lookup
Numbered-found n k [] id h found = absurd (ground arith)
Numbered-found n k ((key, i) ∷ m) id h found = elim (Bool-cases (key == k)) [
  | inl hit ↦ ground (arith, hit, h.0.0, h.0.1, found)
  | inr miss ↦ Numbered-found n k m id h.1 (ground (arith, miss, found))
]

close-id : (c : Connection) → (close c).id ≡ c.id
unfolding close
close-id c = ground arith

write-id : (now : ℕ) (bytes : List ℕ) (c : Connection) → (write now bytes c).1.id ≡ c.id
unfolding write
write-id now bytes c = ground arith

length-insert_found :
    (k id : ℕ) (m : List (ℕ × ℕ)) (old : ℕ)
    → lookup k m ≡ some old
    → length (insert k id m) ≡ length m
unfolding insert lookup
length-insert_found k id [] old h = absurd (ground arith)
length-insert_found k id ((key, i) ∷ m) old h = elim (Bool-cases (key == k)) [
  | inl hit ↦ rw hit refl
  | inr miss ↦ rw miss (ap suc (length-insert_found k id m old (ground (arith, miss, h))))
]

-- A new id.
pub IsTable-insert :
    (n size : ℕ) (m : List (ℕ × ℕ))
    → IsTable n size m
    → IsTable (suc n) (suc size) (insert (suc n) (suc n) m)
IsTable-insert n size m v = record {
  numbered =
      Numbered-insert (suc n) (suc n) m (Numbered-le n (suc n) m v.numbered (omega arith))
        (omega arith);
  distinct = Distinct-insert (suc n) (suc n) m v.distinct;
  bounded = omega (arith, length-insert (suc n) (suc n) m, v.bounded);
}

pub IsTable-update :
    (n size k : ℕ) (m : List (ℕ × ℕ)) (old : ℕ)
    → IsTable n size m
    → lookup k m ≡ some old
    → k ≤ n
    → IsTable n size (insert k k m)
IsTable-update n size k m old v found le = record {
  numbered = Numbered-insert n k m v.numbered le;
  distinct = Distinct-insert k k m v.distinct;
  bounded = omega (arith, length-insert_found k k m old found, v.bounded);
}

pub IsTable-delete :
    (n size k : ℕ) (m : List (ℕ × ℕ)) → IsTable n size m → IsTable n size (delete k m)
IsTable-delete n size k m v = record {
  numbered = Numbered-delete n k m v.numbered;
  distinct = Distinct-delete k m v.distinct;
  bounded = omega (arith, length-delete k m, v.bounded);
}

-- The id of an entry is its key.
pub IsTable-lookup :
    (n size k : ℕ) (m : List (ℕ × ℕ)) (id : ℕ)
    → IsTable n size m
    → lookup k m ≡ some id
    → (id ≡ k) × (k ≤ n)
IsTable-lookup n size k m id v found = Numbered-found n k m id v.numbered found

pub ids-close_expired :
    (t : TokenBuckets) (now : ℕ) (cs : Connections) → ids (close_expired t now cs) ≡ ids cs
unfolding close_expired
ids-close_expired t now [] = refl
ids-close_expired t now ((key, c) ∷ cs) = ground (arith, ids-close_expired t now cs, close-id c)

pub ids-close_all : (t : TokenBuckets) (cs : Connections) → ids (close_all t cs) ≡ ids cs
unfolding close_all
ids-close_all t [] = refl
ids-close_all t ((key, c) ∷ cs) = ground (arith, ids-close_all t cs, close-id c)

pub ids-write_all :
    (t : TokenBuckets) (now : ℕ) (bytes : List ℕ) (cs : Connections)
    → ids (write_all t now bytes cs) ≡ ids cs
unfolding write_all
ids-write_all t now bytes [] = refl
ids-write_all t now bytes ((key, c) ∷ cs) =
    ground (arith, ids-write_all t now bytes cs, write-id now bytes c)
