-- ===== src/Pool/Clean.antt =====
-- What a GenericPool of internal/pool/object_pool.go hands out, after any calls in any order.
use cogame.Base.{
  ℕ, ◌≤◌, ◌≡◌, refl, List, [], ◌∷◌, ◌++◌, Option, none, some, length, length-append, subst, suc,
  All, arith, Bool-cases, Option-cases, inl, inr, ltb,
}
use cogame.Pool.Generic.{
  GenericPool, Got, object, waiting, next64, new, receive, create, may_create, create_or_wait, get,
  time_out, put, hand_over, reset_with,
}

-- One call, a part of a call, or the end of a wait, as goroutines interleave them; a Get yields its
-- object. `creates` is the end of a Get whose test of the counter came any number of steps before.
pub data Step {ℓ} {A : Type ℓ} (p : GenericPool A) : Option A → GenericPool A → Type ℓ where
  creates : (x : A) (q : GenericPool A) → create p ≡ (x, q) → Step p (some x) q
  gets : (x : A) (q : GenericPool A) → get p ≡ object x q → Step p (some x) q
  waits : (q : GenericPool A) → get p ≡ waiting q → Step p none q
  wakes : (x : A) (q : GenericPool A) → receive p ≡ some (x, q) → Step p (some x) q
  times_out : (x : A) (q : GenericPool A) → time_out p ≡ (x, q) → Step p (some x) q
  puts : (x : A) → Step p none (put x p)
  hands : (x y : A) (q : GenericPool A) → hand_over x p ≡ (y, q) → Step p (some y) q

-- The pools that a new one of this size can become.
pub data Reach {ℓ} {A : Type ℓ} (start : GenericPool A) : GenericPool A → Type ℓ where
  here : Reach start start
  next : {p q : GenericPool A} {o : Option A} → Reach start p → Step p o q → Reach start q

-- The idle objects are clean and fit the channel, and what the pool makes and resets is clean.
pub record IsPool {ℓ κ} {A : Type ℓ} (Clean : A → Type κ) (n : ℕ) (p : GenericPool A)
    : Type (ℓ ⊔ κ) where
  pub cleaned : All Clean p.idle
  pub fits : length p.idle ≤ n
  pub bound : p.max_size ≡ n
  pub made : Clean p.factory
  pub resets : (x : A) → Clean (reset_with p.reset x)

All-append {ℓ κ} :
    {A : Type ℓ} (P : A → Type κ) (xs : List A) (x : A) → All P xs → P x → All P (xs ++ x ∷ [])
All-append P [] x h p = (p, tt)
All-append P (y ∷ xs) x h p = (h.0, All-append P xs x h.1 p)

module _ {ℓ κ} {A : Type ℓ} (Clean : A → Type κ) (n : ℕ) where
  new-IsPool :
      (factory : A) (reset : Option (A → A))
      → Clean factory
      → ((x : A) → Clean (reset_with reset x))
      → IsPool Clean n (new n factory reset)
  unfolding new
  new-IsPool factory reset made resets = record {
    cleaned = tt;
    fits = omega arith;
    bound = refl;
    made = made;
    resets = resets;
  }

  -- What a pool, or a pool and an object, must be.
  abbrev Good : Got A → Type (ℓ ⊔ κ)
  Good (object x q) = Clean x × IsPool Clean n q
  Good (waiting q) = IsPool Clean n q

  abbrev GoodReceived : Option (A × GenericPool A) → Type (ℓ ⊔ κ)
  GoodReceived none = Unit
  GoodReceived (some (x, q)) = Clean x × IsPool Clean n q

  create-clean :
      (p : GenericPool A) → IsPool Clean n p → Clean (create p).0 × IsPool Clean n (create p).1
  unfolding create
  create-clean p v = (
    v.made,
    record {
      cleaned = v.cleaned;
      fits = v.fits;
      bound = v.bound;
      made = v.made;
      resets = v.resets;
    },
  )

  create_or_wait-Good : (p : GenericPool A) → IsPool Clean n p → Good (create_or_wait p)
  unfolding create_or_wait
  create_or_wait-Good p v = elim (Bool-cases (may_create p)) [
    | inl passed ↦ rw passed (create-clean p v)
    | inr failed ↦ rw failed v
  ]

  receive-GoodReceived :
      (p : GenericPool A) (xs : List A) → p.idle ≡ xs → IsPool Clean n p → GoodReceived (receive p)
  unfolding receive
  receive-GoodReceived p [] e v = rw (e, receive) tt
  receive-GoodReceived p (x ∷ xs) e v =
      let all : Clean x × All Clean xs = subst (All Clean) e v.cleaned in
      let fits : suc (length xs) ≤ n = subst (λ ys. length ys ≤ n) e v.fits in
      rw (e, receive)
        (
          all.0,
          record {
            cleaned = all.1;
            fits = omega arith;
            bound = v.bound;
            made = v.made;
            resets = v.resets;
          },
        )

  get-Good : (p : GenericPool A) → IsPool Clean n p → Good (get p)
  unfolding get
  get-Good p v =
      let p1 = record p { gotten = next64 p.gotten } in
      let v1 : IsPool Clean n p1 = record {
        cleaned = v.cleaned;
        fits = v.fits;
        bound = v.bound;
        made = v.made;
        resets = v.resets;
      } in
      elim (Option-cases (receive p1)) [
        | inl empty ↦ rw (empty, get) (create_or_wait-Good p1 v1)
        | inr ((x, q), full) ↦
            rw (full, get) (subst GoodReceived full (receive-GoodReceived p1 p1.idle refl v1))
      ]

  put-IsPool : (x : A) (p : GenericPool A) → IsPool Clean n p → IsPool Clean n (put x p)
  unfolding put
  put-IsPool x p v = elim (Bool-cases (ltb (length p.idle) p.max_size)) [
    | inl room ↦ rw room (record {
      cleaned = All-append Clean p.idle (reset_with p.reset x) v.cleaned (v.resets x);
      fits = ground (arith, length-append p.idle (reset_with p.reset x ∷ []), v.bound);
      bound = v.bound;
      made = v.made;
      resets = v.resets;
    })
    | inr full ↦ rw full (record {
      cleaned = v.cleaned;
      fits = v.fits;
      bound = v.bound;
      made = v.made;
      resets = v.resets;
    })
  ]

  time_out-clean :
      (p : GenericPool A) → IsPool Clean n p → Clean (time_out p).0 × IsPool Clean n (time_out p).1
  unfolding time_out
  time_out-clean p v = (v.made, v)

  hand_over-clean :
      (x : A) (p : GenericPool A)
      → IsPool Clean n p
      → Clean (hand_over x p).0 × IsPool Clean n (hand_over x p).1
  unfolding hand_over
  hand_over-clean x p v = (
    v.resets x,
    record {
      cleaned = v.cleaned;
      fits = v.fits;
      bound = v.bound;
      made = v.made;
      resets = v.resets;
    },
  )

  -- What a step yields, and the pool after it.
  abbrev pub GoodStep : Option A → GenericPool A → Type (ℓ ⊔ κ)
  GoodStep none q = Unit {κ} × IsPool Clean n q
  GoodStep (some x) q = Clean x × IsPool Clean n q

  Step-GoodStep :
      {p q : GenericPool A} {o : Option A} → IsPool Clean n p → Step p o q → GoodStep o q
  Step-GoodStep {p} v (creates x q e) =
      subst (λ (r : A × GenericPool A). Clean r.0 × IsPool Clean n r.1) e (create-clean p v)
  Step-GoodStep {p} v (gets x q e) = subst Good e (get-Good p v)
  Step-GoodStep {p} v (waits q e) = (tt, subst Good e (get-Good p v))
  Step-GoodStep {p} v (wakes x q e) = subst GoodReceived e (receive-GoodReceived p p.idle refl v)
  Step-GoodStep {p} v (times_out x q e) =
      subst (λ (r : A × GenericPool A). Clean r.0 × IsPool Clean n r.1) e (time_out-clean p v)
  Step-GoodStep {p} v (puts x) = (tt, put-IsPool x p v)
  Step-GoodStep {p} v (hands x y q e) =
      subst (λ (r : A × GenericPool A). Clean r.0 × IsPool Clean n r.1) e (hand_over-clean x p v)

  Reach-IsPool : {p q : GenericPool A} → IsPool Clean n p → Reach p q → IsPool Clean n q
  Reach-IsPool v here = v
  Reach-IsPool v (next {o = none} r s) = (Step-GoodStep (Reach-IsPool v r) s).1
  Reach-IsPool v (next {o = some x} r s) = (Step-GoodStep (Reach-IsPool v r) s).1

  -- Of a pool made with a factory and a reset function whose objects are clean, any sequence of
  -- Gets, waits, timeouts and Puts, in which a Get may create its object any number of steps after
  -- its test, keeps all idle objects clean and no more than the maximum; and what the next step
  -- yields is clean.
  pub pool_yields_clean :
      (factory : A) (reset : Option (A → A))
      → Clean factory
      → ((x : A) → Clean (reset_with reset x))
      → (p q : GenericPool A) (x : A) → Reach (new n factory reset) p
      → Step p (some x) q
      → Clean x × All Clean q.idle × (length q.idle ≤ n)
  pool_yields_clean factory reset made resets p q x r s =
      let (clean, v) = Step-GoodStep (Reach-IsPool (new-IsPool factory reset made resets) r) s in
      (clean, v.cleaned, v.fits)
