-- ===== src/Pool/Generic.antt =====
-- internal/pool/object_pool.go: GenericPool. The channel of idle objects is a list, oldest first;
-- `created`, `gotten` and `put` are int64 counters, kept as their 64 bits.
use cogame.Base.{
  ℕ, ◌+◌, ◌%◌, ◌^◌, pos, int64, ltb, Bool, ltb_ℤ, List, [], ◌∷◌, ◌++◌, Option, none, some, length,
  if◌then◌else◌,
}

pub record GenericPool {ℓ} (A : Type ℓ) : Type ℓ where
  pub idle : List A
  pub factory : A
  pub reset : Option (A → A)
  pub max_size : ℕ
  pub created : ℕ
  pub gotten : ℕ
  pub returned : ℕ

-- atomic.AddInt64(&counter, 1)
abbrev pub next64 : ℕ → ℕ
next64 n = (n + 1) % 2 ^ 64

-- How a Get goes on: with an object, or by the wait of 100 ms in its second select.
pub data Got {ℓ} (A : Type ℓ) : Type ℓ where
  object : A → GenericPool A → Got A
  waiting : GenericPool A → Got A

module _ {ℓ} {A : Type ℓ} where
  unfoldable pub new : ℕ → A → Option (A → A) → GenericPool A
  new max_size factory reset = record {
    idle = [];
    factory = factory;
    reset = reset;
    max_size = max_size;
    created = 0;
    gotten = 0;
    returned = 0;
  }

  -- `case obj := <-p.pool`, if an object is there.
  unfoldable pub receive : GenericPool A → Option (A × GenericPool A)
  receive p = elim p.idle [ [] ↦ none | x ∷ rest ↦ some (x, record p { idle = rest }) ]

  -- The test of Get that fewer objects than the maximum have been created.
  unfoldable pub may_create : GenericPool A → Bool
  may_create p = ltb_ℤ (int64 p.created) (pos p.max_size)

  -- What Get does after that test, which other goroutines may precede.
  unfoldable pub create : GenericPool A → A × GenericPool A
  create p = (p.factory, record p { created = next64 p.created })

  -- The second step of Get, when no object was idle.
  unfoldable pub create_or_wait : GenericPool A → Got A
  unfolding may_create create
  create_or_wait p = let (x, q) = create p in if may_create p then object x q else waiting p

  -- Get up to its second select.
  unfoldable pub get : GenericPool A → Got A
  unfolding receive create_or_wait
  get p =
      let p1 = record p { gotten = next64 p.gotten } in
      elim (receive p1) [ none ↦ create_or_wait p1 | some (x, p2) ↦ object x p2 ]

  -- `case <-time.After`: an object that no counter counts.
  unfoldable pub time_out : GenericPool A → A × GenericPool A
  time_out p = (p.factory, p)

  abbrev pub reset_with : Option (A → A) → A → A
  reset_with none x = x
  reset_with (some f) x = f x

  -- Put of an object that is not nil; a full channel drops it.
  unfoldable pub put : A → GenericPool A → GenericPool A
  put x p =
      let p1 = record p { returned = next64 p.returned } in
      if ltb (length p.idle) p.max_size
      then record p1 { idle = p.idle ++ (reset_with p.reset x ∷ []) }
      else p1

  unfoldable pub size : GenericPool A → ℕ
  size p = p.created

  unfoldable pub available : GenericPool A → ℕ
  available p = length p.idle

  -- Put while a goroutine waits in the second select of Get: the object goes straight to it.
  unfoldable pub hand_over : A → GenericPool A → A × GenericPool A
  hand_over x p = (reset_with p.reset x, record p { returned = next64 p.returned })
