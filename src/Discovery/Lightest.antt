-- ===== src/Discovery/Lightest.antt =====
-- WeightedLoadBalancer of internal/discovery/etcd.go.
use cogame.Base.{
  ℕ, zero, suc, ℤ, ◌≤ℤ◌, ltb_ℤ, str_eq, true, false, ◌&&◌, List, [], ◌∷◌, Option, none, some, All,
  get_elem?, ◌≡◌, ◌⊎◌, inl, inr, refl, arith, Bool-cases,
}
use cogame.Discovery.Balance.{ServiceInfo, max_int, lightest_online, select_by_load}

abbrev pub IsOnline : ServiceInfo → Type 0
IsOnline s = str_eq s.status "online" ≡ true

-- Nothing that is online is below a load.
abbrev pub NoneBelow : ℤ → List ServiceInfo → Type 0
NoneBelow least = All (λ s. IsOnline s → least ≤ℤ s.load)

-- The service is in the list, online, below the load, and no online one has less.
abbrev pub IsLightest : ℤ → List ServiceInfo → ServiceInfo → Type 0
IsLightest limit services x =
    ((i : ℕ) × (get_elem? services i ≡ some x))
    × IsOnline x
    × (ltb_ℤ x.load limit ≡ true)
    × NoneBelow x.load services

-- What the loop finds, from what it had found.
abbrev Found : ℤ → Option ServiceInfo → List ServiceInfo → Option ServiceInfo → Type 0
Found limit best services result =
    ((result ≡ best) × NoneBelow limit services)
    ⊎ ((x : ServiceInfo) × (result ≡ some x) × IsLightest limit services x)

IsOnline-of :
    (s : ServiceInfo) (limit : ℤ)
    → (str_eq s.status "online" && ltb_ℤ s.load limit) ≡ true
    → IsOnline s
IsOnline-of s limit h = ground arith

less_of :
    (s : ServiceInfo) (limit : ℤ)
    → (str_eq s.status "online" && ltb_ℤ s.load limit) ≡ true
    → ltb_ℤ s.load limit ≡ true
less_of s limit h = ground arith

less_le : (x s : ServiceInfo) → ltb_ℤ x.load s.load ≡ true → x.load ≤ℤ s.load
less_le x s h = ground arith

less_trans :
    (x s : ServiceInfo) (limit : ℤ)
    → ltb_ℤ x.load s.load ≡ true
    → ltb_ℤ s.load limit ≡ true
    → ltb_ℤ x.load limit ≡ true
less_trans x s limit h k = ground arith

not_below :
    (s : ServiceInfo) (limit : ℤ)
    → IsOnline s
    → (str_eq s.status "online" && ltb_ℤ s.load limit) ≡ false
    → limit ≤ℤ s.load
not_below s limit up h = ground arith

below_not :
    (x s : ServiceInfo) (limit : ℤ) → ltb_ℤ x.load limit ≡ true → limit ≤ℤ s.load → x.load ≤ℤ s.load
below_not x s limit h k = ground arith

lightest_online-Found :
    (limit : ℤ) (best : Option ServiceInfo) (services : List ServiceInfo)
    → Found limit best services (lightest_online limit best services)
unfolding lightest_online
lightest_online-Found limit best [] = inl (refl, tt)
lightest_online-Found limit best (s ∷ ss) =
    elim (Bool-cases (str_eq s.status "online" && ltb_ℤ s.load limit)) [
      | inl better ↦ rw better (elim (lightest_online-Found s.load (some s) ss) [
        | inl (same, rest) ↦ inr (
          s,
          same,
          (
            (zero, refl),
            IsOnline-of s limit better,
            less_of s limit better,
            ((λ up. omega arith), rest),
          ),
        )
        | inr (x, found, ((i, at), up, less, rest)) ↦ inr (
          x,
          found,
          (
            (suc i, at),
            up,
            less_trans x s limit less (less_of s limit better),
            ((λ up_s. less_le x s less), rest),
          ),
        )
      ])
      | inr worse ↦ rw worse (elim (lightest_online-Found limit best ss) [
        | inl (same, rest) ↦ inl (same, ((λ up. not_below s limit up worse), rest))
        | inr (x, found, ((i, at), up, less, rest)) ↦ inr (
          x,
          found,
          (
            (suc i, at),
            up,
            less,
            ((λ up_s. below_not x s limit less (not_below s limit up_s worse)), rest),
          ),
        )
      ])
    ]

-- Of services, Select gives one that is online and has no more load than any that is online, or,
-- where no online service has less than the greatest load that an int holds, the first.
pub select_by_load-IsLightest :
    (s : ServiceInfo) (ss : List ServiceInfo)
    → ((x : ServiceInfo) × (select_by_load (s ∷ ss) ≡ some x) × IsLightest max_int (s ∷ ss) x)
      ⊎ ((select_by_load (s ∷ ss) ≡ some s) × NoneBelow max_int (s ∷ ss))
unfolding select_by_load
select_by_load-IsLightest s ss = elim (lightest_online-Found max_int none (s ∷ ss)) [
  | inl (nothing, rest) ↦ inr (rw (nothing, select_by_load) refl, rest)
  | inr (x, found, light) ↦ inl (x, rw (found, select_by_load) refl, light)
]
