-- ===== src/Database/Memory.antt =====
-- A MongoDB in memory, which meets the laws that Database/Mongo states: a list of rooms with
-- distinct room ids, a list of users, a clock that ticks, and calls that always succeed.
use cogame.Base.{
  ℕ, zero, suc, ◌+◌, ◌≤◌, eqb_ℤ, eqb_ℤ→eq, ap, ◌∙◌, subst, inl, inr, Bool-cases, Option-cases,
  eq_of_some, All, take, length-take, true, List, [], ◌∷◌, Option, none, some, ◌≡◌, refl, ◌==◌,
  arith, if◌then◌else◌, length,
}
use mathlib.Core.Option
use cogame.Model.{Room, User}
use cogame.Database.Mongo.{
  Mongo, MongoLaws, MongoListLaws, Filter, Reply, document, no_documents, Operator, KeepsId,
  apply_operators, push_players, pull_players, inc_current_players, set_updated_at, set_document,
}

pub record World : Type 0 where
  pub rooms : List Room
  pub users : List User
  pub time : ℕ

abbrev pub find_room : ℕ → List Room → Option Room
find_room k [] = none
find_room k (r ∷ rs) = if r.room_id == k then some r else find_room k rs

abbrev pub find_user : ℕ → List User → Option User
find_user k [] = none
find_user k (u ∷ us) = if u.user_id == k then some u else find_user k us

abbrev update : ℕ → List Operator → List Room → List Room
update k os [] = []
update k os (r ∷ rs) = if r.room_id == k then apply_operators os r ∷ rs else r ∷ update k os rs

abbrev remove : ℕ → List Room → List Room
remove k [] = []
remove k (r ∷ rs) = if r.room_id == k then remove k rs else r ∷ remove k rs

-- The rooms of the ids in a list that match the filter's status.
abbrev pub matching : Filter → List Room → List Room → List Room
matching f all [] = []
matching f all (r ∷ rs) =
    let rest = matching f all rs in
    elim (find_room r.room_id all) [
      | none ↦ rest
      | some room ↦ if eqb_ℤ room.status f.status then room ∷ rest else rest
    ]

abbrev reply : {A : Type 0} → Option A → Reply A
reply none = no_documents
reply (some a) = document a

abbrev insert : Option Room → Room → World → Option ℕ × World
insert (some _) r w = (none, w)
insert none r w = (some 1, record w { rooms = record r { id = 1 } ∷ w.rooms })

abbrev pub memory : Mongo
memory = record {
  World = World;
  clock = λ w. (w.time, record w { time = w.time + 1 });
  find_room = λ k w. (reply (find_room k w.rooms), w);
  insert_room = λ r w. insert (find_room r.room_id w.rooms) r w;
  update_room = λ k os w. (true, record w { rooms = update k os w.rooms });
  delete_room = λ k w. (true, record w { rooms = remove k w.rooms });
  find_rooms = λ f limit skip w. (some (take limit (matching f w.rooms w.rooms)), w);
  count_rooms = λ f w. (some (length w.rooms), w);
  find_user = λ k w. (reply (find_user k w.users), w);
}

room_id-apply_operators :
    (k : ℕ) (os : List Operator) (r : Room)
    → KeepsId k os
    → r.room_id ≡ k
    → (apply_operators os r).room_id ≡ k
room_id-apply_operators k [] r h e = e
room_id-apply_operators k (push_players p ∷ os) r h e = room_id-apply_operators k os _ h e
room_id-apply_operators k (pull_players p ∷ os) r h e = room_id-apply_operators k os _ h e
room_id-apply_operators k (inc_current_players p ∷ os) r h e = room_id-apply_operators k os _ h e
room_id-apply_operators k (set_updated_at p ∷ os) r h e = room_id-apply_operators k os _ h e
room_id-apply_operators k (set_document p ∷ os) r h e = room_id-apply_operators k os _ h.1 h.0

pub find_room-room_id :
    (k : ℕ) (rs : List Room) (r : Room) → find_room k rs ≡ some r → r.room_id ≡ k
find_room-room_id k [] r h = absurd (ground arith)
find_room-room_id k (x ∷ rs) r h = ground (arith, find_room-room_id k rs r)

pub find_room-update :
    (k : ℕ) (os : List Operator) (rs : List Room) (j : ℕ)
    → KeepsId k os
    → find_room j (update k os rs)
      ≡ (if k == j then Option.map (apply_operators os) (find_room k rs) else find_room j rs)
find_room-update k os [] j h = ground arith
find_room-update k os (r ∷ rs) j h =
    ground (arith, find_room-update k os rs j h, room_id-apply_operators k os r h)

pub find_room-remove :
    (k : ℕ) (rs : List Room) (j : ℕ)
    → find_room j (remove k rs) ≡ (if k == j then none else find_room j rs)
find_room-remove k [] j = ground arith
find_room-remove k (r ∷ rs) j = ground (arith, find_room-remove k rs j)

pub reply_document : {A : Type 0} (o : Option A) (a : A) → reply o ≡ document a → o ≡ some a
reply_document none a h = absurd (ground arith)
reply_document (some b) a h = ground arith

pub reply_no_documents : {A : Type 0} (o : Option A) → reply o ≡ no_documents → o ≡ none
reply_no_documents none h = refl
reply_no_documents (some b) h = absurd (ground arith)

pub find_room-insert :
    (o : Option Room) (r : Room) (w : World) (i j : ℕ)
    → (insert o r w).0 ≡ some i
    → find_room j (insert o r w).1.rooms
      ≡ (if r.room_id == j then some (record r { id = i }) else find_room j w.rooms)
find_room-insert none r w i j h = ground arith
find_room-insert (some _) r w i j h = absurd (ground arith)

pub insert_fresh :
    (o : Option Room) (r : Room) (w : World) (i : ℕ) → (insert o r w).0 ≡ some i → o ≡ none
insert_fresh none r w i h = refl
insert_fresh (some _) r w i h = absurd (ground arith)

matching-stored :
    (f : Filter) (all rs : List Room)
    → All (λ r. (find_room r.room_id all ≡ some r) × (r.status ≡ f.status)) (matching f all rs)
matching-stored f all [] = tt
matching-stored f all (r ∷ rs) = elim (Option-cases (find_room r.room_id all)) [
  | inl absent ↦ rw (absent, All) (matching-stored f all rs)
  | inr (room, found) ↦
      let itself : find_room room.room_id all ≡ some room =
        ap (λ k. find_room k all) (find_room-room_id r.room_id all room found) ∙ found in
      elim (Bool-cases (eqb_ℤ room.status f.status)) [
        | inl same ↦
            rw (found, same, All)
              ((itself, eqb_ℤ→eq room.status f.status same), matching-stored f all rs)
        | inr other ↦ rw (found, other, All) (matching-stored f all rs)
      ]
]

All-take {κ} : {A : Type 0} (P : A → Type κ) (n : ℕ) (xs : List A) → All P xs → All P (take n xs)
All-take P zero xs h = tt
All-take P (suc n) [] h = tt
All-take P (suc n) (x ∷ xs) h = (h.0, All-take P n xs h.1)

found-stored :
    (f : Filter) (limit : ℕ) (all rs : List Room)
    → some (take limit (matching f all all)) ≡ some rs
    → All (λ r. (find_room r.room_id all ≡ some r) × (r.status ≡ f.status)) rs
found-stored f limit all rs e =
    subst (All (λ r. (find_room r.room_id all ≡ some r) × (r.status ≡ f.status))) (eq_of_some e)
      (All-take _ limit (matching f all all) (matching-stored f all all))

found-length :
    (f : Filter) (limit : ℕ) (all rs : List Room)
    → some (take limit (matching f all all)) ≡ some rs
    → length rs ≤ limit
found-length f limit all rs e =
    omega (arith, ap length (eq_of_some e), length-take limit (matching f all all))

abbrev pub memory_laws : MongoLaws memory
memory_laws = record {
  rooms = λ w k. find_room k w.rooms;
  rooms-clock = λ w j. refl;
  rooms-find_room = λ k w j. refl;
  rooms-find_user = λ k w j. refl;
  find_room-document = λ k w r h. reply_document (find_room k w.rooms) r h;
  find_room-no_documents = λ k w h. reply_no_documents (find_room k w.rooms) h;
  rooms-room_id = λ k w r h. find_room-room_id k w.rooms r h;
  rooms-insert_room = λ r w i j h. find_room-insert (find_room r.room_id w.rooms) r w i j h;
  insert_room_fresh = λ r w i h. insert_fresh (find_room r.room_id w.rooms) r w i h;
  rooms-update_room = λ k os w j keeps h. find_room-update k os w.rooms j keeps;
  rooms-delete_room = λ k w j h. find_room-remove k w.rooms j;
}

pub memory_list_laws : MongoListLaws memory memory_laws
memory_list_laws = record {
  rooms-find_rooms = λ f limit skip w j. refl;
  rooms-count_rooms = λ f w j. refl;
  find_rooms-stored = λ f limit skip w rs e. found-stored f limit w.rooms rs e;
  find_rooms-length = λ f limit skip w rs some_limit e. found-length f limit w.rooms rs e;
}
