-- ===== src/Actor/Order.antt =====
-- The order in which a BaseActor of internal/actor/actor.go handles its messages.
use cogame.Base.{
  ℕ, ◌≤◌, ◌<◌, suc, String, Bool, true, false, List, [], ◌∷◌, ◌++◌, some, length, length-append,
  ◌≡◌, refl, sym, ap, ◌∙◌, arith, subst,
}
use cogame.Actor.Mailbox.{
  BaseActor, new_base_actor, get_mailbox_size, start, receive, leave_loop, stop, tell,
}

module _ {M : Type 0} where
  -- An actor after some calls, with the messages that Tell took and those that OnReceive was given.
  pub data Ran (id kind : String) (n : ℕ) : BaseActor M → List M → List M → Type 0 where
    made : Ran id kind n (new_base_actor id kind n) [] []
    starts :
        (ok : Bool) (a : BaseActor M) (told given : List M)
        → Ran id kind n a told given
        → Ran id kind n (start ok a).1 told given
    stops :
        (ok : Bool) (a : BaseActor M) (told given : List M)
        → Ran id kind n a told given
        → Ran id kind n (stop ok a).1 told given
    leaves :
        (a b : BaseActor M) (told given : List M)
        → Ran id kind n a told given
        → leave_loop a ≡ some b
        → Ran id kind n b told given
    takes :
        (a b : BaseActor M) (msg : M) (told given : List M)
        → Ran id kind n a told given
        → receive a ≡ some (msg, b)
        → Ran id kind n b told (given ++ (msg ∷ []))
    tells :
        (a : BaseActor M) (msg : M) (told given : List M)
        → Ran id kind n a told given
        → (tell msg a).0 ≡ true
        → Ran id kind n (tell msg a).1 (told ++ (msg ∷ [])) given
    refuses :
        (a : BaseActor M) (msg : M) (told given : List M)
        → Ran id kind n a told given
        → (tell msg a).0 ≡ false
        → Ran id kind n (tell msg a).1 told given

  append_assoc : (xs ys zs : List M) → (xs ++ ys) ++ zs ≡ xs ++ (ys ++ zs)
  append_assoc [] ys zs = refl
  append_assoc (x ∷ xs) ys zs = rw (append_assoc xs ys zs)

  start-mailbox :
      (ok : Bool) (a : BaseActor M)
      → ((start ok a).1.mailbox ≡ a.mailbox) × ((start ok a).1.mailbox_size ≡ a.mailbox_size)
  unfolding start
  start-mailbox ok a = ground arith

  stop-mailbox :
      (ok : Bool) (a : BaseActor M)
      → ((stop ok a).1.mailbox ≡ a.mailbox) × ((stop ok a).1.mailbox_size ≡ a.mailbox_size)
  unfolding stop
  stop-mailbox ok a = ground arith

  leave_loop-mailbox :
      (a b : BaseActor M)
      → leave_loop a ≡ some b
      → (b.mailbox ≡ a.mailbox) × (b.mailbox_size ≡ a.mailbox_size)
  unfolding leave_loop
  leave_loop-mailbox a b h = ground arith

  receive-mailbox :
      (a b : BaseActor M) (msg : M)
      → receive a ≡ some (msg, b)
      → (a.mailbox ≡ msg ∷ b.mailbox) × (b.mailbox_size ≡ a.mailbox_size)
  unfolding receive
  receive-mailbox a b msg h = ground arith

  tell-mailbox :
      (a : BaseActor M) (msg : M)
      → (tell msg a).0 ≡ true
      → ((tell msg a).1.mailbox ≡ a.mailbox ++ (msg ∷ []))
        × ((tell msg a).1.mailbox_size ≡ a.mailbox_size)
        × (length a.mailbox < a.mailbox_size)
  unfolding tell
  tell-mailbox a msg h = ground arith

  tell-refused : (a : BaseActor M) (msg : M) → (tell msg a).0 ≡ false → (tell msg a).1 ≡ a
  unfolding tell
  tell-refused a msg h = ground arith

  abbrev Kept : ℕ → BaseActor M → List M → List M → Type 0
  Kept n a told given = (told ≡ given ++ a.mailbox) × (length a.mailbox ≤ n) × (a.mailbox_size ≡ n)

  Kept-same :
      (n : ℕ) (a b : BaseActor M) (told given : List M)
      → (b.mailbox ≡ a.mailbox) × (b.mailbox_size ≡ a.mailbox_size)
      → Kept n a told given
      → Kept n b told given
  Kept-same n a b told given (em, es) (e, le, size) =
      (e ∙ ap (λ (box : List M). given ++ box) (sym em), rw em le, es ∙ size)

  Ran-Kept :
      (id kind : String) (n : ℕ) (a : BaseActor M) (told given : List M)
      → Ran id kind n a told given
      → Kept n a told given
  unfolding new_base_actor
  Ran-Kept id kind n _ _ _ made = (refl, omega arith, refl)
  Ran-Kept id kind n _ _ _ (starts ok a told given r) =
      Kept-same n a (start ok a).1 told given (start-mailbox ok a)
        (Ran-Kept id kind n a told given r)
  Ran-Kept id kind n _ _ _ (stops ok a told given r) =
      Kept-same n a (stop ok a).1 told given (stop-mailbox ok a) (Ran-Kept id kind n a told given r)
  Ran-Kept id kind n _ _ _ (leaves a b told given r e) =
      Kept-same n a b told given (leave_loop-mailbox a b e) (Ran-Kept id kind n a told given r)
  Ran-Kept id kind n _ _ _ (takes a b msg told given r e) =
      let (kept, le, size) = Ran-Kept id kind n a told given r in
      let (em, es) = receive-mailbox a b msg e in
      let shorter : length a.mailbox ≡ suc (length b.mailbox) =
        ap (λ (box : List M). length box) em in
      (
        kept
            ∙ ap (λ (box : List M). given ++ box) em
            ∙ sym (append_assoc given (msg ∷ []) b.mailbox),
        omega (arith, le, shorter),
        es ∙ size,
      )
  Ran-Kept id kind n _ _ _ (tells a msg told given r e) =
      let (kept, le, size) = Ran-Kept id kind n a told given r in
      let (em, es, room) = tell-mailbox a msg e in
      (
        ap (λ (ms : List M). ms ++ (msg ∷ [])) kept
            ∙ append_assoc given a.mailbox (msg ∷ [])
            ∙ ap (λ (box : List M). given ++ box) (sym em),
        rw em (omega (arith, length-append a.mailbox (msg ∷ []), room, size)),
        es ∙ size,
      )
  Ran-Kept id kind n _ _ _ (refuses a msg told given r e) =
      subst (λ (b : BaseActor M). Kept n b told given) (sym (tell-refused a msg e))
        (Ran-Kept id kind n a told given r)

  -- Whatever calls are made of an actor, and however its loop runs, OnReceive is given the messages
  -- that Tell took in their order, each once: what it was not given yet is in the mailbox, which
  -- never holds more than its size.
  pub Ran-get_mailbox_size :
      (id kind : String) (n : ℕ) (a : BaseActor M) (told given : List M)
      → Ran id kind n a told given
      → (told ≡ given ++ a.mailbox) × (get_mailbox_size a ≤ n)
  unfolding get_mailbox_size
  Ran-get_mailbox_size id kind n a told given r =
      let (kept, le, size) = Ran-Kept id kind n a told given r in (kept, le)
