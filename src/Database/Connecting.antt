-- ===== src/Database/Connecting.antt =====
-- What NewMongoManager of internal/database/mongodb/manager.go leaves connected.
use cogame.Base.{
  ℤ, String, true, List, ◌∷◌, Option, none, some, Option-cases, Bool-cases, ◌≡◌, ◌⊎◌, inl, inr,
  refl, ◌∙◌,
}
use cogame.Database.Manager.{
  MongoConfig, ClientOptions, Driver, MongoManager, mode_of, build_options, new_mongo_manager,
  close,
}

-- Connect adds a client where it has no error, and Disconnect of the newest takes it away.
pub record DriverLaws (d : Driver) : Type 0 where
  pub clients : d.World → List d.Client
  pub connect_made :
      (o : ClientOptions) (w : d.World) (c : d.Client)
      → (d.connect o w).0 ≡ some c
      → clients (d.connect o w).1 ≡ c ∷ clients w
  pub connect_failed :
      (o : ClientOptions) (w : d.World)
      → (d.connect o w).0 ≡ none
      → clients (d.connect o w).1 ≡ clients w
  pub clients-ping : (c : d.Client) (w : d.World) → clients (d.ping c w).1 ≡ clients w
  pub clients-disconnect :
      (c : d.Client) (cs : List d.Client) (w : d.World)
      → clients w ≡ c ∷ cs
      → clients (d.disconnect c w) ≡ cs

module _ (d : Driver) (l : DriverLaws d) where
  open d use {World, Client}
  open l use {clients}

  -- What a call without an error gives and leaves.
  abbrev pub Connected :
      (String → Option ℤ) → MongoConfig → World → Option (MongoManager Client) × World → Type 0
  Connected atoi c w res =
      (mm : MongoManager Client) × (o : ClientOptions) × (res.0 ≡ some mm)
      × (mm.mode ≡ mode_of c)
      × (build_options atoi c ≡ some o)
      × ((d.connect o w).0 ≡ some mm.client)
      × ((d.ping mm.client (d.connect o w).1).0 ≡ true)
      × (clients res.1 ≡ mm.client ∷ clients w)
      × (clients (close d mm res.1) ≡ clients w)

  -- NewMongoManager gives a manager of the mode that the configuration names, whose client has
  -- answered and is disconnected by Close, or an error, and then no client is left connected.
  pub new_mongo_manager-Connected :
      (atoi : String → Option ℤ) (c : MongoConfig) (w : World)
      → Connected atoi c w (new_mongo_manager d atoi c w)
        ⊎ (((new_mongo_manager d atoi c w).0 ≡ none)
            × (clients (new_mongo_manager d atoi c w).1 ≡ clients w))
  unfolding new_mongo_manager close
  new_mongo_manager-Connected atoi c w = elim (Option-cases (build_options atoi c)) [
    | inl invalid ↦ rw (invalid, new_mongo_manager) (inr (refl, refl))
    | inr (o, built) ↦ elim (Option-cases (d.connect o w).0) [
      | inl failed ↦ rw (built, new_mongo_manager, failed) (inr (refl, l.connect_failed o w failed))
      | inr (client, made) ↦
          let there : clients (d.ping client (d.connect o w).1).1 ≡ client ∷ clients w =
            l.clients-ping client (d.connect o w).1 ∙ l.connect_made o w client made in
          let gone = l.clients-disconnect client (clients w) _ there in
          elim (Bool-cases (d.ping client (d.connect o w).1).0) [
            | inl alive ↦
                rw (built, new_mongo_manager, made, alive)
                  (inl (
                    record { client = client; config = c; mode = mode_of c },
                    o,
                    refl,
                    refl,
                    refl,
                    made,
                    alive,
                    there,
                    gone,
                  ))
            | inr silent ↦ rw (built, new_mongo_manager, made, silent) (inr (refl, gone))
          ]
    ]
  ]
