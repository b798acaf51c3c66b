-- ===== src/Update/Coordinator/Flags.antt =====
-- What the status of the coordinator of internal/managerupdate/coordinator.go says, however its calls
-- interleave.
use longhub_manager.Common.{
  ℕ, zero, suc, ◌≡◌, refl, sym, ap, inl, inr, Bool, true, false, not, ◌&&◌, ◌||◌, Option, none,
  some, List, [], ◌∷◌, Text, Result, ok, err, is_empty, if◌then◌else◌, Bool-cases, arith, text_eq,
  lit, All,
}
use longhub_manager.Update.Errors.{UpdateError, update_unavailable}
use longhub_manager.Update.Version.{version_pattern}
use longhub_manager.Update.Manifest.{Formats, identity_pattern}
use longhub_manager.Update.Recovery.{Storage}
use longhub_manager.Update.Host.{Host}
use longhub_manager.Update.Client.{Candidate, Client}
use longhub_manager.Update.Download.{download}
use longhub_manager.Update.Coordinator.{
  Coordinator, failing, refreshed, received, offered, settled, initial, new_coordinator, status,
}
use longhub_manager.Update.Coordinator.Sections.{
  System, pick, Event, refresh_ends, download_begins, download_ends, apply_ends, begun, arrived,
  step, after_events,
}
use longhub_manager.Update.Coordinator.Told.{
  IsTold, IsFair, check-IsFair, received-IsTold, settled-IsTold, refreshed-IsTold,
}

abbrev pub IsOffered : Candidate → Type 0
IsOffered x = (x.available ≡ true) × (x.eligible ≡ true)

abbrev is_made : Result UpdateError Coordinator → Bool
is_made (ok _) = true
is_made (err _) = false

module _ (f : Formats) (st : Storage) (h : Host st.Env) where
  open st use {Env}

  module _ (client : Client) (root : Text) where
    -- The path is what a download of an offered candidate returned.
    abbrev pub IsDownloaded : Text → Type 0
    IsDownloaded path =
        (x : Candidate) × (env : Env) × IsOffered x × ((download f h client x root env).0 ≡ ok path)

    record IsSound (s : System) : Type 0 where
      same_client : s.coordinator.client ≡ client
      same_root : s.coordinator.update_root ≡ root
      told : IsTold (status s.coordinator)
      on_their_way : All IsOffered s.downloads
      origin :
          is_empty s.coordinator.downloaded_path ≡ false
          → IsDownloaded s.coordinator.downloaded_path

    pub offered-IsOffered :
        (confirm : Bool) (c : Coordinator) (x : Candidate)
        → offered f st h confirm c ≡ some x
        → IsOffered x × (c.candidate ≡ x)
    unfolding offered
    offered-IsOffered confirm c x q =
        elim (Bool-cases (not confirm || (not c.candidate.available || not c.candidate.eligible))) [
          | inl t ↦ absurd (ground (arith, q, t))
          | inr t ↦
              let same : c.candidate ≡ x = ground (arith, q, t) in
              (rw (sym same) (ground (arith, t), ground (arith, t)), same)
        ]

    pick-All :
        (n : ℕ) (xs : List Candidate) (x : Candidate) (others : List Candidate)
        → pick n xs ≡ some (x, others)
        → All IsOffered xs
        → IsOffered x × All IsOffered others
    unfolding pick
    pick-All n [] x others q a = absurd (ground (arith, q))
    pick-All zero (y ∷ ys) x others q a =
        let first : y ≡ x = ground (arith, q) in
        let rest : ys ≡ others = ground (arith, q) in (rw (sym first) a.0, rw (sym rest) a.1)
    pick-All (suc n) (y ∷ ys) x others q a =
        deeper (pick n ys) refl (λ z zs p. pick-All n ys z zs p a.1)
      where
        deeper :
            (o : Option (Candidate × List Candidate))
            → pick n ys ≡ o
            → ((z : Candidate) (zs : List Candidate)
                → pick n ys ≡ some (z, zs)
                → IsOffered z × All IsOffered zs)
            → IsOffered x × All IsOffered others
        deeper none p ih = absurd (ground (arith, q, p))
        deeper (some (z, zs)) p ih =
            let found : z ≡ x = ground (arith, q, p) in
            let rest : y ∷ zs ≡ others = ground (arith, q, p) in
            let (good, kept) = ih z zs p in (rw (sym found) good, rw (sym rest) (a.0, kept))

    begun-IsSound :
        (confirm : Bool) (s : System) (o : Option Candidate)
        → offered f st h confirm s.coordinator ≡ o
        → IsSound s
        → IsSound (begun f st h s o)
    unfolding begun
    begun-IsSound confirm s none q i = i
    begun-IsSound confirm s (some x) q i = record {
      same_client = i.same_client;
      same_root = i.same_root;
      told = i.told;
      on_their_way = ((offered-IsOffered confirm s.coordinator x q).0, i.on_their_way);
      origin = i.origin;
    }

    arrived-IsSound :
        (n : ℕ) (s : System) (env : Env) (o : Option (Candidate × List Candidate))
        → pick n s.downloads ≡ o
        → IsSound s
        → IsSound (arrived f st h s env o)
    unfolding arrived
    arrived-IsSound n s env none q i = i
    arrived-IsSound n s env (some (x, others)) q i =
        let (good, kept) = pick-All n s.downloads x others q i.on_their_way in
        by_result good kept (download f h s.coordinator.client x s.coordinator.update_root env).0
          refl
      where
        by_result :
            IsOffered x
            → All IsOffered others
            → (r : Result UpdateError Text)
            → (download f h s.coordinator.client x s.coordinator.update_root env).0 ≡ r
            → IsSound (record { coordinator = received f st h s.coordinator r; downloads = others })
        by_result good kept (err e) d =
            unfold received failing in
            record {
              same_client = i.same_client;
              same_root = i.same_root;
              told = received-IsTold f st h s.coordinator (err e) i.told;
              on_their_way = kept;
              origin = i.origin;
            }
        by_result good kept (ok path) d =
            unfold received in
            record {
              same_client = i.same_client;
              same_root = i.same_root;
              told = received-IsTold f st h s.coordinator (ok path) i.told;
              on_their_way = kept;
              origin = λ k. (x, env, good, (rw (i.same_client, i.same_root) at d));
            }

    refreshed-IsSound :
        (s : System) (r : Result UpdateError Candidate)
        → IsFair f st h r
        → IsSound s
        → IsSound (record s { coordinator = refreshed f st h s.coordinator r })
    unfolding refreshed failing
    refreshed-IsSound s (err e) fair i = record {
      same_client = i.same_client;
      same_root = i.same_root;
      told = refreshed-IsTold f st h s.coordinator (err e) fair i.told;
      on_their_way = i.on_their_way;
      origin = i.origin;
    }
    refreshed-IsSound s (ok x) fair i = record {
      same_client = i.same_client;
      same_root = i.same_root;
      told = refreshed-IsTold f st h s.coordinator (ok x) fair i.told;
      on_their_way = i.on_their_way;
      origin = λ k. absurd (ground (arith, k));
    }

    settled-IsSound :
        (s : System) (o : Option Text)
        → IsSound s
        → IsSound (record s { coordinator = settled f st h s.coordinator o })
    unfolding settled failing
    settled-IsSound s (some code) i = record {
      same_client = i.same_client;
      same_root = i.same_root;
      told = settled-IsTold f st h s.coordinator (some code) i.told;
      on_their_way = i.on_their_way;
      origin = i.origin;
    }
    settled-IsSound s none i = record {
      same_client = i.same_client;
      same_root = i.same_root;
      told = settled-IsTold f st h s.coordinator none i.told;
      on_their_way = i.on_their_way;
      origin = i.origin;
    }

    step-IsSound : (e : Event Env) (s : System) → IsSound s → IsSound (step f st h e s)
    unfolding step
    step-IsSound (refresh_ends env) s i =
        let c = s.coordinator in
        refreshed-IsSound s _
          (check-IsFair f st h c.client c.current_version c.channel c.identity env) i
    step-IsSound (download_begins confirm) s i = begun-IsSound confirm s _ refl i
    step-IsSound (download_ends n env) s i = arrived-IsSound n s env _ refl i
    step-IsSound (apply_ends failure) s i = settled-IsSound s failure i

    events-IsSound :
        (events : List (Event Env)) (s : System)
        → IsSound s
        → IsSound (after_events f st h events s)
    unfolding after_events
    events-IsSound [] s i = i
    events-IsSound (e ∷ events) s i = events-IsSound events (step f st h e s) (step-IsSound e s i)

  pub new-initial :
      (client : Client) (root : Text) (keys : List (Text × Text))
      (current channel identity update_root recovery : Text) (c : Coordinator)
      → new_coordinator f st h client root keys current channel identity update_root recovery ≡ ok c
      → initial f st h client root keys current channel identity
          (h.clean update_root)
          (h.clean recovery)
        ≡ c
  unfolding new_coordinator
  new-initial client root keys current channel identity update_root recovery c e =
      given
        (not (version_pattern current)
          || not (text_eq channel (lit "stable")) && not (text_eq channel (lit "beta"))
          || not (identity_pattern identity)
          || not (h.is_abs update_root)
          || not (h.is_abs recovery))
        _ c e
    where
      from : Coordinator → Result UpdateError Coordinator → Coordinator
      from d (ok c) = c
      from d (err e) = d

      given :
          (b : Bool) (made c : Coordinator)
          → (let r : Result UpdateError Coordinator =
                if b then err update_unavailable else ok made in
              r)
            ≡ ok c
          → made ≡ c
      given true made c q = absurd (ground (arith, ap (λ r. is_made r) q))
      given false made c q = ap (from made) q

  -- The system with a coordinator on which nothing was called yet.
  abbrev pub at_rest : Coordinator → System
  at_rest c = record { coordinator = c; downloads = [] }

  initial-IsSound :
      (client : Client) (root : Text) (keys : List (Text × Text))
      (current channel identity update_root recovery : Text)
      → IsSound client update_root
          (at_rest (initial f st h client root keys current channel identity update_root recovery))
  unfolding status lit text_eq
  initial-IsSound client root keys current channel identity update_root recovery = record {
    same_client = refl;
    same_root = refl;
    told = record {
      eligible_available = λ k. absurd (ground (arith, k));
      current = λ k. refl;
      waiting = λ k. absurd (ground (arith, k));
      on_offer = λ k. absurd (ground (arith, k));
    };
    on_their_way = tt;
    origin = λ k. absurd (ground (arith, k));
  }

  -- However the locked sections of refreshes, downloads and applications of a new coordinator
  -- interleave, with or without a confirmation and whatever they return: the status calls an update
  -- eligible only if it calls it available; its states `current`, `rollout_pending` and `available`
  -- fit its flags, the last with nothing downloaded; and the path of a downloaded installer is one
  -- that a download of an available and eligible candidate returned.
  pub after_events-status :
      (client : Client) (root : Text) (keys : List (Text × Text))
      (current channel identity update_root recovery : Text) (c : Coordinator)
      (events : List (Event Env))
      → new_coordinator f st h client root keys current channel identity update_root recovery ≡ ok c
      → let c' = (after_events f st h events (at_rest c)).coordinator in
        IsTold (status c')
        × (is_empty c'.downloaded_path ≡ false
            → IsDownloaded client (h.clean update_root) c'.downloaded_path)
  after_events-status client root keys current channel identity update_root recovery c events e =
      let i = events-IsSound client (h.clean update_root) events (at_rest c) (
        rw (sym (new-initial client root keys current channel identity update_root recovery c e)) (
          initial-IsSound client root keys current channel identity (h.clean update_root)
            (h.clean recovery))) in
      (i.told, i.origin)
