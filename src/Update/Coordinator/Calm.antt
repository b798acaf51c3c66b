-- ===== src/Update/Coordinator/Calm.antt =====
-- What the status of the coordinator of internal/managerupdate/coordinator.go says of a download where
-- no refresh ends during one.
use longhub_manager.Common.{
  ℕ, ◌≡◌, refl, sym, ap, ◌⊎◌, inl, inr, Bool, true, false, Option, none, some, List, [], ◌∷◌, Text,
  Result, ok, err, is_empty, arith,
}
use longhub_manager.Update.Errors.{UpdateError}
use longhub_manager.Update.Manifest.{Formats}
use longhub_manager.Update.Recovery.{Storage}
use longhub_manager.Update.Host.{Host}
use longhub_manager.Update.Client.{Candidate, Client}
use longhub_manager.Update.Coordinator.{
  Coordinator, failing, refreshed, received, offered, settled, initial, new_coordinator, status,
}
use longhub_manager.Update.Coordinator.Sections.{
  System, pick, Event, refresh_ends, download_begins, download_ends, apply_ends, begun, arrived,
  step, after_events, Undisturbed, IsCalm,
}
use longhub_manager.Update.Coordinator.Flags.{offered-IsOffered, new-initial, at_rest}

-- What is downloaded is eligible, and so is what is on its way.
record IsEven (s : System) : Type 0 where
  downloaded :
      is_empty s.coordinator.downloaded_path ≡ false → s.coordinator.candidate.eligible ≡ true
  on_its_way : (s.downloads ≡ []) ⊎ (s.coordinator.candidate.eligible ≡ true)

module _ (f : Formats) (st : Storage) (h : Host st.Env) where
  open st use {Env}

  refreshed-IsEven :
      (s : System) (r : Result UpdateError Candidate)
      → s.downloads ≡ []
      → IsEven s
      → IsEven (record s { coordinator = refreshed f st h s.coordinator r })
  unfolding refreshed failing
  refreshed-IsEven s (err e) q i = record { downloaded = i.downloaded; on_its_way = i.on_its_way }
  refreshed-IsEven s (ok x) q i = record {
    downloaded = λ k. absurd (ground (arith, k));
    on_its_way = inl q;
  }

  begun-IsEven :
      (confirm : Bool) (s : System) (o : Option Candidate)
      → offered f st h confirm s.coordinator ≡ o
      → IsEven s
      → IsEven (begun f st h s o)
  unfolding begun
  begun-IsEven confirm s none q i = i
  begun-IsEven confirm s (some x) q i =
      let c = s.coordinator in
      let (good, same) = offered-IsOffered f st h c.client c.update_root confirm c x q in
      record { downloaded = i.downloaded; on_its_way = inr (rw same good.1) }

  -- Where a download is on its way, the candidate is eligible.
  pick-eligible :
      (n : ℕ) (s : System) (found : Candidate × List Candidate)
      → pick n s.downloads ≡ some found
      → IsEven s
      → s.coordinator.candidate.eligible ≡ true
  pick-eligible n s found q i = elim i.on_its_way [
    | inl none_there ↦ absurd (ground (arith, pick_none n, sym q, ap (pick n) none_there))
    | inr e ↦ e
  ]
    where
      pick_none : (n : ℕ) → pick n [] ≡ none
      pick_none n = unfold pick in refl

  received-IsEven :
      (s : System) (others : List Candidate) (r : Result UpdateError Text)
      → s.coordinator.candidate.eligible ≡ true
      → IsEven (record { coordinator = received f st h s.coordinator r; downloads = others })
  unfolding received failing
  received-IsEven s others (err e) q = record { downloaded = λ k. q; on_its_way = inr q }
  received-IsEven s others (ok path) q = record { downloaded = λ k. q; on_its_way = inr q }

  arrived-IsEven :
      (n : ℕ) (s : System) (env : Env) (o : Option (Candidate × List Candidate))
      → pick n s.downloads ≡ o
      → IsEven s
      → IsEven (arrived f st h s env o)
  unfolding arrived
  arrived-IsEven n s env none q i = i
  arrived-IsEven n s env (some (x, others)) q i =
      received-IsEven s others _ (pick-eligible n s (x, others) q i)

  settled-IsEven :
      (s : System) (o : Option Text)
      → IsEven s
      → IsEven (record s { coordinator = settled f st h s.coordinator o })
  unfolding settled failing
  settled-IsEven s (some code) i = record { downloaded = i.downloaded; on_its_way = i.on_its_way }
  settled-IsEven s none i = record { downloaded = i.downloaded; on_its_way = i.on_its_way }

  step-IsEven :
      (e : Event Env) (s : System) → Undisturbed f st h e s → IsEven s → IsEven (step f st h e s)
  unfolding step
  step-IsEven (refresh_ends env) s q i = refreshed-IsEven s _ q i
  step-IsEven (download_begins confirm) s q i = begun-IsEven confirm s _ refl i
  step-IsEven (download_ends n env) s q i = arrived-IsEven n s env _ refl i
  step-IsEven (apply_ends failure) s q i = settled-IsEven s failure i

  events-IsEven :
      (events : List (Event Env)) (s : System)
      → IsCalm f st h events s
      → IsEven s
      → IsEven (after_events f st h events s)
  unfolding after_events
  events-IsEven [] s calm i = i
  events-IsEven (e ∷ events) s calm i =
      events-IsEven events (step f st h e s) calm.1 (step-IsEven e s calm.0 i)

  initial-IsEven :
      (client : Client) (root : Text) (keys : List (Text × Text))
      (current channel identity update_root recovery : Text)
      → IsEven (
          at_rest f st h
            (initial f st h client root keys current channel identity update_root recovery))
  initial-IsEven client root keys current channel identity update_root recovery = record {
    downloaded = λ k. absurd (ground (arith, k));
    on_its_way = inl refl;
  }

  -- Where no refresh ends while a download of a new coordinator is on its way (`IsCalm`), however its
  -- locked sections interleave otherwise and whatever they return: the status calls an update
  -- downloaded only if it calls it eligible.
  pub after_events-downloaded :
      (client : Client) (root : Text) (keys : List (Text × Text))
      (current channel identity update_root recovery : Text) (c : Coordinator)
      (events : List (Event Env))
      → new_coordinator f st h client root keys current channel identity update_root recovery ≡ ok c
      → IsCalm f st h events (at_rest f st h c)
      → let s = status (after_events f st h events (at_rest f st h c)).coordinator in
        s.downloaded ≡ true → s.eligible ≡ true
  unfolding status
  after_events-downloaded client root keys current channel identity update_root recovery c events e
        calm d =
      let made =
        new-initial f st h client root keys current channel identity update_root recovery c e in
      let i = events-IsEven events (at_rest f st h c) calm (
        rw (sym made) (
          initial-IsEven client root keys current channel identity (h.clean update_root)
            (h.clean recovery))) in
      i.downloaded (ground (arith, d))
