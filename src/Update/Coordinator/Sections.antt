-- ===== src/Update/Coordinator/Sections.antt =====
-- The calls of the coordinator of internal/managerupdate/coordinator.go as its lock lets them
-- interleave. `Refresh` asks the server before it takes the lock; what it asks with never changes.
-- `Download` copies the candidate under the lock, lets go of it for the transfer, and takes it again.
-- `Apply` copies what it needs likewise, and takes the lock again to note how it ended. What is done
-- without the lock is taken to run in one world of its own, which the event brings: the other calls
-- may have changed the world in any way before.
use longhub_manager.Common.{ℕ, zero, suc, ◌≡◌, Bool, Option, none, some, List, [], ◌∷◌, Text}
use longhub_manager.Update.Manifest.{Formats}
use longhub_manager.Update.Recovery.{Storage}
use longhub_manager.Update.Host.{Host}
use longhub_manager.Update.Client.{Candidate, check}
use longhub_manager.Update.Download.{download}
use longhub_manager.Update.Coordinator.{Coordinator, refreshed, received, offered, settled}

-- The coordinator, and the candidates of the downloads that are on their way.
pub record System : Type 0 where
  pub coordinator : Coordinator
  pub downloads : List Candidate

-- The n-th of the downloads, and the others.
unfoldable pub pick : ℕ → List Candidate → Option (Candidate × List Candidate)
pick n [] = none
pick zero (x ∷ xs) = some (x, xs)
pick (suc n) (x ∷ xs) = elim (pick n xs) [ none ↦ none | some (y, ys) ↦ some (y, x ∷ ys) ]

-- The locked sections. An `Apply` that got past its checks ends with the code of its failure or with
-- none, whichever it was.
pub data Event (Env : Type 0) : Type 0 where
  refresh_ends : Env → Event Env
  download_begins : Bool → Event Env
  download_ends : ℕ → Env → Event Env
  apply_ends : Option Text → Event Env

module _ (f : Formats) (st : Storage) (h : Host st.Env) where
  open st use {Env}

  unfoldable pub begun : System → Option Candidate → System
  begun s none = s
  begun s (some x) = record s { downloads = x ∷ s.downloads }

  unfoldable pub arrived : System → Env → Option (Candidate × List Candidate) → System
  unfolding received
  arrived s env none = s
  arrived s env (some (x, others)) =
      let c = s.coordinator in
      record {
        coordinator = received f st h c (download f h c.client x c.update_root env).0;
        downloads = others;
      }

  unfoldable pub step : Event Env → System → System
  unfolding check refreshed begun arrived pick offered settled
  step (refresh_ends env) s =
      let c = s.coordinator in
      record s {
        coordinator =
            refreshed f st h c (check f h c.client c.current_version c.channel c.identity env).0;
      }
  step (download_begins confirm) s = begun s (offered f st h confirm s.coordinator)
  step (download_ends n env) s = arrived s env (pick n s.downloads)
  step (apply_ends failure) s = record s { coordinator = settled f st h s.coordinator failure }

  -- The system after some events.
  unfoldable pub after_events : List (Event Env) → System → System
  unfolding step
  after_events [] s = s
  after_events (e ∷ events) s = after_events events (step e s)

  -- No `Refresh` ends while a download is on its way.
  abbrev pub Undisturbed : Event Env → System → Type 0
  Undisturbed (refresh_ends env) s = s.downloads ≡ []
  Undisturbed (download_begins confirm) s = Unit {0}
  Undisturbed (download_ends n env) s = Unit {0}
  Undisturbed (apply_ends failure) s = Unit {0}

  abbrev pub IsCalm : List (Event Env) → System → Type 0
  IsCalm [] s = Unit {0}
  IsCalm (e ∷ events) s = Undisturbed e s × IsCalm events (step e s)
