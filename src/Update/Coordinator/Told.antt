-- ===== src/Update/Coordinator/Told.antt =====
-- That the status of the coordinator of internal/managerupdate/coordinator.go agrees with itself after
-- each of its locked sections.
use Prim.Native.Nat.{Ordering}
use longhub_manager.Common.{
  ◌≡◌, refl, sym, ◌∙◌, inl, inr, Bool, true, false, not, ◌||◌, Option, none, some, [], Text, Result,
  ok, err, Bool-cases, arith, text_eq, lit, fail, ◌>>=◌, after,
}
use longhub_manager.Update.Errors.{UpdateError}
use longhub_manager.Update.Version.{version_pattern, compare_versions}
use longhub_manager.Update.Manifest.{Envelope, Formats, rollout_eligible}
use longhub_manager.Update.Recovery.{Storage}
use longhub_manager.Update.Host.{Host}
use longhub_manager.Update.Client.{Candidate, Client, judge, check}
use longhub_manager.Update.Coordinator.{
  Coordinator, PublicStatus, failing, fresh_state, refreshed, received, settled, status,
}

-- What a status tells of itself: an eligible update is available, and the three states that a refresh
-- sets are those of its flags.
pub record IsTold (s : PublicStatus) : Type 0 where
  pub eligible_available : s.eligible ≡ true → s.available ≡ true
  pub current : text_eq s.state (lit "current") ≡ true → s.available ≡ false
  pub waiting :
      text_eq s.state (lit "rollout_pending") ≡ true → (s.available ≡ true) × (s.eligible ≡ false)
  pub on_offer :
      text_eq s.state (lit "available") ≡ true
      → (s.available ≡ true) × (s.eligible ≡ true) × (s.downloaded ≡ false)

module _ (f : Formats) (st : Storage) (h : Host st.Env) where
  open st use {Env}

  -- A candidate that a check gives is not eligible unless it is available.
  abbrev pub IsFair : Result UpdateError Candidate → Type 0
  IsFair (err e) = Unit {0}
  IsFair (ok c) = c.eligible ≡ true → c.available ≡ true

  judge-IsFair :
      (current channel identity : Text) (o : Option Envelope)
      → IsFair (judge f h current channel identity o)
  unfolding judge
  judge-IsFair current channel identity none = λ e. ground (arith, e)
  judge-IsFair current channel identity (some e) =
      go (compare_versions e.manifest.version current) refl
    where
      shared :
          (o : Result UpdateError Bool) (b : Bool)
          → rollout_eligible f e.manifest.rollout identity ≡ o
          → text_eq e.manifest.channel channel ≡ b
          → (r : Ordering) → compare_versions e.manifest.version current ≡ ok r
          → IsFair (judge f h current channel identity (some e))
      shared o false p q r s = rw (s, q, judge) tt
      shared (err x) true p q r s = rw (s, q, p, judge) tt
      shared (ok b) true p q r s = rw (s, q, p, judge) (λ k. ground (arith, k))

      go :
          (r : Result UpdateError Ordering)
          → compare_versions e.manifest.version current ≡ r
          → IsFair (judge f h current channel identity (some e))
      go (err x) q = rw (q, judge) tt
      go (ok r) q = shared _ _ refl refl r q

  pub check-IsFair :
      (c : Client) (current channel identity : Text) (env : Env)
      → IsFair (check f h c current channel identity env).0
  unfolding check ◌>>=◌ fail
  check-IsFair c current channel identity env =
      elim (Bool-cases (
        not (text_eq channel (lit "stable") || text_eq channel (lit "beta"))
        || not (version_pattern current))) [ inl q ↦ rw q tt | inr q ↦ rw q (fetched _ _) ]
    where
      fetched :
          (r : Result UpdateError (Option Envelope)) (env' : Env)
          → IsFair (after r (λ found env. (judge f h current channel identity found, env)) env').0
      fetched (err e) env' = tt
      fetched (ok found) env' = judge-IsFair current channel identity found

  -- A state that no refresh sets says nothing of the flags.
  set_state :
      (c : Coordinator) (state code path : Text)
      → text_eq state (lit "current") ≡ false
      → text_eq state (lit "rollout_pending") ≡ false
      → text_eq state (lit "available") ≡ false
      → IsTold (status c)
      → IsTold (status (record c { state = state; error_code = code; downloaded_path = path }))
  unfolding status
  set_state c state code path x y z t = record {
    eligible_available = t.eligible_available;
    current = λ k. absurd (ground (arith, k, x));
    waiting = λ k. absurd (ground (arith, k, y));
    on_offer = λ k. absurd (ground (arith, k, z));
  }

  failing-IsTold :
      (c : Coordinator) (code : Text) → IsTold (status c) → IsTold (status (failing code c))
  unfolding failing
  failing-IsTold c code t =
      set_state c (lit "unavailable") code c.downloaded_path (unfold lit text_eq in refl)
        (unfold lit text_eq in refl) (unfold lit text_eq in refl) t

  pub received-IsTold :
      (c : Coordinator) (r : Result UpdateError Text)
      → IsTold (status c)
      → IsTold (status (received f st h c r))
  unfolding received
  received-IsTold c (err e) t = failing-IsTold c _ t
  received-IsTold c (ok path) t =
      set_state c (lit "ready") [] path (unfold lit text_eq in refl) (unfold lit text_eq in refl)
        (unfold lit text_eq in refl) t

  pub settled-IsTold :
      (c : Coordinator) (o : Option Text) → IsTold (status c) → IsTold (status (settled f st h c o))
  unfolding settled
  settled-IsTold c (some code) t = failing-IsTold c code t
  settled-IsTold c none t =
      set_state c (lit "applying") [] c.downloaded_path (unfold lit text_eq in refl)
        (unfold lit text_eq in refl) (unfold lit text_eq in refl) t

  -- The state that a refresh sets, by the two flags of the candidate.
  fresh-IsTold :
      (available eligible : Bool) (current_version target code : Text) (candidate : Candidate)
      → candidate.available ≡ available
      → candidate.eligible ≡ eligible
      → (eligible ≡ true → available ≡ true)
      → IsTold (record {
        state = fresh_state candidate;
        current_version = current_version;
        target_version = target;
        available = candidate.available;
        eligible = candidate.eligible;
        downloaded = false;
        error_code = code;
      })
  unfolding fresh_state lit text_eq
  fresh-IsTold true true v t code x a e fair = record {
    eligible_available = λ k. a;
    current = λ k. absurd (ground (arith, a, e, k));
    waiting = λ k. absurd (ground (arith, a, e, k));
    on_offer = λ k. (a, e, refl);
  }
  fresh-IsTold true false v t code x a e fair = record {
    eligible_available = λ k. a;
    current = λ k. absurd (ground (arith, a, e, k));
    waiting = λ k. (a, e);
    on_offer = λ k. absurd (ground (arith, a, e, k));
  }
  fresh-IsTold false eligible v t code x a e fair = record {
    eligible_available = λ k. absurd (ground (arith, fair, a, e, k, fair (sym e ∙ k)));
    current = λ k. a;
    waiting = λ k. absurd (ground (arith, a, e, k));
    on_offer = λ k. absurd (ground (arith, a, e, k));
  }

  pub refreshed-IsTold :
      (c : Coordinator) (r : Result UpdateError Candidate)
      → IsFair r
      → IsTold (status c)
      → IsTold (status (refreshed f st h c r))
  unfolding refreshed status
  refreshed-IsTold c (err e) fair t = unfold status in failing-IsTold c _ t
  refreshed-IsTold c (ok x) fair t = fresh-IsTold x.available x.eligible _ _ _ x refl refl fair
