-- ===== src/Update/Recovery/Prepared.antt =====
-- The record that `Prepare` of internal/managerupdate/state.go writes is the one that `Read` gives.
use longhub_manager.Common.{
  leb, all, valid_utf8, ◌*◌, ◌≤◌, ◌≡◌, refl, sym, ap, ◌∙◌, inl, inr, Bool, true, false, not, ◌||◌,
  Option, none, some, List, [], ◌∷◌, ◌++◌, Text, length, length-append, ltb, ◌==◌, Result, ok, err,
  Action, pure, ◌>>◌, lit, text_eq_iff, text_eq_refl, pos, same_integer, arith, Bool-cases, ℤ,
  negsuc, Triple-bind, Triple-mono, Ends-mono,
}
use longhub_manager.System.Kept.{Gives, Ends-ok}
use longhub_manager.Update.Errors.{UpdateError, not_exist}
use longhub_manager.Update.Version.{version_pattern, compare_versions}
use longhub_manager.Update.Manifest.{Manifest, Envelope, Formats, parse_and_verify}
use longhub_manager.Update.Manifest.Validity.{IsManifest, validate_manifest_iff}
use longhub_manager.Update.Manifest.Trust.{IsTrusted, parse_and_verify_iff}
use longhub_manager.Update.Recovery.{
  PendingUpdate, Storage, Done, is_not_exist, forget, first_failure, path_within, verify_stored,
  malformed_pending, mismatched_pending, check_pending, parse_pending, parsed, read_pending,
  write_pending, max_pending_bytes,
}
use longhub_manager.Update.Recovery.Files.{IsStorage, Written, write_pending_lem, not_exist_only}
use longhub_manager.Update.Recovery.Prepare.{
  is_newer, required, mismatched, acceptable, initial_record, unless_pending, prepare,
}

-- An integer that an `int64` holds.
abbrev pub in_int64 : ℤ → Bool
in_int64 (pos n) = leb n 9223372036854775807
in_int64 (negsuc n) = leb n 9223372036854775807

-- An envelope, and a record of an update, that JSON can hold without a loss: their texts are UTF-8.
pub record IsExactEnvelope (e : Envelope) : Type 0 where
  pub texts :
      all valid_utf8 (
        e.manifest.schema_version ∷ e.manifest.product_surface ∷ e.manifest.version
        ∷ e.manifest.channel ∷ e.manifest.platform ∷ e.manifest.arch ∷ e.manifest.filename
        ∷ e.manifest.sha256 ∷ e.manifest.url_path ∷ e.manifest.published_at
        ∷ e.manifest.rollback_data_strategy ∷ e.manifest.rollout.status ∷ e.manifest.rollout.seed
        ∷ e.manifest.rollout.updated_at ∷ e.signature_key_id ∷ e.signature ∷ [])
      ≡ true
  pub integers :
      all in_int64 (e.manifest.sequence ∷ e.manifest.size ∷ e.manifest.rollout.basis_points ∷ [])
      ≡ true

pub record IsExact (p : PendingUpdate) : Type 0 where
  pub target_exact : IsExactEnvelope p.target_metadata
  pub rollback_exact : IsExactEnvelope p.rollback_metadata
  pub texts :
      all valid_utf8 (
        p.schema_version ∷ p.previous_version ∷ p.target_version ∷ p.target_installer
        ∷ p.rollback_installer ∷ p.phase ∷ p.reason ∷ p.created_at ∷ [])
      ≡ true
  pub integers : all in_int64 (p.target_sequence ∷ p.attempts ∷ []) ≡ true

-- What is relied on of the JSON and of `filepath.Clean`: what can be held without a loss is read as
-- it was written.
pub record IsCodec (f : Formats) (st : Storage) : Type 0 where
  pub read-written :
      (p : PendingUpdate) (json : Text)
      → IsExact p
      → st.encode_pending p ≡ some json
      → st.decode_pending (json ++ b'\n' ∷ []) ≡ some p
  pub envelope_read :
      (e : Envelope) (json : Text)
      → IsExactEnvelope e
      → st.encode_envelope e ≡ some json
      → f.decode_envelope json ≡ some e
  pub clean_twice : (path : Text) → st.clean (st.clean path) ≡ st.clean path

pub first_failure_ok :
    (r : Result UpdateError Done) (checks : List (Result UpdateError Done))
    → first_failure (r ∷ checks) ≡ ok tt
    → (r ≡ ok tt) × (first_failure checks ≡ ok tt)
unfolding first_failure
first_failure_ok (ok tt) checks h = (refl, h)
first_failure_ok (err e) checks h = absurd (ground (arith, h))

pub required_ok : (e : UpdateError) (b : Bool) → required e b ≡ ok tt → b ≡ true
required_ok e true h = refl
required_ok e false h = absurd (ground (arith, h))

holds_not : {b : Bool} → not b ≡ true → b ≡ false
holds_not {b} h = ground (arith, h)

same_integer_refl : (i : ℤ) → same_integer i i ≡ true
same_integer_refl (pos n) = ground arith
same_integer_refl (negsuc n) = ground arith

module _ (f : Formats) (st : Storage) (keys : List (Text × Text)) (root : Text) where
  open st use {Env}

  module _ (verify : Text → Manifest → st.Env → Result UpdateError Done) (now : st.Env → Text) where
    module _ (previous : Text) (target : Envelope) (target_installer : Text) (rollback : Envelope)
        (rollback_installer : Text) where
      -- What is known of the arguments once they are accepted in a world.
      pub record IsAccepted (env : Env) : Type 0 where
        pub follows : mismatched f st keys root verify now previous target rollback ≡ false
        pub target_stored : verify_stored f st keys root target ≡ ok tt
        pub rollback_stored : verify_stored f st keys root rollback ≡ ok tt
        pub newer : is_newer (compare_versions target.manifest.version previous) ≡ true
        pub target_verified : verify target_installer target.manifest env ≡ ok tt
        pub rollback_verified : verify rollback_installer rollback.manifest env ≡ ok tt
        pub inside : path_within f st keys root target_installer ≡ true

      abbrev pub made : Text → PendingUpdate
      made =
          initial_record f st keys root verify now previous target target_installer rollback
            rollback_installer

      abbrev pub preparing : Action UpdateError Env PendingUpdate
      preparing =
          prepare f st keys root verify now previous target target_installer rollback
            rollback_installer

      accepted :
          (env : Env)
          → acceptable f st keys root verify now previous target target_installer rollback
              rollback_installer env
            ≡ ok tt
          → IsAccepted env
      unfolding acceptable
      accepted env h =
          let (a, h1) = first_failure_ok _ _ h in
          let (b, h2) = first_failure_ok _ _ h1 in
          let (c, h3) = first_failure_ok _ _ h2 in
          let (d, h4) = first_failure_ok _ _ h3 in
          let (e, h5) = first_failure_ok _ _ h4 in
          let (g, h6) = first_failure_ok _ _ h5 in
          let (i, h7) = first_failure_ok _ _ h6 in
          record {
            follows = holds_not (required_ok _ _ a);
            target_stored = b;
            rollback_stored = c;
            newer = required_ok _ _ d;
            target_verified = e;
            rollback_verified = g;
            inside = required_ok _ _ i;
          }

      module _ (s : IsStorage st) where
        abbrev Written' : PendingUpdate → Env → Type 0
        Written' = Written f st keys root s

        -- The record is written, and is the one that is returned.
        abbrev pub Given : PendingUpdate → PendingUpdate → Env → Type 0
        Given p q env = (q ≡ p) × Written' p env

        written :
            (p : PendingUpdate)
            → Gives (λ _. Unit {0}) (write_pending f st keys root p) (λ _. Written' p)
        written p = record {
          at = λ env i.
              Ends-mono {E = UpdateError} {S = Env} {A = Done} {Q = λ _. Written' p}
                {R = λ _. Written' p} {X = λ _ e. s.contents e ≡ s.contents env}
                {Y = λ _ _. Unit {0}} (λ _ env j. j) (λ _ env j. tt)
                (write_pending f st keys root p env).0 (write_pending f st keys root p env).1
                (write_pending_lem f st keys root s p env);
        }

        write_pending-Gives :
            (p : PendingUpdate)
            → Gives (λ _. Unit {0}) (write_pending f st keys root p >> pure p) (Given p)
        unfolding pure
        write_pending-Gives p =
            Triple-bind _ _
              (Triple-mono {Q = λ _. Written' p} {X = λ _ _. Unit {0}} _ (λ _ env i. i)
                (λ _ env i. tt) (written p))
              (λ _. record { at = λ env i. (refl, i) })

        unless_pending-Gives :
            (env : Env) (found : Result UpdateError PendingUpdate) (p : PendingUpdate)
            → (unless_pending f st keys root verify now made found env).0 ≡ ok p
            → (found ≡ err not_exist)
              × Given (made (now env)) p (unless_pending f st keys root verify now made found env).1
        unfolding unless_pending
        unless_pending-Gives env (ok q) p h = absurd (ground (arith, h))
        unless_pending-Gives env (err e) p h = elim (Bool-cases (is_not_exist e)) [
          | inl t ↦ (
            ap (λ x. err x) (not_exist_only e t),
            rw t (
                Ends-ok (Given (made (now env))) (λ _ _. Unit {0}) _ p _ (rw t at h)
                  ((write_pending-Gives (made (now env))).at env tt)),
          )
          | inr t ↦ absurd (ground (arith, h, t))
        ]

        -- A preparation that succeeds found no record, and has written the one that it returns.
        pub prepare_lem :
            (env : Env) (p : PendingUpdate)
            → (preparing env).0 ≡ ok p
            → IsAccepted env
              × ((read_pending f st keys root env).0 ≡ err not_exist)
              × (time : Text) × Given (made time) p (preparing env).1
        unfolding prepare unless_pending
        prepare_lem env p h =
            go
              (acceptable f st keys root verify now previous target target_installer rollback
                rollback_installer env)
              refl
          where
            go :
                (r : Result UpdateError Done)
                → acceptable f st keys root verify now previous target target_installer rollback
                    rollback_installer env
                  ≡ r
                → IsAccepted env
                  × ((read_pending f st keys root env).0 ≡ err not_exist)
                  × (time : Text) × Given (made time) p (preparing env).1
            go (err e) q = absurd (ground (arith, rw (q, prepare) at h))
            go (ok done) q =
                let (missing, given) =
                  unless_pending-Gives (read_pending f st keys root env).1
                    (read_pending f st keys root env).0 p (rw (q, prepare) at h) in
                (
                  accepted env q,
                  missing,
                  now (read_pending f st keys root env).1,
                  rw (q, prepare) given,
                )

  module _ (c : IsCodec f st) where
    stored_trusted :
        (e : Envelope)
        → IsExactEnvelope e
        → verify_stored f st keys root e ≡ ok tt
        → IsManifest f e.manifest
    unfolding verify_stored
    stored_trusted e x h = go (st.encode_envelope e) refl
      where
        valid :
            (json : Text) (r : Result UpdateError Envelope)
            → st.encode_envelope e ≡ some json
            → parse_and_verify f json keys ≡ r
            → forget r ≡ ok tt
            → IsManifest f e.manifest
        valid json (err u) q p k = absurd (ground (arith, k))
        valid json (ok e') q p k =
            let trusted : IsTrusted f json keys e' = (parse_and_verify_iff f json keys e').0.0 p in
            let same : e ≡ e' =
              ground (arith, sym (c.envelope_read e json x q) ∙ trusted.decoded) in
            rw same trusted.valid

        go : (o : Option Text) → st.encode_envelope e ≡ o → IsManifest f e.manifest
        go none q = absurd (ground (arith, h, q))
        go (some json) q =
            valid json (parse_and_verify f json keys) q refl (rw (q, verify_stored) at h)

    module _ (verify : Text → Manifest → Env → Result UpdateError Done) (now : Env → Text)
        (previous : Text) (target : Envelope) (target_installer : Text) (rollback : Envelope)
        (rollback_installer : Text) where
      abbrev Accepted : Env → Type 0
      Accepted = IsAccepted verify now previous target target_installer rollback rollback_installer

      abbrev first_record : Text → PendingUpdate
      first_record = made verify now previous target target_installer rollback rollback_installer

      same_previous : (env : Env) → Accepted env → rollback.manifest.version ≡ previous
      unfolding mismatched
      same_previous env a =
          ground (arith, a.follows, text_eq_iff rollback.manifest.version previous)

      -- Both envelopes can be held by JSON.
      abbrev Exact : Type 0
      Exact = IsExactEnvelope target × IsExactEnvelope rollback

      well_formed :
          (env : Env) (time : Text)
          → Exact
          → Accepted env
          → malformed_pending f st keys root (first_record time) ≡ false
      unfolding malformed_pending initial_record
      well_formed env time x a =
          let t = stored_trusted target x.0 a.target_stored in
          let r = stored_trusted rollback x.1 a.rollback_stored in
          let (n, same, low, high) = t.sequence_fits in
          let version : version_pattern previous ≡ true =
            rw (sym (same_previous env a)) r.version_valid in
          rw (same) (
            ground (
              arith,
              low,
              t.version_valid,
              version,
              text_eq_refl (lit "longhub/manager-update-pending/v1"),
              text_eq_refl (lit "installing"),
            ))

      path_within-clean :
          (path : Text)
          → path_within f st keys root (st.clean path) ≡ path_within f st keys root path
      unfolding path_within
      path_within-clean path = rw (c.clean_twice path, path_within) refl

      matching :
          (env : Env) (time : Text)
          → Accepted env
          → mismatched_pending f st keys root (first_record time) ≡ false
      unfolding mismatched_pending initial_record
      matching env time a = rw (same_previous env a) (
          ground (
            arith,
            text_eq_refl target.manifest.version,
            text_eq_refl previous,
            same_integer_refl target.manifest.sequence,
            path_within-clean target_installer ∙ a.inside,
          ))

      check_pending-made :
          (env : Env) (time : Text)
          → Exact
          → Accepted env
          → check_pending f st keys root (first_record time) ≡ ok (first_record time)
      unfolding check_pending first_failure initial_record
      check_pending-made env time x a =
          let t =
            (validate_manifest_iff f target.manifest).1
              (stored_trusted target x.0 a.target_stored) in
          let r =
            (validate_manifest_iff f rollback.manifest).1
              (stored_trusted rollback x.1 a.rollback_stored) in
          rw
            (
              well_formed env time x a,
              t,
              r,
              a.target_stored,
              a.rollback_stored,
              matching env time a,
            )
            refl

      -- With a storage and a codec as relied on (`IsStorage`, `IsCodec`): if `Prepare` succeeds in a
      -- world with a record that JSON can hold without a loss (`IsExact`: texts of valid UTF-8 and
      -- integers of 64 bits), then `Read` gives, in every later world with the same pending file of at
      -- most 512 KiB that can be read, the very record that `Prepare` returned. It is that of the
      -- previous version, of the target and of both envelopes, in its installing phase with no attempt
      -- counted.
      pub read_pending-prepare :
          (s : IsStorage st) (env later : Env) (p : PendingUpdate) (bytes : Text)
          → (preparing verify now previous target target_installer rollback rollback_installer
              env).0
            ≡ ok p
          → s.contents later
            ≡ s.contents
                (preparing verify now previous target target_installer rollback rollback_installer
                  env).1
          → IsExact p
          → (st.read_file later).0 ≡ ok bytes
          → length bytes ≤ 512 * 1024
          → ((read_pending f st keys root later).0 ≡ ok p)
            × (p.previous_version ≡ previous)
            × (p.target_version ≡ target.manifest.version)
            × (p.target_metadata ≡ target)
            × (p.rollback_metadata ≡ rollback)
            × (p.attempts ≡ pos 0)
            × (p.phase ≡ lit "installing")
      unfolding read_pending parsed parse_pending initial_record
      read_pending-prepare s env later p bytes h kept exact read fits =
          let (a, missing, time, given) =
            prepare_lem verify now previous target target_installer rollback rollback_installer s
              env p h in
          let (whole, (json, encoded, written)) = given in
          let exact_record : IsExact (first_record time) = rw (sym whole) exact in
          let exact_ends : Exact = (exact_record.target_exact, exact_record.rollback_exact) in
          let found : bytes ≡ json ++ b'\n' ∷ [] =
            ground (arith, sym (s.read_found later bytes read) ∙ kept ∙ written) in
          let decoded : st.decode_pending bytes ≡ some (first_record time) =
            ap st.decode_pending found
            ∙ c.read-written (first_record time) json exact_record encoded in
          let short : (length bytes == 0 || ltb max_pending_bytes (length bytes)) ≡ false =
            ground (arith, ap (λ b. length b) found, length-append {0} json (b'\n' ∷ []), fits) in
          let back : (read_pending f st keys root later).0 ≡ ok (first_record time) =
            rw (read, short, decoded) (check_pending-made env time exact_ends a) in
          rw whole (back, refl, refl, refl, refl, refl, refl)
