-- ===== src/ConfigBackup/RoundTrip.antt =====
-- A backup of internal/configbackup/manager.go is found again as it was made.
use longhub_manager.Common.{
  ℕ, ◌+◌, ◌*◌, ◌≤◌, ◌≡◌, ◌≢◌, refl, ap, ◌∙◌, inl, inr, true, false, Text, [], ◌∷◌, ◌++◌, bind_ok,
  zero, suc, Result, ok, err, Ends, Triple, Triple-bind, Triple-mono, Triple-fail, pure, lit,
  length, length-append, take, ltb, ltb→le, text_eq, text_eq_refl, arith, Bool-cases, pos,
  same_integer, exceeds, ◌==◌,
}
use longhub_manager.System.Rely.{Has}
use longhub_manager.System.Kept.{
  Kept, Gives, Triple-given, run_or-Triple, Gives-both, Triple-pre, Triple-map_err,
}
use longhub_manager.ConfigBackup.{
  BackupError, Manager, Backend, Snapshot, Metadata, Env, M, id_pattern, schema, to_snapshot, reads,
  bounded, read_bounded, quiet_remove,
}
use longhub_manager.ConfigBackup.Operations.{
  content_path, meta_path, parse_metadata, read_metadata, check_content, bad_metadata, explained,
  read_content, read_backup, describe, or_drop, write_encoded, new_id, created, write_pair,
  write_backup,
}
use longhub_manager.ConfigBackup.Rely.{
  IsShort, max_int64, IsPlain, IsBackend, id-IsName, id-IsShort, schema-IsShort, extension_names,
}
use longhub_manager.ConfigBackup.Keeping.{write_atomic-Kept, write_atomic-Gives}

pub take_all : (n : ℕ) (s : Text) → length s ≤ n → take n s ≡ s
take_all zero [] h = refl
take_all zero (c ∷ s) h = absurd (omega arith)
take_all (suc n) [] h = refl
take_all (suc n) (c ∷ s) h = ap (λ t. c ∷ t) (take_all n s (omega arith))

short_id : (id : Text) → id_pattern id ≡ true → ltb 96 (length id) ≡ false
unfolding id_pattern
short_id id h = ground arith

module _ (b : Backend) (R : IsBackend b) where
  -- The pair of files of a backup with these metadata and this content.
  pub record Stored (m : Manager) (meta : Metadata) (bytes : Text) (env : Env b) : Type 0 where
    pub id_valid : id_pattern meta.id ≡ true
    pub schema_known : meta.schema_version ≡ schema
    pub digested : meta.digest ≡ b.sha256_hex bytes
    pub counted : meta.bytes ≡ pos (length bytes)
    pub fits : length bytes ≤ m.max_bytes
    pub json : Text
    pub json_short : length json ≤ 16 * 1024
    pub json_read : b.decode_metadata json ≡ ok meta
    pub content_there : Has b.fs (content_path b m meta.id) bytes env
    pub meta_there : Has b.fs (meta_path b m meta.id) json env

  bounded_lem :
      (bytes : Text) (n : ℕ) (env : Env b)
      → length bytes ≤ n
      → bounded b n bytes env ≡ (ok bytes, env)
  unfolding bounded
  bounded_lem bytes n env h =
      let whole : take (n + 1) bytes ≡ bytes = take_all (n + 1) bytes (omega arith) in
      let short : ltb n (length bytes) ≡ false = ground arith in rw (whole, short) refl

  pub read_bounded_lem :
      (path bytes : Text) (n : ℕ) (env : Env b)
      → Has b.fs path bytes env
      → length bytes ≤ n
      → read_bounded b path n env ≡ (ok bytes, env)
  unfolding read_bounded
  read_bounded_lem path bytes n env i h =
      bind_ok _ _ env env bytes (rw (i, reads) refl) ∙ bounded_lem bytes n env h

  metadata_lem :
      (m : Manager) (meta : Metadata) (bytes : Text) (env : Env b)
      → Stored m meta bytes env
      → read_metadata b m meta.id env ≡ (ok meta, env)
  unfolding read_metadata
  metadata_lem m meta bytes env s =
      bind_ok _ _ env env s.json (read_bounded_lem _ s.json _ env s.meta_there s.json_short)
      ∙ unfold parse_metadata pure in rw (s.json_read, parse_metadata) refl

  good_metadata :
      (m : Manager) (meta : Metadata) (bytes : Text) (env : Env b)
      → Stored m meta bytes env
      → bad_metadata b m meta.id meta ≡ false
  unfolding bad_metadata
  good_metadata m meta bytes env s =
      let within : exceeds (pos (length bytes)) m.max_bytes ≡ false = ground (arith, s.fits) in
      rw (s.schema_known, s.counted, text_eq_refl schema, text_eq_refl meta.id, within) refl

  explained_lem :
      {A : Type 0}
      → (what : Text) (act : M b A) (a : A) (env env' : Env b) → act env ≡ (ok a, env')
      → explained b what act env ≡ (ok a, env')
  unfolding explained
  explained_lem what act a env env' h =
      let value : (act env).0 ≡ ok a = ap (λ x. x.0) h in
      let world : (act env).1 ≡ env' = ap (λ x. x.1) h in rw (value, world, explained) refl

  check_lem :
      (m : Manager) (meta : Metadata) (bytes : Text) (env : Env b)
      → Stored m meta bytes env
      → check_content b meta bytes env ≡ (ok (bytes, to_snapshot meta), env)
  unfolding check_content pure
  check_lem m meta bytes env s =
      let same : (length bytes == length bytes) ≡ true = ground arith in
      let digested : text_eq (b.sha256_hex bytes) meta.digest ≡ true =
        rw s.digested (text_eq_refl (b.sha256_hex bytes)) in
      let counted : same_integer (pos (length bytes)) meta.bytes ≡ true = rw s.counted same in
      rw (digested, counted, check_content) refl

  content_lem :
      (m : Manager) (meta : Metadata) (bytes : Text) (env : Env b)
      → Stored m meta bytes env
      → read_content b m meta.id meta env ≡ (ok (bytes, to_snapshot meta), env)
  unfolding read_content
  content_lem m meta bytes env s =
      rw (good_metadata m meta bytes env s, read_content)
        (bind_ok _ (check_content b meta) env env bytes (
            explained_lem (lit "read backup")
              (read_bounded b (content_path b m meta.id) m.max_bytes) bytes env env
              (read_bounded_lem (content_path b m meta.id) bytes m.max_bytes env s.content_there
                s.fits))
          ∙ check_lem m meta bytes env s)

  -- A stored backup is read as it is.
  pub read_backup_lem :
      (m : Manager) (meta : Metadata) (bytes : Text) (env : Env b)
      → Stored m meta bytes env
      → read_backup b m meta.id env ≡ (ok (bytes, to_snapshot meta), env)
  unfolding read_backup
  read_backup_lem m meta bytes env s =
      let long : ltb 96 (length meta.id) ≡ false = short_id meta.id s.id_valid in
      rw (s.id_valid, long)
        (bind_ok _ _ env env meta (metadata_lem m meta bytes env s)
          ∙ content_lem m meta bytes env s)

  pub explained-Triple :
      {A : Type 0}
      → (what : Text) (P : Env b → Type 0) (m : M b A) (Q : A → Env b → Type 0) (X : Env b → Type 0)
      → Triple P m Q (λ _. X)
      → Triple P (explained b what m) Q (λ _. X)
  unfolding explained
  explained-Triple {A} what P m Q X h =
      Triple-map_err P m (explained b what m) Q (λ _. X) (λ _. X)
        (λ env env' a q. explained_lem what m a env env' q) (λ env env' e q i. bad env env' e q i) h
    where
      bad :
          (env env' : Env b) (e : BackupError)
          → m env ≡ (err e, env')
          → X env'
          → Ends Q (λ _. X) (explained b what m env).0 (explained b what m env).1
      bad env env' e q i =
          let value : (m env).0 ≡ err e = ap (λ x. x.0) q in
          let world : (m env).1 ≡ env' = ap (λ x. x.1) q in rw (value, explained) (rw world i)

  pub or_drop-Triple :
      {A : Type 0}
      → (path : Text) (P : Env b → Type 0) (m : M b A) (Q : A → Env b → Type 0)
        (X X' : Env b → Type 0)
      → ((env : Env b) → X env → X' (quiet_remove b path env))
      → Triple P m Q (λ _. X)
      → Triple P (or_drop b path m) Q (λ _. X')
  unfolding or_drop
  or_drop-Triple {A} path P m Q X X' drops h =
      Triple-map_err P m (or_drop b path m) Q (λ _. X) (λ _. X') (λ env env' a q. good env env' a q)
        (λ env env' e q i. bad env env' e q i) h
    where
      good : (env env' : Env b) (a : A) → m env ≡ (ok a, env') → or_drop b path m env ≡ (ok a, env')
      good env env' a q =
          let value : (m env).0 ≡ ok a = ap (λ x. x.0) q in
          let world : (m env).1 ≡ env' = ap (λ x. x.1) q in rw (value, world, or_drop) refl

      bad :
          (env env' : Env b) (e : BackupError)
          → m env ≡ (err e, env')
          → X env'
          → Ends Q (λ _. X') (or_drop b path m env).0 (or_drop b path m env).1
      bad env env' e q i =
          let value : (m env).0 ≡ err e = ap (λ x. x.0) q in
          let world : (m env).1 ≡ env' = ap (λ x. x.1) q in
          rw (value, or_drop) (rw world (drops env' i))

  pub content_meta :
      (m : Manager) (id : Text) → id_pattern id ≡ true → content_path b m id ≢ meta_path b m id
  unfolding lit
  content_meta m id valid e =
      let names =
        R.join_injective m.backup_dir (id ++ lit ".json5") (id ++ lit ".meta.json")
          (id-IsName id (lit ".json5") valid extension_names.0)
          (id-IsName id (lit ".meta.json") valid extension_names.1) e in
      omega (
        arith,
        ap length names,
        length-append {0} id (lit ".json5"),
        length-append {0} id (lit ".meta.json"),
      )

  abbrev Anything : Env b → Type 0
  Anything env = Unit {0}

  write_encoded-Gives :
      (m : Manager) (id : Text) (o : Result Text Text)
      → id_pattern id ≡ true
      → Gives Anything
          (write_encoded b m id o)
          (λ _ env. (json : Text) × (o ≡ ok json) × Has b.fs (meta_path b m id) json env)
  unfolding write_encoded
  write_encoded-Gives m id (err e) valid = Triple-fail _ (λ env i. tt)
  write_encoded-Gives m id (ok json) valid = explained-Triple _ Anything _ _ Anything (
      Triple-mono _ (λ _ env i. (json, refl, i)) (λ _ env i. i)
        (write_atomic-Gives b R.files (meta_path b m id) json
          (R.join_named m.backup_dir id valid).1))

  pub write_encoded-Kept :
      (m : Manager) (q d id : Text) (o : Result Text Text)
      → q ≢ meta_path b m id
      → Kept (Has b.fs q d) (write_encoded b m id o)
  unfolding write_encoded
  write_encoded-Kept m q d id (err e) n = Triple-fail _ (λ env i. i)
  write_encoded-Kept m q d id (ok json) n =
      explained-Triple _ (Has b.fs q d) _ _ (Has b.fs q d)
        (write_atomic-Kept b R.files q d (meta_path b m id) json n)

  -- The metadata of a copy of these bytes.
  abbrev Describes : Manager → Text → Metadata → Type 0
  Describes m bytes meta =
      (id_pattern meta.id ≡ true)
      × (meta.schema_version ≡ schema)
      × (meta.digest ≡ b.sha256_hex bytes)
      × (meta.bytes ≡ pos (length bytes))
      × (length bytes ≤ m.max_bytes)
      × IsPlain meta

  within : (i j k : ℕ) → i ≤ j → j ≤ k → i ≤ k
  within i j k p q = omega arith

  describe-IsPlain :
      (id bytes time : Text)
      → id_pattern id ≡ true
      → IsShort time
      → length bytes ≤ max_int64
      → IsPlain (describe b id bytes time)
  unfolding describe
  describe-IsPlain id bytes time valid short fits = record {
    schema_short = schema-IsShort;
    id_short = id-IsShort id valid;
    digest_short = R.digest_short bytes;
    time_short = short;
    count = length bytes;
    counted = refl;
    count_fits = fits;
  }

  abbrev pub Made : Manager → Text → Snapshot → Env b → Type 0
  Made m bytes snapshot env =
      (meta : Metadata) × (snapshot ≡ to_snapshot meta) × Stored m meta bytes env

  write_pair-Gives :
      (m : Manager) (meta : Metadata) (bytes : Text)
      → Describes m bytes meta
      → Gives Anything (write_pair b m meta.id meta bytes) (Made m bytes)
  unfolding write_pair pure
  write_pair-Gives m meta bytes (valid, known, digested, counted, fits, plain) =
      Triple-bind _ _
        (explained-Triple _ Anything _ _ Anything (
          write_atomic-Gives b R.files (content_path b m meta.id) bytes
            (R.join_named m.backup_dir meta.id valid).0))
        (λ _.
          Triple-bind _ _
            (or_drop-Triple (content_path b m meta.id) (Has b.fs (content_path b m meta.id) bytes) _
              _ Anything Anything (λ env i. tt)
              (Triple-pre _ _ _ _ _ (λ env i. (tt, i))
                (Gives-both Anything (Has b.fs (content_path b m meta.id) bytes) _ _ _ _
                  (write_encoded-Gives m meta.id (b.encode_metadata meta) valid)
                  (write_encoded-Kept m (content_path b m meta.id) bytes meta.id
                    (b.encode_metadata meta) (content_meta m meta.id valid)))))
            (λ _. record { at = λ env i. (meta, refl, stored env i) }))
    where
      stored :
          (env : Env b)
          → ((json : Text) × (b.encode_metadata meta ≡ ok json)
              × Has b.fs (meta_path b m meta.id) json env)
            × Has b.fs (content_path b m meta.id) bytes env
          → Stored m meta bytes env
      stored env ((json, made, there), content) = record {
        id_valid = valid;
        schema_known = known;
        digested = digested;
        counted = counted;
        fits = fits;
        json = json;
        json_short = R.encoded_short meta json plain made;
        json_read = R.decode-encode meta json plain made;
        content_there = content;
        meta_there = there;
      }

  new_id-Gives : Gives Anything (new_id b) (λ id env. id_pattern id ≡ true)
  unfolding new_id
  new_id-Gives = record { at = λ env i. go env (b.random_id env).0 refl }
    where
      go :
          (env : Env b) (r : Result Text Text)
          → (b.random_id env).0 ≡ r
          → Ends
              (λ id env. id_pattern id ≡ true)
              (λ _ _. Unit {0})
              (new_id b env).0
              (new_id b env).1
      go env (ok id) q = rw (q, new_id) (R.random_valid env id q)
      go env (err e) q = rw (q, new_id) tt

  -- A backup that succeeds is stored with the bytes that it copies.
  pub write_backup-Gives :
      (m : Manager)
      → m.max_bytes ≤ max_int64
      → (bytes : Text) → Gives Anything (write_backup b m bytes) (Made m bytes)
  unfolding write_backup describe created
  write_backup-Gives m sized bytes = elim (Bool-cases (ltb m.max_bytes (length bytes))) [
    | inl long ↦ rw long (Triple-fail _ (λ env i. tt))
    | inr fits ↦ rw fits (
        Triple-bind _ _
          (run_or-Triple Anything Anything Anything _ (b.fs.make_dirs m.backup_dir) (λ env i q. tt)
            (λ env e i q. tt))
          (λ _. Triple-bind _ _ new_id-Gives (λ id.
            Triple-bind {Q = λ time env. (id_pattern id ≡ true) × IsShort time} _ _
              (record { at = λ env valid. (valid, R.now_short env) })
              (λ time.
                Triple-pre (λ env. Anything env × ((id_pattern id ≡ true) × IsShort time)) _ _ _ _
                  (λ env known. (tt, known))
                  (Triple-given Anything ((id_pattern id ≡ true) × IsShort time) _ (Made m bytes)
                    Anything'
                    (λ known. write_pair-Gives m (describe b id bytes time) bytes (
                      known.0,
                      refl,
                      refl,
                      refl,
                      ltb→le _ _ fits,
                      describe-IsPlain id bytes time known.0 known.1
                          (within _ _ _ (ltb→le _ _ fits) sized),
                    )))))))
  ]
    where
      Anything' : BackupError → Env b → Type 0
      Anything' _ _ = Unit {0}
