-- ===== src/Update/Recovery/Files.antt =====
-- What the file operations are relied on for, and what `write` makes of it.
use longhub_manager.Common.{
  ◌≡◌, refl, ap, ◌∙◌, inl, inr, Bool, true, false, Option, none, some, List, [], ◌∷◌, ◌++◌, Text,
  Result, ok, err, Ends, Triple, Triple-bind, fail, Bool-cases, arith,
}
use longhub_manager.Update.Errors.{
  UpdateError, not_exist, metadata_invalid, signature_invalid, unknown_signing_key,
  unsafe_update_path, update_unavailable, download_invalid, other_error,
}
use longhub_manager.Update.Manifest.{Formats}
use longhub_manager.Update.Recovery.{
  PendingUpdate, Storage, Done, is_not_exist, removed, or_close, or_fail, replace_by, then_discard,
  write_file, write_bytes, write_encoded, write_pending, remove_pending,
}

-- The pending file, if it is there, and the bytes of each temporary file; what the operations do to
-- them. A failed rename or removal leaves the pending file as it was.
pub record IsStorage (st : Storage) : Type 0 where
  pub contents : st.Env → Option Text
  pub temp : Text → st.Env → Text
  pub read_found :
      (env : st.Env) (bytes : Text) → (st.read_file env).0 ≡ ok bytes → contents env ≡ some bytes
  pub read_keeps : (env : st.Env) → contents (st.read_file env).1 ≡ contents env
  pub remove_done :
      (env : st.Env) → (st.remove_file env).0 ≡ none → contents (st.remove_file env).1 ≡ none
  pub remove_missing :
      (env : st.Env)
      → (st.remove_file env).0 ≡ some not_exist
      → contents (st.remove_file env).1 ≡ none
  pub remove_failed :
      (env : st.Env) (e : UpdateError)
      → (st.remove_file env).0 ≡ some e
      → is_not_exist e ≡ false
      → contents (st.remove_file env).1 ≡ contents env
  pub create_keeps : (env : st.Env) → contents (st.create_temp env).1 ≡ contents env
  pub create_empty :
      (env : st.Env) (name : Text)
      → (st.create_temp env).0 ≡ some name
      → temp name (st.create_temp env).1 ≡ []
  pub chmod_keeps :
      (name : Text) (env : st.Env)
      → (contents (st.chmod name env).1 ≡ contents env)
        × (temp name (st.chmod name env).1 ≡ temp name env)
  pub append_keeps :
      (name bytes : Text) (env : st.Env) → contents (st.append name bytes env).1 ≡ contents env
  pub append_done :
      (name bytes : Text) (env : st.Env)
      → (st.append name bytes env).0 ≡ true
      → temp name (st.append name bytes env).1 ≡ temp name env ++ bytes
  pub sync_keeps :
      (name : Text) (env : st.Env)
      → (contents (st.sync name env).1 ≡ contents env)
        × (temp name (st.sync name env).1 ≡ temp name env)
  pub close_keeps :
      (name : Text) (env : st.Env)
      → (contents (st.close name env).1 ≡ contents env)
        × (temp name (st.close name env).1 ≡ temp name env)
  pub rename_done :
      (name : Text) (env : st.Env)
      → (st.rename name env).0 ≡ true
      → contents (st.rename name env).1 ≡ some (temp name env)
  pub rename_failed :
      (name : Text) (env : st.Env)
      → (st.rename name env).0 ≡ false
      → contents (st.rename name env).1 ≡ contents env
  pub discard_keeps : (name : Text) (env : st.Env) → contents (st.discard name env) ≡ contents env

pub not_exist_only : (e : UpdateError) → is_not_exist e ≡ true → e ≡ not_exist
not_exist_only not_exist t = refl
not_exist_only metadata_invalid t = absurd (ground (arith, t))
not_exist_only signature_invalid t = absurd (ground (arith, t))
not_exist_only unknown_signing_key t = absurd (ground (arith, t))
not_exist_only unsafe_update_path t = absurd (ground (arith, t))
not_exist_only update_unavailable t = absurd (ground (arith, t))
not_exist_only download_invalid t = absurd (ground (arith, t))
not_exist_only (other_error x) t = absurd (ground (arith, t))

module _ (f : Formats) (st : Storage) (keys : List (Text × Text)) (root : Text)
    (s : IsStorage st) where
  open st use {Env}

  -- The pending file is `c`, and the temporary file has the bytes `t`.
  abbrev Holds : Text → Option Text → Text → Env → Type 0
  Holds name c t env = (s.contents env ≡ c) × (s.temp name env ≡ t)

  abbrev pub Is : Option Text → Env → Type 0
  Is c env = s.contents env ≡ c

  or_close-Triple :
      (name : Text) (step : Env → Bool × Env) (c : Option Text) (t t' : Text)
      → ((env : Env) → Holds name c t env → Is c (step env).1)
      → ((env : Env) → Holds name c t env → (step env).0 ≡ true → s.temp name (step env).1 ≡ t')
      → Triple
          (Holds name c t)
          (or_close f st keys root name step)
          (λ _. Holds name c t')
          (λ _. Is c)
  unfolding or_close
  or_close-Triple name step c t t' k d = record {
    at = λ env h. elim (Bool-cases (step env).0) [
      | inl q ↦ rw q (k env h, d env h q)
      | inr q ↦ rw q ((s.close_keeps name (step env).1).0 ∙ k env h)
    ];
  }

  or_fail-Triple :
      (step : Env → Bool × Env) (P Q : Env → Type 0) (c : Option Text)
      → ((env : Env) → P env → (step env).0 ≡ true → Q (step env).1)
      → ((env : Env) → P env → (step env).0 ≡ false → Is c (step env).1)
      → Triple P (or_fail f st keys root step) (λ _. Q) (λ _. Is c)
  unfolding or_fail
  or_fail-Triple step P Q c k d = record {
    at = λ env h. elim (Bool-cases (step env).0) [
      | inl q ↦ rw q (k env h q)
      | inr q ↦ rw q (d env h q)
    ];
  }

  replace_by-Triple :
      (name bytes : Text) (c : Option Text)
      → Triple
          (Holds name c [])
          (replace_by f st keys root name bytes)
          (λ _. Is (some bytes))
          (λ _. Is c)
  unfolding replace_by
  replace_by-Triple name bytes c =
      Triple-bind _ _
        (or_close-Triple name (st.chmod name) c [] [] (λ env h. (s.chmod_keeps name env).0 ∙ h.0)
          (λ env h q. (s.chmod_keeps name env).1 ∙ h.1))
        (λ _.
          Triple-bind _ _
            (or_close-Triple name (st.append name bytes) c [] bytes
              (λ env h. s.append_keeps name bytes env ∙ h.0)
              (λ env h q. s.append_done name bytes env q ∙ ap (λ t. t ++ bytes) h.1))
            (λ _.
              Triple-bind _ _
                (or_close-Triple name (st.sync name) c bytes bytes
                  (λ env h. (s.sync_keeps name env).0 ∙ h.0)
                  (λ env h q. (s.sync_keeps name env).1 ∙ h.1))
                (λ _.
                  Triple-bind _ _
                    (or_fail-Triple (st.close name) (Holds name c bytes) (Holds name c bytes) c
                      (λ env h q.
                        ((s.close_keeps name env).0 ∙ h.0, (s.close_keeps name env).1 ∙ h.1))
                      (λ env h q. (s.close_keeps name env).0 ∙ h.0))
                    (λ _.
                      or_fail-Triple (st.rename name) (Holds name c bytes) (Is (some bytes)) c
                        (λ env h q. s.rename_done name env q ∙ ap (λ t. some t) h.1)
                        (λ env h q. s.rename_failed name env q ∙ h.0)))))

  discarded :
      (name : Text) (c d : Option Text) (r : Result UpdateError Done) (env : Env)
      → Ends (λ _. Is c) (λ _. Is d) r env
      → Ends (λ _. Is c) (λ _. Is d) r (st.discard name env)
  discarded name c d (ok _) env h = s.discard_keeps name env ∙ h
  discarded name c d (err _) env h = s.discard_keeps name env ∙ h

  write_file_lem :
      (bytes : Text) (o : Option Text) (env : Env) (c : Option Text)
      → Is c env
      → ((name : Text) → o ≡ some name → s.temp name env ≡ [])
      → Ends
          (λ _. Is (some bytes))
          (λ _. Is c)
          (write_file f st keys root bytes o env).0
          (write_file f st keys root bytes o env).1
  unfolding write_file then_discard fail
  write_file_lem bytes none env c h k = h
  write_file_lem bytes (some name) env c h k =
      discarded name (some bytes) c _ _ ((replace_by-Triple name bytes c).at env (h, k name refl))

  write_bytes_lem :
      (bytes : Text) (env : Env)
      → Ends
          (λ _. Is (some bytes))
          (λ _. Is (s.contents env))
          (write_bytes f st keys root bytes env).0
          (write_bytes f st keys root bytes env).1
  unfolding write_bytes
  write_bytes_lem bytes env =
      write_file_lem bytes _ _ _ (s.create_keeps env) (λ name q. s.create_empty env name q)

  -- The file holds the record as JSON with a newline.
  abbrev pub Written : PendingUpdate → Env → Type 0
  Written p env =
      (json : Text) × (st.encode_pending p ≡ some json) × Is (some (json ++ b'\n' ∷ [])) env

  write_encoded_lem :
      (p : PendingUpdate) (o : Option Text) (env : Env)
      → st.encode_pending p ≡ o
      → Ends
          (λ _. Written p)
          (λ _. Is (s.contents env))
          (write_encoded f st keys root o env).0
          (write_encoded f st keys root o env).1
  unfolding write_encoded fail
  write_encoded_lem p none env q = refl
  write_encoded_lem p (some json) env q = encoded _ _ (write_bytes_lem (json ++ b'\n' ∷ []) env)
    where
      encoded :
          (r : Result UpdateError Done) (env' : Env)
          → Ends (λ _. Is (some (json ++ b'\n' ∷ []))) (λ _. Is (s.contents env)) r env'
          → Ends (λ _. Written p) (λ _. Is (s.contents env)) r env'
      encoded (ok _) env' h = (json, q, h)
      encoded (err _) env' h = h

  -- If the file operations work as `IsStorage` says, writing the record is all or nothing: if it
  -- succeeds, the file holds the record as JSON with a newline, and if any of its steps fails, the
  -- file is what it was.
  pub write_pending_lem :
      (p : PendingUpdate) (env : Env)
      → Ends
          (λ _. Written p)
          (λ _. Is (s.contents env))
          (write_pending f st keys root p env).0
          (write_pending f st keys root p env).1
  unfolding write_pending
  write_pending_lem p env = write_encoded_lem p (st.encode_pending p) env refl

  -- A removal that succeeds leaves no file, one that fails the file as it was.
  pub remove_pending_lem :
      (env : Env)
      → Ends
          (λ _. Is none)
          (λ _. Is (s.contents env))
          (remove_pending f st keys root env).0
          (remove_pending f st keys root env).1
  unfolding remove_pending
  remove_pending_lem env = go (st.remove_file env).0 refl
    where
      go :
          (o : Option UpdateError)
          → (st.remove_file env).0 ≡ o
          → Ends
              (λ _. Is none)
              (λ _. Is (s.contents env))
              (removed f st keys root (st.remove_file env).0)
              (st.remove_file env).1
      go none q = rw q (s.remove_done env q)
      go (some e) q = elim (Bool-cases (is_not_exist e)) [
        | inl t ↦ rw (q, t) (s.remove_missing env (q ∙ ap (λ e. some e) (not_exist_only e t)))
        | inr t ↦ rw (q, t) (s.remove_failed env e q t)
      ]
