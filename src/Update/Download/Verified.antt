-- ===== src/Update/Download/Verified.antt =====
-- What `Download` of internal/managerupdate/client.go gives is the installer of the manifest.
use longhub_manager.Common.{
  ℕ, zero, suc, ◌∷◌, ◌+◌, ◌≡◌, ◌≢◌, refl, ap, ◌∙◌, inl, inr, Bool, true, false, not, ◌&&◌, ◌||◌,
  Option, none, some, [], ◌++◌, Text, length, take, ltb, Result, ok, err, Ends, Triple-bind,
  Triple-mono, Triple-fail, Triple-pure, Triple-if, fail, ◌>>=◌, arith, Bool-cases, same_integer,
  pos, lit,
}
use longhub_manager.System.{FileError, FileInfo, is_missing, run_or}
use longhub_manager.System.Kept.{Gives, Gives-any, run_or-Triple, Ends-ok, Triple-pre, Triple-given}
use longhub_manager.Update.Errors.{UpdateError, unsafe_update_path, download_invalid}
use longhub_manager.Update.Manifest.{Manifest, Formats, max_installer_bytes, validate_manifest}
use longhub_manager.Update.Host.{Response, Host}
use longhub_manager.Update.Client.{Candidate, Client, Done}
use longhub_manager.Update.Download.{
  describes, verify_read, verify_found, installer_state, wrong_response, copied, store, cleaned,
  create_in, save, fetch, unless_there, obtain, download, prepare_private_root, download_url,
  present,
}

-- What is relied on of the files: temporary files are new and have names of their own, and a call
-- leaves other files as they are.
pub record IsDisk {Env : Type 0} (h : Host Env) : Type 1 where
  pub IsTemp : Text → Type 0
  pub created :
      (dir name : Text) (env : Env)
      → (h.create_temp dir env).0 ≡ ok name
      → IsTemp name × (h.read_file name (h.create_temp dir env).1 ≡ ok [])
  pub chmod_keeps :
      (path d : Text) (env : Env)
      → h.read_file path env ≡ ok d
      → h.read_file path (h.chmod path env).1 ≡ ok d
  pub sync_keeps :
      (path d : Text) (env : Env)
      → h.read_file path env ≡ ok d
      → h.read_file path (h.sync path env).1 ≡ ok d
  pub close_keeps :
      (path q d : Text) (env : Env)
      → h.read_file q env ≡ ok d
      → h.read_file q (h.close path env).1 ≡ ok d
  pub write_done :
      (path bytes old : Text) (env : Env)
      → (h.write path bytes env).0 ≡ none
      → h.read_file path env ≡ ok old
      → h.read_file path (h.write path bytes env).1 ≡ ok (old ++ bytes)
  pub rename_done :
      (from to d : Text) (env : Env)
      → (h.rename from to env).0 ≡ none
      → h.read_file from env ≡ ok d
      → h.read_file to (h.rename from to env).1 ≡ ok d
  pub remove_others :
      (path q d : Text) (env : Env)
      → q ≢ path
      → h.read_file q env ≡ ok d
      → h.read_file q (h.remove path env).1 ≡ ok d

take_twice : (n : ℕ) (s : Text) → take n (take n s) ≡ take n s
take_twice zero s = refl
take_twice (suc n) [] = refl
take_twice (suc n) (c ∷ s) = ap (λ t. c ∷ t) (take_twice n s)

module _ {Env : Type 0} (f : Formats) (h : Host Env) (k : IsDisk h) where
  abbrev Has : Text → Text → Env → Type 0
  Has path d env = h.read_file path env ≡ ok d

  -- The file is there, with bytes that the manifest describes.
  abbrev pub IsInstaller : Manifest → Text → Env → Type 0
  IsInstaller m path env =
      (bytes : Text) × Has path bytes env
      × (describes f h m (take (max_installer_bytes + 1) bytes) ≡ true)

  abbrev capped : Response → Text
  capped r = take (max_installer_bytes + 1) r.body

  step :
      (P Q : Env → Type 0) (e : UpdateError) (call : Env → Option FileError × Env)
      → ((env : Env) → P env → (call env).0 ≡ none → Q (call env).1)
      → Gives P (run_or (λ _. e) call) (λ _. Q)
  step P Q e call good = run_or-Triple P Q (λ _. Unit {0}) (λ _. e) call good (λ env x p q. tt)

  middle : (a b c : Bool) → (a || not b || c) ≡ false → b ≡ true
  middle a b c q = ground (arith, q)

  copied-Gives :
      (m : Manifest) (r : Response) (tmp : Text)
      → Gives
          (Has tmp (capped r))
          (copied f h m r)
          (λ _ env. Has tmp (capped r) env × (describes f h m (capped r) ≡ true))
  unfolding copied
  copied-Gives m r tmp =
      Triple-if
        (r.broken && ltb (length r.body) (max_installer_bytes + 1)
          || not (describes f h m (capped r))
          || ltb max_installer_bytes (length (capped r)))
        _ _ (λ q. Triple-fail _ (λ env i. tt))
        (λ q.
          Triple-pre (λ env. Has tmp (capped r) env × (describes f h m (capped r) ≡ true)) _ _ _ _
            (λ env there. (there, middle _ _ _ q)) (Triple-pure tt))

  abbrev Stored : Manifest → Text → Response → Text → Env → Type 0
  Stored m target r path env =
      (path ≡ target) × Has target (capped r) env × (describes f h m (capped r) ≡ true)

  store-Gives :
      (m : Manifest) (target tmp : Text) (r : Response)
      → Gives (Has tmp []) (store f h m target r tmp) (Stored m target r)
  unfolding store
  store-Gives m target tmp r =
      Triple-bind _ _
        (step (Has tmp []) (Has tmp []) unsafe_update_path (h.chmod tmp)
          (λ env p q. k.chmod_keeps tmp [] env p))
        (λ _.
          Triple-bind _ _
            (step (Has tmp []) (Has tmp (capped r)) download_invalid (h.write tmp (capped r))
              (λ env p q. k.write_done tmp (capped r) [] env q p))
            (λ _. Triple-bind _ _ (copied-Gives m r tmp) (λ _.
              Triple-bind _ _
                (step _ (λ env. Has tmp (capped r) env × (describes f h m (capped r) ≡ true))
                  download_invalid (h.sync tmp)
                  (λ env p q. (k.sync_keeps tmp (capped r) env p.0, p.1)))
                (λ _.
                  Triple-bind _ _
                    (step _ (λ env. Has tmp (capped r) env × (describes f h m (capped r) ≡ true))
                      download_invalid (h.close tmp)
                      (λ env p q. (k.close_keeps tmp tmp (capped r) env p.0, p.1)))
                    (λ _.
                      Triple-bind _ _
                        (step _
                          (λ env. Has target (capped r) env × (describes f h m (capped r) ≡ true))
                          unsafe_update_path (h.rename tmp target)
                          (λ env p q. (k.rename_done tmp target (capped r) env q p.0, p.1)))
                        (λ _.
                          Triple-pre (Stored m target r target) _ _ _ _ (λ env p. (refl, p.0, p.1))
                            (Triple-pure target)))))))

  cleaned-Gives :
      (m : Manifest) (target tmp : Text) (r : Response)
      → target ≢ tmp
      → Gives (Has tmp []) (cleaned f h tmp (store f h m target r tmp)) (Stored m target r)
  unfolding cleaned
  cleaned-Gives m target tmp r differs = record {
    at = λ env there.
        go (store f h m target r tmp env).0 (store f h m target r tmp env).1
          ((store-Gives m target tmp r).at env there);
  }
    where
      go :
          (x : Result UpdateError Text) (env : Env)
          → Ends (Stored m target r) (λ _ _. Unit {0}) x env
          → Ends (Stored m target r) (λ _ _. Unit {0}) x (h.remove tmp (h.close tmp env).1).1
      go (ok path) env (same, there, good) = (
        same,
        k.remove_others tmp target (capped r) _ differs
            (k.close_keeps tmp target (capped r) env there),
        good,
      )
      go (err e) env i = tt

  -- Once more without the response.
  abbrev Given : Manifest → Text → Text → Env → Type 0
  Given m target path env = (path ≡ target) × IsInstaller m target env

  create_in-Gives :
      (root : Text)
      → Gives (λ _. Unit {0}) (create_in f h root) (λ tmp env. Has tmp [] env × k.IsTemp tmp)
  unfolding create_in
  create_in-Gives root = record { at = λ env i. go env (h.create_temp root env).0 refl }
    where
      go :
          (env : Env) (x : Result FileError Text)
          → (h.create_temp root env).0 ≡ x
          → Ends
              (λ tmp env. Has tmp [] env × k.IsTemp tmp)
              (λ _ _. Unit {0})
              (create_in f h root env).0
              (create_in f h root env).1
      go env (ok name) q =
          let made = k.created root name env q in rw (q, create_in) (made.1, made.0)
      go env (err e) q = rw (q, create_in) tt

  save-Gives :
      (m : Manifest) (root target : Text) (o : Option Response)
      → (¬ (k.IsTemp target))
      → Gives (λ _. Unit {0}) (save f h m root target o) (Given m target)
  unfolding save
  save-Gives m root target none apart = Triple-fail _ (λ env i. tt)
  save-Gives m root target (some r) apart =
      Triple-if (wrong_response f h m r) _ _ (λ q. Triple-fail _ (λ env i. tt))
        (λ q. Triple-bind _ _ (create_in-Gives root) (λ tmp.
          Triple-given (Has tmp []) (k.IsTemp tmp) _ (Given m target) (λ _ _. Unit {0})
            (λ temp.
              Triple-mono _
                (λ path env i. (
                  i.0,
                  (
                    capped r,
                    i.1,
                    ap (describes f h m) (take_twice (max_installer_bytes + 1) r.body) ∙ i.2,
                  ),
                ))
                (λ e env i. tt) (cleaned-Gives m target tmp r (λ same. apart (rw same temp))))))

  read_there :
      (m : Manifest) (path : Text) (env : Env) (x : Result FileError Text)
      → h.read_file path env ≡ x
      → verify_read f h m x ≡ ok true
      → (bytes : Text) × Has path bytes env
        × (describes f h m (take (max_installer_bytes + 1) bytes) ≡ true)
  unfolding verify_read
  read_there m path env (err e) q v = absurd (ground (arith, v))
  read_there m path env (ok bytes) q v =
      elim (Bool-cases (describes f h m (take (max_installer_bytes + 1) bytes))) [
        | inl g ↦ (bytes, q, g)
        | inr g ↦ absurd (ground (arith, v, g))
      ]

  found_there :
      (m : Manifest) (path : Text) (env : Env) (x : Result FileError FileInfo)
      → verify_found f h m (h.read_file path env) x ≡ ok true
      → IsInstaller m path env
  unfolding verify_found
  found_there m path env (err e) q = absurd (ground (arith, q))
  found_there m path env (ok i) q =
      elim (Bool-cases
        (not i.is_regular || i.is_symlink || not (same_integer (pos i.size) m.size))) [
          | inl g ↦ absurd (ground (arith, q, g))
          | inr g ↦ read_there m path env _ refl (rw (g, verify_found) at q)
        ]

  module _ (c : Client) (m : Manifest) (root target : Text) (apart : ¬ (k.IsTemp target)) where
    abbrev Placed : Text → Env → Type 0
    Placed = Given m target

    fetch-Gives : Gives (λ _. Unit {0}) (fetch f h c m root target) Placed
    unfolding fetch
    fetch-Gives = record {
      at = λ env i. elim (Bool-cases (not (h.is_request (download_url f h c m)))) [
        | inl q ↦ rw q tt
        | inr q ↦
            let sent =
              h.send (download_url f h c m)
                (lit "application/octet-stream, application/x-msdownload") env in
            rw q ((save-Gives m root target sent.0 apart).at sent.1 tt)
      ];
    }

    unless_there-Gives :
        (x : Result FileError FileInfo)
        → Gives (λ _. Unit {0}) (unless_there f h c m root target x) Placed
    unfolding unless_there
    unless_there-Gives (ok i) = Triple-fail _ (λ env i. tt)
    unless_there-Gives (err e) =
        Triple-if (is_missing e) _ _ (λ q. fetch-Gives) (λ q. Triple-fail _ (λ env i. tt))

    obtain-Gives : Gives (λ _. Unit {0}) (obtain f h c m root target) Placed
    unfolding obtain installer_state
    obtain-Gives = record {
      at = λ env i. elim (Bool-cases (present f h (installer_state f h target m env))) [
        | inl q ↦ rw q (refl, found_there m target env _ (present_ok _ q))
        | inr q ↦ rw q ((unless_there-Gives (h.lstat target env)).at env tt)
      ];
    }
      where
        present_ok : (x : Result UpdateError Bool) → present f h x ≡ true → x ≡ ok true
        present_ok (ok b) q = ap ok q
        present_ok (err e) q = absurd (ground (arith, q))

  module _ (c : Client) (candidate : Candidate) (root : Text)
      (apart : (dir : Text) → ¬ (k.IsTemp (h.join dir candidate.envelope.manifest.filename))) where
    abbrev IsOffered : Text → Env → Type 0
    IsOffered path env =
        IsInstaller candidate.envelope.manifest path env
        × (candidate.available ≡ true)
        × (candidate.eligible ≡ true)

    download-Gives : Gives (λ _. Unit {0}) (download f h c candidate root) IsOffered
    unfolding download
    download-Gives =
        Triple-if (not candidate.available || not candidate.eligible) _ _
          (λ q. Triple-fail _ (λ env i. tt))
          (λ q.
            valid (ground (arith, q)) (ground (arith, q))
              (validate_manifest f candidate.envelope.manifest))
      where
        valid :
            candidate.available ≡ true
            → candidate.eligible ≡ true
            → (v : Result UpdateError Done)
            → Gives
                (λ _. Unit {0})
                (elim v [
                  | err e ↦ fail e
                  | ok _ ↦ (do
                    dir ← prepare_private_root f h root
                    obtain f h c candidate.envelope.manifest dir
                        (h.join dir candidate.envelope.manifest.filename))
                ])
                IsOffered
        valid a b (err e) = Triple-fail _ (λ env i. tt)
        valid a b (ok _) =
            Triple-bind _ _ (Gives-any (λ _. Unit {0}) (prepare_private_root f h root)) (λ dir.
              Triple-mono _ (λ path env i. (rw i.0 i.1, a, b)) (λ e env i. tt)
                (obtain-Gives c candidate.envelope.manifest dir
                  (h.join dir candidate.envelope.manifest.filename) (apart dir)))

    -- If the files are as relied on (`IsDisk`) and no installer has the name of a temporary file: a
    -- `Download` that succeeds gives the path of a file that is there, of the size and with the digest
    -- of the candidate's manifest, and the candidate was available and eligible.
    pub download_lem :
        (path : Text) (env : Env)
        → (download f h c candidate root env).0 ≡ ok path
        → IsInstaller candidate.envelope.manifest path (download f h c candidate root env).1
          × (candidate.available ≡ true)
          × (candidate.eligible ≡ true)
    download_lem path env e =
        Ends-ok IsOffered (λ _ _. Unit {0}) _ path _ e (download-Gives.at env tt)
