-- ===== src/Update/Client.antt =====
-- The client of the update service: internal/managerupdate/client.go.
use Prim.Native.Nat.{Ordering}
use longhub_manager.Common.{
  ℕ, ◌+◌, ◌*◌, ◌/◌, ◌%◌, Bool, true, false, not, ◌&&◌, ◌||◌, Option, none, some, List, [], ◌∷◌,
  ◌++◌, Text, length, take, ltb, ◌==◌, if◌then◌else◌, Result, ok, err, Action, fail, ◌>>=◌, lit,
  text_eq, is_empty, pos, exceeds, trim_space, all,
}
use longhub_manager.Update.Errors.{UpdateError, metadata_invalid, update_unavailable}
use longhub_manager.Update.Version.{version_pattern, compare_versions}
use longhub_manager.Update.Manifest.{
  Envelope, Formats, key_id_pattern, parse_and_verify, rollout_eligible,
}
use longhub_manager.Update.Host.{Url, Response, Host}

pub record Candidate : Type 0 where
  pub envelope : Envelope
  pub available : Bool
  pub eligible : Bool

pub record Client : Type 0 where
  pub base_url : Url
  pub trusted_keys : List (Text × Text)

abbrev pub Done : Type 0
Done = Unit {0}

-- `Candidate{}`, with which a check ends that finds no release
abbrev pub no_candidate : Candidate
no_candidate = record {
  envelope = record {
    manifest = record {
      schema_version = [];
      product_surface = [];
      sequence = pos 0;
      version = [];
      channel = [];
      platform = [];
      arch = [];
      filename = [];
      size = pos 0;
      sha256 = [];
      url_path = [];
      published_at = [];
      rollback_data_strategy = [];
      rollout = record { status = []; basis_points = pos 0; seed = []; updated_at = [] };
    };
    signature_key_id = [];
    signature = [];
  };
  available = false;
  eligible = false;
}

abbrev max_metadata_bytes : ℕ
max_metadata_bytes = 256 * 1024

-- `hex.EncodeToString`
abbrev hex_digit : ℕ → ℕ
hex_digit n = if ltb n 10 then b'0' + n else 87 + n

unfoldable pub hex : Text → Text
hex [] = []
hex (c ∷ s) = hex_digit (c / 16) ∷ hex_digit (c % 16) ∷ hex s

-- `strings.TrimRight` with one byte
unfoldable pub trim_right : ℕ → Text → Text
trim_right c [] = []
trim_right c (a ∷ s) = let rest = trim_right c s in if a == c && is_empty rest then [] else a ∷ rest

-- `io.ReadAll` of an `io.LimitReader`
unfoldable pub read_limited : ℕ → Response → Option Text
read_limited n r = if r.broken && ltb (length r.body) n then none else some (take n r.body)

abbrev known_channel : Text → Bool
known_channel channel = text_eq channel (lit "stable") || text_eq channel (lit "beta")

abbrev is_greater : Ordering → Bool
is_greater Ordering.gt = true
is_greater _ = false

module _ {Env : Type 0} (f : Formats) (h : Host Env) where
  abbrev pub M : Type 0 → Type 0
  M A = Action UpdateError Env A

  unfoldable pub loopback_host : Text → Bool
  loopback_host host = h.equal_fold host (lit "localhost") || h.is_loopback_ip host

  -- The keys that are trusted: none of them with a name or a size of another form.
  abbrev good_key : Text × Text → Bool
  good_key (id, key) = key_id_pattern id && length key == 32

  unfoldable pub good_keys : List (Text × Text) → Bool
  good_keys keys = not (length keys == 0) && all good_key keys

  -- The guards of `NewClient` on the parsed URL.
  unfoldable pub bad_base : Url → Bool
  bad_base u =
      is_empty u.scheme
      || is_empty u.host
      || u.has_user
      || not (is_empty u.raw_query)
      || u.force_query
      || not (is_empty u.fragment)

  unfoldable pub insecure : Url → Bool
  unfolding loopback_host
  insecure u =
      not (text_eq u.scheme (lit "https"))
      && not (text_eq u.scheme (lit "http") && loopback_host (h.hostname u))

  -- `NewClient`
  unfoldable pub new_client : Text → List (Text × Text) → Result UpdateError Client
  unfolding bad_base insecure good_keys
  new_client base_url keys = elim (h.parse_url (trim_space base_url)) [
    | none ↦ err update_unavailable
    | some u ↦
        if bad_base u || insecure u || not (good_keys keys)
        then err update_unavailable
        else ok (record { base_url = u; trusted_keys = keys })
  ]

  -- `fetchEnvelope`, from the decoded body on; `none` where there is no release
  unfoldable pub verify_release :
      Client → Option (Text × Bool) → Result UpdateError (Option Envelope)
  verify_release c none = err update_unavailable
  verify_release c (some (release, at_end)) =
      if is_empty release || not at_end
      then err update_unavailable
      else if text_eq release (lit "null")
      then ok none
      else elim (parse_and_verify f release c.trusted_keys) [ err e ↦ err e | ok e ↦ ok (some e) ]

  unfoldable pub read_release : Client → Option Text → Result UpdateError (Option Envelope)
  unfolding verify_release
  read_release c none = err update_unavailable
  read_release c (some body) =
      if ltb max_metadata_bytes (length body)
      then err update_unavailable
      else verify_release c (h.decode_release body)

  unfoldable pub receive_release : Client → Option Response → Result UpdateError (Option Envelope)
  unfolding read_release read_limited
  receive_release c none = err update_unavailable
  receive_release c (some r) =
      if r.status_code == 404
      then ok none
      else if not (r.status_code == 200) || exceeds r.content_length max_metadata_bytes
      then err update_unavailable
      else read_release c (read_limited (max_metadata_bytes + 1) r)

  abbrev pub release_url : Client → Text → Text → Url
  release_url c path channel = record c.base_url {
    path = trim_right b'/' c.base_url.path ++ path;
    raw_query = h.set_query c.base_url.raw_query (lit "channel") channel;
  }

  -- `fetchEnvelope`
  unfoldable pub fetch_envelope : Client → Text → Text → M (Option Envelope)
  unfolding receive_release trim_right
  fetch_envelope c path channel env =
      if not (h.is_request (release_url c path channel))
      then (err update_unavailable, env)
      else (let (r, env') = h.send (release_url c path channel) (lit "application/json") env in
          (receive_release c r, env'))

  -- `Check`, from the fetched envelope on
  unfoldable pub judge : Text → Text → Text → Option Envelope → Result UpdateError Candidate
  judge current channel identity none = ok no_candidate
  judge current channel identity (some e) = elim (compare_versions e.manifest.version current) [
    | err _ ↦ err metadata_invalid
    | ok comparison ↦
        if not (text_eq e.manifest.channel channel)
        then err metadata_invalid
        else elim (rollout_eligible f e.manifest.rollout identity) [
          | err x ↦ err x
          | ok eligible ↦ ok (record {
            envelope = e;
            available = is_greater comparison;
            eligible = is_greater comparison && eligible;
          })
        ]
  ]

  abbrev returned : {A : Type 0} → Result UpdateError A → M A
  returned r env = (r, env)

  -- `Check`
  unfoldable pub check : Client → Text → Text → Text → M Candidate
  unfolding fetch_envelope judge
  check c current channel identity =
      if not (known_channel channel) || not (version_pattern current)
      then fail update_unavailable
      else (do
        found ← fetch_envelope c (lit "/v1/client-releases/latest") channel
        returned (judge current channel identity found))

  unfoldable pub match_exact : Text → Text → Option Envelope → Result UpdateError Envelope
  match_exact version channel none = err update_unavailable
  match_exact version channel (some e) =
      if not (text_eq e.manifest.version version) || not (text_eq e.manifest.channel channel)
      then err update_unavailable
      else ok e

  -- `Exact`
  unfoldable pub exact : Client → Text → Text → M Envelope
  unfolding fetch_envelope match_exact
  exact c version channel =
      if not (version_pattern version) || not (known_channel channel)
      then fail update_unavailable
      else (do
        found ←
            fetch_envelope c (lit "/v1/client-releases/versions/" ++ h.path_escape version) channel
        returned (match_exact version channel found))
