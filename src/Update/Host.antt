-- ===== src/Update/Host.antt =====
-- What the client and the coordinator of internal/managerupdate call: URLs, HTTP, files, the clock,
-- and the start of an installer.
use longhub_manager.Common.{ℕ, Bool, Option, Text, Result, ℤ}
use longhub_manager.System.{FileError, FileInfo}
use longhub_manager.Update.Errors.{UpdateError}

-- The fields of `url.URL` that the code reads or sets.
pub record Url : Type 0 where
  pub scheme : Text
  pub has_user : Bool
  pub host : Text
  pub path : Text
  pub raw_path : Text
  pub raw_query : Text
  pub force_query : Bool
  pub fragment : Text

-- A response: the length that its header gives (-1 if it gives none), the bytes that the body has,
-- and whether reading them ends in an error.
pub record Response : Type 0 where
  pub status_code : ℕ
  pub content_length : ℤ
  pub body : Text
  pub broken : Bool

-- `Env` is all that the calls may read and change. A file that is open goes by its path.
pub record Host (Env : Type 0) : Type 0 where
  -- `url.Parse`, `Hostname`, `url.PathEscape`, and a query with one key set, encoded again
  pub parse_url : Text → Option Url
  pub hostname : Url → Text
  pub path_escape : Text → Text
  pub set_query : Text → Text → Text → Text
  -- `strings.EqualFold`, and whether a text is an IP address of the host itself
  pub equal_fold : Text → Text → Bool
  pub is_loopback_ip : Text → Bool
  -- `http.NewRequest` of a URL and `Do` with an `Accept` header, which follows no redirect
  pub is_request : Url → Bool
  pub send : Url → Text → Env → Option Response × Env
  -- The strict decoding of `{"release": ...}`: the raw value, and whether the text ends there
  pub decode_release : Text → Option (Text × Bool)
  -- `filepath`
  pub is_abs : Text → Bool
  pub clean : Text → Text
  pub join : Text → Text → Text
  pub dir_name : Text → Text
  -- The calls on files; `create_exclusive` is `os.OpenFile` with `O_CREATE` and `O_EXCL`
  pub lstat : Text → Env → Result FileError FileInfo
  pub read_file : Text → Env → Result FileError Text
  pub make_dirs : Text → Env → Option FileError × Env
  pub create_temp : Text → Env → Result FileError Text × Env
  pub create_exclusive : Text → Env → Option FileError × Env
  pub chmod : Text → Env → Option FileError × Env
  pub write : Text → Text → Env → Option FileError × Env
  pub sync : Text → Env → Option FileError × Env
  pub close : Text → Env → Option FileError × Env
  pub rename : Text → Text → Env → Option FileError × Env
  pub remove : Text → Env → Option FileError × Env
  -- `time.Now` as the text of a time
  pub now : Env → Text
  -- The start of an installer in a mode, and the stop of the process, if there is one to be called
  pub launch : Text → Text → Env → Option UpdateError × Env
  pub stop : Option (Env → Env)
