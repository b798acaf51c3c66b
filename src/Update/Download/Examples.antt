-- ===== src/Update/Download/Examples.antt =====
-- A download of an installer of two bytes to a disk in memory.
use longhub_manager.Common.{
  ◌*◌, ◌≤◌, ◌≡◌, ◌≢◌, refl, ap, true, false, Option, none, some, [], ◌∷◌, ◌++◌, Text, Result, ok,
  err, lit, text_eq, if◌then◌else◌, pos, length, length-append, arith, pure, ◌>>=◌,
}
use longhub_manager.System.{FileError, missing, FileInfo, run_or}
use longhub_manager.System.Memory.{Disk, memory, memory-IsFileSystem, temp_name, erase, lookup}
use longhub_manager.Update.Version.{version_pattern}
use longhub_manager.Update.Manifest.{
  Manifest, Formats, validate_manifest, wrong_product, wrong_release, wrong_channel, wrong_file,
  wrong_content, hex_digest_pattern, wrong_strategy, wrong_status, wrong_share,
}
use longhub_manager.Update.Host.{Url, Response, Host}
use longhub_manager.Update.Client.{Candidate, Client, hex}
use longhub_manager.Update.Download.{download}
use longhub_manager.Update.Download.Verified.{IsDisk, IsInstaller, download_lem}
use longhub_manager.Update.Examples.{repeat, manifest, envelope, formats, keys}

-- A digest that tells texts of different lengths apart.
abbrev length_formats : Formats
length_formats = record formats { digest = λ s. repeat 32 (17 * length s) }

abbrev small_manifest : Manifest
small_manifest = record manifest { size = pos 2; sha256 = repeat 64 b'2' }

abbrev base : Url
base = record {
  scheme = lit "https";
  has_user = false;
  host = lit "updates.example";
  path = [];
  raw_path = [];
  raw_query = [];
  force_query = false;
  fragment = [];
}

abbrev installer : Response
installer = record { status_code = 200; content_length = pos 2; body = lit "MZ"; broken = false }

abbrev root : Text
root = lit "/u"

abbrev info : Option Text → Result FileError FileInfo
info none = err missing
info (some d) =
    ok (record { is_regular = true; is_symlink = false; is_directory = false; size = length d })

abbrev directory : FileInfo
directory = record { is_regular = false; is_symlink = false; is_directory = true; size = 0 }

-- Files are kept in memory, beside one directory; every request is answered with the installer.
abbrev disk_host : Host Disk
disk_host = record {
  parse_url = λ s. some base;
  hostname = λ u. u.host;
  path_escape = λ s. s;
  set_query = λ query k v. v;
  equal_fold = text_eq;
  is_loopback_ip = λ s. false;
  is_request = λ u. true;
  send = λ u accept disk. (some installer, disk);
  decode_release = λ s. none;
  is_abs = λ path. true;
  clean = λ path. path;
  join = λ dir name. dir ++ b'/' ∷ name;
  dir_name = λ path. root;
  lstat = λ path disk. if text_eq path root then ok directory else info (lookup path disk);
  read_file = memory.read_file;
  make_dirs = memory.make_dirs;
  create_temp = memory.create_temp;
  create_exclusive = λ path disk. (some missing, disk);
  chmod = memory.chmod;
  write = memory.write;
  sync = memory.sync;
  close = memory.close;
  rename = memory.rename;
  remove = memory.remove;
  now = λ disk. lit "2025-01-03T00:00:00Z";
  launch = λ path mode disk. (none, disk);
  stop = none;
}

abbrev disk_host-IsDisk : IsDisk disk_host
disk_host-IsDisk = record {
  IsTemp = memory-IsFileSystem.IsTemp;
  created = λ dir name disk h. (
    memory-IsFileSystem.create_named dir name disk h,
    memory-IsFileSystem.create_empty dir name disk h,
  );
  chmod_keeps = λ path d disk h. h;
  sync_keeps = λ path d disk h. h;
  close_keeps = λ path q d disk h. h;
  write_done = λ path bytes old disk q i. memory-IsFileSystem.write_done path bytes old disk q i;
  rename_done = λ from to d disk q i. memory-IsFileSystem.rename_done from to d disk q i;
  remove_others = λ path q d disk n i. memory-IsFileSystem.remove_others path q d disk n i;
}

abbrev client : Client
client = record { base_url = base; trusted_keys = keys }

abbrev offer : Candidate
offer = record {
  envelope = record envelope { manifest = small_manifest };
  available = true;
  eligible = true;
}

long_name : 5 ≤ length small_manifest.filename
unfolding lit
long_name = omega arith

not_temporary : (dir : Text) → disk_host.join dir small_manifest.filename ≢ temp_name
unfolding lit
not_temporary dir h =
    omega (arith, ap length h, length-append {0} dir (b'/' ∷ small_manifest.filename), long_name)

abbrev target : Text
target = disk_host.join root small_manifest.filename

-- The installer is fetched, checked and put in its place.
downloaded : (download length_formats disk_host client offer root []).0 ≡ ok target
unfolding download lit validate_manifest wrong_product text_eq wrong_release version_pattern
    wrong_channel wrong_file wrong_content hex_digest_pattern wrong_strategy wrong_status
    wrong_share ◌>>=◌ run_or pure hex lookup erase
downloaded = refl

stored_bytes :
    disk_host.read_file target (download length_formats disk_host client offer root []).1
    ≡ ok (lit "MZ")
unfolding download lit validate_manifest wrong_product text_eq wrong_release version_pattern
    wrong_channel wrong_file wrong_content hex_digest_pattern wrong_strategy wrong_status
    wrong_share ◌>>=◌ run_or pure hex lookup erase
stored_bytes = refl

download_lem_example :
    IsInstaller length_formats disk_host disk_host-IsDisk small_manifest target
      (download length_formats disk_host client offer root []).1
    × (true ≡ true)
    × (true ≡ true)
download_lem_example =
    download_lem length_formats disk_host disk_host-IsDisk client offer root not_temporary target []
      downloaded
