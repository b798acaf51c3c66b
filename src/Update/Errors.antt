-- ===== src/Update/Errors.antt =====
-- The errors of internal/managerupdate: the values that its files name, `os.ErrNotExist`, and the
-- others by their text.
use longhub_manager.Common.{Text}

pub data UpdateError : Type 0 where
  metadata_invalid signature_invalid unknown_signing_key unsafe_update_path not_exist
        update_unavailable download_invalid :
      UpdateError
  other_error : Text → UpdateError
