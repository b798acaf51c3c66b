-- ===== src/Update/Manifest/Share.antt =====
-- A growing rollout keeps whom it reached.
use longhub_manager.Common.{ℕ, ◌≤◌, ◌<◌, ◌≡◌, true, Text, ok, pos, arith}
use longhub_manager.Update.Manifest.{Rollout, Formats, bucket, rollout_eligible}

module _ (f : Formats) where
  bucket-lt : (seed identity : Text) → bucket f seed identity < 10000
  unfolding bucket
  bucket-lt seed identity = omega arith

  -- An identity that a rollout reaches stays reached when the share of the rollout grows to at most
  -- 10000 basis points and its status and seed stay the same.
  pub rollout_eligible_mono :
      (r : Rollout) (n m : ℕ) (identity : Text)
      → r.basis_points ≡ pos n
      → n ≤ m
      → m ≤ 10000
      → rollout_eligible f r identity ≡ ok true
      → rollout_eligible f (record r { basis_points = pos m }) identity ≡ ok true
  unfolding rollout_eligible
  rollout_eligible_mono r n m identity e grows fits h =
      ground (arith, e, grows, fits, h, bucket-lt r.seed identity)
