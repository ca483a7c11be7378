-- ===== src/Tracker.antt =====
-- tracker.py: the hashes that chain the ballots of a device.
use electionguard_python.Prelude.Int.{ℤ}
use electionguard_python.Prelude.Digits.{Text}
use electionguard_python.External.{Sha256}
use electionguard_python.Group.{ElementModQ}
use electionguard_python.Hash.{elem_q, int, text, end, item, hash_elems}

module _ (sha256 : Sha256) where
  pub get_hash_for_device : ℤ → Text → ElementModQ
  get_hash_for_device uuid location = hash_elems sha256 (item (int uuid) (item (text location) end))

  pub get_rotating_tracker_hash : ElementModQ → ℤ → ElementModQ → ElementModQ
  get_rotating_tracker_hash prev_hash timestamp ballot_hash =
      hash_elems sha256
        (item (elem_q prev_hash) (item (int timestamp) (item (elem_q ballot_hash) end)))
