-- ===== src/ControlJobs/Examples.antt =====
-- A tracker with one live job.
use a_hand.Base.{◌≡◌, refl, [], ◌∷◌, some}
use a_hand.Base.Text.{text_eq, codes}
use a_hand.ControlJobs.{ControlJobTracker, JobChannels, correlation_key}
use a_hand.ControlJobs.Correlation.{correlation_key_injective}

abbrev live : JobChannels
live = record {
  events = [];
  device_id = codes "d1";
  external_user_id = codes "u1";
  correlation_id = some (codes "c1");
  started_at = 5;
}

abbrev tracker : ControlJobTracker
tracker = record {
  jobs = (codes "j1", live) ∷ [];
  completed_access = [];
  correlation_index = (correlation_key (codes "u1") (codes "c1"), codes "j1") ∷ [];
  completed_access_retention = 100;
}

correlation_key_injective_example : (codes "u:1" ≡ codes "u:1") × (codes "c1" ≡ codes "c1")
correlation_key_injective_example =
    correlation_key_injective (codes "u:1") (codes "u:1") (codes "c1") (codes "c1") refl
