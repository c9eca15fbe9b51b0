-- ===== src/Recovery/Examples.antt =====
-- Concrete inputs for the theorems about replication/recovery: a pair whose primary 21 is lost, its
-- survivor 22 and the candidate 23.
pub mod Plans
pub mod Grants
pub mod Journals
pub mod Transitions
use terrapi_vault.Recovery.Model.{Baseline, Plan}

abbrev pub lost_pair : Baseline
lost_pair = record {
  scope = "eu";
  revision = 4;
  digest = 11;
  old_primary = 21;
  survivor = 22;
  survivor_generation = 31;
  checkpoint = 41;
}

abbrev pub replacement : Plan
replacement = record { recovery_id = 51; baseline = lost_pair; revision = 5; candidate = 23 }
