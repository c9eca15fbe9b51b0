-- ===== src/Pair/Examples.antt =====
-- A pair of nodes over lists of numbers, on which the protocol of the fixed pair is run. The functions
-- that stand for other code are small ones of the right kind.
pub mod Commits
pub mod Writes
use terrapi_vault.Common.{
  ltb, eqb, if◌then◌else◌, bool_eq, option_eq, list_eq, string_eq, nat_eq, ok, ℕ, String, Bool,
  true, false, none, List, [], ◌∷◌, ◌++◌,
}
use terrapi_vault.Pair.Model.{
  Identity, identity_eq, Role, primary, secondary, Batch, checkpoint_eq, receipt_eq,
}
use terrapi_vault.Pair.Tables.{Adapter, Profile, Node}
use terrapi_vault.Pair.Run.{Fault, delivered, lost_request, lost_reply, World}
use terrapi_vault.Pair.Coordinator.{Coordinator, reply}

abbrev pub cluster_one : Identity
cluster_one = record { cluster = "pair"; tenant = "tenant"; epoch = 1; schema = 1 }

abbrev digest64 : String
digest64 = "4f6eb28f0b7555bf639eff6cb38575414b80061e1f480c1e13af5cc371c1ef8d"

abbrev named_list : List ℕ → String
named_list [] = "none"
named_list (_ ∷ []) = "one"
named_list (_ ∷ _ ∷ _) = "more"

-- A change adds a number; the changeset of a state is the whole state.
abbrev pub numbers : Adapter ℕ (List ℕ)
numbers = record {
  version = 1;
  fingerprint = λ changes. digest64;
  empty = [];
  check_schema = λ v. ok tt;
  foreign_key_check = λ v. ok tt;
  execute = λ v changes. ok (changes ++ v);
  changeset_strm = λ old next. next;
  apply_strm = λ v bytes. ok (bytes, false);
  hash_view = named_list;
  hash_entry = λ batch sequence before after changeset. after;
  json_len = λ e. 100;
  hash_seed = λ i. "seed";
  hash_link = λ a b. b;
  hash_receipts = λ rows. "receipts";
}

abbrev profile : Profile
profile = record {
  admission = ok tt;
  publication_idle = ok tt;
  staging_idle = ok tt;
  recovery_peer = ok none;
  member_identity = ok none;
  membership = ok none;
  read_generation = 7;
  schema_contract = ok "contract";
  cipher_version = "4.6";
  synchronous = 2;
  journal_mode = "wal";
}

abbrev fresh_node : Role → Node ℕ (List ℕ)
fresh_node role = record {
  role = role;
  identity = cluster_one;
  profile = profile;
  view = [];
  replication_log = [];
  operation_receipts = [];
  replication_base = none;
  replication_readiness = none;
  revision = 0;
}

abbrev pub fresh_pair : World ℕ (List ℕ)
fresh_pair = record {
  first_copy = fresh_node primary;
  second_copy = fresh_node secondary;
  calls = 0;
}

abbrev pub add_one : Batch ℕ
add_one = record { identity = cluster_one; operation_id = "op-1"; changes = 1 ∷ [] }

abbrev pub all_delivered : ℕ → Fault
all_delivered n = delivered

-- The reply of this call is lost, and every later request.
abbrev pub cut_at : ℕ → ℕ → Fault
cut_at k n = if eqb n k then lost_reply else if ltb k n then lost_request else delivered

-- The request of this one call is lost.
abbrev pub lost_once : ℕ → ℕ → Fault
lost_once k n = if eqb n k then lost_request else delivered

abbrev pub coordinator : Coordinator ℕ (List ℕ)
coordinator = record {
  copies = fresh_pair;
  capabilities = record { readable = true; writable = false; reason = "recovery_required" };
  verified_at = none;
}

abbrev pub no_constraint : String → Bool
no_constraint m = false
