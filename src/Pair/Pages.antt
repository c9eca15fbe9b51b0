-- ===== src/Pair/Pages.antt =====
-- Heads and pages of the journal, and the summary of a node (replication/fixed-pair/src/journal.rs).
use terrapi_vault.Common.{
  ltb, leb, eqb, if◌then◌else◌, ◌==◌, bool_eq, option_eq, list_eq, string_eq, nat_eq, Result, ok,
  ensure, ◌>>=◌, ◌>>◌, i64_max, ℕ, zero, suc, ◌+◌, ◌-◌, String, Bool, not, ◌&&◌, ◌||◌, Option, List,
  [], ◌∷◌,
}
use terrapi_vault.Pair.Model.{
  Identity, identity_eq, Role, Entry, Checkpoint, checkpoint_eq, receipt_eq,
}
use terrapi_vault.Pair.Tables.{Adapter, Node, max_page_entries, max_page_bytes, base_sequence}
use terrapi_vault.Pair.Store.{validate, journal_length}
use terrapi_vault.Pair.Checkpoints.{rows_between}
use terrapi_vault.Common.Lists.{length}

pub record JournalHead : Type 0 where
  pub base : Option Checkpoint
  pub identity : Identity
  pub revision : ℕ
  pub read_generation : ℕ
  pub length : ℕ

abbrev pub head_beq : JournalHead → JournalHead → Bool
head_beq a b =
    (a.base == b.base)
    && (a.identity == b.identity)
    && eqb a.revision b.revision
    && eqb a.read_generation b.read_generation
    && eqb a.length b.length

pub record Summary : Type 0 where
  pub schema_contract : String
  pub membership : Option ℕ
  pub head : JournalHead
  pub role : Role
  pub cipher_version : String
  pub synchronous : ℕ
  pub journal_mode : String

pub record JournalPage (C : Type 0) : Type 0 where
  pub head : JournalHead
  pub after : ℕ
  pub entries : List (Entry C)

-- `limit > 0 && limit <= MAX_PAGE_ENTRIES && after <= head.length && after >= base`
abbrev pub good_cursor : JournalHead → (after limit : ℕ) → Bool
good_cursor head after limit =
    ltb 0 limit
    && leb limit max_page_entries
    && leb after head.length
    && leb (base_sequence head.base) after

module _ {C V : Type 0} (adapter : Adapter C V) where
  -- `journal::head_for`
  unfoldable pub journal_head : Node C V → Result JournalHead
  journal_head n = do
    length ← journal_length adapter n
    ok record {
      base = n.replication_base;
      identity = n.identity;
      revision = n.revision;
      read_generation = n.profile.read_generation;
      length = length;
    }

  unfoldable pub summary : Node C V → Result Summary
  summary n = do
    schema_contract ← n.profile.schema_contract
    membership ← n.profile.membership
    head ← journal_head n
    ok record {
      schema_contract = schema_contract;
      membership = membership;
      head = head;
      role = n.role;
      cipher_version = n.profile.cipher_version;
      synchronous = n.profile.synchronous;
      journal_mode = n.profile.journal_mode;
    }

  -- The loop of `JournalPage::validate`.
  unfoldable pub validate_rows : Identity → (after bytes : ℕ) → List (Entry C) → Result (Unit {0})
  validate_rows identity after bytes [] = ok tt
  validate_rows identity after bytes (e ∷ entries) = do
    ensure (eqb e.sequence (suc after)) "page sequence gap"
    validate adapter e identity
    ensure (leb (bytes + adapter.json_len e + 1) max_page_bytes) "page byte budget exceeded"
    validate_rows identity (suc after) (bytes + adapter.json_len e + 1) entries

  -- `JournalPage::validate`
  unfoldable pub validate_page : JournalPage C → JournalHead → (after limit : ℕ) → Result (Unit {0})
  validate_page page head after limit = do
    ensure (good_cursor head after limit) "invalid page cursor/limit"
    ensure (head_beq page.head head && eqb page.after after) "page revision/cursor mismatch"
    ensure (leb (length page.entries) limit && leb (length page.entries) (head.length - after))
        "page exceeds requested range"
    ensure (not (eqb (length page.entries) 0) || eqb after head.length) "premature end of journal"
    validate_rows head.identity after 0 page.entries

  -- The loop of `journal_page` over at most `limit` rows.
  unfoldable pub read_rows : (limit bytes : ℕ) → List (Entry C) → Result (List (Entry C))
  read_rows zero bytes rows = ok []
  read_rows (suc limit) bytes [] = ok []
  read_rows (suc limit) bytes (e ∷ rows) = do
    ensure (ltb (adapter.json_len e) max_page_bytes) "single entry exceeds page budget"
    if ltb max_page_bytes (bytes + adapter.json_len e + 1)
        then ok []
        else (read_rows limit (bytes + adapter.json_len e + 1) rows >>= λ more. ok (e ∷ more))

  unfoldable pub journal_page : Node C V → JournalHead → (after limit : ℕ) → Result (JournalPage C)
  journal_page n expected after limit = do
    ensure (good_cursor expected after limit) "invalid page cursor/limit"
    head ← journal_head n
    ensure (head_beq head expected) "stale journal cursor"
    entries ← read_rows limit 0 (rows_between i64_max after n.replication_log [])
    let page : JournalPage C = record { head = expected; after = after; entries = entries }
    validate_page page expected after limit
    ok page
