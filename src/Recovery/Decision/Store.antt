-- ===== src/Recovery/Decision/Store.antt =====
-- The two tables of the decision journal (replication/recovery/src/decision.rs): `read` and `save`.
use terrapi_vault.Common.{
  leb, eqb, if◌then◌else◌, ≡→eq, list_beq, nat_eq, Result, err, ok, ensure, ◌>>=◌, ◌>>◌, bind-eq-ok,
  ensure-eq-ok, check-eq-ok, length, both, ℕ, ◌*◌, ◌≤◌, ◌≡◌, refl, subst, Bool, true, not, ◌&&◌,
  Option, none, some, [], arith,
}
use terrapi_vault.Recovery.Model.{Id256}
use terrapi_vault.Recovery.Decision.{Scope, scope_beq, validate_request, Record, Codec, IsFaithful}

abbrev pub max_record : ℕ
max_record = 64 * 1024

-- The row of recovery_decision_scope, and the row of recovery_decision if there is one.
pub record Db (J : Type 0) : Type 0 where
  pub format : ℕ
  pub scope_json : J
  pub row : Option (J × Id256)

-- `record.completion.is_none_or(..)`
abbrev pub completion_fits : Option Id256 → Bool × Bool → Bool
completion_fits none acks = true
completion_fits (some id) acks = not (eqb id 0) && both acks

-- The last test of `read`.
unfoldable pub is_history : Record → Bool
is_history r =
    not (list_beq r.token [])
    && leb (length r.token) (16 * 1024)
    && not (eqb r.grant_id 0)
    && completion_fits r.completion r.acknowledgements

module _ {J : Type 0} (c : Codec J) (scope : Scope) where
  unfoldable pub check_scope : Db J → Result (Unit {0})
  check_scope db =
      if eqb db.format 2 && leb (c.json_len db.scope_json) max_record
      then (do
        stored ← c.read_scope db.scope_json
        ensure (scope_beq stored scope) "decision journal scope/format mismatch")
      else err "decision journal scope/format mismatch"

  unfoldable pub read_row : Option (J × Id256) → Result (Option Record)
  read_row none = ok none
  read_row (some (json, digest)) = do
    ensure (leb (c.json_len json) max_record && eqb digest (c.json_sha256 json))
        "decision record integrity"
    r ← c.read_record json
    validate_request r.request scope.baseline
    ensure (is_history r) "invalid decision history"
    ok (some r)

  -- `Journal::read`
  unfoldable pub read : Db J → Result (Option Record)
  read db = do check_scope db; read_row db.row

  -- `Journal::save`
  unfoldable pub save : Db J → Record → Result (Db J)
  save db r = do
    let json = c.write_record r
    ensure (leb (c.json_len json) max_record) "decision record limit"
    ok (record db { row = some (json, c.json_sha256 json) })

  -- A record that `read` accepts.
  pub record IsRecord (r : Record) : Type 0 where
    pub request_valid : validate_request r.request scope.baseline ≡ ok tt
    pub history : is_history r ≡ true

  read_row-IsRecord : (o : Option (J × Id256)) (r : Record) → read_row o ≡ ok (some r) → IsRecord r
  unfolding read_row
  read_row-IsRecord none r h = absurd (cc)
  read_row-IsRecord (some (json, digest)) r h =
      let (_, h1) =
        ensure-eq-ok (leb (c.json_len json) max_record && eqb digest (c.json_sha256 json)) _ _ h in
      let (q, _, h2) = bind-eq-ok (c.read_record json) _ h1 in
      let (v, h3) = check-eq-ok (validate_request q.request scope.baseline) _ h2 in
      let (t, h4) = ensure-eq-ok (is_history q) _ _ h3 in
      let e : q ≡ r = cc in subst IsRecord e (record { request_valid = v; history = t })

  pub read-IsRecord : (db : Db J) (r : Record) → read db ≡ ok (some r) → IsRecord r
  unfolding read
  read-IsRecord db r h = read_row-IsRecord db.row r (check-eq-ok (check_scope db) _ h).1

  -- The scope row stands as it was, and the record is read back.
  pub read-save :
      IsFaithful c
      → (db db' : Db J) (o : Option Record) (r : Record) → read db ≡ ok o
      → IsRecord r
      → save db r ≡ ok db'
      → read db' ≡ ok (some r)
  unfolding read save check_scope read_row
  read-save f db db' o r h k s =
      let (l, e) = ensure-eq-ok (leb (c.json_len (c.write_record r)) max_record) _ _ s in
      let g : db' ≡ record db { row = some (c.write_record r, c.json_sha256 (c.write_record r)) } =
        cc in
      rw g (
        simp (
          (check-eq-ok (check_scope db) _ h).0,
          l,
          ≡→eq (c.json_sha256 (c.write_record r)) _ refl,
          f.record_back r,
          k.request_valid,
          k.history,
        ))

  -- A record that is read fits into its row again.
  pub save_fits :
      (db db' : Db J) (r : Record) → save db r ≡ ok db' → c.json_len (c.write_record r) ≤ max_record
  unfolding save
  save_fits db db' r s = ground arith
