-- ===== src/Pair/Outcome/Steps.antt =====
-- The steps of `write` tell the truth when they refuse (replication/fixed-pair/src/coordinator.rs).
use terrapi_vault.Common.{
  if◌then◌else◌, PartialEq, bool_eq, option_eq, list_eq, string_eq, nat_eq, Result, err, ok, ℕ,
  String, ◌≡◌, refl, sym, ap, subst, ◌∙◌, inl, inr, Bool, true, false, Option, none, some, arith,
}
use terrapi_vault.Pair.Model.{
  Identity, identity_eq, Batch, Entry, checkpoint_eq, WriteResult, OperationReceipt, receipt_eq,
}
use terrapi_vault.Pair.Tables.{Adapter, Node, receipt_row}
use terrapi_vault.Pair.Store.{by_operation}
use terrapi_vault.Pair.Operations.{prepare, stage, decide, apply, receipt}
use terrapi_vault.Pair.Run.{Fault, World, Run, on_primary, on_secondary, reading, writing}
use terrapi_vault.Pair.Coordinator.{
  WriteFailure, Coordinator, Reply, refused, replied, Step, after_reply, ◌>>=◌, attempt, invalid,
  operation_of, receipt_for, unavailable, give_up, reply_as, or_unavailable, reject_if,
  prepare_reply, prepare_step, decide_reply, decide_step, reconcile, reconcile_step, receipt_reply,
  admit_as, settle, settle_as,
}
use terrapi_vault.Pair.Outcome.{Undecided, Rejected, Told}
use terrapi_vault.Pair.Outcome.Reads.{failure_is, read_lem, not_accepted_lem}

module _ {C V : Type 0} ⦃change_eq : PartialEq C⦄ (adapter : Adapter C V) (fault : ℕ → Fault)
    (constraint : String → Bool) (identity : Identity) (batch : Batch C) where
  abbrev ToldOf : WriteFailure → Coordinator C V → Type 0
  ToldOf f d = Told adapter fault constraint identity batch f d

  unavailable_status :
      (c : Coordinator C V)
      → (unavailable adapter fault constraint batch.operation_id c).1.status_code ≡ 503
  unfolding unavailable
  unavailable_status c = refl

  unavailable-Told :
      (c : Coordinator C V)
      → ToldOf
          (unavailable adapter fault constraint batch.operation_id c).1
          (unavailable adapter fault constraint batch.operation_id c).0
  unfolding unavailable
  unavailable-Told c =
      let id = batch.operation_id in
      let (same, read) = read_lem fault (λ n. by_operation adapter n id) c.copies in
      let w1 = (operation_of adapter fault constraint id c.copies).0 in
      let (again, read_receipt) = read_lem fault (λ n. receipt adapter n id) w1 in
      record {
        names = refl;
        has_status = inl refl;
        admits_nothing = λ _. refl;
        is_undecided = λ _ k.
            subst (λ n. Undecided id n × (receipt_row id n.operation_receipts ≡ none))
              (sym (again ∙ same))
              (not_accepted_lem adapter fault constraint id c.copies.first_copy
                (operation_of adapter fault constraint id c.copies).1
                (receipt_for adapter fault constraint id w1).1 read
                (λ o q. subst (λ n. receipt adapter n id ≡ ok o) same (read_receipt o q)) k);
        is_rejected = λ k. absurd (omega (arith, k));
      }

  invalid-Told :
      (d : Coordinator C V)
      → Rejected adapter fault constraint identity batch d
      → ToldOf (invalid batch.operation_id) d
  invalid-Told d why = record {
    names = refl;
    has_status = inr refl;
    admits_nothing = λ k. absurd (omega (arith, k));
    is_undecided = λ k _. absurd (omega (arith, k));
    is_rejected = λ _. why;
  }

  -- The steps of which every refusal is truthful, from one coordinator and from any.
  abbrev pub HonestAt : {T : Type 0} → Step C V T → Coordinator C V → Type 0
  HonestAt m c = (f : WriteFailure) → (m c).1 ≡ refused f → ToldOf f (m c).0

  abbrev pub Honest : {T : Type 0} → Step C V T → Type 0
  Honest m = (c : Coordinator C V) → HonestAt m c

  -- The second step may use what the first one has answered.
  pub bind-HonestAt :
      {T U : Type 0} (m : Step C V T) (next : T → Step C V U) (c : Coordinator C V)
      → HonestAt m c
      → ((t : T) → (m c).1 ≡ replied t → HonestAt (next t) (m c).0)
      → HonestAt (m >>= next) c
  unfolding ◌>>=◌
  bind-HonestAt {T} {U} m next c h k f e = after (m c) h k e
    where
      after :
          (r : Coordinator C V × Reply T)
          → ((g : WriteFailure) → r.1 ≡ refused g → ToldOf g r.0)
          → ((t : T) → r.1 ≡ replied t → HonestAt (next t) r.0)
          → (after_reply next r).1 ≡ refused f
          → ToldOf f (after_reply next r).0
      after (d, refused g) told then_told q = told f (cc)
      after (d, replied t) told then_told q = then_told t refl f q

  pub bind-Honest :
      {T U : Type 0} (m : Step C V T) (next : T → Step C V U)
      → Honest m
      → ((t : T) → Honest (next t))
      → Honest (m >>= next)
  bind-Honest m next h k c = bind-HonestAt m next c (h c) (λ t _. k t (m c).0)

  give_up-Honest :
      {T : Type 0} → Honest {T = T} (give_up adapter fault constraint batch.operation_id)
  give_up-Honest c f e =
      subst (λ x. ToldOf x (unavailable adapter fault constraint batch.operation_id c).0)
        (failure_is _ f e) (unavailable-Told c)

  pub or_unavailable-Honest :
      {T : Type 0} (m : Run C V T)
      → Honest (or_unavailable adapter fault constraint batch.operation_id m)
  unfolding or_unavailable
  or_unavailable-Honest {T} m c f e = cases (attempt m c) e
    where
      cases :
          (r : Coordinator C V × Result T)
          → (reply_as adapter fault constraint batch.operation_id r).1 ≡ refused f
          → ToldOf f (reply_as adapter fault constraint batch.operation_id r).0
      cases (d, err m) q = give_up-Honest d f q
      cases (d, ok t) q = cc

  -- What a read of the primary has answered is what the primary that is left says.
  pub reading_reply :
      {T : Type 0} (g : Node C V → Result T) (c : Coordinator C V) (t : T)
      → (or_unavailable adapter fault constraint batch.operation_id
          (on_primary fault (reading g))
          c).1
        ≡ replied t
      → g
          (or_unavailable adapter fault constraint batch.operation_id
            (on_primary fault (reading g))
            c).0.copies.first_copy
        ≡ ok t
  unfolding or_unavailable
  reading_reply {T} g c t e =
      let (same, read) = read_lem fault g c.copies in
      cases (on_primary fault (reading g) c.copies).0 (on_primary fault (reading g) c.copies).1
        (λ u q. subst (λ n. g n ≡ ok u) (sym same) (read u q)) e
    where
      value_is : (u v : T) → ◌≡◌ {A = Reply T} (replied u) (replied v) → u ≡ v
      value_is u v q = cc

      cases :
          (w : World C V) (r : Result T)
          → ((u : T) → r ≡ ok u → g w.first_copy ≡ ok u)
          → (reply_as adapter fault constraint batch.operation_id (record c { copies = w }, r)).1
            ≡ replied t
          → g
              (reply_as adapter fault constraint batch.operation_id
                (record c { copies = w }, r)).0.copies.first_copy
            ≡ ok t
      cases w (err m) h q = cc
      cases w (ok u) h q = h t (ap ok (value_is u t q))

  pub reject_if-HonestAt :
      (b : Bool) (c : Coordinator C V)
      → (b ≡ true → Rejected adapter fault constraint identity batch c)
      → HonestAt (reject_if adapter fault constraint b batch.operation_id) c
  unfolding reject_if
  reject_if-HonestAt true c why f e =
      subst (λ x. ToldOf x c) (failure_is (invalid batch.operation_id) f e)
        (invalid-Told c (why refl))
  reject_if-HonestAt false c why f e = cc

  prepare_step-Honest : Honest (prepare_step adapter fault constraint batch)
  unfolding prepare_step
  prepare_step-Honest c f e =
      cases (on_primary fault (prepare adapter batch) c.copies).0
        (on_primary fault (prepare adapter batch) c.copies).1 refl e
    where
      of_message :
          (d : Coordinator C V) (b : Bool)
          → (b ≡ true → Rejected adapter fault constraint identity batch d)
          → (if b
              then (d, refused (invalid batch.operation_id))
              else give_up adapter fault constraint {T = Entry C} batch.operation_id d).1
            ≡ refused f
          → ToldOf f
              (if b
                then (d, refused (invalid batch.operation_id))
                else give_up adapter fault constraint {T = Entry C} batch.operation_id d).0
      of_message d true why k =
          subst (λ x. ToldOf x d) (failure_is (invalid batch.operation_id) f k)
            (invalid-Told d (why refl))
      of_message d false why k = give_up-Honest d f k

      cases :
          (w : World C V) (r : Result (Entry C))
          → on_primary fault (prepare adapter batch) c.copies ≡ (w, r)
          → (prepare_reply adapter fault constraint batch.operation_id
              (record c { copies = w }, r)).1
            ≡ refused f
          → ToldOf f
              (prepare_reply adapter fault constraint batch.operation_id
                (record c { copies = w }, r)).0
      cases w (ok x) h q = cc
      cases w (err m) h q =
          of_message (record c { copies = w }) (constraint m)
            (λ t. Rejected.constraint_violated c.copies m h t) q

  decide_step-Honest : Honest (decide_step adapter fault constraint batch.operation_id)
  unfolding decide_step
  decide_step-Honest c f e =
      cases (attempt (on_primary fault (decide adapter batch.operation_id)) c) e
    where
      cases :
          (r : Coordinator C V × Result (Entry C))
          → (decide_reply adapter fault constraint batch.operation_id r).1 ≡ refused f
          → ToldOf f (decide_reply adapter fault constraint batch.operation_id r).0
      cases (d, ok x) q = cc
      cases (d, err m) q =
          let told = unavailable-Told d in
          let status = unavailable_status d in
          subst (λ x. ToldOf x (unavailable adapter fault constraint batch.operation_id d).0)
            (failure_is _ f q)
            record {
              names = told.names;
              has_status = inl status;
              admits_nothing = told.admits_nothing;
              is_undecided = λ _ k. cc;
              is_rejected = λ k. absurd (omega (arith, k, status));
            }

  pub reconcile_step-Honest :
      (now : ℕ) → Honest (reconcile_step adapter fault constraint now batch.operation_id)
  unfolding reconcile_step
  reconcile_step-Honest now c f e = cases (reconcile adapter fault constraint now c) e
    where
      cases :
          (r : Coordinator C V × Result ℕ)
          → (reply_as adapter fault constraint batch.operation_id r).1 ≡ refused f
          → ToldOf f (reply_as adapter fault constraint batch.operation_id r).0
      cases (d, err m) q = give_up-Honest d f q
      cases (d, ok t) q = cc

  receipt_reply-Honest :
      (o : Option OperationReceipt)
      → Honest (receipt_reply adapter fault constraint batch.operation_id o)
  unfolding receipt_reply
  receipt_reply-Honest none c f e = give_up-Honest c f e
  receipt_reply-Honest (some r) c f e = cc

  pub settle_as-Honest :
      (o : Option WriteResult) → Honest (settle_as adapter fault constraint batch.operation_id o)
  unfolding settle
  settle_as-Honest (some result) = λ c f e. cc
  settle_as-Honest none = bind-Honest _ _ decide_step-Honest (λ decision.
      bind-Honest _ _
        (or_unavailable-Honest (on_secondary fault (writing (apply adapter decision))))
        (λ _.
          bind-Honest _ _
            (or_unavailable-Honest (on_primary fault (writing (apply adapter decision))))
            (λ _.
              bind-Honest _ _
                (or_unavailable-Honest (receipt_for adapter fault constraint batch.operation_id))
                receipt_reply-Honest)))

  pub admit_as-Honest :
      (o : Option WriteResult) → Honest (admit_as adapter fault constraint batch o)
  admit_as-Honest (some result) = λ c f e. cc
  admit_as-Honest none = bind-Honest _ _ prepare_step-Honest (λ e.
      bind-Honest _ _ (or_unavailable-Honest (on_secondary fault (writing (stage adapter e))))
        (λ _ c f q. cc))
