-- ===== src/Recovery/Jws/Segments.antt =====
-- A token and its segments (replication/recovery/src/grant.rs, `verify` and `decode`).
use terrapi_vault.Common.{
  eqb, eqb_iff, Bool-cases, list_beq_iff, nat_eq, ok, length, length-append, take-append, All,
  Bytes, ℕ, ◌+◌, ◌≤◌, ◌≡◌, refl, sym, ap, subst, ◌∙◌, ◌≢◌, inl, inr, true, false, some, List, [],
  ◌∷◌, ◌++◌, append_assoc, arith,
}
use terrapi_vault.Recovery.Jws.{
  Jws, dot, cons_head, split, split_once, three_parts, signed_part, decode,
}

abbrev pub NoDot : Bytes → Type 0
NoDot = All (λ c. eqb c dot ≡ false)

-- The segments with dots between them.
abbrev pub join : List Bytes → Bytes
join [] = []
join (x ∷ []) = x
join (x ∷ y ∷ ys) = x ++ dot ∷ join (y ∷ ys)

join-cons_head : (c : ℕ) (r : List Bytes) → join (cons_head c r) ≡ c ∷ join r
join-cons_head c [] = refl
join-cons_head c (x ∷ []) = refl
join-cons_head c (x ∷ y ∷ ys) = refl

join-dot : (r : List Bytes) → r ≢ [] → join ([] ∷ r) ≡ dot ∷ join r
join-dot [] h = absurd (h refl)
join-dot (x ∷ xs) h = refl

split-ne-nil : (t : Bytes) → split t ≢ []
unfolding split
split-ne-nil [] = cc
split-ne-nil (c ∷ cs) = elim (Bool-cases (eqb c dot)) [
  | inl e ↦ rw e (λ h. cc)
  | inr e ↦ rw e (cons_head-ne-nil (split cs))
]
  where
    cons_head-ne-nil : (r : List Bytes) → cons_head c r ≢ []
    cons_head-ne-nil [] h = cc
    cons_head-ne-nil (x ∷ xs) h = cc

-- The segments make up the token.
join-split : (t : Bytes) → join (split t) ≡ t
unfolding split
join-split [] = refl
join-split (c ∷ cs) = elim (Bool-cases (eqb c dot)) [
  | inl e ↦ rw e (rw (join-dot (split cs) (split-ne-nil cs), join-split cs, eqb→≡ c e))
  | inr e ↦ rw e (rw (join-cons_head c (split cs), join-split cs))
]
  where
    eqb→≡ : (c : ℕ) → eqb c dot ≡ true → c ≡ dot
    eqb→≡ c = (eqb_iff c dot).0

split-NoDot : (t : Bytes) → All NoDot (split t)
unfolding split
split-NoDot [] = (tt, tt)
split-NoDot (c ∷ cs) = elim (Bool-cases (eqb c dot)) [
  | inl e ↦ rw e (tt, split-NoDot cs)
  | inr e ↦ rw e (cons_head-NoDot e (split cs) (split-NoDot cs))
]
  where
    cons_head-NoDot : eqb c dot ≡ false → (r : List Bytes) → All NoDot r → All NoDot (cons_head c r)
    cons_head-NoDot e [] h = ((e, tt), tt)
    cons_head-NoDot e (x ∷ xs) h = ((e, h.0), h.1)

three_parts-eq-ok :
    (l : List Bytes) {h p s : Bytes}
    → three_parts l ≡ ok (h, p, s)
    → (l ≡ h ∷ p ∷ s ∷ []) × (length h ≤ 1024)
unfolding three_parts
three_parts-eq-ok [] e = absurd (cc)
three_parts-eq-ok (a ∷ []) e = absurd (cc)
three_parts-eq-ok (a ∷ b ∷ []) e = absurd (cc)
three_parts-eq-ok (a ∷ b ∷ c ∷ []) e = ground arith
three_parts-eq-ok (a ∷ b ∷ c ∷ d ∷ l) e = absurd (cc)

-- What the three segments of a token are.
pub record Segmented (token h p s : Bytes) : Type 0 where
  pub joined : token ≡ h ++ (dot ∷ (p ++ (dot ∷ s)))
  pub header_dotless : NoDot h
  pub payload_dotless : NoDot p
  pub header_short : length h ≤ 1024

pub three_parts-Segmented :
    (token h p s : Bytes) → three_parts (split token) ≡ ok (h, p, s) → Segmented token h p s
three_parts-Segmented token h p s e =
    let q = three_parts-eq-ok (split token) e in
    let d = subst (All NoDot) q.0 (split-NoDot token) in
    record {
      joined = sym (join-split token) ∙ ap join q.0;
      header_dotless = d.0;
      payload_dotless = d.1.0;
      header_short = q.1;
    }

-- The bytes that are signed are the token without its last segment.
pub signed_part_lem :
    (token h p s : Bytes) → Segmented token h p s → signed_part token h p ≡ h ++ (dot ∷ p)
unfolding signed_part
signed_part_lem token h p s g =
    let whole = h ++ (dot ∷ p) in
    let n : length h + 1 + length p ≡ length whole = omega (arith, length-append h (dot ∷ p)) in
    let e : token ≡ whole ++ (dot ∷ s) = g.joined ∙ sym (append_assoc h (dot ∷ p) (dot ∷ s)) in
    rw n (rw e (take-append whole (dot ∷ s)))

pub split_once-append : (h p : Bytes) → NoDot h → split_once (h ++ (dot ∷ p)) ≡ some (h, p)
unfolding split_once
split_once-append [] p n = refl
split_once-append (c ∷ h) p n = rw (n.0) (rw (split_once-append h p n.1))

module _ (j : Jws) where
  pub decode-eq-ok :
      (s b : Bytes)
      → decode j s ≡ ok b
      → (j.b64_decode s ≡ some b) × (j.b64_encode b ≡ s) × (s ≢ [])
  unfolding decode
  decode-eq-ok s b h = ground (arith, list_beq_iff s [], list_beq_iff (j.b64_encode b) s)

  -- No two segments decode to the same bytes.
  pub decode-injective : (s s' b : Bytes) → decode j s ≡ ok b → decode j s' ≡ ok b → s ≡ s'
  decode-injective s s' b h h' = sym (decode-eq-ok s b h).1 ∙ (decode-eq-ok s' b h').1
