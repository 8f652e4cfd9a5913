-- ===== src/Reliability/Idempotency/Completion.antt =====
-- The turns of a request that complete its record.

use hotelops_ai.Prelude.{
  ℕ, ◌≡◌, refl, inl, inr, Bool, true, false, some, List, [], ◌∷◌, ◌++◌, ◌==◌, arith, Bool-cases,
  sym, ap, ◌∙◌, ==_self,
}
use hotelops_ai.Reliability.Idempotency.{
  Claim, Request, same_scope, scope_of, get, has_scope, new_claim, create_claim, update_where, any,
  is_stale, restamp, reclaim, is_claimed, with_result, complete,
}
use hotelops_ai.Reliability.Idempotency.Table.{
  AreUnits, update_where-AreUnits, get-append, has_scope-get, append-AreUnits, any-get, any-absent,
  get-update_hit, get-update_miss, same_scope-eq, same_scope_self,
}
use hotelops_ai.Reliability.Idempotency.Interleaving.{System, done_at}
use hotelops_ai.Reliability.Idempotency.Uniqueness.{IsRead, IsUnique, IsCompletion}

pub created-IsCompletion :
    (q : Request) (new_id now value : ℕ) (table : List Claim)
    → AreUnits table
    → any (λ r. r.claim_id == new_id) table ≡ false
    → has_scope (scope_of q) table ≡ false
    → IsCompletion table
        (complete new_id q.token value (create_claim new_id now q table).0).0
        (with_result value (new_claim new_id now q))
unfolding create_claim complete
created-IsCompletion q new_id now value table d fresh h =
    let n = new_claim new_id now q in
    let grown = table ++ (n ∷ []) in
    let is_own : Claim → Bool = is_claimed new_id q.token in
    let there : get n.scope grown ≡ some n =
      ground (arith, get-append n.scope table n, same_scope_self n.scope) in
    let made : (create_claim new_id now q table).0 ≡ grown = ground arith in
    rw made (record {
      units =
          update_where-AreUnits is_own (with_result value) grown (λ r. refl)
            (append-AreUnits table n d h);
      found =
          get-update_hit is_own (with_result value) n.scope grown n (λ r. refl) there
            (ground (arith, ==_self new_id, ==_self q.token));
      done = refl;
      was_open = ap done_at (has_scope-get n.scope table h);
      same_id = λ r at. absurd (ground (arith, has_scope-get n.scope table h));
      own_id = λ v r at same.
          absurd (ground (arith, any-absent (λ r. r.claim_id == new_id) v table fresh at));
      others = λ v. elim (Bool-cases (same_scope n.scope v)) [
        | inl same ↦ inl (sym (same_scope-eq n.scope v same))
        | inr other ↦
            let as_before : get v grown ≡ get v table =
              ground (arith, get-append v table n, has_scope-get v table) in
            inr (
              get-update_miss is_own (with_result value) v grown (λ r. refl)
                (λ r at. ground (
                  arith,
                  any-absent (λ r. r.claim_id == new_id) v table fresh (sym as_before ∙ at),
                ))
              ∙ as_before)
      ];
    })

pub reclaimed-IsCompletion :
    (q : Request) (now value : ℕ) (r : Claim) (s : System)
    → IsUnique s
    → IsRead s.table r
    → r.scope ≡ scope_of q
    → (reclaim r.claim_id q now s.table).1 ≡ true
    → (x : Claim) × IsCompletion s.table
        (complete r.claim_id q.token value (reclaim r.claim_id q now s.table).0).0
        x
      × (scope_of q ≡ x.scope)
      × (q.hash ≡ x.request_hash)
      × (q.venue ≡ x.venue)
      × (some value ≡ x.result)
unfolding reclaim complete
reclaimed-IsCompletion q now value r s i f of won =
    let (p, stale, at, there) = any-get (is_stale r.claim_id now) s.table i.units won in
    let here : p.scope ≡ r.scope =
      i.one_id p.scope r.scope at f.found (ground (arith, f.same_id)) in
    (
      with_result value (restamp q now p),
      record {
        units =
            update_where-AreUnits (is_claimed r.claim_id q.token) (with_result value) _ (λ r. refl)
              (update_where-AreUnits (is_stale r.claim_id now) (restamp q now) s.table (λ r. refl)
                i.units);
        found =
            get-update_hit (is_claimed r.claim_id q.token) (with_result value) p.scope _
              (restamp q now p) (λ r. refl)
              (get-update_hit (is_stale r.claim_id now) (restamp q now) p.scope s.table p
                (λ r. refl) at stale)
              (ground (arith, ==_self q.token));
        done = refl;
        was_open = ground arith;
        same_id = λ k at'. ground arith;
        own_id = λ v k at' same. i.one_id v p.scope at' at (ground arith);
        others = λ v. elim (Bool-cases (same_scope p.scope v)) [
          | inl same ↦ inl (sym (same_scope-eq p.scope v same))
          | inr other ↦
              let apart : (k : Claim)
                  → get v s.table ≡ some k
                  → (k.claim_id == r.claim_id) ≡ false =
                λ k at'. elim (Bool-cases (k.claim_id == r.claim_id)) [
                  | inr differ ↦ differ
                  | inl same ↦
                      absurd (
                        ground (arith, i.one_id p.scope v at at' (ground arith), same_scope_self v))
                ] in
              let as_before : get v (update_where (is_stale r.claim_id now) (restamp q now) s.table)
                  ≡ get v s.table =
                get-update_miss (is_stale r.claim_id now) (restamp q now) v s.table (λ r. refl)
                  (λ k at'. ground (arith, apart k at')) in
              inr (
                get-update_miss (is_claimed r.claim_id q.token) (with_result value) v _ (λ r. refl)
                  (λ k at'. ground (arith, apart k (sym as_before ∙ at')))
                ∙ as_before)
        ];
      },
      sym of ∙ sym here,
      refl,
      refl,
      refl,
    )
