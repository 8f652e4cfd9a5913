-- ===== src/Reliability/Idempotency/Uniqueness.antt =====
-- What holds of every interleaving: each answer has a completed record, and each record one run.
use mathlib.Core.List.{Memᴰ}
use hotelops_ai.Prelude.{
  ◌≡◌, refl, ◌⊎◌, inl, inr, true, false, some, List, ◌∷◌, arith, Bool-cases, sym, ap, ◌∙◌,
}
use hotelops_ai.Reliability.Idempotency.{Claim, Scope, is_completed, same_scope, get}
use hotelops_ai.Reliability.Idempotency.Table.{get-scope, AreUnits, same_scope-eq, same_scope_self}
use hotelops_ai.Reliability.Idempotency.Interleaving.{Answer, System, done_at, count_fresh, once}

-- The record that an answer was taken from.
pub record IsAnswer (table : List Claim) (a : Answer) : Type 0 where
  pub source : Claim
  pub found : get a.scope table ≡ some source
  pub done : is_completed source.status ≡ true
  pub same_hash : source.request_hash ≡ a.hash
  pub same_venue : source.venue ≡ a.venue
  pub same_result : source.result ≡ a.result

-- What became of a record that was read.
pub record IsRead (table : List Claim) (r : Claim) : Type 0 where
  pub current : Claim
  pub found : get r.scope table ≡ some current
  pub same_id : current.claim_id ≡ r.claim_id
  pub kept : (is_completed r.status ≡ false) ⊎ (current ≡ r)

pub record IsUnique (s : System) : Type 0 where
  pub units : AreUnits s.table
  pub one_id :
      (u v : Scope) {k l : Claim}
      → get u s.table ≡ some k
      → get v s.table ≡ some l
      → k.claim_id ≡ l.claim_id
      → u ≡ v
  pub reads : (r : Claim) → Memᴰ r s.reads → IsRead s.table r
  pub answered_by : (a : Answer) → Memᴰ a s.answers → IsAnswer s.table a
  pub ran : (u : Scope) → count_fresh u s.answers ≡ once (done_at (get u s.table))

-- One scope is completed, and the other records stay.
pub record IsCompletion (table after : List Claim) (x : Claim) : Type 0 where
  pub units : AreUnits after
  pub found : get x.scope after ≡ some x
  pub done : is_completed x.status ≡ true
  pub was_open : done_at (get x.scope table) ≡ false
  pub same_id : (q : Claim) → get x.scope table ≡ some q → q.claim_id ≡ x.claim_id
  pub own_id :
      (v : Scope) (q : Claim) → get v table ≡ some q → q.claim_id ≡ x.claim_id → v ≡ x.scope
  pub others : (v : Scope) → (v ≡ x.scope) ⊎ (get v after ≡ get v table)

pub reads_claim-IsUnique :
    (u : Scope) (r : Claim) (s : System)
    → get u s.table ≡ some r
    → IsUnique s
    → IsUnique (record s { reads = r ∷ s.reads })
reads_claim-IsUnique u r s at i = record {
  units = i.units;
  one_id = i.one_id;
  reads = λ x m. elim m [
    | Memᴰ.head same ↦ rw same (record {
      current = r;
      found = ap (λ v. get v s.table) (get-scope u s.table at) ∙ at;
      same_id = refl;
      kept = inr refl;
    })
    | Memᴰ.tail old ↦ i.reads x old
  ];
  answered_by = i.answered_by;
  ran = i.ran;
}

pub replay-IsUnique :
    (a : Answer) (s : System)
    → a.replayed ≡ true
    → IsAnswer s.table a
    → IsUnique s
    → IsUnique (record s { answers = a ∷ s.answers })
unfolding count_fresh
replay-IsUnique a s repeated from i = record {
  units = i.units;
  one_id = i.one_id;
  reads = i.reads;
  answered_by =
      λ b m. elim m [ Memᴰ.head same ↦ rw same from | Memᴰ.tail old ↦ i.answered_by b old ];
  ran = λ u. ground (arith, i.ran u);
}

not_done :
    (x r : Claim) (table : List Claim) {current : Claim}
    → done_at (get x.scope table) ≡ false
    → r.scope ≡ x.scope
    → get r.scope table ≡ some current
    → (is_completed r.status ≡ false) ⊎ (current ≡ r)
    → is_completed r.status ≡ false
not_done x r table was here found (inl kept) = kept
not_done x r table was here found (inr same) = ground (arith, ap (λ v. get v table) here)

pub completion-IsUnique :
    (a : Answer) (x : Claim) (after : List Claim) (s : System)
    → IsCompletion s.table after x
    → a.scope ≡ x.scope
    → a.replayed ≡ false
    → a.hash ≡ x.request_hash
    → a.venue ≡ x.venue
    → a.result ≡ x.result
    → IsUnique s
    → IsUnique (record s { table = after; answers = a ∷ s.answers })
unfolding count_fresh
completion-IsUnique a x after s c of fresh hash venue result i = record {
  units = c.units;
  one_id = λ u v {k} {l} at at' same. elim (c.others u) [
    | inl here ↦ elim (c.others v) [
      | inl there ↦ here ∙ sym there
      | inr kept ↦
          here
          ∙ sym
              (c.own_id v l (sym kept ∙ at') (ground (arith, c.found, ap (λ w. get w after) here)))
    ]
    | inr kept ↦ elim (c.others v) [
      | inl there ↦
          c.own_id u k (sym kept ∙ at) (ground (arith, c.found, ap (λ w. get w after) there))
          ∙ sym there
      | inr kept' ↦ i.one_id u v (sym kept ∙ at) (sym kept' ∙ at') same
    ]
  ];
  reads = λ r m.
      let f = i.reads r m in
      elim (c.others r.scope) [
        | inr kept ↦ record {
          current = f.current;
          found = kept ∙ f.found;
          same_id = f.same_id;
          kept = f.kept;
        }
        | inl here ↦ record {
          current = x;
          found = ap (λ v. get v after) here ∙ c.found;
          same_id =
              sym (c.same_id f.current (sym (ap (λ v. get v s.table) here) ∙ f.found)) ∙ f.same_id;
          kept = inl (not_done x r s.table c.was_open here f.found f.kept);
        }
      ];
  answered_by = λ b m. elim m [
    | Memᴰ.head same ↦ rw same (record {
      source = x;
      found = ap (λ v. get v after) of ∙ c.found;
      done = c.done;
      same_hash = sym hash;
      same_venue = sym venue;
      same_result = sym result;
    })
    | Memᴰ.tail old ↦
        let f = i.answered_by b old in
        elim (c.others b.scope) [
          | inr kept ↦ record {
            source = f.source;
            found = kept ∙ f.found;
            done = f.done;
            same_hash = f.same_hash;
            same_venue = f.same_venue;
            same_result = f.same_result;
          }
          | inl here ↦
              absurd (ground (arith, c.was_open, f.found, f.done, ap (λ v. get v s.table) here))
        ]
  ];
  ran = λ u. elim (Bool-cases (same_scope a.scope u)) [
    | inl same ↦
        let here = sym (same_scope-eq a.scope u same) ∙ of in
        ground (
          arith,
          i.ran u,
          c.was_open,
          c.found,
          c.done,
          ap (λ v. get v s.table) here,
          ap (λ v. get v after) here,
        )
    | inr other ↦ elim (c.others u) [
      | inr kept ↦ ground (arith, i.ran u)
      | inl here ↦ absurd (ground (arith, same_scope_self u, of ∙ sym here))
    ]
  ];
}
