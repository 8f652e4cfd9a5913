-- ===== src/Reliability/Leases/Claims.antt =====
-- What a claim returns, and for how long no other worker takes it.
use hotelops_ai.Prelude.{
  ℕ, ◌+◌, ◌<◌, ◌≡◌, ◌≢◌, refl, inl, inr, Bool, true, false, ◌&&◌, some, List, [], ◌∷◌, All, arith,
  ap, ◌∙◌, if◌then◌else◌, Bool-cases,
}
use hotelops_ai.Prelude.Sets.{member, IsDistinct}
use hotelops_ai.Reliability.Leases.{Row, get_row, is_due, ids, chosen, stamp, returned, claim_next}
use hotelops_ai.Reliability.Leases.Rows.{chosen-is_due, get_row-update_in, ids-update_in}
use hotelops_ai.Reliability.Leases.History.{
  Op, claims, run_all, ids-run, ids-run_all, holds, is_before_or_other, run_all-holds,
}

module _ {P : Type 0} where
  member-returned :
      (picked : List ℕ) (rows : List (Row P)) (i : ℕ)
      → member (ids (returned picked rows)) i ≡ (member picked i && member (ids rows) i)
  unfolding member
  member-returned picked [] i = ground arith
  member-returned picked (r ∷ rows) i = ground (arith, member-returned picked rows i)

  -- A claim returns the rows that its inner query has chosen.
  pub claimed-chosen :
      (locked : ℕ → Bool) (worker batch_size lease now : ℕ) (rows : List (Row P)) (i : ℕ)
      → member (ids (claim_next locked worker batch_size lease now rows).1) i
        ≡ (member (chosen locked batch_size now rows) i && member (ids rows) i)
  unfolding claim_next
  claimed-chosen locked worker batch_size lease now rows i =
      member-returned (chosen locked batch_size now rows) _ i
      ∙ ap (λ is. member (chosen locked batch_size now rows) i && member is i)
          (ids-update_in (chosen locked batch_size now rows) (stamp worker (now + lease)) rows
            (λ s. refl))

  -- What a worker holds is not due before the end of the lease.
  held_early :
      (worker now until : ℕ) (r : Row P)
      → holds worker until r ≡ true
      → now < until
      → is_due now r ≢ true
  unfolding is_due
  held_early worker now until r held early = ground arith

  -- A row that a claim returns was due and not locked; it is stamped with the worker, the end of
  -- the lease and one more attempt, and the worker holds it from then on.
  pub claim_next-claimed :
      (locked : ℕ → Bool) (worker batch_size lease now : ℕ) (rows : List (Row P)) (i : ℕ)
      {r : Row P}
      → IsDistinct (ids rows)
      → get_row i rows ≡ some r
      → member (ids (claim_next locked worker batch_size lease now rows).1) i ≡ true
      → (is_due now r ≡ true)
        × (locked i ≡ false)
        × (get_row i (claim_next locked worker batch_size lease now rows).0
            ≡ some (stamp worker (now + lease) r))
        × (holds worker (now + lease) (stamp worker (now + lease) r) ≡ true)
  unfolding claim_next
  claim_next-claimed locked worker batch_size lease now rows i {r} d at h =
      let picked : member (chosen locked batch_size now rows) i ≡ true =
        ground (arith, claimed-chosen locked worker batch_size lease now rows i) in
      let due = chosen-is_due locked batch_size now rows i d at picked in
      (
        ground arith,
        ground arith,
        get_row-update_in (chosen locked batch_size now rows) (stamp worker (now + lease)) rows i
              (λ s. refl) at
            ∙ ap some (ap (λ b. if b then stamp worker (now + lease) r else r) picked),
        ground arith,
      )

  -- Two claims never share a row: what one claim returns, no later claim returns before the lease
  -- ends, whatever claims and marks of other workers are between the two.
  pub claim_next-exclusive :
      (locked locked' : ℕ → Bool) (worker batch_size lease now : ℕ)
      (worker' batch_size' lease' now' : ℕ) (ops : List Op) (rows : List (Row P)) (i : ℕ)
      {r : Row P}
      → IsDistinct (ids rows)
      → get_row i rows ≡ some r
      → member (ids (claim_next locked worker batch_size lease now rows).1) i ≡ true
      → All (λ op. is_before_or_other worker (now + lease) op ≡ true) ops
      → now' < now + lease
      → member
          (ids
            (claim_next locked' worker' batch_size' lease' now'
              (run_all ops (claim_next locked worker batch_size lease now rows).0)).1)
          i
        ≡ false
  claim_next-exclusive locked locked' worker batch_size lease now worker' batch_size' lease' now'
        ops rows i {r} d at h between early =
      let after = (claim_next locked worker batch_size lease now rows).0 in
      let (due, free, stamped, held) =
        claim_next-claimed locked worker batch_size lease now rows i d at h in
      let same = ids-run_all ops after ∙ ids-run (claims locked worker batch_size lease now) rows in
      let kept =
        run_all-holds ops after i worker (now + lease)
          (rw (ids-run (claims locked worker batch_size lease now) rows) d) stamped held between in
      elim (Bool-cases _) [
        | inr never ↦ never
        | inl again ↦ absurd (
            held_early worker now' (now + lease) (stamp worker (now + lease) r) held early
              (claim_next-claimed locked' worker' batch_size' lease' now' (run_all ops after) i
                (rw same d) kept again).0)
      ]
