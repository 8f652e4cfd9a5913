-- ===== src/Reliability/Idempotency/Holding.antt =====
-- A record whose lease has not ended, while other requests take their turns.

use hotelops_ai.Prelude.{
  ℕ, ◌≡◌, ◌⊎◌, refl, inl, inr, Bool, true, false, not, ◌&&◌, Option, none, some, List, ◌==◌, arith,
  Bool-cases, Option-cases, sym, ap, ◌∙◌,
}
use hotelops_ai.Reliability.Idempotency.{
  Claim, Scope, Request, Reply, is_completed, scope_of, get, has_scope, new_claim, create_claim,
  any, before, is_stale, restamp, reclaim, is_claimed, with_result, complete, run_handler,
  take_turn, take_over,
}
use hotelops_ai.Reliability.Idempotency.Table.{
  get-append, has_scope-get, any-get, any-absent, get-update_miss,
}
use hotelops_ai.Reliability.Idempotency.Interleaving.{
  System, Step, reads_claim, acts_first, acts_after,
}
use hotelops_ai.Reliability.Idempotency.Uniqueness.{IsUnique}

-- In progress, and no lease of it has ended before a time.
abbrev pub is_leased : ℕ → Option Claim → Bool
is_leased now none = false
is_leased now (some r) = not (is_completed r.status) && not (before r.claimed_until now)

-- The clock of a turn.
abbrev pub clock : {s t : System} → Step s t → ℕ
clock (reads_claim u r s at) = 0
clock (acts_first q new_id now handled s fresh) = now
clock (acts_after q new_id now handled r s m of) = now

reclaimed-held :
    (id : ℕ) (q : Request) (now value : ℕ) (s : System) (u : Scope) {r : Claim}
    → IsUnique s
    → get u s.table ≡ some r
    → is_leased now (some r) ≡ true
    → (reclaim id q now s.table).1 ≡ true
    → get u (complete id q.token value (reclaim id q now s.table).0).0 ≡ some r
unfolding reclaim complete
reclaimed-held id q now value s u {r} i at live won =
    let (p, stale, found, there) = any-get (is_stale id now) s.table i.units won in
    let apart : (r.claim_id == id) ≡ false = elim (Bool-cases (r.claim_id == id)) [
      | inr differ ↦ differ
      | inl same ↦
          let here : p.scope ≡ u = i.one_id p.scope u found at (ground (arith, stale, same)) in
          let one : p ≡ r = ground (arith, found, at, ap (λ v. get v s.table) here) in
          absurd (ground (arith, stale, live, one))
    ] in
    let first =
      get-update_miss (is_stale id now) (restamp q now) u s.table (λ r. refl)
        (λ k at'. ground (arith, at, at', apart)) in
    get-update_miss (is_claimed id q.token) (with_result value) u _ (λ r. refl)
      (λ k at'. ground (arith, sym first ∙ at', at, apart))
    ∙ first
    ∙ at

created-held :
    (q : Request) (new_id now value : ℕ) (s : System) (u : Scope) {r : Claim}
    → get u s.table ≡ some r
    → any (λ r. r.claim_id == new_id) s.table ≡ false
    → has_scope (scope_of q) s.table ≡ false
    → get u (complete new_id q.token value (create_claim new_id now q s.table).0).0 ≡ some r
unfolding create_claim complete
created-held q new_id now value s u {r} at fresh free =
    let made : get u (create_claim new_id now q s.table).0 ≡ some r =
      ground (arith, get-append u s.table (new_claim new_id now q), has_scope-get u s.table) in
    let apart = any-absent (λ r. r.claim_id == new_id) u s.table fresh at in
    get-update_miss (is_claimed new_id q.token) (with_result value) u _ (λ r. refl)
      (λ k at'. ground (arith, made, at', apart))
    ∙ made

run_handler-held :
    (handled : Option ℕ) (id token : ℕ) (original claimed : List Claim) (u : Scope) {r : Claim}
    → get u original ≡ some r
    → ((value : ℕ) → get u (complete id token value claimed).0 ≡ some r)
    → get u (run_handler handled id token original claimed).0 ≡ some r
run_handler-held none id token original claimed u at done = at
run_handler-held (some value) id token original claimed u at done = done value

after-held :
    (q : Request) (new_id now : ℕ) (handled : Option ℕ) (k : Claim) (s : System) (u : Scope)
    {r : Claim}
    → IsUnique s
    → get u s.table ≡ some r
    → is_leased now (some r) ≡ true
    → get u (take_turn q new_id now handled (some k) s.table).0 ≡ some r
unfolding take_turn
after-held q new_id now handled k s u {r} i at live =
    let kept : List Claim × Reply → Type 0 = λ taken. get u taken.0 ≡ some r in
    let over : kept (take_over q now handled k s.table) =
      elim (Bool-cases (reclaim k.claim_id q now s.table).1) [
        | inr lost ↦ rw lost at
        | inl won ↦ rw won (
            run_handler-held handled k.claim_id q.token s.table (reclaim k.claim_id q now s.table).0
              u at (λ value. reclaimed-held k.claim_id q now value s u i at live won))
      ] in
    ground (arith, at, over)

first-held :
    (q : Request) (new_id now : ℕ) (handled : Option ℕ) (s : System) (u : Scope) {r : Claim}
    → get u s.table ≡ some r
    → any (λ r. r.claim_id == new_id) s.table ≡ false
    → get u (take_turn q new_id now handled none s.table).0 ≡ some r
unfolding take_turn
first-held q new_id now handled s u {r} at fresh =
    elim (Bool-cases (has_scope (scope_of q) s.table)) [
      | inl taken ↦ ground (arith, at, taken)
      | inr free ↦ rw free (
          run_handler-held handled new_id q.token s.table (create_claim new_id now q s.table).0 u at
            (λ value. created-held q new_id now value s u at fresh free))
    ]

-- A turn leaves a record as it is, unless no one holds it.
pub Step-held :
    {s t : System} (u : Scope) (step : Step s t)
    → IsUnique s
    → (is_leased (clock step) (get u s.table) ≡ false) ⊎ (get u t.table ≡ get u s.table)
Step-held u (reads_claim v r s at) i = inr refl
Step-held u (acts_first q new_id now handled s fresh) i = elim (Option-cases (get u s.table)) [
  | inl gone ↦ inl (rw gone refl)
  | inr (r, at) ↦ inr (first-held q new_id now handled s u at fresh ∙ sym at)
]
Step-held u (acts_after q new_id now handled k s m of) i =
    elim (Bool-cases (is_leased now (get u s.table))) [
      | inr free ↦ inl free
      | inl live ↦ elim (Option-cases (get u s.table)) [
        | inl gone ↦ inr (absurd (ground (arith, live, gone)))
        | inr (r, at) ↦ inr (after-held q new_id now handled k s u i at (rw at at live) ∙ sym at)
      ]
    ]
