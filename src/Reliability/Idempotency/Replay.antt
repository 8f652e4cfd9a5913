-- ===== src/Reliability/Idempotency/Replay.antt =====
-- Interleaved requests over one table of idempotency records: who runs the handler, and what the
-- others get.
use mathlib.Core.List.{Memᴰ}
use hotelops_ai.Prelude.{
  ℕ, ◌≡◌, ◌⊎◌, refl, inl, inr, true, false, not, Option, none, some, List, leb, ◌==◌, if◌then◌else◌,
  arith, if-elim, sym, ap, ◌∙◌, ==_iff,
}
use hotelops_ai.Reliability.Idempotency.{
  Claim, Scope, Request, Reply, is_completed, same_option, scope_of, get, has_scope, new_claim,
  create_claim, any, reclaim, with_result, answered, refused, again, wait, run_handler, take_turn,
  replay, take_over, wait_for, lease_ended, conflict, in_progress_error,
}
use hotelops_ai.Reliability.Idempotency.Table.{same_option-eq}
use hotelops_ai.Reliability.Idempotency.Interleaving.{
  Answer, System, outcome, act, Step, Reach, done_at, count_fresh, once, reads_claim, acts_first,
  acts_after, start, later,
}
use hotelops_ai.Reliability.Idempotency.Uniqueness.{
  IsAnswer, IsRead, IsUnique, reads_claim-IsUnique, replay-IsUnique, completion-IsUnique,
}
use hotelops_ai.Reliability.Idempotency.Holding.{is_leased, clock, Step-held}
use hotelops_ai.Reliability.Idempotency.Completion.{created-IsCompletion, reclaimed-IsCompletion}

first-IsUnique :
    (q : Request) (new_id now : ℕ) (handled : Option ℕ) (s : System)
    → any (λ r. r.claim_id == new_id) s.table ≡ false
    → has_scope (scope_of q) s.table ≡ false
    → IsUnique s
    → IsUnique (
        outcome q s
          (run_handler handled new_id q.token s.table (create_claim new_id now q s.table).0))
first-IsUnique q new_id now none s fresh h i = i
first-IsUnique q new_id now (some value) s fresh h i =
    completion-IsUnique _ (with_result value (new_claim new_id now q)) _ s
      (created-IsCompletion q new_id now value s.table i.units fresh h) refl refl refl refl refl i

reclaimed-IsUnique :
    (q : Request) (now : ℕ) (handled : Option ℕ) (r : Claim) (s : System)
    → IsRead s.table r
    → r.scope ≡ scope_of q
    → (reclaim r.claim_id q now s.table).1 ≡ true
    → IsUnique s
    → IsUnique (
        outcome q s
          (run_handler handled r.claim_id q.token s.table (reclaim r.claim_id q now s.table).0))
reclaimed-IsUnique q now none r s f of won i = i
reclaimed-IsUnique q now (some value) r s f of won i =
    let (x, done, scope, hash, venue, result) = reclaimed-IsCompletion q now value r s i f of won in
    completion-IsUnique _ x _ s done scope refl hash venue result i

replayed-IsAnswer :
    (q : Request) (r : Claim) (table : List Claim)
    → IsRead table r
    → r.scope ≡ scope_of q
    → same_option r.venue q.venue ≡ true
    → is_completed r.status ≡ true
    → (r.request_hash == q.hash) ≡ true
    → IsAnswer table (record {
      scope = scope_of q;
      hash = q.hash;
      venue = q.venue;
      result = r.result;
      replayed = true;
    })
replayed-IsAnswer q r table f of venue done hash =
    let kept : f.current ≡ r = elim f.kept [
      | inr same ↦ same
      | inl open_still ↦ absurd (ground arith)
    ] in
    record {
      source = r;
      found = ap (λ v. get v table) (sym of) ∙ f.found ∙ ap some kept;
      done = done;
      same_hash = (==_iff r.request_hash q.hash).0 hash;
      same_venue = same_option-eq r.venue q.venue venue;
      same_result = refl;
    }

replay-turn :
    (q : Request) (r : Claim) (s : System)
    → IsRead s.table r
    → r.scope ≡ scope_of q
    → not (same_option r.venue q.venue) ≡ false
    → is_completed r.status ≡ true
    → IsUnique s
    → IsUnique (outcome q s (replay q r s.table))
replay-turn q r s f of venue done i =
    if-elim (λ taken. IsUnique (outcome q s taken)) (not (r.request_hash == q.hash))
      {x = (s.table, refused conflict)} {y = (s.table, answered r.claim_id r.result true)}
      (λ differ. i)
      (λ same.
        replay-IsUnique _ s refl
          (replayed-IsAnswer q r s.table f of (ground arith) done (ground arith)) i)

take_over-turn :
    (q : Request) (now : ℕ) (handled : Option ℕ) (r : Claim) (s : System)
    → IsRead s.table r
    → r.scope ≡ scope_of q
    → IsUnique s
    → IsUnique (outcome q s (take_over q now handled r s.table))
take_over-turn q now handled r s f of i =
    if-elim (λ taken. IsUnique (outcome q s taken)) (reclaim r.claim_id q now s.table).1
      {x = run_handler handled r.claim_id q.token s.table (reclaim r.claim_id q now s.table).0}
      {y = (s.table, again)} (λ won. reclaimed-IsUnique q now handled r s f of won i) (λ lost. i)

after-IsUnique :
    (q : Request) (new_id now : ℕ) (handled : Option ℕ) (r : Claim) (s : System)
    → IsRead s.table r
    → r.scope ≡ scope_of q
    → IsUnique s
    → IsUnique (act q new_id now handled (some r) s)
unfolding take_turn
after-IsUnique q new_id now handled r s f of i =
    let stays : List Claim × Reply → Type 0 = λ taken. IsUnique (outcome q s taken) in
    let open_turn =
      if lease_ended r.claimed_until now
      then take_over q now handled r s.table
      else wait_for q now s.table in
    if-elim stays (not (same_option r.venue q.venue)) {x = (s.table, refused conflict)}
      {y = if is_completed r.status then replay q r s.table else open_turn} (λ differ. i)
      (λ venue.
        if-elim stays (is_completed r.status) {x = replay q r s.table} {y = open_turn}
          (λ done. replay-turn q r s f of venue done i)
          (λ pending.
            if-elim stays (lease_ended r.claimed_until now) {x = take_over q now handled r s.table}
              {y = wait_for q now s.table} (λ ended. take_over-turn q now handled r s f of i)
              (λ held.
                if-elim stays (leb q.deadline now) {x = (s.table, refused in_progress_error)}
                  {y = (s.table, wait)} (λ late. i) (λ early. i))))

act_first-IsUnique :
    (q : Request) (new_id now : ℕ) (handled : Option ℕ) (s : System)
    → any (λ r. r.claim_id == new_id) s.table ≡ false
    → IsUnique s
    → IsUnique (act q new_id now handled none s)
unfolding take_turn
act_first-IsUnique q new_id now handled s fresh i =
    if-elim (λ taken. IsUnique (outcome q s taken)) (has_scope (scope_of q) s.table)
      {x = (s.table, again)}
      {y = run_handler handled new_id q.token s.table (create_claim new_id now q s.table).0}
      (λ taken. i) (λ free. first-IsUnique q new_id now handled s fresh free i)

Step-IsUnique : {s t : System} → Step s t → IsUnique s → IsUnique t
Step-IsUnique (reads_claim u r s at) i = reads_claim-IsUnique u r s at i
Step-IsUnique (acts_first q new_id now handled s fresh) i =
    act_first-IsUnique q new_id now handled s fresh i
Step-IsUnique (acts_after q new_id now handled r s m of) i =
    after-IsUnique q new_id now handled r s (i.reads r m) of i

Reach-IsUnique : {s : System} → Reach s → IsUnique s
unfolding count_fresh
Reach-IsUnique (start table i) = record {
  units = i.units;
  one_id = i.one_id;
  reads = λ r m. elim m [ ];
  answered_by = λ a m. elim m [ ];
  ran = λ u. ap once (sym (i.unfinished u));
}
Reach-IsUnique (later r st) = Step-IsUnique st (Reach-IsUnique r)

-- At most once: from any table of records in progress, whatever requests interleave, with overtaken
-- reads, lost races and claims that are taken over, after every step the answers of one tenant,
-- operation and key that come from a run of the handler are one where its record is completed, and
-- none where it is not. The step leaves the record as it is where that is in progress and its lease
-- has not ended before the step's clock: only a claim whose lease has ended is taken over.
pub execute-runs_once :
    {s t : System} (u : Scope) (step : Step s t)
    → Reach s
    → (count_fresh u t.answers ≡ once (done_at (get u t.table)))
      × ((is_leased (clock step) (get u s.table) ≡ false) ⊎ (get u t.table ≡ get u s.table))
execute-runs_once u step reach =
    ((Reach-IsUnique (later reach step)).ran u, Step-held u step (Reach-IsUnique reach))

-- One answer: from such a table, two requests of the same tenant, operation and key that are answered had the same
-- payload and venue, and get the same result.
pub execute-same_answer :
    {s : System} (a b : Answer)
    → Reach s
    → Memᴰ a s.answers
    → Memᴰ b s.answers
    → a.scope ≡ b.scope
    → (a.result ≡ b.result) × (a.hash ≡ b.hash) × (a.venue ≡ b.venue)
execute-same_answer {s} a b reach ma mb same =
    let f = (Reach-IsUnique reach).answered_by a ma in
    let g = (Reach-IsUnique reach).answered_by b mb in
    let one : f.source ≡ g.source =
      ground (arith, f.found, g.found, ap (λ u. get u s.table) same) in
    (
      sym f.same_result ∙ ap (λ r. r.result) one ∙ g.same_result,
      sym f.same_hash ∙ ap (λ r. r.request_hash) one ∙ g.same_hash,
      sym f.same_venue ∙ ap (λ r. r.venue) one ∙ g.same_venue,
    )
