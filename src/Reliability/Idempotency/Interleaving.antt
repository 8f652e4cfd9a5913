-- ===== src/Reliability/Idempotency/Interleaving.antt =====
-- Interleaved requests over one table of idempotency records, and what they are answered.
use mathlib.Core.List.{Memᴰ}
use hotelops_ai.Prelude.{
  ℕ, suc, ◌≡◌, Bool, true, false, not, ◌&&◌, Option, none, some, List, [], ◌∷◌, ◌==◌, if◌then◌else◌,
}
use hotelops_ai.Reliability.Idempotency.{
  Claim, Scope, Request, Reply, is_completed, same_scope, scope_of, get, any, answered, refused,
  again, wait, take_turn,
}
use hotelops_ai.Reliability.Idempotency.Table.{AreUnits}

-- What a request was answered.
pub record Answer : Type 0 where
  pub scope : Scope
  pub hash : ℕ
  pub venue : Option ℕ
  pub result : Option ℕ
  pub replayed : Bool

-- The table, the reads of all sessions so far, and the answers.
pub record System : Type 0 where
  pub table : List Claim
  pub reads : List Claim
  pub answers : List Answer

abbrev pub log : Request → Reply → List Answer → List Answer
log q (answered id result replayed) answers =
    record {
      scope = scope_of q;
      hash = q.hash;
      venue = q.venue;
      result = result;
      replayed = replayed;
    }
    ∷ answers
log q (refused e) answers = answers
log q again answers = answers
log q wait answers = answers

abbrev pub outcome : Request → System → List Claim × Reply → System
outcome q s taken = record s { table = taken.0; answers = log q taken.1 s.answers }

abbrev pub act : Request → ℕ → ℕ → Option ℕ → Option Claim → System → System
act q new_id now handled found s = outcome q s (take_turn q new_id now handled found s.table)

-- A read of a record, and a turn after a read that found nothing, or that found a record then. The
-- identifier of a new record is fresh.
pub data Step : System → System → Type 0 where
  reads_claim :
      (u : Scope) (r : Claim) (s : System)
      → get u s.table ≡ some r
      → Step s (record s { reads = r ∷ s.reads })
  acts_first :
      (q : Request) (new_id now : ℕ) (handled : Option ℕ) (s : System)
      → any (λ r. r.claim_id == new_id) s.table ≡ false
      → Step s (act q new_id now handled none s)
  acts_after :
      (q : Request) (new_id now : ℕ) (handled : Option ℕ) (r : Claim) (s : System)
      → Memᴰ r s.reads
      → r.scope ≡ scope_of q
      → Step s (act q new_id now handled (some r) s)

abbrev pub done_at : Option Claim → Bool
done_at none = false
done_at (some r) = is_completed r.status

-- Records that no request has completed, one for each scope and each identifier: a table before its
-- requests, with what earlier requests left in progress.
pub record IsOpen (table : List Claim) : Type 0 where
  pub units : AreUnits table
  pub one_id :
      (u v : Scope) {k l : Claim}
      → get u table ≡ some k
      → get v table ≡ some l
      → k.claim_id ≡ l.claim_id
      → u ≡ v
  pub unfinished : (u : Scope) → done_at (get u table) ≡ false

pub data Reach : System → Type 0 where
  start :
      (table : List Claim)
      → IsOpen table
      → Reach (record { table = table; reads = []; answers = [] })
  later : {s t : System} → Reach s → Step s t → Reach t

unfoldable pub count_fresh : Scope → List Answer → ℕ
count_fresh u [] = 0
count_fresh u (a ∷ answers) =
    let rest = count_fresh u answers in
    if same_scope a.scope u && not a.replayed then suc rest else rest

abbrev pub once : Bool → ℕ
once true = 1
once false = 0
