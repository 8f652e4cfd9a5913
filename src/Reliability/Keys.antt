-- ===== src/Reliability/Keys.antt =====
-- The keys that clients send with a request: `validate_idempotency_key` of
-- backend/app/application/services/idempotency.py. A key is the list of its code points.
use hotelops_ai.Prelude.{
  ℕ, ◌≡◌, Bool, true, false, ◌&&◌, ◌||◌, List, [], ◌∷◌, ◌++◌, leb, ◌==◌, length, Result, ok, ◌>>◌,
  ensure, arith, ◌≤◌, length-append,
}

abbrev is_printable : ℕ → Bool
is_printable c = leb 32 c && leb c 126

-- `_KEY_PATTERN.match`: the dollar sign also matches before a newline at the end.
unfoldable pub key_matches : List ℕ → Bool
key_matches [] = false
key_matches (c ∷ []) = is_printable c
key_matches (c ∷ d ∷ []) = is_printable c && (is_printable d || d == 10)
key_matches (c ∷ d ∷ e ∷ cs) = is_printable c && key_matches (d ∷ e ∷ cs)

-- The error that it raises is an argument.
unfoldable pub validate_idempotency_key {ℓ} : {E : Type ℓ} → E → List ℕ → Result E (Unit {0})
validate_idempotency_key raised key =
    ensure (leb 1 (length key) && leb (length key) 128) raised >> ensure (key_matches key) raised

abbrev all_printable : List ℕ → Bool
all_printable [] = true
all_printable (c ∷ cs) = is_printable c && all_printable cs

key_matches-printable :
    (c : ℕ) (cs : List ℕ) → all_printable (c ∷ cs) ≡ true → key_matches (c ∷ cs) ≡ true
unfolding key_matches
key_matches-printable c [] h = ground arith
key_matches-printable c (d ∷ []) h = ground arith
key_matches-printable c (d ∷ e ∷ cs) h = ground (arith, key_matches-printable d (e ∷ cs))

key_matches-newline :
    (c : ℕ) (cs : List ℕ) → key_matches (c ∷ cs ++ (10 ∷ [])) ≡ all_printable (c ∷ cs)
unfolding key_matches
key_matches-newline c [] = ground arith
key_matches-newline c (d ∷ []) = ground arith
key_matches-newline c (d ∷ e ∷ cs) = ground (arith, key_matches-newline d (e ∷ cs))

-- A printable key of at most 127 characters is accepted, and so is the same key with a newline at
-- its end, which is another key.
pub validate_idempotency_key-newline :
    {E : Type 0} (raised : E) (c : ℕ) (cs : List ℕ)
    → length (c ∷ cs) ≤ 127
    → all_printable (c ∷ cs) ≡ true
    → (validate_idempotency_key raised (c ∷ cs) ≡ ok tt)
      × (validate_idempotency_key raised (c ∷ cs ++ (10 ∷ [])) ≡ ok tt)
unfolding validate_idempotency_key
validate_idempotency_key-newline raised c cs short printable = (
  ground (arith, key_matches-printable c cs printable),
  ground (arith, key_matches-newline c cs, length-append cs (10 ∷ [])),
)
