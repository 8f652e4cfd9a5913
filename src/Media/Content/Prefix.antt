-- ===== src/Media/Content/Prefix.antt =====
-- What the loop over the chunks of an object collects.
use hotelops_ai.Prelude.{
  ℕ, zero, suc, ◌+◌, ◌-◌, ◌≤◌, ◌≡◌, refl, sym, ap, ◌∙◌, inl, inr, Bool, not, ◌&&◌, List, [], ◌∷◌,
  ◌++◌, leb, ltb, length, length-append, arith, Bool-cases,
}
use mathlib.Core.List.{append_assoc, append-nil}
use hotelops_ai.Media.Content.{take, read_prefix, concat}

take-append : (n : ℕ) (xs ys : List ℕ) → take n (xs ++ ys) ≡ take n xs ++ take (n - length xs) ys
take-append zero xs ys = let e : 0 - length xs ≡ 0 = omega arith in rw e refl
take-append (suc n) [] ys = let e : suc n - length {A = ℕ} [] ≡ suc n = omega arith in rw e refl
take-append (suc n) (x ∷ xs) ys =
    let e : suc n - length (x ∷ xs) ≡ n - length xs = omega arith in
    rw (e, take-append n xs ys) refl

take-nil : (n : ℕ) → take n [] ≡ []
take-nil zero = refl
take-nil (suc n) = refl

length-take : (n : ℕ) (xs : List ℕ) → length (take n xs) + (n - length xs) ≡ n
length-take zero xs = omega arith
length-take (suc n) [] = omega arith
length-take (suc n) (x ∷ xs) = omega (arith, length-take n xs)

-- One chunk: what the header takes of it, and what is left to take.
step_header :
    (room : ℕ) (header chunk rest : List ℕ)
    → (header ++ take room chunk) ++ take (room - length (take room chunk)) rest
      ≡ header ++ take room (chunk ++ rest)
step_header room header chunk rest =
    let e : room - length (take room chunk) ≡ room - length chunk =
      omega (arith, length-take room chunk) in
    rw (e, take-append room chunk rest) (append_assoc header (take room chunk) _)

-- The header that the loop collects is the first bytes of the object, as many as the limit, whether
-- it reads the whole stream for the hash or stops where the header is full.
pub read_prefix-take :
    (limit : ℕ) (full : Bool) (header : List ℕ) (chunks : List (List ℕ))
    → length header ≤ limit
    → read_prefix limit full header chunks ≡ header ++ take (limit - length header) (concat chunks)
unfolding read_prefix
read_prefix-take limit full header [] fits =
    rw (take-nil (limit - length header)) (sym (append-nil header))
read_prefix-take limit full header (chunk ∷ chunks) fits =
    let grown = header ++ take (limit - length header) chunk in
    let size : length grown ≡ length header + length (take (limit - length header) chunk) =
      length-append header (take (limit - length header) chunk) in
    let room = length-take (limit - length header) chunk in
    let taken = step_header (limit - length header) header chunk (concat chunks) in
    let left : (limit - length header) - length (take (limit - length header) chunk)
        ≡ limit - length grown =
      omega (arith, size) in
    elim (Bool-cases (ltb (length header) limit)) [
      | inr over ↦
          let e : limit - length header ≡ 0 = ground arith in
          rw over (read_prefix-take limit full header chunks fits ∙ rw e refl)
      | inl open_ ↦ elim (Bool-cases (not full && leb limit (length grown))) [
        | inl stops ↦
            let e : limit - length grown ≡ 0 = ground arith in
            rw (open_, stops)
              (sym (append-nil grown)
                ∙ rw (sym left) at (ap (λ n. grown ++ take n (concat chunks)) (sym e))
                ∙ taken)
        | inr goes ↦
            rw (open_, goes)
              (read_prefix-take limit full grown chunks (omega (arith, size, room, fits))
                ∙ rw (sym left) taken)
      ]
    ]
