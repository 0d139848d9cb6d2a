-- ===== src/Options/Tokens.antt =====
-- The filters that `parse_args` (software/src/main.cc) cuts out of the text of option `-f`.
use packet_filter.Base.{
  ℕ, zero, suc, ◌≤◌, ◌<◌, ◌==◌, List, [], ◌∷◌, ◌++◌, length-append, length, ◌≡◌, ◌≢◌, inl, inr,
  refl, ap, ◌∙◌, ne→==, ==_refl, Bool-cases, arith,
}
use packet_filter.Rules.Written.{Without}
use packet_filter.Options.{token_first, read_token, getline, token_loop, filter_tokens}

-- Texts joined by a delimiter.
abbrev pub join : ℕ → List (List ℕ) → List ℕ
join delim [] = []
join delim (t ∷ []) = t
join delim (t ∷ u ∷ ts) = t ++ (delim ∷ join delim (u ∷ ts))

-- No text has the delimiter, and the last one is not empty.
abbrev pub AreTokens : ℕ → List (List ℕ) → Type 0
AreTokens delim [] = Unit {0}
AreTokens delim (t ∷ []) = Without delim t × (t ≢ [])
AreTokens delim (t ∷ u ∷ ts) = Without delim t × AreTokens delim (u ∷ ts)

read_token-ne :
    (delim x : ℕ) (xs : List ℕ)
    → x ≢ delim
    → read_token delim (x ∷ xs) ≡ token_first x (read_token delim xs)
unfolding read_token
read_token-ne delim x xs ne = rw (ne→== x delim ne)

read_token-append :
    (delim : ℕ) (t rest : List ℕ)
    → Without delim t
    → read_token delim (t ++ (delim ∷ rest)) ≡ (t, rest)
unfolding read_token
read_token-append delim [] rest h = rw (==_refl delim)
read_token-append delim (x ∷ t) rest h =
    read_token-ne delim x (t ++ (delim ∷ rest)) h.0
    ∙ ap (token_first x) (read_token-append delim t rest h.1)

read_token_whole : (delim : ℕ) (t : List ℕ) → Without delim t → read_token delim t ≡ (t, [])
unfolding read_token
read_token_whole delim [] h = refl
read_token_whole delim (x ∷ t) h =
    read_token-ne delim x t h.0 ∙ ap (token_first x) (read_token_whole delim t h.1)

-- A token leaves fewer characters than there were.
read_token-length : (delim : ℕ) (s : List ℕ) → length (read_token delim s).1 ≤ length s
unfolding read_token
read_token-length delim [] = omega arith
read_token-length delim (x ∷ xs) = elim (Bool-cases (x == delim)) [
  | inl e ↦ rw e (omega arith)
  | inr e ↦ rw e (omega (arith, read_token-length delim xs))
]

rest_shorter : (delim x : ℕ) (xs : List ℕ) → length (read_token delim (x ∷ xs)).1 ≤ length xs
unfolding read_token
rest_shorter delim x xs = elim (Bool-cases (x == delim)) [
  | inl e ↦ rw e (omega arith)
  | inr e ↦ rw e (read_token-length delim xs)
]

-- More fuel than characters changes nothing.
token_loop_enough :
    (fuel more delim : ℕ) (s : List ℕ)
    → length s ≤ fuel
    → length s ≤ more
    → token_loop fuel delim s ≡ token_loop more delim s
unfolding token_loop getline
token_loop_enough zero zero delim s h k = refl
token_loop_enough zero (suc more) delim [] h k = refl
token_loop_enough zero (suc more) delim (x ∷ xs) h k = absurd (omega arith)
token_loop_enough (suc fuel) zero delim [] h k = refl
token_loop_enough (suc fuel) zero delim (x ∷ xs) h k = absurd (omega arith)
token_loop_enough (suc fuel) (suc more) delim [] h k = refl
token_loop_enough (suc fuel) (suc more) delim (x ∷ xs) h k =
    let (token, rest) = read_token delim (x ∷ xs) in
    ap (◌∷◌ token) (
      token_loop_enough fuel more delim rest (omega (arith, rest_shorter delim x xs))
        (omega (arith, rest_shorter delim x xs)))

-- Every round takes a character at least: with the length of the text as fuel, or with more, the loop
-- over the tokens goes on to the end, and gives the same tokens.
pub filter_tokens-enough :
    (more : ℕ) (s : List ℕ) → length s ≤ more → token_loop more b',' s ≡ filter_tokens s
unfolding filter_tokens
filter_tokens-enough more s h = token_loop_enough more (length s) b',' s h (omega arith)

token_loop-step :
    (fuel delim : ℕ) (s token rest : List ℕ)
    → 0 < length s
    → read_token delim s ≡ (token, rest)
    → token_loop (suc fuel) delim s ≡ token ∷ token_loop fuel delim rest
unfolding token_loop getline
token_loop-step fuel delim [] token rest h e = absurd (omega arith)
token_loop-step fuel delim (x ∷ xs) token rest h e =
    ap (λ (r : List ℕ × List ℕ). r.0 ∷ token_loop fuel delim r.1) e

token_loop_end : (fuel delim : ℕ) → token_loop fuel delim [] ≡ []
unfolding token_loop getline
token_loop_end zero delim = refl
token_loop_end (suc fuel) delim = refl

nonempty_pos : (t : List ℕ) → t ≢ [] → 0 < length t
nonempty_pos [] ne = absurd (ne refl)
nonempty_pos (x ∷ t) ne = omega arith

token_loop-join :
    (fuel delim : ℕ) (ts : List (List ℕ))
    → AreTokens delim ts
    → length (join delim ts) ≤ fuel
    → token_loop fuel delim (join delim ts) ≡ ts
token_loop-join fuel delim [] h enough = token_loop_end fuel delim
token_loop-join zero delim (t ∷ []) h enough = absurd (omega (arith, nonempty_pos t h.1))
token_loop-join (suc fuel) delim (t ∷ []) h enough =
    token_loop-step fuel delim t t [] (nonempty_pos t h.1) (read_token_whole delim t h.0)
    ∙ ap (◌∷◌ t) (token_loop_end fuel delim)
token_loop-join zero delim (t ∷ u ∷ ts) h enough =
    absurd (omega (arith, length-append t (delim ∷ join delim (u ∷ ts))))
token_loop-join (suc fuel) delim (t ∷ u ∷ ts) h enough =
    let long = length-append t (delim ∷ join delim (u ∷ ts)) in
    token_loop-step fuel delim (t ++ (delim ∷ join delim (u ∷ ts))) t (join delim (u ∷ ts))
      (omega (arith, long)) (read_token-append delim t (join delim (u ∷ ts)) h.0)
    ∙ ap (◌∷◌ t) (token_loop-join fuel delim (u ∷ ts) h.1 (omega (arith, long)))

-- Filters that are joined by commas, the last one not empty, are the tokens of the text.
pub filter_tokens-join :
    (ts : List (List ℕ)) → AreTokens b',' ts → filter_tokens (join b',' ts) ≡ ts
unfolding filter_tokens
filter_tokens-join ts h = token_loop-join (length (join b',' ts)) b',' ts h (omega arith)
