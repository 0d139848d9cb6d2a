-- ===== src/Dpdk/Init/Words.antt =====
-- The arguments that `init_dpdk` (software/src/dpdk.cc) cuts out of the configuration string.
use packet_filter.Base.{ℕ, List, [], ◌∷◌, ◌++◌, ◌≡◌, ◌≢◌, refl, ap, ◌∙◌, sym, ne→==, ==_refl}
use mathlib.Core.List.{append-nil, append_assoc}
use packet_filter.Rules.Written.{Without}
use packet_filter.Options.Tokens.{join}
use packet_filter.Dpdk.Init.{word_end, words_from, strtok_words}

-- Texts that are not empty and have no separator.
abbrev pub AreWords : ℕ → List (List ℕ) → Type 0
AreWords sep [] = Unit {0}
AreWords sep (t ∷ ts) = (t ≢ []) × Without sep t × AreWords sep ts

word_end-ne : (t : List ℕ) → t ≢ [] → word_end t ≡ t ∷ []
word_end-ne [] ne = absurd (ne refl)
word_end-ne (x ∷ t) ne = refl

in_word :
    (sep x : ℕ) (word xs : List ℕ)
    → x ≢ sep
    → words_from sep word (x ∷ xs) ≡ words_from sep (word ++ (x ∷ [])) xs
unfolding words_from
in_word sep x word xs ne = rw (ne→== x sep ne, words_from)

after_word :
    (sep : ℕ) (word xs : List ℕ)
    → words_from sep word (sep ∷ xs) ≡ word_end word ++ words_from sep [] xs
unfolding words_from
after_word sep word xs = rw (==_refl sep, words_from)

last_word :
    (sep : ℕ) (word t : List ℕ) → Without sep t → words_from sep word t ≡ word_end (word ++ t)
last_word sep word [] h = unfold words_from in ap word_end (sym (append-nil word))
last_word sep word (x ∷ t) h =
    in_word sep x word t h.0
    ∙ last_word sep (word ++ (x ∷ [])) t h.1
    ∙ ap word_end (append_assoc word (x ∷ []) t)

one_word :
    (sep : ℕ) (word t rest : List ℕ)
    → Without sep t
    → words_from sep word (t ++ (sep ∷ rest)) ≡ word_end (word ++ t) ++ words_from sep [] rest
one_word sep word [] rest h =
    after_word sep word rest
    ∙ ap (λ (w : List ℕ). word_end w ++ words_from sep [] rest) (sym (append-nil word))
one_word sep word (x ∷ t) rest h =
    in_word sep x word (t ++ (sep ∷ rest)) h.0
    ∙ one_word sep (word ++ (x ∷ [])) t rest h.1
    ∙ ap (λ (w : List ℕ). word_end w ++ words_from sep [] rest) (append_assoc word (x ∷ []) t)

words_from-join :
    (sep : ℕ) (ts : List (List ℕ)) → AreWords sep ts → words_from sep [] (join sep ts) ≡ ts
words_from-join sep [] h = unfold words_from in refl
words_from-join sep (t ∷ []) h = last_word sep [] t h.1 ∙ word_end-ne t h.0
words_from-join sep (t ∷ u ∷ ts) h =
    one_word sep [] t (join sep (u ∷ ts)) h.1
    ∙ ap (λ (w : List (List ℕ)). w ++ words_from sep [] (join sep (u ∷ ts))) (word_end-ne t h.0)
    ∙ ap (◌∷◌ t) (words_from-join sep (u ∷ ts) h.2)

-- The words of a configuration string whose words are separated by single spaces are the arguments
-- of EAL, in order.
strtok_words-join : (ts : List (List ℕ)) → AreWords 32 ts → strtok_words (join 32 ts) ≡ ts
unfolding strtok_words
strtok_words-join ts h = words_from-join 32 ts h
