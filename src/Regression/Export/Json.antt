-- ===== src/Regression/Export/Json.antt =====
-- How a file in JSON is read: its tokens, which are punctuation, strings without escapes, and words. A
-- word is a number by the grammar of JSON or one of its three literals, and nothing else.
use thread_pool_pro.Base.{
  ℕ, ◌≡◌, refl, Bool, true, ◌&&◌, ◌||◌, not, Option, none, some, List, [], ◌∷◌, ◌++◌, append_assoc,
  append-nil, arith, ap, Option-cases, inl, inr, ◌∙◌, sym, if◌then◌else◌, ◌==◌, ltb, codes, subst,
}
use thread_pool_pro.Regression.{Str}
use thread_pool_pro.Regression.Methods.{str_eq}
use thread_pool_pro.Regression.Export.Numbers.{
  Part, begin, minus, leading_zero, whole, dot, fraction, exponent, exponent_sign, exponent_digits,
  advance, number_from, is_number,
}

pub data Token : Type 0 where
  punct : ℕ → Token
  text : Str → Token
  word : Str → Token

-- Between two tokens, in a string, or in a number or a name.
pub data Mode : Type 0 where
  between : Mode
  in_text : Str → Mode
  in_word : Str → Mode

abbrev pub is_blank : ℕ → Bool
is_blank c = (c == b' ') || (c == 9) || (c == 10) || (c == 13)

abbrev pub is_punct : ℕ → Bool
is_punct c = (c == b'[') || (c == b']') || (c == b'{') || (c == b'}') || (c == b':') || (c == b',')

-- What a string holds as it stands, and what a number or a name does.
abbrev pub is_plain : ℕ → Bool
is_plain c = not (c == b'"') && not (c == 0x5C) && not (ltb c 32)

abbrev pub is_word : ℕ → Bool
is_word c = not (is_blank c) && not (is_punct c) && not (c == b'"')

-- `true`, `false` and `null`
abbrev pub is_literal : Str → Bool
is_literal w = str_eq w (codes "true") || str_eq w (codes "false") || str_eq w (codes "null")

-- The end of a word, which has to be a value of JSON, and the tokens behind it.
unfoldable pub end_word : Str → List Token → Option (Mode × List Token)
end_word w ts = if is_number w || is_literal w then some (between, word w ∷ ts) else none

-- One character: the next mode, with the tokens that end here; `none` is no JSON.
pub step : Mode → ℕ → Option (Mode × List Token)
step between c =
    if is_blank c
    then some (between, [])
    else (if is_punct c
        then some (between, punct c ∷ [])
        else (if c == b'"' then some (in_text [], []) else some (in_word (c ∷ []), [])))
step (in_text s) c =
    if c == b'"'
    then some (between, text s ∷ [])
    else (if is_plain c then some (in_text (s ++ c ∷ []), []) else none)
step (in_word s) c =
    if is_blank c
    then end_word s []
    else (if is_punct c
        then end_word s (punct c ∷ [])
        else (if c == b'"' then none else some (in_word (s ++ c ∷ []), [])))

unfoldable pub emit : List Token → Option (List Token) → Option (List Token)
emit ts none = none
emit ts (some us) = some (ts ++ us)

pub lex : Mode → Str → Option (List Token)
lex between [] = some []
lex (in_text s) [] = none
lex (in_word s) [] = elim (end_word s []) [ none ↦ none | some (next, ts) ↦ some ts ]
lex mode (c ∷ s) = elim (step mode c) [ none ↦ none | some (next, ts) ↦ emit ts (lex next s) ]

pub lex-nil : lex between [] ≡ some []
unfolding lex
lex-nil = refl

pub emit-emit :
    (ts us : List Token) (o : Option (List Token)) → emit ts (emit us o) ≡ emit (ts ++ us) o
unfolding emit
emit-emit ts us none = refl
emit-emit ts us (some vs) = ap some (sym (append_assoc ts us vs))

pub emit-nil : (o : Option (List Token)) → emit [] o ≡ o
unfolding emit
emit-nil none = refl
emit-nil (some ts) = refl

abbrev pub AllPlain : Str → Type 0
AllPlain [] = Unit {0}
AllPlain (c ∷ s) = (is_plain c ≡ true) × AllPlain s

abbrev pub AllWord : Str → Type 0
AllWord [] = Unit {0}
AllWord (c ∷ s) = (is_word c ≡ true) × AllWord s

-- A string, behind its first quote.
pub lex-text :
    (s : Str) (acc t : Str)
    → AllPlain s
    → lex (in_text acc) (s ++ b'"' ∷ t) ≡ emit (text (acc ++ s) ∷ []) (lex between t)
unfolding lex step
lex-text [] acc t h = rw (append-nil acc) refl
lex-text (c ∷ s) acc t (p, h) =
    let ih = lex-text s (acc ++ c ∷ []) t h in
    let on = emit-nil (lex (in_text (acc ++ c ∷ [])) (s ++ b'"' ∷ t)) in
    ground (arith, p, ih, on, append_assoc acc (c ∷ []) s)

-- A number or a name, begun and ended by a blank or by punctuation.
pub lex-word :
    (s : Str) (acc t : Str) (c : ℕ) (ts : List Token)
    → AllWord s
    → step (in_word (acc ++ s)) c ≡ some (between, word (acc ++ s) ∷ ts)
    → lex (in_word acc) (s ++ c ∷ t) ≡ emit (word (acc ++ s) ∷ ts) (lex between t)
unfolding lex
lex-word [] acc t c ts h end =
    let last : step (in_word acc) c ≡ some (between, word acc ∷ ts) =
      subst (λ w. step (in_word w) c ≡ some (between, word w ∷ ts)) (append-nil acc) end in
    rw (append-nil acc) (ground (arith, last))
lex-word (d ∷ s) acc t c ts (p, h) end =
    let go : step (in_word acc) d ≡ some (in_word (acc ++ d ∷ []), []) =
      unfold step in ground (arith, p) in
    let joined = append_assoc acc (d ∷ []) s in
    let ih =
      lex-word s (acc ++ d ∷ []) t c ts h
        (subst (λ w. step (in_word w) c ≡ some (between, word w ∷ ts)) (sym joined) end) in
    let on = emit-nil (lex (in_word (acc ++ d ∷ [])) (s ++ c ∷ t)) in
    ground (arith, go, ih, on, append_assoc acc (d ∷ []) s)

abbrev read_on : List Token → Option (Mode × List Token) → Option (Mode × List Token)
read_on ts none = none
read_on ts (some (m, us)) = some (m, ts ++ us)

-- The characters of a text that is known.
unfoldable pub reads : Mode → Str → Option (Mode × List Token)
unfolding step
reads m [] = some (m, [])
reads m (c ∷ s) = elim (step m c) [ none ↦ none | some (next, ts) ↦ read_on ts (reads next s) ]

reads-step :
    (m n next : Mode) (c : ℕ) (s : Str) (ts us : List Token)
    → step m c ≡ some (next, us)
    → reads m (c ∷ s) ≡ some (n, ts)
    → (vs : List Token) × (reads next s ≡ some (n, vs)) × (ts ≡ us ++ vs)
unfolding reads
reads-step m n next c s ts us e h = elim (Option-cases (reads next s)) [
  | inl f ↦ absurd (ground (arith, e, f, h))
  | inr ((k, vs), f) ↦ (vs, ground (arith, e, f, h), ground (arith, e, f, h))
]

lex-step :
    (m next : Mode) (c : ℕ) (s : Str) (ts : List Token)
    → step m c ≡ some (next, ts)
    → lex m (c ∷ s) ≡ emit ts (lex next s)
unfolding lex
lex-step between next c s ts e = ground (arith, e)
lex-step (in_text u) next c s ts e = ground (arith, e)
lex-step (in_word u) next c s ts e = ground (arith, e)

pub lex-reads :
    (m n : Mode) (s t : Str) (ts : List Token)
    → reads m s ≡ some (n, ts)
    → lex m (s ++ t) ≡ emit ts (lex n t)
lex-reads m n [] t ts e =
    let same : m ≡ n = unfold reads in ground (arith, e) in
    let empty : ts ≡ [] = unfold reads in ground (arith, e) in
    rw (empty, same) (sym (emit-nil (lex n t)))
lex-reads m n (c ∷ s) t ts e = elim (Option-cases (step m c)) [
  | inl f ↦ absurd (unfold reads in ground (arith, e, f))
  | inr ((next, us), f) ↦
      let (vs, g, split) = reads-step m n next c s ts us f e in
      lex-step m next c (s ++ t) us f
      ∙ ap (emit us) (lex-reads next n s t vs g)
      ∙ emit-emit us vs (lex n t)
      ∙ ap (λ ws. emit ws (lex n t)) (sym split)
]

-- A number or a name and the character behind it, from its first character.
pub lex-value :
    (d : ℕ) (s t : Str) (c : ℕ) (ts : List Token)
    → AllWord (d ∷ s)
    → step (in_word (d ∷ s)) c ≡ some (between, word (d ∷ s) ∷ ts)
    → lex between ((d ∷ s) ++ c ∷ t) ≡ emit (word (d ∷ s) ∷ ts) (lex between t)
lex-value d s t c ts (p, h) end =
    let first : step between d ≡ some (in_word (d ∷ []), []) = unfold step in ground (arith, p) in
    lex-step between (in_word (d ∷ [])) d (s ++ c ∷ t) [] first
    ∙ emit-nil (lex (in_word (d ∷ [])) (s ++ c ∷ t))
    ∙ lex-word s (d ∷ []) t c ts h end

pub comma-ends :
    (w : Str)
    → is_number w ≡ true
    → step (in_word w) b',' ≡ some (between, word w ∷ punct b',' ∷ [])
unfolding step end_word
comma-ends w h = ground (arith, h)

pub newline-ends :
    (w : Str) → is_number w ≡ true → step (in_word w) 10 ≡ some (between, word w ∷ [])
unfolding step end_word
newline-ends w h = ground (arith, h)

-- What a number is made of.
advance-is_word : (p q : Part) (c : ℕ) → advance p c ≡ some q → is_word c ≡ true
unfolding advance
advance-is_word begin q c e = ground (arith, e)
advance-is_word minus q c e = ground (arith, e)
advance-is_word leading_zero q c e = ground (arith, e)
advance-is_word whole q c e = ground (arith, e)
advance-is_word dot q c e = ground (arith, e)
advance-is_word fraction q c e = ground (arith, e)
advance-is_word exponent q c e = ground (arith, e)
advance-is_word exponent_sign q c e = ground (arith, e)
advance-is_word exponent_digits q c e = ground (arith, e)

pub number-AllWord : (p : Part) (s : Str) → number_from p s ≡ true → AllWord s
unfolding number_from
number-AllWord p [] h = tt
number-AllWord p (c ∷ s) h = elim (Option-cases (advance p c)) [
  | inl f ↦ absurd (ground (arith, f, h))
  | inr (q, f) ↦ (advance-is_word p q c f, number-AllWord q s (ground (arith, f, h)))
]
