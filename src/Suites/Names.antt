-- ===== src/Suites/Names.antt =====
-- `prettify` and `toLower` on ids, names and what the command line asks for.
use thread_pool_pro.Base.{
  ℕ, ◌≡◌, ◌∙◌, refl, ap, sym, inl, inr, Bool-cases, true, false, [], ◌∷◌, arith,
}
use thread_pool_pro.Regression.{Str}
use thread_pool_pro.Regression.Methods.{str_eq, to_upper, all_digits}
use thread_pool_pro.Regression.Methods.Entries.{str_eq_sound}
use thread_pool_pro.Regression.Methods.Ids.{to_string-digits}
use thread_pool_pro.Regression.Version.{to_string, read_digits}
use thread_pool_pro.Regression.Version.Decimal.{read_digits-to_string}
use thread_pool_pro.Suites.{prettify_from, prettify, to_lower}

pub str_eq_ne : (s t : Str) → (s ≡ t → ⊥) → str_eq s t ≡ false
str_eq_ne s t h = elim (Bool-cases (str_eq s t)) [
  | inl e ↦ absurd (h (str_eq_sound s t e))
  | inr e ↦ e
]

prettify_from-digits : (s : Str) → all_digits s ≡ true → prettify_from false s ≡ s
unfolding prettify_from
prettify_from-digits [] h = refl
prettify_from-digits (c ∷ s) h =
    let ih = prettify_from-digits s (ground (arith, h)) in ground (arith, h, ih)

pub to_lower-digits : (s : Str) → all_digits s ≡ true → to_lower s ≡ s
unfolding to_lower
to_lower-digits [] h = refl
to_lower-digits (c ∷ s) h = let ih = to_lower-digits s (ground (arith, h)) in ground (arith, h, ih)

-- An id is asked for in capitals or in small letters.
pub to_lower-prettify_id :
    (c : ℕ) (s : Str)
    → all_digits s ≡ true
    → (to_lower (prettify (c ∷ s)) ≡ to_lower (c ∷ s))
      × (to_lower (prettify (to_lower (c ∷ s))) ≡ to_lower (c ∷ s))
unfolding prettify prettify_from to_lower
to_lower-prettify_id c s h =
    let a = prettify_from-digits s h in
    let b = to_lower-digits s h in (ground (arith, a), ground (arith, a, b))

to_string-inj : (m n : ℕ) → to_string m ≡ to_string n → m ≡ n
to_string-inj m n e =
    ap (λ (p : ℕ × Str). p.0)
      (sym (read_digits-to_string m) ∙ ap (read_digits 0) e ∙ read_digits-to_string n)

-- Two ids in small letters are equal only when both their parts are.
pub id-eq :
    (c d m n : ℕ)
    → to_lower (to_upper c ∷ to_string m) ≡ to_lower (to_upper d ∷ to_string n)
    → (to_upper c ≡ to_upper d) × (m ≡ n)
unfolding to_lower
id-eq c d m n e =
    let (x, s, p, k) = to_string-digits m in
    let (y, t, q, l) = to_string-digits n in
    let same : to_lower (to_string m) ≡ to_lower (to_string n) = ground (arith, e) in
    let below = ap to_lower p ∙ to_lower-digits (x ∷ s) k ∙ sym p in
    let above = ap to_lower q ∙ to_lower-digits (y ∷ t) l ∙ sym q in
    (ground (arith, e), to_string-inj m n (sym below ∙ same ∙ above))
