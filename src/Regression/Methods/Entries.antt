-- ===== src/Regression/Methods/Entries.antt =====
-- `uniqueOperations`, `filterByOperation` and `getCns`.
use thread_pool_pro.Base.{
  not, if◌then◌else◌, ℕ, ◌≡◌, ◌∙◌, refl, subst, inl, inr, Bool, true, false, ◌||◌, List, [], ◌∷◌,
  ◌++◌, arith, Bool-cases,
}
use thread_pool_pro.Regression.{Str}
use thread_pool_pro.Regression.Methods.{
  apply_method_filter, is_empty, both, baseline_missing, current_missing, str_eq, BenchmarkResult,
  get_cns, has_name, unique_from, unique_operations, filter_by_operation,
}

pub str_eq_refl : (s : Str) → str_eq s s ≡ true
str_eq_refl [] = refl
str_eq_refl (c ∷ s) = ground (arith, str_eq_refl s)

pub str_eq_sound : (s t : Str) → str_eq s t ≡ true → s ≡ t
str_eq_sound [] [] e = refl
str_eq_sound [] (d ∷ t) e = absurd (ground arith)
str_eq_sound (c ∷ s) [] e = absurd (ground arith)
str_eq_sound (c ∷ s) (d ∷ t) e =
    let rest : str_eq s t ≡ true = ground arith in ground (arith, str_eq_sound s t rest)

-- No name stands twice.
abbrev pub Distinct : List Str → Type 0
Distinct [] = Unit {0}
Distinct (s ∷ rest) = (has_name s rest ≡ false) × Distinct rest

has_name-append : (x : Str) (s t : List Str) → has_name x (s ++ t) ≡ (has_name x s || has_name x t)
has_name-append x [] t = refl
has_name-append x (y ∷ s) t = ground (arith, has_name-append x s t)

pub str_eq_sym : (s t : Str) → str_eq s t ≡ str_eq t s
str_eq_sym [] [] = refl
str_eq_sym [] (d ∷ t) = refl
str_eq_sym (c ∷ s) [] = refl
str_eq_sym (c ∷ s) (d ∷ t) = ground (arith, str_eq_sym s t)

Distinct-append :
    (s : List Str) (x : Str) → Distinct s → has_name x s ≡ false → Distinct (s ++ x ∷ [])
Distinct-append [] x d e = (refl, tt)
Distinct-append (y ∷ s) x (d, k) e =
    let apart : str_eq y x ≡ false = ground arith in
    (
      ground (arith, has_name-append y s (x ∷ []), str_eq_sym x y, d),
      Distinct-append s x k (ground arith),
    )

module _ {D : Type 0} where
  -- Whether an entry has the operation `x`.
  abbrev pub measured : Str → List (BenchmarkResult D) → Bool
  measured x [] = false
  measured x (r ∷ rest) = str_eq r.operation x || measured x rest

  -- The operations of `rs` after those of `seen`, each once.
  UniqueOf : List Str → List (BenchmarkResult D) → List Str → Type 0
  UniqueOf seen rs ops =
      Distinct ops × ((x : Str) → has_name x ops ≡ (has_name x seen || measured x rs))

  seen_again :
      (seen : List Str) (r : BenchmarkResult D) (rest : List (BenchmarkResult D)) (x : Str)
      → has_name r.operation seen ≡ true
      → (has_name x seen || measured x rest) ≡ (has_name x seen || measured x (r ∷ rest))
  seen_again seen r rest x e = elim (Bool-cases (str_eq r.operation x)) [
    | inl k ↦
        let found : has_name x seen ≡ true =
          subst (λ y. has_name y seen ≡ true) (str_eq_sound r.operation x k) e in
        ground (arith, found)
    | inr k ↦ ground (arith, k)
  ]

  unique_from-lem :
      (seen : List Str) (rs : List (BenchmarkResult D))
      → Distinct seen
      → UniqueOf seen rs (unique_from seen rs)
  unfolding unique_from UniqueOf
  unique_from-lem seen [] d = (d, λ x. ground arith)
  unique_from-lem seen (r ∷ rest) d = elim (Bool-cases (has_name r.operation seen)) [
    | inl e ↦
        let ih = unique_from-lem seen rest d in
        subst (UniqueOf seen (r ∷ rest)) (ground (arith, e))
          (ih.0, λ x. ih.1 x ∙ seen_again seen r rest x e)
    | inr e ↦
        let longer = seen ++ r.operation ∷ [] in
        let ih = unique_from-lem longer rest (Distinct-append seen r.operation d e) in
        subst (UniqueOf seen (r ∷ rest)) (ground (arith, e))
          (ih.0, λ x. ih.1 x ∙ ground (arith, has_name-append x seen (r.operation ∷ [])))
  ]

  -- `uniqueOperations` lists no operation twice, and lists exactly those that an entry has.
  pub unique_operations_lem :
      (rs : List (BenchmarkResult D))
      → Distinct (unique_operations rs)
        × ((x : Str) → has_name x (unique_operations rs) ≡ measured x rs)
  unfolding unique_operations UniqueOf
  unique_operations_lem rs = unique_from-lem [] rs tt

  -- A method filter does not change what is found for the method: `getCns` in the filtered entries is
  -- `getCns` in all of them.
  pub get_cns-filter_by_operation :
      (zero_double : D) (rs : List (BenchmarkResult D)) (op : Str) (iter : ℕ)
      → get_cns zero_double (filter_by_operation rs op) op iter ≡ get_cns zero_double rs op iter
  unfolding get_cns filter_by_operation
  get_cns-filter_by_operation zero_double [] op iter = refl
  get_cns-filter_by_operation zero_double (r ∷ rest) op iter =
      ground (arith, get_cns-filter_by_operation zero_double rest op iter)

  filter_by_operation-is_empty :
      (rs : List (BenchmarkResult D)) (op : Str)
      → is_empty (filter_by_operation rs op) ≡ not (measured op rs)
  unfolding filter_by_operation
  filter_by_operation-is_empty [] op = refl
  filter_by_operation-is_empty (r ∷ rest) op = ground (arith, filter_by_operation-is_empty rest op)

  -- `applyMethodFilter` names the baseline when it lacks the method, else the current side when that
  -- lacks it, and otherwise goes on with the entries of both.
  pub apply_method_filter_lem :
      (baseline current : List (BenchmarkResult D)) (method : Str)
      → apply_method_filter baseline current method ≡ (
          if not (measured method baseline)
          then baseline_missing
          else (if not (measured method current)
              then current_missing
              else both (filter_by_operation baseline method) (filter_by_operation current method)))
  unfolding apply_method_filter
  apply_method_filter_lem baseline current method = ground (
    arith,
    filter_by_operation-is_empty baseline method,
    filter_by_operation-is_empty current method,
  )
