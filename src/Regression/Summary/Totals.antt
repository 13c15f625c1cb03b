-- ===== src/Regression/Summary/Totals.antt =====
-- The numbers of the summary, and the columns of its box.
use thread_pool_pro.Base.{
  ℕ, suc, ◌+◌, ◌≡◌, ◌∙◌, refl, ap, sym, Bool, not, ◌&&◌, List, [], ◌∷◌, ◌++◌, append_assoc,
  append-nil, map, arith, length, if◌then◌else◌,
}
use thread_pool_pro.Regression.Methods.{BenchmarkResult, get_cns}
use thread_pool_pro.Regression.Summary.{
  RegressionRow, Doubles, result_of, results_from, Tally, no_rows, changes, tally_row, tally_from,
  total,
}

module _ {D : Type 0} (d : Doubles D) where
  -- How many changes a test accepts.
  abbrev pub counting : (D → Bool) → List D → ℕ
  counting test [] = 0
  counting test (pct ∷ rest) = (if test pct then 1 else 0) + counting test rest

  abbrev pub is_faster : D → Bool
  is_faster pct = not (d.is_noise pct) && d.is_positive pct

  tally_from_lem :
      (t : Tally) (pcts : List D)
      → ((tally_from d t pcts).tied ≡ t.tied + counting d.is_noise pcts)
        × ((tally_from d t pcts).faster ≡ t.faster + counting is_faster pcts)
        × (total (tally_from d t pcts) ≡ total t + length pcts)
  unfolding tally_from tally_row
  tally_from_lem t [] = omega arith
  tally_from_lem t (pct ∷ rest) = ground (arith, tally_from_lem (tally_row d t pct) rest)

  pub results_from_lem :
      (seen : List (RegressionRow D)) (current baseline : List (BenchmarkResult D))
      → results_from d seen current baseline ≡ seen ++ map (result_of d current) baseline
  unfolding results_from
  results_from_lem seen current [] = sym (append-nil seen)
  results_from_lem seen current (r ∷ rest) =
      results_from_lem (seen ++ result_of d current r ∷ []) current rest
      ∙ append_assoc seen (result_of d current r ∷ []) (map (result_of d current) rest)

  -- The change that is reported for an entry of the baseline.
  abbrev pub change_of : List (BenchmarkResult D) → BenchmarkResult D → D
  change_of current r =
      d.change r.ns_per_op (get_cns d.zero_double current r.operation r.iterations)

  changes-results :
      (current baseline : List (BenchmarkResult D))
      → changes (map (result_of d current) baseline) ≡ map (change_of current) baseline
  unfolding result_of
  changes-results current [] = refl
  changes-results current (r ∷ rest) =
      ap (λ ps. change_of current r ∷ ps) (changes-results current rest)

  length-map :
      (f : BenchmarkResult D → D) (xs : List (BenchmarkResult D)) → length (map f xs) ≡ length xs
  length-map f [] = refl
  length-map f (x ∷ xs) = ap suc (length-map f xs)

  -- After a comparison, the summary has counted each entry of the baseline once: as a tie when its
  -- change is noise, as faster when it is not and is positive, and otherwise as slower.
  pub tally_lem :
      (current baseline : List (BenchmarkResult D))
      → ((tally_from d no_rows (changes (results_from d [] current baseline))).tied
          ≡ counting d.is_noise (map (change_of current) baseline))
        × ((tally_from d no_rows (changes (results_from d [] current baseline))).faster
            ≡ counting is_faster (map (change_of current) baseline))
        × (total (tally_from d no_rows (changes (results_from d [] current baseline)))
            ≡ length baseline)
  tally_lem current baseline =
      let all =
        ap changes (results_from_lem [] current baseline) ∙ changes-results current baseline in
      let (t, f, n) = tally_from_lem no_rows (map (change_of current) baseline) in
      rw all (omega (arith, t, f, n, length-map (change_of current) baseline))
