-- ===== src/Google/Cli/Labels.antt =====
-- The baselines and the labels of the tool.
use thread_pool_pro.Base.{◌≡◌, ◌∙◌, ap, Bool, true, false, List, [], ◌∷◌, ◌++◌, arith}
use thread_pool_pro.Regression.{Str}
use thread_pool_pro.Regression.Version.{Baseline}
use thread_pool_pro.Regression.Version.Latest.{Entry, newest}
use thread_pool_pro.Regression.Version.Latest.Newest.{Newest, Versions, some_own, loop_lem}
use thread_pool_pro.Regression.Cli.{benchmarks, baselines, json, has_slash, filename, filename_from}
use thread_pool_pro.Regression.Cli.Labels.{has_slash-append, parent_path-append, filename_from-name}
use thread_pool_pro.Google.{is_google_baseline_name}
use thread_pool_pro.Google.Cli.{latest_baseline, live_results_file, baseline_path, label_for}

-- When the directories with a snapshot of the tool all have versions as names, and there is one:
-- `latestBaseline` finds a baseline, and no other of them is newer.
pub latest_baseline-newest :
    (exists : Str → Str → Bool) (entries : List Entry)
    → Versions (is_google_baseline_name exists) entries
    → some_own (is_google_baseline_name exists) entries ≡ true
    → (b : Baseline) × (latest_baseline exists entries ≡ newest b)
      × Newest (is_google_baseline_name exists) b entries
unfolding latest_baseline
latest_baseline-newest exists entries v s = loop_lem (is_google_baseline_name exists) entries v s

-- The label of the file of a baseline is the name of the baseline, if there is no slash in it.
pub label_for-tag : (b : Baseline) → has_slash b.name ≡ false → label_for (baseline_path b) ≡ b.name
unfolding label_for baseline_path live_results_file filename filename_from
label_for-tag b h =
    let file : has_slash (b'g' ∷ (b.name ++ json)) ≡ false =
      ground (arith, has_slash-append b.name json, h) in
    ap filename (parent_path-append (benchmarks (baselines b.name)) (b'g' ∷ (b.name ++ json)) file)
    ∙ filename_from-name [] b.name h
