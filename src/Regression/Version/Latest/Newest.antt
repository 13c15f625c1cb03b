-- ===== src/Regression/Version/Latest/Newest.antt =====
-- What `latestBaseline` finds is the newest.
use thread_pool_pro.Base.{
  ◌≡◌, refl, inl, inr, Bool, true, false, ◌||◌, ◌&&◌, Option, none, some, List, [], ◌∷◌, arith,
  Bool-cases, Option-cases,
}
use thread_pool_pro.Regression.{Str}
use thread_pool_pro.Regression.Version.{Baseline, is_custom_baseline_name, parse_baseline}
use thread_pool_pro.Regression.Version.Latest.{
  older, Entry, newest, newer, latest_loop, latest_baseline,
}
use thread_pool_pro.Regression.Version.Latest.Order.{older_trans, older_le, older_irreflexive}

-- `b` is at least as new as each version that the loop has seen.
abbrev Covers : Baseline → Option Baseline → Type 0
Covers b none = Unit {0}
Covers b (some c) = older b c ≡ false

Covers-newer :
    (b current : Baseline) (latest : Option Baseline)
    → Covers b (newer latest current)
    → Covers b latest × (older b current ≡ false)
Covers-newer b current none h = (tt, h)
Covers-newer b current (some latest) h = elim (Bool-cases (older latest current)) [
  | inl e ↦
      let above : older b current ≡ false = ground (arith, e, h) in
      (
        elim (Bool-cases (older b latest)) [
          | inl f ↦ absurd (ground (arith, older_trans b latest current f e, above))
          | inr f ↦ f
        ],
        above,
      )
  | inr e ↦
      let above : older b latest ≡ false = ground (arith, e, h) in
      (above, older_le current latest b e above)
]

module _ (is_ours : Str → Bool) where
  -- `b` is at least as new as each baseline among the entries.
  abbrev pub Newest : Baseline → List Entry → Type 0
  Newest b [] = Unit {0}
  Newest b (e ∷ entries) =
      ((c : Baseline)
        → (e.is_directory && is_ours e.name) ≡ true
        → parse_baseline e.name ≡ some c
        → older b c ≡ false)
      × Newest b entries

  loop-Newest :
      (latest : Option Baseline) (entries : List Entry) (b : Baseline)
      → latest_loop is_ours latest entries ≡ newest b
      → Covers b latest × Newest b entries
  unfolding latest_loop
  loop-Newest none [] b e = (tt, tt)
  loop-Newest (some l) [] b e = (ground (arith, e, older_irreflexive b), tt)
  loop-Newest latest (e ∷ entries) b h = elim (Bool-cases (e.is_directory && is_ours e.name)) [
    | inl mine ↦ elim (Option-cases (parse_baseline e.name)) [
      | inl k ↦ absurd (ground (arith, mine, k, h))
      | inr (c, k) ↦
          let ih = loop-Newest (newer latest c) entries b (ground (arith, mine, k, h)) in
          let covers = Covers-newer b c latest ih.0 in
          (covers.0, (λ d m p. ground (arith, p, k, covers.1), ih.1))
    ]
    | inr other ↦
        let ih = loop-Newest latest entries b (ground (arith, other, h)) in
        (ih.0, (λ d m p. absurd (ground (arith, m, other)), ih.1))
  ]

  abbrev pub is_own : Entry → Bool
  is_own e = e.is_directory && is_ours e.name

  -- Each directory of the tool has a name that is a version, and there is one.
  abbrev pub Versions : List Entry → Type 0
  Versions [] = Unit {0}
  Versions (e ∷ entries) =
      (is_own e ≡ true → (b : Baseline) × (parse_baseline e.name ≡ some b)) × Versions entries

  abbrev pub some_own : List Entry → Bool
  some_own [] = false
  some_own (e ∷ entries) = is_own e || some_own entries

  loop-later :
      (l : Baseline) (entries : List Entry)
      → Versions entries
      → (b : Baseline) × (latest_loop is_ours (some l) entries ≡ newest b)
  unfolding latest_loop
  loop-later l [] v = (l, refl)
  loop-later l (e ∷ entries) (v, vs) = elim (Bool-cases (is_own e)) [
    | inl mine ↦
        let (c, k) = v mine in
        elim (Bool-cases (older l c)) [
          | inl o ↦ let (b, h) = loop-later c entries vs in (b, ground (arith, mine, k, o, h))
          | inr o ↦ let (b, h) = loop-later l entries vs in (b, ground (arith, mine, k, o, h))
        ]
    | inr other ↦ let (b, h) = loop-later l entries vs in (b, ground (arith, other, h))
  ]

  loop-first :
      (entries : List Entry)
      → Versions entries
      → some_own entries ≡ true
      → (b : Baseline) × (latest_loop is_ours none entries ≡ newest b)
  unfolding latest_loop
  loop-first [] v s = absurd (ground arith)
  loop-first (e ∷ entries) (v, vs) s = elim (Bool-cases (is_own e)) [
    | inl mine ↦
        let (c, k) = v mine in
        let (b, h) = loop-later c entries vs in (b, ground (arith, mine, k, h))
    | inr other ↦
        let (b, h) = loop-first entries vs (ground (arith, other, s)) in
        (b, ground (arith, other, h))
  ]

  pub loop_lem :
      (entries : List Entry)
      → Versions entries
      → some_own entries ≡ true
      → (b : Baseline) × (latest_loop is_ours none entries ≡ newest b) × Newest b entries
  loop_lem entries v s =
      let (b, h) = loop-first entries v s in (b, h, (loop-Newest none entries b h).1)

-- When the names of the tool's directories are all versions, and there is one: `latestBaseline` finds a
-- baseline, and no directory of the tool has a newer one, by major, minor and patch number and then by
-- its name.
pub latest_baseline-Newest :
    (entries : List Entry)
    → Versions is_custom_baseline_name entries
    → some_own is_custom_baseline_name entries ≡ true
    → (b : Baseline) × (latest_baseline entries ≡ newest b)
      × Newest is_custom_baseline_name b entries
unfolding latest_baseline
latest_baseline-Newest entries v s = loop_lem is_custom_baseline_name entries v s
