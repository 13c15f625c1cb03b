-- ===== src/Regression/Methods.antt =====
-- regression/custom/support/helpers.h: the entries of a snapshot, and the ids that `regression methods`
-- gives to the benchmark methods.
pub mod Entries
pub mod Groups
pub mod Ids
use thread_pool_pro.Base.{
  ℕ, zero, suc, ◌+◌, ◌-◌, ◌^◌, Bool, true, false, ◌&&◌, ◌||◌, not, Option, none, some, List, [],
  ◌∷◌, ◌++◌, if◌then◌else◌, ◌==◌, ltb, leb, length, get_elem?,
}
use thread_pool_pro.Regression.{Str}
use thread_pool_pro.Regression.Version.{is_digit, starts_digit, read_digits, to_string}

-- `==` on strings.
abbrev pub str_eq : Str → Str → Bool
str_eq [] [] = true
str_eq [] (d ∷ t) = false
str_eq (c ∷ s) [] = false
str_eq (c ∷ s) (d ∷ t) = (c == d) && str_eq s t

-- `BenchmarkResult`, where `D` is `double`.
pub record BenchmarkResult (D : Type 0) : Type 0 where
  pub suite : Str
  pub operation : Str
  pub total_ns : ℕ
  pub iterations : ℕ
  pub ns_per_op : D

-- `std::find`
abbrev pub has_name : Str → List Str → Bool
has_name s [] = false
has_name s (t ∷ rest) = str_eq t s || has_name s rest

-- How `applyMethodFilter` ends: with both sides filtered, or with the side that it names as missing.
pub data Filtered (D : Type 0) : Type 0 where
  both : List (BenchmarkResult D) → List (BenchmarkResult D) → Filtered D
  baseline_missing : Filtered D
  current_missing : Filtered D

module _ {D : Type 0} where
  -- `getCns`, where `zero_double` is 0.0.
  unfoldable pub get_cns : D → List (BenchmarkResult D) → Str → ℕ → D
  get_cns zero_double [] op iter = zero_double
  get_cns zero_double (r ∷ rest) op iter =
      if str_eq r.operation op && (r.iterations == iter)
      then r.ns_per_op
      else get_cns zero_double rest op iter

  -- The loop of `uniqueOperations`, after the operations `seen`.
  unfoldable pub unique_from : List Str → List (BenchmarkResult D) → List Str
  unique_from seen [] = seen
  unique_from seen (r ∷ rest) =
      if has_name r.operation seen
      then unique_from seen rest
      else unique_from (seen ++ r.operation ∷ []) rest

  unfoldable pub unique_operations : List (BenchmarkResult D) → List Str
  unique_operations results = unique_from [] results

  -- `filterByOperation`
  unfoldable pub filter_by_operation : List (BenchmarkResult D) → Str → List (BenchmarkResult D)
  filter_by_operation [] op = []
  filter_by_operation (r ∷ rest) op =
      if str_eq r.operation op then r ∷ filter_by_operation rest op else filter_by_operation rest op

  -- `empty()`
  abbrev pub is_empty : List (BenchmarkResult D) → Bool
  is_empty [] = true
  is_empty (r ∷ rest) = false

  unfoldable pub apply_method_filter :
      List (BenchmarkResult D) → List (BenchmarkResult D) → Str → Filtered D
  apply_method_filter baseline current method =
      if is_empty (filter_by_operation baseline method)
      then baseline_missing
      else (if is_empty (filter_by_operation current method)
          then current_missing
          else both (filter_by_operation baseline method) (filter_by_operation current method))

-- `std::toupper`, `std::isalpha`
abbrev pub to_upper : ℕ → ℕ
to_upper c = if leb b'a' c && leb c b'z' then c - 32 else c

abbrev pub is_alpha : ℕ → Bool
is_alpha c = (leb b'a' c && leb c b'z') || (leb b'A' c && leb c b'Z')

-- The comparison of `groupMethodsByLetter`.
unfoldable pub comes_before : Str → Str → Bool
comes_before s [] = false
comes_before [] (d ∷ t) = true
comes_before (c ∷ s) (d ∷ t) =
    if ltb (to_upper c) (to_upper d)
    then true
    else (if ltb (to_upper d) (to_upper c) then false else comes_before s t)

-- The letter of an operation.
unfoldable pub letter_of : Str → ℕ
letter_of [] = b'?'
letter_of (c ∷ s) = to_upper c

-- A letter with its operations.
pub record Group : Type 0 where
  pub letter : ℕ
  pub members : List Str

-- One round of the loop.
unfoldable pub add_to_groups : List Group → Str → List Group
add_to_groups [] op = record { letter = letter_of op; members = op ∷ [] } ∷ []
add_to_groups (g ∷ []) op =
    if g.letter == letter_of op
    then record { letter = g.letter; members = g.members ++ op ∷ [] } ∷ []
    else g ∷ record { letter = letter_of op; members = op ∷ [] } ∷ []
add_to_groups (g ∷ h ∷ gs) op = g ∷ add_to_groups (h ∷ gs) op

unfoldable pub group_loop : List Group → List Str → List Group
group_loop gs [] = gs
group_loop gs (op ∷ ops) = group_loop (add_to_groups gs op) ops

-- `groupMethodsByLetter`, where `sort` is `std::sort` with the comparison.
unfoldable pub group_methods_by_letter : (List Str → List Str) → List Str → List Group
group_methods_by_letter sort ops = group_loop [] (sort ops)

abbrev pub all_digits : Str → Bool
all_digits [] = true
all_digits (c ∷ s) = is_digit c && all_digits s

-- `looksLikeMethodId`
unfoldable pub looks_like_method_id : Str → Bool
looks_like_method_id [] = false
looks_like_method_id (c ∷ []) = false
looks_like_method_id (c ∷ d ∷ s) = is_alpha c && all_digits (d ∷ s)

-- The id that `printMethods` prints for the member `j` of a group.
unfoldable pub method_id : ℕ → ℕ → Str
method_id letter j = letter ∷ to_string (j + 1)

-- How `resolveMethodId` ends; the others throw.
pub data Resolved : Type 0 where
  method : Str → Resolved
  out_of_range : ℕ → Resolved  -- the group has as many members
  unknown_id : Resolved
  too_large : Resolved  -- for `std::stoul`

-- `members[index - 1]`, behind its guard.
unfoldable pub pick : ℕ → List Str → Resolved
pick zero members = out_of_range (length members)
pick (suc i) members = elim (get_elem? members i) [
  | none ↦ out_of_range (length members)
  | some m ↦ method m
]

unfoldable pub find_member : ℕ → ℕ → List Group → Resolved
find_member letter index [] = unknown_id
find_member letter index (g ∷ gs) =
    if g.letter == letter then pick index g.members else find_member letter index gs

-- `resolveMethodId`, on an id that looks like one, where `groups` are those of the baseline.
unfoldable pub resolve_method_id : List Group → Str → Resolved
resolve_method_id groups [] = unknown_id
resolve_method_id groups (c ∷ s) =
    let (index, rest) = read_digits 0 s in
    if ltb index (2 ^ 64) then find_member (to_upper c) index groups else too_large
