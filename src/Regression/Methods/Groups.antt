-- ===== src/Regression/Methods/Groups.antt =====
-- `groupMethodsByLetter`: the groups of a sorted list of operations.
use thread_pool_pro.Base.{
  ℕ, zero, suc, ◌≤◌, ◌<◌, ◌≡◌, ◌∙◌, refl, ap, sym, subst, false, some, List, [], ◌∷◌, ◌++◌, arith,
  append_assoc, append-nil, get_elem?, ℕ_discrete, dec_lt, ◌≢◌,
}
use thread_pool_pro.Regression.{Str}
use thread_pool_pro.Regression.Methods.{
  to_upper, comes_before, letter_of, Group, add_to_groups, group_loop, group_methods_by_letter,
  find_member, pick,
}

-- The operations of all groups.
abbrev pub all_members : List Group → List Str
all_members [] = []
all_members (g ∷ gs) = g.members ++ all_members gs

all_members-add :
    (gs : List Group) (op : Str) → all_members (add_to_groups gs op) ≡ all_members gs ++ op ∷ []
unfolding add_to_groups
all_members-add [] op = refl
all_members-add (g ∷ []) op = elim (ℕ_discrete g.letter (letter_of op)) [
  | yes e ↦ ground (arith, e, append-nil g.members, append-nil (g.members ++ op ∷ []))
  | no e ↦ ground (arith, e, append-nil g.members)
]
all_members-add (g ∷ h ∷ gs) op =
    ap (λ r. g.members ++ r) (all_members-add (h ∷ gs) op)
    ∙ sym (append_assoc g.members (all_members (h ∷ gs)) (op ∷ []))

all_members-loop :
    (gs : List Group) (ops : List Str) → all_members (group_loop gs ops) ≡ all_members gs ++ ops
unfolding group_loop
all_members-loop gs [] = sym (append-nil (all_members gs))
all_members-loop gs (op ∷ ops) =
    all_members-loop (add_to_groups gs op) ops
    ∙ ap (λ r. r ++ ops) (all_members-add gs op)
    ∙ append_assoc (all_members gs) (op ∷ []) ops

-- The groups hold the sorted operations, each of them and in their order.
pub group_methods_by_letter-members :
    (sort : List Str → List Str) (ops : List Str)
    → all_members (group_methods_by_letter sort ops) ≡ sort ops
unfolding group_methods_by_letter
group_methods_by_letter-members sort ops = all_members-loop [] (sort ops)

-- The letters grow.
abbrev pub Growing : List Group → Type 0
Growing [] = Unit {0}
Growing (g ∷ []) = Unit {0}
Growing (g ∷ h ∷ gs) = (g.letter < h.letter) × Growing (h ∷ gs)

abbrev pub UpTo : ℕ → List Group → Type 0
UpTo l [] = Unit {0}
UpTo l (g ∷ gs) = (g.letter ≤ l) × UpTo l gs

abbrev extended : Group → Str → Group
extended g op = record { letter = g.letter; members = g.members ++ op ∷ [] }

abbrev begun : Str → Group
begun op = record { letter = letter_of op; members = op ∷ [] }

add-same :
    (g : Group) (op : Str)
    → g.letter ≡ letter_of op
    → add_to_groups (g ∷ []) op ≡ extended g op ∷ []
unfolding add_to_groups
add-same g op e = ground (arith, e)

add-new :
    (g : Group) (op : Str) → g.letter ≢ letter_of op → add_to_groups (g ∷ []) op ≡ g ∷ begun op ∷ []
unfolding add_to_groups
add-new g op e = ground (arith, e)

-- The first group keeps its letter.
add-head :
    (g : Group) (gs : List Group) (op : Str)
    → (h : Group) × (hs : List Group) × (add_to_groups (g ∷ gs) op ≡ h ∷ hs) × (h.letter ≡ g.letter)
add-head g [] op = elim (ℕ_discrete g.letter (letter_of op)) [
  | yes e ↦ (extended g op, [], add-same g op e, refl)
  | no e ↦ (g, begun op ∷ [], add-new g op e, refl)
]
add-head g (h ∷ gs) op = unfold add_to_groups in (g, add_to_groups (h ∷ gs) op, refl, refl)

Growing-cons :
    (g h : Group) (xs hs : List Group)
    → xs ≡ h ∷ hs
    → g.letter < h.letter
    → Growing xs
    → Growing (g ∷ xs)
Growing-cons g h xs hs e k l = subst (λ r. Growing (g ∷ r)) (sym e) (k, subst Growing e l)

Ordered : ℕ → List Group → Type 0
Ordered l gs = Growing gs × UpTo l gs

add-Ordered :
    (gs : List Group) (op : Str)
    → Ordered (letter_of op) gs
    → Ordered (letter_of op) (add_to_groups gs op)
unfolding Ordered add_to_groups
add-Ordered [] op o = (tt, (omega arith, tt))
add-Ordered (g ∷ []) op (k, (u, v)) = elim (ℕ_discrete g.letter (letter_of op)) [
  | yes e ↦ subst (λ r. Growing r × UpTo (letter_of op) r) (sym (add-same g op e)) (tt, (u, tt))
  | no e ↦
      subst (λ r. Growing r × UpTo (letter_of op) r) (sym (add-new g op e))
        ((omega (arith, e), tt), (u, (omega arith, tt)))
]
add-Ordered (g ∷ h ∷ gs) op (k, (u, v)) =
    let ih = add-Ordered (h ∷ gs) op (k.1, v) in
    let (h', hs, e, same) = add-head h gs op in
    (Growing-cons g h' (add_to_groups (h ∷ gs) op) hs e (omega (arith, same, k.0)) ih.0, (u, ih.1))

UpTo-le : (l m : ℕ) (gs : List Group) → l ≤ m → UpTo l gs → UpTo m gs
UpTo-le l m [] h u = tt
UpTo-le l m (g ∷ gs) h (u, v) = (omega arith, UpTo-le l m gs h v)

-- A sorted list of operations that all have a name.
abbrev pub Named : List Str → Type 0
Named [] = Unit {0}
Named ([] ∷ ops) = ⊥
Named ((c ∷ s) ∷ ops) = Named ops

-- Sorted as `std::sort` leaves it: no operation comes before the one that precedes it.
abbrev pub IsSorted : List Str → Type 0
IsSorted [] = Unit {0}
IsSorted (a ∷ []) = Unit {0}
IsSorted (a ∷ b ∷ ops) = (comes_before b a ≡ false) × IsSorted (b ∷ ops)

letters-le :
    (c d : ℕ) (s t : Str)
    → comes_before (d ∷ t) (c ∷ s) ≡ false
    → letter_of (c ∷ s) ≤ letter_of (d ∷ t)
unfolding comes_before letter_of
letters-le c d s t e = elim (dec_lt (to_upper d) (to_upper c)) [
  | yes p ↦ absurd (ground arith)
  | no p ↦ omega arith
]

loop-Growing :
    (gs : List Group) (op : Str) (ops : List Str)
    → Named (op ∷ ops)
    → IsSorted (op ∷ ops)
    → Ordered (letter_of op) gs
    → Growing (group_loop gs (op ∷ ops))
unfolding group_loop
loop-Growing gs op [] n s o = unfold Ordered in (add-Ordered gs op o).0
loop-Growing gs [] (d ∷ ops) n s o = absurd n
loop-Growing gs (c ∷ a) ([] ∷ ops) n s o = absurd n
loop-Growing gs (c ∷ a) ((d ∷ b) ∷ ops) n s o =
    loop-Growing (add_to_groups gs (c ∷ a)) (d ∷ b) ops n s.1 (
      unfold Ordered in
      let r = add-Ordered gs (c ∷ a) o in
      (r.0, UpTo-le (letter_of (c ∷ a)) (letter_of (d ∷ b)) _ (letters-le c d a b s.0) r.1))

pub sorted-Growing : (ops : List Str) → Named ops → IsSorted ops → Growing (group_loop [] ops)
sorted-Growing [] n s = unfold group_loop in tt
sorted-Growing (op ∷ ops) n s = loop-Growing [] op ops n s (unfold Ordered in (tt, tt))

-- The letters behind the first group are larger.
Growing-larger :
    (g : Group) (gs : List Group) (i : ℕ) (h : Group)
    → Growing (g ∷ gs)
    → get_elem? gs i ≡ some h
    → g.letter < h.letter
Growing-larger g [] i h k e = absurd (ground arith)
Growing-larger g (f ∷ gs) zero h k e = ground (arith, k.0)
Growing-larger g (f ∷ gs) (suc i) h k e = omega (arith, k.0, Growing-larger f gs i h k.1 e)

Growing-tail : (g : Group) (gs : List Group) → Growing (g ∷ gs) → Growing gs
Growing-tail g [] k = tt
Growing-tail g (h ∷ gs) k = k.1

-- A search by its letter finds each group.
pub find_member-group :
    (gs : List Group) (i index : ℕ) (h : Group)
    → Growing gs
    → get_elem? gs i ≡ some h
    → find_member h.letter index gs ≡ pick index h.members
unfolding find_member
find_member-group [] i index h k e = absurd (ground arith)
find_member-group (g ∷ gs) zero index h k e = ground arith
find_member-group (g ∷ gs) (suc i) index h k e =
    let larger = Growing-larger g gs i h k e in
    let rest = find_member-group gs i index h (Growing-tail g gs k) e in
    ground (arith, larger, rest)

-- A letter is its own upper case.
abbrev pub AllUpper : List Group → Type 0
AllUpper [] = Unit {0}
AllUpper (g ∷ gs) = (to_upper g.letter ≡ g.letter) × AllUpper gs

letter_of-upper : (op : Str) → to_upper (letter_of op) ≡ letter_of op
unfolding letter_of
letter_of-upper [] = refl
letter_of-upper (c ∷ s) = ground arith

add-AllUpper : (gs : List Group) (op : Str) → AllUpper gs → AllUpper (add_to_groups gs op)
unfolding add_to_groups
add-AllUpper [] op u = (letter_of-upper op, tt)
add-AllUpper (g ∷ []) op u = elim (ℕ_discrete g.letter (letter_of op)) [
  | yes e ↦ subst AllUpper (sym (add-same g op e)) u
  | no e ↦ subst AllUpper (sym (add-new g op e)) (u.0, (letter_of-upper op, tt))
]
add-AllUpper (g ∷ h ∷ gs) op (u, v) = (u, add-AllUpper (h ∷ gs) op v)

pub loop-AllUpper : (gs : List Group) (ops : List Str) → AllUpper gs → AllUpper (group_loop gs ops)
unfolding group_loop
loop-AllUpper gs [] u = u
loop-AllUpper gs (op ∷ ops) u = loop-AllUpper (add_to_groups gs op) ops (add-AllUpper gs op u)

pub AllUpper-at :
    (gs : List Group) (i : ℕ) (g : Group)
    → AllUpper gs
    → get_elem? gs i ≡ some g
    → to_upper g.letter ≡ g.letter
AllUpper-at [] i g u e = absurd (ground arith)
AllUpper-at (h ∷ gs) zero g u e = ground (arith, u.0)
AllUpper-at (h ∷ gs) (suc i) g u e = AllUpper-at gs i g u.1 e
