-- ===== src/Future/Handles.antt =====
-- The operations of `Future` on handles that may share states: moves, destruction, `valid`, `get`.
use thread_pool_pro.Base.{
  ℕ, ◌+◌, ◌-◌, ◌<◌, ◌≡◌, ◌≢◌, ap, sym, subst, Bool, true, false, Option, none, some, arith, update,
  sum_below, sum_below-update, if◌then◌else◌, ◌==◌, ℕ_discrete, Option-cases, inl, inr,
}
use thread_pool_pro.Future.{Outcome, returns, throws, ResultState, release_impl}

-- The states by address, and the `state_` of each handle; `none` is the null pointer.
pub record World : Type 0 where
  pub states : ℕ → ResultState
  pub handle : ℕ → Option ℕ

-- `ResultState::release`
abbrev pub release : ResultState → ResultState
release s =
    if s.ref_count == 1
    then record s { ref_count = s.ref_count - 1; deletes = s.deletes + 1 }
    else release_impl s

-- `state->release()` at address `a`.
abbrev release_at : World → ℕ → World
release_at w a = record w { states = update w.states a (release (w.states a)) }

-- `Future::releaseOwnedState`, which is also `Future::~Future`.
pub release_owned_state : World → ℕ → World
release_owned_state w i = elim (w.handle i) [
  | none ↦ w
  | some a ↦ record (release_at w a) { handle = update w.handle i none }
]

-- `state_ = other.state_; other.state_ = nullptr;`
take_over : World → ℕ → ℕ → World
take_over w i j = record w { handle = update (update w.handle i (w.handle j)) j none }

-- `Future::Future(Future&&)`, on a handle that holds nothing yet.
pub move_construct : World → ℕ → ℕ → World
unfolding take_over
move_construct w i j = take_over w i j

-- `Future::operator=(Future&&)`
pub move_assign : World → ℕ → ℕ → World
unfolding take_over release_owned_state
move_assign w i j = if i == j then w else take_over (release_owned_state w i) i j

-- `Future::valid`
pub valid : World → ℕ → Bool
valid w i = elim (w.handle i) [ none ↦ false | some a ↦ true ]

-- How a call of `get` ends.
pub data Got : Type 0 where
  logic_error : Got  -- thrown on an empty future
  blocked : Got  -- the flag is down: the call waits
  brought : Outcome → World → Got
  no_value : Got  -- the flag is up and both slots are empty: undefined

-- `ResultState::get`, once the flag is up, and the release by `Releaser`.
unfoldable pub finish : ResultState → World → Got
finish s w = elim s.exception [
  | some e ↦ brought (throws e) w
  | none ↦ elim s.value [ some v ↦ brought (returns v) w | none ↦ no_value ]
]

-- `Future::get`
unfoldable pub get : World → ℕ → Got
unfolding finish
get w i = elim (w.handle i) [
  | none ↦ logic_error
  | some a ↦
      if (w.states a).ready == 0
      then blocked
      else finish (w.states a) (record (release_at w a) { handle = update w.handle i none })
]

-- `get` consumes the future: afterwards it is not valid, and a second call throws.
pub get_twice :
    (w w' : World) (i : ℕ) (o : Outcome)
    → get w i ≡ brought o w'
    → (valid w' i ≡ false) × (get w' i ≡ logic_error)
unfolding get finish valid
get_twice w w' i o e = ground arith

abbrev pub points : ℕ → Option ℕ → ℕ
points a none = 0
points a (some b) = if b == a then 1 else 0

-- State `a` counts the handles that hold it, of the first `n`, and `others` more owners.
abbrev pub IsCounted : ℕ → ℕ → ℕ → World → Type 0
IsCounted n others a w = sum_below (points a) n w.handle + others ≡ (w.states a).ref_count

move_assign_self : (w : World) (i j : ℕ) → i ≡ j → move_assign w i j ≡ w
unfolding move_assign
move_assign_self w i j e = ground arith

move_assign_other :
    (w : World) (i j : ℕ) → i ≢ j → move_assign w i j ≡ take_over (release_owned_state w i) i j
unfolding move_assign
move_assign_other w i j d = unfold take_over release_owned_state in ground arith

-- A `get` that returns leaves the handle as its destruction would.
get_releases :
    (w w' : World) (i : ℕ) (o : Outcome) → get w i ≡ brought o w' → w' ≡ release_owned_state w i
unfolding get finish release_owned_state
get_releases w w' i o e = ground arith

module _ (n others a : ℕ) where
  release_owned_state-IsCounted :
      (w : World) (i : ℕ)
      → i < n
      → IsCounted n others a w
      → IsCounted n others a (release_owned_state w i)
  unfolding release_owned_state
  release_owned_state-IsCounted w i below h = elim (Option-cases (w.handle i)) [
    | inl e ↦ ground (arith, e)
    | inr (b, e) ↦
        ground (arith, e, sum_below-update (points a) n w.handle i none below, ap (points a) e)
  ]

  take_over-IsCounted :
      (w : World) (i j : ℕ)
      → i < n
      → j < n
      → i ≢ j
      → w.handle i ≡ none
      → IsCounted n others a w
      → IsCounted n others a (take_over w i j)
  unfolding take_over
  take_over-IsCounted w i j li lj d e h =
      let kept : update w.handle i (w.handle j) j ≡ w.handle j = ground arith in
      omega (
        arith,
        sum_below-update (points a) n w.handle i (w.handle j) li,
        sum_below-update (points a) n (update w.handle i (w.handle j)) j none lj,
        ap (points a) e,
        ap (points a) kept,
      )

  release_owned_state-none : (w : World) (i : ℕ) → (release_owned_state w i).handle i ≡ none
  unfolding release_owned_state
  release_owned_state-none w i = ground arith

  move_assign-IsCounted :
      (w : World) (i j : ℕ)
      → i < n
      → j < n
      → IsCounted n others a w
      → IsCounted n others a (move_assign w i j)
  move_assign-IsCounted w i j li lj h = elim (ℕ_discrete i j) [
    | yes e ↦ subst (IsCounted n others a) (sym (move_assign_self w i j e)) h
    | no d ↦ subst (IsCounted n others a) (sym (move_assign_other w i j d)) (
        take_over-IsCounted (release_owned_state w i) i j li lj d (release_owned_state-none w i)
          (release_owned_state-IsCounted w i li h))
  ]

  -- For two handles among the first `n`, and a state whose count of owners is the number of handles
  -- that hold it and `others` more: a move construction of an empty handle, a move assignment, to
  -- itself included, a destruction and a `get` that returns keep the count right.
  pub handles-IsCounted :
      (w : World) (i j : ℕ)
      → i < n
      → j < n
      → IsCounted n others a w
      → (i ≢ j → w.handle i ≡ none → IsCounted n others a (move_construct w i j))
        × IsCounted n others a (move_assign w i j)
        × IsCounted n others a (release_owned_state w i)
        × ((o : Outcome) (w' : World) → get w i ≡ brought o w' → IsCounted n others a w')
  handles-IsCounted w i j li lj h = (
    λ d e. unfold move_construct in take_over-IsCounted w i j li lj d e h,
    move_assign-IsCounted w i j li lj h,
    release_owned_state-IsCounted w i li h,
    λ o w' e.
        subst (IsCounted n others a) (sym (get_releases w w' i o e))
          (release_owned_state-IsCounted w i li h),
  )
