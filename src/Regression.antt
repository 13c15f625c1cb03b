-- ===== src/Regression.antt =====
-- The comparison tool of the custom benchmarks, regression/custom. Strings are lists of bytes.
pub mod Text
pub mod Version
pub mod Methods
pub mod Table
pub mod Report
pub mod Cli
pub mod Usage
pub mod Listing
pub mod Summary
pub mod Export
pub mod Comparison
pub mod Main
use thread_pool_pro.Base.{ℕ, List, Option, none, some}

-- `std::string`
abbrev pub Str : Type 0
Str = List ℕ

-- The extractions from a stream go on while they succeed.
infixl 5 ◌>>=◌
abbrev pub ◌>>=◌ {ℓ κ} : {A : Type ℓ} {B : Type κ} → Option A → (A → Option B) → Option B
none >>= f = none
some a >>= f = f a
