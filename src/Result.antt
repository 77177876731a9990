-- ===== src/Result.antt =====
-- How a call of the sources ends: with a value, or by leaving defined behaviour.
pub data Fault : Type 0 where
  -- a failed `assert`, of the code or of RapidJSON
  assertion : Fault
  -- `->` on an empty `shared_ptr`, or `null` taken as an `int` in Java
  null_pointer : Fault
  -- `boost::bad_lexical_cast`, `NumberFormatException` or `ClassCastException`
  bad_cast : Fault
  -- `std::out_of_range` of `substr`, or `IndexOutOfBoundsException`
  out_of_range : Fault

pub data Result {ℓ} (A : Type ℓ) : Type ℓ where
  ok : A → Result A
  err : Fault → Result A

infixl 5 ◌>>=◌
abbrev pub ◌>>=◌ {ℓ κ} : {A : Type ℓ} {B : Type κ} → Result A → (A → Result B) → Result B
ok a >>= f = f a
err e >>= f = err e
