-- ===== src/Common/Run.antt =====
-- How a run of C code ends: with a value, in a fault (an access that the language leaves undefined,
-- or a failed `assert`), or with the model's fuel used up; and the rules for runs that end well.
use libckit.Common.{◌≡◌, refl, Bool, true, false, Option, none, some, if◌then◌else◌}

pub data Run {ℓ} (A : Type ℓ) : Type ℓ where
  ok : A → Run A
  fault out_of_fuel : Run A

infixl 5 ◌>>=◌
abbrev pub ◌>>=◌ {ℓ m} : {A : Type ℓ} {B : Type m} → Run A → (A → Run B) → Run B
out_of_fuel >>= next = out_of_fuel
fault >>= next = fault
ok result >>= next = next result

-- A read through a pointer or an index that may lie outside of its object.
abbrev pub or_fault {ℓ} : {A : Type ℓ} → Option A → Run A
or_fault (some a) = ok a
or_fault none = fault

-- `assert`
abbrev pub assert : Bool → Run (Unit {0})
assert true = ok tt
assert false = fault

infixl 5 ◌>>◌
abbrev pub ◌>>◌ {ℓ} : {B : Type ℓ} → Run (Unit {0}) → Run B → Run B
m >> k = m >>= λ _. k

-- The run ends well, with a value that satisfies `P`.
pub data Returns {ℓ m} {A : Type ℓ} (Good : A → Type m) : Run A → Type (ℓ ⊔ m) where
  returns : {result : A} → Good result → Returns Good (ok result)

module _ {ℓ m} {A : Type ℓ} {Good : A → Type m} where
  pub Returns-inv : {run : Run A} → Returns Good run → (x : A) × (run ≡ ok x) × Good x
  Returns-inv (returns good) = (_, refl, good)

  pub Returns-map {n} :
      {Better : A → Type n} {run : Run A}
      → Returns Good run
      → ((x : A) → Good x → Better x)
      → Returns Better run
  Returns-map (returns good) improve = returns (improve _ good)

  -- what holds of a value that a run is known to end with
  pub Returns-ok : {a : A} {r : Run A} → r ≡ ok a → Returns Good r → Good a
  Returns-ok e (returns p) = go e p
    where
      go : {x y : A} → ok x ≡ ok y → Good x → Good y
      go d q = rw (inj d) at q
        where
          inj : {x y : A} → ok x ≡ ok y → x ≡ y
          inj c = cc

  pub Returns-bind {k n} :
      {B : Type k} {Best : B → Type n} {run : Run A} {next : A → Run B}
      → Returns Good run
      → ((x : A) → Good x → Returns Best (next x))
      → Returns Best (run >>= next)
  Returns-bind (returns good) go = go _ good

  pub Returns-if :
      (test : Bool) {yes no : Run A}
      → (test ≡ true → Returns Good yes)
      → (test ≡ false → Returns Good no)
      → Returns Good (if test then yes else no)
  Returns-if false then_so otherwise = otherwise refl
  Returns-if true then_so otherwise = then_so refl
