-- ===== src/Common/Outcome.antt =====
-- What a function that can fail or panic gives. `panicked` is an `expect` of an error, an overflow or
-- a failed assertion.
use mathlib.Core.Path.{◌≡◌, refl}
use verusid_cmm_encrypt.Common.Tests.{if◌then◌else◌}
use mathlib.Core.Bool.{Bool, true, false}
use mathlib.Core.Option.{Option, none, some}

pub data Outcome (E A : Type 0) : Type 0 where
  ok : A → Outcome E A
  err : E → Outcome E A
  panicked : Outcome E A

module _ {E : Type 0} {A : Type 0} where
  -- `option.ok_or(e)`
  abbrev pub ok_or : Option A → E → Outcome E A
  ok_or none e = err e
  ok_or (some a) e = ok a

  -- `option.expect(…)`
  abbrev pub expect_some : Option A → Outcome E A
  expect_some none = panicked
  expect_some (some a) = ok a

  -- The conversion that `?` applies to an error.
  abbrev pub map_err : {F : Type 0} → (E → F) → Outcome E A → Outcome F A
  map_err from (ok a) = ok a
  map_err from (err e) = err (from e)
  map_err from panicked = panicked

  infixl 5 ◌>>=◌
  abbrev pub ◌>>=◌ : {B : Type 0} → Outcome E A → (A → Outcome E B) → Outcome E B
  (ok a) >>= f = f a
  (err e) >>= f = err e
  panicked >>= f = panicked

-- Inversion of a chain that returned.
pub >>=-eq-ok :
    {E : Type 0} {A : Type 0} {B : Type 0} (m : Outcome E A) (f : A → Outcome E B) (b : B)
    → (m >>= f) ≡ ok b
    → (a : A) × (m ≡ ok a) × (f a ≡ ok b)
>>=-eq-ok (ok a) f b e = (a, refl, e)
>>=-eq-ok (err x) f b e = cc
>>=-eq-ok panicked f b e = cc

pub ok_or-eq-ok :
    {E : Type 0} {A : Type 0} (o : Option A) (e : E) (a : A) → ok_or o e ≡ ok a → o ≡ some a
ok_or-eq-ok none e a h = cc
ok_or-eq-ok (some x) e a h = cc

-- The outcome is not a panic.
abbrev pub IsCalm : {E : Type 0} {A : Type 0} → Outcome E A → Type 0
IsCalm (ok a) = Unit {0}
IsCalm (err e) = Unit {0}
IsCalm panicked = ⊥

pub bind-IsCalm :
    {E : Type 0} {A : Type 0} {B : Type 0} (m : Outcome E A) (f : A → Outcome E B)
    → IsCalm m
    → ((a : A) → IsCalm (f a))
    → IsCalm (m >>= f)
bind-IsCalm (ok a) f h k = k a
bind-IsCalm (err e) f h k = tt
bind-IsCalm panicked f h k = elim h [ ]

pub ok_or-IsCalm : {E : Type 0} {A : Type 0} (o : Option A) (e : E) → IsCalm (ok_or o e)
ok_or-IsCalm none e = tt
ok_or-IsCalm (some a) e = tt

pub if-IsCalm :
    {E : Type 0} {A : Type 0} (b : Bool) (m n : Outcome E A)
    → IsCalm m
    → IsCalm n
    → IsCalm (if b then m else n)
if-IsCalm true m n h k = h
if-IsCalm false m n h k = k
