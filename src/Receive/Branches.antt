-- ===== src/Receive/Branches.antt =====
-- The branches of a handler, for what holds of the state on each of them.
use transferly.Prelude.{
  ◌≡◌, refl, Bool, true, false, Option, none, some, Bytes, arith, Result, ok, fail,
}
use transferly.Protocol.{IncomingOffer, Attempt}
use transferly.Protocol.Exec.{continue, stop_if}
use transferly.Protocol.Errors.{SessionError}
use transferly.Receive.Handlers.{Handler, admitted, or_raise}

pub continue_cases :
    {A B : Type 0} (P : Attempt → Type 0) (r : Result SessionError A × Attempt)
    (next : A → Handler B)
    → P r.1
    → ((x : A) → r.0 ≡ ok x → P (next x r.1).1)
    → P (continue r next).1
continue_cases P (ok x, a) next p f = f x refl
continue_cases P (fail e, a) next p f = p

pub stop_if_cases :
    {B : Type 0} (P : Attempt → Type 0) (b : Bool) (e : SessionError) (a : Attempt)
    (next : Unit {0} → Handler B)
    → P a
    → (b ≡ false → P (next tt a).1)
    → P (continue (stop_if b e a) next).1
stop_if_cases P true e a next p f = p
stop_if_cases P false e a next p f = f refl

pub or_raise_cases :
    {A B : Type 0} (P : Attempt → Type 0) (e : SessionError) (o : Option A) (a : Attempt)
    (next : A → Handler B)
    → P a
    → ((x : A) → o ≡ some x → P (next x a).1)
    → P (continue (or_raise e o a) next).1
unfolding or_raise
or_raise_cases P e none a next p f = p
or_raise_cases P e (some x) a next p f = f x refl

pub admitted-some :
    (e : SessionError) (id : Bytes) (i : Option IncomingOffer) (o : IncomingOffer)
    → admitted e id i ≡ ok o
    → i ≡ some o
unfolding admitted
admitted-some e id none o h = cc
admitted-some e id (some p) o h = ground arith
