-- ===== src/Building/Paths.antt =====
-- Folded paths below one another, and the folders above a path.
use mathlib.Core.List.{reverse-append, reverse-reverse, reverse-cons}
use transferly.Prelude.{
  ◌+◌, ◌≡◌, refl, ap, sym, ◌∙◌, Bool, true, false, ◌||◌, [], ◌∷◌, ◌++◌, Bytes, arith, ◌==◌, length,
  length-append, append_assoc, append-nil, reverse,
}
use transferly.Safety.{contains}
use transferly.Intake.{parents, above}

-- A path ends or goes on with a slash.
unfoldable opens : Bytes → Bool
opens [] = true
opens (c ∷ s) = c == b'/'

-- The path `x` is `k` or lies below it.
pub record IsUnder (k x : Bytes) : Type 0 where
  rest : Bytes
  starts : opens rest ≡ true
  split : x ≡ k ++ rest

pub IsUnder-refl : (k : Bytes) → IsUnder k k
unfolding opens
IsUnder-refl k = record { rest = []; starts = refl; split = sym (append-nil k) }

abbrev pub IsName : Bytes → Type 0
IsName c = contains c b'/' ≡ false

pub IsUnder-parent : (k c x : Bytes) → IsUnder (k ++ b'/' ∷ c) x → IsUnder k x
unfolding opens
IsUnder-parent k c x u = record {
  rest = b'/' ∷ c ++ u.rest;
  starts = ground arith;
  split = u.split ∙ append_assoc k (b'/' ∷ c) u.rest;
}

cancel : (k s t : Bytes) → k ++ s ≡ k ++ t → s ≡ t
cancel [] s t e = e
cancel (c ∷ k) s t e = cancel k s t (cc (e))

same_front :
    (a b s t : Bytes)
    → IsName a
    → IsName b
    → opens s ≡ true
    → opens t ≡ true
    → a ++ s ≡ b ++ t
    → a ≡ b
unfolding opens
same_front [] [] s t p q h g e = refl
same_front [] (y ∷ b) s t p q h g e =
    let first : opens (y ∷ b ++ t) ≡ true = ap opens (sym e) ∙ h in ground arith
same_front (x ∷ a) [] s t p q h g e =
    let first : opens (x ∷ a ++ s) ≡ true = ap opens e ∙ g in ground arith
same_front (x ∷ a) (y ∷ b) s t p q h g e =
    let heads : x ≡ y = cc (e) in
    let tails : a ++ s ≡ b ++ t = cc (e) in
    let same_rest = same_front a b s t (ground (arith, p)) (ground (arith, q)) h g tails in
    cc (heads, same_rest)

-- No path lies below two children of one folder.
pub IsUnder-apart :
    (k a b x : Bytes)
    → IsName a
    → IsName b
    → IsUnder (k ++ b'/' ∷ a) x
    → IsUnder (k ++ b'/' ∷ b) x
    → a ≡ b
IsUnder-apart k a b x p q u v =
    let whole : k ++ (b'/' ∷ (a ++ u.rest)) ≡ k ++ (b'/' ∷ (b ++ v.rest)) =
      sym (append_assoc k (b'/' ∷ a) u.rest)
      ∙ sym u.split
      ∙ v.split
      ∙ append_assoc k (b'/' ∷ b) v.rest in
    let ends : b'/' ∷ (a ++ u.rest) ≡ b'/' ∷ (b ++ v.rest) = cancel k _ _ whole in
    same_front a b u.rest v.rest p q u.starts v.starts (cc (ends))

-- No path lies below two roots.
pub IsUnder-roots : (a b x : Bytes) → IsName a → IsName b → IsUnder a x → IsUnder b x → a ≡ b
IsUnder-roots a b x p q u v =
    same_front a b u.rest v.rest p q u.starts v.starts (sym u.split ∙ v.split)

-- A folder does not lie below its child.
pub IsUnder-above : (k c : Bytes) → IsUnder (k ++ b'/' ∷ c) k → ⊥
IsUnder-above k c u =
    let whole : k ≡ k ++ (b'/' ∷ (c ++ u.rest)) = u.split ∙ append_assoc k (b'/' ∷ c) u.rest in
    let size : length k ≡ length k + length (b'/' ∷ (c ++ u.rest)) =
      ap length whole ∙ length-append k (b'/' ∷ (c ++ u.rest)) in
    omega arith

above-append : (c s : Bytes) → IsName c → above (c ++ b'/' ∷ s) ≡ reverse s ∷ above s
unfolding above
above-append [] s h = ground arith
above-append (x ∷ c) s h = let further = above-append c s (ground arith) in ground (arith, further)

contains-append : (s t : Bytes) → contains (s ++ t) b'/' ≡ (contains s b'/' || contains t b'/')
contains-append [] t = refl
contains-append (x ∷ s) t = ground (arith, contains-append s t)

contains-reverse : (s : Bytes) → contains (reverse s) b'/' ≡ contains s b'/'
contains-reverse [] = refl
contains-reverse (x ∷ s) =
    rw (reverse-cons x s) (ground (arith, contains-append (reverse s) (x ∷ []), contains-reverse s))

-- The folders above a child are its folder and those above it.
pub parents-child :
    (path name : Bytes) → IsName name → parents (path ++ b'/' ∷ name) ≡ path ∷ parents path
unfolding parents
parents-child path name h =
    let back : reverse (path ++ b'/' ∷ name) ≡ reverse name ++ b'/' ∷ reverse path =
      reverse-append path (b'/' ∷ name)
      ∙ ap (λ x. x ++ reverse path) (reverse-cons b'/' name)
      ∙ append_assoc (reverse name) (b'/' ∷ []) (reverse path) in
    ap above back
    ∙ above-append (reverse name) (reverse path) (contains-reverse name ∙ h)
    ∙ ap (λ x. x ∷ above (reverse path)) (reverse-reverse path)

pub contains-child : (path name : Bytes) → contains (path ++ b'/' ∷ name) b'/' ≡ true
contains-child path name = ground (arith, contains-append path (b'/' ∷ name))

above-IsName : (s : Bytes) → IsName s → above s ≡ []
unfolding above
above-IsName [] h = refl
above-IsName (x ∷ s) h = ground (arith, above-IsName s)

-- A path of one component has no folder above it.
pub parents-IsName : (name : Bytes) → IsName name → parents name ≡ []
unfolding parents
parents-IsName name h = above-IsName (reverse name) (contains-reverse name ∙ h)
