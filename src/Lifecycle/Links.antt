-- ===== src/Lifecycle/Links.antt =====
-- The links of a host, one of which changes.
use transferly.Prelude.{
  ℕ, ◌≡◌, ◌≢◌, refl, ap, sym, ◌∙◌, true, false, not, ◌&&◌, inl, inr, Option, none, some, arith,
  ◌==◌, if◌then◌else◌, Bool-cases,
}
use transferly.Lifecycle.{
  serving, departing, ended, Link, Host, has_address, is_current, change, update, phase_of,
  drop_current, rest_of,
}

-- A change of a link that is not served after it unless it was before.
pub served_before :
    (c d : ℕ) (f : Link → Link) (links : ℕ → Option Link)
    → ((l : Link) → (f l).phase ≡ serving → l.phase ≡ serving)
    → phase_of (update c f links d) ≡ some serving
    → phase_of (links d) ≡ some serving
unfolding update change phase_of
served_before c d f links keeps e = elim (Bool-cases (d == c)) [
  | inl this ↦ go (links d) (ground (arith, e))
  | inr that ↦ ground (arith)
]
  where
    go : (o : Option Link) → phase_of (change f o) ≡ some serving → phase_of o ≡ some serving
    go none e = cc
    go (some l) e = let p : (f l).phase ≡ serving = cc (e) in ap (λ x. some x) (keeps l p)

pub not_served :
    (c : ℕ) (f : Link → Link) (o : Option Link)
    → ((l : Link) → (f l).phase ≢ serving)
    → phase_of (change f o) ≢ some serving
unfolding change phase_of
not_served c f none other e = cc
not_served c f (some l) other e = other l (cc (e))

pub drop_current-links :
    (c : ℕ) (h : Host)
    → ((drop_current c h).links ≡ h.links)
      × ((drop_current c h).closed ≡ h.closed)
      × ((drop_current c h).current ≡ (if is_current c h then none else h.current))
unfolding drop_current
drop_current-links c h = elim (Bool-cases (is_current c h)) [
  | inl this ↦ rw this (refl, refl, refl)
  | inr that ↦ rw that (refl, refl, refl)
]

pub update-same :
    (c d : ℕ) (f : Link → Link) (links : ℕ → Option Link)
    → (d == c) ≡ true
    → update c f links d ≡ change f (links d)
unfolding update
update-same c d f links h = rw h refl

pub update-other :
    (c d : ℕ) (f : Link → Link) (links : ℕ → Option Link)
    → (d == c) ≡ false
    → update c f links d ≡ links d
unfolding update
update-other c d f links h = rw h refl

pub has_address-other :
    (c d : ℕ) (o : Option ℕ)
    → (d == c) ≡ false
    → has_address d o ≡ true
    → has_address d (if has_address c o then none else o) ≡ true
unfolding has_address
has_address-other c d none that mine = cc
has_address-other c d (some x) that mine = ground arith

pub rest_of-served : (c : ℕ) (h : Host) → rest_of c h ≢ serving
unfolding rest_of
rest_of-served c h e = elim (Bool-cases (is_current c h && not h.closed)) [
  | inl y ↦
      (let x : departing ≡ serving = ap (λ b. if b then departing else ended) (sym y) ∙ e in cc (x))
  | inr n ↦
      (let x : ended ≡ serving = ap (λ b. if b then departing else ended) (sym n) ∙ e in cc (x))
]
