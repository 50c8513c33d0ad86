-- ===== src/Names/Fresh.antt =====
-- The chosen names are new, distinct and below the destination.
use transferly.Prelude.{
  ℕ, zero, suc, ◌≡◌, ◌≢◌, refl, ap, sym, subst, ◌∙◌, Bool, true, false, ◌⊎◌, inl, inr, List, [],
  ◌∷◌, map, Option, none, some, Bytes, same, same_iff, same_refl, arith, if◌then◌else◌, length, any,
  All, Dict, lookup, insert, lookup-insert, Result, ok, fail, reject_if, >>=-eq-ok, Bool-cases,
}
use transferly.Text.FilePath.{FilePath, join_path}
use transferly.Safety.{
  BeneathError, validate_manifest_path, validate_windows_component, ensure_path_beneath, contains,
}
use transferly.Names.{
  separator, candidate, checked, below, find_name, resolve_final_name, resolve_roots,
  resolve_incoming_paths,
}
use transferly.Names.Paths.{HasPath, resolve_roots-HasPath}

unfoldable pub place : FilePath → Option Bytes → Option FilePath
place destination none = none
place destination (some c) = some (join_path destination c)

below-ok : (r : Result BeneathError (Unit {0})) → below r ≡ ok tt → r ≡ ok tt
unfolding below
below-ok (ok u) h = refl
below-ok (fail e) h = cc

module _ (key : Bytes → Bytes) (destination : FilePath) where
  -- The chosen name `names k` for every root `k`: nothing that stands in the destination has its folded name,
  -- its place is below the destination, and no other root has its folded name.
  pub record AreFresh (standing : List Bytes) (paths : Dict FilePath) : Type 0 where
    pub names : Dict Bytes
    pub placed : (k : Bytes) → lookup k paths ≡ place destination (lookup k names)
    pub free : (k c : Bytes) → lookup k names ≡ some c → any (same (key c)) standing ≡ false
    pub beneath :
        (k c : Bytes)
        → lookup k names ≡ some c
        → ensure_path_beneath destination (join_path destination c) ≡ ok tt
    pub apart :
        (k l c d : Bytes)
        → k ≢ l
        → lookup k names ≡ some c
        → lookup l names ≡ some d
        → key c ≢ key d

  find_name-fresh :
      (fuel suffix : ℕ) (name : Bytes) (reserved : List Bytes) (c : Bytes)
      → find_name key destination fuel suffix name reserved ≡ ok c
      → (any (same (key c)) reserved ≡ false)
        × (ensure_path_beneath destination (join_path destination c) ≡ ok tt)
  unfolding find_name
  find_name-fresh zero suffix name reserved c h = cc
  find_name-fresh (suc fuel) suffix name reserved c h =
      let (_, _, h₁) =
        >>=-eq-ok (checked (validate_windows_component (candidate name suffix))) _ h in
      let (_, inside, h₂) =
        >>=-eq-ok
          (below (ensure_path_beneath destination (join_path destination (candidate name suffix))))
          _ h₁ in
      elim (Bool-cases (any (same (key (candidate name suffix))) reserved)) [
        | inl taken ↦ find_name-fresh fuel (suc suffix) name reserved c (
            ap
              (λ b.
                if b
                then find_name key destination fuel (suc suffix) name reserved
                else ok (candidate name suffix))
              (sym taken)
            ∙ h₂)
        | inr free ↦
            let e : ok (candidate name suffix) ≡ ok c =
              ap
                (λ b.
                  if b
                  then find_name key destination fuel (suc suffix) name reserved
                  else ok (candidate name suffix))
                (sym free)
              ∙ h₂ in
            let this : candidate name suffix ≡ c = cc (e) in
            (
              ap (λ x. any (same (key x)) reserved) (sym this) ∙ free,
              ap (λ x. ensure_path_beneath destination (join_path destination x)) (sym this)
                  ∙ below-ok _ inside,
            )
      ]

  -- What is reserved so far, besides what is fresh.
  record IsTaken (standing reserved : List Bytes) (names : Dict Bytes) : Type 0 where
    before : (x : Bytes) → any (same x) standing ≡ true → any (same x) reserved ≡ true
    taken : (k c : Bytes) → lookup k names ≡ some c → any (same (key c)) reserved ≡ true

  resolve_final_name-fresh :
      (name : Bytes) (reserved : List Bytes) (c : Bytes)
      → resolve_final_name key destination name reserved ≡ ok c
      → (any (same (key c)) reserved ≡ false)
        × (ensure_path_beneath destination (join_path destination c) ≡ ok tt)
  unfolding resolve_final_name
  resolve_final_name-fresh name reserved c h =
      let (_, _, h₁) = >>=-eq-ok (checked (validate_manifest_path name)) _ h in
      let (_, _, h₂) = >>=-eq-ok (reject_if (contains name b'/') separator) _ h₁ in
      find_name-fresh (suc (length reserved)) 0 name reserved c h₂

  inserted :
      (root c k d : Bytes) (names : Dict Bytes)
      → lookup k (insert root c names) ≡ some d
      → ((root ≡ k) × (c ≡ d)) ⊎ (lookup k names ≡ some d)
  inserted root c k d names h = elim (Bool-cases (same root k)) [
    | inl this ↦
        let e : some c ≡ some d =
          ap (λ b. if b then some c else lookup k names) (sym this)
          ∙ sym (lookup-insert root k c names)
          ∙ h in
        inl (ground (arith, same_iff root k), cc (e))
    | inr other ↦ inr (
        ap (λ b. if b then some c else lookup k names) (sym other)
        ∙ sym (lookup-insert root k c names)
        ∙ h)
  ]

  insert-placed :
      (names : Dict Bytes) (paths : Dict FilePath) (root c k : Bytes)
      → lookup k paths ≡ place destination (lookup k names)
      → lookup k (insert root (join_path destination c) paths)
        ≡ place destination (lookup k (insert root c names))
  unfolding place
  insert-placed names paths root c k h = elim (Bool-cases (same root k)) [
    | inl this ↦
        rw
          (lookup-insert root k (join_path destination c) paths, lookup-insert root k c names, this)
          refl
    | inr other ↦
        rw
          (
            lookup-insert root k (join_path destination c) paths,
            lookup-insert root k c names,
            other,
          )
          h
  ]

  not_reserved : (b c : Bool) → (b ≡ true → c ≡ true) → c ≡ false → b ≡ false
  not_reserved b c f h = ground (arith, f)

  taken-apart :
      (x y : Bytes) (reserved : List Bytes)
      → any (same x) reserved ≡ true
      → any (same y) reserved ≡ false
      → x ≢ y
  taken-apart x y reserved h n e =
      let t : true ≡ false = sym h ∙ ap (λ z. any (same z) reserved) e ∙ n in cc (t)

  insert-AreFresh :
      (standing reserved : List Bytes) (paths : Dict FilePath) (root c : Bytes)
      → (f : AreFresh standing paths) → IsTaken standing reserved f.names
      → any (same (key c)) reserved ≡ false
      → ensure_path_beneath destination (join_path destination c) ≡ ok tt
      → (g : AreFresh standing (insert root (join_path destination c) paths)) × IsTaken standing
          (key c ∷ reserved)
          g.names
  insert-AreFresh standing reserved paths root c f t new inside = (
    record {
      names = insert root c f.names;
      placed = λ k. insert-placed f.names paths root c k (f.placed k);
      free = λ k d h. elim (inserted root c k d f.names h) [
        | inl here ↦
            ap (λ x. any (same (key x)) standing) (sym here.1)
            ∙ not_reserved (any (same (key c)) standing) (any (same (key c)) reserved)
                (t.before (key c)) new
        | inr old ↦ f.free k d old
      ];
      beneath = λ k d h. elim (inserted root c k d f.names h) [
        | inl here ↦
            ap (λ x. ensure_path_beneath destination (join_path destination x)) (sym here.1)
            ∙ inside
        | inr old ↦ f.beneath k d old
      ];
      apart = λ k l d e other h i. elim (inserted root c k d f.names h) [
        | inl here ↦ elim (inserted root c l e f.names i) [
          | inl there ↦ absurd (other (sym here.0 ∙ there.0))
          | inr old ↦ λ same_keys.
              taken-apart (key e) (key c) reserved (t.taken l e old) new
                (sym same_keys ∙ ap key (sym here.1))
        ]
        | inr first ↦ elim (inserted root c l e f.names i) [
          | inl there ↦ λ same_keys.
              taken-apart (key d) (key c) reserved (t.taken k d first) new
                (same_keys ∙ ap key (sym there.1))
          | inr second ↦ f.apart k l d e other first second
        ]
      ];
    },
    record {
      before = λ x h. ground (arith, t.before x h);
      taken = λ k d h. elim (inserted root c k d f.names h) [
        | inl here ↦
            let equal : same (key d) (key c) ≡ true =
              ap (λ x. same (key x) (key c)) (sym here.1) ∙ same_refl (key c) in
            ground (arith, equal)
        | inr old ↦ ground (arith, t.taken k d old)
      ];
    },
  )

  resolve_roots-AreFresh :
      (standing roots reserved : List Bytes) (paths : Dict FilePath)
      (r : Dict FilePath × List Bytes)
      → (f : AreFresh standing paths) → IsTaken standing reserved f.names
      → resolve_roots key destination roots reserved paths ≡ ok r
      → AreFresh standing r.0
  unfolding resolve_roots
  resolve_roots-AreFresh standing [] reserved paths r f t h =
      let e : (paths, reserved) ≡ r = cc (h) in subst (AreFresh standing) (ap (λ x. x.0) e) f
  resolve_roots-AreFresh standing (root ∷ roots) reserved paths r f t h =
      let (c, chosen, h₁) = >>=-eq-ok (resolve_final_name key destination root reserved) _ h in
      let (new, inside) = resolve_final_name-fresh root reserved c chosen in
      let (g, u) = insert-AreFresh standing reserved paths (key root) c f t new inside in
      resolve_roots-AreFresh standing roots (key c ∷ reserved)
        (insert (key root) (join_path destination c) paths) r g u h₁

  -- When resolveIncomingPaths succeeds, each root has its final path: the destination joined with its name, or
  -- with its name and a number, in a form whose folding no name in the destination has and no other root's chosen
  -- name. Each final path is below the destination. (Of roots with one key the last one gives the name.)
  pub resolve_incoming_paths-AreFresh :
      (roots standing : List Bytes) (paths : Dict FilePath)
      → resolve_incoming_paths key destination roots standing ≡ ok paths
      → AreFresh (map key standing) paths × All (HasPath key destination paths) roots
  unfolding resolve_incoming_paths lookup place
  resolve_incoming_paths-AreFresh roots standing paths h =
      let (r, resolved, h₁) =
        >>=-eq-ok (resolve_roots key destination roots (map key standing) []) _ h in
      let e : r.0 ≡ paths = cc (h₁) in
      let placed =
        subst (λ p. All (HasPath key destination p) roots) e
          (resolve_roots-HasPath key destination roots (map key standing) [] r resolved) in
      let fresh = subst (AreFresh (map key standing)) e (
        resolve_roots-AreFresh (map key standing) roots (map key standing) [] r
          (record {
            names = [];
            placed = λ k. refl;
            free = λ k c x. cc (x);
            beneath = λ k c x. cc (x);
            apart = λ k l c d o x y. cc (x);
          })
          (record { before = λ x b. b; taken = λ k c x. cc (x) }) resolved) in
      (fresh, placed)
