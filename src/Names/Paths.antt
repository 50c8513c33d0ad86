-- ===== src/Names/Paths.antt =====
-- Every root that is resolved has a final path.
use transferly.Prelude.{
  ℕ, zero, suc, ◌≡◌, ap, sym, subst, ◌∙◌, Bool, true, false, ◌⊎◌, inl, inr, List, [], ◌∷◌, some,
  Bytes, same, same_iff, same_refl, arith, if◌then◌else◌, length, any, All, Dict, lookup, insert,
  lookup-insert, ok, reject_if, >>=-eq-ok, Bool-cases,
}
use transferly.Text.FilePath.{FilePath, join_path}
use transferly.Safety.{
  validate_manifest_path, validate_windows_component, ensure_path_beneath, contains,
}
use transferly.Names.{
  separator, candidate, checked, below, find_name, resolve_final_name, resolve_roots,
}

module _ (key : Bytes → Bytes) (destination : FilePath) where
  -- A root has a final path: the destination joined with a candidate for its name (or for that of a later root
  -- with the same key).
  pub record HasPath (paths : Dict FilePath) (root : Bytes) : Type 0 where
    pub name : Bytes
    pub suffix : ℕ
    pub alias : key name ≡ key root
    pub path : lookup (key root) paths ≡ some (join_path destination (candidate name suffix))

  find_name-candidate :
      (fuel suffix : ℕ) (name : Bytes) (reserved : List Bytes) (c : Bytes)
      → find_name key destination fuel suffix name reserved ≡ ok c
      → (n : ℕ) × (c ≡ candidate name n)
  unfolding find_name
  find_name-candidate zero suffix name reserved c h = cc
  find_name-candidate (suc fuel) suffix name reserved c h =
      let (_, _, h₁) =
        >>=-eq-ok (checked (validate_windows_component (candidate name suffix))) _ h in
      let (_, _, h₂) =
        >>=-eq-ok
          (below (ensure_path_beneath destination (join_path destination (candidate name suffix))))
          _ h₁ in
      let chosen = λ (b : Bool).
        if b
        then find_name key destination fuel (suc suffix) name reserved
        else ok (candidate name suffix) in
      elim (Bool-cases (any (same (key (candidate name suffix))) reserved)) [
        | inl taken ↦
            find_name-candidate fuel (suc suffix) name reserved c (ap chosen (sym taken) ∙ h₂)
        | inr free ↦
            let e : ok (candidate name suffix) ≡ ok c = ap chosen (sym free) ∙ h₂ in
            (suffix, cc (e))
      ]

  resolve_final_name-candidate :
      (name : Bytes) (reserved : List Bytes) (c : Bytes)
      → resolve_final_name key destination name reserved ≡ ok c
      → (n : ℕ) × (c ≡ candidate name n)
  unfolding resolve_final_name
  resolve_final_name-candidate name reserved c h =
      let (_, _, h₁) = >>=-eq-ok (checked (validate_manifest_path name)) _ h in
      let (_, _, h₂) = >>=-eq-ok (reject_if (contains name b'/') separator) _ h₁ in
      find_name-candidate (suc (length reserved)) 0 name reserved c h₂

  -- The path of a root that is resolved, and of every root that has one.
  insert-HasPath :
      (paths : Dict FilePath) (root c x : Bytes)
      → ((n : ℕ) × (c ≡ candidate root n))
      → (same (key root) (key x) ≡ true) ⊎ HasPath paths x
      → HasPath (insert (key root) (join_path destination c) paths) x
  insert-HasPath paths root c x (n, named) has = elim (Bool-cases (same (key root) (key x))) [
    | inl this ↦ record {
      name = root;
      suffix = n;
      alias = ground (arith, same_iff (key root) (key x));
      path =
          lookup-insert (key root) (key x) (join_path destination c) paths
          ∙ rw this (ap (λ d. some (join_path destination d)) named);
    }
    | inr other ↦ elim has [
      | inl this ↦ (let t : false ≡ true = sym other ∙ this in cc (t))
      | inr old ↦ record {
        name = old.name;
        suffix = old.suffix;
        alias = old.alias;
        path = lookup-insert (key root) (key x) (join_path destination c) paths ∙ rw other old.path;
      }
    ]
  ]

  resolve_roots-keeps :
      (roots reserved : List Bytes) (paths : Dict FilePath) (r : Dict FilePath × List Bytes)
      (x : Bytes)
      → resolve_roots key destination roots reserved paths ≡ ok r
      → HasPath paths x
      → HasPath r.0 x
  unfolding resolve_roots
  resolve_roots-keeps [] reserved paths r x h has =
      let e : (paths, reserved) ≡ r = cc (h) in subst (λ p. HasPath p x) (ap (λ y. y.0) e) has
  resolve_roots-keeps (root ∷ roots) reserved paths r x h has =
      let (c, chosen, h₁) = >>=-eq-ok (resolve_final_name key destination root reserved) _ h in
      resolve_roots-keeps roots (key c ∷ reserved)
        (insert (key root) (join_path destination c) paths) r x h₁
        (insert-HasPath paths root c x (resolve_final_name-candidate root reserved c chosen)
          (inr has))

  pub resolve_roots-HasPath :
      (roots reserved : List Bytes) (paths : Dict FilePath) (r : Dict FilePath × List Bytes)
      → resolve_roots key destination roots reserved paths ≡ ok r
      → All (HasPath r.0) roots
  unfolding resolve_roots
  resolve_roots-HasPath [] reserved paths r h = tt
  resolve_roots-HasPath (root ∷ roots) reserved paths r h =
      let (c, chosen, h₁) = >>=-eq-ok (resolve_final_name key destination root reserved) _ h in
      let after = insert (key root) (join_path destination c) paths in
      let here =
        insert-HasPath paths root c root (resolve_final_name-candidate root reserved c chosen)
          (inl (same_refl (key root))) in
      (
        resolve_roots-keeps roots (key c ∷ reserved) after r root h₁ here,
        resolve_roots-HasPath roots (key c ∷ reserved) after r h₁,
      )
